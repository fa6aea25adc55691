-- ===== src/Prefixes/Attach.antt =====
-- What follows the descent of `__ebmb_insert_prefix`, in all its branches.
use ebmbtreebench.Prelude.{
  ℕ, Option, some, ◌≡◌, ◌≢◌, ◌⊎◌, ◌<◌, ◌≤◌, ◌+◌, ◌*◌, ◌==◌, ◌/◌, ltb, not, true, false, arith, refl,
  sym, ap, Bool-cases, inl, inr, ==_iff, ◌∙◌, if◌then◌else◌, ◌^◌, ◌%◌,
}
use ebmbtreebench.Memory.{Ptr, Mem, Bit, negsuc, set_bit, to_short}
use ebmbtreebench.Tree.{Tree, Ctx, slot, plug, height, root_of}
use ebmbtreebench.Tree.Count.{leaf_count, leaf_count-plug}
use ebmbtreebench.Tree.Valid.{Valid, Site-of_Valid}
use ebmbtreebench.Insert.Grown.{CanInsert}
use ebmbtreebench.Dup.Append.{lower}
use ebmbtreebench.Dup.Spine.{OnSpine, OnSpine-self}
use ebmbtreebench.Order.{FitsIn}
use ebmbtreebench.Bytes.{Bytes, get_bit}
use ebmbtreebench.Bytes.Check.{AllEqual}
use ebmbtreebench.Scalar.{Place, is_leaf, put_between, prepare}
use ebmbtreebench.Scalar.Between.{place_of, prepare_twice}
use ebmbtreebench.Scalar.Correct.{prepare-Valid, between-Put}
use ebmbtreebench.Scalar.Descent.{top_of}
use ebmbtreebench.Scalar.Whole.{dup_case, link_lower}
use ebmbtreebench.Dup.{eb_insert_dup}
use ebmbtreebench.Wide.{set_parent}
use ebmbtreebench.Prefixes.Insert.{
  at_leaves, at_covered, at_parted, limit, prefix_attach, prefix_attach_leaves,
}
use ebmbtreebench.Prefixes.Order.{ends_here, goes_on, PrefixLies, IsPrefixRadix, leaf_count-top_of}
use ebmbtreebench.Prefixes.Same.{prefix_spine}
use mathlib.Core.Path.{subst}
use ebmbtreebench.Prefixes.Put.{
  PrefixGrown, PrefixEnds, cmp_apart, sub_radix, put_right, cover_above, part_above,
}

module _ (key : Ptr → Bytes) (pfx : Ptr → ℕ) (f tag : ℕ) (m : Mem) (new : Ptr)
    (short : pfx new < 2 ^ 14) where
  module _ (root : Ptr) (side : ℕ) (c : Ctx) (t : Tree) (cell : root + side ≡ slot c)
      (fuel : height (plug c t) < f) (v : Valid m (root_of c) (some (plug c t)))
      (fresh : CanInsert new (root_of c) (some (plug c t)))
      (radix : IsPrefixRadix key pfx (plug c t)) (fits : FitsIn (PrefixLies key pfx) new c) where
    abbrev old : Ptr
    old = top_of t

    abbrev here : Place
    here = place_of root side t

    abbrev kept : Bit → Mem
    kept k = prepare here new k m

    abbrev Ends : Option (Ptr × Mem) → Type 0
    Ends = PrefixEnds key pfx f tag m new short c t

    -- What is left where the old prefixes are the new one.
    abbrev beside : Option (Ptr × Mem)
    beside =
        if tag == 0
        then if is_leaf here
          then some (new, put_between true here new (kept (negsuc 0)))
          else eb_insert_dup f old new (kept (negsuc 0))
        else some (old, kept (negsuc 0))

    module _
        (level : (y : Ptr)
          → 0 < leaf_count y t
          → (pfx y ≡ pfx old) × AllEqual (key y) (key old) 0 (pfx old)) where
      module _ (length : pfx new ≡ pfx old) (bits : AllEqual (key new) (key old) 0 (pfx new)) where
        spine :
            (c' : Ctx) (t' : Tree) (s : ℕ)
            → OnSpine c t c' t'
            → PrefixGrown key pfx new c' t' (lower t') s
        spine c' t' s on =
            prefix_spine key pfx new c c' t t' s radix
              (λ y i.
                let h = level y i in
                (h.0 ∙ sym length, λ j lo hi. h.1 j lo (omega arith) ∙ sym (bits j lo hi)))
              on

        beside-Ends : Ends beside
        beside-Ends = elim (Bool-cases (tag == 0)) [
          | inl z ↦ elim (Bool-cases (is_leaf here)) [
            | inl e ↦
                rw (z, e)
                  (inl (
                    between-Put m c t new (negsuc 0) root side cell v fresh
                      (PrefixGrown key pfx new) true
                      (subst (λ k. PrefixGrown key pfx new c t k 0)
                        (sym (link_lower m (slot c) t (Site-of_Valid m c t v).holds e))
                        (spine c t 0 (OnSpine-self c t)))))
            | inr e ↦
                rw (z, e)
                  (inl (
                    dup_case (PrefixGrown key pfx new) f (kept (negsuc 0)) new c t e fuel
                      (prepare-Valid m c t new here (negsuc 0) v fresh) fresh
                      (λ c' t' s left on. spine c' t' s on)))
          ]
          | inr z ↦ rw z (
              inr (record {
                store = kept (negsuc 0);
                old = old;
                runs = refl;
                same_length = length;
                same_bits = bits;
                tagged = let i : tag ≢ 0 = ground arith in i;
                valid = prepare-Valid m c t new here (negsuc 0) v fresh;
                there = omega (
                  arith,
                  leaf_count-top_of key pfx t (
                      sub_radix key pfx f tag m new short root side c t cell fuel v fresh radix
                        fits),
                  leaf_count-plug old c t,
                );
              }))
        ]

      -- From here on the lengths decide, since the bits are the same as far as they count.
      by_length :
          (b : ℕ)
          → b ≤ pfx new
          → b ≤ pfx old
          → AllEqual (key new) (key old) 0 b
          → (pfx old ≤ b) ⊎ (pfx new ≤ b)
          → Ends (
              if pfx new == pfx old
              then beside
              else some (
                new,
                put_between (not (ltb (pfx new) (pfx old))) here new (kept (to_short (b * 2))),
              ))
      by_length b le_new le_old bits all = elim (Bool-cases (pfx new == pfx old)) [
        | inl e ↦
            let length = (==_iff (pfx new) (pfx old)).0 e in
            rw e (
              beside-Ends length
                (λ j lo hi. bits j lo (elim all [ inl i ↦ omega arith | inr i ↦ omega arith ])))
        | inr e ↦ elim (Bool-cases (ltb (pfx new) (pfx old))) [
          | inl lt ↦
              let less : pfx new < pfx old = ground (arith, lt) in
              let end : pfx new ≡ b = elim all [ inl i ↦ omega arith | inr i ↦ omega arith ] in
              rw (e, lt)
                (subst
                  (λ z. Ends (some (new, put_between false here new (kept (to_short (z * 2)))))) end
                  (cover_above key pfx f tag m new short root side c t cell fuel v fresh radix fits
                    (λ y i.
                      let h = level y i in
                      (
                        (λ j lo hi. h.1 j lo (omega arith) ∙ sym (bits j lo (omega arith))),
                        omega (arith, h.0),
                      ))))
          | inr ge ↦
              let less : pfx old < pfx new = ground (arith, e, ge) in
              let end : pfx old ≡ b = elim all [ inl i ↦ omega arith | inr i ↦ omega arith ] in
              let half : b * 2 / 2 ≡ b = omega arith in
              let even : b * 2 % 2 ≡ 0 = omega arith in
              rw (e, ge)
                (put_right key pfx f tag m new short root side c t cell fuel v fresh radix fits
                  (b * 2) (omega arith)
                  (λ y i.
                    let h = level y i in
                    (
                      (λ j lo hi. h.1 j lo (omega arith) ∙ sym (bits j lo (omega arith))),
                      ends_here even refl (h.0 ∙ end ∙ sym half),
                    ))
                  ((λ j lo hi. refl), goes_on even refl (omega arith)))
        ]
      ]

      pub leaves-Ends :
          (bit : ℕ)
          → AllEqual (key new) (key old) 0 (limit (limit bit (pfx new)) (pfx old))
          → (limit (limit bit (pfx new)) (pfx old) < pfx old
              → limit (limit bit (pfx new)) (pfx old) < pfx new
              → get_bit (key new) (limit (limit bit (pfx new)) (pfx old))
                ≢ get_bit (key old) (limit (limit bit (pfx new)) (pfx old)))
          → Ends (prefix_attach key pfx f tag (at_leaves here bit) new m)
      unfolding prefix_attach prefix_attach_leaves set_parent prepare
      leaves-Ends bit bits apart =
          let b = limit (limit bit (pfx new)) (pfx old) in
          let le_new : b ≤ pfx new = ground arith in
          let le_old : b ≤ pfx old = ground arith in
          let twice = prepare_twice here new (to_short (b * 2 + 1)) (to_short (b * 2)) m in
          let thrice =
            ap (set_bit new (negsuc 0)) twice
            ∙ prepare_twice here new (to_short (b * 2)) (negsuc 0) m in
          elim (Bool-cases (ltb b (pfx old))) [
            | inr ge ↦
                rw (ge, thrice, twice) (by_length b le_new le_old bits (inl (ground (arith, ge))))
            | inl lt ↦ elim (Bool-cases (ltb b (pfx new))) [
              | inr ge ↦
                  rw (lt, ge, thrice, twice)
                    (by_length b le_new le_old bits (inr (ground (arith, ge))))
              | inl lt' ↦
                  let less : b < pfx old = ground (arith, lt) in
                  let less' : b < pfx new = ground (arith, lt') in
                  let d = apart less less' in
                  rw (lt, lt', cmp_apart (key new) (key old) b d)
                    (part_above key pfx f tag m new short root side c t cell fuel v fresh radix fits
                      b less' d
                      (λ y i.
                        let h = level y i in
                        (
                          (λ j lo hi. h.1 j lo (omega arith) ∙ sym (bits j lo hi)),
                          omega (arith, h.0),
                          h.1 b (omega arith) less,
                        )))
            ]
          ]

    pub covered-Ends :
        ((y : Ptr)
          → 0 < leaf_count y t
          → AllEqual (key y) (key new) 0 (pfx new) × (pfx new < pfx y))
        → Ends (prefix_attach key pfx f tag (at_covered here) new m)
    unfolding prefix_attach set_parent prepare
    covered-Ends longer =
        cover_above key pfx f tag m new short root side c t cell fuel v fresh radix fits longer

    pub parted-Ends :
        (b : ℕ)
        → b < pfx new
        → get_bit (key new) b ≢ get_bit (key old) b
        → ((y : Ptr)
            → 0 < leaf_count y t
            → AllEqual (key y) (key new) 0 b
              × (b < pfx y)
              × (get_bit (key y) b ≡ get_bit (key old) b))
        → Ends (prefix_attach key pfx f tag (at_parted here (b * 2 + 1)) new m)
    unfolding prefix_attach set_parent prepare
    parted-Ends b lt differs lie =
        let half : (b * 2 + 1) / 2 ≡ b = omega arith in
        rw half (
          part_above key pfx f tag m new short root side c t cell fuel v fresh radix fits b lt
            differs lie)
