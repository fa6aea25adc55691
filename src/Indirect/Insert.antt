-- ===== src/Indirect/Insert.antt =====
-- `__ebim_insert` on a valid tree whose leaves lie where its nodes say, in all its branches.
use ebmbtreebench.Prelude.{
  ℕ, suc, true, false, Option, some, ◌≡◌, ◌≢◌, ◌⊎◌, ◌<◌, ◌≤◌, ◌+◌, ◌-◌, ◌*◌, ◌/◌, ◌^◌, ◌==◌, ltb,
  if◌then◌else◌, arith, refl, sym, ap, ◌∙◌, inl, inr, Bool-cases,
}
use ebmbtreebench.Memory.{to_short_small, Ptr, Mem, Bit, pos, negsuc}
use ebmbtreebench.Tree.{Tree, Ctx, plug, height, root_of, slot}
use ebmbtreebench.Tree.Count.{leaf_count-plug}
use ebmbtreebench.Tree.Valid.{Valid, Site-of_Valid}
use ebmbtreebench.Insert.{grow}
use ebmbtreebench.Insert.Grown.{CanInsert}
use ebmbtreebench.Dup.Append.{lower}
use ebmbtreebench.Dup.Spine.{OnSpine, OnSpine-self}
use ebmbtreebench.Order.{FitsIn, IsPlaced-sub}
use ebmbtreebench.Order.Grow.{grown-IsPlaced}
use ebmbtreebench.Bytes.{Bytes, get_bit, cmp_bits, minus}
use ebmbtreebench.Bytes.Byte.{equal_bytes}
use ebmbtreebench.Bytes.Check.{AllEqual}
use ebmbtreebench.Scalar.{Place, is_leaf}
use ebmbtreebench.Scalar.Between.{place_of}
use ebmbtreebench.Scalar.Correct.{Put}
use ebmbtreebench.Scalar.Descent.{top_of}
use ebmbtreebench.Scalar.Whole.{dup_case, link_lower}
use ebmbtreebench.Wide.{set_parent, put_right, finish}
use ebmbtreebench.Wide.Put.{put_left-Put, put_right-Put, set_parent-Valid}
use ebmbtreebench.Blocks.{BlockPlace}
use ebmbtreebench.Blocks.Order.{BlockLies, IsBlockRadix, IsCommon, leaf_count-top_of}
use ebmbtreebench.Blocks.Descent.{PartAt}
use ebmbtreebench.Indirect.Descent.{IndirectEnds}
use ebmbtreebench.Blocks.Grow.{apart-IsBlockRadix, beside_spine}
use ebmbtreebench.Blocks.Insert.{BlockRefused, cmp_bits-cases}
use ebmbtreebench.Indirect.{ebim_attach, eb_insert_dup}
use mathlib.Core.Path.{subst}
use ebmbtreebench.Dup.{eb_insert_dup}

-- The tree that an insertion makes has its leaves where its nodes say, in the bits of `len` bytes
-- and one more.
abbrev pub IndirectGrown : (Ptr → Bytes) → ℕ → Ptr → Ctx → Tree → Bit → ℕ → Type 0
IndirectGrown key len new c t k side = IsBlockRadix key (len * 8 + 1) (plug c (grow new k side t))

minus_self : (x : ℕ) → minus x x ≡ pos 0
minus_self x =
    let e : ltb x x ≡ false = ground arith in rw e (ap pos (let z : x - x ≡ 0 = omega arith in z))

cmp_bits-same : (a b : Bytes) (n : ℕ) → get_bit a n ≡ get_bit b n → cmp_bits a b n ≡ pos 0
unfolding cmp_bits get_bit
cmp_bits-same a b n e = ap (λ z. minus z (get_bit b n)) e ∙ minus_self (get_bit b n)

module _ (key : Ptr → Bytes) (bytes : (y : Ptr) (i : ℕ) → key y i < 256) (len : ℕ)
    (some_bytes : 0 < len) (short : len ≤ 4095) (f tag : ℕ) (m : Mem) (new root : Ptr) (side : ℕ)
    (c : Ctx) (t : Tree) (cell : root + side ≡ slot c) (fuel : height (plug c t) < f)
    (v : Valid m (root_of c) (some (plug c t)))
    (fresh : CanInsert new (root_of c) (some (plug c t)))
    (radix : IsBlockRadix key (len * 8 + 1) (plug c t))
    (fits : FitsIn (BlockLies key (len * 8 + 1)) new c) where
  abbrev w : ℕ
  w = len * 8 + 1

  abbrev P : Ctx → Tree → Bit → ℕ → Type 0
  P = IndirectGrown key len new

  abbrev Ends : Option (Ptr × Mem) → Type 0
  Ends r =
      Put P r (root_of c) (plug c t) new ⊎ BlockRefused key len r tag (root_of c) (plug c t) new

  abbrev old : Ptr
  old = top_of t

  abbrev here : Place
  here = place_of root side t

  abbrev at_bit : ℕ → BlockPlace
  at_bit bit = record { at = here; bit = bit }

  part_grown :
      (bit s : ℕ)
      → PartAt (key new) (key old) w bit
      → IsCommon key (suc bit) old t
      → get_bit (key old) bit ≡ s
      → (s ≡ 0) × (get_bit (key new) bit ≡ 1) ⊎ (s ≡ 1) × (get_bit (key new) bit ≡ 0)
      → P c t (pos bit) s
  part_grown bit s part common at ways =
      grown-IsPlaced (BlockLies key w) new (pos bit) s c t radix
        (apart-IsBlockRadix key w new t bit s part.within (IsPlaced-sub (BlockLies key w) c t radix)
          (λ y i. (
            (λ j lo hi. common y i j lo (omega arith) ∙ sym (part.same j lo hi)),
            common y i bit (omega arith) (omega arith) ∙ at,
          ))
          ways)
        fits

  part_case :
      (bit : ℕ)
      → PartAt (key new) (key old) w bit
      → IsCommon key (suc bit) old t
      → Ends (ebim_attach key (len * 8) f tag (at_bit bit) new m)
  unfolding ebim_attach
  part_case bit part common =
      let within = part.within in
      let compares : ltb (bit / 2 ^ 3) (len * 8) ≡ true = ground arith in
      let stored = to_short_small bit (omega arith) in
      elim (cmp_bits-cases (key new) (key old) bit part.differs) [
        | inl (zn, oo, e) ↦
            rw (compares, e, stored)
              (inl (
                put_left-Put m new root side c t cell v fresh P (pos bit)
                  (part_grown bit 1 part common oo (inr (refl, zn)))))
        | inr (on, zo, e) ↦
            rw (compares, e, stored)
              (inl (
                put_right-Put m new root side c t cell v fresh P (pos bit)
                  (part_grown bit 0 part common zo (inl (refl, on)))))
      ]

  abbrev marked : Mem
  marked = set_parent here new m

  -- What is left of `ebim_attach` where the blocks are found equal.
  abbrev same_ends : Option (Ptr × Mem)
  same_ends =
      if is_leaf here
      then if tag == 0
        then some (new, finish (negsuc 0) here new (put_right here new marked))
        else some (old, marked)
      else eb_insert_dup f old new marked

  -- At the end of the blocks the bit behind them is compared.
  attach_same :
      (bit : ℕ)
      → bit ≡ len * 8
      → AllEqual (key new) (key old) 0 w
      → ebim_attach key (len * 8) f tag (at_bit bit) new m ≡ same_ends
  unfolding ebim_attach
  attach_same bit end same =
      let compares : ltb (bit / 2 ^ 3) (len * 8) ≡ true = ground arith in
      let e = cmp_bits-same (key new) (key old) bit (same bit (omega arith) (omega arith)) in
      rw (compares, e) refl

  module _ (same : AllEqual (key new) (key old) 0 w) (common : IsCommon key w old t) where
    spine_grown : (c' : Ctx) (t' : Tree) (s : ℕ) → OnSpine c t c' t' → P c' t' (lower t') s
    spine_grown c' t' s on =
        beside_spine key w new c c' t t' s radix
          (λ y i j lo hi. common y i j lo hi ∙ sym (same j lo hi)) on

    leaf_case :
        is_leaf here ≡ true
        → Ends (
            if tag == 0
            then some (new, finish (negsuc 0) here new (put_right here new marked))
            else some (old, marked))
    leaf_case e = elim (Bool-cases (tag == 0)) [
      | inl z ↦ rw z (
          inl (
            put_right-Put m new root side c t cell v fresh P (negsuc 0) (
              subst (λ k. P c t k 0) (sym (link_lower m (slot c) t (Site-of_Valid m c t v).holds e))
                (spine_grown c t 0 (OnSpine-self c t)))))
      | inr z ↦
          let top = leaf_count-top_of key w t (IsPlaced-sub (BlockLies key w) c t radix) in
          rw z (
            inr (record {
              store = marked;
              old = old;
              runs = refl;
              same_key =
                  equal_bytes (key new) (key old) len (bytes new) (bytes old)
                    (λ j lo hi. same j lo (omega arith));
              tagged = let i : tag ≢ 0 = ground arith in i;
              valid = set_parent-Valid m new root side c t cell v fresh;
              there = omega (arith, top, leaf_count-plug old c t);
            }))
    ]

    same_case :
        (bit : ℕ) → bit ≡ len * 8 → Ends (ebim_attach key (len * 8) f tag (at_bit bit) new m)
    same_case bit end = rw (attach_same bit end same) (elim (Bool-cases (is_leaf here)) [
      | inl e ↦ rw e (leaf_case e)
      | inr e ↦ rw e (
          inl (
            dup_case P f marked new c t e fuel (set_parent-Valid m new root side c t cell v fresh)
              fresh (λ c' t' s zero_side on. spine_grown c' t' s on)))
    ])

  pub ebim_attach-Ends :
      (bit : ℕ)
      → IndirectEnds key len new t bit
      → Ends (ebim_attach key (len * 8) f tag (at_bit bit) new m)
  ebim_attach-Ends bit (inl (part, common)) = part_case bit part common
  ebim_attach-Ends bit (inr (end, same, common)) = same_case same common bit end
