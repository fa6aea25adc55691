-- ===== src/Prefixes/Put.antt =====
-- A new prefix on either side of the subtree at a slot, with the bit of the new node.
use ebmbtreebench.Prelude.{
  ℕ, Option, some, ◌≡◌, ◌≢◌, ◌⊎◌, ◌<◌, ◌+◌, ◌*◌, ◌/◌, not, true, false, arith, refl, sym, ap, inl,
  inr, ◌∙◌, ◌^◌, ◌%◌,
}
use ebmbtreebench.Memory.{is_neg, Ptr, Mem, Bit, pos, to_short, to_short_small}
use ebmbtreebench.Tree.{Tree, Ctx, slot, plug, height, root_of}
use ebmbtreebench.Tree.Count.{leaf_count}
use ebmbtreebench.Tree.Valid.{Valid}
use ebmbtreebench.Insert.{grow}
use ebmbtreebench.Insert.Grown.{CanInsert}
use ebmbtreebench.Order.{FitsIn, IsPlaced-sub}
use ebmbtreebench.Order.Grow.{grown-IsPlaced}
use ebmbtreebench.Bytes.{Bytes, cmp_bits, get_bit}
use ebmbtreebench.Bytes.Check.{AllEqual}
use ebmbtreebench.Scalar.{Place, put_between, prepare}
use ebmbtreebench.Scalar.Between.{place_of}
use ebmbtreebench.Scalar.Correct.{Put, between-Put}
use ebmbtreebench.Scalar.Descent.{top_of}
use ebmbtreebench.Blocks.{is_zero}
use ebmbtreebench.Blocks.Insert.{cmp_bits-cases}
use ebmbtreebench.Prefixes.Order.{
  ends_here, goes_on, parts, PrefixLies, IsPrefixRadix, below_left, below_rght,
}

-- The tree is as it was, and `old`, which is a leaf of it, has the prefix of the structure.
pub record PrefixRefused (key : Ptr → Bytes) (pfx : Ptr → ℕ) (result : Option (Ptr × Mem))
    (root_tag : ℕ) (root : Ptr) (t : Tree) (new : Ptr) : Type 0 where
  pub store : Mem
  pub old : Ptr
  pub runs : result ≡ some (old, store)
  pub same_length : pfx new ≡ pfx old
  pub same_bits : AllEqual (key new) (key old) 0 (pfx new)
  pub tagged : root_tag ≢ 0
  pub valid : Valid store root (some t)
  pub there : 0 < leaf_count old t

-- The tree that an insertion makes has its leaves where its nodes say.
abbrev pub PrefixGrown : (Ptr → Bytes) → (Ptr → ℕ) → Ptr → Ctx → Tree → Bit → ℕ → Type 0
PrefixGrown key pfx new c t k side = IsPrefixRadix key pfx (plug c (grow new k side t))

-- Bits that differ do not compare as equal.
pub cmp_apart : (a b : Bytes) (n : ℕ) → get_bit a n ≢ get_bit b n → is_zero (cmp_bits a b n) ≡ false
cmp_apart a b n d = elim (cmp_bits-cases a b n d) [
  | inl (za, ob, e) ↦ rw e refl
  | inr (oa, zb, e) ↦ rw e refl
]

module _ (key : Ptr → Bytes) (pfx : Ptr → ℕ) (f tag : ℕ) (m : Mem) (new : Ptr)
    (short : pfx new < 2 ^ 14) where
  abbrev pub PrefixEnds : Ctx → Tree → Option (Ptr × Mem) → Type 0
  PrefixEnds c t r =
      Put (PrefixGrown key pfx new) r (root_of c) (plug c t) new
      ⊎ PrefixRefused key pfx r tag (root_of c) (plug c t) new

  module _ (root : Ptr) (side : ℕ) (c : Ctx) (t : Tree) (cell : root + side ≡ slot c)
      (fuel : height (plug c t) < f) (v : Valid m (root_of c) (some (plug c t)))
      (fresh : CanInsert new (root_of c) (some (plug c t)))
      (radix : IsPrefixRadix key pfx (plug c t)) (fits : FitsIn (PrefixLies key pfx) new c) where
    abbrev old : Ptr
    old = top_of t

    abbrev here : Place
    here = place_of root side t

    abbrev kept : Bit → Mem
    kept k = prepare here new k m

    abbrev Ends : Option (Ptr × Mem) → Type 0
    Ends = PrefixEnds c t

    pub sub_radix : IsPrefixRadix key pfx t
    sub_radix = IsPlaced-sub (PrefixLies key pfx) c t radix

    -- The new leaf on the right of the subtree, and on its left.
    pub put_right :
        (n : ℕ)
        → n < 2 ^ 15
        → ((y : Ptr) → 0 < leaf_count y t → PrefixLies key pfx new (pos n) 0 y)
        → PrefixLies key pfx new (pos n) 1 new
        → Ends (some (new, put_between true here new (kept (to_short n))))
    put_right n small lie own = rw (to_short_small n small) (
        inl (
          between-Put m c t new (pos n) root side cell v fresh (PrefixGrown key pfx new) true (
            grown-IsPlaced (PrefixLies key pfx) new (pos n) 0 c t radix
              (below_left key pfx new (pos n) t sub_radix lie own) fits)))

    put_left :
        (n : ℕ)
        → n < 2 ^ 15
        → ((y : Ptr) → 0 < leaf_count y t → PrefixLies key pfx new (pos n) 1 y)
        → PrefixLies key pfx new (pos n) 0 new
        → Ends (some (new, put_between false here new (kept (to_short n))))
    put_left n small lie own = rw (to_short_small n small) (
        inl (
          between-Put m c t new (pos n) root side cell v fresh (PrefixGrown key pfx new) false (
            grown-IsPlaced (PrefixLies key pfx) new (pos n) 1 c t radix
              (below_rght key pfx new (pos n) t sub_radix lie own) fits)))

    -- Before a node, or leaves, that are longer than the new prefix and start with it.
    pub cover_above :
        ((y : Ptr)
          → 0 < leaf_count y t
          → AllEqual (key y) (key new) 0 (pfx new) × (pfx new < pfx y))
        → Ends (some (new, put_between false here new (kept (to_short (pfx new * 2)))))
    cover_above longer =
        let half : pfx new * 2 / 2 ≡ pfx new = omega arith in
        let even : pfx new * 2 % 2 ≡ 0 = omega arith in
        put_left (pfx new * 2) (omega arith)
          (λ y i.
            let h = longer y i in
            ((λ j lo hi. h.0 j lo (omega arith)), goes_on even refl (let lt = h.1 in omega arith)))
          ((λ j lo hi. refl), ends_here even refl (sym half))

    -- Where the prefixes have the first `b` bits, and then part.
    pub part_above :
        (b : ℕ)
        → b < pfx new
        → get_bit (key new) b ≢ get_bit (key old) b
        → ((y : Ptr)
            → 0 < leaf_count y t
            → AllEqual (key y) (key new) 0 b
              × (b < pfx y)
              × (get_bit (key y) b ≡ get_bit (key old) b))
        → Ends (
            some (
              new,
              put_between
                  (not (is_neg (cmp_bits (key new) (key old) b)))
                  here
                  new
                  (kept (to_short (b * 2 + 1))),
            ))
    part_above b lt differs lie =
        let half : (b * 2 + 1) / 2 ≡ b = omega arith in
        let odd : (b * 2 + 1) % 2 ≡ 1 = omega arith in
        let at =
          λ (y : Ptr) (s : ℕ) (same : AllEqual (key y) (key new) 0 b) (less : b < pfx y)
              (e : get_bit (key y) b ≡ s).
            let r : PrefixLies key pfx new (pos (b * 2 + 1)) s y = (
              (λ j lo hi. same j lo (omega arith)),
              parts odd (omega arith) (ap (get_bit (key y)) half ∙ e),
            ) in
            r in
        elim (cmp_bits-cases (key new) (key old) b differs) [
          | inl (zn, oo, e) ↦ rw e (
              put_left (b * 2 + 1) (omega arith)
                (λ y i. let h = lie y i in at y 1 h.0 h.1 (h.2 ∙ oo))
                (at new 0 (λ j lo hi. refl) lt zn))
          | inr (on, zo, e) ↦ rw e (
              put_right (b * 2 + 1) (omega arith)
                (λ y i. let h = lie y i in at y 0 h.0 h.1 (h.2 ∙ zo))
                (at new 1 (λ j lo hi. refl) lt on))
        ]
