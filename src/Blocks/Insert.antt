-- ===== src/Blocks/Insert.antt =====
-- What follows the descent of `__ebmb_insert`, on a valid tree whose leaves lie where its nodes say, in all its branches.
use ebmbtreebench.Prelude.{
  ℕ, suc, true, false, Option, some, ◌≡◌, ◌≢◌, ◌⊎◌, ◌<◌, ◌+◌, ◌*◌, ◌/◌, ◌^◌, ltb, arith, refl, sym,
  ◌∙◌, inl, inr, ◌≤◌, if◌then◌else◌, ap, Bool-cases, ◌==◌,
}
use ebmbtreebench.Memory.{to_short, to_short_small, Ptr, Mem, Bit, pos, negsuc}
use ebmbtreebench.Tree.{Tree, Ctx, plug, height, root_of, slot}
use ebmbtreebench.Tree.Count.{leaf_count, leaf_count-plug}
use ebmbtreebench.Tree.Valid.{Valid, ℕ-cases, Site-of_Valid}
use ebmbtreebench.Insert.{grow}
use ebmbtreebench.Insert.Grown.{CanInsert}
use ebmbtreebench.Order.{FitsIn, IsPlaced-sub}
use ebmbtreebench.Order.Grow.{grown-IsPlaced}
use ebmbtreebench.Bytes.{Bytes, get_bit, cmp_bits}
use ebmbtreebench.Bytes.Byte.{bit_one, equal_bytes}
use ebmbtreebench.Scalar.{Place, prepare, is_leaf, put_between}
use ebmbtreebench.Scalar.Between.{place_of, prepare_twice}
use ebmbtreebench.Scalar.Correct.{Put, between-Put, prepare-Valid}
use ebmbtreebench.Scalar.Descent.{top_of}
use ebmbtreebench.Blocks.{BlockPlace, ebmb_attach, prepare, is_leaf, put_between, eb_insert_dup}
use ebmbtreebench.Blocks.Order.{BlockLies, IsBlockRadix, IsCommon, leaf_count-top_of}
use ebmbtreebench.Blocks.Descent.{PartAt, BlockEnds}
use ebmbtreebench.Blocks.Grow.{apart-IsBlockRadix, beside_spine, IsAbsent, IsAbsent-plug}
use ebmbtreebench.Bytes.Check.{AllEqual}
use ebmbtreebench.Dup.Spine.{OnSpine, OnSpine-self}
use ebmbtreebench.Dup.Append.{lower}
use ebmbtreebench.Dup.{eb_insert_dup}
use mathlib.Core.Path.{subst}
use ebmbtreebench.Scalar.Whole.{link_lower, dup_case}

-- The tree is as it was, and `old`, which is a leaf of it, has the block of the structure.
pub record BlockRefused (key : Ptr → Bytes) (len : ℕ) (result : Option (Ptr × Mem)) (root_tag : ℕ)
    (root : Ptr) (t : Tree) (new : Ptr) : Type 0 where
  pub store : Mem
  pub old : Ptr
  pub runs : result ≡ some (old, store)
  pub same_key : (i : ℕ) → i < len → key new i ≡ key old i
  pub tagged : root_tag ≢ 0
  pub valid : Valid store root (some t)
  pub there : 0 < leaf_count old t

-- The tree that an insertion makes has its leaves where its nodes say, and at a unique root no leaf
-- has had the bits of the new block before.
abbrev pub BlockGrown : (Ptr → Bytes) → ℕ → ℕ → Ptr → Ctx → Tree → Bit → ℕ → Type 0
BlockGrown key len tag new c t k side =
    IsBlockRadix key (len * 8) (plug c (grow new k side t))
    × ((tag ≡ 0) ⊎ IsAbsent key (len * 8) new (plug c t))

-- The same, where the numbers of the bits fit in a `short int` or not.
abbrev pub BlockKept : (Ptr → Bytes) → ℕ → ℕ → Ptr → Ctx → Tree → Bit → ℕ → Type 0
BlockKept key len tag new c t k side =
    (len ≤ 4096 → IsBlockRadix key (len * 8) (plug c (grow new k side t)))
    × ((tag ≡ 0) ⊎ IsAbsent key (len * 8) new (plug c t))

-- What `cmp_bits` tells of bits that differ.
pub cmp_bits-cases :
    (a b : Bytes) (n : ℕ)
    → get_bit a n ≢ get_bit b n
    → ((get_bit a n ≡ 0) × (get_bit b n ≡ 1) × (cmp_bits a b n ≡ negsuc 0))
      ⊎ ((get_bit a n ≡ 1) × (get_bit b n ≡ 0) × (cmp_bits a b n ≡ pos 1))
unfolding cmp_bits get_bit
cmp_bits-cases a b n differs = elim (ℕ-cases (get_bit a n)) [
  | inl za ↦
      let ob : get_bit b n ≡ 1 = elim (ℕ-cases (get_bit b n)) [
        | inl zb ↦ absurd (differs (za ∙ sym zb))
        | inr i ↦ bit_one b n i
      ] in
      inl (za, ob, rw (za, ob) refl)
  | inr i ↦
      let oa = bit_one a n i in
      let zb : get_bit b n ≡ 0 = elim (ℕ-cases (get_bit b n)) [
        | inl zb ↦ zb
        | inr j ↦ absurd (differs (oa ∙ sym (bit_one b n j)))
      ] in
      inr (oa, zb, rw (oa, zb) refl)
]

module _ (key : Ptr → Bytes) (bytes : (y : Ptr) (i : ℕ) → key y i < 256) (len f tag : ℕ) (m : Mem)
    (new : Ptr) (root : Ptr) (side : ℕ) (c : Ctx) (t : Tree) (cell : root + side ≡ slot c)
    (fuel : height (plug c t) < f) (v : Valid m (root_of c) (some (plug c t)))
    (fresh : CanInsert new (root_of c) (some (plug c t)))
    (radix : IsBlockRadix key (len * 8) (plug c t))
    (fits : FitsIn (BlockLies key (len * 8)) new c) where
  abbrev w : ℕ
  w = len * 8

  abbrev Ends : Option (Ptr × Mem) → Type 0
  Ends r =
      Put (BlockKept key len tag new) r (root_of c) (plug c t) new
      ⊎ BlockRefused key len r tag (root_of c) (plug c t) new

  abbrev old : Ptr
  old = top_of t

  abbrev here : Place
  here = place_of root side t

  abbrev at_bit : ℕ → BlockPlace
  at_bit bit = record { at = here; bit = bit }

  part_grown :
      (bit s : ℕ)
      → PartAt (key new) (key old) w bit
      → IsCommon key (suc bit) old t
      → get_bit (key old) bit ≡ s
      → (s ≡ 0) × (get_bit (key new) bit ≡ 1) ⊎ (s ≡ 1) × (get_bit (key new) bit ≡ 0)
      → BlockKept key len tag new c t (to_short bit) s
  part_grown bit s part common at ways =
      let within = part.within in
      (
        (λ le.
            subst (λ k. IsBlockRadix key w (plug c (grow new k s t)))
              (sym (to_short_small bit (omega arith)))
              (grown-IsPlaced (BlockLies key w) new (pos bit) s c t radix
                (apart-IsBlockRadix key w new t bit s part.within
                  (IsPlaced-sub (BlockLies key w) c t radix)
                  (λ y i. (
                    (λ j lo hi. common y i j lo (omega arith) ∙ sym (part.same j lo hi)),
                    common y i bit (omega arith) (omega arith) ∙ at,
                  ))
                  ways)
                fits)),
        inr (
            IsAbsent-plug key w new c t fits radix (λ y i same.
              part.differs
                (same bit (omega arith) within ∙ common y i bit (omega arith) (omega arith)))),
      )

  part_case :
      (bit : ℕ)
      → PartAt (key new) (key old) w bit
      → IsCommon key (suc bit) old t
      → Ends (ebmb_attach key len f tag (at_bit bit) new m)
  unfolding ebmb_attach
  part_case bit part common =
      let within = part.within in
      let short : ltb (bit / 2 ^ 3) len ≡ true = ground arith in
      elim (cmp_bits-cases (key new) (key old) bit part.differs) [
        | inl (zn, oo, e) ↦
            rw (short, e)
              (inl (
                between-Put m c t new (to_short bit) root side cell v fresh
                  (BlockKept key len tag new) false
                  (part_grown bit 1 part common oo (inr (refl, zn)))))
        | inr (on, zo, e) ↦
            rw (short, e)
              (inl (
                between-Put m c t new (to_short bit) root side cell v fresh
                  (BlockKept key len tag new) true
                  (part_grown bit 0 part common zo (inl (refl, on)))))
      ]

  abbrev marked : Mem
  marked = prepare here new (negsuc 0) m

  marked-Valid : Valid marked (root_of c) (some (plug c t))
  marked-Valid = prepare-Valid m c t new here (negsuc 0) v fresh

  -- What is left of `ebmb_attach` where the blocks are equal, from the store `n`.
  abbrev same_ends : Mem → Option (Ptr × Mem)
  same_ends n =
      if tag == 0
      then if is_leaf here
        then some (new, put_between true here new n)
        else eb_insert_dup f old new n
      else some (old, n)

  attach_same :
      (bit : ℕ) → w ≤ bit → ebmb_attach key len f tag (at_bit bit) new m ≡ same_ends marked
  unfolding ebmb_attach
  attach_same bit le =
      let past : ltb (bit / 2 ^ 3) len ≡ false = ground arith in
      rw past (ap same_ends (prepare_twice here new (to_short bit) (negsuc 0) m))

  top_leaf : 0 < leaf_count old t
  top_leaf = leaf_count-top_of key w t (IsPlaced-sub (BlockLies key w) c t radix)

  module _ (same : AllEqual (key new) (key old) 0 w) (common : IsCommon key w old t) where
    all_same : (y : Ptr) → 0 < leaf_count y t → AllEqual (key y) (key new) 0 w
    all_same y i j lo hi = common y i j lo hi ∙ sym (same j lo hi)

    spine_grown :
        tag ≡ 0
        → (c' : Ctx) (t' : Tree) (s : ℕ) → OnSpine c t c' t'
        → BlockKept key len tag new c' t' (lower t') s
    spine_grown z c' t' s on = ((λ le. beside_spine key w new c c' t t' s radix all_same on), inl z)

    added_case :
        tag ≡ 0
        → Put
            (BlockKept key len tag new)
            (if is_leaf here
              then some (new, put_between true here new marked)
              else eb_insert_dup f old new marked)
            (root_of c)
            (plug c t)
            new
    added_case z = elim (Bool-cases (is_leaf here)) [
      | inl e ↦ rw e (
          between-Put m c t new (negsuc 0) root side cell v fresh (BlockKept key len tag new) true (
            subst (λ k. BlockKept key len tag new c t k 0)
              (sym (link_lower m (slot c) t (Site-of_Valid m c t v).holds e))
              (spine_grown z c t 0 (OnSpine-self c t))))
      | inr e ↦ rw e (
          dup_case (BlockKept key len tag new) f marked new c t e fuel marked-Valid fresh
            (λ c' t' s zero on. spine_grown z c' t' s on))
    ]

    refused_case : (tag == 0) ≡ false → Ends (some (old, marked))
    refused_case e = inr (record {
      store = marked;
      old = old;
      runs = refl;
      same_key = equal_bytes (key new) (key old) len (bytes new) (bytes old) same;
      tagged = let i : tag ≢ 0 = ground arith in i;
      valid = marked-Valid;
      there = omega (arith, top_leaf, leaf_count-plug old c t);
    })

    same_case : (bit : ℕ) → w ≤ bit → Ends (ebmb_attach key len f tag (at_bit bit) new m)
    same_case bit le = rw (attach_same bit le) (elim (Bool-cases (tag == 0)) [
      | inl z ↦ rw z (inl (added_case (let q : tag ≡ 0 = ground arith in q)))
      | inr z ↦ rw z (refused_case z)
    ])

  pub ebmb_attach-Ends :
      (bit : ℕ) → BlockEnds key w new t bit → Ends (ebmb_attach key len f tag (at_bit bit) new m)
  ebmb_attach-Ends bit (inl (part, common)) = part_case bit part common
  ebmb_attach-Ends bit (inr (le, same, common)) = same_case same common bit le
