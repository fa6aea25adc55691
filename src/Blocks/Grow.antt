-- ===== src/Blocks/Grow.antt =====
-- A new block put where it parts from the blocks of a subtree, or beside blocks with its bits.
use ebmbtreebench.Prelude.{ℕ, suc, ◌≡◌, ◌⊎◌, ◌<◌, ◌==◌, arith, refl, sym, ◌∙◌, inl, inr, Bool-cases}
use ebmbtreebench.Memory.{Ptr, Bit, pos, negsuc}
use ebmbtreebench.Tree.{Tree, leaf, node, Ctx, top, in_left, in_rght, plug, first}
use ebmbtreebench.Tree.Count.{leaf_count, one_if_self}
use ebmbtreebench.Insert.{grow}
use ebmbtreebench.Dup.Append.{lower}
use ebmbtreebench.Dup.Spine.{OnSpine}
use ebmbtreebench.Lookup.Sound.{first_count}
use ebmbtreebench.Order.{FitsIn, FitsIn-leaf, IsPlaced-sub}
use ebmbtreebench.Order.Grow.{grown-IsPlaced}
use ebmbtreebench.Bytes.{Bytes, get_bit}
use ebmbtreebench.Bytes.Check.{AllEqual}
use ebmbtreebench.Blocks.Order.{BlockLies, IsBlockRadix}
use mathlib.Core.Path.{subst}
use ebmbtreebench.Tree.Valid.{ℕ-cases}

module _ (key : Ptr → Bytes) (w : ℕ) (new : Ptr) where
  abbrev Agrees : Tree → Type 0
  Agrees t = (y : Ptr) → 0 < leaf_count y t → AllEqual (key y) (key new) 0 w

  is_new : (y : Ptr) → 0 < leaf_count y (leaf new) → y ≡ new
  unfolding leaf_count
  is_new y i = ground arith

  module _ (t : Tree) (bit s : ℕ) (within : bit < w) (h : IsBlockRadix key w t)
      (old : (y : Ptr)
        → 0 < leaf_count y t
        → AllEqual (key y) (key new) 0 bit × (get_bit (key y) bit ≡ s)) where
    own_Lies :
        (u : ℕ)
        → get_bit (key new) bit ≡ u
        → (y : Ptr) → 0 < leaf_count y (leaf new)
        → BlockLies key w new (pos bit) u y
    own_Lies u e y i =
        subst (BlockLies key w new (pos bit) u) (sym (is_new y i)) (within, (λ j lo hi. refl), e)

    -- The subtree has the side of its bit, and the new leaf the other one.
    pub apart-IsBlockRadix :
        (s ≡ 0) × (get_bit (key new) bit ≡ 1) ⊎ (s ≡ 1) × (get_bit (key new) bit ≡ 0)
        → IsBlockRadix key w (grow new (pos bit) s t)
    unfolding leaf_count
    apart-IsBlockRadix (inl (e, e')) = rw e (
      (λ y i. (within, (old y i).0, (old y i).1 ∙ e)),
      own_Lies 1 e',
      omega (arith, one_if_self new),
      h,
      tt,
    )
    apart-IsBlockRadix (inr (e, e')) = rw e (
      own_Lies 0 e',
      (λ y i. (within, (old y i).0, (old y i).1 ∙ e)),
      omega (arith, one_if_self new),
      tt,
      h,
    )

  -- A node of a tree of duplicates above leaves that all have the bits of the new block.
  beside-IsBlockRadix :
      (t : Tree) (n side : ℕ)
      → IsBlockRadix key w t
      → Agrees t
      → IsBlockRadix key w (grow new (negsuc n) side t)
  unfolding leaf_count
  beside-IsBlockRadix t n side h same =
      let own = λ (y : Ptr) (i : 0 < leaf_count y (leaf new)).
        subst (λ z. AllEqual (key z) (key new) 0 w) (sym (is_new y i)) (λ j lo hi. refl) in
      elim (Bool-cases (side == 0)) [
        | inl e ↦ rw e (same, own, omega (arith, one_if_self new), h, tt)
        | inr e ↦ rw e (own, same, omega (arith, one_if_self new), tt, h)
      ]

  -- A subtree whose leaves have one block has no node with a bit at its top.
  lower-IsBlockRadix :
      (t : Tree) (side : ℕ)
      → IsBlockRadix key w t
      → Agrees t
      → IsBlockRadix key w (grow new (lower t) side t)
  unfolding leaf_count
  lower-IsBlockRadix (leaf a) side g same = beside-IsBlockRadix (leaf a) 0 side g same
  lower-IsBlockRadix (node a (negsuc k) l r) side g same =
      beside-IsBlockRadix (node a (negsuc k) l r) (suc k) side g same
  lower-IsBlockRadix (node a (pos k) l r) side g same =
      let p = first_count l in
      let q = first_count r in
      let (within, el, zl) = g.0 (first l) p in
      let (within', er, zr) = g.1 (first r) q in
      let sl = same (first l) (omega arith) k (omega arith) within in
      let sr = same (first r) (omega arith) k (omega arith) within in
      absurd (omega (arith, sl, sr, zl, zr))

  lies_same :
      (y a : Ptr) (k : Bit) (side : ℕ)
      → AllEqual (key y) (key new) 0 w
      → BlockLies key w a k side y
      → BlockLies key w a k side new
  lies_same y a (pos n) side e (within, same, at) = (
    within,
    (λ j lo hi. sym (e j lo (omega arith)) ∙ same j lo hi),
    sym (e n (omega arith) within) ∙ at,
  )
  lies_same y a (negsuc n) side e same = λ j lo hi. sym (e j lo hi) ∙ same j lo hi

  -- The new block fits where a block with its bits fits.
  FitsIn-same :
      (y : Ptr) (c : Ctx)
      → AllEqual (key y) (key new) 0 w
      → FitsIn (BlockLies key w) y c
      → FitsIn (BlockLies key w) new c
  FitsIn-same y (top root) e h = tt
  FitsIn-same y (in_left a k r c) e h = (lies_same y a k 0 e h.0, FitsIn-same y c e h.1)
  FitsIn-same y (in_rght a k l c) e h = (lies_same y a k 1 e h.0, FitsIn-same y c e h.1)

  pub beside_spine :
      (c c' : Ctx) (t t' : Tree) (side : ℕ)
      → IsBlockRadix key w (plug c t)
      → Agrees t
      → OnSpine c t c' t'
      → IsBlockRadix key w (plug c' (grow new (lower t') side t'))
  beside_spine c c' t t' side g same on =
      let whole = subst (IsBlockRadix key w) (sym on.whole) g in
      let same' = λ (y : Ptr) (i : 0 < leaf_count y t'). same y (omega (arith, i, on.inside y)) in
      let p = first_count t' in
      grown-IsPlaced (BlockLies key w) new (lower t') side c' t' whole
        (lower-IsBlockRadix t' side (IsPlaced-sub (BlockLies key w) c' t' whole) same')
        (FitsIn-same (first t') c' (same' (first t') p)
          (FitsIn-leaf (BlockLies key w) c' t' (first t') whole p))

-- No leaf of a tree has the bits of the new block.
abbrev pub IsAbsent : (Ptr → Bytes) → ℕ → Ptr → Tree → Type 0
IsAbsent key w new t = (y : Ptr) → 0 < leaf_count y t → ¬ AllEqual (key new) (key y) 0 w

-- A block that is not below the slot where it fits is nowhere in the tree.
pub IsAbsent-plug :
    (key : Ptr → Bytes) (w : ℕ) (new : Ptr) (c : Ctx) (t : Tree)
    → FitsIn (BlockLies key w) new c
    → IsBlockRadix key w (plug c t)
    → IsAbsent key w new t
    → IsAbsent key w new (plug c t)
unfolding plug leaf_count
IsAbsent-plug key w new (top root) t fits g h = h
IsAbsent-plug key w new (in_left a (pos n) r c) t (lies, fits) g h =
    let sub = IsPlaced-sub (BlockLies key w) c (node a (pos n) t r) g in
    IsAbsent-plug key w new c (node a (pos n) t r) fits g (λ y i same.
      elim (ℕ-cases (leaf_count y t)) [
        | inr p ↦ h y p same
        | inl z ↦
            let (within, up, at) = sub.1 y (omega arith) in
            absurd (omega (arith, same n (omega arith) within, at, lies.2))
      ])
IsAbsent-plug key w new (in_rght a (pos n) l c) t (lies, fits) g h =
    let sub = IsPlaced-sub (BlockLies key w) c (node a (pos n) l t) g in
    IsAbsent-plug key w new c (node a (pos n) l t) fits g (λ y i same.
      elim (ℕ-cases (leaf_count y t)) [
        | inr p ↦ h y p same
        | inl z ↦
            let (within, up, at) = sub.0 y (omega arith) in
            absurd (omega (arith, same n (omega arith) within, at, lies.2))
      ])
IsAbsent-plug key w new (in_left a (negsuc n) r c) t (lies, fits) g h =
    let sub = IsPlaced-sub (BlockLies key w) c (node a (negsuc n) t r) g in
    let i = first_count t in
    absurd (h (first t) i (λ j lo hi. lies j lo hi ∙ sym (sub.0 (first t) i j lo hi)))
IsAbsent-plug key w new (in_rght a (negsuc n) l c) t (lies, fits) g h =
    let sub = IsPlaced-sub (BlockLies key w) c (node a (negsuc n) l t) g in
    let i = first_count t in
    absurd (h (first t) i (λ j lo hi. lies j lo hi ∙ sym (sub.1 (first t) i j lo hi)))
