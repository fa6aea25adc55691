-- ===== src/Prefixes/Order.antt =====
-- What a tree of prefixes says of its leaves, and what a new leaf needs to fit in it.
use ebmbtreebench.Prelude.{ℕ, ◌≡◌, ◌<◌, ◌≤◌, ◌/◌, ◌%◌, ◌+◌, arith, sym, ◌∙◌, inl, inr}
use ebmbtreebench.Memory.{Ptr, Bit, pos, negsuc}
use ebmbtreebench.Tree.{Tree, leaf, node, first}
use ebmbtreebench.Tree.Count.{leaf_count, one_if_self}
use ebmbtreebench.Tree.Valid.{ℕ-cases}
use ebmbtreebench.Lookup.Sound.{first_count}
use ebmbtreebench.Insert.{grow}
use ebmbtreebench.Order.{Branches, IsPlaced, IsMovable}
use ebmbtreebench.Bytes.{Bytes, get_bit}
use ebmbtreebench.Bytes.Check.{AllEqual}
use ebmbtreebench.Scalar.Descent.{top_of}
use mathlib.Core.Path.{subst}

-- Which prefixes belong on a side of a node with the bit `n`: on the left of a cover node those that
-- end at its bit, on its right longer ones, and at a normal node longer ones by their bit there.
pub data PrefixSide (key : Ptr → Bytes) (pfx : Ptr → ℕ) (n side : ℕ) (y : Ptr) : Type 0 where
  ends_here : n % 2 ≡ 0 → side ≡ 0 → pfx y ≡ n / 2 → PrefixSide key pfx n side y
  goes_on : n % 2 ≡ 0 → side ≡ 1 → n / 2 < pfx y → PrefixSide key pfx n side y
  parts : n % 2 ≡ 1 → n / 2 < pfx y → get_bit (key y) (n / 2) ≡ side → PrefixSide key pfx n side y

-- The prefixes below a node have the bits of its own before its bit; those of a tree of duplicates
-- are all the same.
abbrev pub PrefixLies : (Ptr → Bytes) → (Ptr → ℕ) → Branches
PrefixLies key pfx a (pos n) side y =
    AllEqual (key y) (key a) 0 (n / 2) × PrefixSide key pfx n side y
PrefixLies key pfx a (negsuc n) side y = (pfx y ≡ pfx a) × AllEqual (key y) (key a) 0 (pfx a)

abbrev pub IsPrefixRadix : (Ptr → Bytes) → (Ptr → ℕ) → Tree → Type 0
IsPrefixRadix key pfx t = IsPlaced (PrefixLies key pfx) t

module _ (key : Ptr → Bytes) (pfx : Ptr → ℕ) where
  -- The structure of a node may be changed for another one below it.
  PrefixLies-IsMovable : IsMovable (PrefixLies key pfx)
  PrefixLies-IsMovable a b (negsuc n) y side side' i (p, e) (p', e') =
      (p ∙ sym p', λ j lo hi. e j lo (omega arith) ∙ sym (e' j lo (omega arith)))
  PrefixLies-IsMovable a b (pos n) y side side' i (e, s) (e', s') =
      ((λ j lo hi. e j lo hi ∙ sym (e' j lo hi)), s)

  pub side_least : (n side : ℕ) (y : Ptr) → PrefixSide key pfx n side y → n / 2 ≤ pfx y
  side_least n side y (ends_here z s e) = omega arith
  side_least n side y (goes_on z s lt) = omega arith
  side_least n side y (parts o lt e) = omega arith

  -- A node has its bit within the prefixes below it, and its own is one of them.
  pub node_common :
      (a : Ptr) (n : ℕ) (l r : Tree)
      → IsPrefixRadix key pfx (node a (pos n) l r)
      → (y : Ptr) → 0 < leaf_count y (node a (pos n) l r)
      → AllEqual (key y) (key a) 0 (n / 2) × (n / 2 ≤ pfx y)
  unfolding leaf_count
  node_common a n l r g y i = elim (ℕ-cases (leaf_count y l)) [
    | inl z ↦ let h = g.1 y (omega arith) in (h.0, side_least n 1 y h.1)
    | inr p ↦ let h = g.0 y p in (h.0, side_least n 0 y h.1)
  ]

  pub node_longer :
      (a : Ptr) (n p : ℕ) (l r : Tree)
      → IsPrefixRadix key pfx (node a (pos n) l r)
      → p + p < n
      → (y : Ptr) → 0 < leaf_count y (node a (pos n) l r)
      → p < pfx y
  unfolding leaf_count
  node_longer a n p l r g lt y i = elim (ℕ-cases (leaf_count y l)) [
    | inl z ↦ longer 1 (g.1 y (omega arith)).1
    | inr q ↦ longer 0 (g.0 y q).1
  ]
    where
      longer : (side : ℕ) → PrefixSide key pfx n side y → p < pfx y
      longer side (ends_here z s e) = omega arith
      longer side (goes_on z s le) = omega arith
      longer side (parts o le e) = omega arith

  pub leaf_count-top_of : (t : Tree) → IsPrefixRadix key pfx t → 0 < leaf_count (top_of t) t
  unfolding leaf_count
  leaf_count-top_of (leaf a) g = omega (arith, one_if_self a)
  leaf_count-top_of (node a k l r) g = g.2

  module _ (new : Ptr) where
    abbrev pub HasPrefix : Ptr → Type 0
    HasPrefix y = (pfx y ≡ pfx new) × AllEqual (key y) (key new) 0 (pfx new)

    abbrev pub AllHave : Tree → Type 0
    AllHave t = (y : Ptr) → 0 < leaf_count y t → HasPrefix y

    is_new : (y : Ptr) → 0 < leaf_count y (leaf new) → y ≡ new
    unfolding leaf_count
    is_new y i = ground arith

    -- The old leaves on the left of the new one, and on its right.
    pub below_left :
        (k : Bit) (t : Tree)
        → IsPrefixRadix key pfx t
        → ((y : Ptr) → 0 < leaf_count y t → PrefixLies key pfx new k 0 y)
        → PrefixLies key pfx new k 1 new
        → IsPrefixRadix key pfx (grow new k 0 t)
    unfolding leaf_count
    below_left k t g old own = (
      old,
      (λ y i. subst (PrefixLies key pfx new k 1) (sym (is_new y i)) own),
      omega (arith, one_if_self new),
      g,
      tt,
    )

    pub below_rght :
        (k : Bit) (t : Tree)
        → IsPrefixRadix key pfx t
        → ((y : Ptr) → 0 < leaf_count y t → PrefixLies key pfx new k 1 y)
        → PrefixLies key pfx new k 0 new
        → IsPrefixRadix key pfx (grow new k 1 t)
    unfolding leaf_count
    below_rght k t g old own = (
      (λ y i. subst (PrefixLies key pfx new k 0) (sym (is_new y i)) own),
      old,
      omega (arith, one_if_self new),
      tt,
      g,
    )

    -- Leaves with one prefix are below no node that parts them.
    pub one_prefix :
        (a : Ptr) (n : ℕ) (l r : Tree)
        → IsPrefixRadix key pfx (node a (pos n) l r)
        → AllHave (node a (pos n) l r)
        → ⊥
    unfolding leaf_count
    one_prefix a n l r g have =
        let p = first_count l in
        let q = first_count r in
        let (el, sl) = g.0 (first l) p in
        let (er, sr) = g.1 (first r) q in
        let (pl, bl) = have (first l) (omega arith) in
        let (pr, br) = have (first r) (omega arith) in differ (first l) (first r) pl pr bl br sl sr
      where
        differ :
            (x y : Ptr)
            → pfx x ≡ pfx new
            → pfx y ≡ pfx new
            → AllEqual (key x) (key new) 0 (pfx new)
            → AllEqual (key y) (key new) 0 (pfx new)
            → PrefixSide key pfx n 0 x
            → PrefixSide key pfx n 1 y
            → ⊥
        differ x y px py bx by (goes_on z s lt) h = absurd (omega arith)
        differ x y px py bx by (ends_here z s e) (ends_here z' s' e') = absurd (omega arith)
        differ x y px py bx by (ends_here z s e) (goes_on z' s' lt') = absurd (omega arith)
        differ x y px py bx by (ends_here z s e) (parts o' lt' e') = absurd (omega arith)
        differ x y px py bx by (parts o lt e) (ends_here z' s' e') = absurd (omega arith)
        differ x y px py bx by (parts o lt e) (goes_on z' s' lt') = absurd (omega arith)
        differ x y px py bx by (parts o lt e) (parts o' lt' e') =
            let ex = bx (n / 2) (omega arith) (omega arith) in
            let ey = by (n / 2) (omega arith) (omega arith) in absurd (omega (arith, ex, ey, e, e'))
