-- ===== src/Blocks/Order.antt =====
-- The order of a tree of blocks: what the bits of its nodes say of the blocks of its leaves.
use ebmbtreebench.Prelude.{ℕ, ◌≡◌, ◌<◌, inl, inr, arith, ap, sym, ◌∙◌}
use ebmbtreebench.Memory.{Ptr, pos, negsuc}
use ebmbtreebench.Tree.{Tree, leaf, node, first}
use ebmbtreebench.Lookup.Sound.{first_count}
use ebmbtreebench.Tree.Count.{leaf_count, one_if_self}
use ebmbtreebench.Tree.Valid.{ℕ-cases}
use ebmbtreebench.Bytes.{Bytes, get_bit}
use ebmbtreebench.Bytes.Check.{AllEqual}
use ebmbtreebench.Order.{IsMovable, IsPlaced, Branches}
use ebmbtreebench.Scalar.Descent.{top_of}

-- `y` belongs in the branch `side` of a node with the block of `a` and the bit `k`, in a tree of
-- blocks of `w` bits: it agrees with `a` before the bit, and the bit is `side`; or, in a tree of
-- duplicates, it has all the bits of `a`.
abbrev pub BlockLies : (Ptr → Bytes) → ℕ → Branches
BlockLies key w a (pos n) side y =
    (n < w) × AllEqual (key y) (key a) 0 n × (get_bit (key y) n ≡ side)
BlockLies key w a (negsuc n) side y = AllEqual (key y) (key a) 0 w

abbrev pub IsBlockRadix : (Ptr → Bytes) → ℕ → Tree → Type 0
IsBlockRadix key w t = IsPlaced (BlockLies key w) t

-- The leaves of `t` agree with the block of `a` in the first `n` bits.
abbrev pub IsCommon : (Ptr → Bytes) → ℕ → Ptr → Tree → Type 0
IsCommon key n a t = (y : Ptr) → 0 < leaf_count y t → AllEqual (key y) (key a) 0 n

module _ (key : Ptr → Bytes) (w : ℕ) where
  pub dups-IsCommon :
      (a : Ptr) (n : ℕ) (l r : Tree)
      → IsBlockRadix key w (node a (negsuc n) l r)
      → IsCommon key w a (node a (negsuc n) l r)
  unfolding leaf_count
  dups-IsCommon a n l r g y i = elim (ℕ-cases (leaf_count y l)) [
    | inl z ↦ g.1 y (omega arith)
    | inr p ↦ g.0 y p
  ]

  pub node-IsCommon :
      (a : Ptr) (n : ℕ) (l r : Tree)
      → IsBlockRadix key w (node a (pos n) l r)
      → IsCommon key n a (node a (pos n) l r)
  unfolding leaf_count
  node-IsCommon a n l r g y i = elim (ℕ-cases (leaf_count y l)) [
    | inl z ↦ (g.1 y (omega arith)).1
    | inr p ↦ (g.0 y p).1
  ]

  pub leaf-IsCommon : (a : Ptr) (n : ℕ) → IsCommon key n a (leaf a)
  unfolding leaf_count
  leaf-IsCommon a n y i j lo hi = ap (λ z. get_bit (key z) j) (let e : y ≡ a = ground arith in e)

  -- The bit of a node is one of the bits of the blocks.
  pub bit_within : (a : Ptr) (n : ℕ) (l r : Tree) → IsBlockRadix key w (node a (pos n) l r) → n < w
  bit_within a n l r g = (g.0 (first l) (first_count l)).0

  -- The structure at the top of a tree is a leaf of it.
  pub leaf_count-top_of : (t : Tree) → IsBlockRadix key w t → 0 < leaf_count (top_of t) t
  unfolding leaf_count
  leaf_count-top_of (leaf a) g = omega (arith, one_if_self a)
  leaf_count-top_of (node a k l r) g = g.2

-- The structure of a node may be changed for another one below it.
pub BlockLies-IsMovable : (key : Ptr → Bytes) (w : ℕ) → IsMovable (BlockLies key w)
BlockLies-IsMovable key w a b (negsuc n) y side side' i h h' =
    λ j lo hi. h j lo hi ∙ sym (h' j lo hi)
BlockLies-IsMovable key w a b (pos n) y side side' i (within, same, at) (within', same', at') =
    (within, (λ j lo hi. same j lo hi ∙ sym (same' j lo hi)), at)
