-- ===== src/Order.antt =====
-- The order of a tree by key: what the bits of its nodes say of the keys of its leaves.
pub mod Sorted
pub mod Grow
pub mod Insert
pub mod Turns
pub mod Place
pub mod Keys
pub mod Delete
pub mod Removal
use ebmbtreebench.Fls.Shift.{shift_suc}
use ebmbtreebench.Prelude.{
  sym, ◌∙◌, ℕ, ◌≡◌, ◌/◌, ◌<◌, ◌^◌, ◌+◌, arith, ◌≤◌, suc, ◌*◌, inl, inr, Option, some, none, ◌∙◌,
  sym,
}
use ebmbtreebench.Memory.{Ptr, Bit, pos, negsuc}
use ebmbtreebench.Tree.{Tree, leaf, node, Ctx, top, in_left, in_rght, plug}
use ebmbtreebench.Tree.Count.{leaf_count}
use ebmbtreebench.Tree.Valid.{ℕ-cases}

-- `y` belongs in the branch `side` of a node with the key of `a` and the bit `k`: it agrees with
-- `a` above the bit, and the bit is `side`; or, in a tree of duplicates, it has the key of `a`.
abbrev pub Lies : (Ptr → ℕ) → Ptr → Bit → ℕ → Ptr → Type 0
Lies ord a (pos n) side y = ord y / 2 ^ n ≡ ord a / 2 ^ suc n * 2 + side
Lies ord a (negsuc n) side y = ord y ≡ ord a

-- What it is for a structure to belong in a branch of a node with a bit, in a tree of some kind.
abbrev pub Branches : Type 1
Branches = Ptr → Bit → ℕ → Ptr → Type 0

-- All leaves are where the nodes above them say, and the structure of a node is a leaf below it.
abbrev pub IsPlaced : Branches → Tree → Type 0
IsPlaced L (leaf a) = Unit {0}
IsPlaced L (node a k l r) =
    ((y : Ptr) → 0 < leaf_count y l → L a k 0 y)
    × ((y : Ptr) → 0 < leaf_count y r → L a k 1 y)
    × (0 < leaf_count a l + leaf_count a r)
    × IsPlaced L l
    × IsPlaced L r

-- `y` belongs where the nodes above a slot say.
abbrev pub FitsIn : Branches → Ptr → Ctx → Type 0
FitsIn L y (top root) = Unit {0}
FitsIn L y (in_left a k r c) = L a k 0 y × FitsIn L y c
FitsIn L y (in_rght a k l c) = L a k 1 y × FitsIn L y c

-- The structure of a node may be changed for another one that belongs below it.
abbrev pub IsMovable : Branches → Type 0
IsMovable L =
    (a b : Ptr) (k : Bit) (y : Ptr) (side side' : ℕ)
    → side' < 2
    → L a k side y
    → L a k side' b
    → L b k side y

abbrev pub IsRadix : (Ptr → ℕ) → Tree → Type 0
IsRadix ord t = IsPlaced (Lies ord) t

abbrev pub Fits : (Ptr → ℕ) → Ptr → Ctx → Type 0
Fits ord y c = FitsIn (Lies ord) y c

module _ (L : Branches) where
  pub IsPlaced-sub : (c : Ctx) (t : Tree) → IsPlaced L (plug c t) → IsPlaced L t
  unfolding plug
  IsPlaced-sub (top root) t h = h
  IsPlaced-sub (in_left a k r c) t h = (IsPlaced-sub c (node a k t r) h).3
  IsPlaced-sub (in_rght a k l c) t h = (IsPlaced-sub c (node a k l t) h).4

  pub FitsIn-leaf :
      (c : Ctx) (t : Tree) (y : Ptr) → IsPlaced L (plug c t) → 0 < leaf_count y t → FitsIn L y c
  unfolding plug leaf_count
  FitsIn-leaf (top root) t y h i = tt
  FitsIn-leaf (in_left a k r c) t y h i =
      ((IsPlaced-sub c (node a k t r) h).0 y i, FitsIn-leaf c (node a k t r) y h (omega arith))
  FitsIn-leaf (in_rght a k l c) t y h i =
      ((IsPlaced-sub c (node a k l t) h).1 y i, FitsIn-leaf c (node a k l t) y h (omega arith))

  -- A subtree may be replaced by one with more leaves, if they fit.
  pub IsPlaced-plug :
      (c : Ctx) (t u : Tree)
      → IsPlaced L (plug c t)
      → IsPlaced L u
      → ((y : Ptr) → 0 < leaf_count y u → FitsIn L y c)
      → ((y : Ptr) → leaf_count y t ≤ leaf_count y u)
      → IsPlaced L (plug c u)
  unfolding plug leaf_count
  IsPlaced-plug (top root) t u h hu fits le = hu
  IsPlaced-plug (in_left a k r c) t u h hu fits le =
      let (l', r', own, hl, hr) = IsPlaced-sub c (node a k t r) h in
      IsPlaced-plug c (node a k t r) (node a k u r) h
        ((λ y i. (fits y i).0), r', omega (arith, le a), hu, hr)
        (λ y i. elim (ℕ-cases (leaf_count y u)) [
          | inl z ↦ FitsIn-leaf c (node a k t r) y h (omega arith)
          | inr p ↦ (fits y p).1
        ])
        (λ y. omega (arith, le y))
  IsPlaced-plug (in_rght a k l c) t u h hu fits le =
      let (l', r', own, hl, hr) = IsPlaced-sub c (node a k l t) h in
      IsPlaced-plug c (node a k l t) (node a k l u) h
        (l', (λ y i. (fits y i).0), omega (arith, le a), hl, hu)
        (λ y i. elim (ℕ-cases (leaf_count y u)) [
          | inl z ↦ FitsIn-leaf c (node a k l t) y h (omega arith)
          | inr p ↦ (fits y p).1
        ])
        (λ y. omega (arith, le y))

pub IsRadix-sub : (ord : Ptr → ℕ) (c : Ctx) (t : Tree) → IsRadix ord (plug c t) → IsRadix ord t
IsRadix-sub ord c t h = IsPlaced-sub (Lies ord) c t h

pub Fits-leaf :
    (ord : Ptr → ℕ) (c : Ctx) (t : Tree) (y : Ptr)
    → IsRadix ord (plug c t)
    → 0 < leaf_count y t
    → Fits ord y c
Fits-leaf ord c t y h i = FitsIn-leaf (Lies ord) c t y h i

-- What holds below a root: nothing, or a tree whose leaves lie where its nodes say.
abbrev pub KeepsPlaces : Branches → Option Tree → Type 0
KeepsPlaces L none = Unit {0}
KeepsPlaces L (some t) = IsPlaced L t

abbrev pub KeepsOrder : (Ptr → ℕ) → Option Tree → Type 0
KeepsOrder ord t = KeepsPlaces (Lies ord) t

pub Lies-IsMovable : (ord : Ptr → ℕ) → IsMovable (Lies ord)
Lies-IsMovable ord a b (negsuc n) y side side' i h h' = let e : ord b ≡ ord a = h' in h ∙ sym e
Lies-IsMovable ord a b (pos n) y side side' i h h' =
    let d : ord y / 2 ^ n ≡ ord a / 2 ^ suc n * 2 + side = h in
    let d' : ord b / 2 ^ n ≡ ord a / 2 ^ suc n * 2 + side' = h' in
    omega (arith, d, d', shift_suc (ord b) n)
