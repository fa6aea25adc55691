-- ===== src/Order/Sorted.antt =====
-- A tree in which the leaves lie where the nodes say has them in the order of their keys.
use ebmbtreebench.Prelude.{
  ℕ, ◌≡◌, List, [], ◌∷◌, ◌++◌, ◌≤◌, ◌<◌, arith, Bool-cases, leb, ◌/◌, ◌^◌, suc, ◌*◌, ◌+◌,
}
use ebmbtreebench.Order.{IsRadix, Lies, Ptr, leaf_count, Tree, leaf, arith, node, inl, inr, suc}
use ebmbtreebench.Fls.Shift.{shift_mono}
use ebmbtreebench.Memory.{Ptr, Bit, negsuc, pos}
use ebmbtreebench.Tree.{leaves, Tree}
use ebmbtreebench.Tree.Count.{leaf_count, one_if_self}

abbrev pub All : (Ptr → Type 0) → List Ptr → Type 0
All P [] = Unit {0}
All P (y ∷ ys) = P y × All P ys

abbrev pub IsSorted : (Ptr → ℕ) → List Ptr → Type 0
IsSorted ord [] = Unit {0}
IsSorted ord (y ∷ ys) = All (λ z. ord y ≤ ord z) ys × IsSorted ord ys

pub All-append : (P : Ptr → Type 0) (xs ys : List Ptr) → All P xs → All P ys → All P (xs ++ ys)
All-append P [] ys h k = k
All-append P (x ∷ xs) ys h k = (h.0, All-append P xs ys h.1 k)

pub All-leaves :
    (P : Ptr → Type 0) (t : Tree) → ((y : Ptr) → 0 < leaf_count y t → P y) → All P (leaves t)
unfolding leaves leaf_count
All-leaves P (leaf a) f = (f a (omega (arith, one_if_self a)), tt)
All-leaves P (node a k l r) f =
    All-append P (leaves l) (leaves r) (All-leaves P l (λ y i. f y (omega arith)))
      (All-leaves P r (λ y i. f y (omega arith)))

pub IsSorted-append :
    (ord : Ptr → ℕ) (xs ys : List Ptr)
    → IsSorted ord xs
    → IsSorted ord ys
    → All (λ x. All (λ y. ord x ≤ ord y) ys) xs
    → IsSorted ord (xs ++ ys)
IsSorted-append ord [] ys h k a = k
IsSorted-append ord (x ∷ xs) ys h k a =
    (All-append (λ y. ord x ≤ ord y) xs ys h.0 a.0, IsSorted-append ord xs ys h.1 k a.1)

-- The leaves on the left of a node are not above those on the right.
pub Lies-le :
    (ord : Ptr → ℕ) (a : Ptr) (k : Bit) (y z : Ptr)
    → Lies ord a k 0 y
    → Lies ord a k 1 z
    → ord y ≤ ord z
Lies-le ord a (negsuc n) y z e e' = omega arith
Lies-le ord a (pos n) y z e1 e2 = elim (Bool-cases (leb (ord y) (ord z))) [
  | inl e ↦ ground (arith, e)
  | inr e ↦
      let lt : ord z ≤ ord y = ground arith in
      let p : ord y / 2 ^ n ≡ ord a / 2 ^ suc n * 2 + 0 = e1 in
      let q : ord z / 2 ^ n ≡ ord a / 2 ^ suc n * 2 + 1 = e2 in
      absurd (omega (arith, shift_mono (ord z) (ord y) n lt))
]

-- In a tree whose leaves lie where its nodes say, the leaves are in the order of their keys.
pub leaves-IsSorted : (ord : Ptr → ℕ) (t : Tree) → IsRadix ord t → IsSorted ord (leaves t)
unfolding leaves
leaves-IsSorted ord (leaf a) h = (tt, tt)
leaves-IsSorted ord (node a k l r) h =
    IsSorted-append ord (leaves l) (leaves r) (leaves-IsSorted ord l h.3)
      (leaves-IsSorted ord r h.4)
      (All-leaves (λ y. All (λ z. ord y ≤ ord z) (leaves r)) l
        (λ y i. All-leaves (λ z. ord y ≤ ord z) r (λ z j. Lies-le ord a k y z (h.0 y i) (h.1 z j))))
