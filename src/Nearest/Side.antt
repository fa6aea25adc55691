-- ===== src/Nearest/Side.antt =====
-- On which side of a key the leaves of a node lie.
use ebmbtreebench.Prelude.{
  ℕ, ◌≡◌, ◌≤◌, ◌<◌, ◌/◌, ◌^◌, ◌%◌, ◌*◌, ◌+◌, suc, arith, inl, inr, ◌-◌, sym,
}
use ebmbtreebench.Memory.{Ptr, Bit, pos, negsuc}
use ebmbtreebench.Tree.{Tree, node}
use ebmbtreebench.Tree.Count.{leaf_count}
use ebmbtreebench.Tree.Valid.{ℕ-cases}
use ebmbtreebench.Order.{IsRadix, Lies}
use ebmbtreebench.Fls.Shift.{shift_lt, shift_suc, agree_of_test, test_of_agree}
use ebmbtreebench.Nearest.Pick.{HasBelow, HasAbove}
use Prim.Native.Nat.{bit_xor}
use mathlib.Core.Path.{subst}

-- What holds of the leaves in both branches holds of those of the node.
pub both :
    (P : Ptr → Type 0) (a : Ptr) (k : Bit) (l r : Tree)
    → ((y : Ptr) → 0 < leaf_count y l → P y)
    → ((y : Ptr) → 0 < leaf_count y r → P y)
    → (y : Ptr) → 0 < leaf_count y (node a k l r)
    → P y
unfolding leaf_count
both P a k l r hl hr y i = elim (ℕ-cases (leaf_count y l)) [
  | inl z ↦ hr y (omega arith)
  | inr p ↦ hl y p
]

module _ (key : Ptr → ℕ) (x : ℕ) (a : Ptr) (n : ℕ) where
  apart : 2 ≤ bit_xor x (key a) / 2 ^ n → x / 2 ^ suc n ≡ key a / 2 ^ suc n → ⊥
  apart far e = omega (arith, test_of_agree n x (key a) e)

  low_side :
      (y : Ptr) (side : ℕ)
      → side < 2
      → 2 ≤ bit_xor x (key a) / 2 ^ n
      → x / 2 ^ n ≤ key a / 2 ^ n
      → Lies key a (pos n) side y
      → x < key y
  low_side y side i far lt h =
      shift_lt x (key y) n (elim (ℕ-cases (key a / 2 ^ suc n - x / 2 ^ suc n)) [
        | inl z ↦
            let e : x / 2 ^ suc n ≡ key a / 2 ^ suc n =
              omega (arith, shift_suc x n, shift_suc (key a) n) in
            absurd (apart far e)
        | inr p ↦ omega (arith, h, shift_suc x n)
      ])

  high_side :
      (y : Ptr) (side : ℕ)
      → side < 2
      → 2 ≤ bit_xor x (key a) / 2 ^ n
      → key a / 2 ^ n ≤ x / 2 ^ n
      → Lies key a (pos n) side y
      → key y < x
  high_side y side i far le h =
      shift_lt (key y) x n (elim (ℕ-cases (x / 2 ^ suc n - key a / 2 ^ suc n)) [
        | inl z ↦
            let e : x / 2 ^ suc n ≡ key a / 2 ^ suc n =
              omega (arith, shift_suc x n, shift_suc (key a) n) in
            absurd (apart far e)
        | inr p ↦ omega (arith, h, shift_suc x n)
      ])

  module _ (l r : Tree) (h : IsRadix key (node a (pos n) l r)) where
    pub far-HasAbove :
        2 ≤ bit_xor x (key a) / 2 ^ n
        → x / 2 ^ n ≤ key a / 2 ^ n
        → HasAbove key x (node a (pos n) l r)
    far-HasAbove far lt =
        both (λ y. x < key y) a (pos n) l r (λ y i. low_side y 0 (omega arith) far lt (h.0 y i))
          (λ y i. low_side y 1 (omega arith) far lt (h.1 y i))

    pub far-HasBelow :
        2 ≤ bit_xor x (key a) / 2 ^ n
        → key a / 2 ^ n ≤ x / 2 ^ n
        → HasBelow key x (node a (pos n) l r)
    far-HasBelow far le =
        both (λ y. key y < x) a (pos n) l r (λ y i. high_side y 0 (omega arith) far le (h.0 y i))
          (λ y i. high_side y 1 (omega arith) far le (h.1 y i))

    pub near-HasAbove : bit_xor x (key a) / 2 ^ n < 2 → x / 2 ^ n % 2 ≡ 0 → HasAbove key x r
    near-HasAbove near e y i =
        let h1 : key y / 2 ^ n ≡ key a / 2 ^ suc n * 2 + 1 = h.1 y i in
        shift_lt x (key y) n (omega (arith, agree_of_test n x (key a) near, shift_suc x n))

    pub near-HasBelow : bit_xor x (key a) / 2 ^ n < 2 → x / 2 ^ n % 2 ≡ 1 → HasBelow key x l
    near-HasBelow near e y i =
        let h0 : key y / 2 ^ n ≡ key a / 2 ^ suc n * 2 + 0 = h.0 y i in
        shift_lt (key y) x n (omega (arith, agree_of_test n x (key a) near, shift_suc x n))

-- A test for two keys of a tree of duplicates answers for all its leaves.
pub dups_all :
    (key : Ptr → ℕ) (a : Ptr) (n : ℕ) (l r : Tree) (P : ℕ → Type 0)
    → IsRadix key (node a (negsuc n) l r)
    → P (key a)
    → (y : Ptr) → 0 < leaf_count y (node a (negsuc n) l r)
    → P (key y)
dups_all key a n l r P h p =
    both (λ y. P (key y)) a (negsuc n) l r (λ y i. subst P (sym (h.0 y i)) p)
      (λ y i. subst P (sym (h.1 y i)) p)
