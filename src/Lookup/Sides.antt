-- ===== src/Lookup/Sides.antt =====
-- Where in a tree in order a leaf with the key that is looked for can be.
use ebmbtreebench.Prelude.{
  ℕ, suc, Bool, Option, some, ◌≡◌, ◌≢◌, ◌⊎◌, ◌≤◌, ◌<◌, ◌+◌, ◌*◌, ◌/◌, ◌%◌, ◌^◌, leb, arith, inl,
  inr, ap, sym, ◌∙◌, true,
}
use ebmbtreebench.Memory.{Ptr, pos, negsuc, null}
use ebmbtreebench.Tree.{Tree, node}
use ebmbtreebench.Tree.Count.{leaf_count}
use ebmbtreebench.Tree.Valid.{ℕ-cases}
use ebmbtreebench.Order.{IsRadix}
use ebmbtreebench.Order.Insert.{IsTurn}
use ebmbtreebench.Fls.Xor.{equal_of_xor}
use ebmbtreebench.Fls.Shift.{xor_self, shift_suc, test_of_agree}
use Prim.Native.Nat.{bit_xor}

-- The result is there: NULL where no leaf has the key, and else a leaf with the key.
pub record Exact (key : Ptr → ℕ) (x : ℕ) (t : Tree) (result : Option Ptr) : Type 0 where
  pub found : Ptr
  pub runs : result ≡ some found
  pub right :
      ((found ≡ null) × ((y : Ptr) → 0 < leaf_count y t → key y ≢ x))
      ⊎ ((key found ≡ x) × (0 < leaf_count found t))

-- What is exact for a branch that has all the leaves with the key is so for the node.
pub widen-Exact :
    (key : Ptr → ℕ) (x : ℕ) (t u : Tree) (r : Option Ptr)
    → ((y : Ptr) → leaf_count y t ≤ leaf_count y u)
    → ((y : Ptr) → 0 < leaf_count y u → key y ≡ x → 0 < leaf_count y t)
    → Exact key x t r
    → Exact key x u r
widen-Exact key x t u r le has h = record {
  found = h.found;
  runs = h.runs;
  right = elim h.right [
    | inl n ↦ inl (n.0, λ y i e. n.1 y (has y i e) e)
    | inr s ↦ inr (s.0, omega (arith, s.1, le h.found))
  ];
}

module _ (w : ℕ) (turn fls : ℕ → ℕ) (ge : ℕ → ℕ → Bool) (h : IsTurn w turn fls ge) (key : Ptr → ℕ)
    (width : (y : Ptr) → key y < 2 ^ w) (x : ℕ) (small : x < 2 ^ w) where
  abbrev ord : Ptr → ℕ
  ord y = turn (key y)

  turn_back : (a : Ptr) (y : ℕ) → y < 2 ^ w → ord a ≡ turn y → key a ≡ y
  turn_back a y i e =
      equal_of_xor (key a) y
        (sym (h.xor (key a) y (width a) i) ∙ ap (λ z. bit_xor z (turn y)) e ∙ xor_self (turn y))

  module _ (a : Ptr) (n : ℕ) (l r : Tree) (g : IsRadix ord (node a (pos n) l r)) where
    -- Where the key leaves the node's, no leaf below the node has it.
    pub far-none :
        leb 2 (bit_xor (key a) x / 2 ^ n) ≡ true
        → (y : Ptr) → 0 < leaf_count y (node a (pos n) l r)
        → key y ≢ x
    unfolding leaf_count
    far-none far y i e =
        let out : ord a / 2 ^ suc n ≢ turn x / 2 ^ suc n = λ same. absurd (
          omega (
            arith,
            test_of_agree n (ord a) (turn x) same,
            ap (λ z. z / 2 ^ n) (h.xor (key a) x (width a) small),
            (let two : 2 ≤ bit_xor (key a) x / 2 ^ n = ground (arith, far) in two),
          )) in
        let top : ord y / 2 ^ suc n ≡ turn x / 2 ^ suc n = ap (λ z. turn z / 2 ^ suc n) e in
        elim (ℕ-cases (leaf_count y l)) [
          | inl z ↦
              let d : ord y / 2 ^ n ≡ ord a / 2 ^ suc n * 2 + 1 = g.1 y (omega arith) in
              out (omega (arith, d, top, shift_suc (ord y) n))
          | inr p ↦
              let d : ord y / 2 ^ n ≡ ord a / 2 ^ suc n * 2 + 0 = g.0 y p in
              out (omega (arith, d, top, shift_suc (ord y) n))
        ]

    -- A leaf with the key is in the branch that the bit of the key picks.
    pub side-left :
        turn x / 2 ^ n % 2 ≡ 0
        → (y : Ptr) → 0 < leaf_count y (node a (pos n) l r)
        → key y ≡ x
        → 0 < leaf_count y l
    unfolding leaf_count
    side-left s y i e = elim (ℕ-cases (leaf_count y l)) [
      | inr p ↦ p
      | inl z ↦
          let d : ord y / 2 ^ n ≡ ord a / 2 ^ suc n * 2 + 1 = g.1 y (omega arith) in
          absurd (omega (arith, d, s, ap (λ z. turn z / 2 ^ n) e))
    ]

    pub side-rght :
        turn x / 2 ^ n % 2 ≡ 1
        → (y : Ptr) → 0 < leaf_count y (node a (pos n) l r)
        → key y ≡ x
        → 0 < leaf_count y r
    unfolding leaf_count
    side-rght s y i e = elim (ℕ-cases (leaf_count y r)) [
      | inr p ↦ p
      | inl z ↦
          let d : ord y / 2 ^ n ≡ ord a / 2 ^ suc n * 2 + 0 = g.0 y (omega arith) in
          absurd (omega (arith, d, s, ap (λ z. turn z / 2 ^ n) e))
    ]

  -- In a tree of duplicates all the leaves have the key of the node.
  pub dups-key :
      (a : Ptr) (n : ℕ) (l r : Tree)
      → IsRadix ord (node a (negsuc n) l r)
      → (y : Ptr) → 0 < leaf_count y (node a (negsuc n) l r)
      → key y ≡ key a
  unfolding leaf_count
  dups-key a n l r g y i =
      turn_back y (key a) (width a)
        (elim (ℕ-cases (leaf_count y l)) [ inl z ↦ g.1 y (omega arith) | inr p ↦ g.0 y p ])
