-- ===== src/Blocks/Lookup.antt =====
-- What `__ebmb_lookup` compares, and what that says of the leaves below a node.
use ebmbtreebench.Prelude.{
  ℕ, zero, suc, true, false, some, ◌≡◌, ◌↔◌, ◌<◌, ◌+◌, arith, refl, ap, ◌≤◌, Option, ◌*◌, ◌-◌, [],
  inl, ◌/◌, inr, ◌^◌, sym, ◌%◌, ◌∙◌,
}
use ebmbtreebench.Memory.{Mem, Bit, pos, negsuc, Ptr, null}
use ebmbtreebench.Tree.{Tree, leaf, node, height, Holds, first, leaves}
use ebmbtreebench.Bytes.{Bytes, get_bit}
use ebmbtreebench.Blocks.{is_zero, is_match, walk_left, Ptr, Option, null}
use ebmbtreebench.Tree.Count.{leaf_count}
use ebmbtreebench.Tree.Valid.{ℕ-cases}
use ebmbtreebench.Order.Sorted.{All-leaves}
use ebmbtreebench.Bytes.Byte.{agree_down, equal_bytes, get_bit-at, get_bit-split}
use ebmbtreebench.Bytes.Check.{AllEqual}
use ebmbtreebench.Blocks.First.{IsFirst, IsFirst-none, IsFirst-first}
use ebmbtreebench.Blocks.Reach.{SameBytes}
use mathlib.Core.List.{append-nil}
use mathlib.Core.Path.{subst}
use ebmbtreebench.Walk.Down.{untag-leaf, untag-node, node_tag, leaf_tag}

module _ (m : Mem) where
  pub walk_left-first :
      (f : ℕ) (t : Tree) (p : ℕ)
      → height t < f
      → Holds m p t
      → walk_left f m (m.b p) ≡ some (first t)
  unfolding walk_left first height
  walk_left-first zero t p fuel h = absurd (omega arith)
  walk_left-first (suc f) (leaf a) p fuel h =
      rw h.0 (rw (leaf_tag h.2, walk_left) (rw (untag-leaf a) refl))
  walk_left-first (suc f) (node a k l r) p fuel h = rw h.0 (
      rw (node_tag h.3, walk_left)
        (rw (untag-node a) (walk_left-first f l (a + 0) (omega arith) h.4)))

-- What the C library promises of `memcmp`: it gives 0 exactly where the bytes are equal.
abbrev pub IsMemcmp : (Bytes → Bytes → ℕ → Bit) → Type 0
IsMemcmp memcmp = (a b : Bytes) (n : ℕ) → (memcmp a b n ≡ pos 0) ↔ ((i : ℕ) → i < n → a i ≡ b i)

pub zero_of : (k : Bit) → is_zero k ≡ true → k ≡ pos 0
zero_of (pos n) e = ap pos (let z : n ≡ 0 = ground arith in z)
zero_of (negsuc n) e = absurd (ground arith)

-- The result is there: the first of the leaves of `t` whose block starts with the `total` bytes of
-- `x`, or NULL where there is none.
abbrev pub StartsWith : (Ptr → Bytes) → Bytes → ℕ → Ptr → Type 0
StartsWith key x total y = SameBytes (key y) x 0 total

pub record BlockFound (key : Ptr → Bytes) (x : Bytes) (total : ℕ) (t : Tree) (result : Option Ptr)
    : Type 0 where
  pub found : Ptr
  pub runs : result ≡ some found
  pub is_first : IsFirst (StartsWith key x total) (leaves t) found

module _ (memcmp : Bytes → Bytes → ℕ → Bit) (right : IsMemcmp memcmp) (k x : Bytes)
    (len p : ℕ) where
  pub match_true : is_match memcmp k x len p ≡ true → (i : ℕ) → i < len → k (p + i) ≡ x (p + i)
  match_true e =
      (right (λ i. k (p + i)) (λ i. x (p + i)) len).0
        (zero_of (memcmp (λ i. k (p + i)) (λ i. x (p + i)) len) e)

  pub match_false :
      is_match memcmp k x len p ≡ false → ¬ ((i : ℕ) → i < len → k (p + i) ≡ x (p + i))
  match_false e all =
      let z = (right (λ i. k (p + i)) (λ i. x (p + i)) len).1 all in
      absurd (ground (arith, e, ap is_zero z))

module _ (key : Ptr → Bytes) (bytes : (y : Ptr) (i : ℕ) → key y i < 256) (x : Bytes)
    (bytes_x : (i : ℕ) → x i < 256) (width total : ℕ) (room : total ≤ width) where
  abbrev Starts : Ptr → Type 0
  Starts y = StartsWith key x total y

  abbrev Found : Tree → Option Ptr → Type 0
  Found t r = BlockFound key x total t r

  -- No leaf starts with the bytes.
  pub absent_null : (t : Tree) → ((y : Ptr) → 0 < leaf_count y t → ¬ Starts y) → Found t (some null)
  absent_null t h = record {
    found = null;
    runs = refl;
    is_first = IsFirst-none Starts (leaves t) (All-leaves (λ y. ¬ Starts y) t h);
  }

  pub at_first : (t : Tree) (r : Option Ptr) → r ≡ some (first t) → Starts (first t) → Found t r
  at_first t r e h = record {
    found = first t;
    runs = e;
    is_first =
        subst (λ ys. IsFirst Starts ys (first t)) (append-nil (leaves t))
          (IsFirst-first Starts t [] h);
  }

  -- What the leaves of a subtree share with the bytes looked for.
  abbrev Shares : ℕ → Tree → Type 0
  Shares p t = (y : Ptr) → 0 < leaf_count y t → SameBytes (key y) x 0 p

  -- The bytes that a leaf has of those of a node.
  pub common_bytes :
      (a y : Ptr) (n to : ℕ)
      → AllEqual (key y) (key a) 0 n
      → to * 8 ≤ n
      → SameBytes (key y) (key a) 0 to
  common_bytes a y n to same le i lo hi =
      equal_bytes (key y) (key a) to (bytes y) (bytes a) (λ j l h. same j l (omega arith)) i hi

  pub join_bytes :
      (y : Ptr) (p to : ℕ)
      → SameBytes (key y) x 0 p
      → SameBytes (key y) x p to
      → SameBytes (key y) x 0 to
  join_bytes y p to h h' i lo hi = elim (ℕ-cases (p - i)) [
    | inl past ↦ h' i (omega arith) hi
    | inr before ↦ h i lo (omega arith)
  ]

  -- A leaf has the bits of the node's block before a bit, so it has the high bits of its byte.
  pub high_bits :
      (a y : Ptr) (n p d : ℕ)
      → AllEqual (key y) (key a) 0 n
      → p * 8 ≤ n
      → d + n ≡ p * 8 + 7
      → key y p / 2 ^ suc d ≡ key a p / 2 ^ suc d
  high_bits a y n p d same lo at =
      agree_down (key y p) (key a p) (7 - d) (suc d) (omega arith) (bytes y p) (bytes a p) (λ k l.
        sym (get_bit-at (key y) p k (omega arith))
        ∙ same (p * 8 + k) (omega arith) (omega arith)
        ∙ get_bit-at (key a) p k (omega arith))

  pub bit_of_x : (n p d : ℕ) → p * 8 ≤ n → d + n ≡ p * 8 + 7 → get_bit x n ≡ x p / 2 ^ d % 2
  bit_of_x n p d lo at =
      get_bit-split x p n lo (omega arith)
      ∙ ap (λ k. x p / 2 ^ k % 2) (let e : 7 - (n - p * 8) ≡ d = omega arith in e)
