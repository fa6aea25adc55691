-- ===== src/Blocks/Sides.antt =====
-- What a comparison at a node with a bit says of the leaves below it.
use ebmbtreebench.Prelude.{
  ℕ, suc, true, Option, some, ◌≡◌, ◌<◌, ◌≤◌, ◌+◌, ◌*◌, arith, sym, ◌∙◌, inl, inr, Bool-cases, ◌≢◌,
  leb, ◌/◌, ◌^◌, ap,
}
use ebmbtreebench.Memory.{Ptr, pos, null}
use ebmbtreebench.Tree.{Tree, node, first, leaves}
use ebmbtreebench.Tree.Count.{leaf_count}
use ebmbtreebench.Lookup.Sound.{first_count}
use ebmbtreebench.Bytes.{Bytes, get_bit}
use ebmbtreebench.Blocks.{pos, leb, null, bit_xor}
use ebmbtreebench.Blocks.Reach.{SameBytes}
use ebmbtreebench.Blocks.Order.{IsBlockRadix, node-IsCommon}
use ebmbtreebench.Blocks.Lookup.{
  StartsWith, BlockFound, absent_null, common_bytes, join_bytes, high_bits,
}
use ebmbtreebench.Bytes.Byte.{get_bit-same}
use ebmbtreebench.Blocks.First.{IsFirst-front, IsFirst-back}
use ebmbtreebench.Order.Sorted.{All-leaves}
use ebmbtreebench.Fls.Shift.{xor_shift, test_of_agree}

module _ (key : Ptr → Bytes) (bytes : (y : Ptr) (i : ℕ) → key y i < 256) (x : Bytes)
    (bytes_x : (i : ℕ) → x i < 256) (width total : ℕ) (room : total ≤ width) where
  abbrev Starts : Ptr → Type 0
  Starts y = StartsWith key x total y

  abbrev Found : Tree → Option Ptr → Type 0
  Found t r = BlockFound key x total t r

  abbrev Shares : ℕ → Tree → Type 0
  Shares p t = (y : Ptr) → 0 < leaf_count y t → SameBytes (key y) x 0 p

  abbrev w : ℕ
  w = width * 8

  module _ (a : Ptr) (l r : Tree) (n : ℕ) (g : IsBlockRadix key w (node a (pos n) l r)) where
    pub with_a :
        (to : ℕ)
        → to * 8 ≤ n
        → (y : Ptr) → 0 < leaf_count y (node a (pos n) l r)
        → SameBytes (key y) (key a) 0 to
    with_a to le y i =
        common_bytes key bytes x bytes_x width total room a y n to
          (node-IsCommon key w a n l r g y i) le

    pub mismatch-Found :
        (byte : ℕ)
        → byte * 8 + 8 ≤ n
        → byte < total
        → key a byte ≢ x byte
        → Found (node a (pos n) l r) (some null)
    mismatch-Found byte before within ne =
        absent_null key bytes x bytes_x width total room (node a (pos n) l r) (λ y i s. ne (
          sym (with_a (byte + 1) (omega arith) y i byte (omega arith) (omega arith))
          ∙ s byte (omega arith) within))

    -- A leaf that starts with the bytes has the high bits of the node's byte.
    pub far-Found :
        (p d : ℕ)
        → p < total
        → p * 8 ≤ n
        → d + n ≡ p * 8 + 7
        → leb 2 (bit_xor (key a p / 2 ^ d) (x p / 2 ^ d)) ≡ true
        → Found (node a (pos n) l r) (some null)
    far-Found p d lt lo at far =
        absent_null key bytes x bytes_x width total room (node a (pos n) l r) (λ y i s.
          let high =
            high_bits key bytes x bytes_x width total room a y n p d
              (node-IsCommon key w a n l r g y i) lo at in
          let same : key a p / 2 ^ suc d ≡ x p / 2 ^ suc d =
            sym high ∙ ap (λ z. z / 2 ^ suc d) (s p (omega arith) lt) in
          let two : 2 ≤ bit_xor (key a p / 2 ^ d) (x p / 2 ^ d) = ground (arith, far) in
          absurd
            (omega (arith, two, xor_shift d (key a p) (x p), test_of_agree d (key a p) (x p) same)))

    -- A leaf that starts with the bytes has their bit at the node.
    side_bit : (y : Ptr) → n / 8 < total → Starts y → get_bit (key y) n ≡ get_bit x n
    side_bit y lt s = get_bit-same (key y) x n (s (n / 8) (omega arith) lt)

    pub left-Found :
        (res : Option Ptr)
        → n / 8 < total
        → get_bit x n ≡ 0
        → Found l res
        → Found (node a (pos n) l r) res
    unfolding leaves
    left-Found res lt z h = record {
      found = h.found;
      runs = h.runs;
      is_first =
          IsFirst-front Starts (leaves l) (leaves r) h.found
            (All-leaves (λ y. ¬ Starts y) r
              (λ y i s. absurd (omega (arith, side_bit y lt s, (g.1 y i).2, z))))
            h.is_first;
    }

    pub rght-Found :
        (res : Option Ptr)
        → n / 8 < total
        → get_bit x n ≡ 1
        → Found r res
        → Found (node a (pos n) l r) res
    unfolding leaves
    rght-Found res lt o h = record {
      found = h.found;
      runs = h.runs;
      is_first =
          IsFirst-back Starts (leaves l) (leaves r) h.found
            (All-leaves (λ y. ¬ Starts y) l
              (λ y i s. absurd (omega (arith, side_bit y lt s, (g.0 y i).2, o))))
            h.is_first;
    }

    -- The leaves share the bytes up to the one that has the bit.
    pub more_bytes :
        (p p' : ℕ)
        → p' * 8 ≤ n
        → SameBytes (key a) x 0 p
        → SameBytes (key a) x p p'
        → Shares p' (node a (pos n) l r)
    more_bytes p p' le h h' y i j lo hi =
        with_a p' le y i j lo hi
        ∙ join_bytes key bytes x bytes_x width total room a p p' h h' j lo hi

    -- A node's bit is not in the bytes that all the leaves share.
    pub bit_after : (p : ℕ) → Shares p (node a (pos n) l r) → p * 8 ≤ n
    unfolding leaf_count
    bit_after p shares = elim (Bool-cases (leb (p * 8) n)) [
      | inl le ↦ ground (arith, le)
      | inr gt ↦
          let lt : n < p * 8 = ground (arith, gt) in
          let il = first_count l in
          let ir = first_count r in
          let sl = shares (first l) (omega arith) (n / 8) (omega arith) (omega arith) in
          let sr = shares (first r) (omega arith) (n / 8) (omega arith) (omega arith) in
          absurd (
            omega (
              arith,
              get_bit-same (key (first l)) (key (first r)) n (sl ∙ sym sr),
              (g.0 (first l) il).2,
              (g.1 (first r) ir).2,
            ))
    ]
