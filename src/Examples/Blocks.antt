-- ===== src/Examples/Blocks.antt =====
-- Runs of the insertion and the lookup for blocks, with blocks of one byte.
use ebmbtreebench.Prelude.{
  ℕ, zero, suc, true, false, ◌≡◌, ◌⊎◌, ◌<◌, ◌-◌, ◌==◌, ltb, if◌then◌else◌, arith, refl, inl, inr,
  Bool-cases, ==_iff, ap, sym, ◌∙◌, some,
}
use ebmbtreebench.Memory.{Ptr, Bit, pos, Mem}
use ebmbtreebench.Tree.{height}
use ebmbtreebench.Tree.Count.{leaf_count}
use ebmbtreebench.Tree.Valid.{ℕ-cases, Valid}
use ebmbtreebench.Bytes.{Bytes, minus, get_bit}
use ebmbtreebench.Blocks.{ebmb_insert, ebmb_lookup, is_zero}
use ebmbtreebench.Blocks.Order.{IsBlockRadix}
use ebmbtreebench.Blocks.Lookup.{IsMemcmp, BlockFound}
use ebmbtreebench.Blocks.Found.{ebmb_lookup-Found}
use ebmbtreebench.Blocks.Insert.{BlockGrown, BlockRefused}
use ebmbtreebench.Blocks.Whole.{ebmb_insert-Ends, ebmb_insert-BlockRefused}
use ebmbtreebench.Scalar.Correct.{Put}
use mathlib.Core.Path.{subst}
use ebmbtreebench.Indirect.{ebim_insert}
use ebmbtreebench.Indirect.Insert.{IndirectGrown}
use ebmbtreebench.Indirect.Whole.{ebim_insert-Ends}
use ebmbtreebench.Prelude.{[], ◌∷◌}
use ebmbtreebench.Tree.{before, after, plug, leaves}
use ebmbtreebench.Order.{KeepsPlaces}
use ebmbtreebench.Order.Removal.{eb_delete-KeepsPlaces}
use ebmbtreebench.Blocks.Order.{BlockLies, BlockLies-IsMovable}
use ebmbtreebench.Delete.{eb_delete}
use ebmbtreebench.Delete.Lifted.{Dropped}
use ebmbtreebench.Examples.{
  at_four, small, small_tree, small-Valid, small-Rooted, eight_CanInsert, Mem, Valid, some,
}

-- The first bytes: 1 at 2, 17 at 4 and 6, and a given one at 8; all others are 0.
abbrev pub blocks_with : ℕ → Ptr → Bytes
blocks_with v a i = if i == 0 then if a == 2 then 1 else if a == 8 then v else 17 else 0

abbrev pub blocks : Ptr → Bytes
blocks = blocks_with 12

pub blocks_bytes : (y : Ptr) (i : ℕ) → blocks y i < 256
blocks_bytes y i = ground arith

first_bits : (v j : ℕ) → j < 3 → get_bit (blocks_with v 2) j ≡ get_bit (blocks_with v 4) j
unfolding get_bit
first_bits v zero i = refl
first_bits v (suc zero) i = refl
first_bits v (suc (suc zero)) i = refl
first_bits v (suc (suc (suc j))) i = absurd (omega arith)

-- In any number of bits that reaches to those that differ.
pub with-IsBlockRadix : (v w : ℕ) → 3 < w → IsBlockRadix (blocks_with v) w small_tree
unfolding leaf_count get_bit
with-IsBlockRadix v w far = (
  (λ y i. let e : y ≡ 2 = ground arith in rw e (far, (λ j lo hi. first_bits v j hi), refl)),
  (λ y i. elim (Bool-cases (y == 4)) [
    | inl e ↦ let e4 : y ≡ 4 = ground arith in rw e4 (far, (λ j lo hi. refl), refl)
    | inr e ↦ let e6 : y ≡ 6 = ground arith in rw e6 (far, (λ j lo hi. refl), refl)
  ]),
  omega arith,
  tt,
  (
    (λ y i. let e : y ≡ 4 = ground arith in rw e (λ j lo hi. refl)),
    (λ y i. let e : y ≡ 6 = ground arith in rw e (λ j lo hi. refl)),
    omega arith,
    tt,
    tt,
  ),
)

pub small-IsBlockRadix : IsBlockRadix blocks 8 small_tree
small-IsBlockRadix = with-IsBlockRadix 12 8 (omega arith)

-- A `memcmp`: the difference of the first bytes that differ.
unfoldable compare : Bytes → Bytes → ℕ → Bit
compare a b zero = pos 0
compare a b (suc n) =
    let rest = compare (λ i. a (suc i)) (λ i. b (suc i)) n in
    if a 0 == b 0 then rest else minus (a 0) (b 0)

pub minus_apart : (m n : ℕ) → minus m n ≡ pos 0 → m ≡ n
minus_apart m n e = elim (Bool-cases (ltb m n)) [
  | inl lt ↦
      let z : is_zero (minus m n) ≡ false = rw lt refl in absurd (ground (arith, z, ap is_zero e))
  | inr ge ↦
      let same : minus m n ≡ pos (m - n) = rw ge refl in
      let z : (m - n == 0) ≡ true = ap is_zero (sym same ∙ e) in ground (arith, ge, z)
]

compare-IsMemcmp : IsMemcmp compare
unfolding compare
compare-IsMemcmp a b zero = ((λ e i lt. absurd (omega arith)), (λ all. refl))
compare-IsMemcmp a b (suc n) = elim (Bool-cases (a 0 == b 0)) [
  | inl e ↦
      let rest = compare-IsMemcmp (λ i. a (suc i)) (λ i. b (suc i)) n in
      rw e (
        (λ z i lt. elim (ℕ-cases i) [
          | inl i0 ↦ rw i0 ((==_iff (a 0) (b 0)).0 e)
          | inr p ↦
              subst (λ k. a k ≡ b k) (let q : suc (i - 1) ≡ i = omega arith in q)
                (rest.0 z (i - 1) (omega arith))
        ]),
        (λ all. rest.1 (λ i lt. all (suc i) (omega arith))),
      )
  | inr e ↦ rw e (
    (λ z. absurd (ground (arith, e, minus_apart (a 0) (b 0) z))),
    (λ all. absurd (ground (arith, e, all 0 (omega arith)))),
  )
]

ebmb_insert_example :
    Put (BlockGrown blocks 1 0 8) (ebmb_insert blocks 2 9 100 8 small 1) 100 small_tree 8
    ⊎ BlockRefused blocks 1 (ebmb_insert blocks 2 9 100 8 small 1) 0 100 small_tree 8
unfolding height
ebmb_insert_example =
    ebmb_insert-Ends blocks blocks_bytes 2 9 small 100 8 1 small_tree (omega arith) (omega arith)
      (omega arith) small-Valid eight_CanInsert small-IsBlockRadix

ebmb_lookup_example :
    BlockFound blocks (blocks 4) 1 small_tree (ebmb_lookup compare blocks 9 small 100 (blocks 4) 1)
unfolding height
ebmb_lookup_example =
    ebmb_lookup-Found compare compare-IsMemcmp blocks blocks_bytes (blocks 4) (blocks_bytes 4) 1 1
      (omega arith) small 9 100 small_tree (omega arith) small-Rooted small-IsBlockRadix

eb_delete_places_example :
    Dropped (KeepsPlaces (BlockLies blocks 8)) 4 (2 ∷ 6 ∷ []) 100 (eb_delete 4 small)
unfolding before after plug leaves
eb_delete_places_example =
    eb_delete-KeepsPlaces (BlockLies blocks 8) (BlockLies-IsMovable blocks 8) small 4 at_four
      small-Valid small-IsBlockRadix

-- The same tree below a unique root, and keys by which 8 has the block of 4.
abbrev unique_small : Mem
unique_small = record small { b = λ s. if s == 101 then 1 else small.b s }

abbrev equal_blocks : Ptr → Bytes
equal_blocks = blocks_with 17

unique-Valid : Valid unique_small 100 (some small_tree)
unique-Valid = record {
  rooted = ((refl, small-Rooted.0.1), small-Rooted.1);
  nodes = small-Valid.nodes;
  leaves = small-Valid.leaves;
  unused = small-Valid.unused;
}

equal_bytes_small : (y : Ptr) (i : ℕ) → equal_blocks y i < 256
equal_bytes_small y i = ground arith

ebmb_refuses_example :
    BlockRefused equal_blocks 1
      (ebmb_insert equal_blocks 2 9 100 8 unique_small 1)
      1
      100
      small_tree
      8
unfolding height leaf_count
ebmb_refuses_example =
    ebmb_insert-BlockRefused equal_blocks equal_bytes_small 2 9 unique_small 100 8 1 small_tree 4
      (omega arith) (omega arith) unique-Valid eight_CanInsert
      (with-IsBlockRadix 17 8 (omega arith)) (λ e. absurd (omega (arith, e))) (omega arith)
      (λ i lt. refl)

ebim_insert_example :
    Put (IndirectGrown blocks 1 8) (ebim_insert blocks 2 9 100 8 small 1) 100 small_tree 8
    ⊎ BlockRefused blocks 1 (ebim_insert blocks 2 9 100 8 small 1) 0 100 small_tree 8
unfolding height
ebim_insert_example =
    ebim_insert-Ends blocks blocks_bytes 1 2 9 small 100 8 small_tree (omega arith) (omega arith)
      (omega arith) (omega arith) small-Valid eight_CanInsert (with-IsBlockRadix 12 9 (omega arith))
