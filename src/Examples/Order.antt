-- ===== src/Examples/Order.antt =====
-- Runs of the insertions at a tree in order, and of the lookups of the nearest keys.
use ebmbtreebench.Examples.{keys, small, small_tree, small-Valid, small-Rooted, eight_CanInsert}
use ebmbtreebench.Memory.{Ptr}
use ebmbtreebench.Tree.{height, contents, height_of, leaves}
use ebmbtreebench.Tree.Count.{leaf_count}
use ebmbtreebench.Order.{IsRadix}
use ebmbtreebench.Order.Keys.{
  InOrder, eb32_insert-InOrder, eb32i_insert-InOrder, eb64_insert-InOrder, eb64i_insert-InOrder,
}
use ebmbtreebench.Scalar.{eb32_insert, eb32i_insert, shift_sign}
use ebmbtreebench.Scalar.Correct.{Refused}
use ebmbtreebench.Wide.{eb64_insert, eb64i_insert}
use ebmbtreebench.Nearest.{eb32_lookup_ge, eb32_lookup_le}
use ebmbtreebench.Nearest.Pick.{first_ge, last_le_or}
use ebmbtreebench.Nearest.Above.{eb32_lookup_ge-contents}
use ebmbtreebench.Nearest.Below.{eb32_lookup_le-contents}
use ebmbtreebench.Fls.{flsnz, fls64}
use ebmbtreebench.Fls.Top.{flsnz_top, fls64_top}
use ebmbtreebench.Prelude.{◌⊎◌, ◌<◌, ◌≤◌, ◌^◌, ◌≡◌, ◌/◌, ◌-◌, arith, some}
use ebmbtreebench.Lookup.{lookup}
use ebmbtreebench.Lookup.Exact.{lookup-Exact}
use ebmbtreebench.Lookup.Sides.{Exact}
use ebmbtreebench.Order.Turns.{eb32_IsTurn}
use ebmbtreebench.Examples.Lookup.{wrapped_shift}
use ebmbtreebench.Prelude.{leb}
use ebmbtreebench.Typed.Sorted.{Printed, eb32_insert-dump}
use ebmbtreebench.Order.Place.{insert_by}
use ebmbtreebench.Prelude.{refl, ◌∷◌, []}
use ebmbtreebench.Tree.{leaves}
use Prim.Native.Nat.{bit_xor}

keys_width : (y : Ptr) → keys y < 2 ^ 32
keys_width y = ground arith

keys_width_64 : (y : Ptr) → keys y < 2 ^ 64
keys_width_64 y = ground arith

small-IsRadix : IsRadix keys small_tree
unfolding leaf_count
small-IsRadix = (
  (λ y i. ground arith),
  (λ y i. ground arith),
  omega arith,
  tt,
  ((λ y i. ground arith), (λ y i. ground arith), omega arith, tt, tt),
)

small-IsRadix_signed : IsRadix (λ y. shift_sign (keys y)) small_tree
unfolding leaf_count
small-IsRadix_signed = (
  (λ y i. ground arith),
  (λ y i. ground arith),
  omega arith,
  tt,
  ((λ y i. ground arith), (λ y i. ground arith), omega arith, tt, tt),
)

small-IsRadix_wide : IsRadix (λ y. bit_xor (keys y) (2 ^ 63)) small_tree
unfolding leaf_count
small-IsRadix_wide = (
  (λ y i. ground arith),
  (λ y i. ground arith),
  omega arith,
  tt,
  ((λ y i. ground arith), (λ y i. ground arith), omega arith, tt, tt),
)

eb32_lookup_ge_example : eb32_lookup_ge keys 9 small 100 5 ≡ some 4
unfolding height height_of contents leaves first_ge
eb32_lookup_ge_example =
    eb32_lookup_ge-contents keys 9 small 100 5 (some small_tree) (omega arith) small-Rooted
      small-IsRadix

eb32_lookup_le_example : eb32_lookup_le keys 9 small 100 8 ≡ some 2
unfolding height height_of contents leaves last_le_or
eb32_lookup_le_example =
    eb32_lookup_le-contents keys 9 small 100 8 (some small_tree) (omega arith) small-Rooted
      small-IsRadix

eb32_insert_order_example :
    InOrder keys (eb32_insert keys 9 100 8 small) 100 small_tree 8
    ⊎ Refused keys (eb32_insert keys 9 100 8 small) 0 100 small_tree 8
unfolding height
eb32_insert_order_example =
    eb32_insert-InOrder keys 9 small 100 8 small_tree (omega arith) small-Valid eight_CanInsert
      keys_width small-IsRadix

eb32i_insert_order_example :
    InOrder (λ y. shift_sign (keys y)) (eb32i_insert keys 9 100 8 small) 100 small_tree 8
    ⊎ Refused keys (eb32i_insert keys 9 100 8 small) 0 100 small_tree 8
unfolding height
eb32i_insert_order_example =
    eb32i_insert-InOrder keys 9 small 100 8 small_tree (omega arith) small-Valid eight_CanInsert
      keys_width small-IsRadix_signed

eb64_insert_order_example :
    InOrder keys (eb64_insert keys 9 100 8 small) 100 small_tree 8
    ⊎ Refused keys (eb64_insert keys 9 100 8 small) 0 100 small_tree 8
unfolding height
eb64_insert_order_example =
    eb64_insert-InOrder keys 9 small 100 8 small_tree (omega arith) small-Valid eight_CanInsert
      keys_width_64 small-IsRadix

eb64i_insert_order_example :
    InOrder (λ y. bit_xor (keys y) (2 ^ 63)) (eb64i_insert keys 9 100 8 small) 100 small_tree 8
    ⊎ Refused keys (eb64i_insert keys 9 100 8 small) 0 100 small_tree 8
unfolding height
eb64i_insert_order_example =
    eb64i_insert-InOrder keys 9 small 100 8 small_tree (omega arith) small-Valid eight_CanInsert
      keys_width_64 small-IsRadix_wide

flsnz_example : (80 / 2 ^ (flsnz 80 - 1) ≡ 1) × (0 < flsnz 80) × (flsnz 80 ≤ 32)
flsnz_example = flsnz_top 80 (omega arith) (omega arith)

fls64_example :
    (2 ^ 40 / 2 ^ (fls64 (2 ^ 40) - 1) ≡ 1) × (0 < fls64 (2 ^ 40)) × (fls64 (2 ^ 40) ≤ 64)
fls64_example = fls64_top (2 ^ 40) (omega arith) (omega arith)

lookup_example : Exact keys 9 small_tree (lookup wrapped_shift keys (λ x. x) 9 small 100 9)
unfolding height
lookup_example =
    lookup-Exact 32 (λ x. x) flsnz (λ x y. leb y x) eb32_IsTurn keys keys_width 9 (omega arith)
      wrapped_shift small 9 100 small_tree (omega arith) small-Rooted small-IsRadix

eb32_insert_dump_example : Printed 9 9 (eb32_insert keys 9 100 8 small) 100 8 (2 ∷ 4 ∷ 6 ∷ 8 ∷ [])
unfolding height leaves insert_by
eb32_insert_dump_example =
    eb32_insert-dump keys 9 9 small 100 8 small_tree (omega arith) (omega arith) small-Valid
      eight_CanInsert keys_width small-IsRadix refl
