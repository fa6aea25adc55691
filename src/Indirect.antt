-- ===== src/Indirect.antt =====
-- `__ebim_insert` of ebimtree.h, for blocks that the members `key` point to. Its descent does not
-- limit the bits found equal to the bit of a node, and compares at a node only where that is
-- further; what follows writes in the order of eb64tree.h. `width` is the number of bits: the code
-- has multiplied `len` by 8, and then compares it with a number of bytes.
pub mod Descent
pub mod Insert
pub mod Whole
use ebmbtreebench.Prelude.{
  ℕ, zero, suc, true, false, Option, none, some, ◌==◌, ◌-◌, ◌*◌, ◌/◌, ◌%◌, ◌^◌, ltb, if◌then◌else◌,
}
use ebmbtreebench.Memory.{
  to_short, Ptr, Mem, pos, negsuc, null, branch, eb_gettag, eb_untag, eb_dotag, eb_leaf, eb_node,
  eb_left, eb_rght, eb_root_to_node, is_neg, set_b, set_leaf_p, set_node_p,
}
use ebmbtreebench.Bytes.{Bytes, equal_bits, cmp_bits}
use ebmbtreebench.Scalar.{is_leaf}
use ebmbtreebench.Dup.{eb_insert_dup}
use ebmbtreebench.Wide.{set_parent, put_left, put_right, finish}
use ebmbtreebench.Blocks.{BlockPlace, block_place, stop_at, is_zero}

unfoldable pub ebim_descend :
    (Ptr → Bytes) → ℕ → Ptr → ℕ → ℕ → Mem → Ptr → ℕ → Ptr → ℕ → Option BlockPlace
ebim_descend key g new width zero m root side troot bit = none
ebim_descend key g new width (suc f) m root side troot bit = elim (eb_gettag troot == eb_leaf) [
  | true ↦
      let old = eb_root_to_node (eb_untag troot eb_leaf) in
      stop_at (equal_bits g (key new) (key old) bit width) root side troot old
  | false ↦
      let old = eb_root_to_node (eb_untag troot eb_node) in
      elim (m.bit old) [
        | negsuc n ↦ stop_at (equal_bits g (key new) (key old) bit width) root side troot old
        | pos n ↦
            let side' = key new (n / 2 ^ 3) / 2 ^ (7 - n % 8) % 2 in
            elim (ltb bit n) [
              | false ↦ ebim_descend key g new width f m old side' (branch m old side') bit
              | true ↦ elim (equal_bits g (key new) (key old) bit n) [
                | none ↦ none
                | some bit' ↦ elim (ltb bit' n) [
                  | true ↦ some (block_place root side troot old bit')
                  | false ↦ ebim_descend key g new width f m old side' (branch m old side') bit'
                ]
              ]
            ]
      ]
]

unfoldable pub ebim_attach : (Ptr → Bytes) → ℕ → ℕ → ℕ → BlockPlace → Ptr → Mem → Option (Ptr × Mem)
ebim_attach key width f root_tag p new m =
    let old = p.at.old in
    let m1 = set_parent p.at new m in
    let diff = if ltb (p.bit / 2 ^ 3) width then cmp_bits (key new) (key old) p.bit else pos 0 in
    let left = finish (to_short p.bit) p.at new (put_left p.at new m1) in
    let rght = finish (to_short p.bit) p.at new (put_right p.at new m1) in
    let beside = finish (negsuc 0) p.at new (put_right p.at new m1) in
    let dup = eb_insert_dup f old new m1 in
    if is_neg diff
    then some (new, left)
    else if is_zero diff
    then if is_leaf p.at then if root_tag == 0 then some (new, beside) else some (old, m1) else dup
    else some (new, rght)

unfoldable pub ebim_insert : (Ptr → Bytes) → ℕ → ℕ → Ptr → Ptr → Mem → ℕ → Option (Ptr × Mem)
ebim_insert key g f root new m len =
    let root_right = branch m root eb_rght in
    let troot = branch m root eb_left in
    if troot == null
    then some (
      new,
      set_node_p new null
          (set_leaf_p new (eb_dotag root eb_left) (set_b root eb_left (eb_dotag new eb_leaf) m)),
    )
    else elim (ebim_descend key g new (len * 2 ^ 3) f m root eb_left troot 0) [
      | none ↦ none
      | some p ↦ ebim_attach key (len * 2 ^ 3) f (eb_gettag root_right) p new m
    ]
