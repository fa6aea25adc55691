-- ===== src/Nearest.antt =====
-- `eb32_lookup_ge` and `eb32_lookup_le` (eb32tree.c), `eb64_lookup_ge` and `eb64_lookup_le`
-- (eb64tree.c). The two files differ in the width of the key only, and their keys are numbers
-- here. Each function goes down, and where it leaves its first loop climbs in a second one, which
-- is the loop of `eb_next` or of `eb_prev` (ebtree.h).
pub mod Pick
pub mod Side
pub mod Above
pub mod Below
use ebmbtreebench.Prelude.{
  ℕ, zero, suc, Option, none, some, true, false, ◌==◌, leb, ltb, ◌/◌, ◌^◌, ◌%◌, if◌then◌else◌,
}
use ebmbtreebench.Memory.{
  Ptr, null, Bit, pos, negsuc, Mem, branch, eb_left, eb_rght, eb_leaf, eb_node, eb_gettag, eb_untag,
  eb_root_to_node,
}
use ebmbtreebench.Walk.{eb_walk_down, next_from, prev_from}
use Prim.Native.Nat.{bit_xor}

-- The first loop, for the lowest key from `x` on.
unfoldable pub ge_from : (Ptr → ℕ) → ℕ → ℕ → Mem → Ptr → Option Ptr
ge_from key x zero m troot = none
ge_from key x (suc f) m troot = elim (eb_gettag troot == eb_leaf) [
  | true ↦
      let node = eb_root_to_node (eb_untag troot eb_leaf) in
      let next = next_from f m (m.leaf_p node) in if leb x (key node) then some node else next
  | false ↦
      let node = eb_root_to_node (eb_untag troot eb_node) in
      let next = next_from f m (m.node_p node) in
      let lowest = eb_walk_down f m (branch m node eb_left) eb_left in
      elim (m.bit node) [
        | negsuc n ↦ if leb x (key node) then lowest else next
        | pos n ↦
            let below = ge_from key x f m (branch m node (x / 2 ^ n % 2)) in
            if leb 2 (bit_xor x (key node) / 2 ^ n)
            then if ltb (x / 2 ^ n) (key node / 2 ^ n) then lowest else next
            else below
      ]
]

unfoldable pub eb32_lookup_ge : (Ptr → ℕ) → ℕ → Mem → Ptr → ℕ → Option Ptr
eb32_lookup_ge key f m root x =
    let found = ge_from key x f m (branch m root eb_left) in
    if branch m root eb_left == null then some null else found

-- The first loop, for the highest key up to `x`.
unfoldable pub le_from : (Ptr → ℕ) → ℕ → ℕ → Mem → Ptr → Option Ptr
le_from key x zero m troot = none
le_from key x (suc f) m troot = elim (eb_gettag troot == eb_leaf) [
  | true ↦
      let node = eb_root_to_node (eb_untag troot eb_leaf) in
      let prev = prev_from f m (m.leaf_p node) in if leb (key node) x then some node else prev
  | false ↦
      let node = eb_root_to_node (eb_untag troot eb_node) in
      let prev = prev_from f m (m.node_p node) in
      let highest = eb_walk_down f m (branch m node eb_rght) eb_rght in
      elim (m.bit node) [
        | negsuc n ↦ if leb (key node) x then highest else prev
        | pos n ↦
            let below = le_from key x f m (branch m node (x / 2 ^ n % 2)) in
            if leb 2 (bit_xor x (key node) / 2 ^ n)
            then if ltb (key node / 2 ^ n) (x / 2 ^ n) then highest else prev
            else below
      ]
]

unfoldable pub eb32_lookup_le : (Ptr → ℕ) → ℕ → Mem → Ptr → ℕ → Option Ptr
eb32_lookup_le key f m root x =
    let found = le_from key x f m (branch m root eb_left) in
    if branch m root eb_left == null then some null else found

-- The loops of eb64tree.c are those of eb32tree.c.
unfoldable pub eb64_lookup_ge : (Ptr → ℕ) → ℕ → Mem → Ptr → ℕ → Option Ptr
eb64_lookup_ge key f m root x =
    let found = ge_from key x f m (branch m root eb_left) in
    if branch m root eb_left == null then some null else found

unfoldable pub eb64_lookup_le : (Ptr → ℕ) → ℕ → Mem → Ptr → ℕ → Option Ptr
eb64_lookup_le key f m root x =
    let found = le_from key x f m (branch m root eb_left) in
    if branch m root eb_left == null then some null else found
