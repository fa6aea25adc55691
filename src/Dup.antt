-- ===== src/Dup.antt =====
-- `__eb_insert_dup` of ebtree.h: a new leaf behind the last one of a tree of duplicates.
-- The bits of such a tree are negative, and the loop walks down its right side.
pub mod Spine
pub mod Append
pub mod Correct
use ebmbtreebench.Prelude.{
  ℕ, zero, suc, ◌+◌, ltb, ◌==◌, Bool, true, false, Option, some, none, if◌then◌else◌,
}
use ebmbtreebench.Memory.{
  Ptr, Mem, Bit, pos, negsuc, eb_left, eb_rght, eb_leaf, eb_node, branch, eb_gettag, eb_untag,
  eb_dotag, set_b, set_node_p, set_leaf_p, set_bit,
}

-- The arithmetic of `bit`: a + 1, a - 1 and a < b.
abbrev pub bit_suc : Bit → Bit
bit_suc (pos n) = pos (suc n)
bit_suc (negsuc zero) = pos 0
bit_suc (negsuc (suc n)) = negsuc n

abbrev pub bit_pred : Bit → Bit
bit_pred (pos zero) = negsuc 0
bit_pred (pos (suc n)) = pos n
bit_pred (negsuc n) = negsuc (suc n)

abbrev pub bit_ltb : Bit → Bit → Bool
bit_ltb (pos a) (pos b) = ltb a b
bit_ltb (pos a) (negsuc b) = false
bit_ltb (negsuc a) (pos b) = true
bit_ltb (negsuc a) (negsuc b) = ltb b a

-- The loop's two variables, `head` and `sub`.
pub record Scan : Type 0 where
  pub head : Ptr
  pub sub : Ptr

-- The deepest hole on the right branch.
unfoldable pub scan_holes : ℕ → Mem → Ptr → Ptr → Option Scan
scan_holes zero m head sub = none
scan_holes (suc f) m head sub = elim (eb_gettag (branch m head eb_rght) == eb_leaf) [
  | true ↦ some (record { head = head; sub = sub })
  | false ↦
      let head' = eb_untag (branch m head eb_rght) eb_node in
      scan_holes f m head' (if bit_ltb (bit_suc (m.bit head)) (m.bit head') then head' else sub)
]

-- Above the last leaf, below `head`.
unfoldable pub insert_above_leaf : Ptr → Ptr → Mem → Mem
insert_above_leaf head new m =
    let m1 = set_bit new (negsuc 0) m in
    let sub = eb_untag (branch m1 head eb_rght) eb_leaf in
    let m2 = set_b head eb_rght (eb_dotag new eb_node) m1 in
    let m3 = set_node_p new (m2.leaf_p sub) m2 in
    let m4 = set_leaf_p sub (eb_dotag new eb_left) (set_leaf_p new (eb_dotag new eb_rght) m3) in
    set_b new eb_rght (eb_dotag new eb_leaf) (set_b new eb_left (eb_dotag sub eb_leaf) m4)

-- Above the node `sub`.
unfoldable pub insert_above_node : Ptr → Ptr → Mem → Mem
insert_above_node sub new m =
    let m1 = set_bit new (bit_pred (m.bit sub)) m in
    let side = eb_gettag (m1.node_p sub) in
    let head = eb_untag (m1.node_p sub) side in
    let m2 = set_b head side (eb_dotag new eb_node) m1 in
    let m3 = set_node_p new (m2.node_p sub) m2 in
    let m4 = set_node_p sub (eb_dotag new eb_left) (set_leaf_p new (eb_dotag new eb_rght) m3) in
    set_b new eb_rght (eb_dotag new eb_leaf) (set_b new eb_left (eb_dotag sub eb_node) m4)

unfoldable pub eb_insert_dup : ℕ → Ptr → Ptr → Mem → Option (Ptr × Mem)
eb_insert_dup f sub new m = elim (scan_holes f m sub sub) [
  | none ↦ none
  | some s ↦
      if bit_ltb (m.bit s.head) (negsuc 0)
      then some (new, insert_above_leaf s.head new m)
      else some (new, insert_above_node s.sub new m)
]
