-- ===== src/Wide.antt =====
-- `__eb64_insert` and `__eb64i_insert` of eb64tree.h. The descent is that of eb32tree.h; what
-- follows it writes in another order, and looks for equal keys by comparing twice.
-- The branch for machines whose `long` has 4 bytes is left out: it computes the same side.
pub mod Same
pub mod Put
pub mod Correct
use ebmbtreebench.Scalar.{Place, is_leaf, set_up, insert}
use ebmbtreebench.Fls.{fls64}
use ebmbtreebench.Dup.{eb_insert_dup}
use Prim.Native.Nat.{ℕ, bit_xor}
use ebmbtreebench.Memory.{
  Ptr, Bit, Mem, pos, eb_dotag, set_node_p, set_leaf_p, set_b, eb_leaf, eb_rght, eb_node, eb_left,
  set_bit, negsuc,
}
use ebmbtreebench.Prelude.{ℕ, if◌then◌else◌, Bool, Option, ltb, some, ◌-◌, ◌^◌, ◌==◌, false, true}

-- `old_leaf` or `old_node`.
abbrev pub old_link : Place → Ptr
old_link p = if is_leaf p then eb_dotag p.old eb_leaf else eb_dotag p.old eb_node

-- `new->node.node_p = ...`
unfoldable pub set_parent : Place → Ptr → Mem → Mem
set_parent p new m = set_node_p new (if is_leaf p then m.leaf_p p.old else m.node_p p.old) m

unfoldable pub put_left : Place → Ptr → Mem → Mem
put_left p new m =
    let m1 = set_up p (eb_dotag new eb_rght) (set_leaf_p new (eb_dotag new eb_left) m) in
    set_b new eb_rght (old_link p) (set_b new eb_left (eb_dotag new eb_leaf) m1)

unfoldable pub put_right : Place → Ptr → Mem → Mem
put_right p new m =
    let m1 = set_leaf_p new (eb_dotag new eb_rght) (set_up p (eb_dotag new eb_left) m) in
    set_b new eb_rght (eb_dotag new eb_leaf) (set_b new eb_left (old_link p) m1)

-- The bit of the new node, then the slot.
unfoldable pub finish : Bit → Place → Ptr → Mem → Mem
finish k p new m = set_b p.root p.side (eb_dotag new eb_node) (set_bit new k m)

abbrev pub first_difference : ℕ → ℕ → Bit
first_difference x y = pos (fls64 (bit_xor x y) - 1)

-- What follows the descent at a leaf, with the comparison `lt` of the keys.
unfoldable pub attach_leaf : (Ptr → ℕ) → (ℕ → ℕ → Bool) → ℕ → Place → Ptr → Mem → Option (Ptr × Mem)
attach_leaf key lt root_tag p new m =
    let m1 = set_parent p new m in
    let k = first_difference (key new) (key p.old) in
    if lt (key new) (key p.old)
    then some (new, finish k p new (put_left p new m1))
    else if key new == key p.old
    then if root_tag == 0
      then some (new, finish (negsuc 0) p new (put_right p new m1))
      else some (p.old, m1)
    else some (new, finish k p new (put_right p new m1))

-- What follows it at a node.
unfoldable pub attach_node : (Ptr → ℕ) → (ℕ → ℕ → Bool) → ℕ → Place → Ptr → Mem → Option (Ptr × Mem)
attach_node key lt f p new m =
    let m1 = set_parent p new m in
    let k = first_difference (key new) (key p.old) in
    let dup = eb_insert_dup f p.old new m1 in
    if lt (key new) (key p.old)
    then some (new, finish k p new (put_left p new m1))
    else if lt (key p.old) (key new)
    then some (new, finish k p new (put_right p new m1))
    else dup

unfoldable pub attach64 :
    (Ptr → ℕ) → (ℕ → ℕ → Bool) → ℕ → ℕ → Place → Ptr → Mem → Option (Ptr × Mem)
attach64 key lt f root_tag p new m =
    let at_node = attach_node key lt f p new m in
    if is_leaf p then attach_leaf key lt root_tag p new m else at_node

pub eb64_insert : (Ptr → ℕ) → ℕ → Ptr → Ptr → Mem → Option (Ptr × Mem)
eb64_insert key f = insert key (λ x. x) (attach64 key ltb f) f

-- The comparison of two 64-bit patterns as `s64`: `(s64) x < (s64) y`.
abbrev pub signed_lt : ℕ → ℕ → Bool
signed_lt x y =
    if ltb x (2 ^ 63)
    then if ltb y (2 ^ 63) then ltb x y else false
    else if ltb y (2 ^ 63)
    then true
    else ltb x y

-- `newkey = new->key ^ (1ULL << 63)`.
pub eb64i_insert : (Ptr → ℕ) → ℕ → Ptr → Ptr → Mem → Option (Ptr × Mem)
eb64i_insert key f = insert key (λ x. bit_xor x (2 ^ 63)) (attach64 key signed_lt f) f
