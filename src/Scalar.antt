-- ===== src/Scalar.antt =====
-- `__eb32_insert` and `__eb32i_insert` of eb32tree.h. The two differ in the key that picks the
-- branches of the descent and in the comparison at its end, which are parameters here.
-- `key` is the member `key` of the structures, which the code only reads.
pub mod Descent
pub mod Between
pub mod Correct
pub mod Placed
pub mod Whole
pub mod Insert
use ebmbtreebench.Fls.{flsnz}
use ebmbtreebench.Dup.{eb_insert_dup}
use Prim.Native.Nat.{ℕ, suc, bit_xor}
use ebmbtreebench.Memory.{
  Ptr, eb_gettag, Mem, Bit, set_leaf_p, eb_dotag, set_bit, eb_leaf, set_node_p, eb_left, pos,
  branch, eb_rght, set_b, null, eb_root_to_node, eb_node, negsuc, eb_untag,
}
use ebmbtreebench.Prelude.{
  Bool, ℕ, if◌then◌else◌, ◌+◌, ◌==◌, Option, ltb, ◌%◌, none, leb, ◌^◌, true, some, false, ◌-◌, ◌/◌,
  zero,
}

-- Where a descent ends: the slot `b[side]` of `root`, and what its branch `troot` refers to.
pub record Place : Type 0 where
  pub root : Ptr
  pub side : ℕ
  pub troot : Ptr
  pub old : Ptr

abbrev pub place : Ptr → ℕ → Ptr → Ptr → Place
place root side troot old = record { root = root; side = side; troot = troot; old = old }

abbrev pub is_leaf : Place → Bool
is_leaf p = eb_gettag p.troot == eb_leaf

-- The loop of the descent, with the key `x` of the new structure and the key `newkey` that picks
-- the branches.
unfoldable pub descend : (Ptr → ℕ) → ℕ → ℕ → ℕ → Mem → Ptr → ℕ → Ptr → Option Place
descend key x newkey zero m root side troot = none
descend key x newkey (suc f) m root side troot = elim (eb_gettag troot == eb_leaf) [
  | true ↦ some (place root side troot (eb_root_to_node (eb_untag troot eb_leaf)))
  | false ↦
      let old = eb_root_to_node (eb_untag troot eb_node) in
      elim (m.bit old) [
        | negsuc n ↦ some (place root side troot old)
        | pos n ↦ elim (leb 2 (bit_xor x (key old) / 2 ^ n)) [
          | true ↦ some (place root side troot old)
          | false ↦
              let side' = newkey / 2 ^ n % 2 in
              descend key x newkey f m old side' (branch m old side')
        ]
      ]
]

-- `*up_ptr = ...`, where `up_ptr` is the address of `leaf_p` or of `node_p` of the old structure.
abbrev pub set_up : Place → Ptr → Mem → Mem
set_up p v m = if is_leaf p then set_leaf_p p.old v m else set_node_p p.old v m

-- From the comparison of the keys, with the result `ge`, to the end.
unfoldable pub put_between : Bool → Place → Ptr → Mem → Mem
put_between ge p new m =
    let new_left = eb_dotag new eb_left in
    let new_rght = eb_dotag new eb_rght in
    let new_leaf = eb_dotag new eb_leaf in
    let right =
      set_up p new_left
        (set_leaf_p new new_rght (set_b new eb_rght new_leaf (set_b new eb_left p.troot m))) in
    let left =
      set_up p new_rght
        (set_leaf_p new new_left (set_b new eb_rght p.troot (set_b new eb_left new_leaf m))) in
    set_b p.root p.side (eb_dotag new eb_node) (if ge then right else left)

-- What is written into `new` before the keys are found to be equal or not, and if they are.
unfoldable pub prepare : Place → Ptr → Bit → Mem → Mem
prepare p new k m =
    set_bit new k (set_node_p new (if is_leaf p then m.leaf_p p.old else m.node_p p.old) m)

unfoldable pub attach : (Ptr → ℕ) → (ℕ → ℕ → Bool) → ℕ → ℕ → Place → Ptr → Mem → Option (Ptr × Mem)
attach key ge f root_tag p new m =
    let differ = prepare p new (pos (flsnz (bit_xor (key new) (key p.old)) - 1)) m in
    let same = set_bit new (negsuc 0) differ in
    let dup = eb_insert_dup f p.old new same in
    if key new == key p.old
    then if root_tag == 0
      then if is_leaf p then some (new, put_between (ge (key new) (key p.old)) p new same) else dup
      else some (p.old, same)
    else some (new, put_between (ge (key new) (key p.old)) p new differ)

-- The whole insertion, with what follows the descent as a parameter.
unfoldable pub insert :
    (Ptr → ℕ)
    → (ℕ → ℕ)
    → (ℕ → Place → Ptr → Mem → Option (Ptr × Mem))
    → ℕ
    → Ptr
    → Ptr
    → Mem
    → Option (Ptr × Mem)
insert key turn ending f root new m =
    let root_right = branch m root eb_rght in
    if branch m root eb_left == null
    then some (
      new,
      set_node_p new null
          (set_leaf_p new (eb_dotag root eb_left) (set_b root eb_left (eb_dotag new eb_leaf) m)),
    )
    else elim (descend key (key new) (turn (key new)) f m root eb_left (branch m root eb_left)) [
      | none ↦ none
      | some p ↦ ending (eb_gettag root_right) p new m
    ]

-- Unsigned keys pick the branches by their own bits.
pub eb32_insert : (Ptr → ℕ) → ℕ → Ptr → Ptr → Mem → Option (Ptr × Mem)
eb32_insert key f = insert key (λ x. x) (attach key (λ x y. leb y x) f) f

-- `newkey = new->key + 0x80000000`.
abbrev pub shift_sign : ℕ → ℕ
shift_sign x = (x + 0x80000000) % 2 ^ 32

-- The comparison of two 32-bit patterns as `s32`: `(s32) x >= (s32) y`.
abbrev pub signed_ge : ℕ → ℕ → Bool
signed_ge x y =
    if ltb x 0x80000000
    then if ltb y 0x80000000 then leb y x else true
    else if ltb y 0x80000000
    then false
    else leb y x

pub eb32i_insert : (Ptr → ℕ) → ℕ → Ptr → Ptr → Mem → Option (Ptr × Mem)
eb32i_insert key f = insert key shift_sign (attach key signed_ge f) f
