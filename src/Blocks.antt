-- ===== src/Blocks.antt =====
-- ebmbtree.h, and the lookup of ebimtree.h: trees of blocks of bytes. `key` is the member `key` of
-- the structures, which the code only reads. The bit of a node is the number of a bit in the blocks,
-- from the front. An `ebmb_node` has the address of the `eb_node` that is its first member, so the
-- conversions leave an address as it is. `memcmp` is the C library's.
pub mod Order
pub mod Descent
pub mod Grow
pub mod Insert
pub mod Whole
pub mod First
pub mod Reach
pub mod Lookup
pub mod Sides
pub mod Found
use ebmbtreebench.Prelude.{
  ℕ, zero, suc, Bool, true, false, not, Option, none, some, ◌==◌, ◌+◌, ◌-◌, ◌*◌, ◌/◌, ◌%◌, ◌^◌, ltb,
  leb, if◌then◌else◌,
}
use ebmbtreebench.Memory.{
  to_short, Ptr, Mem, Bit, pos, negsuc, null, branch, is_neg, eb_gettag, eb_untag, eb_dotag,
  eb_leaf, eb_node, eb_left, eb_rght, eb_root_to_node, set_b, set_bit, set_leaf_p, set_node_p,
}
use ebmbtreebench.Bytes.{Bytes, add, equal_bits, cmp_bits}
use ebmbtreebench.Scalar.{Place, place, is_leaf, prepare, put_between}
use ebmbtreebench.Dup.{eb_insert_dup}
use ebmbtreebench.Walk.{
  eb_first, eb_last, eb_next, eb_prev, eb_next_dup, eb_prev_dup, eb_next_unique, eb_prev_unique,
}
use ebmbtreebench.Delete.{eb_delete}
use Prim.Native.Nat.{bit_xor}

abbrev pub ebmb_first : ℕ → Mem → Ptr → Option Ptr
ebmb_first f m root = eb_first f m root

abbrev pub ebmb_last : ℕ → Mem → Ptr → Option Ptr
ebmb_last f m root = eb_last f m root

abbrev pub ebmb_next : ℕ → Mem → Ptr → Option Ptr
ebmb_next f m node = eb_next f m node

abbrev pub ebmb_prev : ℕ → Mem → Ptr → Option Ptr
ebmb_prev f m node = eb_prev f m node

abbrev pub ebmb_next_dup : ℕ → Mem → Ptr → Option Ptr
ebmb_next_dup f m node = eb_next_dup f m node

abbrev pub ebmb_prev_dup : ℕ → Mem → Ptr → Option Ptr
ebmb_prev_dup f m node = eb_prev_dup f m node

abbrev pub ebmb_next_unique : ℕ → Mem → Ptr → Option Ptr
ebmb_next_unique f m node = eb_next_unique f m node

abbrev pub ebmb_prev_unique : ℕ → Mem → Ptr → Option Ptr
ebmb_prev_unique f m node = eb_prev_unique f m node

abbrev pub ebmb_delete : Ptr → Mem → Mem
ebmb_delete node m = eb_delete node m

-- What the loop over the bytes above a node finds: a byte that differs, that all the bytes looked
-- for are equal, or the next byte, how many bytes are left, and the shift for the node's bit.
pub data Stride : Type 0 where
  mismatch : Stride
  matched : Stride
  reached : ℕ → ℕ → ℕ → Stride

-- The inner loop of the lookup, where `node_bit` is negative. At least one byte is left.
unfoldable pub stride : Bytes → Bytes → ℕ → ℕ → Bit → Option Stride
stride key x zero p node_bit = none
stride key x (suc len) p node_bit =
    if bit_xor (key p) (x p) == 0
    then if len == 0 then some matched else elim (add node_bit 8) [
      | pos n ↦ some (reached (p + 1) len n)
      | negsuc n ↦ stride key x len (p + 1) (negsuc n)
    ]
    else some mismatch

-- `~node_bit` is -(node_bit + 1).
unfoldable pub stride_to : Bytes → Bytes → ℕ → ℕ → ℕ → Option Stride
stride_to key x len p node_bit = elim (add (negsuc node_bit) (p * 2 ^ 3 + 8)) [
  | pos n ↦ some (reached p len n)
  | negsuc n ↦ stride key x len p (negsuc n)
]

-- From `walk_down` to the end.
unfoldable pub walk_left : ℕ → Mem → Ptr → Option Ptr
walk_left zero m troot = none
walk_left (suc f) m troot =
    let rest = walk_left f m (branch m (eb_untag troot eb_node) eb_left) in
    if eb_gettag troot == eb_leaf then some (eb_root_to_node (eb_untag troot eb_leaf)) else rest

abbrev pub is_zero : Bit → Bool
is_zero (pos n) = n == 0
is_zero (negsuc n) = false

-- The test for a leaf and for a tree of duplicates: `memcmp(node->key + pos, x, len) == 0`, where
-- the code has moved `x` on by `p` bytes.
abbrev pub is_match : (Bytes → Bytes → ℕ → Bit) → Bytes → Bytes → ℕ → ℕ → Bool
is_match memcmp key x len p = is_zero (memcmp (λ i. key (p + i)) (λ i. x (p + i)) len)

-- The outer loop of the lookup.
unfoldable pub ebmb_lookup_from :
    (Bytes → Bytes → ℕ → Bit) → (Ptr → Bytes) → Bytes → ℕ → Mem → Ptr → ℕ → ℕ → Option Ptr
ebmb_lookup_from memcmp key x zero m troot len p = none
ebmb_lookup_from memcmp key x (suc f) m troot len p = elim (eb_gettag troot == eb_leaf) [
  | true ↦
      let node = eb_root_to_node (eb_untag troot eb_leaf) in
      some (if is_match memcmp (key node) x len p then node else null)
  | false ↦
      let node = eb_root_to_node (eb_untag troot eb_node) in
      let leftmost = walk_left f m (branch m node eb_left) in
      elim (m.bit node) [
        | negsuc n ↦ if is_match memcmp (key node) x len p then leftmost else some null
        | pos n ↦ elim (stride_to (key node) x len p n) [
          | none ↦ none
          | some s ↦ elim s [
            | mismatch ↦ some null
            | matched ↦ leftmost
            | reached p' len' d ↦
                let side = x p' / 2 ^ d in
                if leb 2 (bit_xor (key node p' / 2 ^ d) side)
                then some null
                else ebmb_lookup_from memcmp key x f m (branch m node (side % 2)) len' p'
          ]
        ]
      ]
]

unfoldable pub ebmb_lookup :
    (Bytes → Bytes → ℕ → Bit) → (Ptr → Bytes) → ℕ → Mem → Ptr → Bytes → ℕ → Option Ptr
ebmb_lookup memcmp key f m root x len =
    let troot = branch m root eb_left in
    let found = ebmb_lookup_from memcmp key x f m troot len 0 in
    if troot == null then some null else if len == 0 then walk_left f m troot else found

-- ebimtree.h has the same lookup, with the blocks that the members `key` point to.
abbrev pub ebim_lookup :
    (Bytes → Bytes → ℕ → Bit) → (Ptr → Bytes) → ℕ → Mem → Ptr → Bytes → ℕ → Option Ptr
ebim_lookup memcmp key f m root x len = ebmb_lookup memcmp key f m root x len

-- Where a descent ends, and the number of bits found equal there.
pub record BlockPlace : Type 0 where
  pub at : Place
  pub bit : ℕ

abbrev pub block_place : Ptr → ℕ → Ptr → Ptr → ℕ → BlockPlace
block_place root side troot old n = record { at = place root side troot old; bit = n }

-- The end of a descent at a leaf or at a tree of duplicates, with the bits found equal.
abbrev pub stop_at : Option ℕ → Ptr → ℕ → Ptr → Ptr → Option BlockPlace
stop_at bits root side troot old = elim bits [
  | none ↦ none
  | some n ↦ some (block_place root side troot old n)
]

-- The descent of the insertion; `g` is the fuel of `equal_bits`. The three low bits of a number,
-- turned over, are 7 less the number that they are.
unfoldable pub ebmb_descend :
    (Ptr → Bytes) → ℕ → Ptr → ℕ → ℕ → Mem → Ptr → ℕ → Ptr → ℕ → Option BlockPlace
ebmb_descend key g new len zero m root side troot bit = none
ebmb_descend key g new len (suc f) m root side troot bit = elim (eb_gettag troot == eb_leaf) [
  | true ↦
      let old = eb_root_to_node (eb_untag troot eb_leaf) in
      stop_at (equal_bits g (key new) (key old) bit (len * 2 ^ 3)) root side troot old
  | false ↦
      let old = eb_root_to_node (eb_untag troot eb_node) in
      elim (m.bit old) [
        | negsuc n ↦
            stop_at (equal_bits g (key new) (key old) bit (len * 2 ^ 3)) root side troot old
        | pos n ↦
            let side' = key new (n / 2 ^ 3) / 2 ^ (7 - n % 8) % 2 in
            let below = ebmb_descend key g new len f m old side' (branch m old side') (n + 1) in
            elim (equal_bits g (key new) (key old) bit n) [
              | none ↦ none
              | some bit' ↦
                  if ltb bit' n then some (block_place root side troot old bit') else below
            ]
      ]
]

-- From the end of the descent on.
unfoldable pub ebmb_attach : (Ptr → Bytes) → ℕ → ℕ → ℕ → BlockPlace → Ptr → Mem → Option (Ptr × Mem)
ebmb_attach key len f root_tag p new m =
    let old = p.at.old in
    let differ = prepare p.at new (to_short p.bit) m in
    let diff = if ltb (p.bit / 2 ^ 3) len then cmp_bits (key new) (key old) p.bit else pos 0 in
    let same = set_bit new (negsuc 0) differ in
    let dup = eb_insert_dup f old new same in
    let ge = not (is_neg diff) in
    if is_zero diff
    then if root_tag == 0
      then if is_leaf p.at then some (new, put_between ge p.at new same) else dup
      else some (old, same)
    else some (new, put_between ge p.at new differ)

unfoldable pub ebmb_insert : (Ptr → Bytes) → ℕ → ℕ → Ptr → Ptr → Mem → ℕ → Option (Ptr × Mem)
ebmb_insert key g f root new m len =
    let root_right = branch m root eb_rght in
    let troot = branch m root eb_left in
    if troot == null
    then some (
      new,
      set_node_p new null
          (set_leaf_p new (eb_dotag root eb_left) (set_b root eb_left (eb_dotag new eb_leaf) m)),
    )
    else elim (ebmb_descend key g new len f m root eb_left troot 0) [
      | none ↦ none
      | some p ↦ ebmb_attach key len f (eb_gettag root_right) p new m
    ]
