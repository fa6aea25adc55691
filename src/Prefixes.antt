-- ===== src/Prefixes.antt =====
-- The trees of prefixes in ebmbtree.h. `pfx` is the member `pfx` of the structures, the number of
-- bits of the key that count. The bit of a node is twice the number of a bit of the keys, and one
-- more where the node is no cover node; a cover node has on its left the keys that end at its bit.
pub mod Insert
pub mod Order
pub mod Same
pub mod Put
pub mod Attach
pub mod Step
pub mod Stop
pub mod Descent
pub mod Whole
use ebmbtreebench.Prelude.{
  ℕ, zero, suc, true, false, Option, none, some, ◌==◌, ◌+◌, ◌-◌, ◌*◌, ◌/◌, ◌%◌, ◌^◌, ltb, leb,
  if◌then◌else◌,
}
use ebmbtreebench.Memory.{
  Ptr, Mem, Bit, pos, negsuc, null, branch, is_neg, eb_gettag, eb_untag, eb_dotag, eb_leaf, eb_node,
  eb_left, eb_rght, eb_root_to_node, set_b, set_bit, set_leaf_p, set_node_p,
}
use ebmbtreebench.Bytes.{Bytes, add, check_bits, equal_bits, cmp_bits}
use ebmbtreebench.Scalar.{Place, place, is_leaf, set_up}
use ebmbtreebench.Wide.{set_parent}
use ebmbtreebench.Walk.{eb_walk_down}
use ebmbtreebench.Dup.{eb_insert_dup}
use ebmbtreebench.Blocks.{walk_left}
use Prim.Native.Nat.{bit_xor}

-- What the loop over the bytes above a node finds: a byte that differs, or the byte of the node and
-- the shift for its bit.
pub data PrefixStride : Type 0 where
  apart : PrefixStride
  at_byte : ℕ → ℕ → PrefixStride

-- The inner loop of the lookups, where `node_bit` is negative.
unfoldable pub prefix_stride : ℕ → Bytes → Bytes → ℕ → Bit → Option PrefixStride
prefix_stride zero key x p node_bit = none
prefix_stride (suc g) key x p node_bit =
    if bit_xor (key p) (x p) == 0
    then elim (add node_bit 8) [
      | pos n ↦ some (at_byte (p + 1) n)
      | negsuc n ↦ prefix_stride g key x (p + 1) (negsuc n)
    ]
    else some apart

-- The bit of the node without the cover bit, less the bytes passed so far. `~node_bit` is
-- -(node_bit + 1).
unfoldable pub prefix_stride_to : ℕ → Bytes → Bytes → ℕ → ℕ → Option PrefixStride
prefix_stride_to g key x p bit = elim (add (negsuc (bit / 2)) (p * 2 ^ 3 + 8)) [
  | pos n ↦ some (at_byte p n)
  | negsuc n ↦ prefix_stride g key x p (negsuc n)
]

-- `not_found`: down the last tree that was covered.
unfoldable pub not_found : ℕ → Mem → Ptr → Option Ptr
not_found f m cover = eb_walk_down f m cover eb_left

-- The loop of `__ebmb_lookup_longest`. `x` is the key from its start: `check_bits` gets it from
-- there, and the code has moved its own `x` on by `p` bytes.
unfoldable pub ebmb_lookup_longest_from :
    ℕ → (Ptr → Bytes) → (Ptr → ℕ) → Bytes → ℕ → Mem → Ptr → Ptr → ℕ → Option Ptr
ebmb_lookup_longest_from g key pfx x zero m troot cover p = none
ebmb_lookup_longest_from g key pfx x (suc f) m troot cover p = elim (eb_gettag troot == eb_leaf) [
  | true ↦
      let node = eb_root_to_node (eb_untag troot eb_leaf) in
      elim (check_bits g x (key node) p (pfx node)) [
        | none ↦ none
        | some differ ↦ if differ == 0 then some node else not_found f m cover
      ]
  | false ↦
      let node = eb_root_to_node (eb_untag troot eb_node) in
      elim (m.bit node) [
        | negsuc n ↦ elim (check_bits g x (key node) p (pfx node)) [
          | none ↦ none
          | some differ ↦
              if differ == 0 then walk_left f m (branch m node eb_left) else not_found f m cover
        ]
        | pos n ↦ elim (prefix_stride_to g (key node) x p n) [
          | none ↦ none
          | some s ↦ elim s [
            | apart ↦ not_found f m cover
            | at_byte p' d ↦
                let side = x p' / 2 ^ d in
                elim (leb 2 (bit_xor (key node p' / 2 ^ d) side)) [
                  | true ↦ not_found f m cover
                  | false ↦ elim (n % 2 == 0) [
                    | true ↦
                        ebmb_lookup_longest_from g key pfx x f m (branch m node eb_rght)
                          (branch m node eb_left) p'
                    | false ↦
                        ebmb_lookup_longest_from g key pfx x f m (branch m node (side % 2)) cover p'
                  ]
                ]
          ]
        ]
      ]
]

unfoldable pub ebmb_lookup_longest :
    ℕ → (Ptr → Bytes) → (Ptr → ℕ) → ℕ → Mem → Ptr → Bytes → Option Ptr
ebmb_lookup_longest g key pfx f m root x =
    let troot = branch m root eb_left in
    if troot == null then some null else ebmb_lookup_longest_from g key pfx x f m troot null 0

-- The loop of `__ebmb_lookup_prefix`, for the first `len` bits of `x`.
unfoldable pub ebmb_lookup_prefix_from :
    ℕ → (Ptr → Bytes) → (Ptr → ℕ) → Bytes → ℕ → ℕ → Mem → Ptr → ℕ → Option Ptr
ebmb_lookup_prefix_from g key pfx x len zero m troot p = none
ebmb_lookup_prefix_from g key pfx x len (suc f) m troot p = elim (eb_gettag troot == eb_leaf) [
  | true ↦
      let node = eb_root_to_node (eb_untag troot eb_leaf) in
      elim (pfx node == len) [
        | false ↦ some null
        | true ↦ elim (check_bits g x (key node) p (pfx node)) [
          | none ↦ none
          | some differ ↦ some (if differ == 0 then node else null)
        ]
      ]
  | false ↦
      let node = eb_root_to_node (eb_untag troot eb_node) in
      elim (m.bit node) [
        | negsuc n ↦ elim (pfx node == len) [
          | false ↦ some null
          | true ↦ elim (check_bits g x (key node) p (pfx node)) [
            | none ↦ none
            | some differ ↦ if differ == 0 then walk_left f m (branch m node eb_left) else some null
          ]
        ]
        | pos n ↦ elim (prefix_stride_to g (key node) x p n) [
          | none ↦ none
          | some s ↦ elim s [
            | apart ↦ some null
            | at_byte p' d ↦
                let side = x p' / 2 ^ d in
                let next =
                  if n % 2 == 0 then if n / 2 == len then eb_left else eb_rght else side % 2 in
                elim (leb 2 (bit_xor (key node p' / 2 ^ d) side)) [
                  | true ↦ some null
                  | false ↦ ebmb_lookup_prefix_from g key pfx x len f m (branch m node next) p'
                ]
          ]
        ]
      ]
]

unfoldable pub ebmb_lookup_prefix :
    ℕ → (Ptr → Bytes) → (Ptr → ℕ) → ℕ → Mem → Ptr → Bytes → ℕ → Option Ptr
ebmb_lookup_prefix g key pfx f m root x len =
    let troot = branch m root eb_left in
    if troot == null then some null else ebmb_lookup_prefix_from g key pfx x len f m troot 0
