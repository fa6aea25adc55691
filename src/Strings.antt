-- ===== src/Strings.antt =====
-- ebsttree.h and ebistree.h: trees of strings. A key is the block of bytes that the string starts,
-- up to its first 0: the member `key` itself, or what it points to in ebistree.h. `strcmp` is the C
-- library's.
pub mod Same
pub mod Lookup
pub mod Found
pub mod Grow
pub mod Near
pub mod Descent
pub mod Insert
pub mod Whole
use ebmbtreebench.Prelude.{
  ℕ, zero, suc, true, false, Option, none, some, ◌==◌, ◌-◌, ◌/◌, ◌%◌, ◌^◌, ltb, if◌then◌else◌,
}
use ebmbtreebench.Memory.{
  to_short, Ptr, Mem, Bit, pos, negsuc, null, branch, eb_gettag, eb_untag, eb_leaf, eb_node,
  eb_left, eb_rght, eb_root_to_node, is_neg, eb_dotag, set_b, set_leaf_p, set_node_p,
}
use ebmbtreebench.Bytes.{Bytes, string_equal_bits, cmp_bits}
use ebmbtreebench.Scalar.{Place, place, is_leaf}
use ebmbtreebench.Dup.{eb_insert_dup}
use ebmbtreebench.Wide.{set_parent, put_left, put_right, finish}
use ebmbtreebench.Blocks.{is_zero, walk_left, ebmb_lookup}

abbrev pub ebst_lookup_len :
    (Bytes → Bytes → ℕ → Bit) → (Ptr → Bytes) → ℕ → Mem → Ptr → Bytes → ℕ → Option Ptr
ebst_lookup_len memcmp key f m root x len = elim (ebmb_lookup memcmp key f m root x len) [
  | none ↦ none
  | some node ↦ some (if node == null then null else if key node len == 0 then node else null)
]

-- The loop of the lookup, with the tag of the right branch of the root; `g` is the fuel of
-- `string_equal_bits`. `~node_bit & 7` is 7 less the remainder of `node_bit` by 8. Where the strings
-- are equal `bit` is negative, and so below `node_bit`.
unfoldable pub ebst_lookup_from :
    (Bytes → Bytes → Bit) → (Ptr → Bytes) → Bytes → ℕ → ℕ → ℕ → Mem → Ptr → Bit → Option Ptr
ebst_lookup_from strcmp key x g tag zero m troot bit = none
ebst_lookup_from strcmp key x g tag (suc f) m troot bit = elim (eb_gettag troot == eb_leaf) [
  | true ↦
      let node = eb_root_to_node (eb_untag troot eb_leaf) in
      some (if is_zero (strcmp (key node) x) then node else null)
  | false ↦
      let node = eb_root_to_node (eb_untag troot eb_node) in
      elim (m.bit node) [
        | negsuc n ↦
            let leftmost = walk_left f m (branch m node eb_left) in
            if is_zero (strcmp (key node) x) then leftmost else some null
        | pos n ↦
            let below = branch m node (x (n / 2 ^ 3) / 2 ^ (7 - n % 8) % 2) in
            elim bit [
              | negsuc k ↦ ebst_lookup_from strcmp key x g tag f m below (negsuc k)
              | pos b ↦ elim (string_equal_bits g x (key node) b) [
                | none ↦ none
                | some r ↦ elim r [
                  | pos b' ↦ elim (ltb b' n) [
                    | true ↦ some null
                    | false ↦ ebst_lookup_from strcmp key x g tag f m below (pos n)
                  ]
                  | negsuc k ↦ elim (tag == 0) [
                    | true ↦ ebst_lookup_from strcmp key x g tag f m below (negsuc k)
                    | false ↦ some node
                  ]
                ]
              ]
            ]
      ]
]

unfoldable pub ebst_lookup :
    (Bytes → Bytes → Bit) → (Ptr → Bytes) → ℕ → ℕ → Mem → Ptr → Bytes → Option Ptr
ebst_lookup strcmp key g f m root x =
    let troot = branch m root eb_left in
    let tag = eb_gettag (branch m root eb_rght) in
    let found = ebst_lookup_from strcmp key x g tag f m troot (pos 0) in
    if troot == null then some null else found

-- Where a descent ends, and the number of the first bit that differs there, or a negative number
-- where the strings are equal.
pub record StringPlace : Type 0 where
  pub at : Place
  pub bit : Bit

abbrev pub string_place : Ptr → ℕ → Ptr → Ptr → Bit → StringPlace
string_place root side troot old bit = record { at = place root side troot old; bit = bit }

-- The end of a descent at a leaf or a tree of duplicates: the strings are compared, if they are not
-- known to be equal.
abbrev pub string_stop : (ℕ → Option Bit) → Bit → Ptr → ℕ → Ptr → Ptr → Option StringPlace
string_stop compare bit root side troot old = elim bit [
  | negsuc k ↦ some (string_place root side troot old (negsuc k))
  | pos b ↦ elim (compare b) [ none ↦ none | some r ↦ some (string_place root side troot old r) ]
]

-- The descent of the insertion.
unfoldable pub ebst_descend :
    (Ptr → Bytes) → ℕ → Ptr → ℕ → Mem → Ptr → ℕ → Ptr → Bit → Option StringPlace
ebst_descend key g new zero m root side troot bit = none
ebst_descend key g new (suc f) m root side troot bit = elim (eb_gettag troot == eb_leaf) [
  | true ↦
      let old = eb_root_to_node (eb_untag troot eb_leaf) in
      string_stop (λ b. string_equal_bits g (key new) (key old) b) bit root side troot old
  | false ↦
      let old = eb_root_to_node (eb_untag troot eb_node) in
      elim (m.bit old) [
        | negsuc n ↦
            string_stop (λ b. string_equal_bits g (key new) (key old) b) bit root side troot old
        | pos n ↦
            let side' = key new (n / 2 ^ 3) / 2 ^ (7 - n % 8) % 2 in
            elim bit [
              | negsuc k ↦ ebst_descend key g new f m old side' (branch m old side') (negsuc k)
              | pos b ↦ elim (ltb b n) [
                | false ↦ ebst_descend key g new f m old side' (branch m old side') (pos b)
                | true ↦ elim (string_equal_bits g (key new) (key old) b) [
                  | none ↦ none
                  | some r ↦ elim r [
                    | negsuc k ↦
                        ebst_descend key g new f m old side' (branch m old side') (negsuc k)
                    | pos b' ↦ elim (ltb b' n) [
                      | true ↦ some (string_place root side troot old (pos b'))
                      | false ↦ ebst_descend key g new f m old side' (branch m old side') (pos b')
                    ]
                  ]
                ]
              ]
            ]
      ]
]

-- Where the strings differ at the bit `b`; `cmp_bits` tells the side.
unfoldable pub string_apart : (Ptr → Bytes) → Place → ℕ → Ptr → Mem → Mem
string_apart key p b new m =
    let m1 = set_parent p new m in
    let diff = cmp_bits (key new) (key p.old) b in
    finish (to_short b) p new (if is_neg diff then put_left p new m1 else put_right p new m1)

-- What follows the descent. Above a tree of duplicates with the string the root is not asked
-- whether it is unique.
unfoldable pub ebst_attach : (Ptr → Bytes) → ℕ → ℕ → StringPlace → Ptr → Mem → Option (Ptr × Mem)
ebst_attach key f root_tag p new m =
    let m1 = set_parent p.at new m in
    let beside = finish (negsuc 0) p.at new (put_right p.at new m1) in
    let dup = eb_insert_dup f p.at.old new m in
    elim p.bit [
      | pos b ↦ some (new, string_apart key p.at b new m)
      | negsuc k ↦
          if is_leaf p.at
          then if root_tag == 0 then some (new, beside) else some (p.at.old, m1)
          else dup
    ]

unfoldable pub ebst_insert : (Ptr → Bytes) → ℕ → ℕ → Ptr → Ptr → Mem → Option (Ptr × Mem)
ebst_insert key g f root new m =
    let root_right = branch m root eb_rght in
    let troot = branch m root eb_left in
    if troot == null
    then some (
      new,
      set_node_p new null
          (set_leaf_p new (eb_dotag root eb_left) (set_b root eb_left (eb_dotag new eb_leaf) m)),
    )
    else elim (ebst_descend key g new f m root eb_left troot (pos 0)) [
      | none ↦ none
      | some p ↦ ebst_attach key f (eb_gettag root_right) p new m
    ]

-- ebistree.h has the same functions, with the strings that the members `key` point to.
abbrev pub ebis_lookup_len :
    (Bytes → Bytes → ℕ → Bit) → (Ptr → Bytes) → ℕ → Mem → Ptr → Bytes → ℕ → Option Ptr
ebis_lookup_len memcmp key f m root x len = ebst_lookup_len memcmp key f m root x len

abbrev pub ebis_lookup :
    (Bytes → Bytes → Bit) → (Ptr → Bytes) → ℕ → ℕ → Mem → Ptr → Bytes → Option Ptr
ebis_lookup strcmp key g f m root x = ebst_lookup strcmp key g f m root x

abbrev pub ebis_insert : (Ptr → Bytes) → ℕ → ℕ → Ptr → Ptr → Mem → Option (Ptr × Mem)
ebis_insert key g f root new m = ebst_insert key g f root new m
