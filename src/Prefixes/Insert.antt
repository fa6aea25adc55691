-- ===== src/Prefixes/Insert.antt =====
-- `__ebmb_insert_prefix` of ebmbtree.h. `width` is `len` in bits and at most `new->node.pfx`, as the
-- code has it after its first lines.
use ebmbtreebench.Prelude.{
  ℕ, zero, suc, true, false, Option, none, some, ◌==◌, ◌+◌, ◌*◌, ◌/◌, ◌%◌, ◌^◌, ltb, leb,
  if◌then◌else◌, ◌&&◌, not,
}
use ebmbtreebench.Memory.{
  to_short, Ptr, Mem, pos, negsuc, null, branch, is_neg, eb_gettag, eb_untag, eb_dotag, eb_leaf,
  eb_node, eb_left, eb_rght, eb_root_to_node, set_b, set_bit, set_leaf_p, set_node_p,
}
use ebmbtreebench.Bytes.{Bytes, equal_bits, cmp_bits}
use ebmbtreebench.Scalar.{Place, place, is_leaf, put_between}
use Prim.Native.Nat.{bit_xor}
use ebmbtreebench.Wide.{set_parent}
use ebmbtreebench.Dup.{eb_insert_dup}
use ebmbtreebench.Blocks.{is_zero}

-- How the descent ends: at a leaf or a tree of duplicates, with the number of bits found equal;
-- before a node that a cover node has to go above; or before a node that parts the keys, with the
-- bit in half-bits.
pub data PrefixPlace : Type 0 where
  at_leaves : Place → ℕ → PrefixPlace
  at_covered : Place → PrefixPlace
  at_parted : Place → ℕ → PrefixPlace

-- `if (a > b) a = b;`
abbrev pub limit : ℕ → ℕ → ℕ
limit a b = if ltb b a then b else a

-- `check_bit_and_break`.
abbrev pub check_bit_and_break : Option ℕ → Place → Option PrefixPlace
check_bit_and_break bits p = elim bits [ none ↦ none | some bit ↦ some (at_leaves p bit) ]

-- What the code does at a node that is in no tree of duplicates: it stops there, or goes down to a
-- side with a number of bits.
pub data PrefixStep : Type 0 where
  stop : PrefixPlace → PrefixStep
  walk_down : ℕ → ℕ → PrefixStep

-- From the bits found equal to the choice of the side; `n` is the bit of the node. Where the code
-- goes down to the left of a cover node, its `bit` stays counted in half-bits.
unfoldable pub prefix_step : (Ptr → Bytes) → (Ptr → ℕ) → Ptr → Place → ℕ → ℕ → PrefixStep
prefix_step key pfx new p n same =
    let bit = same * 2 + 1 in
    let half = n / 2 in
    if leb (pfx new * 2) bit && ltb (pfx new * 2) n
    then stop (at_covered p)
    else if ltb bit n
    then stop (at_parted p bit)
    else if n % 2 == 0
    then if pfx new * 2 == n then walk_down eb_left bit else walk_down eb_rght half
    else walk_down (key new (half / 2 ^ 3) / 2 ^ bit_xor (half % 8) 7 % 2) (half + 1)

-- The loop.
unfoldable pub prefix_descend :
    (Ptr → Bytes) → (Ptr → ℕ) → ℕ → Ptr → ℕ → ℕ → Mem → Ptr → ℕ → Ptr → ℕ → Option PrefixPlace
prefix_descend key pfx g new width zero m root side troot bit = none
prefix_descend key pfx g new width (suc f) m root side troot bit =
    elim (eb_gettag troot == eb_leaf) [
      | true ↦
          let old = eb_root_to_node (eb_untag troot eb_leaf) in
          check_bit_and_break (equal_bits g (key new) (key old) bit (limit width (pfx old)))
            (place root side troot old)
      | false ↦
          let old = eb_root_to_node (eb_untag troot eb_node) in
          elim (m.bit old) [
            | negsuc n ↦
                check_bit_and_break (equal_bits g (key new) (key old) bit (limit width (pfx old)))
                  (place root side troot old)
            | pos n ↦ elim (equal_bits g (key new) (key old) bit (n / 2)) [
              | none ↦ none
              | some same ↦ elim (prefix_step key pfx new (place root side troot old) n same) [
                | stop p ↦ some p
                | walk_down side' bit' ↦
                    prefix_descend key pfx g new width f m old side' (branch m old side') bit'
              ]
            ]
          ]
    ]

-- From the end of the loop on, at a leaf or at a tree of duplicates.
unfoldable pub prefix_attach_leaves :
    (Ptr → Bytes) → (Ptr → ℕ) → ℕ → ℕ → Place → ℕ → Ptr → Mem → Option (Ptr × Mem)
prefix_attach_leaves key pfx f root_tag p bit new m =
    let bit' = limit (limit bit (pfx new)) (pfx p.old) in
    let normal = set_bit new (to_short (bit' * 2 + 1)) (set_parent p new m) in
    let cover = set_bit new (to_short (bit' * 2)) normal in
    let beside = set_bit new (negsuc 0) cover in
    let parted = ltb bit' (pfx p.old) && ltb bit' (pfx new) in
    let diff = if parted then cmp_bits (key new) (key p.old) bit' else pos 0 in
    let dup = eb_insert_dup f p.old new beside in
    if is_zero diff
    then if pfx new == pfx p.old
      then if root_tag == 0
        then if is_leaf p then some (new, put_between true p new beside) else dup
        else some (p.old, beside)
      else some (new, put_between (not (ltb (pfx new) (pfx p.old))) p new cover)
    else some (new, put_between (not (is_neg diff)) p new normal)

unfoldable pub prefix_attach :
    (Ptr → Bytes) → (Ptr → ℕ) → ℕ → ℕ → PrefixPlace → Ptr → Mem → Option (Ptr × Mem)
prefix_attach key pfx f root_tag (at_leaves p bit) new m =
    prefix_attach_leaves key pfx f root_tag p bit new m
prefix_attach key pfx f root_tag (at_covered p) new m =
    some (new, put_between false p new (set_bit new (to_short (pfx new * 2)) (set_parent p new m)))
prefix_attach key pfx f root_tag (at_parted p bit) new m =
    let diff = cmp_bits (key new) (key p.old) (bit / 2) in
    let m1 = set_bit new (to_short bit) (set_parent p new m) in
    some (new, put_between (not (is_neg diff)) p new m1)

unfoldable pub ebmb_insert_prefix :
    (Ptr → Bytes) → (Ptr → ℕ) → ℕ → ℕ → Ptr → Ptr → Mem → ℕ → Option (Ptr × Mem)
ebmb_insert_prefix key pfx g f root new m len =
    let root_right = branch m root eb_rght in
    let troot = branch m root eb_left in
    let width = limit (len * 2 ^ 3) (pfx new) in
    if troot == null
    then some (
      new,
      set_node_p new null
          (set_leaf_p new (eb_dotag root eb_left) (set_b root eb_left (eb_dotag new eb_leaf) m)),
    )
    else elim (prefix_descend key pfx g new width f m root eb_left troot 0) [
      | none ↦ none
      | some p ↦ prefix_attach key pfx f (eb_gettag root_right) p new m
    ]
