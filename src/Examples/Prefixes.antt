-- ===== src/Examples/Prefixes.antt =====
-- Runs of the trees of prefixes: 1/4 at 2, 18/8 at 4, 32/8 at 6 and 1/4 once more at 8, with the
-- number of bits that count behind the slash.
use ebmbtreebench.Prelude.{ℕ, ◌≡◌, ◌==◌, if◌then◌else◌, Option, some, none, refl, List, [], ◌∷◌}
use ebmbtreebench.Memory.{to_short, Ptr, Mem, pos, null}
use ebmbtreebench.Bytes.{Bytes}
use ebmbtreebench.Prefixes.{ebmb_lookup_longest, ebmb_lookup_prefix}
use ebmbtreebench.Prefixes.Insert.{ebmb_insert_prefix}
use ebmbtreebench.Prefixes.Insert.{prefix_descend, prefix_attach, prefix_attach_leaves, prefix_step}
use ebmbtreebench.Bytes.{equal_bits, equal_bits_from, cmp_bits, check_bits}
use ebmbtreebench.Fls.{flsnz8_generic}
use ebmbtreebench.Scalar.{put_between}
use ebmbtreebench.Wide.{set_parent}
use ebmbtreebench.Prefixes.{
  ebmb_lookup_longest_from, ebmb_lookup_prefix_from, prefix_stride_to, not_found,
}
use ebmbtreebench.Blocks.{walk_left}
use ebmbtreebench.Walk.{eb_walk_down}
use ebmbtreebench.Prelude.{◌⊎◌, arith, ◌<◌, Bool-cases, inl, inr}
use ebmbtreebench.Tree.{height}
use ebmbtreebench.Tree.Count.{leaf_count}
use ebmbtreebench.Bytes.{get_bit}
use ebmbtreebench.Scalar.Correct.{Put}
use ebmbtreebench.Prefixes.Order.{IsPrefixRadix, parts}
use ebmbtreebench.Prefixes.Put.{PrefixGrown, PrefixRefused}
use ebmbtreebench.Prefixes.Whole.{ebmb_insert_prefix-Ends}
use ebmbtreebench.Examples.{small, small_tree, small-Valid, eight_CanInsert}

abbrev prefix_key : Ptr → Bytes
prefix_key a i = if i == 0 then if a == 4 then 18 else if a == 6 then 32 else 16 else 0

abbrev prefix_bits : Ptr → ℕ
prefix_bits a = if a == 2 then 4 else if a == 8 then 4 else 8

abbrev no_nodes : Mem
no_nodes = record { b = λ s. 0; node_p = λ a. 0; leaf_p = λ a. 0; bit = λ a. pos 0 }

abbrev put_in : Ptr → Option (Ptr × Mem) → Option (Ptr × Mem)
put_in new r = elim r [
  | none ↦ none
  | some s ↦ ebmb_insert_prefix prefix_key prefix_bits 3 9 100 new s.1 1
]

abbrev prefixes : Option (Ptr × Mem)
prefixes = put_in 8 (put_in 6 (put_in 4 (put_in 2 (some (null, no_nodes)))))

abbrev ask_longest : ℕ → Option Ptr
ask_longest x = elim prefixes [
  | none ↦ none
  | some s ↦ ebmb_lookup_longest 3 prefix_key prefix_bits 9 s.1 100 (λ i. if i == 0 then x else 0)
]

abbrev ask_prefix : ℕ → ℕ → Option Ptr
ask_prefix x len = elim prefixes [
  | none ↦ none
  | some s ↦
      ebmb_lookup_prefix 3 prefix_key prefix_bits 9 s.1 100 (λ i. if i == 0 then x else 0) len
]

abbrev answers : List (Option Ptr)
answers =
    ask_longest 18
    ∷ ask_longest 19
    ∷ ask_longest 32
    ∷ ask_longest 33
    ∷ ask_prefix 18 8
    ∷ ask_prefix 16 4
    ∷ ask_prefix 19 8
    ∷ []

-- 18 and 32 are found, 19 has the prefix 1/4 and 33 none; of the two prefixes of 4 bits the first
-- that was inserted is found.
longest_test : answers ≡ some 4 ∷ some 2 ∷ some 6 ∷ some 0 ∷ some 4 ∷ some 2 ∷ some 0 ∷ []
unfolding to_short ebmb_lookup_longest ebmb_lookup_prefix ebmb_insert_prefix prefix_descend
    equal_bits equal_bits_from prefix_attach prefix_attach_leaves flsnz8_generic put_between
    prefix_step cmp_bits set_parent ebmb_lookup_longest_from ebmb_lookup_prefix_from
    prefix_stride_to check_bits not_found walk_left eb_walk_down
longest_test = refl

-- Keys for the small tree of the other examples: a prefix of 8 bits that parts from the others at
-- the second bit, and a new one that parts from them at the third.
abbrev few_keys : Ptr → Bytes
few_keys a i = if i == 0 then if a == 2 then 0 else if a == 8 then 96 else 64 else 0

few_bytes : (y : Ptr) (i : ℕ) → few_keys y i < 256
few_bytes y i = ground arith

small-IsPrefixRadix : IsPrefixRadix few_keys (λ y. 8) small_tree
unfolding leaf_count get_bit
small-IsPrefixRadix = (
  (λ y i.
      let e : y ≡ 2 = ground arith in
      rw e ((λ j lo hi. let z : j ≡ 0 = omega arith in rw z refl), parts refl (omega arith) refl)),
  (λ y i. elim (Bool-cases (y == 4)) [
    | inl e ↦
        let e4 : y ≡ 4 = ground arith in rw e4 ((λ j lo hi. refl), parts refl (omega arith) refl)
    | inr e ↦
        let e6 : y ≡ 6 = ground arith in rw e6 ((λ j lo hi. refl), parts refl (omega arith) refl)
  ]),
  omega arith,
  tt,
  (
    (λ y i. let e : y ≡ 4 = ground arith in rw e (refl, λ j lo hi. refl)),
    (λ y i. let e : y ≡ 6 = ground arith in rw e (refl, λ j lo hi. refl)),
    omega arith,
    tt,
    tt,
  ),
)

ebmb_insert_prefix_example :
    Put
      (PrefixGrown few_keys (λ y. 8) 8)
      (ebmb_insert_prefix few_keys (λ y. 8) 2 9 100 8 small 1)
      100
      small_tree
      8
    ⊎ PrefixRefused few_keys
        (λ y. 8)
        (ebmb_insert_prefix few_keys (λ y. 8) 2 9 100 8 small 1)
        0
        100
        small_tree
        8
unfolding height
ebmb_insert_prefix_example =
    ebmb_insert_prefix-Ends few_keys few_bytes (λ y. 8) 1 (omega arith) (λ y. omega arith) 2 9 small
      100 8 small_tree (omega arith) (omega arith) small-Valid eight_CanInsert small-IsPrefixRadix
