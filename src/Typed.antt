-- ===== src/Typed.antt =====
-- The functions of eb32tree.h and eb64tree.h that call those of ebtree.h with another type, and
-- the part of test32.c that prints a tree. An `eb32_node` and an `eb64_node` have the address of
-- the `eb_node` that is their first member, so the conversions leave an address as it is.
pub mod Sorted
use ebmbtreebench.Prelude.{ℕ, zero, suc, Option, none, some, List, [], ◌∷◌, ◌==◌, true, false}
use ebmbtreebench.Memory.{Ptr, Mem, null}
use ebmbtreebench.Walk.{
  eb_first, eb_last, eb_next, eb_prev, eb_next_dup, eb_prev_dup, eb_next_unique, eb_prev_unique,
}
use ebmbtreebench.Delete.{eb_delete}

abbrev pub eb32_first : ℕ → Mem → Ptr → Option Ptr
eb32_first f m root = eb_first f m root

abbrev pub eb32_last : ℕ → Mem → Ptr → Option Ptr
eb32_last f m root = eb_last f m root

abbrev pub eb32_next : ℕ → Mem → Ptr → Option Ptr
eb32_next f m node = eb_next f m node

abbrev pub eb32_prev : ℕ → Mem → Ptr → Option Ptr
eb32_prev f m node = eb_prev f m node

abbrev pub eb32_next_dup : ℕ → Mem → Ptr → Option Ptr
eb32_next_dup f m node = eb_next_dup f m node

abbrev pub eb32_prev_dup : ℕ → Mem → Ptr → Option Ptr
eb32_prev_dup f m node = eb_prev_dup f m node

abbrev pub eb32_next_unique : ℕ → Mem → Ptr → Option Ptr
eb32_next_unique f m node = eb_next_unique f m node

abbrev pub eb32_prev_unique : ℕ → Mem → Ptr → Option Ptr
eb32_prev_unique f m node = eb_prev_unique f m node

abbrev pub eb32_delete : Ptr → Mem → Mem
eb32_delete node m = eb_delete node m

abbrev pub eb64_first : ℕ → Mem → Ptr → Option Ptr
eb64_first f m root = eb_first f m root

abbrev pub eb64_last : ℕ → Mem → Ptr → Option Ptr
eb64_last f m root = eb_last f m root

abbrev pub eb64_next : ℕ → Mem → Ptr → Option Ptr
eb64_next f m node = eb_next f m node

abbrev pub eb64_prev : ℕ → Mem → Ptr → Option Ptr
eb64_prev f m node = eb_prev f m node

abbrev pub eb64_next_dup : ℕ → Mem → Ptr → Option Ptr
eb64_next_dup f m node = eb_next_dup f m node

abbrev pub eb64_prev_dup : ℕ → Mem → Ptr → Option Ptr
eb64_prev_dup f m node = eb_prev_dup f m node

abbrev pub eb64_next_unique : ℕ → Mem → Ptr → Option Ptr
eb64_next_unique f m node = eb_next_unique f m node

abbrev pub eb64_prev_unique : ℕ → Mem → Ptr → Option Ptr
eb64_prev_unique f m node = eb_prev_unique f m node

abbrev pub eb64_delete : Ptr → Mem → Mem
eb64_delete node m = eb_delete node m

-- The loop of test32.c, collecting the nodes that it prints.
unfoldable pub dump_from : ℕ → ℕ → Mem → Ptr → Option (List Ptr)
dump_from zero f m node = none
dump_from (suc k) f m node = elim (node == null) [
  | true ↦ some []
  | false ↦ elim (eb32_next f m node) [
    | none ↦ none
    | some next ↦ elim (dump_from k f m next) [ none ↦ none | some rest ↦ some (node ∷ rest) ]
  ]
]

unfoldable pub dump : ℕ → ℕ → Mem → Ptr → Option (List Ptr)
dump k f m root = elim (eb32_first f m root) [ none ↦ none | some node ↦ dump_from k f m node ]
