-- ===== src/Pointers.antt =====
-- The functions of ebpttree.h, for keys that are pointers. They are those of eb32tree.h or of
-- eb64tree.h, by `word`, the size of a pointer in bytes, which is 4 or 8.
pub mod Keys
use ebmbtreebench.Prelude.{ℕ, Option, ◌==◌, ◌%◌, ◌^◌, if◌then◌else◌}
use ebmbtreebench.Memory.{Ptr, Mem}
use ebmbtreebench.Walk.{
  eb_first, eb_last, eb_next, eb_prev, eb_next_dup, eb_prev_dup, eb_next_unique, eb_prev_unique,
}
use ebmbtreebench.Delete.{eb_delete}
use ebmbtreebench.Lookup.{eb32_lookup, eb64_lookup}
use ebmbtreebench.Nearest.{eb32_lookup_le, eb32_lookup_ge, eb64_lookup_le, eb64_lookup_ge}
use ebmbtreebench.Scalar.{eb32_insert}
use ebmbtreebench.Wide.{eb64_insert}

abbrev pub ebpt_first : ℕ → Mem → Ptr → Option Ptr
ebpt_first f m root = eb_first f m root

abbrev pub ebpt_last : ℕ → Mem → Ptr → Option Ptr
ebpt_last f m root = eb_last f m root

abbrev pub ebpt_next : ℕ → Mem → Ptr → Option Ptr
ebpt_next f m node = eb_next f m node

abbrev pub ebpt_prev : ℕ → Mem → Ptr → Option Ptr
ebpt_prev f m node = eb_prev f m node

abbrev pub ebpt_next_dup : ℕ → Mem → Ptr → Option Ptr
ebpt_next_dup f m node = eb_next_dup f m node

abbrev pub ebpt_prev_dup : ℕ → Mem → Ptr → Option Ptr
ebpt_prev_dup f m node = eb_prev_dup f m node

abbrev pub ebpt_next_unique : ℕ → Mem → Ptr → Option Ptr
ebpt_next_unique f m node = eb_next_unique f m node

abbrev pub ebpt_prev_unique : ℕ → Mem → Ptr → Option Ptr
ebpt_prev_unique f m node = eb_prev_unique f m node

abbrev pub ebpt_delete : Ptr → Mem → Mem
ebpt_delete node m = eb_delete node m

-- The key is cast to `u32` or to `u64`.
abbrev pub ebpt_lookup : ℕ → (ℕ → ℕ → ℕ) → (Ptr → ℕ) → ℕ → Mem → Ptr → ℕ → Option Ptr
ebpt_lookup word shift_neg key f m root x =
    if word == 4
    then eb32_lookup shift_neg key f m root (x % 2 ^ 32)
    else eb64_lookup shift_neg key f m root (x % 2 ^ 64)

abbrev pub ebpt_lookup_le : ℕ → (Ptr → ℕ) → ℕ → Mem → Ptr → ℕ → Option Ptr
ebpt_lookup_le word key f m root x =
    if word == 4
    then eb32_lookup_le key f m root (x % 2 ^ 32)
    else eb64_lookup_le key f m root (x % 2 ^ 64)

abbrev pub ebpt_lookup_ge : ℕ → (Ptr → ℕ) → ℕ → Mem → Ptr → ℕ → Option Ptr
ebpt_lookup_ge word key f m root x =
    if word == 4
    then eb32_lookup_ge key f m root (x % 2 ^ 32)
    else eb64_lookup_ge key f m root (x % 2 ^ 64)

abbrev pub ebpt_insert : ℕ → (Ptr → ℕ) → ℕ → Ptr → Ptr → Mem → Option (Ptr × Mem)
ebpt_insert word key f root new m =
    if word == 4 then eb32_insert key f root new m else eb64_insert key f root new m
