-- ===== src/Examples/Lookup.antt =====
-- A shift by a negative count, for the runs of the lookups.
use ebmbtreebench.Prelude.{ℕ, ◌/◌, ◌^◌, ◌-◌, ◌%◌}

-- A machine's, that takes the count modulo 32.
abbrev pub wrapped_shift : ℕ → ℕ → ℕ
wrapped_shift x n = x / 2 ^ ((32 - n % 32) % 32)
