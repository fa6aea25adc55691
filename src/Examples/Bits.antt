-- ===== src/Examples/Bits.antt =====
-- Runs of the bit helpers.
use ebmbtreebench.Fls.{flsnz, flsnz8_generic}
use ebmbtreebench.Fls.Byte.{flsnz8_generic_bounds}
use ebmbtreebench.Prelude.{◌≤◌, ◌^◌, ◌-◌, ◌<◌, ◌≡◌, arith}

flsnz8_generic_example :
    (1 ≤ flsnz8_generic 80)
    × (flsnz8_generic 80 ≤ 8)
    × (2 ^ (flsnz8_generic 80 - 1) ≤ 80)
    × (80 < 2 ^ flsnz8_generic 80)
    × (flsnz 80 ≡ flsnz8_generic 80)
flsnz8_generic_example = flsnz8_generic_bounds 80 (omega arith) (omega arith)
