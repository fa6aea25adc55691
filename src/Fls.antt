-- ===== src/Fls.antt =====
-- `flsnz` and `fls64` of ebtree.h: the position of the highest bit that is set, from 1.
-- `flsnz` is the portable macro; on x86 it is one instruction, with the same result.
pub mod Byte
pub mod Xor
pub mod Shift
pub mod And
pub mod Top
use Prim.Native.Nat.{ℕ, bit_and}
use ebmbtreebench.Prelude.{ℕ, if◌then◌else◌, ◌+◌, ◌/◌, ◌==◌, ◌^◌, ◌%◌, ◌*◌}

-- What the macro's variables are after `if (x & mask) { x &= mask; bits += width; }`.
abbrev pub narrow : ℕ → ℕ → ℕ × ℕ → ℕ × ℕ
narrow mask width (x, bits) =
    if bit_and x mask == 0 then (x, bits) else (bit_and x mask, bits + width)

unfoldable pub flsnz : ℕ → ℕ
flsnz a =
    (narrow 0xaaaaaaaa 1 (
      narrow 0xcccccccc 2
        (narrow 0xf0f0f0f0 4 (narrow 0xff00ff00 8 (narrow 0xffff0000 16 (a, 0)))))).1
    + 1

-- `h` is an `unsigned int`, 32 bits wide.
unfoldable pub fls64 : ℕ → ℕ
fls64 x = if x / 2 ^ 32 == 0 then flsnz (x % 2 ^ 32) else flsnz (x / 2 ^ 32) + 32

unfoldable pub flsnz8_generic : ℕ → ℕ
flsnz8_generic x =
    if x / 2 ^ 4 == 0
    then bit_and (0xFFFFAA50 / 2 ^ (x * 2)) 3 + 1
    else 4 + bit_and (0xFFFFAA50 / 2 ^ (x / 2 ^ 4 * 2)) 3 + 1
