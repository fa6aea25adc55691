-- ===== src/Bytes.antt =====
-- The helpers of ebtree.h for blocks of bytes and for strings: `equal_bits`, `check_bits`,
-- `string_equal_bits`, `cmp_bits` and `get_bit`. A block is a map from offsets to bytes; a bit of
-- it has a number, and the high bits of a byte have the low numbers. A loop takes fuel, one unit
-- for a pass. The results that may be negative are `Bit`s, the model's signed integers.
pub mod Byte
pub mod Equal
pub mod Check
pub mod Strings
pub mod Order
use ebmbtreebench.Prelude.{
  ℕ, zero, suc, Option, none, some, ◌==◌, ltb, leb, ◌+◌, ◌-◌, ◌*◌, ◌/◌, ◌%◌, ◌^◌, if◌then◌else◌,
}
use ebmbtreebench.Memory.{Bit, pos, negsuc}
use ebmbtreebench.Fls.{flsnz8_generic}
use Prim.Native.Nat.{bit_xor}

-- A block of bytes.
abbrev pub Bytes : Type 0
Bytes = ℕ → ℕ

abbrev pub flsnz8 : ℕ → ℕ
flsnz8 x = flsnz8_generic x

-- `~pos & 7` is 7 less the remainder of `pos`, here `number`, by 8.
unfoldable pub get_bit : Bytes → ℕ → ℕ
get_bit a number = a (number / 2 ^ 3) / 2 ^ (7 - number % 8) % 2

-- A sum and a difference of signed integers.
abbrev pub add : Bit → ℕ → Bit
add (pos n) k = pos (n + k)
add (negsuc n) k = if ltb n k then pos (k - suc n) else negsuc (n - k)

abbrev pub minus : ℕ → ℕ → Bit
minus m n = if ltb m n then negsuc (n - m - 1) else pos (m - n)

unfoldable pub cmp_bits : Bytes → Bytes → ℕ → Bit
cmp_bits a b number =
    minus (a (number / 2 ^ 3) / 2 ^ (7 - number % 8) % 2)
      (b (number / 2 ^ 3) / 2 ^ (7 - number % 8) % 2)

-- The loop, at the byte `p`, which `a` and `b` point to.
unfoldable pub equal_bits_from : ℕ → Bytes → Bytes → ℕ → ℕ → ℕ → Option ℕ
equal_bits_from zero a b p ignore len = none
equal_bits_from (suc f) a b p ignore len =
    let c = bit_xor (b p) (a p) in
    let rest = equal_bits_from f a b (p + 1) (ignore + 8) len in
    if ltb ignore len then if c == 0 then rest else some (ignore + 8 - flsnz8 c) else some ignore

unfoldable pub equal_bits : ℕ → Bytes → Bytes → ℕ → ℕ → Option ℕ
equal_bits f a b ignore len = equal_bits_from f a b (ignore / 2 ^ 3) (ignore / 2 ^ 3 * 2 ^ 3) len

-- The loop, with the variables `skip`, `bit` and `ret`; `bit` is negative at its start.
unfoldable pub check_bits_from : ℕ → Bytes → Bytes → ℕ → Bit → ℕ → Option ℕ
check_bits_from zero a b skip bit ret = none
check_bits_from (suc f) a b skip bit ret =
    let ret' = bit_xor (a (skip + 1)) (b (skip + 1)) in
    let rest = check_bits_from f a b (skip + 1) (add bit 8) ret' in
    if ret == 0
    then elim (add bit 8) [ pos n ↦ some (ret' / 2 ^ n) | negsuc n ↦ rest ]
    else some ret

-- `~len` is -(len + 1).
unfoldable pub check_bits : ℕ → Bytes → Bytes → ℕ → ℕ → Option ℕ
check_bits f a b skip len =
    let bit = add (negsuc len) (skip * 2 ^ 3 + 9) in
    let ret = bit_xor (a skip) (b skip) in
    elim bit [ pos n ↦ some (ret / 2 ^ n) | negsuc n ↦ check_bits_from f a b skip (negsuc n) ret ]

unfoldable pub string_equal_bits_from : ℕ → Bytes → Bytes → ℕ → Option Bit
string_equal_bits_from zero a b beg = none
string_equal_bits_from (suc f) a b beg =
    let d = b beg in
    let c = bit_xor (a beg) d in
    let rest = string_equal_bits_from f a b (beg + 1) in
    if c == 0
    then if d == 0 then some (negsuc 0) else rest
    else some (minus ((beg + 1) * 2 ^ 3) (flsnz8 c))

unfoldable pub string_equal_bits : ℕ → Bytes → Bytes → ℕ → Option Bit
string_equal_bits f a b ignore = string_equal_bits_from f a b (ignore / 2 ^ 3)
