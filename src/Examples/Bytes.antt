-- ===== src/Examples/Bytes.antt =====
-- Runs of the helpers for blocks and strings.
use ebmbtreebench.Bytes.{Bytes, get_bit, equal_bits, check_bits, string_equal_bits, cmp_bits}
use ebmbtreebench.Bytes.Equal.{EqualBits, equal_bits-EqualBits}
use ebmbtreebench.Bytes.Check.{Checked, check_bits-Checked}
use ebmbtreebench.Bytes.Strings.{StringBits, string_equal_bits-StringBits}
use ebmbtreebench.Bytes.Order.{cmp_bits-order}
use ebmbtreebench.Memory.{pos, negsuc}
use ebmbtreebench.Prelude.{
  ◌==◌, ◌<◌, ◌≡◌, ◌⊎◌, ◌/◌, if◌then◌else◌, arith, refl, ap, sym, ◌∙◌, ◌%◌, ◌-◌,
}
use ebmbtreebench.Bytes.Byte.{get_bit-split}
use ebmbtreebench.Fls.Shift.{shift_up}

-- "ab" and "ac".
abbrev ab : Bytes
ab i = if i == 0 then 97 else if i == 1 then 98 else 0

abbrev ac : Bytes
ac i = if i == 0 then 97 else if i == 1 then 99 else 0

equal_bits_example : EqualBits ab ac 0 16 (equal_bits 3 ab ac 0 16)
equal_bits_example =
    equal_bits-EqualBits ab ac 16 (λ i. ground arith) (λ i. ground arith) 3 0 (omega arith)

check_bits_example : Checked ab ac 0 15 (check_bits 2 ab ac 0 15)
check_bits_example =
    check_bits-Checked ab ac (λ i. ground arith) (λ i. ground arith) 2 0 15 (omega arith)
      (omega arith)

string_equal_bits_example : StringBits ab ac 0 (string_equal_bits 3 ab ac 0)
string_equal_bits_example =
    string_equal_bits-StringBits ab ac (λ i. ground arith) (λ i. ground arith) 3 0 2 (omega arith)
      (omega arith) refl

cmp_bits_example :
    ((cmp_bits ab ac 15 ≡ negsuc 0) × (ab (15 / 8) < ac (15 / 8)))
    ⊎ ((cmp_bits ab ac 15 ≡ pos 1) × (ac (15 / 8) < ab (15 / 8)))
unfolding get_bit
cmp_bits_example =
    cmp_bits-order ab ac 15 (λ i. ground arith) (λ i. ground arith)
      (λ i lo hi.
        get_bit-split ab 1 i lo (omega arith)
        ∙ ap (λ z. z % 2) (shift_up 98 99 1 (7 - (i - 8)) (omega arith) refl)
        ∙ sym (get_bit-split ac 1 i lo (omega arith)))
      (λ e. absurd (omega (arith, e)))
