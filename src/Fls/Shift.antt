-- ===== src/Fls/Shift.antt =====
-- Shifts of keys, and the bits at which two keys differ.
use ebmbtreebench.Prelude.{
  ℕ, leb, inl, inr, Bool-cases, ◌≡◌, arith, ◌/◌, ◌≤◌, ◌<◌, ◌^◌, ◌%◌, zero, ap, ◌∙◌, ◌≢◌, ◌+◌, refl,
  sym, ◌-◌,
}
use Prim.Native.Nat.{bit_xor, differ, suc}
use ebmbtreebench.Fls.Xor.{xor_step, equal_of_xor}
use native.Mathlib.Nat.{div-div-eq-div-mul, pow-suc}
use mathlib.Core.Path.{ap₂}

pub shift_zero : (x : ℕ) → x / 2 ^ 0 ≡ x
shift_zero x = omega arith

pub shift_suc : (x n : ℕ) → x / 2 ^ suc n ≡ x / 2 ^ n / 2
shift_suc x n = ap (λ y. x / y) (pow-suc 2 n) ∙ sym (div-div-eq-div-mul x (2 ^ n) 2)

pub shift_add : (x n k : ℕ) → x / 2 ^ (n + k) ≡ x / 2 ^ n / 2 ^ k
shift_add x n zero = ap (λ y. x / 2 ^ y) (omega arith) ∙ sym (shift_zero (x / 2 ^ n))
shift_add x n (suc k) =
    ap (λ y. x / 2 ^ y) (omega arith)
    ∙ shift_suc x (n + k)
    ∙ ap (λ y. y / 2) (shift_add x n k)
    ∙ sym (shift_suc (x / 2 ^ n) k)

pub shift_mono : (x y n : ℕ) → x ≤ y → x / 2 ^ n ≤ y / 2 ^ n
shift_mono x y zero h = omega arith
shift_mono x y (suc n) h = omega (arith, shift_suc x n, shift_suc y n, shift_mono x y n h)

pub shift_lt : (x y n : ℕ) → x / 2 ^ n < y / 2 ^ n → x < y
shift_lt x y n lt = elim (Bool-cases (leb y x)) [
  | inl e ↦ let le : y ≤ x = ground arith in absurd (omega (arith, shift_mono y x n le))
  | inr e ↦ ground (arith, e)
]

-- Keys that agree from one bit on agree from the higher bits on.
pub shift_up : (x y n m : ℕ) → n ≤ m → x / 2 ^ n ≡ y / 2 ^ n → x / 2 ^ m ≡ y / 2 ^ m
shift_up x y n m le e =
    let split : m ≡ n + (m - n) = omega arith in
    ap (λ k. x / 2 ^ k) split
    ∙ shift_add x n (m - n)
    ∙ ap (λ z. z / 2 ^ (m - n)) e
    ∙ sym (shift_add y n (m - n))
    ∙ ap (λ k. y / 2 ^ k) (sym split)

differ-lt : (x y : ℕ) → x < 2 → y < 2 → differ x y < 2
differ-lt zero y i j = j
differ-lt (suc zero) zero i j = i
differ-lt (suc zero) (suc zero) i j = omega arith
differ-lt (suc (suc x)) y i j = absurd (omega arith)
differ-lt (suc zero) (suc (suc y)) i j = absurd (omega arith)

pub xor_half : (x y : ℕ) → bit_xor x y / 2 ≡ bit_xor (x / 2) (y / 2)
xor_half x y = omega (arith, xor_step x y, differ-lt (x % 2) (y % 2) (omega arith) (omega arith))

pub xor_shift : (n x y : ℕ) → bit_xor x y / 2 ^ n ≡ bit_xor (x / 2 ^ n) (y / 2 ^ n)
xor_shift zero x y =
    shift_zero (bit_xor x y) ∙ ap₂ bit_xor (sym (shift_zero x)) (sym (shift_zero y))
xor_shift (suc n) x y =
    shift_suc (bit_xor x y) n
    ∙ ap (λ z. z / 2) (xor_shift n x y)
    ∙ xor_half (x / 2 ^ n) (y / 2 ^ n)
    ∙ ap₂ bit_xor (sym (shift_suc x n)) (sym (shift_suc y n))

differ_self : (x : ℕ) → differ x x ≡ 0
differ_self zero = refl
differ_self (suc x) = differ_self x

xor_self-le : (s x : ℕ) → x ≤ s → bit_xor x x ≡ 0
xor_self-le s zero i = refl
xor_self-le zero (suc x) i = absurd (omega arith)
xor_self-le (suc s) (suc x) i = omega (
  arith,
  xor_step (suc x) (suc x),
  differ_self (suc x % 2),
  xor_self-le s (suc x / 2) (omega arith),
)

pub xor_self : (x : ℕ) → bit_xor x x ≡ 0
xor_self x = xor_self-le x x (omega arith)

-- The test of the descents: whether two keys agree above the bit `n`.
pub agree_of_test : (n x y : ℕ) → bit_xor x y / 2 ^ n < 2 → x / 2 ^ suc n ≡ y / 2 ^ suc n
agree_of_test n x y h =
    equal_of_xor (x / 2 ^ suc n) (y / 2 ^ suc n)
      (omega (arith, xor_shift (suc n) x y, shift_suc (bit_xor x y) n))

pub test_of_agree : (n x y : ℕ) → x / 2 ^ suc n ≡ y / 2 ^ suc n → bit_xor x y / 2 ^ n < 2
test_of_agree n x y e = omega (
  arith,
  xor_shift (suc n) x y,
  shift_suc (bit_xor x y) n,
  ap (λ z. bit_xor z (y / 2 ^ suc n)) e,
  xor_self (y / 2 ^ suc n),
)

-- At the first bit where two keys differ, they agree above and not at it.
pub record FirstBit (n x y : ℕ) : Type 0 where
  pub above : x / 2 ^ suc n ≡ y / 2 ^ suc n
  pub at : x / 2 ^ n ≢ y / 2 ^ n

pub FirstBit-of_xor : (n x y : ℕ) → bit_xor x y / 2 ^ n ≡ 1 → FirstBit n x y
FirstBit-of_xor n x y e = record {
  above = agree_of_test n x y (omega arith);
  at = λ same.
      absurd (
        omega (arith, xor_shift n x y, ap (λ z. bit_xor z (y / 2 ^ n)) same, xor_self (y / 2 ^ n)));
}
