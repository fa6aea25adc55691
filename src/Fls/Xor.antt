-- ===== src/Fls/Xor.antt =====
-- Where the exclusive or of two keys is 0, the keys are equal.
use Prim.Native.Nat.{bit_xor, bit_xor-bitwise, digits, differ, ℕ, suc}
use ebmbtreebench.Prelude.{ℕ, ◌≡◌, ◌≤◌, ◌%◌, ◌/◌, ◌*◌, ◌+◌, arith, zero, refl, sym, ap}

abbrev xor_on : ℕ → ℕ → ℕ → ℕ
xor_on steps x y = digits (λ r. r) differ steps x y

-- The number of steps does not matter, if there are enough.
xor_on-xor_on : (s s' x y : ℕ) → x ≤ s → x ≤ s' → xor_on s x y ≡ xor_on s' x y
xor_on-xor_on zero zero x y i j = refl
xor_on-xor_on zero (suc s') zero y i j = refl
xor_on-xor_on zero (suc s') (suc x) y i j = absurd (omega arith)
xor_on-xor_on (suc s) zero zero y i j = refl
xor_on-xor_on (suc s) (suc s') zero y i j = refl
xor_on-xor_on (suc s) zero (suc x) y i j = absurd (omega arith)
xor_on-xor_on (suc s) (suc s') (suc x) y i j =
    omega (arith, xor_on-xor_on s s' (suc x / 2) (y / 2) (omega arith) (omega arith))

xor_zero : (y : ℕ) → bit_xor 0 y ≡ y
xor_zero y = bit_xor-bitwise 0 y

pub xor_step : (x y : ℕ) → bit_xor x y ≡ bit_xor (x / 2) (y / 2) * 2 + differ (x % 2) (y % 2)
xor_step zero y = omega (arith, xor_zero y, xor_zero (y / 2))
xor_step (suc x) y = omega (
  arith,
  bit_xor-bitwise (suc x) y,
  bit_xor-bitwise (suc x / 2) (y / 2),
  xor_on-xor_on x (suc x / 2) (suc x / 2) (y / 2) (omega arith) (omega arith),
)

differ_zero : (x y : ℕ) → differ x y ≡ 0 → x ≡ y
differ_zero zero y e = sym e
differ_zero (suc x) zero e = e
differ_zero (suc x) (suc y) e = ap suc (differ_zero x y e)

equal_on : (s x y : ℕ) → x ≤ s → bit_xor x y ≡ 0 → x ≡ y
equal_on s zero y i e = omega (arith, xor_zero y)
equal_on zero (suc x) y i e = absurd (omega arith)
equal_on (suc s) (suc x) y i e =
    let half = equal_on s (suc x / 2) (y / 2) (omega arith) (omega (arith, xor_step (suc x) y)) in
    let low = differ_zero (suc x % 2) (y % 2) (omega (arith, xor_step (suc x) y)) in omega arith

pub equal_of_xor : (x y : ℕ) → bit_xor x y ≡ 0 → x ≡ y
equal_of_xor x y e = equal_on x x y (omega arith) e
