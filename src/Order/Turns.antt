-- ===== src/Order/Turns.antt =====
-- The orders of the four insertions: by the key, and by the key with its sign bit turned over.
use ebmbtreebench.Prelude.{
  ℕ, zero, inl, inr, suc, not, leb, ltb, ◌≡◌, ◌≤◌, ◌<◌, ◌+◌, ◌*◌, ◌-◌, ◌/◌, ◌%◌, ◌^◌, arith, refl,
  ap, ◌∙◌,
}
use Prim.Native.Nat.{bit_xor, differ}
use ebmbtreebench.Fls.Xor.{xor_step}
use ebmbtreebench.Fls.Shift.{shift_zero, shift_add, xor_half}
use ebmbtreebench.Fls.Top.{flsnz_top, fls64_top}
use ebmbtreebench.Fls.{flsnz, fls64}
use ebmbtreebench.Scalar.{shift_sign, signed_ge}
use ebmbtreebench.Wide.{signed_lt}
use ebmbtreebench.Order.Insert.{IsTurn}
use native.Mathlib.Nat.{pow-suc}
use mathlib.Core.Path.{ap₂}
use ebmbtreebench.Tree.Valid.{ℕ-cases}

differ_turned : (a b c : ℕ) → a < 2 → b < 2 → c < 2 → differ (differ a c) (differ b c) ≡ differ a b
differ_turned zero zero zero i j k = refl
differ_turned zero zero (suc zero) i j k = refl
differ_turned zero (suc zero) zero i j k = refl
differ_turned zero (suc zero) (suc zero) i j k = refl
differ_turned (suc zero) zero zero i j k = refl
differ_turned (suc zero) zero (suc zero) i j k = refl
differ_turned (suc zero) (suc zero) zero i j k = refl
differ_turned (suc zero) (suc zero) (suc zero) i j k = refl
differ_turned (suc (suc a)) b c i j k = absurd (omega arith)
differ_turned zero (suc (suc b)) c i j k = absurd (omega arith)
differ_turned (suc zero) (suc (suc b)) c i j k = absurd (omega arith)
differ_turned zero zero (suc (suc c)) i j k = absurd (omega arith)
differ_turned zero (suc zero) (suc (suc c)) i j k = absurd (omega arith)
differ_turned (suc zero) zero (suc (suc c)) i j k = absurd (omega arith)
differ_turned (suc zero) (suc zero) (suc (suc c)) i j k = absurd (omega arith)

differ_zero_right : (d : ℕ) → d < 2 → differ d 0 ≡ d
differ_zero_right zero i = refl
differ_zero_right (suc zero) i = refl
differ_zero_right (suc (suc d)) i = absurd (omega arith)

xor_zero_on : (s x : ℕ) → x ≤ s → bit_xor x 0 ≡ x
xor_zero_on s zero i = refl
xor_zero_on zero (suc x) i = absurd (omega arith)
xor_zero_on (suc s) (suc x) i = omega (
  arith,
  xor_step (suc x) 0,
  differ_zero_right (suc x % 2) (omega arith),
  xor_zero_on s (suc x / 2) (omega arith),
)

differ_one : (d : ℕ) → d < 2 → differ d 1 ≡ 1 - d
differ_one zero i = refl
differ_one (suc zero) i = refl
differ_one (suc (suc d)) i = absurd (omega arith)

xor_half_bit : (n x : ℕ) → bit_xor x (2 ^ suc n) ≡ bit_xor (x / 2) (2 ^ n) * 2 + x % 2
xor_half_bit n x =
    let half : 2 ^ suc n / 2 ≡ 2 ^ n = omega (arith, pow-suc 2 n) in
    let even : 2 ^ suc n % 2 ≡ 0 = omega (arith, pow-suc 2 n) in
    omega (
      arith,
      xor_step x (2 ^ suc n),
      ap (bit_xor (x / 2)) half,
      ap (differ (x % 2)) even,
      differ_zero_right (x % 2) (omega arith),
    )

shift_half : (n x : ℕ) → x / 2 ^ suc n ≡ x / 2 / 2 ^ n
shift_half n x = ap (λ z. x / 2 ^ z) (omega arith) ∙ shift_add x 1 n

-- To turn over a bit that is not set adds its value, and takes it away where it is set.
turn_up : (n x : ℕ) → x / 2 ^ n % 2 ≡ 0 → bit_xor x (2 ^ n) ≡ x + 2 ^ n
turn_up zero x e = omega (
  arith,
  e,
  shift_zero x,
  xor_step x 1,
  xor_zero_on (x / 2) (x / 2) (omega arith),
  differ_one (x % 2) (omega arith),
)
turn_up (suc n) x e =
    omega
      (arith, xor_half_bit n x, pow-suc 2 n, turn_up n (x / 2) (omega (arith, e, shift_half n x)))

turn_down : (n x : ℕ) → x / 2 ^ n % 2 ≡ 1 → bit_xor x (2 ^ n) + 2 ^ n ≡ x
turn_down zero x e = omega (
  arith,
  e,
  shift_zero x,
  xor_step x 1,
  xor_zero_on (x / 2) (x / 2) (omega arith),
  differ_one (x % 2) (omega arith),
)
turn_down (suc n) x e =
    omega
      (arith, xor_half_bit n x, pow-suc 2 n, turn_down n (x / 2) (omega (arith, e, shift_half n x)))

-- To turn over the same bits of two numbers does not change where they differ.
turned_on :
    (s x y c : ℕ) → x ≤ s → y ≤ s → c ≤ s → bit_xor (bit_xor x c) (bit_xor y c) ≡ bit_xor x y
turned_on zero x y c i j k =
    let (ex, ey, ec) : (x ≡ 0) × (y ≡ 0) × (c ≡ 0) = (omega arith, omega arith, omega arith) in
    rw (ex, ey, ec) refl
turned_on (suc s) x y c i j k = omega (
  arith,
  xor_step (bit_xor x c) (bit_xor y c),
  xor_step x y,
  xor_low x c,
  xor_low y c,
  ap₂ differ (xor_low x c) (xor_low y c),
  differ_turned (x % 2) (y % 2) (c % 2) (omega arith) (omega arith) (omega arith),
  ap₂ bit_xor (xor_half x c) (xor_half y c),
  turned_on s (x / 2) (y / 2) (c / 2) (omega arith) (omega arith) (omega arith),
)
  where
    xor_low : (x y : ℕ) → bit_xor x y % 2 ≡ differ (x % 2) (y % 2)
    xor_low x y = omega (arith, xor_step x y, xor_half x y)

pub xor_turned : (x y c : ℕ) → bit_xor (bit_xor x c) (bit_xor y c) ≡ bit_xor x y
xor_turned x y c = turned_on (x + y + c) x y c (omega arith) (omega arith) (omega arith)

pub shift_sign_is : (x : ℕ) → x < 2 ^ 32 → shift_sign x ≡ bit_xor x (2 ^ 31)
shift_sign_is x i = elim (ℕ-cases (x / 2 ^ 31 % 2)) [
  | inl e ↦ omega (arith, turn_up 31 x e)
  | inr p ↦ omega (arith, turn_down 31 x (omega arith))
]

signed_lt_is :
    (x y : ℕ)
    → x < 2 ^ 64
    → y < 2 ^ 64
    → not (signed_lt x y) ≡ leb (bit_xor y (2 ^ 63)) (bit_xor x (2 ^ 63))
signed_lt_is x y i j = elim (ℕ-cases (x / 2 ^ 63 % 2)) [
  | inl ex ↦ elim (ℕ-cases (y / 2 ^ 63 % 2)) [
    | inl ey ↦ ground (arith, turn_up 63 x ex, turn_up 63 y ey)
    | inr py ↦ ground (arith, turn_up 63 x ex, turn_down 63 y (omega arith))
  ]
  | inr px ↦ elim (ℕ-cases (y / 2 ^ 63 % 2)) [
    | inl ey ↦ ground (arith, turn_down 63 x (omega arith), turn_up 63 y ey)
    | inr py ↦ ground (arith, turn_down 63 x (omega arith), turn_down 63 y (omega arith))
  ]
]

pub eb32_IsTurn : IsTurn 32 (λ x. x) flsnz (λ x y. leb y x)
eb32_IsTurn = record {
  xor = λ x y i j. refl;
  ge_is = λ x y i j. refl;
  top = λ d i j. (flsnz_top d i j).0;
}

pub eb32i_IsTurn : IsTurn 32 shift_sign flsnz signed_ge
eb32i_IsTurn = record {
  xor = λ x y i j. ap₂ bit_xor (shift_sign_is x i) (shift_sign_is y j) ∙ xor_turned x y (2 ^ 31);
  ge_is = λ x y i j. ground arith;
  top = λ d i j. (flsnz_top d i j).0;
}

pub eb64_IsTurn : IsTurn 64 (λ x. x) fls64 (λ x y. not (ltb x y))
eb64_IsTurn = record {
  xor = λ x y i j. refl;
  ge_is = λ x y i j. ground arith;
  top = λ d i j. (fls64_top d i j).0;
}

pub eb64i_IsTurn : IsTurn 64 (λ x. bit_xor x (2 ^ 63)) fls64 (λ x y. not (signed_lt x y))
eb64i_IsTurn = record {
  xor = λ x y i j. xor_turned x y (2 ^ 63);
  ge_is = signed_lt_is;
  top = λ d i j. (fls64_top d i j).0;
}
