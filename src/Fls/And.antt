-- ===== src/Fls/And.antt =====
-- Masks: the bits that `&` keeps.
use ebmbtreebench.Prelude.{
  ℕ, ◌≡◌, ◌≤◌, ◌/◌, ◌<◌, ◌*◌, ◌+◌, ◌^◌, ◌%◌, ◌-◌, arith, zero, refl, ap, ◌∙◌, sym,
}
use Prim.Native.Nat.{bit_and, bit_and-bitwise, digits, min, suc}
use native.Mathlib.Nat.{pow-suc, div-div-eq-div-mul, div-lt_iff_lt-mul, one-le-pow}
use ebmbtreebench.Fls.Shift.{shift_zero}

abbrev and_on : ℕ → ℕ → ℕ → ℕ
and_on steps x y = digits (λ r. 0) min steps x y

and_on-and_on : (s s' x y : ℕ) → x ≤ s → x ≤ s' → and_on s x y ≡ and_on s' x y
and_on-and_on zero zero x y i j = refl
and_on-and_on zero (suc s') zero y i j = refl
and_on-and_on zero (suc s') (suc x) y i j = absurd (omega arith)
and_on-and_on (suc s) zero zero y i j = refl
and_on-and_on (suc s) (suc s') zero y i j = refl
and_on-and_on (suc s) zero (suc x) y i j = absurd (omega arith)
and_on-and_on (suc s) (suc s') (suc x) y i j =
    omega (arith, and_on-and_on s s' (suc x / 2) (y / 2) (omega arith) (omega arith))

and_zero : (y : ℕ) → bit_and 0 y ≡ 0
and_zero y = bit_and-bitwise 0 y

and_step : (x y : ℕ) → bit_and x y ≡ bit_and (x / 2) (y / 2) * 2 + min (x % 2) (y % 2)
and_step zero y = omega (arith, and_zero y, and_zero (y / 2))
and_step (suc x) y = omega (
  arith,
  bit_and-bitwise (suc x) y,
  bit_and-bitwise (suc x / 2) (y / 2),
  and_on-and_on x (suc x / 2) (suc x / 2) (y / 2) (omega arith) (omega arith),
)

double : (x n : ℕ) → x * 2 ^ suc n ≡ 2 * (x * 2 ^ n)
double x n = grind (arith, pow-suc 2 n)

halve : (y n : ℕ) → y / 2 ^ suc n ≡ y / 2 / 2 ^ n
halve y n = ap (λ z. y / z) (two-pow n) ∙ sym (div-div-eq-div-mul y 2 (2 ^ n))
  where
    two-pow : (n : ℕ) → 2 ^ suc n ≡ 2 * 2 ^ n
    two-pow n = grind (arith, pow-suc 2 n)

-- Only the low bits of the mask meet a small number.
pub and_low : (w x u l : ℕ) → x < 2 ^ w → bit_and x (u * 2 ^ w + l) ≡ bit_and x l
and_low zero x u l h =
    let z : x ≡ 0 = omega arith in
    ap (λ v. bit_and v (u * 2 ^ 0 + l)) z
    ∙ and_zero (u * 2 ^ 0 + l)
    ∙ sym (and_zero l)
    ∙ ap (λ v. bit_and v l) (sym z)
and_low (suc w) x u l h =
    let half : (u * 2 ^ suc w + l) / 2 ≡ u * 2 ^ w + l / 2 = omega (arith, double u w) in
    omega (
      arith,
      and_step x (u * 2 ^ suc w + l),
      and_step x l,
      ap (λ z. bit_and (x / 2) z) half,
      and_low w (x / 2) u (l / 2) (omega (arith, pow-suc 2 w)),
      ap (λ z. min (x % 2) z)
          (let low : (u * 2 ^ suc w + l) % 2 ≡ l % 2 = omega (arith, double u w) in low),
    )

-- A number with low zeros meets the mask above them.
pub and_high : (b x y : ℕ) → bit_and (x * 2 ^ b) y ≡ bit_and x (y / 2 ^ b) * 2 ^ b
and_high zero x y =
    ap (λ v. bit_and v y) (let p : x * 2 ^ 0 ≡ x = omega arith in p)
    ∙ ap (λ v. bit_and x v) (sym (shift_zero y))
    ∙ (let q : bit_and x (y / 2 ^ 0) ≡ bit_and x (y / 2 ^ 0) * 2 ^ 0 = omega arith in q)
and_high (suc b) x y =
    let half : x * 2 ^ suc b / 2 ≡ x * 2 ^ b = omega (arith, double x b) in
    omega (
      arith,
      and_step (x * 2 ^ suc b) y,
      ap (λ z. bit_and z (y / 2)) half,
      and_high b x (y / 2),
      ap (λ z. bit_and x z * 2 ^ b) (halve y b),
      double (bit_and x (y / 2 ^ suc b)) b,
      ap (λ z. min z (y % 2)) (let low : x * 2 ^ suc b % 2 ≡ 0 = omega (arith, double x b) in low),
    )

-- A mask with low zeros meets the number above them.
and_mask : (b x y : ℕ) → bit_and x (y * 2 ^ b) ≡ bit_and (x / 2 ^ b) y * 2 ^ b
and_mask zero x y =
    ap (λ v. bit_and x v) (let p : y * 2 ^ 0 ≡ y = omega arith in p)
    ∙ ap (λ v. bit_and v y) (sym (shift_zero x))
    ∙ (let q : bit_and (x / 2 ^ 0) y ≡ bit_and (x / 2 ^ 0) y * 2 ^ 0 = omega arith in q)
and_mask (suc b) x y =
    let half : y * 2 ^ suc b / 2 ≡ y * 2 ^ b = omega (arith, double y b) in
    omega (
      arith,
      and_step x (y * 2 ^ suc b),
      ap (λ z. bit_and (x / 2) z) half,
      and_mask b (x / 2) y,
      ap (λ z. bit_and z y * 2 ^ b) (halve x b),
      double (bit_and (x / 2 ^ suc b) y) b,
      ap (λ z. min (x % 2) z) (let low : y * 2 ^ suc b % 2 ≡ 0 = omega (arith, double y b) in low),
    )

and_ones : (k x : ℕ) → x < 2 ^ k → bit_and x (2 ^ k - 1) ≡ x
and_ones zero x h = let z : x ≡ 0 = omega arith in ap (λ v. bit_and v 0) z ∙ sym z
and_ones (suc k) x h =
    let half : (2 ^ suc k - 1) / 2 ≡ 2 ^ k - 1 = omega (arith, pow-suc 2 k) in
    let low : (2 ^ suc k - 1) % 2 ≡ 1 = omega (arith, pow-suc 2 k, h) in
    omega (
      arith,
      and_step x (2 ^ suc k - 1),
      ap (λ z. bit_and (x / 2) z) half,
      and_ones k (x / 2) (omega (arith, pow-suc 2 k)),
      ap (λ z. min (x % 2) z) low,
    )

-- The mask of the upper `k` of `2 * k` bits.
pub and_upper : (k x : ℕ) → x < 2 ^ k * 2 ^ k → bit_and x ((2 ^ k - 1) * 2 ^ k) ≡ x / 2 ^ k * 2 ^ k
and_upper k x h =
    and_mask k x (2 ^ k - 1)
    ∙ ap (λ z. z * 2 ^ k)
        (and_ones k (x / 2 ^ k) ((div-lt_iff_lt-mul (one-le-pow k 2 (omega arith))).1 h))
