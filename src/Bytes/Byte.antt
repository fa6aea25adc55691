-- ===== src/Bytes/Byte.antt =====
-- Two bytes, bit by bit from the highest.
use ebmbtreebench.Prelude.{
  ℕ, zero, suc, ◌≡◌, ◌≢◌, ◌≤◌, ◌<◌, ◌+◌, ◌-◌, ◌*◌, ◌/◌, ◌%◌, ◌^◌, arith, ap, refl, ◌∙◌, sym,
}
use ebmbtreebench.Bytes.{Bytes, get_bit, flsnz8}
use ebmbtreebench.Fls.Byte.{flsnz8_generic_bounds}
use ebmbtreebench.Fls.Shift.{FirstBit-of_xor, shift_up, shift_suc}
use ebmbtreebench.Order.Insert.{xor-lt}
use native.Mathlib.Nat.{div-eq_of_lt-le, pow-suc}
use Prim.Native.Nat.{bit_xor}
use mathlib.Core.Path.{subst}

pub get_bit-at : (a : Bytes) (p k : ℕ) → k < 8 → get_bit a (p * 8 + k) ≡ a p / 2 ^ (7 - k) % 2
unfolding get_bit
get_bit-at a p k i =
    let e : (p * 8 + k) / 2 ^ 3 ≡ p = omega arith in
    let e' : (p * 8 + k) % 8 ≡ k = omega arith in rw (e, e') refl

pub bit_one : (a : Bytes) (i : ℕ) → 0 < get_bit a i → get_bit a i ≡ 1
unfolding get_bit
bit_one a i h = omega arith

-- Bytes that are one have equal bits.
pub get_bit-same : (a b : Bytes) (i : ℕ) → a (i / 8) ≡ b (i / 8) → get_bit a i ≡ get_bit b i
unfolding get_bit
get_bit-same a b i e = ap (λ z. z / 2 ^ (7 - i % 8) % 2) e

-- What `flsnz8` says of the bits of two bytes that differ.
pub record FirstOf (x y n : ℕ) : Type 0 where
  pub small : 0 < n
  pub room : n ≤ 8
  pub same : (k : ℕ) → k < 8 - n → x / 2 ^ (7 - k) % 2 ≡ y / 2 ^ (7 - k) % 2
  pub differs : x / 2 ^ (n - 1) % 2 ≢ y / 2 ^ (n - 1) % 2

pub flsnz8-FirstOf :
    (x y : ℕ) → x < 256 → y < 256 → 0 < bit_xor x y → FirstOf x y (flsnz8 (bit_xor x y))
flsnz8-FirstOf x y i j d =
    let (lo, hi, above, below, same) = flsnz8_generic_bounds (bit_xor x y) d (xor-lt 8 x y i j) in
    let n = flsnz8 (bit_xor x y) in
    let split : suc (n - 1) ≡ n = omega arith in
    let one : bit_xor x y / 2 ^ (n - 1) ≡ 1 =
      div-eq_of_lt-le {k = 1} (2 ^ (n - 1)) (omega (arith, above))
        (omega (arith, below, pow-suc 2 (n - 1), ap (λ z. 2 ^ z) split)) in
    let first = FirstBit-of_xor (n - 1) x y one in
    record {
      small = lo;
      room = hi;
      same = λ k l. ap (λ z. z % 2) (shift_up x y (suc (n - 1)) (7 - k) (omega arith) first.above);
      differs =
          λ e. first.at (omega (arith, e, first.above, shift_suc x (n - 1), shift_suc y (n - 1)));
    }

-- A bit of a block, by the byte and the place in it.
pub get_bit-split :
    (a : Bytes) (p i : ℕ)
    → p * 8 ≤ i
    → i < p * 8 + 8
    → get_bit a i ≡ a p / 2 ^ (7 - (i - p * 8)) % 2
get_bit-split a p i lo hi =
    ap (get_bit a) (let e : i ≡ p * 8 + (i - p * 8) = omega arith in e)
    ∙ get_bit-at a p (i - p * 8) (omega arith)

-- Where two bytes differ, their bits are equal before one that differs.
pub record DiffersAt (a b : Bytes) (p n : ℕ) : Type 0 where
  pub from : p * 8 ≤ n
  pub under : n < p * 8 + 8
  pub same : (i : ℕ) → p * 8 ≤ i → i < n → get_bit a i ≡ get_bit b i
  pub differs : get_bit a n ≢ get_bit b n

pub differs_at :
    (a b : Bytes) (p c : ℕ)
    → a p < 256
    → b p < 256
    → (c ≡ bit_xor (a p) (b p))
    → 0 < c
    → DiffersAt a b p (p * 8 + 8 - flsnz8 c)
differs_at a b p c i j e d =
    let f =
      subst (FirstOf (a p) (b p)) (ap flsnz8 (sym e))
        (flsnz8-FirstOf (a p) (b p) i j (omega (arith, e))) in
    let n = p * 8 + 8 - flsnz8 c in
    let small = f.small in
    let room = f.room in
    let place : 7 - (n - p * 8) ≡ flsnz8 c - 1 = omega arith in
    record {
      from = omega arith;
      under = omega arith;
      same = λ q lo hi.
          get_bit-split a p q lo (omega arith)
          ∙ f.same (q - p * 8) (omega arith)
          ∙ sym (get_bit-split b p q lo (omega arith));
      differs = λ z. f.differs (
          ap (λ k. a p / 2 ^ k % 2) (sym place)
          ∙ sym (get_bit-split a p n (omega arith) (omega arith))
          ∙ z
          ∙ get_bit-split b p n (omega arith) (omega arith)
          ∙ ap (λ k. b p / 2 ^ k % 2) place);
    }

-- Two bytes that agree in their first `j` bits agree above the others.
pub agree_down :
    (x y j d : ℕ)
    → d + j ≡ 8
    → x < 256
    → y < 256
    → ((k : ℕ) → k < j → x / 2 ^ (7 - k) % 2 ≡ y / 2 ^ (7 - k) % 2)
    → x / 2 ^ d ≡ y / 2 ^ d
agree_down x y zero d e i i' h =
    let eight : d ≡ 8 = omega arith in
    ap (λ z. x / 2 ^ z) eight
    ∙ (let q : x / 2 ^ 8 ≡ y / 2 ^ 8 = omega arith in q)
    ∙ ap (λ z. y / 2 ^ z) (sym eight)
agree_down x y (suc j) d e i i' h =
    let place : 7 - j ≡ d = omega arith in
    let low = subst (λ z. x / 2 ^ z % 2 ≡ y / 2 ^ z % 2) place (h j (omega arith)) in
    omega (
      arith,
      low,
      shift_suc x d,
      shift_suc y d,
      agree_down x y j (suc d) (omega arith) i i' (λ k l. h k (omega arith)),
    )

-- Blocks of bytes with equal bits have equal bytes.
pub equal_bytes :
    (a b : Bytes) (len : ℕ)
    → ((i : ℕ) → a i < 256)
    → ((i : ℕ) → b i < 256)
    → ((i : ℕ) → 0 ≤ i → i < len * 8 → get_bit a i ≡ get_bit b i)
    → (p : ℕ) → p < len
    → a p ≡ b p
equal_bytes a b len bytes_a bytes_b h p lt = omega (
  arith,
  agree_down (a p) (b p) 8 0 (omega arith) (bytes_a p) (bytes_b p) (λ k l.
      sym (get_bit-at a p k l) ∙ h (p * 8 + k) (omega arith) (omega arith) ∙ get_bit-at b p k l),
)
