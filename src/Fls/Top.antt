-- ===== src/Fls/Top.antt =====
-- `flsnz` and `fls64` find the highest bit that is set.
use ebmbtreebench.Fls.{narrow, flsnz, fls64, ℕ, bit_and}
use ebmbtreebench.Fls.And.{and_low, and_high, and_upper}
use ebmbtreebench.Fls.Byte.{holds_to, holds_to-at}
use ebmbtreebench.Fls.Shift.{shift_add}
use native.Mathlib.Nat.{pow-suc, div-lt_iff_lt-mul, mul-pos, mul_assoc, lt_of_mul-lt-mul_left}
use mathlib.Core.Path.{ap₂}
use ebmbtreebench.Tree.Valid.{ℕ-cases}
use native.Mathlib.Nat.{one-le-pow}
use ebmbtreebench.Prelude.{
  ℕ, Bool, ◌≡◌, ◌<◌, true, ◌/◌, ◌*◌, ◌^◌, ◌≤◌, ◌-◌, ◌==◌, ◌+◌, arith, ap, Bool-cases, suc, ◌∙◌, inl,
  sym, ==_iff, zero, inr, false, refl, ◌%◌,
}
use mathlib.Core.Path.{subst}

-- Shifted by `b`, the mask starts with the upper `k` of `2 * k` bits.
abbrev is_block : ℕ → ℕ → ℕ → Bool
is_block k mask j =
    mask / 2 ^ (2 * k * j)
    == mask / 2 ^ (2 * k * j) / 2 ^ (2 * k) * 2 ^ (2 * k) + (2 ^ k - 1) * 2 ^ k

-- After a pass that leaves at most `w` bits: `h` are the bits of `x` from `b` on, and all others
-- are cleared.
record Narrowed (x w : ℕ) (s : ℕ × ℕ) : Type 0 where
  pub block : ℕ
  pub bits : s.1 ≡ w * block
  pub small : s.1 + w ≤ 32
  pub rest : x / 2 ^ s.1 < 2 ^ w
  pub pos : 0 < x / 2 ^ s.1
  pub value : s.0 ≡ x / 2 ^ s.1 * 2 ^ s.1

pow_add : (n k : ℕ) → 2 ^ (n + k) ≡ 2 ^ k * 2 ^ n
pow_add n zero = grind (arith)
pow_add n (suc k) = grind (arith, pow_add n k, pow-suc 2 (n + k), pow-suc 2 k)

pow_twice : (k : ℕ) → 2 ^ (2 * k) ≡ 2 ^ k * 2 ^ k
pow_twice k = ap (λ z. 2 ^ z) (let e : 2 * k ≡ k + k = omega arith in e) ∙ pow_add k k

zero_of_scaled : (h p q : ℕ) → 0 < p → 0 < q → h * p * q ≡ 0 → h ≡ 0
zero_of_scaled zero p q i j e = refl
zero_of_scaled (suc h) p q i j e =
    absurd (omega (arith, mul-pos (mul-pos (let o : 0 < suc h = omega arith in o) i) j))

module _ (k mask count x : ℕ) (v b : ℕ) (table : holds_to (is_block k mask) count ≡ true)
    (enough : 32 ≤ 2 * k * count) (kpos : 0 < k) (n : Narrowed x (2 * k) (v, b)) where
  kept : bit_and v mask ≡ x / 2 ^ b / 2 ^ k * 2 ^ k * 2 ^ b
  kept =
      let block : n.block < count =
        lt_of_mul-lt-mul_left (2 * k) (omega (arith, n.bits, n.small)) in
      let form : mask / 2 ^ b ≡ mask / 2 ^ b / 2 ^ (2 * k) * 2 ^ (2 * k) + (2 ^ k - 1) * 2 ^ k =
        subst (λ z. mask / 2 ^ z ≡ mask / 2 ^ z / 2 ^ (2 * k) * 2 ^ (2 * k) + (2 ^ k - 1) * 2 ^ k)
          (sym n.bits) ((==_iff _ _).0 (holds_to-at (is_block k mask) n.block count block table)) in
      ap (λ z. bit_and z mask) n.value
      ∙ and_high b (x / 2 ^ b) mask
      ∙ ap (λ z. z * 2 ^ b)
          (ap (λ z. bit_and (x / 2 ^ b) z) form
            ∙ and_low (2 * k) (x / 2 ^ b) (mask / 2 ^ b / 2 ^ (2 * k)) ((2 ^ k - 1) * 2 ^ k) n.rest
            ∙ and_upper k (x / 2 ^ b) (subst (λ z. x / 2 ^ b < z) (pow_twice k) n.rest))

  empty_half : bit_and v mask ≡ 0 → x / 2 ^ b < 2 ^ k
  empty_half e =
      let p = one-le-pow k 2 (omega arith) in
      let q = one-le-pow b 2 (omega arith) in
      let z = zero_of_scaled (x / 2 ^ b / 2 ^ k) (2 ^ k) (2 ^ b) p q (sym kept ∙ e) in
      let lt = (div-lt_iff_lt-mul p).0 (let one : x / 2 ^ b / 2 ^ k < 1 = omega arith in one) in
      omega (arith, lt)

  full_half : (bit_and v mask == 0) ≡ false → 0 < x / 2 ^ b / 2 ^ k
  full_half e = elim (ℕ-cases (x / 2 ^ b / 2 ^ k)) [
    | inl z ↦
        let gone : bit_and v mask ≡ 0 =
          kept
          ∙ ap (λ h. h * 2 ^ k * 2 ^ b) z
          ∙ (let o : 0 * 2 ^ k * 2 ^ b ≡ 0 = grind arith in o) in
        absurd (ground (arith, gone, e))
    | inr i ↦ i
  ]

  half_small : x / 2 ^ b / 2 ^ k < 2 ^ k
  half_small =
      (div-lt_iff_lt-mul (one-le-pow k 2 (omega arith))).1
        (subst (λ z. x / 2 ^ b < z) (pow_twice k) n.rest)

  narrow-Narrowed : Narrowed x k (narrow mask k (v, b))
  narrow-Narrowed = elim (Bool-cases (bit_and v mask == 0)) [
    | inl e ↦ rw e (record {
      block = 2 * n.block;
      bits = grind (arith, n.bits);
      small = omega (arith, n.small);
      rest = empty_half ((==_iff _ 0).0 e);
      pos = n.pos;
      value = n.value;
    })
    | inr e ↦ rw e (record {
      block = 2 * n.block + 1;
      bits = grind (arith, n.bits);
      small = omega (arith, n.small);
      rest = subst (λ z. z < 2 ^ k) (sym (shift_add x b k)) half_small;
      pos = subst (λ z. 0 < z) (sym (shift_add x b k)) (full_half e);
      value =
          kept
          ∙ mul_assoc (x / 2 ^ b / 2 ^ k) (2 ^ k) (2 ^ b)
          ∙ ap₂ (λ y z. y * z) (sym (shift_add x b k)) (sym (pow_add b k));
    })
  ]

-- One bit is left.
last_bit :
    (x : ℕ) (s : ℕ × ℕ)
    → Narrowed x 1 s
    → (x / 2 ^ (s.1 + 1 - 1) ≡ 1) × (0 < s.1 + 1) × (s.1 + 1 ≤ 32)
last_bit x s n =
    let e : s.1 + 1 - 1 ≡ s.1 = omega arith in
    (
      ap (λ z. x / 2 ^ z) e ∙ (let one : x / 2 ^ s.1 ≡ 1 = omega (arith, n.rest, n.pos) in one),
      omega arith,
      n.small,
    )

narrow_pair :
    (k mask count x : ℕ) (s : ℕ × ℕ)
    → holds_to (is_block k mask) count ≡ true
    → 32 ≤ 2 * k * count
    → 0 < k
    → Narrowed x (2 * k) s
    → Narrowed x k (narrow mask k s)
narrow_pair k mask count x s = narrow-Narrowed k mask count x s.0 s.1

-- For every positive number of 32 bits, `flsnz` is the position of its highest bit that is set,
-- from 1 to 32: shifted by the position less 1, the number is 1.
pub flsnz_top :
    (x : ℕ) → 0 < x → x < 2 ^ 32 → (x / 2 ^ (flsnz x - 1) ≡ 1) × (0 < flsnz x) × (flsnz x ≤ 32)
unfolding flsnz holds_to
flsnz_top x i h =
    let n5 : Narrowed x 32 (x, 0) = record {
      block = 0;
      bits = refl;
      small = omega arith;
      rest = omega arith;
      pos = omega arith;
      value = omega arith;
    } in
    let n4 = narrow_pair 16 0xffff0000 1 x (x, 0) refl (omega arith) (omega arith) n5 in
    let n3 =
      narrow_pair 8 0xff00ff00 2 x (narrow 0xffff0000 16 (x, 0)) refl (omega arith) (omega arith)
        n4 in
    let n2 =
      narrow_pair 4 0xf0f0f0f0 4 x (narrow 0xff00ff00 8 (narrow 0xffff0000 16 (x, 0))) refl
        (omega arith) (omega arith) n3 in
    let n1 =
      narrow_pair 2 0xcccccccc 8 x
        (narrow 0xf0f0f0f0 4 (narrow 0xff00ff00 8 (narrow 0xffff0000 16 (x, 0)))) refl (omega arith)
        (omega arith) n2 in
    let n0 =
      narrow_pair 1 0xaaaaaaaa 16 x
        (narrow 0xcccccccc 2
          (narrow 0xf0f0f0f0 4 (narrow 0xff00ff00 8 (narrow 0xffff0000 16 (x, 0)))))
        refl (omega arith) (omega arith) n1 in
    last_bit x
      (narrow 0xaaaaaaaa 1 (
        narrow 0xcccccccc 2
          (narrow 0xf0f0f0f0 4 (narrow 0xff00ff00 8 (narrow 0xffff0000 16 (x, 0))))))
      n0

-- For every positive number of 64 bits, `fls64` is the position of its highest bit that is set,
-- from 1 to 64: shifted by the position less 1, the number is 1.
pub fls64_top :
    (x : ℕ) → 0 < x → x < 2 ^ 64 → (x / 2 ^ (fls64 x - 1) ≡ 1) × (0 < fls64 x) × (fls64 x ≤ 64)
unfolding fls64
fls64_top x i h = elim (Bool-cases (x / 2 ^ 32 == 0)) [
  | inl e ↦
      let whole : x % 2 ^ 32 ≡ x = ground (arith, e) in
      let (top, pos, le) = flsnz_top x i (ground (arith, e)) in
      rw (e, whole) ((top, pos, omega arith))
  | inr e ↦
      let (top, pos, le) = flsnz_top (x / 2 ^ 32) (ground (arith, e)) (omega arith) in
      rw e (
        (
          ap (λ z. x / 2 ^ z)
                (let split : flsnz (x / 2 ^ 32) + 32 - 1 ≡ 32 + (flsnz (x / 2 ^ 32) - 1) =
                    omega arith in
                  split)
              ∙ shift_add x 32 (flsnz (x / 2 ^ 32) - 1)
              ∙ top,
          omega arith,
          omega arith,
        ))
]
