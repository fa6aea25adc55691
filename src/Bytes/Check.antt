-- ===== src/Bytes/Check.antt =====
-- `check_bits` tells whether two blocks agree on their first bits.
use ebmbtreebench.Prelude.{
  ℕ, zero, suc, Option, some, ◌≡◌, ◌↔◌, ◌≤◌, ◌<◌, ◌+◌, ◌-◌, ◌*◌, ◌/◌, ◌==◌, ◌^◌, ◌%◌, ltb, arith,
  refl, inl, inr, Bool-cases, ==_iff, sym, ap, ◌∙◌,
}
use ebmbtreebench.Memory.{negsuc}
use ebmbtreebench.Bytes.{add, Bytes, get_bit, check_bits, check_bits_from}
use ebmbtreebench.Bytes.Byte.{get_bit-at, get_bit-split, agree_down}
use ebmbtreebench.Fls.Xor.{equal_of_xor}
use ebmbtreebench.Fls.Shift.{xor_shift, xor_self, shift_up}
use ebmbtreebench.Tree.Valid.{ℕ-cases}
use Prim.Native.Nat.{bit_xor}
use mathlib.Core.Path.{subst}

abbrev pub AllEqual : Bytes → Bytes → ℕ → ℕ → Type 0
AllEqual a b from len = (i : ℕ) → from ≤ i → i < len → get_bit a i ≡ get_bit b i

-- The result is 0 exactly where the bits are equal.
pub record Checked (a b : Bytes) (from len : ℕ) (result : Option ℕ) : Type 0 where
  pub value : ℕ
  pub runs : result ≡ some value
  pub exact : (value ≡ 0) ↔ AllEqual a b from len

module _ (a b : Bytes) (bytes_a : (i : ℕ) → a i < 256) (bytes_b : (i : ℕ) → b i < 256) where
  -- The high bits of a byte.
  byte_check :
      (p len d : ℕ)
      → p * 8 + 8 ≡ len + d
      → p * 8 ≤ len
      → (bit_xor (a p) (b p) / 2 ^ d ≡ 0) ↔ AllEqual a b (p * 8) len
  byte_check p len d e le = (
    (λ z i lo hi.
        let same = equal_of_xor (a p / 2 ^ d) (b p / 2 ^ d) (sym (xor_shift d (a p) (b p)) ∙ z) in
        get_bit-split a p i lo (omega arith)
        ∙ ap (λ y. y % 2) (shift_up (a p) (b p) d (7 - (i - p * 8)) (omega arith) same)
        ∙ sym (get_bit-split b p i lo (omega arith))),
    (λ all.
        let same = agree_down (a p) (b p) (8 - d) d (omega arith) (bytes_a p) (bytes_b p) (λ k l.
          sym (get_bit-at a p k (omega arith))
          ∙ all (p * 8 + k) (omega arith) (omega arith)
          ∙ get_bit-at b p k (omega arith)) in
        xor_shift d (a p) (b p) ∙ ap (λ y. bit_xor y (b p / 2 ^ d)) same ∙ xor_self (b p / 2 ^ d)),
  )

  -- A byte that differs.
  stop_check :
      (p len : ℕ)
      → p * 8 + 8 ≤ len
      → 0 < bit_xor (a p) (b p)
      → Checked a b (p * 8) len (some (bit_xor (a p) (b p)))
  stop_check p len le d = record {
    value = bit_xor (a p) (b p);
    runs = refl;
    exact = (
      (λ z. absurd (omega arith)),
      (λ all. omega (
        arith,
        (byte_check p (p * 8 + 8) 0 (omega arith) (omega arith)).1
            (λ i lo hi. all i lo (omega arith)),
      )),
    );
  }

  go_on_check :
      (p len : ℕ) (r : Option ℕ)
      → bit_xor (a p) (b p) ≡ 0
      → Checked a b ((p + 1) * 8) len r
      → Checked a b (p * 8) len r
  go_on_check p len r z h = record {
    value = h.value;
    runs = h.runs;
    exact = (
      (λ e i lo hi. elim (ℕ-cases ((p + 1) * 8 - i)) [
        | inl past ↦ h.exact.0 e i (omega arith) hi
        | inr here ↦
            (byte_check p (p * 8 + 8) 0 (omega arith) (omega arith)).0 (omega (arith, z)) i lo
              (omega arith)
      ]),
      (λ all. h.exact.1 (λ i lo hi. all i (omega arith) hi)),
    );
  }

  from-Checked :
      (f p n len : ℕ)
      → n < f * 8
      → len ≡ p * 8 + 9 + n
      → Checked a b (p * 8) len (check_bits_from f a b p (negsuc n) (bit_xor (a p) (b p)))
  unfolding check_bits_from
  from-Checked zero p n len fuel e = absurd (omega arith)
  from-Checked (suc f) p n len fuel e = elim (Bool-cases (bit_xor (a p) (b p) == 0)) [
    | inr d ↦ rw d (stop_check p len (omega arith) (ground (arith, d)))
    | inl z ↦ elim (Bool-cases (ltb n 8)) [
      | inl last ↦
          rw (z, last)
            (go_on_check p len (some (bit_xor (a (p + 1)) (b (p + 1)) / 2 ^ (8 - suc n)))
              ((==_iff (bit_xor (a p) (b p)) 0).0 z)
              (record {
                value = bit_xor (a (p + 1)) (b (p + 1)) / 2 ^ (8 - suc n);
                runs = refl;
                exact =
                    let lt : n < 8 = ground (arith, last) in
                    byte_check (p + 1) len (8 - suc n) (omega arith) (omega arith);
              }))
      | inr more ↦
          let ge : 8 ≤ n = ground (arith, more) in
          let step : add (negsuc n) 8 ≡ negsuc (n - 8) = rw more refl in
          rw (z, more)
            (subst
              (λ k.
                Checked a b (p * 8) len
                  (check_bits_from f a b (p + 1) k (bit_xor (a (p + 1)) (b (p + 1)))))
              (sym step)
              (go_on_check p len
                (check_bits_from f a b (p + 1) (negsuc (n - 8)) (bit_xor (a (p + 1)) (b (p + 1))))
                ((==_iff (bit_xor (a p) (b p)) 0).0 z)
                (from-Checked f (p + 1) (n - 8) len (omega arith) (omega arith))))
    ]
  ]

  -- For blocks of bytes, where the bytes to skip end at or before the bit `len`, and with fuel for
  -- the bytes of `len` bits, `check_bits` ends. Its result is 0 exactly where all the bits from the
  -- skipped bytes to `len` are equal.
  pub check_bits-Checked :
      (f skip len : ℕ)
      → len ≤ f * 8
      → skip * 8 ≤ len
      → Checked a b (skip * 8) len (check_bits f a b skip len)
  unfolding check_bits
  check_bits-Checked f skip len fuel le = elim (Bool-cases (ltb len (skip * 2 ^ 3 + 9))) [
    | inl last ↦
        rw (last, check_bits)
          (record {
            value = bit_xor (a skip) (b skip) / 2 ^ (skip * 2 ^ 3 + 9 - suc len);
            runs = refl;
            exact =
                let lt : len < skip * 8 + 9 = ground (arith, last) in
                byte_check skip len (skip * 2 ^ 3 + 9 - suc len) (omega arith) le;
          })
    | inr more ↦
        let ge : skip * 8 + 9 ≤ len = ground (arith, more) in
        rw (more, check_bits)
          (from-Checked f skip (len - (skip * 2 ^ 3 + 9)) len (omega arith) (omega arith))
  ]
