-- ===== src/Bytes/Equal.antt =====
-- `equal_bits` counts the bits that are equal.
use ebmbtreebench.Prelude.{
  ℕ, zero, suc, Option, some, ◌≡◌, ◌≢◌, ◌⊎◌, ◌≤◌, ◌<◌, ◌+◌, ◌-◌, ◌*◌, ◌/◌, ◌==◌, ltb, arith, refl,
  inl, inr, Bool-cases, ==_iff, sym,
}
use ebmbtreebench.Bytes.{Bytes, get_bit, flsnz8, equal_bits, equal_bits_from}
use ebmbtreebench.Bytes.Byte.{get_bit-same, differs_at}
use ebmbtreebench.Fls.Xor.{equal_of_xor}
use ebmbtreebench.Tree.Valid.{ℕ-cases}
use Prim.Native.Nat.{bit_xor}

-- The result: it is not before `from`, and the bits from there up to it are equal. It is `len` or
-- more, or the bit there differs. It is at most `len` in whole bytes, where it is not `from`.
pub record EqualBits (a b : Bytes) (from len : ℕ) (result : Option ℕ) : Type 0 where
  pub bits : ℕ
  pub runs : result ≡ some bits
  pub start : from ≤ bits
  pub same : (i : ℕ) → from ≤ i → i < bits → get_bit a i ≡ get_bit b i
  pub ends : (len ≤ bits) ⊎ (get_bit a bits ≢ get_bit b bits)
  pub near : (bits ≤ (len + 7) / 8 * 8) ⊎ (bits ≡ from)

module _ (a b : Bytes) (len : ℕ) (bytes_a : (i : ℕ) → a i < 256)
    (bytes_b : (i : ℕ) → b i < 256) where
  stop_bits :
      (p : ℕ)
      → p * 8 < len
      → 0 < bit_xor (b p) (a p)
      → EqualBits a b (p * 8) len (some (p * 8 + 8 - flsnz8 (bit_xor (b p) (a p))))
  stop_bits p i d =
      let s = differs_at b a p (bit_xor (b p) (a p)) (bytes_b p) (bytes_a p) refl d in
      let hi = s.under in
      record {
        bits = p * 8 + 8 - flsnz8 (bit_xor (b p) (a p));
        runs = refl;
        start = s.from;
        same = λ q from to. sym (s.same q from to);
        ends = inr (λ z. s.differs (sym z));
        near = inl (omega arith);
      }

  go_on :
      (p : ℕ) (r : Option ℕ)
      → p * 8 < len
      → bit_xor (b p) (a p) ≡ 0
      → EqualBits a b ((p + 1) * 8) len r
      → EqualBits a b (p * 8) len r
  go_on p r i z h = record {
    bits = h.bits;
    runs = h.runs;
    start = let le = h.start in omega arith;
    same = λ q from to. elim (ℕ-cases ((p + 1) * 8 - q)) [
      | inl past ↦ h.same q (omega arith) to
      | inr here ↦
          let e : q / 8 ≡ p = omega arith in
          get_bit-same a b q (rw e (sym (equal_of_xor (b p) (a p) z)))
    ];
    ends = h.ends;
    near = inl (elim h.near [ inl lt ↦ lt | inr e ↦ omega (arith, e) ]);
  }

  from-EqualBits :
      (f p : ℕ)
      → 0 < f
      → len + 8 ≤ p * 8 + f * 8
      → EqualBits a b (p * 8) len (equal_bits_from f a b p (p * 8) len)
  unfolding equal_bits_from
  from-EqualBits zero p some_fuel fuel = absurd (omega arith)
  from-EqualBits (suc f) p some_fuel fuel =
      let next : p * 8 + 8 ≡ (p + 1) * 8 = omega arith in
      elim (Bool-cases (ltb (p * 8) len)) [
        | inr past ↦ rw past (record {
          bits = p * 8;
          runs = refl;
          start = omega arith;
          same = λ i lo hi. absurd (omega arith);
          ends = inl (ground (arith, past));
          near = inr refl;
        })
        | inl here ↦
            let lt : p * 8 < len = ground (arith, here) in
            elim (Bool-cases (bit_xor (b p) (a p) == 0)) [
              | inl e ↦
                  rw (here, e, next)
                    (go_on p (equal_bits_from f a b (p + 1) ((p + 1) * 8) len) lt
                      ((==_iff (bit_xor (b p) (a p)) 0).0 e)
                      (from-EqualBits f (p + 1) (omega arith) (omega arith)))
              | inr e ↦ rw (here, e) (stop_bits p lt (ground (arith, e)))
            ]
      ]

  -- For blocks of bytes, with fuel for the bytes of `len` bits and one more, `equal_bits` ends. The
  -- result is not before the byte that has the bit `ignore`, and all bits from the start of that byte
  -- up to it are equal. The result is `len` or more, or the bit there differs. It is at most `len`
  -- rounded up to whole bytes, or where the comparison starts.
  pub equal_bits-EqualBits :
      (f ignore : ℕ)
      → len + 8 ≤ f * 8
      → EqualBits a b (ignore / 8 * 8) len (equal_bits f a b ignore len)
  unfolding equal_bits
  equal_bits-EqualBits f ignore fuel = from-EqualBits f (ignore / 8) (omega arith) (omega arith)
