-- ===== src/Bytes/Strings.antt =====
-- `string_equal_bits` compares strings up to their ends.
use ebmbtreebench.Prelude.{
  ℕ, zero, suc, Option, some, ◌≡◌, ◌≢◌, ◌⊎◌, ◌≤◌, ◌<◌, ◌+◌, ◌-◌, ◌*◌, ◌/◌, ◌==◌, ◌^◌, ltb, arith,
  refl, inl, inr, Bool-cases, ==_iff, ap, false,
}
use ebmbtreebench.Memory.{Bit, pos, negsuc}
use ebmbtreebench.Bytes.{Bytes, get_bit, flsnz8, minus, string_equal_bits, string_equal_bits_from}
use ebmbtreebench.Bytes.Byte.{get_bit-same, differs_at, flsnz8-FirstOf}
use ebmbtreebench.Fls.Xor.{equal_of_xor}
use ebmbtreebench.Tree.Valid.{ℕ-cases}
use Prim.Native.Nat.{bit_xor}
use mathlib.Core.Path.{subst}

-- From the byte `start` on, the strings are equal up to an end that they share.
pub record EndTogether (a b : Bytes) (start : ℕ) (result : Option Bit) : Type 0 where
  pub end : ℕ
  pub runs : result ≡ some (negsuc 0)
  pub from : start ≤ end
  pub zero_a : a end ≡ 0
  pub zero_b : b end ≡ 0
  pub same : (j : ℕ) → start ≤ j → j ≤ end → a j ≡ b j

-- The bits are equal before the result and differ at it, and no string ends before its byte.
pub record DifferAt (a b : Bytes) (start : ℕ) (result : Option Bit) : Type 0 where
  pub bits : ℕ
  pub runs : result ≡ some (pos bits)
  pub from : start * 8 ≤ bits
  pub same : (i : ℕ) → start * 8 ≤ i → i < bits → get_bit a i ≡ get_bit b i
  pub differs : get_bit a bits ≢ get_bit b bits
  pub earlier : (j : ℕ) → start ≤ j → j < bits / 8 → (a j ≡ b j) × (0 < b j)

abbrev pub StringBits : Bytes → Bytes → ℕ → Option Bit → Type 0
StringBits a b start r = EndTogether a b start r ⊎ DifferAt a b start r

module _ (a b : Bytes) (bytes_a : (i : ℕ) → a i < 256) (bytes_b : (i : ℕ) → b i < 256) where
  stop_string :
      (p : ℕ)
      → 0 < bit_xor (a p) (b p)
      → DifferAt a b p (some (minus ((p + 1) * 2 ^ 3) (flsnz8 (bit_xor (a p) (b p)))))
  stop_string p d =
      let s = differs_at a b p (bit_xor (a p) (b p)) (bytes_a p) (bytes_b p) refl d in
      let lo = s.from in
      let hi = s.under in
      let le : ltb ((p + 1) * 2 ^ 3) (flsnz8 (bit_xor (a p) (b p))) ≡ false =
        let small : flsnz8 (bit_xor (a p) (b p)) ≤ 8 =
          (flsnz8-FirstOf (a p) (b p) (bytes_a p) (bytes_b p) d).room in
        ground arith in
      record {
        bits = p * 8 + 8 - flsnz8 (bit_xor (a p) (b p));
        runs = rw le (ap (λ z. some (pos z)) (omega arith));
        from = lo;
        same = s.same;
        differs = s.differs;
        earlier = λ j i l. absurd (omega arith);
      }

  past_string :
      (p : ℕ) (r : Option Bit)
      → bit_xor (a p) (b p) ≡ 0
      → 0 < b p
      → StringBits a b (p + 1) r
      → StringBits a b p r
  past_string p r z i h =
      let e = equal_of_xor (a p) (b p) z in
      elim h [
        | inl t ↦ inl (record {
          end = t.end;
          runs = t.runs;
          from = omega (arith, t.from);
          zero_a = t.zero_a;
          zero_b = t.zero_b;
          same = λ j lo hi. elim (ℕ-cases (j - p)) [
            | inl here ↦ let q : j ≡ p = omega arith in rw q e
            | inr past ↦ t.same j (omega arith) hi
          ];
        })
        | inr d ↦ inr (record {
          bits = d.bits;
          runs = d.runs;
          from = omega (arith, d.from);
          same = λ q lo hi. elim (ℕ-cases ((p + 1) * 8 - q)) [
            | inl past ↦ d.same q (omega arith) hi
            | inr here ↦ get_bit-same a b q (let w : q / 8 ≡ p = omega arith in rw w e)
          ];
          differs = d.differs;
          earlier = λ j lo hi. elim (ℕ-cases (j - p)) [
            | inl here ↦ let q : j ≡ p = omega arith in rw q (e, i)
            | inr past ↦ d.earlier j (omega arith) hi
          ];
        })
      ]

  from-StringBits :
      (f p z : ℕ) → p ≤ z → z < p + f → b z ≡ 0 → StringBits a b p (string_equal_bits_from f a b p)
  unfolding string_equal_bits_from
  from-StringBits zero p z le fuel e = absurd (omega arith)
  from-StringBits (suc f) p z le fuel e = elim (Bool-cases (bit_xor (a p) (b p) == 0)) [
    | inr d ↦ rw d (inr (stop_string p (ground (arith, d))))
    | inl c ↦
        let same = (==_iff (bit_xor (a p) (b p)) 0).0 c in
        elim (Bool-cases (b p == 0)) [
          | inl t ↦
              let zb : b p ≡ 0 = ground (arith, t) in
              rw (c, t)
                (inl (record {
                  end = p;
                  runs = refl;
                  from = omega arith;
                  zero_a = omega (arith, equal_of_xor (a p) (b p) same);
                  zero_b = zb;
                  same = λ j lo hi.
                      let q : j ≡ p = omega arith in rw q (equal_of_xor (a p) (b p) same);
                }))
          | inr t ↦
              let some_b : 0 < b p = ground (arith, t) in
              let further : p + 1 ≤ z = elim (ℕ-cases (z - p)) [
                | inl here ↦
                    let q : z ≡ p = omega arith in absurd (omega (arith, subst (λ k. b k ≡ 0) q e))
                | inr past ↦ omega arith
              ] in
              rw (c, t)
                (past_string p (string_equal_bits_from f a b (p + 1)) same some_b
                  (from-StringBits f (p + 1) z further (omega arith) e))
        ]
  ]

  -- For strings of which the second ends at the byte `z`, not before the byte of the bit `ignore`,
  -- and with fuel for the bytes up to there, `string_equal_bits` ends, in one of two ways. It
  -- returns -1, and the strings are equal from that byte up to an end that they share. Or it
  -- returns the number of a bit at which they differ, they have equal bits before it, and neither
  -- ends before its byte.
  pub string_equal_bits-StringBits :
      (f ignore z : ℕ)
      → ignore / 8 ≤ z
      → z < ignore / 8 + f
      → b z ≡ 0
      → StringBits a b (ignore / 8) (string_equal_bits f a b ignore)
  unfolding string_equal_bits
  string_equal_bits-StringBits f ignore z le fuel e = from-StringBits f (ignore / 8) z le fuel e
