-- ===== src/Blocks/Reach.antt =====
-- The inner loop of the lookup compares whole bytes up to the one that has the bit of a node.
use ebmbtreebench.Prelude.{
  ℕ, zero, suc, Option, some, ◌≡◌, ◌≢◌, false, ◌<◌, ◌≤◌, ◌+◌, ◌-◌, ◌*◌, ◌^◌, ◌==◌, ltb, arith, refl,
  ap, inl, inr, Bool-cases, ==_iff,
}
use ebmbtreebench.Memory.{negsuc}
use ebmbtreebench.Tree.Valid.{ℕ-cases}
use ebmbtreebench.Bytes.{Bytes}
use ebmbtreebench.Fls.Xor.{equal_of_xor}
use ebmbtreebench.Fls.Shift.{xor_self}
use ebmbtreebench.Blocks.{Stride, mismatch, matched, reached, stride, stride_to}
use Prim.Native.Nat.{bit_xor}

abbrev pub SameBytes : Bytes → Bytes → ℕ → ℕ → Type 0
SameBytes a b from to = (i : ℕ) → from ≤ i → i < to → a i ≡ b i

-- A byte before the bit `n` differs, among those from `p` on.
pub record DifferBefore (k x : Bytes) (p len n : ℕ) : Type 0 where
  pub byte : ℕ
  pub before : byte * 8 + 8 ≤ n
  pub within : byte < p + len
  pub differs : k byte ≢ x byte

abbrev pub StrideRight : Bytes → Bytes → ℕ → ℕ → ℕ → Stride → Type 0
StrideRight k x p len n mismatch = DifferBefore k x p len n
StrideRight k x p len n matched = ((p + len) * 8 ≤ n) × SameBytes k x p (p + len)
StrideRight k x p len n (reached p' len' d) =
    (p' + len' ≡ p + len)
    × (0 < len')
    × (p ≤ p')
    × (p' * 8 ≤ n)
    × (d + n ≡ p' * 8 + 7)
    × SameBytes k x p p'

pub record IsStride (k x : Bytes) (p len n : ℕ) (result : Option Stride) : Type 0 where
  pub outcome : Stride
  pub runs : result ≡ some outcome
  pub right : StrideRight k x p len n outcome

module _ (k x : Bytes) (n : ℕ) where
  one_more : (p to : ℕ) → k p ≡ x p → SameBytes k x (p + 1) to → SameBytes k x p to
  one_more p to e h i lo hi = elim (ℕ-cases (i - p)) [
    | inl here ↦ let q : i ≡ p = omega arith in rw q e
    | inr past ↦ h i (omega arith) hi
  ]

  further :
      (p len : ℕ) (r : Option Stride)
      → k p ≡ x p
      → IsStride k x (p + 1) len n r
      → IsStride k x p (suc len) n r
  further p len r e h = record {
    outcome = h.outcome;
    runs = h.runs;
    right = shift h.outcome h.right;
  }
    where
      shift : (s : Stride) → StrideRight k x (p + 1) len n s → StrideRight k x p (suc len) n s
      shift mismatch d = record {
        byte = d.byte;
        before = d.before;
        within = omega (arith, d.within);
        differs = d.differs;
      }
      shift matched (le, same) =
          (omega arith, one_more p (p + suc len) e (λ i lo hi. same i lo (omega arith)))
      shift (reached p' len' d) (sum, left, le, lo, at, same) =
          (omega arith, left, omega arith, lo, at, one_more p p' e same)

  stopped : (p len : ℕ) → p * 8 + 8 ≤ n → k p ≢ x p → IsStride k x p (suc len) n (some mismatch)
  stopped p len le ne = record {
    outcome = mismatch;
    runs = refl;
    right = record { byte = p; before = le; within = omega arith; differs = ne };
  }

  -- The next byte has the bit.
  arrived :
      (p len j : ℕ)
      → n ≡ p * 8 + 8 + j
      → j < 8
      → IsStride k x (p + 1) (suc len) n (some (reached (p + 1) (suc len) (8 - suc j)))
  arrived p len j e lt = record {
    outcome = reached (p + 1) (suc len) (8 - suc j);
    runs = refl;
    right =
        (refl, omega arith, omega arith, omega arith, omega arith, λ i lo hi. absurd (omega arith));
  }

  pub stride-IsStride :
      (len p j : ℕ)
      → n ≡ p * 8 + 8 + j
      → IsStride k x p (suc len) n (stride k x (suc len) p (negsuc j))
  unfolding stride
  stride-IsStride zero p j e = elim (Bool-cases (bit_xor (k p) (x p) == 0)) [
    | inr ne ↦ rw ne (
        stopped p 0 (omega arith)
          (λ q. absurd (ground (arith, ne, ap (λ z. bit_xor z (x p)) q, xor_self (x p)))))
    | inl z ↦ rw z (record {
      outcome = matched;
      runs = refl;
      right = (
        omega arith,
        one_more p (p + 1) (equal_of_xor (k p) (x p) ((==_iff (bit_xor (k p) (x p)) 0).0 z))
            (λ i lo hi. absurd (omega arith)),
      );
    })
  ]
  stride-IsStride (suc len) p j e = elim (Bool-cases (bit_xor (k p) (x p) == 0)) [
    | inr ne ↦ rw ne (
        stopped p (suc len) (omega arith)
          (λ q. absurd (ground (arith, ne, ap (λ z. bit_xor z (x p)) q, xor_self (x p)))))
    | inl z ↦
        let same = equal_of_xor (k p) (x p) ((==_iff (bit_xor (k p) (x p)) 0).0 z) in
        let more : (suc len == 0) ≡ false = ground arith in
        elim (Bool-cases (ltb j 8)) [
          | inl lt ↦
              rw (z, more, lt)
                (further p (suc len) (some (reached (p + 1) (suc len) (8 - suc j))) same
                  (arrived p len j e (ground (arith, lt))))
          | inr ge ↦
              let le : 8 ≤ j = ground (arith, ge) in
              rw (z, more, ge)
                (further p (suc len) (stride k x (suc len) (p + 1) (negsuc (j - 8))) same
                  (stride-IsStride len (p + 1) (j - 8) (omega arith)))
        ]
  ]

  -- For a bit that is not before the byte `p`.
  pub stride_to-IsStride :
      (len p : ℕ) → 0 < len → p * 8 ≤ n → IsStride k x p len n (stride_to k x len p n)
  unfolding stride_to
  stride_to-IsStride zero p i le = absurd (omega arith)
  stride_to-IsStride (suc len) p i le = elim (Bool-cases (ltb n (p * 2 ^ 3 + 8))) [
    | inl near ↦
        let lt : n < p * 8 + 8 = ground (arith, near) in
        rw (near, stride_to)
          (record {
            outcome = reached p (suc len) (p * 2 ^ 3 + 8 - suc n);
            runs = refl;
            right =
                (refl, omega arith, omega arith, le, omega arith, λ i lo hi. absurd (omega arith));
          })
    | inr far ↦
        let ge : p * 8 + 8 ≤ n = ground (arith, far) in
        rw (far, stride_to) (stride-IsStride len p (n - (p * 2 ^ 3 + 8)) (omega arith))
  ]
