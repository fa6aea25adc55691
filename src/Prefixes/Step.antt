-- ===== src/Prefixes/Step.antt =====
-- What a pass of the loop of `__ebmb_insert_prefix` does at a node, and what then is known.
use ebmbtreebench.Prelude.{
  ℕ, suc, ◌≡◌, ◌<◌, ◌≤◌, ◌+◌, ◌-◌, ◌*◌, ◌/◌, ◌%◌, ◌==◌, ◌&&◌, ltb, leb, true, false, arith, refl,
  Bool-cases, inl, inr, zero, Bool,
}
use ebmbtreebench.Memory.{Ptr}
use ebmbtreebench.Bytes.{Bytes, get_bit}
use ebmbtreebench.Scalar.{Place}
use ebmbtreebench.Prefixes.Insert.{PrefixStep, stop, walk_down, at_covered, at_parted, prefix_step}
use Prim.Native.Nat.{bit_xor}

-- What a step comes to, at the place `p` of a node with the bit `n`, with `same` bits found equal.
pub data StepIs (key : Ptr → Bytes) (pfx : Ptr → ℕ) (new : Ptr) (p : Place) (n same : ℕ)
    : PrefixStep → Type 0 where
  covered :
      pfx new ≤ same → pfx new + pfx new < n → StepIs key pfx new p n same (stop (at_covered p))
  parted :
      same < n / 2
      → same < pfx new
      → StepIs key pfx new p n same (stop (at_parted p (same * 2 + 1)))
  same_length :
      n % 2 ≡ 0
      → pfx new ≡ n / 2
      → n / 2 ≤ same
      → StepIs key pfx new p n same (walk_down 0 (same * 2 + 1))
  longer :
      n % 2 ≡ 0 → n / 2 < pfx new → n / 2 ≤ same → StepIs key pfx new p n same (walk_down 1 (n / 2))
  turned :
      n % 2 ≡ 1
      → n / 2 < pfx new
      → n / 2 ≤ same
      → StepIs key pfx new p n same (walk_down (get_bit (key new) (n / 2)) (n / 2 + 1))

-- The three low bits of a number, turned over.
xor_seven : (x : ℕ) → x < 8 → bit_xor x 7 ≡ 7 - x
xor_seven zero lt = refl
xor_seven (suc zero) lt = refl
xor_seven (suc (suc zero)) lt = refl
xor_seven (suc (suc (suc zero))) lt = refl
xor_seven (suc (suc (suc (suc zero)))) lt = refl
xor_seven (suc (suc (suc (suc (suc zero))))) lt = refl
xor_seven (suc (suc (suc (suc (suc (suc zero)))))) lt = refl
xor_seven (suc (suc (suc (suc (suc (suc (suc zero))))))) lt = refl
xor_seven (suc (suc (suc (suc (suc (suc (suc (suc x)))))))) lt = absurd (omega arith)

module _ (key : Ptr → Bytes) (pfx : Ptr → ℕ) (new : Ptr) (p : Place) (n same : ℕ) where
  -- Where the code goes down, the prefix is as long as the bit of the node at least.
  down_case :
      n / 2 ≤ same
      → (leb (pfx new * 2) (same * 2 + 1) && ltb (pfx new * 2) n) ≡ false
      → n ≤ pfx new * 2
  down_case le e = elim (Bool-cases (ltb (pfx new * 2) n)) [
    | inr ge ↦ ground (arith, ge)
    | inl lt ↦ elim (Bool-cases (leb (pfx new * 2) (same * 2 + 1))) [
      | inl i ↦
          let z : (leb (pfx new * 2) (same * 2 + 1) && ltb (pfx new * 2) n) ≡ true =
            rw (i, lt) refl in
          absurd (ground (arith, e, z))
      | inr i ↦ let far : same * 2 + 1 < pfx new * 2 = ground (arith, i) in omega arith
    ]
  ]

  part_case :
      same * 2 + 1 < n
      → (leb (pfx new * 2) (same * 2 + 1) && ltb (pfx new * 2) n) ≡ false
      → same < pfx new
  part_case lt e = elim (Bool-cases (leb (pfx new * 2) (same * 2 + 1))) [
    | inr i ↦ let far : same * 2 + 1 < pfx new * 2 = ground (arith, i) in omega arith
    | inl i ↦
        let le : pfx new * 2 ≤ same * 2 + 1 = ground (arith, i) in
        let l : ltb (pfx new * 2) n ≡ true = ground arith in
        let z : (leb (pfx new * 2) (same * 2 + 1) && ltb (pfx new * 2) n) ≡ true = rw (i, l) refl in
        absurd (ground (arith, e, z))
  ]

  both : (a b : Bool) → (a && b) ≡ true → (a ≡ true) × (b ≡ true)
  both true true e = (refl, refl)
  both true false e = absurd (ground (arith, e))
  both false b e = absurd (ground (arith, e))

  pub prefix_step-StepIs : StepIs key pfx new p n same (prefix_step key pfx new p n same)
  unfolding prefix_step get_bit
  prefix_step-StepIs = elim (Bool-cases (leb (pfx new * 2) (same * 2 + 1) && ltb (pfx new * 2) n)) [
    | inl e ↦
        let (i, j) = both (leb (pfx new * 2) (same * 2 + 1)) (ltb (pfx new * 2) n) e in
        let le : pfx new * 2 ≤ same * 2 + 1 = ground (arith, i) in
        let lt : pfx new * 2 < n = ground (arith, j) in rw e (covered (omega arith) (omega arith))
    | inr e ↦ elim (Bool-cases (ltb (same * 2 + 1) n)) [
      | inl d ↦
          let lt : same * 2 + 1 < n = ground (arith, d) in
          rw (e, d) (parted (omega arith) (part_case lt e))
      | inr d ↦
          let ge : n ≤ same * 2 + 1 = ground (arith, d) in
          let far = down_case (omega arith) e in
          elim (Bool-cases (n % 2 == 0)) [
            | inl z ↦
                let even : n % 2 ≡ 0 = ground (arith, z) in
                elim (Bool-cases (pfx new * 2 == n)) [
                  | inl q ↦
                      let same_half : pfx new * 2 ≡ n = ground (arith, q) in
                      rw (e, d, z, q) (same_length even (omega arith) (omega arith))
                  | inr q ↦
                      let more : n < pfx new * 2 = ground (arith, q, far) in
                      rw (e, d, z, q) (longer even (omega arith) (omega arith))
                ]
            | inr z ↦
                let odd : n % 2 ≡ 1 = ground (arith, z) in
                rw (e, d, z, xor_seven (n / 2 % 8) (omega arith))
                  (turned odd (omega arith) (omega arith))
          ]
    ]
  ]
