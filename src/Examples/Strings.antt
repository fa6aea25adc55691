-- ===== src/Examples/Strings.antt =====
-- Runs of the insertion and the lookup for strings, with strings of one character.
use ebmbtreebench.Prelude.{
  ℕ, zero, suc, ◌≡◌, ◌⊎◌, ◌<◌, ◌-◌, ◌==◌, if◌then◌else◌, arith, refl, inl, inr, Bool-cases, ==_iff,
  ap, ◌∙◌,
}
use ebmbtreebench.Memory.{Ptr, Bit, pos}
use ebmbtreebench.Tree.{height}
use ebmbtreebench.Tree.Count.{leaf_count}
use ebmbtreebench.Tree.Valid.{ℕ-cases}
use ebmbtreebench.Bytes.{Bytes, minus, get_bit}
use ebmbtreebench.Strings.{ebst_insert, ebst_lookup}
use ebmbtreebench.Strings.Same.{SameString, IsString, IsStringRadix}
use ebmbtreebench.Strings.Lookup.{IsStrcmp, StringFound}
use ebmbtreebench.Strings.Found.{ebst_lookup-Found}
use ebmbtreebench.Strings.Insert.{StringGrown, StringRefused}
use ebmbtreebench.Strings.Whole.{ebst_insert-Ends}
use ebmbtreebench.Scalar.Correct.{Put}
use ebmbtreebench.Examples.{small, small_tree, small-Valid, small-Rooted, eight_CanInsert}
use ebmbtreebench.Examples.Blocks.{blocks, blocks_bytes, small-IsBlockRadix, minus_apart}
use mathlib.Core.Path.{subst}

blocks-IsString : (y : Ptr) → IsString 2 (blocks y)
blocks-IsString y = record { end = 1; within = omega arith; zero_end = refl }

small-IsStringRadix : IsStringRadix blocks small_tree
unfolding leaf_count get_bit
small-IsStringRadix =
    let (left, rght, own, a, b) = small-IsBlockRadix in
    (
      (λ y i. ((left y i).1, (left y i).2, λ j lt. absurd (omega arith))),
      (λ y i. ((rght y i).1, (rght y i).2, λ j lt. absurd (omega arith))),
      own,
      tt,
      (
        (λ y i. let e : y ≡ 4 = ground arith in rw e same_six),
        (λ y i. let e : y ≡ 6 = ground arith in rw e same_six),
        omega arith,
        tt,
        tt,
      ),
    )
  where
    same_six : SameString (blocks 6) (blocks 6)
    same_six = record { end = 1; zero_end = refl; same = λ j le. refl }

-- A `strcmp` for strings that end within the first bytes.
unfoldable compare_strings : ℕ → Bytes → Bytes → Bit
compare_strings zero a b = pos 0
compare_strings (suc n) a b =
    let rest = compare_strings n (λ i. a (suc i)) (λ i. b (suc i)) in
    if a 0 == b 0 then if a 0 == 0 then pos 0 else rest else minus (a 0) (b 0)

rest-IsString : (n : ℕ) (a : Bytes) → IsString (suc n) a → 0 < a 0 → IsString n (λ i. a (suc i))
rest-IsString n a s i = elim (ℕ-cases s.end) [
  | inl z ↦ absurd (omega (arith, i, s.zero_end, ap a z))
  | inr p ↦
      let back : suc (s.end - 1) ≡ s.end = omega arith in
      let lt = s.within in
      record { end = s.end - 1; within = omega arith; zero_end = ap a back ∙ s.zero_end }
]

compare_strings-IsStrcmp : (n : ℕ) → IsStrcmp (compare_strings n) n
unfolding compare_strings
compare_strings-IsStrcmp zero a b sa sb = absurd (let i = sa.within in omega arith)
compare_strings-IsStrcmp (suc n) a b sa sb = elim (Bool-cases (a 0 == b 0)) [
  | inr e ↦ rw e (
    (λ z. absurd (ground (arith, e, minus_apart (a 0) (b 0) z))),
    (λ s. absurd (ground (arith, e, s.same 0 (omega arith)))),
  )
  | inl e ↦
      let e0 = (==_iff (a 0) (b 0)).0 e in
      elim (Bool-cases (a 0 == 0)) [
        | inl z ↦
            let z0 = (==_iff (a 0) 0).0 z in
            rw (e, z)
              (
                (λ q. record {
                  end = 0;
                  zero_end = z0;
                  same = λ j le. let j0 : j ≡ 0 = omega arith in rw j0 e0;
                }),
                (λ s. refl),
              )
        | inr p ↦
            let i : 0 < a 0 = ground (arith, p) in
            let rest =
              compare_strings-IsStrcmp n (λ k. a (suc k)) (λ k. b (suc k)) (rest-IsString n a sa i)
                (rest-IsString n b sb (omega (arith, e0))) in
            rw (e, p)
              (
                (λ q.
                    let s = rest.0 q in
                    record {
                      end = suc s.end;
                      zero_end = s.zero_end;
                      same = λ j le. elim (ℕ-cases j) [
                        | inl j0 ↦ rw j0 e0
                        | inr k ↦
                            subst (λ u. a u ≡ b u) (let w : suc (j - 1) ≡ j = omega arith in w)
                              (s.same (j - 1) (omega arith))
                      ];
                    }),
                (λ s.
                    let one : 0 < s.end = elim (ℕ-cases s.end) [
                      | inl z ↦ absurd (omega (arith, i, s.zero_end, ap a z))
                      | inr k ↦ k
                    ] in
                    let back : suc (s.end - 1) ≡ s.end = omega arith in
                    rest.1 (record {
                      end = s.end - 1;
                      zero_end = ap a back ∙ s.zero_end;
                      same = λ j le. s.same (suc j) (omega arith);
                    })),
              )
      ]
]

ebst_insert_example :
    Put (StringGrown blocks 8) (ebst_insert blocks 2 9 100 8 small) 100 small_tree 8
    ⊎ StringRefused blocks (ebst_insert blocks 2 9 100 8 small) 0 100 small_tree 8
unfolding height
ebst_insert_example =
    ebst_insert-Ends blocks blocks_bytes 2 (omega arith) blocks-IsString 2 9 small 100 8 small_tree
      (omega arith) (omega arith) small-Valid eight_CanInsert small-IsStringRadix

ebst_lookup_example :
    StringFound blocks
      (blocks 4)
      small_tree
      (ebst_lookup (compare_strings 2) blocks 2 9 small 100 (blocks 4))
unfolding height
ebst_lookup_example =
    ebst_lookup-Found (compare_strings 2) 2 (compare_strings-IsStrcmp 2) blocks blocks_bytes
      blocks-IsString (blocks 4) (blocks_bytes 4) (blocks-IsString 4) 2 9 small 100 small_tree
      (omega arith) (omega arith) small-Rooted small-IsStringRadix
