-- ===== src/Strings/Lookup.antt =====
-- `__ebst_lookup` finds a leaf with the string looked for.
use ebmbtreebench.Prelude.{
  ℕ, suc, true, false, Option, some, ◌≡◌, ◌⊎◌, ◌↔◌, ◌<◌, ◌≤◌, ◌+◌, arith, refl, ap, inl, inr,
  Bool-cases, ◌/◌, zero, ltb, sym, ◌==◌, ◌∙◌,
}
use ebmbtreebench.Memory.{Ptr, Mem, Bit, pos, negsuc, null}
use ebmbtreebench.Tree.{Tree, leaf, node, height, Holds, first}
use ebmbtreebench.Tree.Count.{leaf_count, one_if_self}
use ebmbtreebench.Lookup.Sound.{first_count}
use ebmbtreebench.Walk.Down.{untag-leaf, untag-node, node_tag, leaf_tag}
use ebmbtreebench.Bytes.{Bytes, get_bit, string_equal_bits}
use ebmbtreebench.Blocks.{is_zero}
use ebmbtreebench.Blocks.Lookup.{walk_left-first, zero_of}
use ebmbtreebench.Strings.{ebst_lookup_from}
use ebmbtreebench.Strings.Same.{
  SameString, IsString, SameString-sym, SameString-trans, IsStringRadix, dups-SameString, Reaches,
  string_bits, end_after, below_node,
}
use mathlib.Core.Path.{subst}
use ebmbtreebench.Bytes.Check.{AllEqual}
use ebmbtreebench.Bytes.Strings.{EndTogether, DifferAt, string_equal_bits-StringBits}
use ebmbtreebench.Tree.Valid.{ℕ-cases}
use ebmbtreebench.Bytes.Byte.{equal_bytes, bit_one}

-- What the C library promises of `strcmp`, for strings: it gives 0 exactly where they are equal.
abbrev pub IsStrcmp : (Bytes → Bytes → Bit) → ℕ → Type 0
IsStrcmp strcmp room =
    (a b : Bytes) → IsString room a → IsString room b → (strcmp a b ≡ pos 0) ↔ SameString a b

-- The result is there: NULL where no leaf has the string, and else a leaf with the string.
pub record StringFound (key : Ptr → Bytes) (x : Bytes) (t : Tree) (result : Option Ptr)
    : Type 0 where
  pub found : Ptr
  pub runs : result ≡ some found
  pub right :
      ((found ≡ null) × ((y : Ptr) → 0 < leaf_count y t → ¬ SameString (key y) x))
      ⊎ (SameString (key found) x × (0 < leaf_count found t))

module _ (strcmp : Bytes → Bytes → Bit) (room : ℕ) (right : IsStrcmp strcmp room)
    (key : Ptr → Bytes) (bytes : (y : Ptr) (i : ℕ) → key y i < 256)
    (strings : (y : Ptr) → IsString room (key y)) (x : Bytes) (bytes_x : (i : ℕ) → x i < 256)
    (string_x : IsString room x) (g : ℕ) (fuel_g : room ≤ g) (tag : ℕ) (m : Mem) where
  abbrev Matches : Ptr → Type 0
  Matches y = SameString (key y) x

  abbrev Found : Tree → Option Ptr → Type 0
  Found t r = StringFound key x t r

  absent_null : (t : Tree) → ((y : Ptr) → 0 < leaf_count y t → ¬ Matches y) → Found t (some null)
  absent_null t h = record { found = null; runs = refl; right = inl (refl, h) }

  at_match : (t : Tree) (y : Ptr) → Matches y → 0 < leaf_count y t → Found t (some y)
  at_match t y h i = record { found = y; runs = refl; right = inr (h, i) }

  -- What is found in the branch that has all the leaves with the string is so for the node.
  widen-Found :
      (t u : Tree) (r : Option Ptr)
      → ((y : Ptr) → leaf_count y t ≤ leaf_count y u)
      → ((y : Ptr) → 0 < leaf_count y u → Matches y → 0 < leaf_count y t)
      → Found t r
      → Found u r
  widen-Found t u r le all h = record {
    found = h.found;
    runs = h.runs;
    right = elim h.right [
      | inl e ↦ inl (e.0, λ y i s. e.1 y (all y i s) s)
      | inr e ↦ inr (e.0, omega (arith, e.1, le h.found))
    ];
  }

  same_true : (y : Ptr) → is_zero (strcmp (key y) x) ≡ true → Matches y
  same_true y e = (right (key y) x (strings y) string_x).0 (zero_of (strcmp (key y) x) e)

  same_false : (y : Ptr) → is_zero (strcmp (key y) x) ≡ false → ¬ Matches y
  same_false y e s =
      let z = (right (key y) x (strings y) string_x).1 s in absurd (ground (arith, e, ap is_zero z))

  abbrev Finds : ℕ → Tree → ℕ → Bit → Type 0
  Finds f t q bit = Found t (ebst_lookup_from strcmp key x g tag f m (m.b q) bit)

  leaf-Found :
      (f : ℕ) (a : Ptr) (q : ℕ) (bit : Bit) → Holds m q (leaf a) → Finds (suc f) (leaf a) q bit
  unfolding ebst_lookup_from leaf_count
  leaf-Found f a q bit h = rw h.0 (
      rw (leaf_tag h.2, ebst_lookup_from)
        (rw (untag-leaf a) (elim (Bool-cases (is_zero (strcmp (key a) x))) [
          | inl e ↦ rw e (at_match (leaf a) a (same_true a e) (omega (arith, one_if_self a)))
          | inr e ↦ rw e (
              absent_null (leaf a)
                (λ y i s. same_false a e (subst Matches (let z : y ≡ a = ground arith in z) s)))
        ])))

  dups-Found :
      (f : ℕ) (a : Ptr) (n : ℕ) (l r : Tree) (q : ℕ) (bit : Bit)
      → height l < f
      → Holds m q (node a (negsuc n) l r)
      → IsStringRadix key (node a (negsuc n) l r)
      → Finds (suc f) (node a (negsuc n) l r) q bit
  unfolding ebst_lookup_from leaf_count
  dups-Found f a n l r q bit fuel h radix =
      let same = dups-SameString key a n l r radix in
      let i1 = first_count l in
      rw h.0 (
        rw (node_tag h.3, ebst_lookup_from)
          (rw (untag-node a, h.2)
            (rw (untag-node a) (elim (Bool-cases (is_zero (strcmp (key a) x))) [
              | inl e ↦ rw e (
                  rw (walk_left-first m f l (a + 0) fuel h.4) (
                    at_match (node a (negsuc n) l r) (first l)
                      (SameString-trans (key (first l)) (key a) x (same (first l) (omega arith))
                        (same_true a e))
                      (omega arith)))
              | inr e ↦ rw e (
                  absent_null (node a (negsuc n) l r) (λ y i s. same_false a e (
                    SameString-trans (key a) (key y) x (SameString-sym (key y) (key a) (same y i))
                      s)))
            ]))))

  -- What is known of the leaves where the comparison has come to `bit`.
  abbrev IsShared : Bit → Tree → Type 0
  IsShared (pos b) t = (y : Ptr) → 0 < leaf_count y t → AllEqual x (key y) 0 b × Reaches (key y) b
  IsShared (negsuc k) t = Unit {0}

  module _ (f : ℕ) (a : Ptr) (n : ℕ) (l r : Tree) (radix : IsStringRadix key (node a (pos n) l r))
      (left : (bit : Bit) → IsShared bit l → Finds f l (a + 0) bit)
      (rght : (bit : Bit) → IsShared bit r → Finds f r (a + 1) bit) where
    abbrev here : Tree
    here = node a (pos n) l r

    -- A leaf with the string has its bit at the node.
    side_bit : (y : Ptr) → 0 < leaf_count y here → Matches y → get_bit (key y) n ≡ get_bit x n
    side_bit y i s = string_bits (key y) x n s (below_node key a n l r radix y i).1 n (omega arith)

    go_below :
        (bit : Bit)
        → IsShared bit l
        → IsShared bit r
        → Found here (ebst_lookup_from strcmp key x g tag f m (m.b (a + get_bit x n)) bit)
    unfolding leaf_count
    go_below bit sl sr = elim (ℕ-cases (get_bit x n)) [
      | inl z ↦ rw z (
          widen-Found l here (ebst_lookup_from strcmp key x g tag f m (m.b (a + 0)) bit)
            (λ y. omega arith)
            (λ y i s. elim (ℕ-cases (leaf_count y l)) [
              | inr p ↦ p
              | inl absent ↦ absurd (omega (arith, side_bit y i s, (radix.1 y (omega arith)).1, z))
            ])
            (left bit sl))
      | inr p ↦
          let o = bit_one x n p in
          rw o (
            widen-Found r here (ebst_lookup_from strcmp key x g tag f m (m.b (a + 1)) bit)
              (λ y. omega arith)
              (λ y i s. elim (ℕ-cases (leaf_count y r)) [
                | inr q ↦ q
                | inl absent ↦
                    absurd (omega (arith, side_bit y i s, (radix.0 y (omega arith)).1, o))
              ])
              (rght bit sr))
    ]

    module _ (b : ℕ) (shared : IsShared (pos b) here) where
      before_start : (j : ℕ) → j < b / 8 → x j ≡ key a j
      unfolding leaf_count
      before_start j lt =
          equal_bytes x (key a) (b / 8) bytes_x (bytes a)
            (λ i lo hi. (shared a radix.2).0 i lo (omega arith)) j lt

      together : {r : Option Bit} → EndTogether x (key a) (b / 8) r → Matches a
      together t = record {
        end = t.end;
        zero_end = t.zero_b;
        same = λ j le. elim (Bool-cases (ltb j (b / 8))) [
          | inl lt ↦ sym (before_start j (ground (arith, lt)))
          | inr ge ↦ sym (t.same j (ground (arith, ge)) le)
        ];
      }

      apart-Found :
          {r : Option Bit}
          → (d : DifferAt x (key a) (b / 8) r) → d.bits < n
          → Found here (some null)
      apart-Found d lt = absent_null here (λ y i s. d.differs (
          sym (string_bits (key y) x n s (below_node key a n l r radix y i).1 d.bits (omega arith))
          ∙ (below_node key a n l r radix y i).0 d.bits (omega arith) lt))

      -- The bits before the node's are those of all the leaves.
      up_to :
          {r : Option Bit}
          → (d : DifferAt x (key a) (b / 8) r) → n ≤ d.bits
          → (y : Ptr) → 0 < leaf_count y here
          → AllEqual x (key y) 0 n × Reaches (key y) n
      up_to d le y i =
          let (same, reaches) = below_node key a n l r radix y i in
          (
            (λ j lo hi. elim (Bool-cases (ltb j b)) [
              | inl lt ↦ (shared y i).0 j lo (ground (arith, lt))
              | inr ge ↦
                  let past : b ≤ j = ground (arith, ge) in
                  d.same j (omega arith) (omega arith) ∙ sym (same j lo hi)
            ]),
            reaches,
          )

      compared_node :
          (q : ℕ)
          → Holds m q here
          → EndTogether x (key a) (b / 8) (string_equal_bits g x (key a) b)
            ⊎ DifferAt x (key a) (b / 8) (string_equal_bits g x (key a) b)
          → Finds (suc f) here q (pos b)
      unfolding ebst_lookup_from leaf_count get_bit
      compared_node q h (inl t) = rw h.0 (
          rw (node_tag h.3, ebst_lookup_from)
            (rw (untag-node a, h.2)
              (rw (untag-node a, t.runs)
                ((elim (Bool-cases (tag == 0)) [
                  | inl e ↦ rw e (rw (untag-node a) (go_below (negsuc 0) tt tt))
                  | inr e ↦ rw e (rw (untag-node a) (at_match here a (together t) radix.2))
                ])))))
      compared_node q h (inr d) = rw h.0 (
          rw (node_tag h.3, ebst_lookup_from)
            (rw (untag-node a, h.2)
              (rw (untag-node a, d.runs)
                (elim (Bool-cases (ltb d.bits n)) [
                  | inl lt ↦ rw lt (apart-Found d (ground (arith, lt)))
                  | inr ge ↦
                      let le : n ≤ d.bits = ground (arith, ge) in
                      rw ge (
                        rw (untag-node a) (
                          go_below (pos n) (λ y i. up_to d le y (omega arith))
                            (λ y i. up_to d le y (omega arith))))
                ]))))

    node-Found : (q : ℕ) (bit : Bit) → Holds m q here → IsShared bit here → Finds (suc f) here q bit
    unfolding ebst_lookup_from get_bit leaf_count
    node-Found q (negsuc k) h shared = rw h.0 (
        rw (node_tag h.3, ebst_lookup_from)
          (rw (untag-node a, h.2) (rw (untag-node a) (go_below (negsuc k) tt tt))))
    node-Found q (pos b) h shared =
        let s = strings a in
        let after = end_after (key a) b s.end (shared a radix.2).1 s.zero_end in
        let within = s.within in
        compared_node b shared q h (
          string_equal_bits-StringBits x (key a) bytes_x (bytes a) g b s.end after (omega arith)
            s.zero_end)

  pub ebst_lookup_from-Found :
      (f : ℕ) (t : Tree) (q : ℕ) (bit : Bit)
      → height t < f
      → Holds m q t
      → IsStringRadix key t
      → IsShared bit t
      → Finds f t q bit
  unfolding height
  ebst_lookup_from-Found zero t q bit fuel h radix shared = absurd (omega arith)
  ebst_lookup_from-Found (suc f) (leaf a) q bit fuel h radix shared = leaf-Found f a q bit h
  ebst_lookup_from-Found (suc f) (node a (negsuc n) l r) q bit fuel h radix shared =
      dups-Found f a n l r q bit (omega arith) h radix
  ebst_lookup_from-Found (suc f) (node a (pos n) l r) q bit fuel h radix shared =
      node-Found f a n l r radix
        (λ bit' s. ebst_lookup_from-Found f l (a + 0) bit' (omega arith) h.4 radix.3 s)
        (λ bit' s. ebst_lookup_from-Found f r (a + 1) bit' (omega arith) h.5 radix.4 s) q bit h
        shared
