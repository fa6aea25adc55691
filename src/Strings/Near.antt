-- ===== src/Strings/Near.antt =====
-- What the comparisons of a descent say of the leaves below a slot.
use ebmbtreebench.Prelude.{
  ℕ, Option, some, ◌≡◌, ◌<◌, ◌≤◌, ◌+◌, ◌/◌, ltb, arith, inl, inr, Bool-cases, ◌∙◌, ◌≢◌, sym, ◌-◌,
}
use ebmbtreebench.Memory.{Ptr, Bit, pos, negsuc}
use ebmbtreebench.Tree.{Tree, leaf, node, Ctx, plug, root_of, slot, link, first}
use ebmbtreebench.Tree.Count.{leaf_count}
use ebmbtreebench.Bytes.{Bytes, string_equal_bits, get_bit}
use ebmbtreebench.Bytes.Byte.{equal_bytes}
use ebmbtreebench.Bytes.Check.{AllEqual}
use ebmbtreebench.Bytes.Strings.{string_equal_bits-StringBits, EndTogether, DifferAt, StringBits}
use ebmbtreebench.Scalar.Descent.{top_of}
use ebmbtreebench.Order.{FitsIn}
use ebmbtreebench.Strings.{StringPlace}
use ebmbtreebench.Strings.Same.{
  SameString, IsString, Reaches, StringLies, end_after, IsStringRadix, string_bits, Reaches-less,
  below_node, Reaches-same, Reaches-equal, SameString-sym,
}
use ebmbtreebench.Strings.Grow.{StringPart, Agrees}
use ebmbtreebench.Tree.Valid.{ℕ-cases}
use ebmbtreebench.Lookup.Sound.{first_count}
use mathlib.Core.Path.{subst}

-- A tree whose leaves are all beside each other: a leaf, or a tree of duplicates.
abbrev pub IsLevel : Tree → Type 0
IsLevel (leaf a) = Unit {0}
IsLevel (node a (negsuc n) l r) = Unit {0}
IsLevel (node a (pos n) l r) = ⊥

-- Where the new string parts from all the leaves of `t`, or is equal to all of them.
abbrev pub StringEnds : (Ptr → Bytes) → Ptr → Tree → Bit → Type 0
StringEnds key new t (pos b) = StringPart key new (top_of t) t b
StringEnds key new t (negsuc k) = Agrees key new t

-- The place `p` is the slot of a subtree of the tree `t0` below `root`.
pub record StringSpot (key : Ptr → Bytes) (new root : Ptr) (t0 : Tree) (p : StringPlace)
    : Type 0 where
  pub at : Ctx
  pub sub : Tree
  pub whole : plug at sub ≡ t0
  pub base : root_of at ≡ root
  pub cell : p.at.root + p.at.side ≡ slot at
  pub link_is : p.at.troot ≡ link sub
  pub old_is : p.at.old ≡ top_of sub
  pub fits : FitsIn (StringLies key) new at
  pub ends : StringEnds key new sub p.bit

pub record StringDescends (key : Ptr → Bytes) (new root : Ptr) (t0 : Tree)
    (result : Option StringPlace) : Type 0 where
  pub place : StringPlace
  pub runs : result ≡ some place
  pub spot : StringSpot key new root t0 place

-- What is known of some leaf where the comparison has come to `bit`: it agrees with the new string
-- before the bit, or is equal to it.
abbrev pub IsNear : (Ptr → Bytes) → Ptr → Bit → Ptr → Type 0
IsNear key new (pos b) y = AllEqual (key new) (key y) 0 b × Reaches (key y) b
IsNear key new (negsuc k) y = SameString (key new) (key y)

pub record Near (key : Ptr → Bytes) (new : Ptr) (bit : Bit) (t : Tree) : Type 0 where
  pub guide : Ptr
  pub inside : 0 < leaf_count guide t
  pub near : IsNear key new bit guide

-- The comparison has not stopped before the bit `n`.
abbrev pub IsPast : ℕ → Bit → Type 0
IsPast n (pos b) = n ≤ b
IsPast n (negsuc k) = Unit {0}

module _ (key : Ptr → Bytes) (bytes : (y : Ptr) (i : ℕ) → key y i < 256) (room : ℕ)
    (strings : (y : Ptr) → IsString room (key y)) (g : ℕ) (fuel_g : room ≤ g) (new : Ptr) where
  -- The comparison with a string that reaches its start.
  pub compared :
      (a : Ptr) (b : ℕ)
      → Reaches (key a) b
      → StringBits (key new) (key a) (b / 8) (string_equal_bits g (key new) (key a) b)
  compared a b reach =
      let s = strings a in
      let after = end_after (key a) b s.end reach s.zero_end in
      let within = s.within in
      string_equal_bits-StringBits (key new) (key a) (bytes new) (bytes a) g b s.end after
        (omega arith) s.zero_end

  before_start :
      (a : Ptr) (b : ℕ) → AllEqual (key new) (key a) 0 b → (j : ℕ) → j < b / 8 → key new j ≡ key a j
  before_start a b same j lt =
      equal_bytes (key new) (key a) (b / 8) (bytes new) (bytes a)
        (λ i lo hi. same i lo (omega arith)) j lt

  pub together :
      (a : Ptr) (b : ℕ) {r : Option Bit}
      → AllEqual (key new) (key a) 0 b
      → EndTogether (key new) (key a) (b / 8) r
      → SameString (key new) (key a)
  together a b same t = record {
    end = t.end;
    zero_end = t.zero_a;
    same = λ j le. elim (Bool-cases (ltb j (b / 8))) [
      | inl lt ↦ before_start a b same j (ground (arith, lt))
      | inr ge ↦ t.same j (ground (arith, ge)) le
    ];
  }

  pub parted :
      (a : Ptr) (b : ℕ) {r : Option Bit}
      → AllEqual (key new) (key a) 0 b
      → Reaches (key a) b
      → (d : DifferAt (key new) (key a) (b / 8) r)
      → AllEqual (key new) (key a) 0 d.bits × Reaches (key a) d.bits
  parted a b same reach d = (
    (λ i lo hi. elim (Bool-cases (ltb i b)) [
      | inl lt ↦ same i lo (ground (arith, lt))
      | inr ge ↦ d.same i (let le : b ≤ i = ground (arith, ge) in omega arith) hi
    ]),
    (λ j lt. elim (Bool-cases (ltb j (b / 8))) [
      | inl l ↦ reach j (ground (arith, l))
      | inr ge ↦ (d.earlier j (ground (arith, ge)) lt).1
    ]),
  )

  -- What is near a tree of equal strings is near each of them.
  pub level_bits :
      (a : Ptr) (t : Tree) (b : ℕ)
      → ((y : Ptr) → 0 < leaf_count y t → SameString (key y) (key a))
      → Near key new (pos b) t
      → AllEqual (key new) (key a) 0 b × Reaches (key a) b
  level_bits a t b common s =
      let (same, reach) = s.near in
      let alike = common s.guide s.inside in
      (
        (λ j lo hi. same j lo hi ∙ string_bits (key s.guide) (key a) b alike reach j (omega arith)),
        Reaches-same (key s.guide) (key a) b alike reach,
      )

  pub level-StringPart :
      (a : Ptr) (t : Tree) (b n : ℕ)
      → ((y : Ptr) → 0 < leaf_count y t → SameString (key y) (key a))
      → AllEqual (key new) (key a) 0 n × Reaches (key a) n
      → get_bit (key new) n ≢ get_bit (key a) n
      → StringPart key new a t n
  level-StringPart a t b n common (same, reach) differs =
      let reach_y = λ (y : Ptr) (i : 0 < leaf_count y t).
        Reaches-same (key a) (key y) n (SameString-sym (key y) (key a) (common y i)) reach in
      record {
        same = λ y i j lo hi.
            string_bits (key y) (key a) n (common y i) (reach_y y i) j (omega arith)
            ∙ sym (same j lo hi);
        at = λ y i. string_bits (key y) (key a) n (common y i) (reach_y y i) n (omega arith);
        differs = differs;
        reaches = reach_y;
        own =
            Reaches-equal (key a) (key new) n (bytes a) (bytes new) (λ j lo hi. sym (same j lo hi))
              reach;
      }

  -- A node whose bit is after the first one that differs.
  pub node-StringPart :
      (a : Ptr) (n : ℕ) (l r : Tree) (b : ℕ)
      → IsStringRadix key (node a (pos n) l r)
      → b < n
      → AllEqual (key new) (key a) 0 b × Reaches (key a) b
      → get_bit (key new) b ≢ get_bit (key a) b
      → StringPart key new a (node a (pos n) l r) b
  node-StringPart a n l r b radix lt (same, reach) differs = record {
    same =
        λ y i j lo hi. (below_node key a n l r radix y i).0 j lo (omega arith) ∙ sym (same j lo hi);
    at = λ y i. (below_node key a n l r radix y i).0 b (omega arith) lt;
    differs = differs;
    reaches = λ y i. Reaches-less (key y) n b (omega arith) (below_node key a n l r radix y i).1;
    own =
        Reaches-equal (key a) (key new) b (bytes a) (bytes new) (λ j lo hi. sym (same j lo hi))
          reach;
  }

  module _ (a : Ptr) (n : ℕ) (l r : Tree) (radix : IsStringRadix key (node a (pos n) l r)) where
    abbrev here : Tree
    here = node a (pos n) l r

    guide_bits :
        (bit : Bit) (s : Near key new bit here)
        → IsPast n bit
        → AllEqual (key new) (key s.guide) 0 n × Reaches (key new) n
    guide_bits (pos b) s past =
        let (same, reach) = s.near in
        let less = Reaches-less (key s.guide) b n past reach in
        let same_n : AllEqual (key new) (key s.guide) 0 n = λ j lo hi. same j lo (omega arith) in
        (
          same_n,
          Reaches-equal (key s.guide) (key new) n (bytes s.guide) (bytes new)
              (λ j lo hi. sym (same_n j lo hi)) less,
        )
    guide_bits (negsuc k) s past =
        let reach = (below_node key a n l r radix s.guide s.inside).1 in
        let back = SameString-sym (key new) (key s.guide) s.near in
        (
          (λ j lo hi. sym (string_bits (key s.guide) (key new) n back reach j (omega arith))),
          Reaches-same (key s.guide) (key new) n back reach,
        )

    -- The new string belongs in the branch that its bit picks.
    pub new_fits :
        (bit : Bit)
        → Near key new bit here
        → IsPast n bit
        → (side : ℕ) → get_bit (key new) n ≡ side
        → StringLies key a (pos n) side new
    new_fits bit s past side at =
        let (same, reach) = guide_bits bit s past in
        let (up, r') = below_node key a n l r radix s.guide s.inside in
        ((λ j lo hi. same j lo hi ∙ up j lo hi), at, reach)

    -- That branch has a leaf that is near.
    guided :
        (u : Tree) (side : ℕ) (bit : Bit) (s : Near key new bit here)
        → IsPast n bit
        → get_bit (key new) n ≡ side
        → ((y : Ptr) → 0 < leaf_count y u → StringLies key a (pos n) side y)
        → (get_bit (key s.guide) n ≡ side → 0 < leaf_count s.guide u)
        → Near key new bit u
    guided u side (negsuc k) s past at lies inside =
        let reach = (below_node key a n l r radix s.guide s.inside).1 in
        let back = SameString-sym (key new) (key s.guide) s.near in
        record {
          guide = s.guide;
          inside = inside (string_bits (key s.guide) (key new) n back reach n (omega arith) ∙ at);
          near = s.near;
        }
    guided u side (pos b) s past at lies inside = elim (ℕ-cases (b - n)) [
      | inr more ↦ record {
        guide = s.guide;
        inside = inside (sym (s.near.0 n (omega arith) (omega arith)) ∙ at);
        near = s.near;
      }
      | inl none_left ↦
          let here_bit : b ≡ n = omega arith in
          let y = first u in
          let (up, at_y, reach) = lies y (first_count u) in
          let (same, at_a, r') = new_fits (pos b) s past side at in
          record {
            guide = y;
            inside = first_count u;
            near = (
              (λ j lo hi. same j lo (omega arith) ∙ sym (up j lo (omega arith))),
              subst (Reaches (key y)) (sym here_bit) reach,
            );
          }
    ]

    pub guided_left :
        (bit : Bit)
        → Near key new bit here
        → IsPast n bit
        → get_bit (key new) n ≡ 0
        → Near key new bit l
    unfolding leaf_count
    guided_left bit s past at = guided l 0 bit s past at radix.0 (λ e.
        elim (ℕ-cases (leaf_count s.guide l)) [
          | inr p ↦ p
          | inl z ↦ let i = s.inside in absurd (omega (arith, e, (radix.1 s.guide (omega arith)).1))
        ])

    pub guided_rght :
        (bit : Bit)
        → Near key new bit here
        → IsPast n bit
        → get_bit (key new) n ≡ 1
        → Near key new bit r
    unfolding leaf_count
    guided_rght bit s past at = guided r 1 bit s past at radix.1 (λ e.
        elim (ℕ-cases (leaf_count s.guide r)) [
          | inr p ↦ p
          | inl z ↦ let i = s.inside in absurd (omega (arith, e, (radix.0 s.guide (omega arith)).1))
        ])
