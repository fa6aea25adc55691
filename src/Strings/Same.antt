-- ===== src/Strings/Same.antt =====
-- Strings that are equal, and the order of a tree of strings.
use ebmbtreebench.Prelude.{ℕ, ◌≡◌, ◌<◌, ◌≤◌, ◌/◌, leb, arith, refl, sym, ◌∙◌, inl, inr, Bool-cases}
use ebmbtreebench.Memory.{Ptr, pos, negsuc}
use ebmbtreebench.Tree.{Tree, node}
use ebmbtreebench.Tree.Count.{leaf_count}
use ebmbtreebench.Tree.Valid.{ℕ-cases}
use ebmbtreebench.Bytes.{Bytes, get_bit}
use ebmbtreebench.Bytes.Byte.{get_bit-same, equal_bytes}
use ebmbtreebench.Bytes.Check.{AllEqual}
use ebmbtreebench.Order.{IsMovable, Branches, IsPlaced}

-- The strings are equal up to an end that they share.
pub record SameString (a b : Bytes) : Type 0 where
  pub end : ℕ
  pub zero_end : a end ≡ 0
  pub same : (j : ℕ) → j ≤ end → a j ≡ b j

-- The string ends within the first `room` bytes.
pub record IsString (room : ℕ) (a : Bytes) : Type 0 where
  pub end : ℕ
  pub within : end < room
  pub zero_end : a end ≡ 0

-- The string does not end before the byte that has the bit `n`.
abbrev pub Reaches : Bytes → ℕ → Type 0
Reaches a n = (j : ℕ) → j < n / 8 → 0 < a j

pub SameString-self : (a : Bytes) (room : ℕ) → IsString room a → SameString a a
SameString-self a room h = record { end = h.end; zero_end = h.zero_end; same = λ j le. refl }

pub SameString-sym : (a b : Bytes) → SameString a b → SameString b a
SameString-sym a b h = record {
  end = h.end;
  zero_end = sym (h.same h.end (omega arith)) ∙ h.zero_end;
  same = λ j le. sym (h.same j le);
}

pub SameString-trans : (a b c : Bytes) → SameString a b → SameString b c → SameString a c
SameString-trans a b c h k = elim (Bool-cases (leb h.end k.end)) [
  | inl e ↦
      let le : h.end ≤ k.end = ground (arith, e) in
      record {
        end = h.end;
        zero_end = h.zero_end;
        same = λ j l. h.same j l ∙ k.same j (omega arith);
      }
  | inr e ↦
      let lt : k.end < h.end = ground (arith, e) in
      record {
        end = k.end;
        zero_end = h.same k.end (omega arith) ∙ k.zero_end;
        same = λ j l. h.same j (omega arith) ∙ k.same j l;
      }
]

-- A string that reaches a bit has its end in that byte or after it.
pub end_after : (a : Bytes) (n e : ℕ) → Reaches a n → a e ≡ 0 → n / 8 ≤ e
end_after a n e r z = elim (Bool-cases (leb (n / 8) e)) [
  | inl le ↦ ground (arith, le)
  | inr gt ↦ absurd (omega (arith, z, r e (ground (arith, gt))))
]

-- Equal strings have equal bits as far as they reach.
pub string_bits :
    (a b : Bytes) (n : ℕ)
    → SameString a b
    → Reaches a n
    → (i : ℕ) → i ≤ n
    → get_bit a i ≡ get_bit b i
string_bits a b n h r i le =
    get_bit-same a b i (h.same (i / 8) (omega (arith, end_after a n h.end r h.zero_end)))

pub Reaches-same : (a b : Bytes) (n : ℕ) → SameString a b → Reaches a n → Reaches b n
Reaches-same a b n h r j lt =
    omega (arith, r j lt, h.same j (omega (arith, end_after a n h.end r h.zero_end)))

pub Reaches-less : (a : Bytes) (n k : ℕ) → k ≤ n → Reaches a n → Reaches a k
Reaches-less a n k le r j lt = r j (omega arith)

-- Strings with equal bits before one reach it together.
pub Reaches-equal :
    (a b : Bytes) (n : ℕ)
    → ((i : ℕ) → a i < 256)
    → ((i : ℕ) → b i < 256)
    → AllEqual a b 0 n
    → Reaches a n
    → Reaches b n
Reaches-equal a b n bytes_a bytes_b same r j lt = omega (
  arith,
  r j lt,
  equal_bytes a b (n / 8) bytes_a bytes_b (λ i lo hi. same i lo (omega arith)) j lt,
)

-- `y` belongs in the branch `side` of a node with the string of `a` and the bit `k`: it agrees with
-- `a` before the bit, which is not past its end, and the bit is `side`; or, in a tree of duplicates,
-- it is the string of `a`.
abbrev pub StringLies : (Ptr → Bytes) → Branches
StringLies key a (pos n) side y =
    AllEqual (key y) (key a) 0 n × (get_bit (key y) n ≡ side) × Reaches (key y) n
StringLies key a (negsuc n) side y = SameString (key y) (key a)

abbrev pub IsStringRadix : (Ptr → Bytes) → Tree → Type 0
IsStringRadix key t = IsPlaced (StringLies key) t

module _ (key : Ptr → Bytes) (a : Ptr) (n : ℕ) (l r : Tree) where
  pub dups-SameString :
      IsStringRadix key (node a (negsuc n) l r)
      → (y : Ptr) → 0 < leaf_count y (node a (negsuc n) l r)
      → SameString (key y) (key a)
  unfolding leaf_count
  dups-SameString g y i = elim (ℕ-cases (leaf_count y l)) [
    | inl z ↦ g.1 y (omega arith)
    | inr p ↦ g.0 y p
  ]

  pub below_node :
      IsStringRadix key (node a (pos n) l r)
      → (y : Ptr) → 0 < leaf_count y (node a (pos n) l r)
      → AllEqual (key y) (key a) 0 n × Reaches (key y) n
  unfolding leaf_count
  below_node g y i = elim (ℕ-cases (leaf_count y l)) [
    | inl z ↦ let h = g.1 y (omega arith) in (h.0, h.2)
    | inr p ↦ let h = g.0 y p in (h.0, h.2)
  ]

-- The structure of a node may be changed for another one below it.
pub StringLies-IsMovable : (key : Ptr → Bytes) → IsMovable (StringLies key)
StringLies-IsMovable key a b (negsuc n) y side side' i h h' =
    SameString-trans (key y) (key a) (key b) h (SameString-sym (key b) (key a) h')
StringLies-IsMovable key a b (pos n) y side side' i (same, at, reach) (same', at', reach') =
    ((λ j lo hi. same j lo hi ∙ sym (same' j lo hi)), at, reach)
