-- ===== src/Prefixes/Descent.antt =====
-- The descent of `__ebmb_insert_prefix`, and what follows it at the slot where it ends.
use ebmbtreebench.Prelude.{
  ℕ, zero, suc, Option, none, some, ◌≡◌, ◌≢◌, ◌⊎◌, ◌<◌, ◌≤◌, ◌+◌, ◌-◌, ◌*◌, ◌/◌, ◌%◌, arith, refl,
  sym, ◌∙◌, inl, inr, ap,
}
use ebmbtreebench.Memory.{Ptr, Mem, pos, negsuc, branch}
use ebmbtreebench.Tree.{
  Tree, leaf, node, Ctx, in_left, in_rght, slot, plug, height, root_of, Holds, first,
}
use ebmbtreebench.Tree.Count.{leaf_count}
use ebmbtreebench.Tree.Valid.{Valid, ℕ-cases}
use ebmbtreebench.Insert.Grown.{CanInsert}
use ebmbtreebench.Lookup.Sound.{first_count}
use ebmbtreebench.Order.{FitsIn, IsPlaced-sub}
use ebmbtreebench.Bytes.{Bytes, get_bit}
use ebmbtreebench.Bytes.Byte.{bit_one}
use ebmbtreebench.Bytes.Check.{AllEqual}
use ebmbtreebench.Scalar.Between.{place_of}
use ebmbtreebench.Walk.Down.{node_tag, leaf_tag, untag-node, untag-leaf}
use ebmbtreebench.Prefixes.Insert.{
  PrefixPlace, PrefixStep, stop, walk_down, prefix_step, prefix_attach, prefix_descend,
}
use ebmbtreebench.Prefixes.Order.{
  PrefixSide, ends_here, goes_on, parts, PrefixLies, IsPrefixRadix, AllHave, one_prefix,
  node_common, node_longer,
}
use ebmbtreebench.Prefixes.Attach.{covered-Ends, parted-Ends}
use ebmbtreebench.Prefixes.Put.{PrefixEnds}
use ebmbtreebench.Prefixes.Step.{
  StepIs, covered, parted, same_length, longer, turned, prefix_step-StepIs,
}
use mathlib.Core.Path.{subst}
use ebmbtreebench.Prefixes.Stop.{fits_short, compared, joined, stop_ends}

module _ (key : Ptr → Bytes) (bytes : (y : Ptr) (i : ℕ) → key y i < 256) (pfx : Ptr → ℕ) (g len : ℕ)
    (room : len * 8 + 8 ≤ g * 8) (within : (y : Ptr) → pfx y ≤ len * 8) (short : len ≤ 2047)
    (f tag : ℕ) (m : Mem) (new : Ptr) where
  abbrev after_descent : Option PrefixPlace → Option (Ptr × Mem)
  after_descent r = elim r [ none ↦ none | some p ↦ prefix_attach key pfx f tag p new m ]

  abbrev Ends : Ctx → Tree → Option (Ptr × Mem) → Type 0
  Ends =
      PrefixEnds key pfx f tag m new (fits_short key bytes pfx g len room within short f tag m new)

  -- All leaves have the bits found equal; or, on the left of a cover node with its length, they have
  -- the new prefix.
  abbrev Ahead : Tree → ℕ → Type 0
  Ahead t bit =
      ((y : Ptr) → 0 < leaf_count y t → AllEqual (key y) (key new) 0 bit) ⊎ AllHave key pfx new t

  abbrev onward : ℕ → Ptr → PrefixStep → Option PrefixPlace
  onward fd old s = elim s [
    | stop p ↦ some p
    | walk_down side' bit' ↦
        prefix_descend key pfx g new (pfx new) fd m old side' (branch m old side') bit'
  ]

  abbrev EndsFrom : ℕ → Ctx → Tree → Ptr → ℕ → Ptr → ℕ → Type 0
  EndsFrom fd c t root side troot bit =
      Ends c t (after_descent (prefix_descend key pfx g new (pfx new) fd m root side troot bit))

  -- What a side says of a prefix on it.
  short_side : (n : ℕ) (y : Ptr) → n % 2 ≡ 0 → PrefixSide key pfx n 0 y → pfx y ≡ n / 2
  short_side n y even (ends_here z s e) = e
  short_side n y even (goes_on z s lt) = absurd (omega arith)
  short_side n y even (parts o lt e) = absurd (omega arith)

  turned_side :
      (n side : ℕ) (y : Ptr)
      → n % 2 ≡ 1
      → PrefixSide key pfx n side y
      → get_bit (key y) (n / 2) ≡ side
  turned_side n side y odd (ends_here z s e) = absurd (omega arith)
  turned_side n side y odd (goes_on z s lt) = absurd (omega arith)
  turned_side n side y odd (parts o lt e) = e

  module _ (fd : ℕ) (c : Ctx) (a : Ptr) (n : ℕ) (l r : Tree) (root : Ptr) (side : ℕ)
      (cell : root + side ≡ slot c) (fuel : height (plug c (node a (pos n) l r)) < f)
      (v : Valid m (root_of c) (some (plug c (node a (pos n) l r))))
      (fresh : CanInsert new (root_of c) (some (plug c (node a (pos n) l r))))
      (radix : IsPrefixRadix key pfx (plug c (node a (pos n) l r)))
      (fits : FitsIn (PrefixLies key pfx) new c)
      (on_left : (bit : ℕ)
        → FitsIn (PrefixLies key pfx) new (in_left a (pos n) r c)
        → Ahead l bit
        → EndsFrom fd c (node a (pos n) l r) a 0 (branch m a 0) bit)
      (on_rght : (bit : ℕ)
        → FitsIn (PrefixLies key pfx) new (in_rght a (pos n) l c)
        → Ahead r bit
        → EndsFrom fd c (node a (pos n) l r) a 1 (branch m a 1) bit)
      (same : ℕ) (bits : AllEqual (key new) (key a) 0 same)
      (ends : (n / 2 ≤ same) ⊎ (get_bit (key new) same ≢ get_bit (key a) same)) where
    abbrev here : Tree
    here = node a (pos n) l r

    sub_radix : IsPrefixRadix key pfx here
    sub_radix = IsPlaced-sub (PrefixLies key pfx) c here radix

    shared :
        (k : ℕ)
        → k ≤ n / 2
        → k ≤ same
        → (y : Ptr) → AllEqual (key y) (key a) 0 (n / 2)
        → AllEqual (key y) (key new) 0 k
    shared k le le' y up j lo hi = up j lo (omega arith) ∙ sym (bits j lo (omega arith))

    turned_ahead :
        (s : ℕ)
        → n % 2 ≡ 1
        → n / 2 ≤ same
        → get_bit (key new) (n / 2) ≡ s
        → (y : Ptr) → PrefixLies key pfx a (pos n) s y
        → AllEqual (key y) (key new) 0 (n / 2 + 1)
    turned_ahead s odd le at y (up, on_side) j lo hi = elim (ℕ-cases (n / 2 - j)) [
      | inr before ↦ shared (n / 2) (omega arith) le y up j lo (omega arith)
      | inl end ↦
          subst (λ k. get_bit (key y) k ≡ get_bit (key new) k)
            (let e : n / 2 ≡ j = omega arith in e) (turned_side n s y odd on_side ∙ sym at)
    ]

    step_ends :
        (s : PrefixStep)
        → StepIs key pfx new (place_of root side here) n same s
        → Ends c here (after_descent (onward fd a s))
    step_ends _ (covered le lt) =
        covered-Ends key pfx f tag m new
          (fits_short key bytes pfx g len room within short f tag m new) root side c here cell fuel
          v fresh radix fits
          (λ y i. (
            shared (pfx new) (omega arith) le y (node_common key pfx a n l r sub_radix y i).0,
            node_longer key pfx a n (pfx new) l r sub_radix lt y i,
          ))
    step_ends _ (parted lt lt') =
        parted-Ends key pfx f tag m new
          (fits_short key bytes pfx g len room within short f tag m new) root side c here cell fuel
          v fresh radix fits same lt' (elim ends [ inl past ↦ absurd (omega arith) | inr d ↦ d ])
          (λ y i.
            let h = node_common key pfx a n l r sub_radix y i in
            (
              shared same (omega arith) (omega arith) y h.0,
              (let le = h.1 in omega arith),
              h.0 same (omega arith) lt,
            ))
    step_ends _ (same_length even e le) =
        on_left (same * 2 + 1) (((λ j lo hi. bits j lo (omega arith)), ends_here even refl e), fits)
          (inr (λ y i.
            let h = sub_radix.0 y i in
            (short_side n y even h.1 ∙ sym e, shared (pfx new) (omega arith) (omega arith) y h.0)))
    step_ends _ (longer even lt le) =
        on_rght (n / 2) (((λ j lo hi. bits j lo (omega arith)), goes_on even refl lt), fits)
          (inl (λ y i. shared (n / 2) (omega arith) le y (sub_radix.1 y i).0))
    step_ends _ (turned odd lt le) = elim (ℕ-cases (get_bit (key new) (n / 2))) [
      | inl z ↦ rw z (
          on_left (n / 2 + 1) (((λ j lo hi. bits j lo (omega arith)), parts odd lt z), fits)
            (inl (λ y i. turned_ahead 0 odd le z y (sub_radix.0 y i))))
      | inr i ↦
          let one = bit_one (key new) (n / 2) i in
          rw one (
            on_rght (n / 2 + 1) (((λ j lo hi. bits j lo (omega arith)), parts odd lt one), fits)
              (inl (λ y i. turned_ahead 1 odd le one y (sub_radix.1 y i))))
    ]

  leaf_level :
      (a : Ptr) (y : Ptr)
      → 0 < leaf_count y (leaf a)
      → (pfx y ≡ pfx a) × AllEqual (key y) (key a) 0 (pfx a)
  unfolding leaf_count
  leaf_level a y i =
      let e : y ≡ a = ground arith in (ap pfx e, λ j lo hi. ap (λ z. get_bit (key z) j) e)

  dups_level :
      (a : Ptr) (n : ℕ) (l r : Tree)
      → IsPrefixRadix key pfx (node a (negsuc n) l r)
      → (y : Ptr) → 0 < leaf_count y (node a (negsuc n) l r)
      → (pfx y ≡ pfx a) × AllEqual (key y) (key a) 0 (pfx a)
  unfolding leaf_count
  dups_level a n l r h y i = elim (ℕ-cases (leaf_count y l)) [
    | inl z ↦ h.1 y (omega arith)
    | inr p ↦ h.0 y p
  ]

  -- The bit of a node is within the keys.
  node_within :
      (a : Ptr) (n : ℕ) (l r : Tree) → IsPrefixRadix key pfx (node a (pos n) l r) → n / 2 ≤ len * 8
  node_within a n l r h =
      let here = node a (pos n) l r in
      let q = node_common key pfx a n l r h (first here) (first_count here) in
      omega (arith, q.1, within (first here))

  -- Above a node the bits are compared as far as its own.
  node_bits :
      (a : Ptr) (n bit bits : ℕ) (l r : Tree)
      → IsPrefixRadix key pfx (node a (pos n) l r)
      → Ahead (node a (pos n) l r) bit
      → ((i : ℕ) → bit / 8 * 8 ≤ i → i < bits → get_bit (key new) i ≡ get_bit (key a) i)
      → AllEqual (key new) (key a) 0 bits
  unfolding leaf_count
  node_bits a n bit bits l r h (inl ahead) same =
      joined key bytes pfx g len room within short f tag m new a bit bits (ahead a h.2) same
  node_bits a n bit bits l r h (inr have) same = absurd (one_prefix key pfx new a n l r h have)

  pub descend_ends :
      (fd : ℕ) (c : Ctx) (t : Tree) (root : Ptr) (side bit : ℕ)
      → height t < fd
      → Holds m (slot c) t
      → root + side ≡ slot c
      → height (plug c t) < f
      → Valid m (root_of c) (some (plug c t))
      → CanInsert new (root_of c) (some (plug c t))
      → IsPrefixRadix key pfx (plug c t)
      → FitsIn (PrefixLies key pfx) new c
      → Ahead t bit
      → EndsFrom fd c t root side (m.b (slot c)) bit
  unfolding height plug prefix_descend
  descend_ends zero c t root side bit deep h cell fuel v fresh radix fits ahead =
      absurd (omega arith)
  descend_ends (suc fd) c (leaf a) root side bit deep h cell fuel v fresh radix fits ahead =
      rw h.0 (
        rw (leaf_tag h.2, prefix_descend)
          (rw (untag-leaf a) (
            stop_ends key bytes pfx g len room within short f tag m new c (leaf a) root side cell
              fuel v fresh radix fits (leaf_level a) bit ahead)))
  descend_ends (suc fd) c (node a (negsuc n) l r) root side bit deep h cell fuel v fresh radix fits
        ahead =
      let sub = IsPlaced-sub (PrefixLies key pfx) c (node a (negsuc n) l r) radix in
      rw h.0 (
        rw (node_tag h.3, prefix_descend)
          (rw (untag-node a, h.2)
            (rw (untag-node a) (
              stop_ends key bytes pfx g len room within short f tag m new c (node a (negsuc n) l r)
                root side cell fuel v fresh radix fits (dups_level a n l r sub) bit ahead))))
  descend_ends (suc fd) c (node a (pos n) l r) root side bit deep h cell fuel v fresh radix fits
        ahead =
      let here = node a (pos n) l r in
      let sub = IsPlaced-sub (PrefixLies key pfx) c here radix in
      let q =
        compared key bytes pfx g len room within short f tag m new a bit (n / 2)
          (node_within a n l r sub) in
      let at = place_of root side here in
      let on_left = λ (bit' : ℕ).
        descend_ends fd (in_left a (pos n) r c) l a 0 bit' (omega arith) h.4 refl fuel v fresh
          radix in
      let on_rght = λ (bit' : ℕ).
        descend_ends fd (in_rght a (pos n) l c) r a 1 bit' (omega arith) h.5 refl fuel v fresh
          radix in
      let out =
        step_ends fd c a n l r root side cell fuel v fresh radix fits on_left on_rght q.bits
          (node_bits a n bit q.bits l r sub ahead q.same) q.ends
          (prefix_step key pfx new at n q.bits) (prefix_step-StepIs key pfx new at n q.bits) in
      rw h.0 (
        rw (node_tag h.3, prefix_descend)
          (rw (untag-node a, h.2)
            (rw (untag-node a, q.runs)
              (rw (untag-node a) (
                subst
                  (λ o.
                    Ends c here (after_descent (onward fd o (prefix_step key pfx new at n q.bits))))
                  (sym (untag-node a)) out)))))
