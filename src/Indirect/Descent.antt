-- ===== src/Indirect/Descent.antt =====
-- The descent of `__ebim_insert` ends at a slot of the tree where the new block fits. The code goes
-- on to compare one bit behind the `len` bytes, so that here a block has `len * 8 + 1` bits.
use ebmbtreebench.Prelude.{
  ℕ, suc, Option, some, ◌≡◌, ◌⊎◌, ◌==◌, ==_iff, ◌<◌, ◌≤◌, ◌+◌, ◌*◌, ◌/◌, ltb, arith, refl, ◌∙◌, inl,
  inr, Bool-cases, true, false, ◌-◌, sym, zero,
}
use mathlib.Core.Path.{subst}
use ebmbtreebench.Memory.{Ptr, Mem, pos}
use ebmbtreebench.Tree.{
  Tree, node, Ctx, plug, root_of, Holds, slot, link, height, in_left, leaf, in_rght, first,
}
use ebmbtreebench.Tree.Count.{leaf_count}
use ebmbtreebench.Walk.Down.{untag-node, node_tag, leaf_tag, untag-leaf}
use ebmbtreebench.Bytes.{Bytes, get_bit, equal_bits}
use ebmbtreebench.Bytes.Check.{AllEqual}
use ebmbtreebench.Bytes.Equal.{EqualBits, equal_bits-EqualBits}
use ebmbtreebench.Scalar.Descent.{top_of}
use ebmbtreebench.Order.{FitsIn}
use ebmbtreebench.Blocks.{BlockPlace, block_place, stop_at}
use ebmbtreebench.Blocks.Order.{
  BlockLies, IsCommon, IsBlockRadix, bit_within, node-IsCommon, leaf-IsCommon, dups-IsCommon,
}
use ebmbtreebench.Blocks.Descent.{BlockDescends, PartAt}
use ebmbtreebench.Indirect.{ebim_descend, negsuc}
use ebmbtreebench.Tree.Valid.{ℕ-cases}
use ebmbtreebench.Bytes.Byte.{bit_one}
use ebmbtreebench.Lookup.Sound.{first_count}

-- Some leaf agrees with the new block in the bits that have been found equal.
pub record Guided (key : Ptr → Bytes) (new : Ptr) (bit : ℕ) (t : Tree) : Type 0 where
  pub guide : Ptr
  pub inside : 0 < leaf_count guide t
  pub agrees : AllEqual (key new) (key guide) 0 bit

-- Where the new block parts from all the leaves of `t`, or has the bits of all of them, with the one
-- behind the `len` bytes.
abbrev pub IndirectEnds : (Ptr → Bytes) → ℕ → Ptr → Tree → ℕ → Type 0
IndirectEnds key len new t bit =
    (PartAt (key new) (key (top_of t)) (len * 8 + 1) bit × IsCommon key (suc bit) (top_of t) t)
    ⊎ ((bit ≡ len * 8)
        × AllEqual (key new) (key (top_of t)) 0 (len * 8 + 1)
        × IsCommon key (len * 8 + 1) (top_of t) t)

module _ (key : Ptr → Bytes) (bytes : (y : Ptr) (i : ℕ) → key y i < 256) (g len : ℕ)
    (room : len * 8 + 8 ≤ g * 8) (new : Ptr) (m : Mem) (root0 : Ptr) (t0 : Tree) where
  abbrev w : ℕ
  w = len * 8 + 1

  abbrev Found : Option BlockPlace → Type 0
  Found r = BlockDescends key w (IndirectEnds key len new) new root0 t0 r

  compared :
      (a : Ptr) (bit lim : ℕ)
      → lim ≤ len * 8
      → EqualBits (key new) (key a) (bit / 8 * 8) lim (equal_bits g (key new) (key a) bit lim)
  compared a bit lim le =
      equal_bits-EqualBits (key new) (key a) lim (bytes new) (bytes a) g bit (omega arith)

  -- What was equal before, within the blocks, and what a comparison from the start of a byte finds
  -- equal.
  joined :
      (a : Ptr) (bit bits : ℕ)
      → ((i : ℕ) → i < bit → i < w → get_bit (key new) i ≡ get_bit (key a) i)
      → bit / 8 * 8 ≤ bits
      → ((i : ℕ) → bit / 8 * 8 ≤ i → i < bits → get_bit (key new) i ≡ get_bit (key a) i)
      → (i : ℕ) → i < bits
      → i < w
      → get_bit (key new) i ≡ get_bit (key a) i
  joined a bit bits before start same i lt within = elim (Bool-cases (ltb i bit)) [
    | inl l ↦ before i (ground (arith, l)) within
    | inr ge ↦ same i (let le : bit ≤ i = ground (arith, ge) in omega arith) lt
  ]

  -- The descent stops at the subtree `t`.
  spot_here :
      (c : Ctx) (t : Tree) (root : Ptr) (side bits : ℕ)
      → plug c t ≡ t0
      → root_of c ≡ root0
      → root + side ≡ slot c
      → FitsIn (BlockLies key w) new c
      → IndirectEnds key len new t bits
      → Found (some (block_place root side (link t) (top_of t) bits))
  spot_here c t root side bits e b s fits ends = record {
    place = block_place root side (link t) (top_of t) bits;
    runs = refl;
    spot = record {
      at = c;
      sub = t;
      whole = e;
      base = b;
      cell = s;
      link_is = refl;
      old_is = refl;
      fits = fits;
      ends = ends;
    };
  }

  -- A comparison of all bits ends where they part, or at the bit behind them.
  level_ends :
      (t : Tree) (bit : ℕ) (r : Option ℕ)
      → bit ≤ len * 8
      → (h : EqualBits (key new) (key (top_of t)) (bit / 8 * 8) (len * 8) r)
      → AllEqual (key new) (key (top_of t)) 0 h.bits
      → IsCommon key w (top_of t) t
      → IndirectEnds key len new t h.bits
  level_ends t bit r limit h same common = elim (Bool-cases (ltb h.bits (len * 8))) [
    | inl lt ↦
        let below : h.bits < len * 8 = ground (arith, lt) in
        inl (
          record {
            within = omega arith;
            same = same;
            differs = elim h.ends [ inl past ↦ absurd (omega arith) | inr d ↦ d ];
          },
          λ y i j lo hi. common y i j lo (omega arith),
        )
    | inr ge ↦
        let past : len * 8 ≤ h.bits = ground (arith, ge) in
        let end : h.bits ≡ len * 8 = elim h.near [ inl le ↦ omega arith | inr e ↦ omega arith ] in
        elim (Bool-cases (get_bit (key new) h.bits == get_bit (key (top_of t)) h.bits)) [
          | inl e ↦
              let more : get_bit (key new) h.bits ≡ get_bit (key (top_of t)) h.bits =
                (==_iff (get_bit (key new) h.bits) (get_bit (key (top_of t)) h.bits)).0 e in
              inr (
                end,
                (λ j lo hi. elim (ℕ-cases (h.bits - j)) [
                  | inr before ↦ same j lo (omega arith)
                  | inl here ↦
                      subst (λ k. get_bit (key new) k ≡ get_bit (key (top_of t)) k)
                        (let q : h.bits ≡ j = omega arith in q) more
                ]),
                common,
              )
          | inr e ↦ inl (
            record { within = omega arith; same = same; differs = λ q. ground (arith, e, q) },
            λ y i j lo hi. common y i j lo (omega arith),
          )
        ]
  ]

  -- A stop at a leaf or at a tree of duplicates, whose leaves have one block.
  level-Descends :
      (c : Ctx) (t : Tree) (root : Ptr) (side bit : ℕ)
      → plug c t ≡ t0
      → root_of c ≡ root0
      → root + side ≡ slot c
      → FitsIn (BlockLies key w) new c
      → IsCommon key w (top_of t) t
      → bit ≤ len * 8
      → Guided key new bit t
      → Found (
          stop_at
            (equal_bits g (key new) (key (top_of t)) bit (len * 8))
            root
            side
            (link t)
            (top_of t))
  level-Descends c t root side bit e b s fits common limit near =
      let a = top_of t in
      let r = compared a bit (len * 8) (omega arith) in
      let end : r.bits ≤ len * 8 = elim r.near [ inl le ↦ omega arith | inr q ↦ omega arith ] in
      let equal : AllEqual (key new) (key a) 0 r.bits = λ i lo hi.
        joined a bit r.bits
          (λ i lt within.
            near.agrees i (omega arith) lt ∙ common near.guide near.inside i (omega arith) within)
          r.start r.same i hi (omega arith) in
      rw (r.runs, stop_at)
        (spot_here c t root side r.bits e b s fits
          (level_ends t bit (equal_bits g (key new) (key a) bit (len * 8)) limit r equal common))

  module _ (f : ℕ) (c : Ctx) (a : Ptr) (n : ℕ) (l r : Tree) (root : Ptr) (side : ℕ)
      (h : Holds m (slot c) (node a (pos n) l r)) where
    abbrev below : ℕ → Option BlockPlace
    below bit =
        ebim_descend key g new (len * 8) f m a (get_bit (key new) n) (m.b (a + get_bit (key new) n))
          bit

    runs-past :
        (bit : ℕ)
        → ltb bit n ≡ false
        → ebim_descend key g new (len * 8) (suc f) m root side (a + 1) bit ≡ below bit
    unfolding ebim_descend get_bit
    runs-past bit e =
        rw (node_tag h.3, ebim_descend) (rw (untag-node a, h.2) (rw e (rw (untag-node a) refl)))

    runs-on :
        (bit bit' : ℕ)
        → ltb bit n ≡ true
        → equal_bits g (key new) (key a) bit n ≡ some bit'
        → ltb bit' n ≡ false
        → ebim_descend key g new (len * 8) (suc f) m root side (a + 1) bit ≡ below bit'
    unfolding ebim_descend get_bit
    runs-on bit bit' e e' e2 =
        rw (node_tag h.3, ebim_descend)
          (rw (untag-node a, h.2) (rw e (rw (untag-node a, e') (rw e2 (rw (untag-node a) refl)))))

    runs-stop :
        (bit bit' : ℕ)
        → ltb bit n ≡ true
        → equal_bits g (key new) (key a) bit n ≡ some bit'
        → ltb bit' n ≡ true
        → ebim_descend key g new (len * 8) (suc f) m root side (a + 1) bit
          ≡ some (block_place root side (a + 1) a bit')
    unfolding ebim_descend get_bit
    runs-stop bit bit' e e' e2 =
        rw (node_tag h.3, ebim_descend)
          (rw (untag-node a, h.2) (rw e (rw (untag-node a, e') (rw e2 (rw (untag-node a) refl)))))

  module _ (a : Ptr) (n : ℕ) (l r : Tree) (radix : IsBlockRadix key w (node a (pos n) l r)) where
    abbrev here : Tree
    here = node a (pos n) l r

    -- The new block belongs in the branch that its bit picks.
    new_lies :
        (bit side : ℕ)
        → Guided key new bit here
        → n ≤ bit
        → get_bit (key new) n ≡ side
        → BlockLies key w a (pos n) side new
    new_lies bit side near past at = (
      bit_within key w a n l r radix,
      (λ i lo hi.
          near.agrees i lo (omega arith)
          ∙ node-IsCommon key w a n l r radix near.guide near.inside i lo hi),
      at,
    )

    -- That branch has a leaf that agrees, if not the one so far: where the bit differs from its own,
    -- no more bits have been found equal than those that all the leaves share.
    kept_branch :
        (u : Tree) (side bit : ℕ) (near : Guided key new bit here)
        → n ≤ bit
        → get_bit (key new) n ≡ side
        → ((y : Ptr) → 0 < leaf_count y u → BlockLies key w a (pos n) side y)
        → (get_bit (key near.guide) n ≡ side → 0 < leaf_count near.guide u)
        → Guided key new bit u
    kept_branch u side bit near past at lies inside = elim (ℕ-cases (bit - n)) [
      | inr more ↦ record {
        guide = near.guide;
        inside = inside (sym (near.agrees n (omega arith) (omega arith)) ∙ at);
        agrees = near.agrees;
      }
      | inl none_left ↦
          let (within, same, at') = new_lies bit side near past at in
          let (within', up, at_y) = lies (first u) (first_count u) in
          record {
            guide = first u;
            inside = first_count u;
            agrees = λ i lo hi. same i lo (omega arith) ∙ sym (up i lo (omega arith));
          }
    ]

    kept_left :
        (bit : ℕ)
        → Guided key new bit here
        → n ≤ bit
        → get_bit (key new) n ≡ 0
        → Guided key new bit l
    unfolding leaf_count
    kept_left bit near past at = kept_branch l 0 bit near past at radix.0 (λ e.
        elim (ℕ-cases (leaf_count near.guide l)) [
          | inr p ↦ p
          | inl z ↦
              let i = near.inside in absurd (omega (arith, e, (radix.1 near.guide (omega arith)).2))
        ])

    kept_rght :
        (bit : ℕ)
        → Guided key new bit here
        → n ≤ bit
        → get_bit (key new) n ≡ 1
        → Guided key new bit r
    unfolding leaf_count
    kept_rght bit near past at = kept_branch r 1 bit near past at radix.1 (λ e.
        elim (ℕ-cases (leaf_count near.guide r)) [
          | inr p ↦ p
          | inl z ↦
              let i = near.inside in absurd (omega (arith, e, (radix.0 near.guide (omega arith)).2))
        ])

  abbrev Goes : ℕ → Tree → Ctx → ℕ → Type 0
  Goes f t c root =
      (side bit : ℕ)
      → root + side ≡ slot c
      → FitsIn (BlockLies key w) new c
      → bit ≤ len * 8
      → Guided key new bit t
      → Found (ebim_descend key g new (len * 8) f m root side (m.b (slot c)) bit)

  -- The step below a node, where the comparison has gone on to `bit'`.
  step-Descends :
      (f : ℕ) (c : Ctx) (a : Ptr) (n : ℕ) (l r : Tree) (root side bit bit' : ℕ)
      → IsBlockRadix key w (node a (pos n) l r)
      → FitsIn (BlockLies key w) new c
      → ebim_descend key g new (len * 8) (suc f) m root side (a + 1) bit
        ≡ ebim_descend key g new
            (len * 8)
            f
            m
            a
            (get_bit (key new) n)
            (m.b (a + get_bit (key new) n))
            bit'
      → bit' ≤ len * 8
      → Guided key new bit' (node a (pos n) l r)
      → n ≤ bit'
      → Goes f l (in_left a (pos n) r c) a
      → Goes f r (in_rght a (pos n) l c) a
      → Found (ebim_descend key g new (len * 8) (suc f) m root side (a + 1) bit)
  step-Descends f c a n l r root side bit bit' radix fits runs limit near past left rght =
      let rest : Found (
          ebim_descend key g new (len * 8) f m a (get_bit (key new) n)
            (m.b (a + get_bit (key new) n)) bit') =
        elim (ℕ-cases (get_bit (key new) n)) [
          | inl z ↦ rw z (
              left 0 bit' refl (new_lies a n l r radix bit' 0 near past z, fits) limit
                (kept_left a n l r radix bit' near past z))
          | inr i ↦
              let one = bit_one (key new) n i in
              rw one (
                rght 1 bit' refl (new_lies a n l r radix bit' 1 near past one, fits) limit
                  (kept_rght a n l r radix bit' near past one))
        ] in
      record { place = rest.place; runs = runs ∙ rest.runs; spot = rest.spot }

  node-Descends :
      (f : ℕ) (c : Ctx) (a : Ptr) (n : ℕ) (l r : Tree) (root side bit : ℕ)
      → Holds m (slot c) (node a (pos n) l r)
      → IsBlockRadix key w (node a (pos n) l r)
      → plug c (node a (pos n) l r) ≡ t0
      → root_of c ≡ root0
      → root + side ≡ slot c
      → FitsIn (BlockLies key w) new c
      → bit ≤ len * 8
      → Guided key new bit (node a (pos n) l r)
      → Goes f l (in_left a (pos n) r c) a
      → Goes f r (in_rght a (pos n) l c) a
      → Found (ebim_descend key g new (len * 8) (suc f) m root side (a + 1) bit)
  unfolding leaf_count
  node-Descends f c a n l r root side bit h radix e b s fits limit near left rght =
      elim (Bool-cases (ltb bit n)) [
        | inr past ↦
            step-Descends f c a n l r root side bit bit radix fits
              (runs-past f c a n l r root side h bit past) limit near (ground (arith, past)) left
              rght
        | inl short ↦
            let lt : bit < n = ground (arith, short) in
            let within = bit_within key w a n l r radix in
            let common = node-IsCommon key w a n l r radix in
            let d = compared a bit n (omega arith) in
            let end : d.bits ≤ len * 8 = elim d.near [
              | inl le ↦ omega arith
              | inr q ↦ omega arith
            ] in
            let same : AllEqual (key new) (key a) 0 d.bits = λ i lo hi.
              elim (Bool-cases (ltb i bit)) [
                | inl before ↦
                    let earlier : i < bit = ground (arith, before) in
                    near.agrees i lo earlier ∙ common near.guide near.inside i lo (omega arith)
                | inr ge ↦ d.same i (let le : bit ≤ i = ground (arith, ge) in omega arith) hi
              ] in
            elim (Bool-cases (ltb d.bits n)) [
              | inl stop ↦
                  let before : d.bits < n = ground (arith, stop) in
                  let there = spot_here c (node a (pos n) l r) root side d.bits e b s fits (
                    inl (
                      record {
                        within = omega arith;
                        same = same;
                        differs = elim d.ends [ inl past ↦ absurd (omega arith) | inr z ↦ z ];
                      },
                      λ y i j lo hi. common y i j lo (omega arith),
                    )) in
                  record {
                    place = there.place;
                    runs =
                        runs-stop f c a n l r root side h bit d.bits short d.runs stop ∙ there.runs;
                    spot = there.spot;
                  }
              | inr on ↦
                  step-Descends f c a n l r root side bit d.bits radix fits
                    (runs-on f c a n l r root side h bit d.bits short d.runs on) end
                    (record { guide = a; inside = radix.2; agrees = same }) (ground (arith, on))
                    left rght
            ]
      ]

  pub ebim_descend-Descends :
      (f : ℕ) (c : Ctx) (t : Tree) (root : Ptr)
      → height t < f
      → Holds m (slot c) t
      → IsBlockRadix key w t
      → plug c t ≡ t0
      → root_of c ≡ root0
      → Goes f t c root
  unfolding height plug ebim_descend
  ebim_descend-Descends zero c t root fuel h radix e b side bit s fits limit near =
      absurd (omega arith)
  ebim_descend-Descends (suc f) c (leaf a) root fuel h radix e b side bit s fits limit near =
      rw h.0 (
        rw (leaf_tag h.2, ebim_descend)
          (rw (untag-leaf a) (
            level-Descends c (leaf a) root side bit e b s fits (leaf-IsCommon key w a w) limit
              near)))
  ebim_descend-Descends (suc f) c (node a (negsuc n) l r) root fuel h radix e b side bit s fits
        limit near =
      rw h.0 (
        rw (node_tag h.3, ebim_descend)
          (rw (untag-node a, h.2)
            (rw (untag-node a) (
              level-Descends c (node a (negsuc n) l r) root side bit e b s fits
                (dups-IsCommon key w a n l r radix) limit near))))
  ebim_descend-Descends (suc f) c (node a (pos n) l r) root fuel h radix e b side bit s fits limit
        near =
      rw h.0 (
        node-Descends f c a n l r root side bit h radix e b s fits limit near
          (ebim_descend-Descends f (in_left a (pos n) r c) l a (omega arith) h.4 radix.3 e b)
          (ebim_descend-Descends f (in_rght a (pos n) l c) r a (omega arith) h.5 radix.4 e b))
