-- ===== src/Blocks/Descent.antt =====
-- The descent of an insertion of a block ends at a slot of the tree where it fits.
use ebmbtreebench.Prelude.{
  ℕ, suc, Option, some, ◌≡◌, ◌≢◌, ◌⊎◌, ◌<◌, ◌≤◌, ◌+◌, ◌*◌, ◌/◌, ◌^◌, ltb, arith, refl, sym, ap, ◌∙◌,
  inl, inr, Bool-cases, true, false, zero,
}
use ebmbtreebench.Memory.{Ptr, Mem, pos}
use ebmbtreebench.Tree.{
  Tree, node, Ctx, plug, root_of, Holds, slot, link, height, leaf, in_left, in_rght,
}
use ebmbtreebench.Tree.Count.{leaf_count, one_if_self}
use ebmbtreebench.Walk.Down.{untag-node, node_tag, leaf_tag, untag-leaf}
use ebmbtreebench.Bytes.{Bytes, get_bit, equal_bits}
use ebmbtreebench.Bytes.Check.{AllEqual}
use ebmbtreebench.Bytes.Byte.{bit_one}
use ebmbtreebench.Bytes.Equal.{EqualBits, equal_bits-EqualBits}
use ebmbtreebench.Scalar.Descent.{top_of}
use ebmbtreebench.Order.{FitsIn}
use ebmbtreebench.Blocks.{BlockPlace, block_place, stop_at, ebmb_descend, negsuc}
use ebmbtreebench.Blocks.Order.{
  BlockLies, IsCommon, IsBlockRadix, leaf-IsCommon, dups-IsCommon, bit_within, node-IsCommon,
}
use ebmbtreebench.Tree.Valid.{ℕ-cases}

-- The first `bit` bits of `x` and `y` are equal, and the next one, of the `w` bits, differs.
pub record PartAt (x y : Bytes) (w bit : ℕ) : Type 0 where
  pub within : bit < w
  pub same : AllEqual x y 0 bit
  pub differs : get_bit x bit ≢ get_bit y bit

-- Where the new block parts from all the leaves of `t`, or has the bits of all of them.
abbrev pub BlockEnds : (Ptr → Bytes) → ℕ → Ptr → Tree → ℕ → Type 0
BlockEnds key w new t bit =
    (PartAt (key new) (key (top_of t)) w bit × IsCommon key (suc bit) (top_of t) t)
    ⊎ ((w ≤ bit) × AllEqual (key new) (key (top_of t)) 0 w × IsCommon key w (top_of t) t)

-- The place `p` is the slot of a subtree of the tree `t0` below `root`, for which `Ends` holds with
-- the bits found equal.
pub record BlockSpot (key : Ptr → Bytes) (w : ℕ) (Ends : Tree → ℕ → Type 0) (new root : Ptr)
    (t0 : Tree) (p : BlockPlace) : Type 0 where
  pub at : Ctx
  pub sub : Tree
  pub whole : plug at sub ≡ t0
  pub base : root_of at ≡ root
  pub cell : p.at.root + p.at.side ≡ slot at
  pub link_is : p.at.troot ≡ link sub
  pub old_is : p.at.old ≡ top_of sub
  pub fits : FitsIn (BlockLies key w) new at
  pub ends : Ends sub p.bit

pub record BlockDescends (key : Ptr → Bytes) (w : ℕ) (Ends : Tree → ℕ → Type 0) (new root : Ptr)
    (t0 : Tree) (result : Option BlockPlace) : Type 0 where
  pub place : BlockPlace
  pub runs : result ≡ some place
  pub spot : BlockSpot key w Ends new root t0 place

module _ (key : Ptr → Bytes) (bytes : (y : Ptr) (i : ℕ) → key y i < 256) (g len : ℕ)
    (room : len * 8 + 8 ≤ g * 8) (new : Ptr) (m : Mem) (root0 : Ptr) (t0 : Tree) where
  abbrev w : ℕ
  w = len * 8

  module _ (c : Ctx) (t : Tree) (root : Ptr) (side : ℕ) (e : plug c t ≡ t0) (b : root_of c ≡ root0)
      (s : root + side ≡ slot c) (fits : FitsIn (BlockLies key w) new c) where
    -- The comparison of the first `lim` bits ends a descent.
    spot_at :
        (bits lim : ℕ)
        → lim ≤ w
        → AllEqual (key new) (key (top_of t)) 0 bits
        → (lim ≤ bits) ⊎ (get_bit (key new) bits ≢ get_bit (key (top_of t)) bits)
        → (bits < lim) ⊎ (lim ≡ w)
        → IsCommon key lim (top_of t) t
        → BlockSpot key w
            (BlockEnds key w new)
            new
            root0
            t0
            (block_place root side (link t) (top_of t) bits)
    spot_at bits lim le same ends stop common = record {
      at = c;
      sub = t;
      whole = e;
      base = b;
      cell = s;
      link_is = refl;
      old_is = refl;
      fits = fits;
      ends = elim (Bool-cases (ltb bits lim)) [
        | inl lt ↦
            let below : bits < lim = ground (arith, lt) in
            inl (
              record {
                within = omega arith;
                same = same;
                differs = elim ends [ inl past ↦ absurd (omega arith) | inr d ↦ d ];
              },
              λ y i j lo hi. common y i j lo (omega arith),
            )
        | inr ge ↦
            let past : lim ≤ bits = ground (arith, ge) in
            let full : lim ≡ w = elim stop [ inl lt ↦ absurd (omega arith) | inr q ↦ q ] in
            inr (
              omega arith,
              (λ j lo hi. same j lo (omega arith)),
              λ y i j lo hi. common y i j lo (omega arith),
            )
      ];
    }

  -- What was equal before, and what a comparison from the start of a byte finds equal.
  joined :
      (a : Ptr) (bit bits lim : ℕ)
      → AllEqual (key new) (key a) 0 bit
      → ((i : ℕ) → bit / 8 * 8 ≤ i → i < bits → get_bit (key new) i ≡ get_bit (key a) i)
      → AllEqual (key new) (key a) 0 bits
  joined a bit bits lim before same i lo hi = elim (Bool-cases (ltb i bit)) [
    | inl lt ↦ before i lo (ground (arith, lt))
    | inr ge ↦ same i (let le : bit ≤ i = ground (arith, ge) in omega arith) hi
  ]

  compared :
      (a : Ptr) (bit lim : ℕ)
      → lim ≤ w
      → EqualBits (key new) (key a) (bit / 8 * 8) lim (equal_bits g (key new) (key a) bit lim)
  compared a bit lim le =
      equal_bits-EqualBits (key new) (key a) lim (bytes new) (bytes a) g bit (omega arith)

  abbrev Descending : ℕ → Ptr → ℕ → Ptr → ℕ → Type 0
  Descending f root side troot bit =
      BlockDescends key w (BlockEnds key w new) new root0 t0
        (ebmb_descend key g new len f m root side troot bit)

  -- A stop at a leaf or at a tree of duplicates.
  stop-Descends :
      (c : Ctx) (t : Tree) (root : Ptr) (side bit : ℕ)
      → plug c t ≡ t0
      → root_of c ≡ root0
      → root + side ≡ slot c
      → FitsIn (BlockLies key w) new c
      → AllEqual (key new) (key (top_of t)) 0 bit
      → IsCommon key w (top_of t) t
      → BlockDescends key w (BlockEnds key w new) new root0 t0 (
          stop_at
            (equal_bits g (key new) (key (top_of t)) bit (len * 2 ^ 3))
            root
            side
            (link t)
            (top_of t))
  stop-Descends c t root side bit e b s fits before common =
      let r = compared (top_of t) bit w (omega arith) in
      rw (r.runs) (record {
        place = block_place root side (link t) (top_of t) r.bits;
        runs = refl;
        spot =
            spot_at c t root side e b s fits r.bits w (omega arith)
              (joined (top_of t) bit r.bits w before r.same) r.ends (inr refl) common;
      })

  module _ (f : ℕ) (c : Ctx) (a : Ptr) (n : ℕ) (l r : Tree) (root : Ptr) (side bit : ℕ)
      (h : Holds m (slot c) (node a (pos n) l r)) where
    runs-apart :
        (bits : ℕ)
        → equal_bits g (key new) (key a) bit n ≡ some bits
        → ltb bits n ≡ true
        → ebmb_descend key g new len (suc f) m root side (a + 1) bit
          ≡ some (block_place root side (a + 1) a bits)
    unfolding ebmb_descend
    runs-apart bits e lt =
        rw (node_tag h.3, ebmb_descend)
          (rw (untag-node a, h.2) (rw (untag-node a, e) (rw (untag-node a, lt) refl)))

    runs-below :
        (bits : ℕ)
        → equal_bits g (key new) (key a) bit n ≡ some bits
        → ltb bits n ≡ false
        → ebmb_descend key g new len (suc f) m root side (a + 1) bit
          ≡ ebmb_descend key g new len f m a
              (get_bit (key new) n)
              (m.b (a + get_bit (key new) n))
              (n + 1)
    unfolding ebmb_descend get_bit
    runs-below bits e lt =
        rw (node_tag h.3, ebmb_descend)
          (rw (untag-node a, h.2) (rw (untag-node a, e) (rw (untag-node a, lt) refl)))

  -- The leaves below the branch that is taken agree with the new block up to the bit of the node.
  agree_below :
      (a : Ptr) (n : ℕ) (t : Tree)
      → AllEqual (key new) (key a) 0 n
      → ((y : Ptr) → 0 < leaf_count y t → BlockLies key w a (pos n) (get_bit (key new) n) y)
      → (y : Ptr) → 0 < leaf_count y t
      → AllEqual (key new) (key y) 0 (n + 1)
  agree_below a n t same lies y i j lo hi = elim (Bool-cases (ltb j n)) [
    | inl lt ↦
        let below : j < n = ground (arith, lt) in same j lo below ∙ sym ((lies y i).1 j lo below)
    | inr ge ↦
        let here : j ≡ n = ground (arith, ge) in
        ap (get_bit (key new)) here ∙ sym (lies y i).2 ∙ ap (get_bit (key y)) (sym here)
  ]

  abbrev Agreed : ℕ → Tree → Type 0
  Agreed bit t = (y : Ptr) → 0 < leaf_count y t → AllEqual (key new) (key y) 0 bit

  pub ebmb_descend-Descends :
      (f : ℕ) (c : Ctx) (t : Tree) (root : Ptr) (side bit : ℕ)
      → height t < f
      → Holds m (slot c) t
      → IsBlockRadix key w t
      → plug c t ≡ t0
      → root_of c ≡ root0
      → root + side ≡ slot c
      → FitsIn (BlockLies key w) new c
      → Agreed bit t
      → Descending f root side (m.b (slot c)) bit
  unfolding height plug ebmb_descend leaf_count
  ebmb_descend-Descends zero c t root side bit fuel h g' e b s fits agreed = absurd (omega arith)
  ebmb_descend-Descends (suc f) c (leaf a) root side bit fuel h g' e b s fits agreed = rw h.0 (
      rw (leaf_tag h.2, ebmb_descend)
        (rw (untag-leaf a) (
          stop-Descends c (leaf a) root side bit e b s fits
            (agreed a (omega (arith, one_if_self a))) (leaf-IsCommon key w a w))))
  ebmb_descend-Descends (suc f) c (node a (negsuc n) l r) root side bit fuel h g' e b s fits
        agreed =
      rw h.0 (
        rw (node_tag h.3, ebmb_descend)
          (rw (untag-node a, h.2)
            (rw (untag-node a) (
              stop-Descends c (node a (negsuc n) l r) root side bit e b s fits (agreed a g'.2)
                (dups-IsCommon key w a n l r g')))))
  ebmb_descend-Descends (suc f) c (node a (pos n) l r) root side bit fuel h g' e b s fits agreed =
      let within = bit_within key w a n l r g' in
      let cmp = compared a bit n (omega arith) in
      let same = joined a bit cmp.bits n (agreed a g'.2) cmp.same in
      rw h.0 (elim (Bool-cases (ltb cmp.bits n)) [
        | inl lt ↦ record {
          place = block_place root side (a + 1) a cmp.bits;
          runs = runs-apart f c a n l r root side bit h cmp.bits cmp.runs lt;
          spot =
              spot_at c (node a (pos n) l r) root side e b s fits cmp.bits n (omega arith) same
                cmp.ends (inl (ground (arith, lt))) (node-IsCommon key w a n l r g');
        }
        | inr ge ↦
            let past : n ≤ cmp.bits = ground (arith, ge) in
            let first = λ (j : ℕ) (lo : 0 ≤ j) (hi : j < n). same j lo (omega arith) in
            let rest : Descending f a (get_bit (key new) n) (m.b (a + get_bit (key new) n))
                (n + 1) =
              elim (ℕ-cases (get_bit (key new) n)) [
                | inl z ↦ rw z (
                    ebmb_descend-Descends f (in_left a (pos n) r c) l a 0 (n + 1) (omega arith) h.4
                      g'.3 e b refl ((within, first, z), fits)
                      (agree_below a n l first (rw z (g'.0))))
                | inr i ↦
                    let one : get_bit (key new) n ≡ 1 = bit_one (key new) n i in
                    rw one (
                      ebmb_descend-Descends f (in_rght a (pos n) l c) r a 1 (n + 1) (omega arith)
                        h.5 g'.4 e b refl ((within, first, one), fits)
                        (agree_below a n r first (rw one (g'.1))))
              ] in
            record {
              place = rest.place;
              runs = runs-below f c a n l r root side bit h cmp.bits cmp.runs ge ∙ rest.runs;
              spot = rest.spot;
            }
      ])
