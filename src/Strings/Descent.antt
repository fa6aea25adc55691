-- ===== src/Strings/Descent.antt =====
-- The descent of an insertion of a string ends at a slot of the tree where it fits.
use ebmbtreebench.Prelude.{
  ℕ, suc, Option, some, ◌≡◌, ◌<◌, ◌≤◌, ◌+◌, ltb, refl, inl, inr, true, false, arith, Bool-cases,
  ◌∙◌, zero,
}
use ebmbtreebench.Memory.{Ptr, Mem, Bit, pos, negsuc}
use ebmbtreebench.Tree.{
  Tree, node, Ctx, plug, root_of, Holds, slot, link, height, in_left, in_rght, leaf,
}
use ebmbtreebench.Tree.Count.{leaf_count}
use ebmbtreebench.Walk.Down.{untag-node, node_tag, leaf_tag, untag-leaf}
use ebmbtreebench.Bytes.{Bytes, get_bit, string_equal_bits}
use ebmbtreebench.Scalar.Descent.{top_of}
use ebmbtreebench.Order.{FitsIn}
use ebmbtreebench.Strings.{StringPlace, string_place, string_stop, ebst_descend}
use ebmbtreebench.Strings.Same.{
  SameString, IsString, SameString-sym, SameString-trans, StringLies, IsStringRadix, below_node,
  SameString-self, Reaches-less, dups-SameString,
}
use ebmbtreebench.Strings.Near.{
  StringEnds, StringSpot, StringDescends, Near, compared, together, parted, level_bits,
  level-StringPart, IsPast, new_fits, guided_left, guided_rght, node-StringPart,
}
use ebmbtreebench.Tree.Valid.{ℕ-cases}
use ebmbtreebench.Bytes.Check.{AllEqual}
use mathlib.Core.Path.{subst}
use ebmbtreebench.Bytes.Byte.{bit_one}

module _ (key : Ptr → Bytes) (bytes : (y : Ptr) (i : ℕ) → key y i < 256) (room : ℕ)
    (strings : (y : Ptr) → IsString room (key y)) (g : ℕ) (fuel_g : room ≤ g) (new : Ptr) (m : Mem)
    (root0 : Ptr) (t0 : Tree) where
  abbrev Found : Option StringPlace → Type 0
  Found r = StringDescends key new root0 t0 r

  abbrev Descending : ℕ → Ptr → ℕ → Ptr → Bit → Type 0
  Descending f root side troot bit = Found (ebst_descend key g new f m root side troot bit)

  module _ (c : Ctx) (t : Tree) (root : Ptr) (side : ℕ) (e : plug c t ≡ t0) (b : root_of c ≡ root0)
      (s : root + side ≡ slot c) (fits : FitsIn (StringLies key) new c) where
    spot_at :
        (bit : Bit)
        → StringEnds key new t bit
        → StringSpot key new root0 t0 (string_place root side (link t) (top_of t) bit)
    spot_at bit ends = record {
      at = c;
      sub = t;
      whole = e;
      base = b;
      cell = s;
      link_is = refl;
      old_is = refl;
      fits = fits;
      ends = ends;
    }

    ends_at :
        (bit : Bit)
        → StringEnds key new t bit
        → Found (some (string_place root side (link t) (top_of t) bit))
    ends_at bit ends = record {
      place = string_place root side (link t) (top_of t) bit;
      runs = refl;
      spot = spot_at bit ends;
    }

    -- A stop at a leaf or at a tree of duplicates.
    level-Descends :
        (bit : Bit)
        → ((y : Ptr) → 0 < leaf_count y t → SameString (key y) (key (top_of t)))
        → Near key new bit t
        → Found (
            string_stop
              (λ n. string_equal_bits g (key new) (key (top_of t)) n)
              bit
              root
              side
              (link t)
              (top_of t))
    level-Descends (negsuc k) common near = ends_at (negsuc k) (λ y i.
        SameString-trans (key y) (key near.guide) (key new)
          (SameString-trans (key y) (key (top_of t)) (key near.guide) (common y i)
            (SameString-sym (key near.guide) (key (top_of t)) (common near.guide near.inside)))
          (SameString-sym (key new) (key near.guide) near.near))
    level-Descends (pos n) common near =
        let a = top_of t in
        let (same, reach) = level_bits key bytes room strings g fuel_g new a t n common near in
        elim (compared key bytes room strings g fuel_g new a n reach) [
          | inl u ↦
              rw (u.runs, string_stop)
                (ends_at (negsuc 0) (λ y i.
                  SameString-trans (key y) (key a) (key new) (common y i) (
                    SameString-sym (key new) (key a)
                      (together key bytes room strings g fuel_g new a n same u))))
          | inr d ↦
              rw (d.runs, string_stop)
                (ends_at (pos d.bits) (
                  level-StringPart key bytes room strings g fuel_g new a t n d.bits common
                    (parted key bytes room strings g fuel_g new a n same reach d) d.differs))
        ]

  module _ (f : ℕ) (c : Ctx) (a : Ptr) (n : ℕ) (l r : Tree) (root : Ptr) (side : ℕ)
      (h : Holds m (slot c) (node a (pos n) l r)) where
    abbrev below : Bit → Option StringPlace
    below bit =
        ebst_descend key g new f m a (get_bit (key new) n) (m.b (a + get_bit (key new) n)) bit

    runs-equal :
        (k : ℕ) → ebst_descend key g new (suc f) m root side (a + 1) (negsuc k) ≡ below (negsuc k)
    unfolding ebst_descend get_bit
    runs-equal k = rw (node_tag h.3, ebst_descend) (rw (untag-node a, h.2) (rw (untag-node a) refl))

    runs-past :
        (b : ℕ)
        → ltb b n ≡ false
        → ebst_descend key g new (suc f) m root side (a + 1) (pos b) ≡ below (pos b)
    unfolding ebst_descend get_bit
    runs-past b e =
        rw (node_tag h.3, ebst_descend) (rw (untag-node a, h.2) (rw e (rw (untag-node a) refl)))

    runs-together :
        (b k : ℕ)
        → ltb b n ≡ true
        → string_equal_bits g (key new) (key a) b ≡ some (negsuc k)
        → ebst_descend key g new (suc f) m root side (a + 1) (pos b) ≡ below (negsuc k)
    unfolding ebst_descend get_bit
    runs-together b k e e' =
        rw (node_tag h.3, ebst_descend)
          (rw (untag-node a, h.2) (rw e (rw (untag-node a, e') (rw (untag-node a) refl))))

    runs-parted :
        (b b' : ℕ)
        → ltb b n ≡ true
        → string_equal_bits g (key new) (key a) b ≡ some (pos b')
        → ltb b' n ≡ false
        → ebst_descend key g new (suc f) m root side (a + 1) (pos b) ≡ below (pos b')
    unfolding ebst_descend get_bit
    runs-parted b b' e e' e2 =
        rw (node_tag h.3, ebst_descend)
          (rw (untag-node a, h.2) (rw e (rw (untag-node a, e') (rw e2 (rw (untag-node a) refl)))))

    runs-stop :
        (b b' : ℕ)
        → ltb b n ≡ true
        → string_equal_bits g (key new) (key a) b ≡ some (pos b')
        → ltb b' n ≡ true
        → ebst_descend key g new (suc f) m root side (a + 1) (pos b)
          ≡ some (string_place root side (a + 1) a (pos b'))
    unfolding ebst_descend get_bit
    runs-stop b b' e e' e2 =
        rw (node_tag h.3, ebst_descend)
          (rw (untag-node a, h.2) (rw e (rw (untag-node a, e') (rw e2 (rw (untag-node a) refl)))))

  abbrev Goes : ℕ → Tree → Ctx → ℕ → Type 0
  Goes f t c root =
      (side : ℕ) (bit : Bit)
      → root + side ≡ slot c
      → FitsIn (StringLies key) new c
      → Near key new bit t
      → Descending f root side (m.b (slot c)) bit

  -- The step below a node, where the comparison has gone on to `bit'`.
  step-Descends :
      (f : ℕ) (c : Ctx) (a : Ptr) (n : ℕ) (l r : Tree) (root side : ℕ) (bit bit' : Bit)
      → IsStringRadix key (node a (pos n) l r)
      → FitsIn (StringLies key) new c
      → ebst_descend key g new (suc f) m root side (a + 1) bit
        ≡ ebst_descend key g new f m a (get_bit (key new) n) (m.b (a + get_bit (key new) n)) bit'
      → Near key new bit' (node a (pos n) l r)
      → IsPast n bit'
      → Goes f l (in_left a (pos n) r c) a
      → Goes f r (in_rght a (pos n) l c) a
      → Descending (suc f) root side (a + 1) bit
  step-Descends f c a n l r root side bit bit' radix fits runs near past left rght =
      let lies = new_fits key bytes room strings g fuel_g new a n l r radix bit' near past in
      let rest : Found (
          ebst_descend key g new f m a (get_bit (key new) n) (m.b (a + get_bit (key new) n)) bit') =
        elim (ℕ-cases (get_bit (key new) n)) [
          | inl z ↦ rw z (
              left 0 bit' refl (lies 0 z, fits)
                (guided_left key bytes room strings g fuel_g new a n l r radix bit' near past z))
          | inr i ↦
              let one = bit_one (key new) n i in
              rw one (
                rght 1 bit' refl (lies 1 one, fits)
                  (guided_rght key bytes room strings g fuel_g new a n l r radix bit' near past
                    one))
        ] in
      record { place = rest.place; runs = runs ∙ rest.runs; spot = rest.spot }

  -- A node with a bit: the comparison of its string, if it is needed, then a stop or a step.
  node-Descends :
      (f : ℕ) (c : Ctx) (a : Ptr) (n : ℕ) (l r : Tree) (root side : ℕ) (bit : Bit)
      → Holds m (slot c) (node a (pos n) l r)
      → IsStringRadix key (node a (pos n) l r)
      → plug c (node a (pos n) l r) ≡ t0
      → root_of c ≡ root0
      → root + side ≡ slot c
      → FitsIn (StringLies key) new c
      → Near key new bit (node a (pos n) l r)
      → Goes f l (in_left a (pos n) r c) a
      → Goes f r (in_rght a (pos n) l c) a
      → Descending (suc f) root side (a + 1) bit
  unfolding leaf_count
  node-Descends f c a n l r root side (negsuc k) h radix e b s fits near left rght =
      step-Descends f c a n l r root side (negsuc k) (negsuc k) radix fits
        (runs-equal f c a n l r root side h k) near tt left rght
  node-Descends f c a n l r root side (pos n0) h radix e b s fits near left rght =
      let (up, reach_w) = below_node key a n l r radix near.guide near.inside in
      let reach_a = (below_node key a n l r radix a radix.2).1 in
      elim (Bool-cases (ltb n0 n)) [
        | inr past ↦
            step-Descends f c a n l r root side (pos n0) (pos n0) radix fits
              (runs-past f c a n l r root side h n0 past) near (ground (arith, past)) left rght
        | inl short ↦
            let lt : n0 < n = ground (arith, short) in
            let same : AllEqual (key new) (key a) 0 n0 =
              λ j lo hi. near.near.0 j lo hi ∙ up j lo (omega arith) in
            let reach = Reaches-less (key a) n n0 (omega arith) reach_a in
            elim (compared key bytes room strings g fuel_g new a n0 reach) [
              | inl t ↦
                  step-Descends f c a n l r root side (pos n0) (negsuc 0) radix fits
                    (runs-together f c a n l r root side h n0 0 short t.runs)
                    (record {
                      guide = a;
                      inside = radix.2;
                      near = together key bytes room strings g fuel_g new a n0 same t;
                    })
                    tt left rght
              | inr d ↦
                  let found = parted key bytes room strings g fuel_g new a n0 same reach d in
                  elim (Bool-cases (ltb d.bits n)) [
                    | inl stop ↦ record {
                      place = string_place root side (a + 1) a (pos d.bits);
                      runs = runs-stop f c a n l r root side h n0 d.bits short d.runs stop;
                      spot = spot_at c (node a (pos n) l r) root side e b s fits (pos d.bits) (
                          node-StringPart key bytes room strings g fuel_g new a n l r d.bits radix
                            (ground (arith, stop)) found d.differs);
                    }
                    | inr on ↦
                        step-Descends f c a n l r root side (pos n0) (pos d.bits) radix fits
                          (runs-parted f c a n l r root side h n0 d.bits short d.runs on)
                          (record { guide = a; inside = radix.2; near = found })
                          (ground (arith, on)) left rght
                  ]
            ]
      ]

  pub ebst_descend-Descends :
      (f : ℕ) (c : Ctx) (t : Tree) (root : Ptr)
      → height t < f
      → Holds m (slot c) t
      → IsStringRadix key t
      → plug c t ≡ t0
      → root_of c ≡ root0
      → Goes f t c root
  unfolding height plug ebst_descend leaf_count
  ebst_descend-Descends zero c t root fuel h radix e b side bit s fits near = absurd (omega arith)
  ebst_descend-Descends (suc f) c (leaf a) root fuel h radix e b side bit s fits near = rw h.0 (
      rw (leaf_tag h.2, ebst_descend)
        (rw (untag-leaf a) (
          level-Descends c (leaf a) root side e b s fits bit
            (λ y i.
              subst (λ z. SameString (key z) (key a)) (let q : a ≡ y = ground arith in q)
                (SameString-self (key a) room (strings a)))
            near)))
  ebst_descend-Descends (suc f) c (node a (negsuc n) l r) root fuel h radix e b side bit s fits
        near =
      rw h.0 (
        rw (node_tag h.3, ebst_descend)
          (rw (untag-node a, h.2)
            (rw (untag-node a) (
              level-Descends c (node a (negsuc n) l r) root side e b s fits bit
                (dups-SameString key a n l r radix) near))))
  ebst_descend-Descends (suc f) c (node a (pos n) l r) root fuel h radix e b side bit s fits near =
      rw h.0 (
        node-Descends f c a n l r root side bit h radix e b s fits near
          (ebst_descend-Descends f (in_left a (pos n) r c) l a (omega arith) h.4 radix.3 e b)
          (ebst_descend-Descends f (in_rght a (pos n) l c) r a (omega arith) h.5 radix.4 e b))
