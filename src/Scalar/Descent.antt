-- ===== src/Scalar/Descent.antt =====
-- The descent of an insertion ends at a slot of the tree.
use ebmbtreebench.Scalar.{Place, place, descend, true, Mem, Ptr, ℕ, bit_xor}
use ebmbtreebench.Tree.{
  Tree, leaf, Ctx, node, plug, height, root_of, Holds, slot, link, in_left, in_rght, top,
}
use ebmbtreebench.Memory.{Mem, Ptr, Bit, negsuc, pos}
use ebmbtreebench.Prelude.{
  ℕ, ◌≡◌, some, ◌<◌, ◌+◌, arith, suc, leb, Bool-cases, refl, false, ◌/◌, ◌^◌, inl, ◌%◌, inr, ◌∙◌,
  zero,
}
use ebmbtreebench.Walk.Down.{untag-leaf, untag-node, node_tag, leaf_tag}
use ebmbtreebench.Tree.Valid.{ℕ-cases}

-- The structure at the top of a tree.
abbrev pub top_of : Tree → Ptr
top_of (leaf a) = a
top_of (node a k l r) = a

-- The steps of a descent: at each node the key `x` agrees with the node's above its bit, and
-- `newkey` has the branch at the bit. No step leads into a tree of duplicates.
abbrev pub Went : (Ptr → ℕ) → ℕ → ℕ → Ctx → Type 0
Went key x newkey (top root) = Unit {0}
Went key x newkey (in_left a (pos n) r c) =
    (leb 2 (bit_xor x (key a) / 2 ^ n) ≡ false) × (newkey / 2 ^ n % 2 ≡ 0) × Went key x newkey c
Went key x newkey (in_rght a (pos n) l c) =
    (leb 2 (bit_xor x (key a) / 2 ^ n) ≡ false) × (newkey / 2 ^ n % 2 ≡ 1) × Went key x newkey c
Went key x newkey (in_left a (negsuc n) r c) = ⊥
Went key x newkey (in_rght a (negsuc n) l c) = ⊥

-- Where it stops: a leaf, a tree of duplicates, or a node with whose key `x` does not agree.
abbrev pub Stops : (Ptr → ℕ) → ℕ → Tree → Type 0
Stops key x (leaf a) = Unit {0}
Stops key x (node a (negsuc n) l r) = Unit {0}
Stops key x (node a (pos n) l r) = leb 2 (bit_xor x (key a) / 2 ^ n) ≡ true

-- The place `p` is the slot of a subtree of the tree `t0` below `root`.
pub record Spot (key : Ptr → ℕ) (x newkey : ℕ) (root : Ptr) (t0 : Tree) (p : Place) : Type 0 where
  pub at : Ctx
  pub sub : Tree
  pub whole : plug at sub ≡ t0
  pub base : root_of at ≡ root
  pub cell : p.root + p.side ≡ slot at
  pub link_is : p.troot ≡ link sub
  pub old_is : p.old ≡ top_of sub
  pub went : Went key x newkey at
  pub stops : Stops key x sub

pub record Descends (key : Ptr → ℕ) (x newkey f : ℕ) (m : Mem) (root0 : Ptr) (t0 : Tree)
    (root : Ptr) (side : ℕ) (troot : Ptr) : Type 0 where
  pub result : Place
  pub runs : descend key x newkey f m root side troot ≡ some result
  pub spot : Spot key x newkey root0 t0 result

module _ (key : Ptr → ℕ) (x newkey : ℕ) (m : Mem) (root0 : Ptr) (t0 : Tree) where
  abbrev AtNode : Ctx → Ptr → Bit → Tree → Tree → ℕ → Ptr → ℕ → Type 0
  AtNode c a k l r f root side =
      plug c (node a k l r) ≡ t0
      → root_of c ≡ root0
      → root + side ≡ slot c
      → Went key x newkey c
      → Stops key x (node a k l r)
      → Descends key x newkey (suc f) m root0 t0 root side (a + 1)

  -- A descent that ends at the node `a`.
  stop-Descends :
      (f : ℕ) (c : Ctx) (a : Ptr) (k : Bit) (l r : Tree) (root : Ptr) (side : ℕ)
      → descend key x newkey (suc f) m root side (a + 1) ≡ some (place root side (a + 1) a)
      → AtNode c a k l r f root side
  stop-Descends f c a k l r root side runs e b s w st = record {
    result = place root side (a + 1) a;
    runs = runs;
    spot = record {
      at = c;
      sub = node a k l r;
      whole = e;
      base = b;
      cell = s;
      link_is = refl;
      old_is = refl;
      went = w;
      stops = st;
    };
  }

  module _ (f : ℕ) (c : Ctx) (a : Ptr) (l r : Tree) (root : Ptr) (side : ℕ)
      (s : root + side ≡ slot c) where
    runs-dup :
        (n : ℕ)
        → Holds m (slot c) (node a (negsuc n) l r)
        → descend key x newkey (suc f) m root side (a + 1) ≡ some (place root side (a + 1) a)
    unfolding descend
    runs-dup n h = rw (node_tag h.3, descend) (rw (untag-node a, h.2) (rw (untag-node a) refl))

    runs-apart :
        (n : ℕ)
        → Holds m (slot c) (node a (pos n) l r)
        → leb 2 (bit_xor x (key a) / 2 ^ n) ≡ true
        → descend key x newkey (suc f) m root side (a + 1) ≡ some (place root side (a + 1) a)
    unfolding descend
    runs-apart n h e =
        rw (node_tag h.3, descend)
          (rw (untag-node a, h.2) (rw (untag-node a, e) (rw (untag-node a) refl)))

    runs-below :
        (n : ℕ)
        → Holds m (slot c) (node a (pos n) l r)
        → leb 2 (bit_xor x (key a) / 2 ^ n) ≡ false
        → descend key x newkey (suc f) m root side (a + 1)
          ≡ descend key x newkey f m a (newkey / 2 ^ n % 2) (m.b (a + newkey / 2 ^ n % 2))
    unfolding descend
    runs-below n h e =
        rw (node_tag h.3, descend)
          (rw (untag-node a, h.2) (rw (untag-node a, e) (rw (untag-node a) refl)))

  pub descend-Descends :
      (f : ℕ) (c : Ctx) (t : Tree) (root : Ptr) (side : ℕ)
      → height t < f
      → Holds m (slot c) t
      → plug c t ≡ t0
      → root_of c ≡ root0
      → root + side ≡ slot c
      → Went key x newkey c
      → Descends key x newkey f m root0 t0 root side (m.b (slot c))
  unfolding height plug descend
  descend-Descends zero c t root side fuel h e b s w = absurd (omega arith)
  descend-Descends (suc f) c (leaf a) root side fuel h e b s w = rw h.0 (record {
    result = place root side (a + 0) a;
    runs = rw (leaf_tag h.2, descend) (rw (untag-leaf a) refl);
    spot = record {
      at = c;
      sub = leaf a;
      whole = e;
      base = b;
      cell = s;
      link_is = refl;
      old_is = refl;
      went = w;
      stops = tt;
    };
  })
  descend-Descends (suc f) c (node a (negsuc n) l r) root side fuel h e b s w =
      rw h.0 (
        stop-Descends f c a (negsuc n) l r root side (runs-dup f c a l r root side s n h) e b s w
          tt)
  descend-Descends (suc f) c (node a (pos n) l r) root side fuel h e b s w =
      rw h.0 (elim (Bool-cases (leb 2 (bit_xor x (key a) / 2 ^ n))) [
        | inl apart ↦
            stop-Descends f c a (pos n) l r root side (runs-apart f c a l r root side s n h apart) e
              b s w apart
        | inr below ↦
            let d = newkey / 2 ^ n % 2 in
            let rest : Descends key x newkey f m root0 t0 a d (m.b (a + d)) = elim (ℕ-cases d) [
              | inl z ↦ rw z (
                  descend-Descends f (in_left a (pos n) r c) l a 0 (omega arith) h.4 e b refl
                    (below, z, w))
              | inr i ↦
                  let one : d ≡ 1 = omega arith in
                  rw one (
                    descend-Descends f (in_rght a (pos n) l c) r a 1 (omega arith) h.5 e b refl
                      (below, one, w))
            ] in
            record {
              result = rest.result;
              runs = runs-below f c a l r root side s n h below ∙ rest.runs;
              spot = rest.spot;
            }
      ])
