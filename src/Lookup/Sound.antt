-- ===== src/Lookup/Sound.antt =====
-- A lookup ends, and what it returns has the key.
use ebmbtreebench.Lookup.{
  lookup_from, shift, Ptr, ℕ, Mem, Option, Bit, suc, pos, some, negsuc, null, eb_gettag, true,
  bit_xor, false, is_neg, eb_walk_down, eb_left, leb, lookup, eb32_lookup, eb32i_lookup,
  eb64_lookup, eb64i_lookup,
}
use ebmbtreebench.Memory.{Ptr, Mem, Bit, null, eb_gettag, is_neg, eb_left}
use ebmbtreebench.Tree.{first, Tree, leaf, Holds, node, IsAddr, height, Rooted}
use ebmbtreebench.Prelude.{
  ℕ, ◌<◌, Option, ◌≡◌, arith, suc, ◌+◌, some, ◌⊎◌, ◌≤◌, ◌%◌, inl, ◌==◌, if◌then◌else◌, inr, true,
  false, ap, Bool-cases, ==_iff, refl, leb, zero, ◌∙◌, ◌^◌,
}
use ebmbtreebench.Tree.Count.{leaf_count, one_if_self, node_count}
use ebmbtreebench.Walk.Down.{untag-leaf, untag-node, walk_down-first}
use ebmbtreebench.Walk.{eb_walk_down}
use ebmbtreebench.Tree.Valid.{ℕ-cases}
use ebmbtreebench.Fls.Xor.{equal_of_xor}
use ebmbtreebench.Walk.Step.{link-nonnull}

-- The first leaf of a tree of duplicates has the key of each node that it is below.
abbrev pub IsAlike : (Ptr → ℕ) → Tree → Type 0
IsAlike key (leaf a) = Unit {0}
IsAlike key (node a (pos n) l r) = IsAlike key l × IsAlike key r
IsAlike key (node a (negsuc n) l r) = (key (first l) ≡ key a) × IsAlike key l × IsAlike key r

-- The result is there, and is NULL or a structure of the tree `t` with the key `x`.
pub record Looked (key : Ptr → ℕ) (x : ℕ) (t : Tree) (result : Option Ptr) : Type 0 where
  pub found : Ptr
  pub runs : result ≡ some found
  pub right : (found ≡ null) ⊎ ((key found ≡ x) × (0 < leaf_count found t + node_count found t))

pub first_count : (t : Tree) → 0 < leaf_count (first t) t
unfolding first leaf_count
first_count (leaf a) = omega (arith, one_if_self a)
first_count (node a k l r) = omega (arith, first_count l)

module _ (key : Ptr → ℕ) (x : ℕ) where
  -- What is found in a branch is found in the node.
  wider :
      (t u : Tree) {r : Option Ptr}
      → ((y : Ptr) → leaf_count y t ≤ leaf_count y u)
      → ((y : Ptr) → node_count y t ≤ node_count y u)
      → Looked key x t r
      → Looked key x u r
  wider t u ls ns d = record {
    found = d.found;
    runs = d.runs;
    right = elim d.right [
      | inl e ↦ inl e
      | inr e ↦ inr (e.0, omega (arith, e.1, ls d.found, ns d.found))
    ];
  }

module _ (shift_neg : ℕ → ℕ → ℕ) (key : Ptr → ℕ) (x turn : ℕ) (m : Mem) where
  abbrev LooksIn : ℕ → Tree → ℕ → Type 0
  LooksIn f t p = Looked key x t (lookup_from shift_neg key x turn f m (m.b p))

  in_leaf : (f : ℕ) (a : Ptr) (p : ℕ) → Holds m p (leaf a) → LooksIn (suc f) (leaf a) p
  unfolding lookup_from leaf_count
  in_leaf f a p h =
      let e : (eb_gettag (a + 0) == 0) ≡ true = let i = h.2 in ground arith in
      rw h.0 (
        rw (e, lookup_from)
          (rw (untag-leaf a) (elim (Bool-cases (key a == x)) [
            | inl hit ↦ rw hit (record {
              found = a;
              runs = refl;
              right = inr ((==_iff (key a) x).0 hit, omega (arith, one_if_self a));
            })
            | inr miss ↦ rw miss (record { found = null; runs = refl; right = inl refl })
          ])))

  -- A pass at a node.
  abbrev pub pass : ℕ → Ptr → Bit → Option Ptr
  pass f a k =
      let side = shift shift_neg turn k % 2 in
      if bit_xor (key a) x == 0
      then if is_neg k then eb_walk_down f m (m.b (a + 0)) eb_left else some a
      else if leb 2 (shift shift_neg (bit_xor (key a) x) k)
      then some null
      else lookup_from shift_neg key x turn f m (m.b (a + side))

  pub lookup_from-node :
      (f : ℕ) (a : Ptr)
      → IsAddr a
      → lookup_from shift_neg key x turn (suc f) m (a + 1) ≡ pass f a (m.bit a)
  unfolding lookup_from
  lookup_from-node f a h =
      let e : (eb_gettag (a + 1) == 0) ≡ false = ground arith in
      rw (e, lookup_from) (ap (λ b. pass_at b) (untag-node a))
    where
      pass_at : Ptr → Option Ptr
      pass_at b = pass f b (m.bit b)

  -- The key of the node is the one that is looked for.
  hit_node :
      (f : ℕ) (a : Ptr) (k : Bit) (l r : Tree)
      → height l < f
      → Holds m (a + 0) l
      → IsAlike key (node a k l r)
      → key a ≡ x
      → Looked key x
          (node a k l r)
          (if is_neg k then eb_walk_down f m (m.b (a + 0)) eb_left else some a)
  unfolding leaf_count node_count
  hit_node f a (pos n) l r fuel h alike e = record {
    found = a;
    runs = refl;
    right = inr (e, omega (arith, one_if_self a));
  }
  hit_node f a (negsuc n) l r fuel h alike e = record {
    found = first l;
    runs = walk_down-first m f l (a + 0) fuel h;
    right = inr (alike.0 ∙ e, omega (arith, first_count l));
  }

  module _ (f : ℕ) (a : Ptr) (k : Bit) (l r : Tree) (left : LooksIn f l (a + 0))
      (rght : LooksIn f r (a + 1)) where
    go_below :
        (side : ℕ)
        → side < 2
        → Looked key x (node a k l r) (lookup_from shift_neg key x turn f m (m.b (a + side)))
    unfolding leaf_count node_count
    go_below side i = elim (ℕ-cases side) [
      | inl z ↦ rw z (wider key x l (node a k l r) (λ y. omega arith) (λ y. omega arith) left)
      | inr p ↦
          let one : side ≡ 1 = omega arith in
          rw one (wider key x r (node a k l r) (λ y. omega arith) (λ y. omega arith) rght)
    ]

    in_node :
        (p : ℕ)
        → height l < f
        → Holds m p (node a k l r)
        → IsAlike key (node a k l r)
        → LooksIn (suc f) (node a k l r) p
    in_node p fuel h alike =
        rw (h.0, lookup_from-node f a h.3, h.2)
          (elim (Bool-cases (bit_xor (key a) x == 0)) [
            | inl e ↦
                rw e (hit_node f a k l r fuel h.4 alike (equal_of_xor (key a) x ((==_iff _ 0).0 e)))
            | inr e ↦ elim (Bool-cases (leb 2 (shift shift_neg (bit_xor (key a) x) k))) [
              | inl e' ↦ rw (e, e') (record { found = null; runs = refl; right = inl refl })
              | inr e' ↦ rw (e, e') (go_below (shift shift_neg turn k % 2) (omega arith))
            ]
          ])

  pub lookup_from-Looked :
      (f : ℕ) (t : Tree) (p : ℕ) → height t < f → Holds m p t → IsAlike key t → LooksIn f t p
  unfolding height
  lookup_from-Looked zero t p fuel h alike = absurd (omega arith)
  lookup_from-Looked (suc f) (leaf a) p fuel h alike = in_leaf f a p h
  lookup_from-Looked (suc f) (node a (pos n) l r) p fuel h alike =
      in_node f a (pos n) l r (lookup_from-Looked f l (a + 0) (omega arith) h.4 alike.0)
        (lookup_from-Looked f r (a + 1) (omega arith) h.5 alike.1) p (omega arith) h alike
  lookup_from-Looked (suc f) (node a (negsuc n) l r) p fuel h alike =
      in_node f a (negsuc n) l r (lookup_from-Looked f l (a + 0) (omega arith) h.4 alike.1)
        (lookup_from-Looked f r (a + 1) (omega arith) h.5 alike.2) p (omega arith) h alike

module _ (shift_neg : ℕ → ℕ → ℕ) (key : Ptr → ℕ) (f : ℕ) (m : Mem) (root : Ptr) (x : ℕ) (t : Tree)
    (fuel : height t < f) (h : Rooted m root (some t)) (alike : IsAlike key t) where
  lookup-Looked : (turn : ℕ → ℕ) → Looked key x t (lookup shift_neg key turn f m root x)
  unfolding lookup
  lookup-Looked turn =
      let linked : (m.b (root + 0) == null) ≡ false =
        let i = link-nonnull m t (root + 0) h.1 in ground arith in
      rw linked (lookup_from-Looked shift_neg key x (turn x) m f t (root + 0) fuel h.1 alike)

  -- Given fuel above the height of the tree below the root, and that the first leaf of each tree
  -- of duplicates has the key of its nodes, `__eb32_lookup` ends. It returns NULL or a structure
  -- of the tree with the key, whatever a shift by a negative count gives.
  pub eb32_lookup-Looked : Looked key x t (eb32_lookup shift_neg key f m root x)
  unfolding eb32_lookup
  eb32_lookup-Looked = lookup-Looked (λ x. x)

  -- Given fuel above the height of the tree below the root, and that the first leaf of each tree
  -- of duplicates has the key of its nodes, `__eb32i_lookup` ends. It returns NULL or a structure
  -- of the tree with the key, whatever a shift by a negative count gives.
  pub eb32i_lookup-Looked : Looked key x t (eb32i_lookup shift_neg key f m root x)
  unfolding eb32i_lookup
  eb32i_lookup-Looked = lookup-Looked (λ x. bit_xor x 0x80000000)

  -- Given fuel above the height of the tree below the root, and that the first leaf of each tree
  -- of duplicates has the key of its nodes, `__eb64_lookup` ends. It returns NULL or a structure
  -- of the tree with the key, whatever a shift by a negative count gives.
  pub eb64_lookup-Looked : Looked key x t (eb64_lookup shift_neg key f m root x)
  unfolding eb64_lookup
  eb64_lookup-Looked = lookup-Looked (λ x. x)

  -- Given fuel above the height of the tree below the root, and that the first leaf of each tree
  -- of duplicates has the key of its nodes, `__eb64i_lookup` ends. It returns NULL or a structure
  -- of the tree with the key, whatever a shift by a negative count gives.
  pub eb64i_lookup-Looked : Looked key x t (eb64i_lookup shift_neg key f m root x)
  unfolding eb64i_lookup
  eb64i_lookup-Looked = lookup-Looked (λ x. bit_xor x (2 ^ 63))
