-- ===== src/Wide/Same.antt =====
-- The writes of eb64tree.h come to those of eb32tree.h.
use ebmbtreebench.Wide.{set_parent, put_left, put_right, finish, ℕ, Mem}
use ebmbtreebench.Scalar.{prepare, put_between, Place}
use ebmbtreebench.Scalar.Between.{place_of}
use ebmbtreebench.Prelude.{ℕ, ◌≢◌, ◌≡◌, arith, ap, true, ◌+◌, false, ◌==◌, refl}
use ebmbtreebench.Memory.{Mem, update, Ptr, Bit, eb_gettag, eb_left, eb_rght, eb_leaf, eb_node}
use ebmbtreebench.Tree.{Tree, Holds, leaf, node}
use ebmbtreebench.Scalar.Descent.{top_of}

update_swap {ℓ} :
    {A : Type ℓ} (f : ℕ → A) (a b : ℕ) (u v : A)
    → a ≢ b
    → update (update f a u) b v ≡ update (update f b v) a u
update_swap f a b u v ne = λ i x. at x i
  where
    at : (x : ℕ) → update (update f a u) b v x ≡ update (update f b v) a u x
    at x = ground arith

update_same {ℓ} : {A : Type ℓ} (f : ℕ → A) (a : ℕ) → update f a (f a) ≡ f
update_same f a = λ i x. at x i
  where
    at : (x : ℕ) → update f a (f a) x ≡ f x
    at x = ground arith

-- Before the bit is written, it is as it was.
pub set_parent-prepare :
    (p : Place) (new : Ptr) (m : Mem) → prepare p new (m.bit new) m ≡ set_parent p new m
unfolding prepare set_parent
set_parent-prepare p new m =
    ap (λ g. record (set_parent p new m) { bit = g }) (update_same m.bit new)

module _ (m : Mem) (new : Ptr) (k : Bit) (root : Ptr) (side : ℕ) where
  pub put_left-put_between :
      (t : Tree)
      → Holds m (root + side) t
      → finish k
          (place_of root side t)
          new
          (put_left (place_of root side t) new (set_parent (place_of root side t) new m))
        ≡ put_between false (place_of root side t) new (prepare (place_of root side t) new k m)
  unfolding prepare set_parent put_left finish put_between
  put_left-put_between (leaf a) h =
      let e : (eb_gettag (a + 0) == 0) ≡ true = let i = h.2 in ground arith in rw e refl
  put_left-put_between (node a k' l r) h =
      let e : (eb_gettag (a + 1) == 0) ≡ false = let i = h.3 in ground arith in rw e refl

  -- The store beside the leaf `a`, but for its parent pointers of leaves.
  abbrev beside_leaf : Ptr → (Ptr → Ptr) → Mem
  beside_leaf a g = record {
    b =
        update (update (update m.b (new + eb_left) (a + 0)) (new + eb_rght) (new + eb_leaf))
          (root + side) (new + eb_node);
    node_p = update m.node_p new (m.leaf_p a);
    leaf_p = g;
    bit = update m.bit new k;
  }

  pub put_right-put_between :
      (t : Tree)
      → Holds m (root + side) t
      → top_of t ≢ new
      → finish k
          (place_of root side t)
          new
          (put_right (place_of root side t) new (set_parent (place_of root side t) new m))
        ≡ put_between true (place_of root side t) new (prepare (place_of root side t) new k m)
  unfolding prepare set_parent put_right finish put_between
  put_right-put_between (leaf a) h ne =
      let e : (eb_gettag (a + 0) == 0) ≡ true = let i = h.2 in ground arith in
      rw e (ap (beside_leaf a) (update_swap m.leaf_p a new (new + 0) (new + 1) ne))
  put_right-put_between (node a k' l r) h ne =
      let e : (eb_gettag (a + 1) == 0) ≡ false = let i = h.3 in ground arith in rw e refl
