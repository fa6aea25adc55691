-- ===== src/Delete/Correct.antt =====
-- `__eb_delete` removes one leaf and keeps the others, in order.
use ebmbtreebench.Prelude.{
  some, none, Option, inl, inr, refl, [], ◌++◌, ℕ, arith, ◌∙◌, sym, ◌+◌, ◌==◌, ◌≡◌, false, ap, ◌≢◌,
}
use ebmbtreebench.Tree.{
  leaf, node, top, in_left, in_rght, plug, before, Ctx, after, Tree, leaves, root_of, contents,
}
use ebmbtreebench.Delete.Lifted.{Dropped, Removed, Doomed, unused_case}
use ebmbtreebench.Delete.Reused.{used_case}
use ebmbtreebench.Memory.{
  Mem, Ptr, eb_left, Bit, eb_rght, null, eb_gettag, eb_untag, eb_clrtag, update_ne, update_self,
}
use ebmbtreebench.Tree.Valid.{Valid, ℕ-cases, Site-of_Valid, Found, find, leaves_in, nodes_in}
use ebmbtreebench.Delete.{eb_delete, eb_left, eb_rght, null, eb_gettag, eb_untag, eb_clrtag}
use ebmbtreebench.Tree.Count.{
  node_count, leaf_count, leaves_around, nodes_around, leaf_count-plug, node_count-plug,
}
use mathlib.Core.Path.{subst}
use ebmbtreebench.Tree.Plug.{leaves-plug}
use mathlib.Core.List.{append_assoc}
use ebmbtreebench.Walk.Step.{link-nonnull}

module _ (m : Mem) (x : Ptr) where
  -- What must be shown of the trees that a deletion in the slot of `c`, whose sibling is `t`, may
  -- end with, for it to end with a tree that has the property `P`.
  abbrev pub EndsWell : (Option Tree → Type 0) → Ptr → Ctx → Tree → Type 0
  EndsWell P q c t =
      (node_count x (plug c t) ≡ 0 → P (some (plug c t)))
      × ((f : Found x (top (root_of c)) (plug c t))
          → P (some (plug f.at (node q f.bit f.left f.rght))))

  abbrev pub KeepsTo : (Option Tree → Type 0) → Ctx → Type 0
  KeepsTo P (top root) = P none
  KeepsTo P (in_left q k r c) = EndsWell P q c r
  KeepsTo P (in_rght q k l c) = EndsWell P q c l

  Doomed-case :
      (P : Option Tree → Type 0) (q side : ℕ) (c : Ctx) (t : Tree)
      → EndsWell P q c t
      → Doomed m q side c t x
      → Dropped P x (leaves (plug c t)) (root_of c) (eb_delete x m)
  unfolding plug
  Doomed-case P q side c t p d = elim (ℕ-cases (node_count x (plug c t))) [
    | inl e ↦ unused_case m q side c t x d P (p.0 e) e
    | inr i ↦
        let f = find x (top (root_of c)) (plug c t) i in used_case m q side c t x d f P (p.1 f)
  ]

  pub in_left-Doomed :
      (q : Ptr) (k : Bit) (r : Tree) (c : Ctx)
      → Valid m (root_of c) (some (plug (in_left q k r c) (leaf x)))
      → Doomed m q eb_left c r x
  unfolding plug leaf_count node_count leaves_around nodes_around leaves_in nodes_in
  in_left-Doomed q k r c v =
      let s = Site-of_Valid m (in_left q k r c) (leaf x) v in
      record {
        around = s.around.5;
        sibling = s.around.4;
        side_le = omega arith;
        leaf_up = s.holds.1;
        node_up = s.around.1;
        q_addr = s.around.3;
        x_addr = s.holds.2;
        below = link-nonnull m r (q + eb_rght) s.around.4;
        nodes = λ y. omega (arith, s.nodes y);
        leaves = λ y. omega (arith, s.leaves y);
        unused = λ y i e.
            v.unused y (omega (arith, leaf_count-plug y c (node q k (leaf x) r)))
              (omega (arith, node_count-plug y c (node q k (leaf x) r), node_count-plug y c r));
      }

  pub in_rght-Doomed :
      (q : Ptr) (k : Bit) (l : Tree) (c : Ctx)
      → Valid m (root_of c) (some (plug (in_rght q k l c) (leaf x)))
      → Doomed m q eb_rght c l x
  unfolding plug leaf_count node_count leaves_around nodes_around leaves_in nodes_in
  in_rght-Doomed q k l c v =
      let s = Site-of_Valid m (in_rght q k l c) (leaf x) v in
      record {
        around = s.around.5;
        sibling = s.around.4;
        side_le = omega arith;
        leaf_up = s.holds.1;
        node_up = s.around.1;
        q_addr = s.around.3;
        x_addr = s.holds.2;
        below = link-nonnull m (leaf x) (q + eb_rght) s.holds;
        nodes = λ y. omega (arith, s.nodes y);
        leaves = λ y. omega (arith, s.leaves y);
        unused = λ y i e.
            v.unused y (omega (arith, leaf_count-plug y c (node q k l (leaf x))))
              (omega (arith, node_count-plug y c (node q k l (leaf x)), node_count-plug y c l));
      }

  last_leaf :
      (P : Option Tree → Type 0) (root : Ptr)
      → P none
      → Valid m root (some (leaf x))
      → Dropped P x [] root (eb_delete x m)
  unfolding eb_delete contents leaves_in nodes_in
  last_leaf P root p v =
      let (around, holds) = v.rooted in
      let up : (root + 0 == null) ≡ false = let a = around.1 in ground arith in
      let side : eb_gettag (root + 0) ≡ 0 = let a = around.1 in omega arith in
      let parent : eb_untag (root + 0) 0 ≡ root = omega arith in
      rw (holds.1, side)
        (rw (parent, up, around.0)
          (record {
            kept = p;
            removed = record {
              tree = none;
              valid = record {
                rooted = (
                  (
                    ap eb_clrtag
                          (update_ne m.b null (let n : root + 1 ≢ root + 0 = omega arith in n))
                        ∙ around.0,
                    around.1,
                  ),
                  update_self m.b (root + 0) null,
                );
                nodes = λ y. omega (arith, v.nodes y);
                leaves = λ y. omega arith;
                unused = λ y i e. absurd (omega arith);
              };
              rest = refl;
              no_leaf = refl;
              no_node = refl;
              unlinked = update_self m.leaf_p x null;
            };
          }))

  pub eb_delete-Dropped :
      (P : Option Tree → Type 0) (c : Ctx)
      → KeepsTo P c
      → Valid m (root_of c) (some (plug c (leaf x)))
      → Dropped P x (before c ++ after c) (root_of c) (eb_delete x m)
  unfolding before after plug
  eb_delete-Dropped P (top root) p v = last_leaf P root p v
  eb_delete-Dropped P (in_left q k r c) p v =
      subst (λ xs. Dropped P x xs (root_of c) (eb_delete x m)) (leaves-plug c r)
        (Doomed-case P q eb_left c r p (in_left-Doomed q k r c v))
  eb_delete-Dropped P (in_rght q k l c) p v =
      subst (λ xs. Dropped P x xs (root_of c) (eb_delete x m))
        (leaves-plug c l ∙ sym (append_assoc (before c) (leaves l) (after c)))
        (Doomed-case P q eb_rght c l p (in_rght-Doomed q k l c v))

  nothing : (c : Ctx) → KeepsTo (λ t. Unit {0}) c
  nothing (top root) = tt
  nothing (in_left q k r c) = ((λ e. tt), (λ f. tt))
  nothing (in_rght q k l c) = ((λ e. tt), (λ f. tt))

  -- Deleting the leaf `x` of a valid tree, wherever its node part is, gives a valid tree (or the
  -- empty one) whose leaves are the leaves before `x` and those after it, in their order. The
  -- structure `x` is then in no role in the tree, and is marked as unlinked.
  pub eb_delete-Removed :
      (c : Ctx)
      → Valid m (root_of c) (some (plug c (leaf x)))
      → Removed x (before c ++ after c) (root_of c) (eb_delete x m)
  eb_delete-Removed c v = (eb_delete-Dropped (λ t. Unit {0}) c (nothing c) v).removed
