-- ===== src/Insert/Graft.antt =====
-- A new structure above a subtree keeps the tree well formed.
use ebmbtreebench.Tree.{node, leaf, Ctx, Tree, Around, Holds, slot}
use ebmbtreebench.Insert.{
  Above, Fresh, Mem, Ctx, Tree, Ptr, Bit, ℕ, nodes_around, leaves_around, node_count, leaf_count,
  eb_clrtag, slot,
}
use ebmbtreebench.Memory.{Mem, Ptr, Bit, eb_clrtag, eb_left, eb_rght}
use ebmbtreebench.Prelude.{ℕ, ◌<◌, ◌+◌, arith, ◌≢◌, ◌≤◌, inl, inr, ◌≡◌, ap}
use ebmbtreebench.Tree.Hang.{Site, Holds-move, inner_nodes-le, slot-outside, inner_leaves-le}
use ebmbtreebench.Tree.Count.{
  nodes_around, leaves_around, one_if, node_count, leaf_count, one_if_self,
}
use ebmbtreebench.Tree.Frame.{Around-frame}
use mathlib.Core.Path.{subst}
use ebmbtreebench.Tree.Valid.{ℕ-cases}

module _ (m n : Mem) (c : Ctx) (t : Tree) (new : Ptr) (k : Bit) (side : ℕ) (s : Site m c t)
    (f : Fresh new c t) (above : Above m n c t new k side) where
  ne_new_node : (a : Ptr) → 0 < nodes_around a c + node_count a t → a ≢ new
  ne_new_node a i e =
      let i' : 0 < nodes_around new c + node_count new t =
        subst (λ y. 0 < nodes_around y c + node_count y t) e i in
      absurd (omega (arith, f.no_node))

  ne_new_leaf : (a : Ptr) → 0 < leaves_around a c + leaf_count a t → a ≢ new
  ne_new_leaf a i e =
      let i' : 0 < leaves_around new c + leaf_count new t =
        subst (λ y. 0 < leaves_around y c + leaf_count y t) e i in
      absurd (omega (arith, f.no_leaf))

  around : Around n c
  around =
      Around-frame c (λ y. omega (arith, s.nodes y))
        (λ y i ne. above.same_b y ne (ne_new_node (eb_clrtag y) (omega arith)))
        (λ a i. record {
          node_p =
              above.same_node_p a (ne_new_node a (omega arith))
                (omega (arith, s.nodes a, inner_nodes-le a t));
          bit = above.same_bit a (ne_new_node a (omega arith));
        })
        (λ a i.
          above.same_leaf_p a (ne_new_leaf a (omega arith))
            (omega (arith, s.leaves a, inner_leaves-le a t)))
        s.around

  moved : Holds n (new + side) t
  moved = Holds-move t (slot c) (new + side) s.holds above.old_b above.old_up (record {
    b = λ y i.
        above.same_b y (slot-outside m c t y s.around s.nodes i)
          (ne_new_node (eb_clrtag y) (omega arith));
    node_p = λ a i.
        above.same_node_p a (ne_new_node a (omega (arith, inner_nodes-le a t)))
          (omega (arith, s.nodes a, inner_nodes-le a t));
    bit = λ a i. above.same_bit a (ne_new_node a (omega arith));
    leaf_p = λ a i.
        above.same_leaf_p a (ne_new_leaf a (omega (arith, inner_leaves-le a t)))
          (omega (arith, s.leaves a, inner_leaves-le a t));
  })

  grown_nodes : (x : Ptr) → nodes_around x c + (one_if new x + node_count x t) ≤ 1
  grown_nodes x = elim (ℕ-cases (one_if new x)) [
    | inl e ↦ omega (arith, s.nodes x)
    | inr i ↦
        let same : x ≡ new = ground arith in
        omega (
          arith,
          f.no_node,
          one_if_self new,
          ap (λ y. nodes_around y c + (one_if new y + node_count y t)) same,
        )
  ]

  grown_leaves : (x : Ptr) → leaves_around x c + (one_if new x + leaf_count x t) ≤ 1
  grown_leaves x = elim (ℕ-cases (one_if new x)) [
    | inl e ↦ omega (arith, s.leaves x)
    | inr i ↦
        let same : x ≡ new = ground arith in
        omega (
          arith,
          f.no_leaf,
          one_if_self new,
          ap (λ y. leaves_around y c + (one_if new y + leaf_count y t)) same,
        )
  ]

-- The new structure goes to the right of the old subtree, or to the left of it.
pub Site-right :
    {m n : Mem} {c : Ctx} {t : Tree} {new : Ptr} {k : Bit}
    → Site m c t
    → Fresh new c t
    → Above m n c t new k eb_left
    → Site n c (node new k t (leaf new))
unfolding node_count leaf_count
Site-right {m} {n} {c} {t} {new} {k} s f a = record {
  around = around m n c t new k eb_left s f a;
  holds = (
    a.slot_b,
    a.new_node_p,
    a.new_bit,
    f.addr,
    moved m n c t new k eb_left s f a,
    (a.new_b, a.new_leaf_p, f.addr),
  );
  nodes = λ x. omega (arith, grown_nodes m n c t new k eb_left s f a x);
  leaves = λ x. omega (arith, grown_leaves m n c t new k eb_left s f a x);
}

pub Site-left :
    {m n : Mem} {c : Ctx} {t : Tree} {new : Ptr} {k : Bit}
    → Site m c t
    → Fresh new c t
    → Above m n c t new k eb_rght
    → Site n c (node new k (leaf new) t)
unfolding node_count leaf_count
Site-left {m} {n} {c} {t} {new} {k} s f a = record {
  around = around m n c t new k eb_rght s f a;
  holds = (
    a.slot_b,
    a.new_node_p,
    a.new_bit,
    f.addr,
    (a.new_b, a.new_leaf_p, f.addr),
    moved m n c t new k eb_rght s f a,
  );
  nodes = λ x. omega (arith, grown_nodes m n c t new k eb_rght s f a x);
  leaves = λ x. omega (arith, grown_leaves m n c t new k eb_rght s f a x);
}
