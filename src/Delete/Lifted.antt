-- ===== src/Delete/Lifted.antt =====
-- A deletion up to the point where the removed structure's node part may be in use.
use mathlib.Core.Path.{subst}
use ebmbtreebench.Prelude.{
  ℕ, some, refl, inl, inr, List, Option, ◌<◌, ◌+◌, ◌-◌, ◌≡◌, ◌≤◌, arith, ◌==◌, false, ◌≢◌, ◌∙◌,
  if◌then◌else◌,
}
use ebmbtreebench.Tree.{
  plug, Ctx, Tree, Around, contents, Holds, slot, IsAddr, link, leaves, root_of,
}
use ebmbtreebench.Memory.{
  Ptr, Mem, null, eb_clrtag, update_ne, eb_rght, update, eb_gettag, eb_untag, set_leaf_p,
  update_self,
}
use ebmbtreebench.Tree.Valid.{Valid, leaves_in, nodes_in, ℕ-cases, Valid-of_Site, Site-set_leaf_p}
use ebmbtreebench.Tree.Count.{
  leaves_around, one_if, leaf_count, node_count, one_if_self, nodes_around, node_count-plug,
  leaf_count-plug, node_count-le-plug,
}
use ebmbtreebench.Tree.Hang.{Site, hang, hang-node_p, Holds-link, Holds-TopIsAddr}
use ebmbtreebench.Delete.Unlink.{lifted, lifted-Site, release_parent-hang}
use ebmbtreebench.Delete.{eb_delete, set_leaf_p, replace_node}

-- What a deletion makes of the store: `x` is out of the tree, and `xs` are its leaves.
pub record Removed (x : Ptr) (xs : List Ptr) (root : Ptr) (n : Mem) : Type 0 where
  pub tree : Option Tree
  pub valid : Valid n root tree
  pub rest : contents tree ≡ xs
  pub no_leaf : leaves_in x tree ≡ 0
  pub no_node : nodes_in x tree ≡ 0
  pub unlinked : n.leaf_p x ≡ null

-- A deletion whose tree has the property `P`.
pub record Dropped (P : Option Tree → Type 0) (x : Ptr) (xs : List Ptr) (root : Ptr) (n : Mem)
    : Type 0 where
  pub removed : Removed x xs root n
  pub kept : P removed.tree

-- The facts about the leaf `x` below the node `q`, whose other branch is `t`, in the slot `p`.
pub record Doomed (m : Mem) (q : Ptr) (side : ℕ) (c : Ctx) (t : Tree) (x : Ptr) : Type 0 where
  pub around : Around m c
  pub sibling : Holds m (q + (1 - side)) t
  pub side_le : side ≤ 1
  pub leaf_up : m.leaf_p x ≡ q + side
  pub node_up : m.node_p q ≡ slot c
  pub q_addr : IsAddr q
  pub x_addr : IsAddr x
  pub below : (eb_clrtag (m.b (q + eb_rght)) == null) ≡ false
  pub nodes : (y : Ptr) → one_if q y + (nodes_around y c + node_count y t) ≤ 1
  pub leaves : (y : Ptr) → one_if x y + (leaves_around y c + leaf_count y t) ≤ 1
  pub unused :
      (y : Ptr)
      → 0 < one_if x y + (leaves_around y c + leaf_count y t)
      → one_if q y + node_count y (plug c t) ≡ 0
      → m.node_p y ≡ null

module _ (m : Mem) (q side : ℕ) (c : Ctx) (t : Tree) (x : Ptr) (d : Doomed m q side c t x) where
  once : (y : Ptr) → leaves_around y c + leaf_count y t ≤ 1
  once y = omega (arith, d.leaves y)

  pub outside : leaves_around x c + leaf_count x t ≡ 0
  outside = omega (arith, d.leaves x, one_if_self x)

  pub sibling-Site : Site (lifted q c t m) c t
  sibling-Site = lifted-Site m q c t (q + (1 - side)) d.around d.sibling d.nodes once

  -- The removed leaf's node part is in use just where the sibling's new surroundings have it.
  pub lifted_unused :
      (y : Ptr)
      → 0 < one_if x y + leaf_count y (plug c t)
      → node_count y (plug c t) ≡ 0
      → (lifted q c t m).node_p y ≡ null
  lifted_unused y i e = elim (ℕ-cases (one_if q y)) [
    | inl miss ↦
        update_ne (hang t (slot c) (record m { b = update m.b (slot c) (link t) })).node_p null
          (let ne : y ≢ q = ground arith in ne)
        ∙ hang-node_p t (slot c) (record m { b = update m.b (slot c) (link t) }) y
            (omega (arith, node_count-le-plug y c t))
        ∙ d.unused y (omega (arith, leaf_count-plug y c t)) (omega arith)
    | inr hit ↦
        let same : q ≡ y = ground arith in
        subst (λ z. (lifted q c t m).node_p z ≡ null) same
          (update_self (hang t (slot c) (record m { b = update m.b (slot c) (link t) })).node_p q
            null)
  ]

  side_of : eb_gettag (q + side) ≡ side
  side_of = let a = d.q_addr in let s = d.side_le in omega arith

  parent_of : eb_untag (q + side) side ≡ q
  parent_of = omega arith

  linked : (q + side == null) ≡ false
  linked = let a = d.q_addr in ground arith

  pub eb_delete-lifted : eb_delete x m ≡ (
      if (lifted q c t m).node_p x == null
      then set_leaf_p x null (lifted q c t m)
      else set_leaf_p x null (replace_node q x (lifted q c t m)))
  unfolding eb_delete
  eb_delete-lifted =
      rw (d.leaf_up, side_of)
        (rw (parent_of, linked, d.below)
          (rw (
            release_parent-hang m q side (slot c) t d.node_up
              (Holds-link m (q + (1 - side)) t d.sibling)
              (Holds-TopIsAddr m (q + (1 - side)) t d.sibling))))

  abbrev result : Mem
  result = set_leaf_p x null (replace_node q x (lifted q c t m))

  pub unused_case :
      (P : Option Tree → Type 0)
      → P (some (plug c t))
      → node_count x (plug c t) ≡ 0
      → Dropped P x (leaves (plug c t)) (root_of c) (eb_delete x m)
  unfolding contents leaves_in nodes_in
  unused_case P p e =
      rw (eb_delete-lifted, lifted_unused x (omega (arith, one_if_self x)) e)
        (record {
          kept = p;
          removed = record {
            tree = some (plug c t);
            valid =
                Valid-of_Site (set_leaf_p x null (lifted q c t m)) c t
                  (Site-set_leaf_p (lifted q c t m) c t x null sibling-Site outside)
                  (λ y i j. lifted_unused y (omega arith) j);
            rest = refl;
            no_leaf = omega (arith, leaf_count-plug x c t, outside);
            no_node = e;
            unlinked = update_self (lifted q c t m).leaf_p x null;
          };
        })

  pub lifted-Valid : Valid (lifted q c t m) (root_of c) (some (plug c t))
  lifted-Valid =
      Valid-of_Site (lifted q c t m) c t sibling-Site (λ y i j. lifted_unused y (omega arith) j)

  pub released : node_count q (plug c t) ≡ 0
  released = omega (arith, node_count-plug q c t, d.nodes q, one_if_self q)
