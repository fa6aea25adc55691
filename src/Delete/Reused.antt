-- ===== src/Delete/Reused.antt =====
-- A deletion whose removed structure has its node part in use: the released parent takes it.
use mathlib.Core.Path.{subst}
use ebmbtreebench.Delete.Lifted.{
  Doomed, lifted-Valid, released, eb_delete-lifted, outside, Dropped, lifted_unused,
}
use ebmbtreebench.Tree.{node, top, plug, Ctx, Tree, root_of, slot, leaves, contents}
use ebmbtreebench.Memory.{Mem, Ptr, set_leaf_p, null, update_self, update_ne}
use Prim.Native.Nat.{ℕ}
use ebmbtreebench.Prelude.{Option}
use ebmbtreebench.Prelude.{ℕ, ◌≡◌, ◌<◌, ◌≢◌, arith, ◌+◌, ◌==◌, false, ◌∙◌, ap, sym, some, inl, inr}
use ebmbtreebench.Tree.Valid.{
  Found, leaves_in, Site-of_Valid, nodes_in, Valid, Valid-of_Site, Site-set_leaf_p, ℕ-cases,
}
use ebmbtreebench.Tree.Hang.{Site}
use ebmbtreebench.Tree.Count.{
  nodes_around, node_count, leaf_count, leaf_count-plug, node_count-plug, one_if, one_if_self,
  node_count-le-plug,
}
use ebmbtreebench.Delete.Relabel.{
  relabelled, relabelled-Site, replace_node-relabelled, relabelled-node_p,
}
use ebmbtreebench.Delete.{eb_delete, set_leaf_p, null}
use ebmbtreebench.Delete.Unlink.{lifted}
use ebmbtreebench.Tree.Plug.{leaves-plug}
use ebmbtreebench.Tree.Frame.{base-IsAddr, slot-clrtag}

module _ (m : Mem) (q side : ℕ) (c : Ctx) (t : Tree) (x : Ptr) (d : Doomed m q side c t x)
    (f : Found x (top (root_of c)) (plug c t)) where
  abbrev old_node : Tree
  old_node = node x f.bit f.left f.rght

  abbrev new_node : Tree
  new_node = node q f.bit f.left f.rght

  whole : plug c t ≡ plug f.at old_node
  unfolding plug
  whole = f.whole

  site : Site (lifted q c t m) f.at old_node
  site = Site-of_Valid (lifted q c t m) f.at old_node (
      subst (λ r. Valid (lifted q c t m) r (some (plug f.at old_node))) (sym f.root)
        (subst (λ y. Valid (lifted q c t m) (root_of c) (some y)) whole
          (lifted-Valid m q side c t x d)))

  spare : nodes_around q f.at + node_count q old_node ≡ 0
  spare = omega (
    arith,
    node_count-plug q f.at old_node,
    ap (node_count q) whole,
    released m q side c t x d,
    node_count-plug q c t,
    d.nodes q,
    one_if_self q,
    ap (λ r. one_if r q) f.root,
  )

  ne_node : x ≢ q
  unfolding node_count
  ne_node =
      let s : nodes_around q f.at + (one_if x q + (node_count q f.left + node_count q f.rght)) ≡ 0 =
        spare in
      ground arith

  new-Site : Site (relabelled q f.at x f.bit f.left f.rght (lifted q c t m)) f.at new_node
  new-Site = relabelled-Site (lifted q c t m) q f.at x f.bit f.left f.rght site d.q_addr spare

  slot-null : (slot f.at == null) ≡ false
  slot-null =
      let a = base-IsAddr (lifted q c t m) f.at site.around in
      let e = slot-clrtag (lifted q c t m) f.at site.around in ground arith

  abbrev reused : Mem
  reused = relabelled q f.at x f.bit f.left f.rght (lifted q c t m)

  eb_delete-reused : eb_delete x m ≡ set_leaf_p x null reused
  eb_delete-reused =
      rw (eb_delete-lifted m q side c t x d, site.holds.1, slot-null)
        (ap (set_leaf_p x null) (
          replace_node-relabelled (lifted q c t m) q f.at x f.bit f.left f.rght site d.q_addr
            spare))

  same_leaves : leaves (plug f.at new_node) ≡ leaves (plug c t)
  unfolding leaves
  same_leaves = leaves-plug f.at new_node ∙ sym (leaves-plug f.at old_node) ∙ ap leaves (sym whole)

  same_leaf_count : (y : Ptr) → leaf_count y (plug f.at new_node) ≡ leaf_count y (plug c t)
  unfolding leaf_count
  same_leaf_count y =
      leaf_count-plug y f.at new_node
      ∙ sym (leaf_count-plug y f.at old_node)
      ∙ ap (leaf_count y) (sym whole)

  new_node_count :
      (y : Ptr)
      → node_count y (plug f.at new_node) + one_if x y ≡ node_count y (plug c t) + one_if q y
  unfolding node_count
  new_node_count y = omega (
    arith,
    node_count-plug y f.at new_node,
    node_count-plug y f.at old_node,
    ap (node_count y) whole,
  )

  gone : leaf_count x (plug f.at new_node) ≡ 0
  gone = omega (arith, same_leaf_count x, leaf_count-plug x c t, outside m q side c t x d)

  gone_node : node_count x (plug f.at new_node) ≡ 0
  unfolding node_count
  gone_node =
      let e : one_if q x ≡ 0 = ground (arith, ne_node) in
      omega (arith, e, site.nodes x, one_if_self x, node_count-plug x f.at new_node)

  in_use : 0 < node_count q (plug f.at new_node)
  unfolding node_count
  in_use = omega (
    arith,
    node_count-plug q f.at new_node,
    node_count-plug q f.at old_node,
    spare,
    one_if_self q,
  )

  reused_unused :
      (y : Ptr)
      → 0 < leaf_count y (plug f.at new_node)
      → node_count y (plug f.at new_node) ≡ 0
      → reused.node_p y ≡ null
  unfolding node_count
  reused_unused y i e =
      let ne_x : one_if x y ≡ 0 = not_x in
      let ne_q : one_if q y ≡ 0 = not_q in
      let ne : y ≢ q = ground arith in
      let low = node_count-le-plug y f.at new_node in
      relabelled-node_p (lifted q c t m) q f.at x f.bit f.left f.rght site d.q_addr spare y
        (omega arith) (omega arith)
      ∙ update_ne (lifted q c t m).node_p (slot f.at) ne
      ∙ lifted_unused m q side c t x d y (omega (arith, same_leaf_count y))
          (omega (arith, new_node_count y))
    where
      not_x : one_if x y ≡ 0
      not_x = elim (ℕ-cases (one_if x y)) [
        | inl z ↦ z
        | inr p ↦
            let same : y ≡ x = ground arith in
            absurd (omega (arith, ap (λ z. leaf_count z (plug f.at new_node)) same, gone))
      ]

      not_q : one_if q y ≡ 0
      not_q = elim (ℕ-cases (one_if q y)) [
        | inl z ↦ z
        | inr p ↦
            let same : y ≡ q = ground arith in
            absurd (omega (arith, ap (λ z. node_count z (plug f.at new_node)) same, in_use))
      ]

  pub used_case :
      (P : Option Tree → Type 0)
      → P (some (plug f.at new_node))
      → Dropped P x (leaves (plug c t)) (root_of c) (eb_delete x m)
  unfolding contents leaves_in nodes_in
  used_case P p = rw (eb_delete-reused) (
      subst (λ r. Dropped P x (leaves (plug c t)) r (set_leaf_p x null reused)) f.root
        (record {
          kept = p;
          removed = record {
            tree = some (plug f.at new_node);
            valid =
                Valid-of_Site (set_leaf_p x null reused) f.at new_node
                  (Site-set_leaf_p reused f.at new_node x null new-Site
                    (omega (arith, gone, leaf_count-plug x f.at new_node)))
                  reused_unused;
            rest = same_leaves;
            no_leaf = gone;
            no_node = gone_node;
            unlinked = update_self reused.leaf_p x null;
          };
        }))
