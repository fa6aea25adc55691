-- ===== src/Delete/Unlink.antt =====
-- The first half of a deletion: the sibling of the removed leaf takes the place of its parent.
use ebmbtreebench.Prelude.{ℕ, ◌+◌, ◌-◌, ◌≡◌, ap, arith, ◌==◌, true, false, ◌≤◌, ◌≢◌, ◌<◌, ◌∙◌}
use ebmbtreebench.Memory.{
  Ptr, null, Mem, set_leaf_p, set_node_p, update, eb_gettag, untag_gettag, update_ne, update_self,
}
use ebmbtreebench.Tree.{Tree, leaf, node, link, IsAddr, Ctx, slot, Around, Holds}
use ebmbtreebench.Tree.Hang.{
  hang, TopIsAddr, Site, splice, hang-bit, hang-b, slot-outside, inner_nodes-le, hang-leaf_p,
  hang-node_p, inner_leaves-le, UpIs-set_node_p, hang-UpIs,
}
use ebmbtreebench.Delete.{reparent, release_parent}
use ebmbtreebench.Tree.Count.{
  one_if, node_count, nodes_around, leaves_around, leaf_count, inner_nodes, inner_leaves,
  one_if_self,
}

tag-leaf : (a : Ptr) → IsAddr a → (eb_gettag (a + 0) == 0) ≡ true
tag-leaf a h = ground arith

tag-node : (a : Ptr) → IsAddr a → (eb_gettag (a + 1) == 0) ≡ false
tag-node a h = ground arith

pub reparent-hang :
    (m : Mem) (t : Tree) (up : Ptr) → TopIsAddr t → reparent (link t) up m ≡ hang t up m
unfolding reparent
reparent-hang m (leaf a) up h = rw (tag-leaf a h) (ap (λ x. set_leaf_p x up m) (omega arith))
reparent-hang m (node a k l r) up h = rw (tag-node a h) (ap (λ x. set_node_p x up m) (omega arith))

pub release_parent-hang :
    (m : Mem) (q side g : ℕ) (t : Tree)
    → m.node_p q ≡ g
    → m.b (q + (1 - side)) ≡ link t
    → TopIsAddr t
    → release_parent q side m
      ≡ set_node_p q null (hang t g (record m { b = update m.b g (link t) }))
unfolding release_parent
release_parent-hang m q side g t up e h =
    rw (up, e, untag_gettag g)
      (rw (update_self m.b g (link t))
        (rw (reparent-hang (record m { b = update m.b g (link t) }) t g h)))

-- `t` at the slot `p` moves up to the slot of `c`, and the node part of `q` is released.
abbrev pub lifted : Ptr → Ctx → Tree → Mem → Mem
lifted q c t m = set_node_p q null (hang t (slot c) (record m { b = update m.b (slot c) (link t) }))

module _ (m : Mem) (q : Ptr) (c : Ctx) (t : Tree) (p : ℕ) (around : Around m c)
    (holds : Holds m p t) (nodes : (x : Ptr) → one_if q x + (nodes_around x c + node_count x t) ≤ 1)
    (once : (x : Ptr) → leaves_around x c + leaf_count x t ≤ 1) where
  abbrev raised : Mem
  raised = record m { b = update m.b (slot c) (link t) }

  lifted-b : (s : ℕ) → s ≢ slot c → (lifted q c t m).b s ≡ m.b s
  lifted-b s ne = hang-b t (slot c) raised s ∙ update_ne m.b (link t) ne

  lifted-node_p :
      (a : Ptr) → 0 < nodes_around a c + inner_nodes a t → (lifted q c t m).node_p a ≡ m.node_p a
  lifted-node_p a i =
      update_ne (hang t (slot c) raised).node_p null (λ e.
        absurd
          (let e' : one_if q a ≡ 1 = ground arith in omega (arith, nodes a, inner_nodes-le a t)))
      ∙ hang-node_p t (slot c) raised a (omega (arith, nodes a, inner_nodes-le a t))

  lifted-leaf_p :
      (a : Ptr) → 0 < leaves_around a c + inner_leaves a t → (lifted q c t m).leaf_p a ≡ m.leaf_p a
  lifted-leaf_p a i = hang-leaf_p t (slot c) raised a (omega (arith, once a, inner_leaves-le a t))

  pub lifted-Site : Site (lifted q c t m) c t
  lifted-Site =
      let fits =
        λ (x : Ptr). let h : nodes_around x c + node_count x t ≤ 1 = omega (arith, nodes x) in h in
      splice c t p around holds fits once
        (record {
          b = λ s i ne. lifted-b s ne;
          link = λ a i. record {
            node_p = lifted-node_p a (omega arith);
            bit = hang-bit t (slot c) raised a;
          };
          leaf_p = λ a i. lifted-leaf_p a (omega arith);
        })
        (record {
          b = λ s i. lifted-b s (slot-outside m c t s around fits i);
          node_p = λ a i. lifted-node_p a (omega arith);
          bit = λ a i. hang-bit t (slot c) raised a;
          leaf_p = λ a i. lifted-leaf_p a (omega arith);
        })
        (hang-b t (slot c) raised (slot c) ∙ update_self m.b (slot c) (link t))
        (UpIs-set_node_p t (slot c) (hang t (slot c) raised) q null
          (omega (arith, nodes q, one_if_self q)) (hang-UpIs t (slot c) raised))
