-- ===== src/Delete/Relabel.antt =====
-- The second half of a deletion: the spare structure takes over the node part of the removed
-- one, wherever that is in the tree.
use ebmbtreebench.Delete.Unlink.{reparent-hang}
use ebmbtreebench.Memory.{
  update, Mem, Ptr, eb_clrtag, eb_left, eb_rght, Bit, eb_node, untag_gettag, update_ne, update_self,
}
use ebmbtreebench.Tree.{Ctx, Tree, link, node, slot, IsAddr, Holds}
use ebmbtreebench.Prelude.{◌+◌, ◌≡◌, ◌≢◌, ap, sym, ◌∙◌, ◌<◌, arith, ==_iff, refl, ◌≤◌, ℕ}
use ebmbtreebench.Tree.Hang.{
  hang, Site, Holds-link, Holds-TopIsAddr, hang-b, hang-bit, hang-node_p, hang-leaf_p, slot-outside,
  inner_nodes-le, inner_leaves-le, Holds-move, UpIs-hang, hang-UpIs,
}
use ebmbtreebench.Tree.Count.{
  nodes_around, node_count, leaf_count, inner_nodes, inner_leaves, one_if, leaves_around,
}
use ebmbtreebench.Delete.{replace_node, ℕ, eb_node}
use ebmbtreebench.Tree.Frame.{clrtag-left, clrtag-rght, slot-Around, Around-frame}
use mathlib.Core.Path.{subst}

module _ (q : Ptr) (d : Ctx) (x : Ptr) (k : Bit) (l r : Tree) (m : Mem) where
  -- The store after the writes to the spare structure and to the slot above it.
  abbrev pub taken_over : Mem
  taken_over = record m {
    b = update (update (update m.b (q + eb_left) (link l)) (q + eb_rght) (link r)) (slot d) (q + 1);
    node_p = update m.node_p q (slot d);
    bit = update m.bit q k;
  }

  abbrev pub relabelled : Mem
  relabelled = hang r (q + eb_rght) (hang l (q + eb_left) taken_over)

module _ (m : Mem) (q : Ptr) (d : Ctx) (x : Ptr) (k : Bit) (l r : Tree)
    (site : Site m d (node x k l r)) (addr : IsAddr q)
    (unused : nodes_around q d + node_count q (node x k l r) ≡ 0) where
  slot-ne-left : (q + eb_left) ≢ slot d
  unfolding node_count
  slot-ne-left e =
      let at : eb_clrtag (slot d) ≡ q = ap eb_clrtag (sym e) ∙ clrtag-left addr in
      let i : 0 < nodes_around q d =
        subst (λ y. 0 < nodes_around y d) at (slot-Around m d site.around) in
      absurd (omega arith)

  slot-ne-rght : (q + eb_rght) ≢ slot d
  unfolding node_count
  slot-ne-rght e =
      let at : eb_clrtag (slot d) ≡ q = ap eb_clrtag (sym e) ∙ clrtag-rght addr in
      let i : 0 < nodes_around q d =
        subst (λ y. 0 < nodes_around y d) at (slot-Around m d site.around) in
      absurd (omega arith)

  -- The branches of the spare structure, as they are read back.
  taken_over-left : (taken_over q d x k l r m).b (q + eb_left) ≡ link l
  taken_over-left = ground (arith, slot-ne-left)

  taken_over-rght : (taken_over q d x k l r m).b (q + eb_rght) ≡ link r
  taken_over-rght = ground (arith, slot-ne-rght)

  pub replace_node-relabelled : replace_node q x m ≡ relabelled q d x k l r m
  unfolding replace_node
  replace_node-relabelled =
      let h = site.holds in
      let top_l = Holds-TopIsAddr m (x + 0) l h.4 in
      let top_r = Holds-TopIsAddr m (x + 1) r h.5 in
      rw (h.1, h.2, Holds-link m (x + 0) l h.4, Holds-link m (x + 1) r h.5, (==_iff q q).1 refl)
        (rw (untag_gettag (slot d)) (
          rw (taken_over-left) (
            rw (reparent-hang _ l (q + 0) top_l) (
              rw (hang-b l (q + 0) _ (q + 1))
                (rw taken_over-rght (reparent-hang _ r (q + 1) top_r))))))

  relabelled-b : (s : ℕ) → eb_clrtag s ≢ q → s ≢ slot d → (relabelled q d x k l r m).b s ≡ m.b s
  relabelled-b s ne ne' =
      let n1 : s ≢ q + eb_left = λ e. ne (ap eb_clrtag e ∙ clrtag-left addr) in
      let n2 : s ≢ q + eb_rght = λ e. ne (ap eb_clrtag e ∙ clrtag-rght addr) in
      let same : (taken_over q d x k l r m).b s ≡ m.b s = ground arith in
      hang-b r (q + eb_rght) (hang l (q + eb_left) (taken_over q d x k l r m)) s
      ∙ hang-b l (q + eb_left) (taken_over q d x k l r m) s
      ∙ same

  relabelled-bit : (a : Ptr) → (relabelled q d x k l r m).bit a ≡ (taken_over q d x k l r m).bit a
  relabelled-bit a =
      hang-bit r (q + eb_rght) (hang l (q + eb_left) (taken_over q d x k l r m)) a
      ∙ hang-bit l (q + eb_left) (taken_over q d x k l r m) a

  pub relabelled-node_p :
      (a : Ptr)
      → node_count a l ≤ inner_nodes a l
      → node_count a r ≤ inner_nodes a r
      → (relabelled q d x k l r m).node_p a ≡ (taken_over q d x k l r m).node_p a
  relabelled-node_p a i j =
      hang-node_p r (q + eb_rght) (hang l (q + eb_left) (taken_over q d x k l r m)) a j
      ∙ hang-node_p l (q + eb_left) (taken_over q d x k l r m) a i

  pub relabelled-leaf_p :
      (a : Ptr)
      → leaf_count a l ≤ inner_leaves a l
      → leaf_count a r ≤ inner_leaves a r
      → (relabelled q d x k l r m).leaf_p a ≡ m.leaf_p a
  relabelled-leaf_p a i j =
      hang-leaf_p r (q + eb_rght) (hang l (q + eb_left) (taken_over q d x k l r m)) a j
      ∙ hang-leaf_p l (q + eb_left) (taken_over q d x k l r m) a i

  distinct : (y : Ptr) → nodes_around y d + (one_if x y + (node_count y l + node_count y r)) ≤ 1
  unfolding node_count
  distinct y = site.nodes y

  once : (y : Ptr) → leaves_around y d + (leaf_count y l + leaf_count y r) ≤ 1
  unfolding leaf_count
  once y = site.leaves y

  fresh : nodes_around q d + (node_count q l + node_count q r) ≡ 0
  unfolding node_count
  fresh = omega (arith, unused)

  -- What has its node part elsewhere in the tree is not the spare structure.
  ne_spare : (a : Ptr) → 0 < nodes_around a d + (node_count a l + node_count a r) → a ≢ q
  ne_spare a i e =
      let i' : 0 < nodes_around q d + (node_count q l + node_count q r) =
        subst (λ y. 0 < nodes_around y d + (node_count y l + node_count y r)) e i in
      absurd (omega (arith, fresh))

  ne_slot : (s : ℕ) → 0 < node_count (eb_clrtag s) l + node_count (eb_clrtag s) r → s ≢ slot d
  unfolding node_count
  ne_slot s i = slot-outside m d (node x k l r) s site.around site.nodes (omega arith)

  same_node_p :
      (a : Ptr)
      → 0 < nodes_around a d + (inner_nodes a l + inner_nodes a r)
      → (relabelled q d x k l r m).node_p a ≡ m.node_p a
  same_node_p a i =
      let ls = inner_nodes-le a l in
      let rs = inner_nodes-le a r in
      relabelled-node_p a (omega (arith, distinct a)) (omega (arith, distinct a))
      ∙ update_ne m.node_p (slot d) (ne_spare a (omega arith))

  same_bit :
      (a : Ptr)
      → 0 < nodes_around a d + (node_count a l + node_count a r)
      → (relabelled q d x k l r m).bit a ≡ m.bit a
  same_bit a i = relabelled-bit a ∙ update_ne m.bit k (ne_spare a i)

  same_leaf_p :
      (a : Ptr)
      → 0 < leaves_around a d + (inner_leaves a l + inner_leaves a r)
      → (relabelled q d x k l r m).leaf_p a ≡ m.leaf_p a
  same_leaf_p a i =
      let ls = inner_leaves-le a l in
      let rs = inner_leaves-le a r in
      relabelled-leaf_p a (omega (arith, once a)) (omega (arith, once a))

  same_b :
      (s : ℕ)
      → 0 < nodes_around (eb_clrtag s) d + (node_count (eb_clrtag s) l + node_count (eb_clrtag s) r)
      → s ≢ slot d
      → (relabelled q d x k l r m).b s ≡ m.b s
  same_b s i ne = relabelled-b s (ne_spare (eb_clrtag s) i) ne

  Holds-left : Holds (relabelled q d x k l r m) (q + eb_left) l
  Holds-left =
      let hung = hang l (q + eb_left) (taken_over q d x k l r m) in
      Holds-move l (x + eb_left) (q + eb_left) site.holds.4
        (hang-b r (q + eb_rght) hung (q + eb_left)
          ∙ hang-b l (q + eb_left) (taken_over q d x k l r m) (q + eb_left)
          ∙ taken_over-left)
        (UpIs-hang l r (q + eb_left) (q + eb_rght) hung (λ a. omega (arith, once a))
          (λ a. omega (arith, distinct a)) (hang-UpIs l (q + eb_left) (taken_over q d x k l r m)))
        (record {
          b = λ s i. same_b s (omega arith) (ne_slot s (omega arith));
          node_p = λ a i. same_node_p a (omega arith);
          bit = λ a i. same_bit a (omega arith);
          leaf_p = λ a i. same_leaf_p a (omega arith);
        })

  Holds-rght : Holds (relabelled q d x k l r m) (q + eb_rght) r
  Holds-rght =
      let hung = hang l (q + eb_left) (taken_over q d x k l r m) in
      Holds-move r (x + eb_rght) (q + eb_rght) site.holds.5
        (hang-b r (q + eb_rght) hung (q + eb_rght)
          ∙ hang-b l (q + eb_left) (taken_over q d x k l r m) (q + eb_rght)
          ∙ taken_over-rght)
        (hang-UpIs r (q + eb_rght) hung)
        (record {
          b = λ s i. same_b s (omega arith) (ne_slot s (omega arith));
          node_p = λ a i. same_node_p a (omega arith);
          bit = λ a i. same_bit a (omega arith);
          leaf_p = λ a i. same_leaf_p a (omega arith);
        })

  pub relabelled-Site : Site (relabelled q d x k l r m) d (node q k l r)
  unfolding node_count leaf_count
  relabelled-Site = record {
    around =
        Around-frame d (λ y. omega (arith, distinct y)) (λ s i. same_b s (omega arith))
          (λ a i. record { node_p = same_node_p a (omega arith); bit = same_bit a (omega arith) })
          (λ a i. same_leaf_p a (omega arith)) site.around;
    holds = (
      hang-b r (q + eb_rght) (hang l (q + eb_left) (taken_over q d x k l r m)) (slot d)
          ∙ hang-b l (q + eb_left) (taken_over q d x k l r m) (slot d)
          ∙ update_self (update (update m.b (q + eb_left) (link l)) (q + eb_rght) (link r)) (slot d)
              (q + eb_node),
      relabelled-node_p q (omega (arith, fresh)) (omega (arith, fresh))
          ∙ update_self m.node_p q (slot d),
      relabelled-bit q ∙ update_self m.bit q k,
      addr,
      Holds-left,
      Holds-rght,
    );
    nodes = λ y. ground (arith, distinct y, fresh);
    leaves = once;
  }
