-- ===== src/Insert/Writes.antt =====
-- The writes of an insertion, in terms of the slot, the old subtree and the new structure.
use ebmbtreebench.Tree.{Ctx, Tree, slot, link}
use ebmbtreebench.Insert.{
  Above, Fresh, written, Mem, ℕ, Ptr, Ctx, Tree, Bit, slot, eb_node, link, eb_leaf, eb_clrtag,
  update, nodes_around,
}
use ebmbtreebench.Memory.{
  Mem, Ptr, Bit, eb_node, eb_leaf, eb_clrtag, update, update_self, update_ne,
}
use ebmbtreebench.Prelude.{ℕ, ◌≡◌, ◌+◌, ◌-◌, ◌≢◌, ◌∙◌, arith, ◌<◌}
use ebmbtreebench.Tree.Hang.{hang-b, hang-node_p, hang-leaf_p, hang-bit, hang-UpIs, Site}
use ebmbtreebench.Tree.Count.{nodes_around}
use mathlib.Core.Path.{subst}
use ebmbtreebench.Tree.Frame.{slot-Around}

-- The slot of an insertion is no slot of the new structure.
pub ne_slot :
    (m : Mem) (c : Ctx) (t : Tree) (new : Ptr)
    → Site m c t
    → Fresh new c t
    → eb_clrtag (slot c) ≢ new
ne_slot m c t new s f e =
    let i : 0 < nodes_around new c =
      subst (λ y. 0 < nodes_around y c) e (slot-Around m c s.around) in
    absurd (omega (arith, f.no_node))

module _ (m : Mem) (nb : ℕ → Ptr) (c : Ctx) (t : Tree) (new : Ptr) (k : Bit) (side : ℕ)
    (f : Fresh new c t) (slot_b : nb (slot c) ≡ new + eb_node) (old_b : nb (new + side) ≡ link t)
    (new_b : nb (new + (1 - side)) ≡ new + eb_leaf)
    (same_b : (s : ℕ) → s ≢ slot c → eb_clrtag s ≢ new → nb s ≡ m.b s) where
  abbrev marked : Mem
  marked = record {
    b = nb;
    node_p = update m.node_p new (slot c);
    leaf_p = update m.leaf_p new (new + (1 - side));
    bit = update m.bit new k;
  }

  pub written-Above : Above m (written nb (slot c) t new k side m) c t new k side
  written-Above = record {
    slot_b = hang-b t (new + side) marked (slot c) ∙ slot_b;
    old_b = hang-b t (new + side) marked (new + side) ∙ old_b;
    new_b = hang-b t (new + side) marked (new + (1 - side)) ∙ new_b;
    same_b = λ s ne ne'. hang-b t (new + side) marked s ∙ same_b s ne ne';
    new_node_p =
        hang-node_p t (new + side) marked new (omega (arith, f.no_node))
        ∙ update_self m.node_p new (slot c);
    new_leaf_p =
        hang-leaf_p t (new + side) marked new (omega (arith, f.no_leaf))
        ∙ update_self m.leaf_p new (new + (1 - side));
    new_bit = hang-bit t (new + side) marked new ∙ update_self m.bit new k;
    old_up = hang-UpIs t (new + side) marked;
    same_node_p =
        λ a ne le. hang-node_p t (new + side) marked a le ∙ update_ne m.node_p (slot c) ne;
    same_leaf_p = λ a ne le.
        hang-leaf_p t (new + side) marked a le ∙ update_ne m.leaf_p (new + (1 - side)) ne;
    same_bit = λ a ne. hang-bit t (new + side) marked a ∙ update_ne m.bit k ne;
  }
