-- ===== src/Insert.antt =====
-- What every insertion of the library comes to: a new structure between a slot and its subtree.
pub mod Graft
pub mod Grown
pub mod Writes
use ebmbtreebench.Prelude.{ℕ, ◌+◌, ◌-◌, ◌≡◌, ◌≢◌, ◌≤◌, if◌then◌else◌, ◌==◌}
use ebmbtreebench.Memory.{Ptr, Mem, Bit, eb_clrtag, eb_leaf, eb_node, update}
use ebmbtreebench.Tree.{Tree, link, leaf, node, slot, Ctx, IsAddr}
use ebmbtreebench.Tree.Count.{
  leaf_count, node_count, inner_leaves, inner_nodes, leaves_around, nodes_around,
}
use ebmbtreebench.Tree.Hang.{UpIs, hang}

-- The structure `new` is allocated, and in no role in the tree.
pub record Fresh (new : Ptr) (c : Ctx) (t : Tree) : Type 0 where
  pub addr : IsAddr new
  pub no_node : nodes_around new c + node_count new t ≡ 0
  pub no_leaf : leaves_around new c + leaf_count new t ≡ 0

-- `n` is `m` with the node part of `new` at the slot of `c`, and below it the old subtree `t` on
-- the side `side` and the leaf part of `new` on the other.
pub record Above (m n : Mem) (c : Ctx) (t : Tree) (new : Ptr) (k : Bit) (side : ℕ) : Type 0 where
  pub slot_b : n.b (slot c) ≡ new + eb_node
  pub old_b : n.b (new + side) ≡ link t
  pub new_b : n.b (new + (1 - side)) ≡ new + eb_leaf
  pub same_b : (s : ℕ) → s ≢ slot c → eb_clrtag s ≢ new → n.b s ≡ m.b s
  pub new_node_p : n.node_p new ≡ slot c
  pub new_leaf_p : n.leaf_p new ≡ new + (1 - side)
  pub new_bit : n.bit new ≡ k
  pub old_up : UpIs n t (new + side)
  pub same_node_p : (a : Ptr) → a ≢ new → node_count a t ≤ inner_nodes a t → n.node_p a ≡ m.node_p a
  pub same_leaf_p :
      (a : Ptr) → a ≢ new → leaf_count a t ≤ inner_leaves a t → n.leaf_p a ≡ m.leaf_p a
  pub same_bit : (a : Ptr) → a ≢ new → n.bit a ≡ m.bit a

-- The tree that this makes of `t`.
abbrev pub grow : Ptr → Bit → ℕ → Tree → Tree
grow new k side t = if side == 0 then node new k t (leaf new) else node new k (leaf new) t

-- The writes of an insertion: the branches become `nb`, and the parent pointers and the bit of
-- `new` are set before the parent pointer of the old subtree.
abbrev pub written : (ℕ → Ptr) → ℕ → Tree → Ptr → Bit → ℕ → Mem → Mem
written nb p t new k side m = hang t (new + side) (record {
  b = nb;
  node_p = update m.node_p new p;
  leaf_p = update m.leaf_p new (new + (1 - side));
  bit = update m.bit new k;
})
