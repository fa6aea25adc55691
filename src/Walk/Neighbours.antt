-- ===== src/Walk/Neighbours.antt =====
-- From a leaf to its neighbours: the climb by parent pointers is the walk out of a context.
use ebmbtreebench.Prelude.{ℕ, zero, suc, ◌<◌, ◌≡◌, some, arith}
use ebmbtreebench.Memory.{Ptr, null, Mem}
use ebmbtreebench.Tree.{leaf, Ctx, top, in_left, in_rght, slot, before, after, depth, Holds, Around}
use ebmbtreebench.Walk.{next_from, prev_from, eb_next, eb_prev}
use ebmbtreebench.Walk.Step.{
  head_or, last_or, head_or-leaves, last_or-before, untag-left, untag-rght, is_left-left,
  is_left-rght, enter_rght-node, enter_rght-root, enter_left-node, below_root-left, below_root-top,
}

module _ (m : Mem) where
  pub next_from-after :
      (f : ℕ) (c : Ctx)
      → depth c < f
      → Around m c
      → next_from f m (slot c) ≡ some (head_or null (after c))
  unfolding next_from depth after
  next_from-after zero c fuel h = absurd (omega arith)
  next_from-after (suc f) (top root) fuel h =
      rw (is_left-left h.1, next_from) (enter_rght-root m f root h.0)
  next_from-after (suc f) (in_left a k r c) fuel h =
      rw (is_left-left h.3, next_from, head_or-leaves null r (after c))
        (enter_rght-node m f a r (omega arith) h.4)
  next_from-after (suc f) (in_rght a k l c) fuel h =
      rw (is_left-rght h.3, next_from)
        (rw (untag-rght a, h.1) (next_from-after f c (omega arith) h.5))

  pub prev_from-before :
      (f : ℕ) (c : Ctx)
      → depth c < f
      → Around m c
      → prev_from f m (slot c) ≡ some (last_or null (before c))
  unfolding prev_from depth before
  prev_from-before zero c fuel h = absurd (omega arith)
  prev_from-before (suc f) (top root) fuel h =
      rw (is_left-left h.1, prev_from) (rw (below_root-top m root h.0))
  prev_from-before (suc f) (in_left a k r c) fuel h =
      rw (is_left-left h.3, prev_from)
        (rw (below_root-left m a r h.4, untag-left a, h.1) (prev_from-before f c (omega arith) h.5))
  prev_from-before (suc f) (in_rght a k l c) fuel h =
      rw (is_left-rght h.3, prev_from, last_or-before null (before c) l)
        (enter_left-node m f a l (omega arith) h.4)

  -- For a leaf `a` at a slot of a tree in the store, given fuel above the depth of that slot,
  -- `eb_next` returns the first of the leaves after `a` in the tree, and NULL where `a` is the
  -- last.
  pub eb_next-after :
      (f : ℕ) (c : Ctx) (a : Ptr)
      → depth c < f
      → Around m c
      → Holds m (slot c) (leaf a)
      → eb_next f m a ≡ some (head_or null (after c))
  unfolding eb_next
  eb_next-after f c a fuel h t = rw t.1 (next_from-after f c fuel h)

  -- For a leaf `a` at a slot of a tree in the store, given fuel above the depth of that slot,
  -- `eb_prev` returns the last of the leaves before `a` in the tree, and NULL where `a` is the
  -- first.
  pub eb_prev-before :
      (f : ℕ) (c : Ctx) (a : Ptr)
      → depth c < f
      → Around m c
      → Holds m (slot c) (leaf a)
      → eb_prev f m a ≡ some (last_or null (before c))
  unfolding eb_prev
  eb_prev-before f c a fuel h t = rw t.1 (prev_from-before f c fuel h)
