-- ===== src/Walk/Unique.antt =====
-- From a leaf to its neighbours beyond its duplicates.
use ebmbtreebench.Prelude.{ℕ, zero, suc, ◌<◌, ◌≡◌, some, arith, inl, inr}
use ebmbtreebench.Memory.{Ptr, null, Mem}
use ebmbtreebench.Tree.{leaf, Ctx, top, in_left, in_rght, slot, before, after, depth, Holds, Around}
use ebmbtreebench.Tree.Dups.{after_unique, before_unique, IsPlain, IsTiered}
use ebmbtreebench.Walk.{next_unique_from, prev_unique_from, eb_next_unique, eb_prev_unique}
use ebmbtreebench.Walk.Step.{
  head_or, last_or, head_or-leaves, last_or-before, untag-left, untag-rght, is_left-left,
  is_left-rght, enter_rght-node, enter_left-node, below_root-left, below_root-top,
}

module _ (m : Mem) where
  next_unique_from-plain :
      (f : ℕ) (c : Ctx)
      → depth c < f
      → Around m c
      → IsPlain c
      → next_unique_from f m (slot c) ≡ some (head_or null (after c))
  unfolding next_unique_from depth after
  next_unique_from-plain zero c fuel h p = absurd (omega arith)
  next_unique_from-plain (suc f) (top root) fuel h p =
      rw (is_left-left h.1, next_unique_from) (rw (below_root-top m root h.0))
  next_unique_from-plain (suc f) (in_left a k r c) fuel h p =
      rw (is_left-left h.3, next_unique_from)
        (rw (below_root-left m a r h.4, untag-left a, h.2, p.0, head_or-leaves null r (after c))
          (enter_rght-node m f a r (omega arith) h.4))
  next_unique_from-plain (suc f) (in_rght a k l c) fuel h p =
      rw (is_left-rght h.3, next_unique_from)
        (rw (untag-rght a, h.1) (next_unique_from-plain f c (omega arith) h.5 p.1))

  pub next_unique_from-after :
      (f : ℕ) (c : Ctx)
      → depth c < f
      → Around m c
      → IsTiered c
      → next_unique_from f m (slot c) ≡ some (head_or null (after_unique c))
  unfolding next_unique_from depth after_unique
  next_unique_from-after zero c fuel h p = absurd (omega arith)
  next_unique_from-after (suc f) (top root) fuel h p =
      rw (is_left-left h.1, next_unique_from) (rw (below_root-top m root h.0))
  next_unique_from-after (suc f) (in_left a k r c) fuel h (inl p) =
      rw (is_left-left h.3, next_unique_from)
        (rw (below_root-left m a r h.4, untag-left a, h.1, h.2, p.0)
          (next_unique_from-after f c (omega arith) h.5 p.1))
  next_unique_from-after (suc f) (in_left a k r c) fuel h (inr p) =
      rw (is_left-left h.3, next_unique_from)
        (rw (below_root-left m a r h.4, untag-left a, h.2, p.0, head_or-leaves null r (after c))
          (enter_rght-node m f a r (omega arith) h.4))
  next_unique_from-after (suc f) (in_rght a k l c) fuel h (inl p) =
      rw (is_left-rght h.3, next_unique_from)
        (rw (untag-rght a, h.1, p.0) (next_unique_from-after f c (omega arith) h.5 p.1))
  next_unique_from-after (suc f) (in_rght a k l c) fuel h (inr p) =
      rw (is_left-rght h.3, next_unique_from)
        (rw (untag-rght a, h.1, p.0) (next_unique_from-plain f c (omega arith) h.5 p.1))

  prev_unique_from-plain :
      (f : ℕ) (c : Ctx)
      → depth c < f
      → Around m c
      → IsPlain c
      → prev_unique_from f m (slot c) ≡ some (last_or null (before c))
  unfolding prev_unique_from depth before
  prev_unique_from-plain zero c fuel h p = absurd (omega arith)
  prev_unique_from-plain (suc f) (top root) fuel h p =
      rw (is_left-left h.1, prev_unique_from) (rw (below_root-top m root h.0))
  prev_unique_from-plain (suc f) (in_left a k r c) fuel h p =
      rw (is_left-left h.3, prev_unique_from)
        (rw (below_root-left m a r h.4, untag-left a, h.1)
          (prev_unique_from-plain f c (omega arith) h.5 p.1))
  prev_unique_from-plain (suc f) (in_rght a k l c) fuel h p =
      rw (is_left-rght h.3, prev_unique_from)
        (rw (untag-rght a, h.2, p.0, last_or-before null (before c) l)
          (enter_left-node m f a l (omega arith) h.4))

  -- The way back stops at the first step to the right out of the duplicates.
  pub prev_unique_from-before :
      (f : ℕ) (c : Ctx)
      → depth c < f
      → Around m c
      → IsTiered c
      → prev_unique_from f m (slot c) ≡ some (last_or null (before_unique c))
  unfolding prev_unique_from depth before_unique
  prev_unique_from-before zero c fuel h p = absurd (omega arith)
  prev_unique_from-before (suc f) (top root) fuel h p =
      rw (is_left-left h.1, prev_unique_from) (rw (below_root-top m root h.0))
  prev_unique_from-before (suc f) (in_left a k r c) fuel h (inl p) =
      rw (is_left-left h.3, prev_unique_from)
        (rw (below_root-left m a r h.4, untag-left a, h.1, p.0)
          (prev_unique_from-before f c (omega arith) h.5 p.1))
  prev_unique_from-before (suc f) (in_left a k r c) fuel h (inr p) =
      rw (is_left-left h.3, prev_unique_from)
        (rw (below_root-left m a r h.4, untag-left a, h.1, p.0)
          (prev_unique_from-plain f c (omega arith) h.5 p.1))
  prev_unique_from-before (suc f) (in_rght a k l c) fuel h (inl p) =
      rw (is_left-rght h.3, prev_unique_from)
        (rw (untag-rght a, h.1, h.2, p.0) (prev_unique_from-before f c (omega arith) h.5 p.1))
  prev_unique_from-before (suc f) (in_rght a k l c) fuel h (inr p) =
      rw (is_left-rght h.3, prev_unique_from)
        (rw (untag-rght a, h.2, p.0, last_or-before null (before c) l)
          (enter_left-node m f a l (omega arith) h.4))

  -- For a leaf `a` at a slot of a tree in the store, given fuel above the depth of that slot, and
  -- given that trees of duplicates lie below all the other nodes on its path, `eb_next_unique`
  -- returns the first leaf after the tree of duplicates of `a`, and NULL where there is none.
  pub eb_next_unique-after :
      (f : ℕ) (c : Ctx) (a : Ptr)
      → depth c < f
      → Around m c
      → IsTiered c
      → Holds m (slot c) (leaf a)
      → eb_next_unique f m a ≡ some (head_or null (after_unique c))
  unfolding eb_next_unique
  eb_next_unique-after f c a fuel h p t = rw t.1 (next_unique_from-after f c fuel h p)

  -- For a leaf `a` at a slot of a tree in the store, given fuel above the depth of that slot, and
  -- given that trees of duplicates lie below all the other nodes on its path, `eb_prev_unique`
  -- returns the last leaf before the tree of duplicates of `a`, and NULL where there is none.
  pub eb_prev_unique-before :
      (f : ℕ) (c : Ctx) (a : Ptr)
      → depth c < f
      → Around m c
      → IsTiered c
      → Holds m (slot c) (leaf a)
      → eb_prev_unique f m a ≡ some (last_or null (before_unique c))
  unfolding eb_prev_unique
  eb_prev_unique-before f c a fuel h p t = rw t.1 (prev_unique_from-before f c fuel h p)
