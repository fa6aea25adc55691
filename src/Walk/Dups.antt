-- ===== src/Walk/Dups.antt =====
-- From a leaf to its neighbours within a tree of duplicates.
use ebmbtreebench.Prelude.{
  ℕ, zero, suc, ◌+◌, ◌<◌, ◌≡◌, Bool, some, true, false, not, arith, refl, [], ◌++◌, if◌then◌else◌,
  ◌-◌,
}
use ebmbtreebench.Memory.{Ptr, null, Mem, is_neg}
use ebmbtreebench.Tree.{
  leaf, Ctx, top, in_left, in_rght, slot, first, last, leaves, depth, Holds, Around,
}
use ebmbtreebench.Tree.Dups.{after_dups, before_dups}
use ebmbtreebench.Walk.{next_dup_from, prev_dup_from, eb_next_dup, eb_prev_dup}
use ebmbtreebench.Walk.Step.{
  head_or, last_or, head_or-leaves, last_or-before, untag-left, untag-rght, is_left-left,
  is_left-rght, enter_rght-node, enter_rght-root, enter_left-node, below_root-left, below_root-top,
}

module _ (m : Mem) where
  pub next_dup_from-after :
      (f : ℕ) (c : Ctx)
      → depth c < f
      → Around m c
      → next_dup_from f m (slot c) ≡ some (head_or null (after_dups c))
  unfolding next_dup_from depth after_dups
  next_dup_from-after zero c fuel h = absurd (omega arith)
  next_dup_from-after (suc f) (top root) fuel h =
      rw (is_left-left h.1, next_dup_from, enter_rght-root m f root h.0)
        (either (is_neg (m.bit (root + 0 - 0))))
    where
      either : (b : Bool) → (if not b then some null else some null) ≡ some null
      either true = refl
      either false = refl
  next_dup_from-after (suc f) (in_left a k r c) fuel h =
      rw (is_left-left h.3, next_dup_from)
        (rw (enter_rght-node m f a r (omega arith) h.4, untag-left a, h.2) (pick (is_neg k)))
    where
      pick :
          (b : Bool)
          → (if not b then some null else some (first r))
            ≡ some (head_or null (if b then leaves r ++ after_dups c else []))
      pick true = rw (head_or-leaves null r (after_dups c))
      pick false = refl
  next_dup_from-after (suc f) (in_rght a k l c) fuel h =
      rw (is_left-rght h.3, next_dup_from)
        (rw (untag-rght a, h.1, h.2, next_dup_from-after f c (omega arith) h.5) (pick (is_neg k)))
    where
      pick :
          (b : Bool)
          → (if not b then some null else some (head_or null (after_dups c)))
            ≡ some (head_or null (if b then after_dups c else []))
      pick true = refl
      pick false = refl

  pub prev_dup_from-before :
      (f : ℕ) (c : Ctx)
      → depth c < f
      → Around m c
      → prev_dup_from f m (slot c) ≡ some (last_or null (before_dups c))
  unfolding prev_dup_from depth before_dups
  prev_dup_from-before zero c fuel h = absurd (omega arith)
  prev_dup_from-before (suc f) (top root) fuel h =
      rw (is_left-left h.1, prev_dup_from) (rw (below_root-top m root h.0))
  prev_dup_from-before (suc f) (in_left a k r c) fuel h =
      rw (is_left-left h.3, prev_dup_from)
        (rw
          (
            below_root-left m a r h.4,
            untag-left a,
            h.1,
            h.2,
            prev_dup_from-before f c (omega arith) h.5,
          )
          (pick (is_neg k)))
    where
      pick :
          (b : Bool)
          → (if not b then some null else some (last_or null (before_dups c)))
            ≡ some (last_or null (if b then before_dups c else []))
      pick true = refl
      pick false = refl
  prev_dup_from-before (suc f) (in_rght a k l c) fuel h =
      rw (is_left-rght h.3, prev_dup_from)
        (rw (enter_left-node m f a l (omega arith) h.4, untag-rght a, h.2) (pick (is_neg k)))
    where
      pick :
          (b : Bool)
          → (if not b then some null else some (last l))
            ≡ some (last_or null (if b then before_dups c ++ leaves l else []))
      pick true = rw (last_or-before null (before_dups c) l)
      pick false = refl

  -- For a leaf `a` at a slot of a tree in the store, given fuel above the depth of that slot,
  -- `eb_next_dup` returns the first leaf after `a` within its tree of duplicates (the nodes upwards
  -- as long as their bits are negative), and NULL where there is none.
  pub eb_next_dup-after :
      (f : ℕ) (c : Ctx) (a : Ptr)
      → depth c < f
      → Around m c
      → Holds m (slot c) (leaf a)
      → eb_next_dup f m a ≡ some (head_or null (after_dups c))
  unfolding eb_next_dup
  eb_next_dup-after f c a fuel h t = rw t.1 (next_dup_from-after f c fuel h)

  -- For a leaf `a` at a slot of a tree in the store, given fuel above the depth of that slot,
  -- `eb_prev_dup` returns the last leaf before `a` within its tree of duplicates (the nodes upwards
  -- as long as their bits are negative), and NULL where there is none.
  pub eb_prev_dup-before :
      (f : ℕ) (c : Ctx) (a : Ptr)
      → depth c < f
      → Around m c
      → Holds m (slot c) (leaf a)
      → eb_prev_dup f m a ≡ some (last_or null (before_dups c))
  unfolding eb_prev_dup
  eb_prev_dup-before f c a fuel h t = rw t.1 (prev_dup_from-before f c fuel h)
