-- ===== src/Tree/Dups.antt =====
-- The leaves around a slot, as far as a tree of duplicates reaches and beyond it.
use ebmbtreebench.Prelude.{◌≡◌, refl, ◌⊎◌, inl, inr, true, false, ap, List, [], ◌++◌, if◌then◌else◌}
use mathlib.Core.List.{append_assoc, append-nil}
use ebmbtreebench.Memory.{Ptr, is_neg}
use ebmbtreebench.Tree.{Ctx, top, in_left, in_rght, leaves, before, after}

-- Up to the first node upwards that is not in a tree of duplicates.
unfoldable pub after_dups : Ctx → List Ptr
after_dups (top root) = []
after_dups (in_left a k r c) = if is_neg k then leaves r ++ after_dups c else []
after_dups (in_rght a k l c) = if is_neg k then after_dups c else []

unfoldable pub before_dups : Ctx → List Ptr
before_dups (top root) = []
before_dups (in_left a k r c) = if is_neg k then before_dups c else []
before_dups (in_rght a k l c) = if is_neg k then before_dups c ++ leaves l else []

-- From there on.
unfoldable pub after_unique : Ctx → List Ptr
unfolding after
after_unique (top root) = []
after_unique (in_left a k r c) = if is_neg k then after_unique c else leaves r ++ after c
after_unique (in_rght a k l c) = if is_neg k then after_unique c else after c

unfoldable pub before_unique : Ctx → List Ptr
unfolding before
before_unique (top root) = []
before_unique (in_left a k r c) = if is_neg k then before_unique c else before c
before_unique (in_rght a k l c) = if is_neg k then before_unique c else before c ++ leaves l

-- No step of the context leaves a tree of duplicates.
abbrev pub IsPlain : Ctx → Type 0
IsPlain (top root) = Unit {0}
IsPlain (in_left a k r c) = (is_neg k ≡ false) × IsPlain c
IsPlain (in_rght a k l c) = (is_neg k ≡ false) × IsPlain c

-- Trees of duplicates lie below all the other nodes.
abbrev pub IsTiered : Ctx → Type 0
IsTiered (top root) = Unit {0}
IsTiered (in_left a k r c) = ((is_neg k ≡ true) × IsTiered c) ⊎ ((is_neg k ≡ false) × IsPlain c)
IsTiered (in_rght a k l c) = ((is_neg k ≡ true) × IsTiered c) ⊎ ((is_neg k ≡ false) × IsPlain c)

pub after-append : (c : Ctx) → IsTiered c → after c ≡ after_dups c ++ after_unique c
unfolding after after_dups after_unique
after-append (top root) h = refl
after-append (in_left a k r c) (inl (e, h)) =
    rw (e, append_assoc (leaves r) (after_dups c) (after_unique c))
      (ap (λ x. leaves r ++ x) (after-append c h))
after-append (in_left a k r c) (inr (e, h)) = rw e
after-append (in_rght a k l c) (inl (e, h)) = rw e (after-append c h)
after-append (in_rght a k l c) (inr (e, h)) = rw e

pub before-append : (c : Ctx) → IsTiered c → before c ≡ before_unique c ++ before_dups c
unfolding before before_dups before_unique
before-append (top root) h = refl
before-append (in_left a k r c) (inl (e, h)) = rw e (before-append c h)
before-append (in_left a k r c) (inr (e, h)) = rw (e, append-nil)
before-append (in_rght a k l c) (inl (e, h)) =
    rw (e, ← append_assoc (before_unique c) (before_dups c) (leaves l))
      (ap (λ x. x ++ leaves l) (before-append c h))
before-append (in_rght a k l c) (inr (e, h)) = rw (e, append-nil)
