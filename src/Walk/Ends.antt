-- ===== src/Walk/Ends.antt =====
-- The two ends of a tree, and the test for an empty one.
use ebmbtreebench.Walk.Step.{head_or, last_or, head_or-leaves, last_or-leaves}
use ebmbtreebench.Walk.{eb_first, eb_last, eb_is_empty, Mem, true, ℕ, Option}
use ebmbtreebench.Memory.{Mem, Ptr, null, eb_left, eb_rght}
use ebmbtreebench.Tree.{Tree, contents, height_of, Holds, Rooted, leaves, leaf, node}
use ebmbtreebench.Prelude.{
  ℕ, Option, ◌<◌, ◌≡◌, ◌==◌, some, ◌↔◌, none, ◌+◌, refl, ◌∙◌, ap, sym, [], arith,
}
use ebmbtreebench.Walk.Down.{walk_down-null, walk_down-first, walk_down-last}
use mathlib.Core.List.{append-nil}
use mathlib.Core.Path.{subst}

some-none : {t : Tree} → some t ≡ none → ⊥
some-none e = subst (λ o. elim o [ none ↦ ⊥ | some t ↦ Unit ]) e tt

null-link : (m : Mem) (t : Tree) (p : ℕ) → Holds m p t → (m.b p == null) ≡ true → ⊥
null-link m (leaf a) p h e = let i = h.2 in ground arith
null-link m (node a k l r) p h e = ground arith

module _ (m : Mem) where
  -- Given fuel above the height of the tree below `root`, `eb_first` returns its first leaf, and
  -- NULL where the tree is empty.
  pub eb_first-contents :
      (f : ℕ) (root : Ptr) (t : Option Tree)
      → height_of t < f
      → Rooted m root t
      → eb_first f m root ≡ some (head_or null (contents t))
  unfolding eb_first contents height_of
  eb_first-contents f root none fuel h = rw h.1 (walk_down-null f m eb_left fuel)
  eb_first-contents f root (some t) fuel h =
      walk_down-first m f t (root + 0) fuel h.1
      ∙ ap some (sym (head_or-leaves null t []) ∙ ap (head_or null) (append-nil (leaves t)))

  -- Given fuel above the height of the tree below `root`, `eb_last` returns its last leaf, and
  -- NULL where the tree is empty.
  pub eb_last-contents :
      (f : ℕ) (root : Ptr) (t : Option Tree)
      → height_of t < f
      → Rooted m root t
      → eb_last f m root ≡ some (last_or null (contents t))
  unfolding eb_last contents height_of
  eb_last-contents f root none fuel h = rw h.1 (walk_down-null f m eb_rght fuel)
  eb_last-contents f root (some t) fuel h =
      walk_down-last m f t (root + 0) fuel h.1 ∙ ap some (sym (last_or-leaves null t))

  -- For a root that holds a tree or nothing, `eb_is_empty` answers true exactly where it holds
  -- nothing.
  pub eb_is_empty_iff :
      (root : Ptr) (t : Option Tree) → Rooted m root t → (eb_is_empty m root ≡ true) ↔ (t ≡ none)
  unfolding eb_is_empty
  eb_is_empty_iff root none h = (λ e. refl, λ e. rw h.1 refl)
  eb_is_empty_iff root (some t) h =
      (λ e. absurd (null-link m t (root + 0) h.1 e), λ e. absurd (some-none e))
