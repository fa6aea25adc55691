-- ===== src/Delete/Undo.antt =====
-- A deletion takes back an insertion, and a second deletion changes nothing.
use ebmbtreebench.Delete.Lifted.{Removed}
use ebmbtreebench.Delete.Correct.{eb_delete-Removed}
use ebmbtreebench.Delete.{eb_delete, Ptr, Mem, ℕ, null}
use ebmbtreebench.Insert.Grown.{Grown}
use ebmbtreebench.Insert.{grow}
use ebmbtreebench.Tree.{Ctx, plug, before, Tree, after, root_of, leaf, leaves, in_rght, in_left}
use ebmbtreebench.Memory.{Ptr, Mem, Bit, null}
use ebmbtreebench.Prelude.{
  ◌≡◌, List, ℕ, some, if◌then◌else◌, refl, ◌++◌, ◌==◌, Bool-cases, sym, inl, ◌∙◌, ap, inr,
}
use ebmbtreebench.Tree.Valid.{Valid}
use ebmbtreebench.Prelude.{Option, ◌⊎◌, ◌<◌}
use ebmbtreebench.Memory.{eb_gettag, branch, eb_rght}
use ebmbtreebench.Tree.{height}
use ebmbtreebench.Insert.Grown.{CanInsert}
use ebmbtreebench.Scalar.{eb32_insert}
use ebmbtreebench.Scalar.Correct.{Refused}
use ebmbtreebench.Scalar.Insert.{eb32_insert-Ends}
use mathlib.Core.Path.{subst}
use mathlib.Core.List.{append_assoc}
use ebmbtreebench.Tree.Plug.{leaves-plug}

-- The context of the new leaf.
hung : Ctx → Ptr → Bit → ℕ → Tree → Ctx
hung c new k side t = if side == 0 then in_rght new k t c else in_left new k t c

hung-facts :
    (c : Ctx) (new : Ptr) (k : Bit) (side : ℕ) (t : Tree)
    → (plug (hung c new k side t) (leaf new) ≡ plug c (grow new k side t))
      × (before (hung c new k side t) ++ after (hung c new k side t) ≡ leaves (plug c t))
      × (root_of (hung c new k side t) ≡ root_of c)
unfolding plug before after hung
hung-facts c new k side t = elim (Bool-cases (side == 0)) [
  | inl e ↦ rw e (refl, append_assoc (before c) (leaves t) (after c) ∙ sym (leaves-plug c t), refl)
  | inr e ↦ rw e (refl, sym (leaves-plug c t), refl)
]

eb_delete-unlinked : (x : Ptr) (n : Mem) → n.leaf_p x ≡ null → eb_delete x n ≡ n
unfolding eb_delete
eb_delete-unlinked x n e = rw e refl

-- Deleting the structure that an insertion has put into a tree gives back the leaves of the old tree.
eb_delete-Grown :
    (n : Mem) (root : Ptr) (old : Tree) (new : Ptr) (xs ys : List Ptr)
    → Grown n root old new xs ys
    → Removed new (leaves old) root (eb_delete new n)
eb_delete-Grown n root old new xs ys g =
    let (whole, rest, root') = hung-facts g.at new g.bit g.side g.sub in
    let v : Valid n (root_of (hung g.at new g.bit g.side g.sub))
        (some (plug (hung g.at new g.bit g.side g.sub) (leaf new))) =
      subst (λ r. Valid n r (some (plug (hung g.at new g.bit g.side g.sub) (leaf new))))
        (sym (root' ∙ g.base)) (subst (λ t. Valid n root (some t)) (sym whole) g.valid) in
    subst (λ r. Removed new (leaves old) r (eb_delete new n)) (root' ∙ g.base)
      (subst (λ xs. Removed new xs (root_of (hung g.at new g.bit g.side g.sub)) (eb_delete new n))
        (rest ∙ ap leaves g.from) (eb_delete-Removed n new (hung g.at new g.bit g.side g.sub) v))

-- After the deletion of a leaf of a valid tree, another deletion of it leaves the store as it is.
pub eb_delete-eb_delete :
    (m : Mem) (x : Ptr) (c : Ctx)
    → Valid m (root_of c) (some (plug c (leaf x)))
    → eb_delete x (eb_delete x m) ≡ eb_delete x m
eb_delete-eb_delete m x c v =
    eb_delete-unlinked x (eb_delete x m) (eb_delete-Removed m x c v).unlinked

-- The insertion ends in a store, and the deletion of the structure gives back the leaves of `t`.
abbrev pub TakenBack : Option (Ptr × Mem) → Ptr → Tree → Ptr → Type 0
TakenBack result root t new =
    (store : Mem) × (result ≡ some (new, store)) × Removed new (leaves t) root (eb_delete new store)

-- With fuel above the height of the valid tree `t` below `root`, for a structure that is in no role:
-- either `eb32_insert` returns it, and `eb_delete` from the store that it leaves gives the leaves of
-- `t` in their order in a valid tree, with the structure in no role; or the insertion is refused.
pub eb_delete-eb32_insert :
    (key : Ptr → ℕ) (f : ℕ) (m : Mem) (root new : Ptr) (t : Tree)
    → height t < f
    → Valid m root (some t)
    → CanInsert new root (some t)
    → TakenBack (eb32_insert key f root new m) root t new
      ⊎ Refused key (eb32_insert key f root new m) (eb_gettag (branch m root eb_rght)) root t new
eb_delete-eb32_insert key f m root new t fuel v fresh =
    elim (eb32_insert-Ends key f m root new t fuel v fresh) [
      | inr refused ↦ inr refused
      | inl i ↦ inl (i.store, i.runs, eb_delete-Grown i.store root t new i.front i.back i.grown)
    ]
