-- ===== src/Walk/Listing.antt =====
-- The loop over `first` and `next` lists the leaves of the tree from left to right.
use mathlib.Core.List.{append_assoc, append-nil}
use ebmbtreebench.Prelude.{
  ℕ, zero, suc, ◌+◌, ◌<◌, ◌≡◌, ◌∙◌, ap, ◌==◌, false, refl, some, none, Option, [], ◌∷◌, ◌++◌, arith,
  length,
}
use ebmbtreebench.Memory.{Ptr, null, Mem}
use ebmbtreebench.Tree.{
  Tree, leaf, node, Ctx, top, in_left, in_rght, slot, leaves, first, height, depth, after, contents,
  height_of, Holds, Around, Rooted, IsAddr,
}
use ebmbtreebench.Walk.{list_from, list_nodes, eb_first}
use ebmbtreebench.Walk.Step.{head_or, head_or-leaves}
use ebmbtreebench.Walk.Down.{walk_down-first, walk_down-null}
use ebmbtreebench.Walk.Neighbours.{eb_next-after}

nonnull : {a : Ptr} → IsAddr a → (a == null) ≡ false
nonnull h = ground arith

module _ (m : Mem) (f : ℕ) where
  -- From the leaf that follows a context on, the loop lists what follows.
  abbrev ListsAfter : Ctx → Type 0
  ListsAfter c =
      (k : ℕ) → length (after c) < k → list_from k f m (head_or null (after c)) ≡ some (after c)

  list_from-leaf :
      (k : ℕ) (c : Ctx) (a : Ptr)
      → depth c < f
      → Around m c
      → Holds m (slot c) (leaf a)
      → list_from k f m (head_or null (after c)) ≡ some (after c)
      → list_from (suc k) f m a ≡ some (a ∷ after c)
  unfolding list_from
  list_from-leaf k c a fuel h t e =
      rw (nonnull t.2, list_from) (rw (eb_next-after m f c a fuel h t, e))

  list_from-leaves :
      (c : Ctx) (t : Tree)
      → depth c + height t < f
      → Around m c
      → Holds m (slot c) t
      → ListsAfter c
      → (k : ℕ) → length (leaves t ++ after c) < k
      → list_from k f m (first t) ≡ some (leaves t ++ after c)
  unfolding leaves first height depth after
  list_from-leaves c (leaf a) fuel h t rest zero room = absurd (omega arith)
  list_from-leaves c (leaf a) fuel h t rest (suc k) room =
      list_from-leaf k c a (omega arith) h t (rest k (omega arith))
  list_from-leaves c (node a b l r) fuel h t rest k room =
      rw (append_assoc (leaves l) (leaves r) (after c)) (
        list_from-leaves (in_left a b r c) l (omega arith) (t.0, t.1, t.2, t.3, t.5, h) t.4
          (λ j i. rw (head_or-leaves null r (after c)) (
            list_from-leaves (in_rght a b l c) r (omega arith) (t.0, t.1, t.2, t.3, t.4, h) t.5 rest
              j i))
          k (rw (append_assoc (leaves l) (leaves r) (after c)) at room))

  ListsAfter-top : (root : Ptr) → ListsAfter (top root)
  unfolding list_from after
  ListsAfter-top root zero i = absurd (omega arith)
  ListsAfter-top root (suc k) i = refl

  -- For a root that holds a tree or nothing, with fuel above its height for each call and above its
  -- number of leaves for the loop, the loop over `eb_first` and `eb_next` ends and lists the leaves
  -- of the tree, each once, from left to right.
  pub list_nodes-contents :
      (k : ℕ) (root : Ptr) (t : Option Tree)
      → height_of t < f
      → length (contents t) < k
      → Rooted m root t
      → list_nodes k f m root ≡ some (contents t)
  unfolding list_nodes eb_first contents height_of after depth list_from
  list_nodes-contents zero root none fuel room h = absurd (omega arith)
  list_nodes-contents (suc k) root none fuel room h =
      rw (h.1, list_nodes) (rw (walk_down-null f m 0 fuel))
  list_nodes-contents k root (some t) fuel room h =
      let room' : length (leaves t ++ []) < k = rw (append-nil (leaves t)) room in
      rw (walk_down-first m f t (root + 0) fuel h.1, list_nodes)
        (list_from-leaves (top root) t (omega arith) h.0 h.1 (ListsAfter-top root) k room'
          ∙ ap some (append-nil (leaves t)))
