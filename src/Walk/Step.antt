-- ===== src/Walk/Step.antt =====
-- One step of a climb, and how it ends.
use mathlib.Core.List.{append_assoc}
use ebmbtreebench.Prelude.{
  ℕ, ◌+◌, ◌<◌, ◌≡◌, ◌∙◌, ◌==◌, some, true, false, arith, refl, List, [], ◌∷◌, ◌++◌,
}
use ebmbtreebench.Memory.{Ptr, null, Mem, eb_left, eb_rght, eb_clrtag, eb_untag}
use ebmbtreebench.Tree.{Tree, leaf, node, first, last, height, leaves, Holds, IsAddr}
use ebmbtreebench.Walk.{is_left, below_root, enter_rght, enter_left}
use ebmbtreebench.Walk.Down.{walk_down-first, walk_down-last}

abbrev pub head_or : Ptr → List Ptr → Ptr
head_or d [] = d
head_or d (x ∷ xs) = x

abbrev pub last_or : Ptr → List Ptr → Ptr
last_or d [] = d
last_or d (x ∷ xs) = last_or x xs

pub head_or-leaves : (d : Ptr) (t : Tree) (xs : List Ptr) → head_or d (leaves t ++ xs) ≡ first t
unfolding leaves first
head_or-leaves d (leaf a) xs = refl
head_or-leaves d (node a k l r) xs =
    rw (append_assoc (leaves l) (leaves r) xs) (head_or-leaves d l (leaves r ++ xs))

last_or-append : (d : Ptr) (xs ys : List Ptr) → last_or d (xs ++ ys) ≡ last_or (last_or d xs) ys
last_or-append d [] ys = refl
last_or-append d (x ∷ xs) ys = last_or-append x xs ys

pub last_or-leaves : (d : Ptr) (t : Tree) → last_or d (leaves t) ≡ last t
unfolding leaves last
last_or-leaves d (leaf a) = refl
last_or-leaves d (node a k l r) =
    last_or-append d (leaves l) (leaves r) ∙ last_or-leaves (last_or d (leaves l)) r

pub untag-left : (a : Ptr) → eb_untag (a + 0) 0 ≡ a
untag-left a = omega arith

pub untag-rght : (a : Ptr) → eb_untag (a + 1) 1 ≡ a
untag-rght a = omega arith

pub last_or-before : (d : Ptr) (xs : List Ptr) (l : Tree) → last_or d (xs ++ leaves l) ≡ last l
last_or-before d xs l = last_or-append d xs (leaves l) ∙ last_or-leaves (last_or d xs) l

pub is_left-left : {a : Ptr} → IsAddr a → is_left (a + 0) ≡ true
is_left-left h = ground arith

pub is_left-rght : {a : Ptr} → IsAddr a → is_left (a + 1) ≡ false
is_left-rght h = ground arith

-- A branch of a node is not NULL.
pub link-nonnull : (m : Mem) (t : Tree) (p : ℕ) → Holds m p t → (eb_clrtag (m.b p) == null) ≡ false
link-nonnull m (leaf a) p h = rw h.0 (ground arith)
link-nonnull m (node a k l r) p h = rw h.0 (ground arith)

module _ (m : Mem) where
  pub enter_rght-node :
      (f : ℕ) (a : Ptr) (r : Tree)
      → height r < f
      → Holds m (a + eb_rght) r
      → enter_rght f m (a + eb_left) ≡ some (first r)
  unfolding enter_rght
  enter_rght-node f a r fuel h =
      rw (untag-left a, link-nonnull m r (a + 1) h) (walk_down-first m f r (a + 1) fuel h)

  pub enter_rght-root :
      (f : ℕ) (a : Ptr)
      → eb_clrtag (m.b (a + eb_rght)) ≡ null
      → enter_rght f m (a + eb_left) ≡ some null
  unfolding enter_rght
  enter_rght-root f a e = rw (untag-left a, e) refl

  pub enter_left-node :
      (f : ℕ) (a : Ptr) (l : Tree)
      → height l < f
      → Holds m (a + eb_left) l
      → enter_left f m (a + eb_rght) ≡ some (last l)
  unfolding enter_left
  enter_left-node f a l fuel h = rw (untag-rght a) (walk_down-last m f l (a + 0) fuel h)

  pub below_root-left :
      (a : Ptr) (r : Tree) → Holds m (a + eb_rght) r → below_root m (a + eb_left) ≡ false
  below_root-left a r h = rw (untag-left a) (link-nonnull m r (a + 1) h)

  pub below_root-top :
      (a : Ptr) → eb_clrtag (m.b (a + eb_rght)) ≡ null → below_root m (a + eb_left) ≡ true
  below_root-top a e = rw (untag-left a, e) refl
