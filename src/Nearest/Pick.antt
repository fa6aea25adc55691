-- ===== src/Nearest/Pick.antt =====
-- What the lookups of the nearest keys pick from the list of the leaves.
use mathlib.Core.List.{append_assoc}
use ebmbtreebench.Prelude.{
  ℕ, ◌≡◌, ◌≤◌, ◌<◌, List, [], ◌∷◌, ◌++◌, leb, if◌then◌else◌, arith, ◌∙◌, refl, ap, true, false,
}
use ebmbtreebench.Memory.{Ptr, null}
use ebmbtreebench.Tree.{Tree, leaf, node, leaves, first, last}
use ebmbtreebench.Tree.Count.{leaf_count, one_if_self}
use ebmbtreebench.Order.Sorted.{All}
use ebmbtreebench.Walk.Step.{head_or, last_or}

-- The first of the structures whose key is not below `x`, or NULL.
unfoldable pub first_ge : (Ptr → ℕ) → ℕ → List Ptr → Ptr
first_ge key x [] = null
first_ge key x (y ∷ ys) = if leb x (key y) then y else first_ge key x ys

-- The last of the structures whose key is not above `x`, or `d`.
unfoldable pub last_le_or : (Ptr → ℕ) → ℕ → Ptr → List Ptr → Ptr
last_le_or key x d [] = d
last_le_or key x d (y ∷ ys) = last_le_or key x (if leb (key y) x then y else d) ys

module _ (key : Ptr → ℕ) (x : ℕ) where
  abbrev pub HasFrom : Tree → Type 0
  HasFrom t = (y : Ptr) → 0 < leaf_count y t → x ≤ key y

  abbrev pub HasBelow : Tree → Type 0
  HasBelow t = (y : Ptr) → 0 < leaf_count y t → key y < x

  abbrev pub HasUpTo : Tree → Type 0
  HasUpTo t = (y : Ptr) → 0 < leaf_count y t → key y ≤ x

  abbrev pub HasAbove : Tree → Type 0
  HasAbove t = (y : Ptr) → 0 < leaf_count y t → x < key y

  pub first_ge-from :
      (t : Tree) (s : List Ptr) → HasFrom t → first_ge key x (leaves t ++ s) ≡ first t
  unfolding first_ge leaves first leaf_count
  first_ge-from (leaf a) s h =
      let le = h a (omega (arith, one_if_self a)) in
      let e : leb x (key a) ≡ true = ground arith in rw e refl
  first_ge-from (node a k l r) s h =
      rw (append_assoc (leaves l) (leaves r) s)
        (first_ge-from l (leaves r ++ s) (λ y i. h y (omega arith)))

  pub first_ge-below :
      (t : Tree) (s : List Ptr) → HasBelow t → first_ge key x (leaves t ++ s) ≡ first_ge key x s
  unfolding first_ge leaves leaf_count
  first_ge-below (leaf a) s h =
      let lt = h a (omega (arith, one_if_self a)) in
      let e : leb x (key a) ≡ false = ground arith in rw e refl
  first_ge-below (node a k l r) s h = rw (append_assoc (leaves l) (leaves r) s) (
      first_ge-below l (leaves r ++ s) (λ y i. h y (omega arith))
      ∙ first_ge-below r s (λ y i. h y (omega arith)))

  pub first_ge-head : (s : List Ptr) → All (λ y. x ≤ key y) s → first_ge key x s ≡ head_or null s
  unfolding first_ge
  first_ge-head [] h = refl
  first_ge-head (y ∷ s) h = let le = h.0 in let e : leb x (key y) ≡ true = ground arith in rw e refl

  last_le_or-append :
      (d : Ptr) (s u : List Ptr)
      → last_le_or key x d (s ++ u) ≡ last_le_or key x (last_le_or key x d s) u
  unfolding last_le_or
  last_le_or-append d [] u = refl
  last_le_or-append d (y ∷ s) u = last_le_or-append (if leb (key y) x then y else d) s u

  last_le_or-up_to : (d : Ptr) (t : Tree) → HasUpTo t → last_le_or key x d (leaves t) ≡ last t
  unfolding last_le_or leaves last leaf_count
  last_le_or-up_to d (leaf a) h =
      let le = h a (omega (arith, one_if_self a)) in
      let e : leb (key a) x ≡ true = ground arith in rw e refl
  last_le_or-up_to d (node a k l r) h =
      last_le_or-append d (leaves l) (leaves r)
      ∙ last_le_or-up_to (last_le_or key x d (leaves l)) r (λ y i. h y (omega arith))

  last_le_or-above : (d : Ptr) (t : Tree) → HasAbove t → last_le_or key x d (leaves t) ≡ d
  unfolding last_le_or leaves leaf_count
  last_le_or-above d (leaf a) h =
      let lt = h a (omega (arith, one_if_self a)) in
      let e : leb (key a) x ≡ false = ground arith in rw e refl
  last_le_or-above d (node a k l r) h =
      last_le_or-append d (leaves l) (leaves r)
      ∙ ap (λ z. last_le_or key x z (leaves r)) (last_le_or-above d l (λ y i. h y (omega arith)))
      ∙ last_le_or-above d r (λ y i. h y (omega arith))

  pub last_le-up_to :
      (s : List Ptr) (t : Tree) → HasUpTo t → last_le_or key x null (s ++ leaves t) ≡ last t
  last_le-up_to s t h =
      last_le_or-append null s (leaves t) ∙ last_le_or-up_to (last_le_or key x null s) t h

  pub last_le-above :
      (s : List Ptr) (t : Tree)
      → HasAbove t
      → last_le_or key x null (s ++ leaves t) ≡ last_le_or key x null s
  last_le-above s t h =
      last_le_or-append null s (leaves t) ∙ last_le_or-above (last_le_or key x null s) t h

  pub last_le_or-last :
      (d : Ptr) (s : List Ptr) → All (λ y. key y ≤ x) s → last_le_or key x d s ≡ last_or d s
  unfolding last_le_or
  last_le_or-last d [] h = refl
  last_le_or-last d (y ∷ s) h =
      let le = h.0 in let e : leb (key y) x ≡ true = ground arith in rw e (last_le_or-last y s h.1)
