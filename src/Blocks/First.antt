-- ===== src/Blocks/First.antt =====
-- The first of a list of structures that has a property, or NULL.
use ebmbtreebench.Prelude.{◌≡◌, ◌⊎◌, List, [], ◌∷◌, ◌++◌, refl, sym, inl, inr}
use ebmbtreebench.Memory.{Ptr, null}
use ebmbtreebench.Tree.{Tree, leaf, node, leaves, first}
use ebmbtreebench.Order.Sorted.{All}
use mathlib.Core.List.{append_assoc}
use mathlib.Core.Path.{subst}

abbrev pub IsFirst : (Ptr → Type 0) → List Ptr → Ptr → Type 0
IsFirst P [] z = z ≡ null
IsFirst P (y ∷ ys) z = (P y × (z ≡ y)) ⊎ (¬ P y × IsFirst P ys z)

module _ (P : Ptr → Type 0) where
  pub IsFirst-none : (ys : List Ptr) → All (λ y. ¬ P y) ys → IsFirst P ys null
  IsFirst-none [] a = refl
  IsFirst-none (y ∷ ys) a = inr (a.0, IsFirst-none ys a.1)

  pub IsFirst-front :
      (xs ys : List Ptr) (z : Ptr) → All (λ y. ¬ P y) ys → IsFirst P xs z → IsFirst P (xs ++ ys) z
  IsFirst-front [] ys z a h = subst (IsFirst P ys) (sym h) (IsFirst-none ys a)
  IsFirst-front (x ∷ xs) ys z a (inl h) = inl h
  IsFirst-front (x ∷ xs) ys z a (inr h) = inr (h.0, IsFirst-front xs ys z a h.1)

  pub IsFirst-back :
      (xs ys : List Ptr) (z : Ptr) → All (λ y. ¬ P y) xs → IsFirst P ys z → IsFirst P (xs ++ ys) z
  IsFirst-back [] ys z a h = h
  IsFirst-back (x ∷ xs) ys z a h = inr (a.0, IsFirst-back xs ys z a.1 h)

  -- The first leaf of a tree is the first of its leaves.
  pub IsFirst-first :
      (t : Tree) (ys : List Ptr) → P (first t) → IsFirst P (leaves t ++ ys) (first t)
  unfolding leaves first
  IsFirst-first (leaf a) ys h = inl (h, refl)
  IsFirst-first (node a k l r) ys h =
      subst (λ zs. IsFirst P zs (first l)) (sym (append_assoc (leaves l) (leaves r) ys))
        (IsFirst-first l (leaves r ++ ys) h)
