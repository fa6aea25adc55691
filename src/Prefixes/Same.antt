-- ===== src/Prefixes/Same.antt =====
-- A prefix that is put beside the same prefixes.
use ebmbtreebench.Prelude.{ℕ, suc, ◌≡◌, ◌<◌, ◌/◌, ◌==◌, arith, refl, sym, ◌∙◌, Bool-cases, inl, inr}
use ebmbtreebench.Memory.{Ptr, Bit, pos, negsuc}
use ebmbtreebench.Tree.{Tree, leaf, node, Ctx, top, in_left, in_rght, plug, first}
use ebmbtreebench.Tree.Count.{leaf_count, one_if_self}
use ebmbtreebench.Lookup.Sound.{first_count}
use ebmbtreebench.Insert.{grow}
use ebmbtreebench.Dup.Append.{lower}
use ebmbtreebench.Dup.Spine.{OnSpine}
use ebmbtreebench.Order.{FitsIn, FitsIn-leaf, IsPlaced-sub}
use ebmbtreebench.Order.Grow.{grown-IsPlaced}
use ebmbtreebench.Bytes.{Bytes}
use ebmbtreebench.Prefixes.Order.{
  PrefixSide, ends_here, goes_on, parts, PrefixLies, IsPrefixRadix, HasPrefix, AllHave, one_prefix,
  side_least,
}
use mathlib.Core.Path.{subst}

module _ (key : Ptr → Bytes) (pfx : Ptr → ℕ) (new : Ptr) where
  is_new : (y : Ptr) → 0 < leaf_count y (leaf new) → y ≡ new
  unfolding leaf_count
  is_new y i = ground arith

  same_side :
      (n side : ℕ) (y : Ptr)
      → HasPrefix key pfx new y
      → PrefixSide key pfx n side y
      → PrefixSide key pfx n side new
  same_side n side y (p, e) (ends_here z s q) = ends_here z s (sym p ∙ q)
  same_side n side y (p, e) (goes_on z s lt) = goes_on z s (omega arith)
  same_side n side y (p, e) (parts o lt at) =
      parts o (omega arith) (sym (e (n / 2) (omega arith) (omega arith)) ∙ at)

  same_lies :
      (y a : Ptr) (k : Bit) (side : ℕ)
      → HasPrefix key pfx new y
      → PrefixLies key pfx a k side y
      → PrefixLies key pfx a k side new
  same_lies y a (negsuc n) side (p, e) (q, h) =
      (sym p ∙ q, λ j lo hi. sym (e j lo (omega arith)) ∙ h j lo hi)
  same_lies y a (pos n) side (p, e) (h, s) = (
    (λ j lo hi. sym (e j lo (let le = side_least key pfx n side y s in omega arith)) ∙ h j lo hi),
    same_side n side y (p, e) s,
  )

  -- The new prefix fits where the same one fits.
  FitsIn-same :
      (y : Ptr) (c : Ctx)
      → HasPrefix key pfx new y
      → FitsIn (PrefixLies key pfx) y c
      → FitsIn (PrefixLies key pfx) new c
  FitsIn-same y (top root) e h = tt
  FitsIn-same y (in_left a k r c) e h = (same_lies y a k 0 e h.0, FitsIn-same y c e h.1)
  FitsIn-same y (in_rght a k l c) e h = (same_lies y a k 1 e h.0, FitsIn-same y c e h.1)

  -- A node of a tree of duplicates above the same prefixes.
  beside_same :
      (t : Tree) (n side : ℕ)
      → IsPrefixRadix key pfx t
      → AllHave key pfx new t
      → IsPrefixRadix key pfx (grow new (negsuc n) side t)
  unfolding leaf_count
  beside_same t n side h same =
      let own = λ (y : Ptr) (i : 0 < leaf_count y (leaf new)).
        subst (HasPrefix key pfx new) (sym (is_new y i)) (refl, λ j lo hi. refl) in
      elim (Bool-cases (side == 0)) [
        | inl e ↦ rw e (same, own, omega (arith, one_if_self new), h, tt)
        | inr e ↦ rw e (own, same, omega (arith, one_if_self new), tt, h)
      ]

  lower_same :
      (t : Tree) (side : ℕ)
      → IsPrefixRadix key pfx t
      → AllHave key pfx new t
      → IsPrefixRadix key pfx (grow new (lower t) side t)
  lower_same (leaf a) side g same = beside_same (leaf a) 0 side g same
  lower_same (node a (negsuc k) l r) side g same =
      beside_same (node a (negsuc k) l r) (suc k) side g same
  lower_same (node a (pos k) l r) side g same = absurd (one_prefix key pfx new a k l r g same)

  pub prefix_spine :
      (c c' : Ctx) (t t' : Tree) (side : ℕ)
      → IsPrefixRadix key pfx (plug c t)
      → AllHave key pfx new t
      → OnSpine c t c' t'
      → IsPrefixRadix key pfx (plug c' (grow new (lower t') side t'))
  prefix_spine c c' t t' side g same on =
      let whole = subst (IsPrefixRadix key pfx) (sym on.whole) g in
      let same' = λ (y : Ptr) (i : 0 < leaf_count y t'). same y (omega (arith, i, on.inside y)) in
      let p = first_count t' in
      grown-IsPlaced (PrefixLies key pfx) new (lower t') side c' t' whole
        (lower_same t' side (IsPlaced-sub (PrefixLies key pfx) c' t' whole) same')
        (FitsIn-same (first t') c' (same' (first t') p)
          (FitsIn-leaf (PrefixLies key pfx) c' t' (first t') whole p))
