-- ===== src/Strings/Grow.antt =====
-- A new string put where it parts from the strings of a subtree, or beside strings equal to it.
use ebmbtreebench.Prelude.{
  ℕ, suc, ◌≡◌, ◌≢◌, ◌⊎◌, ◌<◌, ◌==◌, arith, refl, sym, ◌∙◌, inl, inr, Bool-cases,
}
use ebmbtreebench.Memory.{Ptr, Bit, pos, negsuc}
use ebmbtreebench.Tree.{Tree, leaf, node, Ctx, top, in_left, in_rght, plug, first}
use ebmbtreebench.Tree.Count.{leaf_count, one_if_self}
use ebmbtreebench.Insert.{grow}
use ebmbtreebench.Dup.Append.{lower}
use ebmbtreebench.Dup.Spine.{OnSpine}
use ebmbtreebench.Lookup.Sound.{first_count}
use ebmbtreebench.Order.{FitsIn, FitsIn-leaf, IsPlaced-sub}
use ebmbtreebench.Order.Grow.{grown-IsPlaced}
use ebmbtreebench.Bytes.{Bytes, get_bit}
use ebmbtreebench.Bytes.Check.{AllEqual}
use ebmbtreebench.Strings.Same.{
  SameString, SameString-self, SameString-trans, Reaches, Reaches-same, IsString, string_bits,
  StringLies, IsStringRadix, SameString-sym,
}
use mathlib.Core.Path.{subst}

-- The new string agrees with all the leaves of a subtree before a bit, and differs from them there.
pub record StringPart (key : Ptr → Bytes) (new old : Ptr) (t : Tree) (bit : ℕ) : Type 0 where
  pub same : (y : Ptr) → 0 < leaf_count y t → AllEqual (key y) (key new) 0 bit
  pub at : (y : Ptr) → 0 < leaf_count y t → get_bit (key y) bit ≡ get_bit (key old) bit
  pub differs : get_bit (key new) bit ≢ get_bit (key old) bit
  pub reaches : (y : Ptr) → 0 < leaf_count y t → Reaches (key y) bit
  pub own : Reaches (key new) bit

module _ (key : Ptr → Bytes) (new : Ptr) where
  abbrev pub Agrees : Tree → Type 0
  Agrees t = (y : Ptr) → 0 < leaf_count y t → SameString (key y) (key new)

  is_new : (y : Ptr) → 0 < leaf_count y (leaf new) → y ≡ new
  unfolding leaf_count
  is_new y i = ground arith

  -- The subtree has the side of its bit, and the new leaf the other one.
  pub apart-IsStringRadix :
      (t : Tree) (old : Ptr) (bit s : ℕ)
      → StringPart key new old t bit
      → get_bit (key old) bit ≡ s
      → IsStringRadix key t
      → (s ≡ 0) × (get_bit (key new) bit ≡ 1) ⊎ (s ≡ 1) × (get_bit (key new) bit ≡ 0)
      → IsStringRadix key (grow new (pos bit) s t)
  unfolding leaf_count
  apart-IsStringRadix t old bit s p at h (inl (e, e')) = rw e (
    (λ y i. (p.same y i, p.at y i ∙ at ∙ e, p.reaches y i)),
    (λ y i.
        subst (StringLies key new (pos bit) 1) (sym (is_new y i)) ((λ j lo hi. refl), e', p.own)),
    omega (arith, one_if_self new),
    h,
    tt,
  )
  apart-IsStringRadix t old bit s p at h (inr (e, e')) = rw e (
    (λ y i.
        subst (StringLies key new (pos bit) 0) (sym (is_new y i)) ((λ j lo hi. refl), e', p.own)),
    (λ y i. (p.same y i, p.at y i ∙ at ∙ e, p.reaches y i)),
    omega (arith, one_if_self new),
    tt,
    h,
  )

  module _ (room : ℕ) (string : IsString room (key new)) where
    -- A node of a tree of duplicates above leaves that all have the new string.
    beside-IsStringRadix :
        (t : Tree) (n side : ℕ)
        → IsStringRadix key t
        → Agrees t
        → IsStringRadix key (grow new (negsuc n) side t)
    unfolding leaf_count
    beside-IsStringRadix t n side h same =
        let own = λ (y : Ptr) (i : 0 < leaf_count y (leaf new)).
          subst (λ z. SameString (key z) (key new)) (sym (is_new y i))
            (SameString-self (key new) room string) in
        elim (Bool-cases (side == 0)) [
          | inl e ↦ rw e (same, own, omega (arith, one_if_self new), h, tt)
          | inr e ↦ rw e (own, same, omega (arith, one_if_self new), tt, h)
        ]

    -- A subtree whose leaves have one string has no node with a bit at its top.
    lower-IsStringRadix :
        (t : Tree) (side : ℕ)
        → IsStringRadix key t
        → Agrees t
        → IsStringRadix key (grow new (lower t) side t)
    unfolding leaf_count
    lower-IsStringRadix (leaf a) side g same = beside-IsStringRadix (leaf a) 0 side g same
    lower-IsStringRadix (node a (negsuc k) l r) side g same =
        beside-IsStringRadix (node a (negsuc k) l r) (suc k) side g same
    lower-IsStringRadix (node a (pos k) l r) side g same =
        let (el, zl, reach_l) = g.0 (first l) (first_count l) in
        let (er, zr, reach_r) = g.1 (first r) (first_count r) in
        let il = first_count l in
        let ir = first_count r in
        let sl =
          string_bits (key (first l)) (key new) k (same (first l) (omega arith)) reach_l k
            (omega arith) in
        let sr =
          string_bits (key (first r)) (key new) k (same (first r) (omega arith)) reach_r k
            (omega arith) in
        absurd (omega (arith, sl, sr, zl, zr))

    -- The new string fits where an equal string fits.
    lies_same :
        (y a : Ptr) (k : Bit) (side : ℕ)
        → SameString (key y) (key new)
        → StringLies key a k side y
        → StringLies key a k side new
    lies_same y a (pos n) side e (same, at, reach) = (
      (λ j lo hi. sym (string_bits (key y) (key new) n e reach j (omega arith)) ∙ same j lo hi),
      sym (string_bits (key y) (key new) n e reach n (omega arith)) ∙ at,
      Reaches-same (key y) (key new) n e reach,
    )
    lies_same y a (negsuc n) side e same =
        SameString-trans (key new) (key y) (key a) (SameString-sym (key y) (key new) e) same

    FitsIn-same :
        (y : Ptr) (c : Ctx)
        → SameString (key y) (key new)
        → FitsIn (StringLies key) y c
        → FitsIn (StringLies key) new c
    FitsIn-same y (top root) e h = tt
    FitsIn-same y (in_left a k r c) e h = (lies_same y a k 0 e h.0, FitsIn-same y c e h.1)
    FitsIn-same y (in_rght a k l c) e h = (lies_same y a k 1 e h.0, FitsIn-same y c e h.1)

    pub string_spine :
        (c c' : Ctx) (t t' : Tree) (side : ℕ)
        → IsStringRadix key (plug c t)
        → Agrees t
        → OnSpine c t c' t'
        → IsStringRadix key (plug c' (grow new (lower t') side t'))
    string_spine c c' t t' side g same on =
        let whole = subst (IsStringRadix key) (sym on.whole) g in
        let same' = λ (y : Ptr) (i : 0 < leaf_count y t'). same y (omega (arith, i, on.inside y)) in
        let p = first_count t' in
        grown-IsPlaced (StringLies key) new (lower t') side c' t' whole
          (lower-IsStringRadix t' side (IsPlaced-sub (StringLies key) c' t' whole) same')
          (FitsIn-same (first t') c' (same' (first t') p)
            (FitsIn-leaf (StringLies key) c' t' (first t') whole p))
