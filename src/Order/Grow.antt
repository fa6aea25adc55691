-- ===== src/Order/Grow.antt =====
-- A new structure that is put where the first bit at which the keys differ belongs, or beside
-- leaves with its key.
use ebmbtreebench.Prelude.{
  ℕ, ◌≡◌, if◌then◌else◌, leb, ◌<◌, true, false, ◌/◌, ap, Bool-cases, ◌^◌, suc, arith, ◌∙◌, ◌*◌, ◌+◌,
  ◌≤◌, ◌≢◌, ◌==◌, refl,
}
use ebmbtreebench.Order.{
  IsRadix, IsPlaced, FitsIn, FitsIn-leaf, IsPlaced-plug, Branches, Lies, Ptr, Tree, leaf_count,
  leaf, suc, arith, inl, inr, Ctx, plug, Fits, top, ℕ-cases, in_left, in_rght,
}
use ebmbtreebench.Insert.{grow}
use ebmbtreebench.Fls.Shift.{FirstBit, shift_mono, shift_suc}
use ebmbtreebench.Memory.{Ptr, pos, negsuc, Bit}
use ebmbtreebench.Tree.{Tree, leaf, Ctx, plug}
use ebmbtreebench.Tree.Count.{leaf_count, one_if_self, one_if}
use ebmbtreebench.Tree.Valid.{ℕ-cases}
use mathlib.Core.Path.{subst}

-- All the leaves of `t` have the key of `old` from the bit `n` on.
abbrev pub IsUniform : (Ptr → ℕ) → ℕ → Ptr → Tree → Type 0
IsUniform ord n old t = (y : Ptr) → 0 < leaf_count y t → ord y / 2 ^ n ≡ ord old / 2 ^ n

-- The side of the old subtree below the new node.
abbrev pub side_of : (Ptr → ℕ) → Ptr → Ptr → ℕ
side_of ord old new = if leb (ord old) (ord new) then 0 else 1

module _ (ord : Ptr → ℕ) (n : ℕ) (old new : Ptr) (t : Tree) (u : IsUniform ord n old t)
    (d : FirstBit n (ord new) (ord old)) (h : IsRadix ord t) where
  upper_Lies :
      leb (ord old) (ord new) ≡ true
      → (ord new / 2 ^ n ≡ ord new / 2 ^ suc n * 2 + 1)
        × (ord old / 2 ^ n ≡ ord new / 2 ^ suc n * 2)
  upper_Lies e =
      let le : ord old ≤ ord new = ground arith in
      let m = shift_mono (ord old) (ord new) n le in
      let s = shift_suc (ord new) n in
      let s' = shift_suc (ord old) n in
      let a = d.above in
      let ne : ord new / 2 ^ n ≢ ord old / 2 ^ n = d.at in (ground arith, ground arith)

  lower_Lies :
      leb (ord old) (ord new) ≡ false
      → (ord new / 2 ^ n ≡ ord new / 2 ^ suc n * 2)
        × (ord old / 2 ^ n ≡ ord new / 2 ^ suc n * 2 + 1)
  lower_Lies e =
      let le : ord new ≤ ord old = ground arith in
      let m = shift_mono (ord new) (ord old) n le in
      let s = shift_suc (ord new) n in
      let s' = shift_suc (ord old) n in
      let a = d.above in
      let ne : ord new / 2 ^ n ≢ ord old / 2 ^ n = d.at in (ground arith, ground arith)

  is_new : (y : Ptr) → 0 < leaf_count y (leaf new) → ord y ≡ ord new
  unfolding leaf_count
  is_new y i = ap ord (let e : y ≡ new = ground arith in e)

  pub apart-IsRadix : IsRadix ord (grow new (pos n) (side_of ord old new) t)
  unfolding leaf_count
  apart-IsRadix = elim (Bool-cases (leb (ord old) (ord new))) [
    | inl e ↦
        let (p, q) = upper_Lies e in
        rw e (
          (λ y i. omega (arith, u y i)),
          (λ y i. ap (λ z. z / 2 ^ n) (is_new y i) ∙ p),
          omega (arith, one_if_self new),
          h,
          tt,
        )
    | inr e ↦
        let (p, q) = lower_Lies e in
        rw e (
          (λ y i. ap (λ z. z / 2 ^ n) (is_new y i) ∙ omega arith),
          (λ y i. omega (arith, u y i)),
          omega (arith, one_if_self new),
          tt,
          h,
        )
  ]

-- A node of a tree of duplicates above leaves that all have the key of the new structure.
pub beside-IsRadix :
    (ord : Ptr → ℕ) (new : Ptr) (t : Tree) (n side : ℕ)
    → IsRadix ord t
    → ((y : Ptr) → 0 < leaf_count y t → ord y ≡ ord new)
    → IsRadix ord (grow new (negsuc n) side t)
unfolding leaf_count
beside-IsRadix ord new t n side h same =
    let own =
      λ (y : Ptr) (i : 0 < leaf_count y (leaf new)). ap ord (let e : y ≡ new = ground arith in e) in
    elim (Bool-cases (side == 0)) [
      | inl e ↦ rw e (same, own, omega (arith, one_if_self new), h, tt)
      | inr e ↦ rw e (own, same, omega (arith, one_if_self new), tt, h)
    ]

grow-leaves :
    (new : Ptr) (k : Bit) (side : ℕ) (t : Tree) (y : Ptr)
    → leaf_count y (grow new k side t) ≡ one_if new y + leaf_count y t
unfolding leaf_count
grow-leaves new k side t y = elim (Bool-cases (side == 0)) [
  | inl e ↦ rw e (omega arith)
  | inr e ↦ rw e refl
]

-- The whole tree, where the new structure fits at the slot.
pub grown-IsPlaced :
    (L : Branches) (new : Ptr) (k : Bit) (side : ℕ) (c : Ctx) (t : Tree)
    → IsPlaced L (plug c t)
    → IsPlaced L (grow new k side t)
    → FitsIn L new c
    → IsPlaced L (plug c (grow new k side t))
grown-IsPlaced L new k side c t h hg fits =
    IsPlaced-plug L c t (grow new k side t) h hg
      (λ y i. elim (ℕ-cases (leaf_count y t)) [
        | inl z ↦
            subst (λ w. FitsIn L w c)
              (let e : new ≡ y = ground (arith, grow-leaves new k side t y) in e) fits
        | inr p ↦ FitsIn-leaf L c t y h p
      ])
      (λ y. omega (arith, grow-leaves new k side t y))

pub grown-IsRadix :
    (ord : Ptr → ℕ) (new : Ptr) (k : Bit) (side : ℕ) (c : Ctx) (t : Tree)
    → IsRadix ord (plug c t)
    → IsRadix ord (grow new k side t)
    → Fits ord new c
    → IsRadix ord (plug c (grow new k side t))
grown-IsRadix ord new k side c t h hg fits = grown-IsPlaced (Lies ord) new k side c t h hg fits

-- The new structure fits where a leaf with its key fits.
pub Fits-same :
    (ord : Ptr → ℕ) (y new : Ptr) (c : Ctx) → ord new ≡ ord y → Fits ord y c → Fits ord new c
Fits-same ord y new (top root) e h = tt
Fits-same ord y new (in_left a (pos n) r c) e h =
    (ap (λ z. z / 2 ^ n) e ∙ h.0, Fits-same ord y new c e h.1)
Fits-same ord y new (in_left a (negsuc n) r c) e h = (e ∙ h.0, Fits-same ord y new c e h.1)
Fits-same ord y new (in_rght a (pos n) l c) e h =
    (ap (λ z. z / 2 ^ n) e ∙ h.0, Fits-same ord y new c e h.1)
Fits-same ord y new (in_rght a (negsuc n) l c) e h = (e ∙ h.0, Fits-same ord y new c e h.1)
