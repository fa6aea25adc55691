-- ===== src/Order/Insert.antt =====
-- An insertion keeps the order of the keys.
use native.Mathlib.Nat.{one-le-pow, div-le_self, div-eq_of_lt, zero-div, div-lt_iff_lt-mul}
use ebmbtreebench.Order.{
  IsRadix, Lies, Fits, Fits-leaf, IsRadix-sub, ℕ, Ptr, Ctx, leaf_count, top, Tree, in_left, leaf,
  arith, in_rght, node, ℕ-cases, inl, inr, plug,
}
use ebmbtreebench.Order.Grow.{
  IsUniform, side_of, apart-IsRadix, beside-IsRadix, grown-IsRadix, Fits-same,
}
use ebmbtreebench.Scalar.Descent.{Went, Stops, top_of}
use ebmbtreebench.Scalar.Placed.{Placed, Apart, Beside}
use ebmbtreebench.Fls.Shift.{
  FirstBit-of_xor, agree_of_test, shift_suc, shift_up, xor_shift, xor_self, shift_add,
}
use ebmbtreebench.Fls.Xor.{equal_of_xor}
use ebmbtreebench.Dup.Append.{lower}
use ebmbtreebench.Prelude.{
  ℕ, Bool, ◌<◌, ◌≤◌, ◌^◌, ◌/◌, leb, ◌+◌, ◌≡◌, false, ◌-◌, ap, arith, ◌%◌, sym, suc, Bool-cases, ◌∙◌,
  if◌then◌else◌, ◌*◌,
}
use ebmbtreebench.Memory.{Ptr, pos, negsuc, Bit}
use Prim.Native.Nat.{bit_xor, suc}
use mathlib.Core.Path.{subst, ap₂}
use ebmbtreebench.Tree.{Ctx, Tree, plug, first}
use ebmbtreebench.Tree.Count.{leaf_count}
use ebmbtreebench.Tree.Valid.{ℕ-cases}
use ebmbtreebench.Insert.{grow}
use ebmbtreebench.Lookup.Sound.{first_count}

pub xor-lt : (w x y : ℕ) → x < 2 ^ w → y < 2 ^ w → bit_xor x y < 2 ^ w
xor-lt w x y i j =
    let p = one-le-pow w 2 (omega arith) in
    let z : bit_xor x y / 2 ^ w ≡ 0 =
      xor_shift w x y ∙ ap₂ bit_xor (div-eq_of_lt i) (div-eq_of_lt j) in
    let lt = (div-lt_iff_lt-mul p).0 (let one : bit_xor x y / 2 ^ w < 1 = omega arith in one) in
    omega (arith, lt)

pub shift_anti : (x n m : ℕ) → n ≤ m → x / 2 ^ m ≤ x / 2 ^ n
shift_anti x n m le =
    subst (λ z. x / 2 ^ z ≤ x / 2 ^ n) (let e : n + (m - n) ≡ m = omega arith in e)
      (subst (λ z. z ≤ x / 2 ^ n) (sym (shift_add x n (m - n)))
        (div-le_self (x / 2 ^ n) (2 ^ (m - n))))

-- The order in which a tree has its keys: `turn` gives each key of `w` bits its rank, from the
-- same bits up to the top one; `ge` compares by rank, and `fls` finds the highest bit.
pub record IsTurn (w : ℕ) (turn fls : ℕ → ℕ) (ge : ℕ → ℕ → Bool) : Type 0 where
  pub xor : (x y : ℕ) → x < 2 ^ w → y < 2 ^ w → bit_xor (turn x) (turn y) ≡ bit_xor x y
  pub ge_is : (x y : ℕ) → x < 2 ^ w → y < 2 ^ w → ge x y ≡ leb (turn y) (turn x)
  pub top : (d : ℕ) → 0 < d → d < 2 ^ w → d / 2 ^ (fls d - 1) ≡ 1

module _ (w : ℕ) (turn fls : ℕ → ℕ) (ge : ℕ → ℕ → Bool) (h : IsTurn w turn fls ge) (key : Ptr → ℕ)
    (width : (y : Ptr) → key y < 2 ^ w) (new : Ptr) where
  abbrev ord : Ptr → ℕ
  ord y = turn (key y)

  same_xor : (y : Ptr) → bit_xor (ord new) (ord y) ≡ bit_xor (key new) (key y)
  same_xor y = h.xor (key new) (key y) (width new) (width y)

  step_Lies :
      (a : Ptr) (n side : ℕ)
      → leb 2 (bit_xor (key new) (key a) / 2 ^ n) ≡ false
      → ord new / 2 ^ n % 2 ≡ side
      → Lies ord a (pos n) side new
  step_Lies a n side e d =
      let below : bit_xor (key new) (key a) / 2 ^ n < 2 = ground arith in
      let agree =
        agree_of_test n (ord new) (ord a) (subst (λ z. z / 2 ^ n < 2) (sym (same_xor a)) below) in
      omega (arith, agree, shift_suc (ord new) n)

  pub Fits-of_Went : (c : Ctx) → Went key (key new) (ord new) c → Fits ord new c
  Fits-of_Went (top root) g = tt
  Fits-of_Went (in_left a (pos n) r c) g = (step_Lies a n 0 g.0 g.1, Fits-of_Went c g.2)
  Fits-of_Went (in_rght a (pos n) l c) g = (step_Lies a n 1 g.0 g.1, Fits-of_Went c g.2)
  Fits-of_Went (in_left a (negsuc n) r c) g = absurd g
  Fits-of_Went (in_rght a (negsuc n) l c) g = absurd g

  Stops-IsUniform :
      (n : ℕ) (t : Tree)
      → IsRadix ord t
      → Stops key (key new) t
      → bit_xor (key new) (key (top_of t)) / 2 ^ n ≡ 1
      → IsUniform ord n (top_of t) t
  unfolding leaf_count
  Stops-IsUniform n (leaf a) r s d y i = ap (λ z. ord z / 2 ^ n) (let e : y ≡ a = ground arith in e)
  Stops-IsUniform n (node a (negsuc k) l r) g s d y i = elim (ℕ-cases (leaf_count y l)) [
    | inl z ↦ ap (λ z. z / 2 ^ n) (g.1 y (omega arith))
    | inr p ↦ ap (λ z. z / 2 ^ n) (g.0 y p)
  ]
  Stops-IsUniform n (node a (pos k) l r) g s d y i =
      let far : 2 ≤ bit_xor (key new) (key a) / 2 ^ k = ground (arith, s) in
      let le : suc k ≤ n = elim (Bool-cases (leb (suc k) n)) [
        | inl e ↦ ground (arith, e)
        | inr e ↦
            absurd (omega (arith, shift_anti (bit_xor (key new) (key a)) n k (ground (arith, e))))
      ] in
      let up : ord y / 2 ^ suc k ≡ ord a / 2 ^ suc k = elim (ℕ-cases (leaf_count y l)) [
        | inl z ↦ omega (arith, g.1 y (omega arith), shift_suc (ord y) k)
        | inr p ↦ omega (arith, g.0 y p, shift_suc (ord y) k)
      ] in
      shift_up (ord y) (ord a) (suc k) n le up

  Apart-placed :
      (c : Ctx) (t : Tree) (k : Bit) (side : ℕ)
      → IsRadix ord (plug c t)
      → Apart key (ord new) fls ge new c t k side
      → IsRadix ord (plug c (grow new k side t))
  Apart-placed c t k side r p =
      let old = top_of t in
      let d = bit_xor (key new) (key old) in
      let pos_d : 0 < d = elim (ℕ-cases d) [
        | inl z ↦ absurd (p.differs (equal_of_xor (key new) (key old) z))
        | inr i ↦ i
      ] in
      let one = h.top d pos_d (xor-lt w (key new) (key old) (width new) (width old)) in
      let n = fls d - 1 in
      let first =
        FirstBit-of_xor n (ord new) (ord old) (ap (λ z. z / 2 ^ n) (same_xor old) ∙ one) in
      let rt = IsRadix-sub ord c t r in
      let side_ok : side_of ord old new ≡ side = sym (
        p.side_is
        ∙ ap (λ b. if b then 0 else 1) (h.ge_is (key new) (key old) (width new) (width old))) in
      grown-IsRadix ord new k side c t r
        (subst (λ b. IsRadix ord (grow new b side t)) (sym p.bit_is)
          (subst (λ z. IsRadix ord (grow new (pos n) z t)) side_ok
            (apart-IsRadix ord n old new t (Stops-IsUniform n t rt p.stops one) first rt)))
        (Fits-of_Went c p.went)

  -- Where the descent stops at the key, all the leaves have it.
  Stops-same :
      (t : Tree)
      → IsRadix ord t
      → Stops key (key new) t
      → key new ≡ key (top_of t)
      → (y : Ptr) → 0 < leaf_count y t
      → ord y ≡ ord new
  unfolding leaf_count
  Stops-same (leaf a) r s e y i = ap ord (let q : y ≡ a = ground arith in q) ∙ ap turn (sym e)
  Stops-same (node a (negsuc k) l r) g s e y i = elim (ℕ-cases (leaf_count y l)) [
    | inl z ↦ g.1 y (omega arith) ∙ ap turn (sym e)
    | inr p ↦ g.0 y p ∙ ap turn (sym e)
  ]
  Stops-same (node a (pos k) l r) g s e y i =
      let z : bit_xor (key new) (key a) / 2 ^ k ≡ 0 =
        ap (λ u. bit_xor u (key a) / 2 ^ k) e
        ∙ ap (λ u. u / 2 ^ k) (xor_self (key a))
        ∙ zero-div (2 ^ k) in
      absurd (ground (arith, s, z))

  -- Above leaves with one key there is a node of a tree of duplicates.
  lower-IsRadix :
      (t : Tree)
      → IsRadix ord t
      → ((y : Ptr) → 0 < leaf_count y t → ord y ≡ ord new)
      → (side : ℕ) → IsRadix ord (grow new (lower t) side t)
  unfolding leaf_count
  lower-IsRadix (leaf a) r same side = beside-IsRadix ord new (leaf a) 0 side r same
  lower-IsRadix (node a (negsuc k) l r) g same side =
      beside-IsRadix ord new (node a (negsuc k) l r) (suc k) side g same
  lower-IsRadix (node a (pos k) l r) g same side =
      let p = first_count l in
      let q = first_count r in
      let el = same (first l) (omega arith) in
      let er = same (first r) (omega arith) in
      let dl : ord (first l) / 2 ^ k ≡ ord a / 2 ^ suc k * 2 + 0 = g.0 (first l) p in
      let dr : ord (first r) / 2 ^ k ≡ ord a / 2 ^ suc k * 2 + 1 = g.1 (first r) q in
      absurd (omega (arith, ap (λ z. z / 2 ^ k) (el ∙ sym er)))

  Beside-placed :
      (c : Ctx) (t : Tree) (k : Bit) (side : ℕ)
      → IsRadix ord (plug c t)
      → Beside key (ord new) ge new c t k side
      → IsRadix ord (plug c (grow new k side t))
  Beside-placed c t k side r p =
      let rf = IsRadix-sub ord p.from_at p.from_sub (subst (λ u. IsRadix ord u) p.on.whole r) in
      let same = λ (y : Ptr) (i : 0 < leaf_count y t).
        Stops-same p.from_sub rf p.stops p.same y (omega (arith, i, p.on.inside y)) in
      let q = first_count t in
      grown-IsRadix ord new k side c t r
        (subst (λ b. IsRadix ord (grow new b side t)) (sym p.bit_is)
          (lower-IsRadix t (IsRadix-sub ord c t r) same side))
        (Fits-same ord (first t) new c (sym (same (first t) q)) (Fits-leaf ord c t (first t) r q))

  pub Placed-IsRadix :
      (c : Ctx) (t : Tree) (k : Bit) (side : ℕ)
      → IsRadix ord (plug c t)
      → Placed key (ord new) fls ge new c t k side
      → IsRadix ord (plug c (grow new k side t))
  Placed-IsRadix c t k side r (inl p) = Apart-placed c t k side r p
  Placed-IsRadix c t k side r (inr p) = Beside-placed c t k side r p
