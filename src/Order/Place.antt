-- ===== src/Order/Place.antt =====
-- An insertion puts the new structure where an insertion into the sorted list of the leaves does:
-- behind the last leaf whose key is not above its own.
use mathlib.Core.List.{append_assoc}
use ebmbtreebench.Prelude.{
  ℕ, suc, Bool, ◌≡◌, ◌≤◌, ◌<◌, ◌+◌, ◌*◌, ◌/◌, ◌^◌, ◌-◌, List, [], ◌∷◌, ◌++◌, leb, if◌then◌else◌,
  arith, refl, sym, ap, ◌∙◌, inl, inr, Bool-cases, true, false,
}
use ebmbtreebench.Memory.{Ptr, Bit, pos, negsuc}
use ebmbtreebench.Tree.{Tree, leaf, node, Ctx, top, in_left, in_rght, plug, leaves, before, after}
use ebmbtreebench.Tree.Plug.{leaves-plug}
use ebmbtreebench.Tree.Count.{leaf_count, one_if_self}
use ebmbtreebench.Insert.{grow}
use ebmbtreebench.Order.{IsRadix, Lies, IsRadix-sub}
use ebmbtreebench.Order.Insert.{IsTurn, Fits-of_Went, Placed-IsRadix}
use ebmbtreebench.Order.Sorted.{All, All-append, All-leaves, IsSorted, leaves-IsSorted}
use ebmbtreebench.Scalar.Descent.{Went, top_of}
use ebmbtreebench.Scalar.Placed.{Placed, Beside}
use ebmbtreebench.Fls.Shift.{shift_lt}
use mathlib.Core.Path.{subst}
use Prim.Native.Nat.{bit_xor}

-- The insertion into a list that is sorted by `ord`, behind what is not above.
unfoldable pub insert_by : (Ptr → ℕ) → Ptr → List Ptr → List Ptr
insert_by ord new [] = new ∷ []
insert_by ord new (y ∷ ys) =
    if leb (ord y) (ord new) then y ∷ insert_by ord new ys else new ∷ y ∷ ys

insert_by-split :
    (ord : Ptr → ℕ) (new : Ptr) (xs ys : List Ptr)
    → IsSorted ord (xs ++ new ∷ ys)
    → All (λ y. ord new < ord y) ys
    → insert_by ord new (xs ++ ys) ≡ xs ++ new ∷ ys
unfolding insert_by
insert_by-split ord new [] [] s h = refl
insert_by-split ord new [] (y ∷ ys) s h =
    let lt = h.0 in let e : leb (ord y) (ord new) ≡ false = ground arith in rw e refl
insert_by-split ord new (x ∷ xs) ys s h =
    let le = All-middle xs s.0 in
    let e : leb (ord x) (ord new) ≡ true = ground arith in
    rw e (ap (λ zs. x ∷ zs) (insert_by-split ord new xs ys s.1 h))
  where
    All-middle : (us : List Ptr) → All (λ z. ord x ≤ ord z) (us ++ new ∷ ys) → ord x ≤ ord new
    All-middle [] a = a.0
    All-middle (u ∷ us) a = All-middle us a.1

-- A leaf in the right branch of a node with a bit is above one that belongs in the left branch.
Lies-lt :
    (ord : Ptr → ℕ) (a : Ptr) (n : ℕ) (y z : Ptr)
    → Lies ord a (pos n) 0 y
    → Lies ord a (pos n) 1 z
    → ord y < ord z
Lies-lt ord a n y z e1 e2 =
    let p : ord y / 2 ^ n ≡ ord a / 2 ^ suc n * 2 + 0 = e1 in
    let q : ord z / 2 ^ n ≡ ord a / 2 ^ suc n * 2 + 1 = e2 in
    shift_lt (ord y) (ord z) n (omega arith)

-- The leaves of a tree that has grown, with the new one in its place.
leaves-right :
    (new : Ptr) (k : Bit) (c : Ctx) (t : Tree)
    → leaves (plug c (grow new k 0 t)) ≡ (before c ++ leaves t) ++ new ∷ after c
unfolding leaves
leaves-right new k c t =
    leaves-plug c (node new k t (leaf new))
    ∙ ap (λ z. before c ++ z) (append_assoc (leaves t) (new ∷ []) (after c))
    ∙ sym (append_assoc (before c) (leaves t) (new ∷ after c))

leaves-left :
    (new : Ptr) (k : Bit) (c : Ctx) (t : Tree)
    → leaves (plug c (grow new k 1 t)) ≡ before c ++ new ∷ (leaves t ++ after c)
unfolding leaves
leaves-left new k c t = leaves-plug c (node new k (leaf new) t)

module _ (w : ℕ) (turn fls : ℕ → ℕ) (ge : ℕ → ℕ → Bool) (h : IsTurn w turn fls ge) (key : Ptr → ℕ)
    (width : (y : Ptr) → key y < 2 ^ w) (new : Ptr) where
  abbrev ord : Ptr → ℕ
  ord y = turn (key y)

  abbrev Later : Ptr → Type 0
  Later y = ord new < ord y

  later :
      (c : Ctx) (t : Tree)
      → Went key (key new) (ord new) c
      → IsRadix ord (plug c t)
      → All Later (after c)
  unfolding plug after
  later (top root) t g r = tt
  later (in_left a (pos n) u c) t g r =
      let sub = IsRadix-sub ord c (node a (pos n) t u) r in
      let fits = Fits-of_Went w turn fls ge h key width new (in_left a (pos n) u c) g in
      All-append Later (leaves u) (after c)
        (All-leaves Later u (λ y i. Lies-lt ord a n new y fits.0 (sub.1 y i)))
        (later c (node a (pos n) t u) g.2 r)
  later (in_rght a (pos n) u c) t g r = later c (node a (pos n) u t) g.2 r
  later (in_left a (negsuc n) u c) t g r = absurd g
  later (in_rght a (negsuc n) u c) t g r = absurd g

  put_right-insert_by :
      (c : Ctx) (t : Tree) (k : Bit)
      → IsRadix ord (plug c (grow new k 0 t))
      → All Later (after c)
      → leaves (plug c (grow new k 0 t)) ≡ insert_by ord new (leaves (plug c t))
  put_right-insert_by c t k r all =
      let sorted =
        subst (IsSorted ord) (leaves-right new k c t)
          (leaves-IsSorted ord (plug c (grow new k 0 t)) r) in
      leaves-right new k c t
      ∙ sym (insert_by-split ord new (before c ++ leaves t) (after c) sorted all)
      ∙ ap (insert_by ord new)
          (append_assoc (before c) (leaves t) (after c) ∙ sym (leaves-plug c t))

  put_left-insert_by :
      (c : Ctx) (t : Tree) (n : ℕ)
      → IsRadix ord (plug c (grow new (pos n) 1 t))
      → All Later (after c)
      → leaves (plug c (grow new (pos n) 1 t)) ≡ insert_by ord new (leaves (plug c t))
  unfolding leaf_count
  put_left-insert_by c t n r all =
      let sorted =
        subst (IsSorted ord) (leaves-left new (pos n) c t)
          (leaves-IsSorted ord (plug c (grow new (pos n) 1 t)) r) in
      let sub = IsRadix-sub ord c (grow new (pos n) 1 t) r in
      let above =
        All-leaves Later t (λ y i.
          Lies-lt ord new n new y (sub.0 new (omega (arith, one_if_self new))) (sub.1 y i)) in
      leaves-left new (pos n) c t
      ∙ sym (
          insert_by-split ord new (before c) (leaves t ++ after c) sorted
            (All-append Later (leaves t) (after c) above all))
      ∙ ap (insert_by ord new) (sym (leaves-plug c t))

  Beside-side :
      (c : Ctx) (t : Tree) (k : Bit) (side : ℕ) → Beside key (ord new) ge new c t k side → side ≡ 0
  Beside-side c t k side p = elim p.side_is [
    | inl e ↦ e
    | inr e ↦
        let old = top_of p.from_sub in
        let same : turn (key old) ≡ turn (key new) = ap turn (sym p.same) in
        let yes : ge (key new) (key old) ≡ true =
          h.ge_is (key new) (key old) (width new) (width old) ∙ (ground (arith, same)) in
        e ∙ ap (λ b. if b then 0 else 1) yes
  ]

  pub Placed-insert_by :
      (c : Ctx) (t : Tree) (k : Bit) (side : ℕ)
      → IsRadix ord (plug c t)
      → Placed key (ord new) fls ge new c t k side
      → leaves (plug c (grow new k side t)) ≡ insert_by ord new (leaves (plug c t))
  Placed-insert_by c t k side r (inl p) =
      let grown = Placed-IsRadix w turn fls ge h key width new c t k side r (inl p) in
      let all = later c t p.went r in
      let old = top_of t in
      let n = fls (bit_xor (key new) (key old)) - 1 in
      elim (Bool-cases (ge (key new) (key old))) [
        | inl e ↦
            let zero_side : side ≡ 0 = p.side_is ∙ ap (λ b. if b then 0 else 1) e in
            subst (λ s. leaves (plug c (grow new k s t)) ≡ insert_by ord new (leaves (plug c t)))
              (sym zero_side)
              (put_right-insert_by c t k
                (subst (λ s. IsRadix ord (plug c (grow new k s t))) zero_side grown) all)
        | inr e ↦
            let one_side : side ≡ 1 = p.side_is ∙ ap (λ b. if b then 0 else 1) e in
            subst (λ b. leaves (plug c (grow new b side t)) ≡ insert_by ord new (leaves (plug c t)))
              (sym p.bit_is)
              (subst
                (λ s.
                  leaves (plug c (grow new (pos n) s t)) ≡ insert_by ord new (leaves (plug c t)))
                (sym one_side)
                (put_left-insert_by c t n
                  (subst (λ s. IsRadix ord (plug c (grow new (pos n) s t))) one_side
                    (subst (λ b. IsRadix ord (plug c (grow new b side t))) p.bit_is grown))
                  all))
      ]
  Placed-insert_by c t k side r (inr p) =
      let grown = Placed-IsRadix w turn fls ge h key width new c t k side r (inr p) in
      let all =
        subst (All Later) (sym p.on.back)
          (later p.from_at p.from_sub p.went (subst (IsRadix ord) p.on.whole r)) in
      let zero_side = Beside-side c t k side p in
      subst (λ s. leaves (plug c (grow new k s t)) ≡ insert_by ord new (leaves (plug c t)))
        (sym zero_side)
        (put_right-insert_by c t k
          (subst (λ s. IsRadix ord (plug c (grow new k s t))) zero_side grown) all)
