-- ===== src/Order/Delete.antt =====
-- A deletion keeps the leaves where the nodes say: where the structure `x` leaves, and the released parent
-- `q` takes its node part.
use ebmbtreebench.Prelude.{
  ◌≡◌, ◌≢◌, ◌≤◌, ◌<◌, ◌+◌, ◌==◌, if◌then◌else◌, arith, refl, ap, inl, inr, Bool-cases, true, false,
}
use ebmbtreebench.Memory.{Ptr, Bit}
use ebmbtreebench.Tree.{Tree, leaf, node, Ctx, top, in_left, in_rght, plug}
use ebmbtreebench.Tree.Count.{leaf_count, node_count, nodes_around, leaves_around}
use ebmbtreebench.Tree.Valid.{ℕ-cases}
use ebmbtreebench.Order.{Branches, IsPlaced, IsPlaced-sub, IsMovable}

module _ (L : Branches) (x q : Ptr) where
  -- The structure that must be a leaf below a node of `a`.
  abbrev owner : Ptr → Ptr
  owner a = if a == x then q else a

  -- As `IsPlaced`, but below the node of `x` there is the leaf `q`.
  abbrev pub IsLeft : Tree → Type 0
  IsLeft (leaf a) = Unit {0}
  IsLeft (node a k l r) =
      ((y : Ptr) → 0 < leaf_count y l → L a k 0 y)
      × ((y : Ptr) → 0 < leaf_count y r → L a k 1 y)
      × (0 < leaf_count (owner a) l + leaf_count (owner a) r)
      × IsLeft l
      × IsLeft r

  pub IsPlaced-IsLeft : (t : Tree) → IsPlaced L t → leaf_count x t ≡ 0 → IsLeft t
  unfolding leaf_count
  IsPlaced-IsLeft (leaf a) g z = tt
  IsPlaced-IsLeft (node a k l r) g z = (
    g.0,
    g.1,
    elim (Bool-cases (a == x)) [
      | inl e ↦
          let same : a ≡ x = ground (arith, e) in
          absurd (omega (arith, ap (λ b. leaf_count b l + leaf_count b r) same, g.2))
      | inr e ↦ rw e g.2
    ],
    IsPlaced-IsLeft l g.3 (omega arith),
    IsPlaced-IsLeft r g.4 (omega arith),
  )

  -- The leaf `x` leaves the subtree `s`, and `t` is what it becomes.
  pub IsLeft-plug :
      (c : Ctx) (s t : Tree)
      → IsPlaced L (plug c s)
      → IsLeft t
      → ((y : Ptr) → leaf_count y t ≤ leaf_count y s)
      → ((y : Ptr) → y ≢ x → leaf_count y s ≤ leaf_count y t)
      → 0 < leaf_count q t
      → leaves_around x c ≡ 0
      → IsLeft (plug c t)
  unfolding plug leaf_count leaves_around
  IsLeft-plug (top root) s t g h le ge i out = h
  IsLeft-plug (in_left a k r c) s t g h le ge i out =
      let (l', r', own, gs, gr) = IsPlaced-sub L c (node a k s r) g in
      let own' : 0 < leaf_count (owner a) t + leaf_count (owner a) r = elim (Bool-cases (a == x)) [
        | inl e ↦ rw e (omega arith)
        | inr e ↦ rw e (let ne : a ≢ x = ground (arith, e) in omega (arith, ge a ne, own))
      ] in
      IsLeft-plug c (node a k s r) (node a k t r) g
        ((λ y j. l' y (omega (arith, le y))), r', own', h, IsPlaced-IsLeft r gr (omega arith))
        (λ y. omega (arith, le y)) (λ y ne. omega (arith, ge y ne)) (omega arith) (omega arith)
  IsLeft-plug (in_rght a k l c) s t g h le ge i out =
      let (l', r', own, gl, gs) = IsPlaced-sub L c (node a k l s) g in
      let own' : 0 < leaf_count (owner a) l + leaf_count (owner a) t = elim (Bool-cases (a == x)) [
        | inl e ↦ rw e (omega arith)
        | inr e ↦ rw e (let ne : a ≢ x = ground (arith, e) in omega (arith, ge a ne, own))
      ] in
      IsLeft-plug c (node a k l s) (node a k l t) g
        (l', (λ y j. r' y (omega (arith, le y))), own', IsPlaced-IsLeft l gl (omega arith), h)
        (λ y. omega (arith, le y)) (λ y ne. omega (arith, ge y ne)) (omega arith) (omega arith)

  pub IsLeft-IsPlaced : (t : Tree) → IsLeft t → node_count x t ≡ 0 → IsPlaced L t
  unfolding node_count
  IsLeft-IsPlaced (leaf a) g z = tt
  IsLeft-IsPlaced (node a k l r) g z =
      let e : (a == x) ≡ false = ground arith in
      let own : 0 < leaf_count (owner a) l + leaf_count (owner a) r = g.2 in
      (
        g.0,
        g.1,
        (let o : 0 < leaf_count a l + leaf_count a r = rw e at own in o),
        IsLeft-IsPlaced l g.3 (omega arith),
        IsLeft-IsPlaced r g.4 (omega arith),
      )

  IsLeft-sub : (c : Ctx) (t : Tree) → IsLeft (plug c t) → IsLeft t
  unfolding plug
  IsLeft-sub (top root) t h = h
  IsLeft-sub (in_left a k r c) t h = (IsLeft-sub c (node a k t r) h).3
  IsLeft-sub (in_rght a k l c) t h = (IsLeft-sub c (node a k l t) h).4

  -- Around the node of `x` all is as before.
  around-IsPlaced :
      (c : Ctx) (t u : Tree)
      → IsLeft (plug c t)
      → IsPlaced L u
      → ((y : Ptr) → leaf_count y u ≡ leaf_count y t)
      → nodes_around x c ≡ 0
      → IsPlaced L (plug c u)
  unfolding plug leaf_count nodes_around
  around-IsPlaced (top root) t u h g same out = g
  around-IsPlaced (in_left a k r c) t u h g same out =
      let (l', r', own, ht, hr) = IsLeft-sub c (node a k t r) h in
      let e : (a == x) ≡ false = ground arith in
      let own' : 0 < leaf_count a t + leaf_count a r = rw e at own in
      around-IsPlaced c (node a k t r) (node a k u r) h
        (
          (λ y j. l' y (omega (arith, same y))),
          r',
          omega (arith, same a),
          g,
          IsLeft-IsPlaced r hr (omega arith),
        )
        (λ y. omega (arith, same y)) (omega arith)
  around-IsPlaced (in_rght a k l c) t u h g same out =
      let (l', r', own, hl, ht) = IsLeft-sub c (node a k l t) h in
      let e : (a == x) ≡ false = ground arith in
      let own' : 0 < leaf_count a l + leaf_count a t = rw e at own in
      around-IsPlaced c (node a k l t) (node a k l u) h
        (
          l',
          (λ y j. r' y (omega (arith, same y))),
          omega (arith, same a),
          IsLeft-IsPlaced l hl (omega arith),
          g,
        )
        (λ y. omega (arith, same y)) (omega arith)

  -- The released parent takes the node part of `x`.
  pub relabel-IsPlaced :
      (c : Ctx) (k : Bit) (l r : Tree)
      → IsLeft (plug c (node x k l r))
      → nodes_around x c + (node_count x l + node_count x r) ≡ 0
      → IsMovable L
      → IsPlaced L (plug c (node q k l r))
  unfolding leaf_count
  relabel-IsPlaced c k l r h out move =
      let (l', r', own, hl, hr) = IsLeft-sub c (node x k l r) h in
      let e : (x == x) ≡ true = ground arith in
      let own' : 0 < leaf_count q l + leaf_count q r = rw e at own in
      let gl = IsLeft-IsPlaced l hl (omega arith) in
      let gr = IsLeft-IsPlaced r hr (omega arith) in
      around-IsPlaced c (node x k l r) (node q k l r) h
        (elim (ℕ-cases (leaf_count q l)) [
          | inl z ↦ (
            (λ y i. move x q k y 0 1 (omega arith) (l' y i) (r' q (omega arith))),
            (λ y i. move x q k y 1 1 (omega arith) (r' y i) (r' q (omega arith))),
            own',
            gl,
            gr,
          )
          | inr p ↦ (
            (λ y i. move x q k y 0 0 (omega arith) (l' y i) (l' q p)),
            (λ y i. move x q k y 1 0 (omega arith) (r' y i) (l' q p)),
            own',
            gl,
            gr,
          )
        ])
        (λ y. refl) (omega arith)
