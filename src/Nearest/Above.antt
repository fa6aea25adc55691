-- ===== src/Nearest/Above.antt =====
-- `eb32_lookup_ge` returns the first leaf whose key is not below the argument.
use ebmbtreebench.Prelude.{
  ℕ, suc, ◌≡◌, ◌≤◌, ◌<◌, ◌+◌, ◌==◌, leb, arith, inl, inr, Bool-cases, some, ◌∙◌, ◌++◌, ap, true,
  sym, Option, if◌then◌else◌, false, none, ◌/◌, ◌^◌, ◌%◌, ltb, zero, refl,
}
use ebmbtreebench.Memory.{Ptr, Mem, Bit, eb_gettag, eb_left, negsuc, pos, null}
use ebmbtreebench.Tree.{
  Tree, leaf, node, Ctx, slot, first, leaves, height, depth, after, Holds, Around, IsAddr,
  height_of, Rooted, in_left, contents, in_rght, top,
}
use ebmbtreebench.Walk.Down.{untag-leaf, walk_down-first, untag-node}
use ebmbtreebench.Walk.{next_from, eb_walk_down}
use ebmbtreebench.Walk.Neighbours.{next_from-after}
use ebmbtreebench.Order.Sorted.{All, All-append, All-leaves}
use ebmbtreebench.Nearest.{ge_from, true, Option, false, bit_xor, ltb, eb32_lookup_ge}
use ebmbtreebench.Nearest.Pick.{
  HasFrom, HasBelow, first_ge, first_ge-from, first_ge-below, first_ge-head,
}
use ebmbtreebench.Tree.Count.{leaf_count}
use ebmbtreebench.Order.{IsRadix, KeepsOrder}
use ebmbtreebench.Nearest.Side.{dups_all, far-HasAbove, far-HasBelow, near-HasAbove, near-HasBelow}
use mathlib.Core.List.{append_assoc, append-nil}
use ebmbtreebench.Tree.Valid.{ℕ-cases}
use ebmbtreebench.Walk.Step.{link-nonnull}

module _ (key : Ptr → ℕ) (x : ℕ) (m : Mem) where
  -- What is looked for from a slot on.
  abbrev goal : Ctx → Tree → Ptr
  goal c t = first_ge key x (leaves t ++ after c)

  abbrev Rest : Ctx → Type 0
  Rest c = All (λ y. x ≤ key y) (after c)

  module _ (f : ℕ) (c : Ctx) (rest : Rest c) where
    -- All the leaves below the slot are too low: the climb finds the first one behind them.
    skip :
        (t : Tree)
        → depth c < f
        → Around m c
        → HasBelow key x t
        → next_from f m (slot c) ≡ some (goal c t)
    skip t fuel h low =
        next_from-after m f c fuel h
        ∙ ap some (sym (first_ge-below key x t (after c) low ∙ first_ge-head key x (after c) rest))

    -- None is: the way down the left side finds the first of them.
    take_first :
        (a : Ptr) (k : Bit) (l r : Tree)
        → height l < f
        → Holds m (a + 0) l
        → HasFrom key x (node a k l r)
        → eb_walk_down f m (m.b (a + 0)) eb_left ≡ some (goal c (node a k l r))
    unfolding first
    take_first a k l r fuel h from =
        walk_down-first m f l (a + 0) fuel h
        ∙ ap some (sym (first_ge-from key x (node a k l r) (after c) from))

    ge-leaf :
        (a : Ptr) (p : ℕ)
        → p ≡ slot c
        → depth c < f
        → Around m c
        → Holds m p (leaf a)
        → ge_from key x (suc f) m (m.b p) ≡ some (goal c (leaf a))
    unfolding ge_from first leaf_count
    ge-leaf a p e fuel h t =
        let tag : (eb_gettag (a + 0) == 0) ≡ true = let i = t.2 in ground arith in
        rw t.0 (
          rw (tag, ge_from)
            (rw (untag-leaf a) (elim (Bool-cases (leb x (key a))) [
              | inl hit ↦ rw hit (
                  ap some (
                    sym (
                      first_ge-from key x (leaf a) (after c)
                        (λ y i. let q : y ≡ a = ground arith in rw q (ground (arith, hit))))))
              | inr miss ↦
                  rw (miss, t.1, e)
                    (skip (leaf a) fuel h
                      (λ y i. let q : y ≡ a = ground arith in rw q (ground (arith, miss))))
            ])))

  -- A pass of the loop at a node.
  abbrev pass : ℕ → Ptr → Bit → Option Ptr
  pass f a k =
      let next = next_from f m (m.node_p a) in
      let lowest = eb_walk_down f m (m.b (a + 0)) eb_left in
      elim k [
        | negsuc n ↦ if leb x (key a) then lowest else next
        | pos n ↦
            let below = ge_from key x f m (m.b (a + x / 2 ^ n % 2)) in
            if leb 2 (bit_xor x (key a) / 2 ^ n)
            then if ltb (x / 2 ^ n) (key a / 2 ^ n) then lowest else next
            else below
      ]

  ge_from-node : (f : ℕ) (a : Ptr) → IsAddr a → ge_from key x (suc f) m (a + 1) ≡ pass f a (m.bit a)
  unfolding ge_from
  ge_from-node f a h =
      let e : (eb_gettag (a + 1) == 0) ≡ false = ground arith in
      rw (e, ge_from) (ap (λ b. pass f b (m.bit b)) (untag-node a))

  -- The loop from a slot on finds what is looked for.
  abbrev Finds : ℕ → Ctx → Tree → Type 0
  Finds f c t = ge_from key x f m (m.b (slot c)) ≡ some (goal c t)

  module _ (f : ℕ) (c : Ctx) (rest : Rest c) (a : Ptr) (l r : Tree) (fuel : depth c < f)
      (room : height l < f) (h : Around m c) where
    ge-dups :
        (n : ℕ)
        → Holds m (slot c) (node a (negsuc n) l r)
        → IsRadix key (node a (negsuc n) l r)
        → pass f a (negsuc n) ≡ some (goal c (node a (negsuc n) l r))
    ge-dups n t g = elim (Bool-cases (leb x (key a))) [
      | inl e ↦ rw e (
          take_first f c rest a (negsuc n) l r room t.4
            (dups_all key a n l r (λ z. x ≤ z) g (ground (arith, e))))
      | inr e ↦
          rw (e, t.1)
            (skip f c rest (node a (negsuc n) l r) fuel h
              (dups_all key a n l r (λ z. z < x) g (ground (arith, e))))
    ]

    ge-far :
        (n : ℕ)
        → Holds m (slot c) (node a (pos n) l r)
        → IsRadix key (node a (pos n) l r)
        → leb 2 (bit_xor x (key a) / 2 ^ n) ≡ true
        → pass f a (pos n) ≡ some (goal c (node a (pos n) l r))
    ge-far n t g far =
        let far' : 2 ≤ bit_xor x (key a) / 2 ^ n = ground (arith, far) in
        elim (Bool-cases (ltb (x / 2 ^ n) (key a / 2 ^ n))) [
          | inl e ↦
              let up = far-HasAbove key x a n l r g far' (ground (arith, e)) in
              rw (far, e)
                (take_first f c rest a (pos n) l r room t.4 (λ y i. omega (arith, up y i)))
          | inr e ↦
              rw (far, e, t.1)
                (skip f c rest (node a (pos n) l r) fuel h
                  (far-HasBelow key x a n l r g far' (ground (arith, e))))
        ]

    ge-near :
        (n : ℕ)
        → IsRadix key (node a (pos n) l r)
        → leb 2 (bit_xor x (key a) / 2 ^ n) ≡ false
        → (Rest (in_left a (pos n) r c) → Finds f (in_left a (pos n) r c) l)
        → Finds f (in_rght a (pos n) l c) r
        → pass f a (pos n) ≡ some (goal c (node a (pos n) l r))
    unfolding leaves after
    ge-near n g near left rght =
        let near' : bit_xor x (key a) / 2 ^ n < 2 = ground (arith, near) in
        rw (near, append_assoc (leaves l) (leaves r) (after c))
          (elim (ℕ-cases (x / 2 ^ n % 2)) [
            | inl e ↦
                let up = near-HasAbove key x a n l r g near' e in
                rw e (
                  left (
                    All-append (λ y. x ≤ key y) (leaves r) (after c)
                      (All-leaves (λ y. x ≤ key y) r (λ y i. omega (arith, up y i))) rest))
            | inr p ↦
                let e : x / 2 ^ n % 2 ≡ 1 = omega arith in
                rw e (
                  rght
                  ∙ ap some (
                      sym (
                        first_ge-below key x l (leaves r ++ after c)
                          (near-HasBelow key x a n l r g near' e))))
          ])

  pub ge_from-goal :
      (f : ℕ) (c : Ctx) (t : Tree)
      → 1 + (depth c + (height t + height t)) < f
      → Around m c
      → Holds m (slot c) t
      → IsRadix key t
      → Rest c
      → Finds f c t
  unfolding height depth after
  ge_from-goal zero c t fuel h t' g rest = absurd (omega arith)
  ge_from-goal (suc f) c (leaf a) fuel h t g rest =
      ge-leaf f c rest a (slot c) refl (omega arith) h t
  ge_from-goal (suc f) c (node a (negsuc n) l r) fuel h t g rest =
      rw (t.0, ge_from-node f a t.3, t.2)
        (ge-dups f c rest a l r (omega arith) (omega arith) h n t g)
  ge_from-goal (suc f) c (node a (pos n) l r) fuel h t g rest =
      rw (t.0, ge_from-node f a t.3, t.2)
        (elim (Bool-cases (leb 2 (bit_xor x (key a) / 2 ^ n))) [
          | inl far ↦ ge-far f c rest a l r (omega arith) (omega arith) h n t g far
          | inr near ↦
              ge-near f c rest a l r (omega arith) (omega arith) h n g near
                (λ rest'.
                  ge_from-goal f (in_left a (pos n) r c) l (omega arith)
                    (t.0, t.1, t.2, t.3, t.5, h) t.4 g.3 rest')
                (ge_from-goal f (in_rght a (pos n) l c) r (omega arith) (t.0, t.1, t.2, t.3, t.4, h)
                  t.5 g.4 rest)
        ])

pub lookup_ge-contents :
    (key : Ptr → ℕ) (f : ℕ) (m : Mem) (root : Ptr) (x : ℕ) (t : Option Tree)
    → 1 + (height_of t + height_of t) < f
    → Rooted m root t
    → KeepsOrder key t
    → eb32_lookup_ge key f m root x ≡ some (first_ge key x (contents t))
unfolding eb32_lookup_ge contents first_ge height_of depth after
lookup_ge-contents key f m root x none fuel h g = rw h.1 refl
lookup_ge-contents key f m root x (some u) fuel h g =
    let linked : (m.b (root + 0) == null) ≡ false =
      let i = link-nonnull m u (root + 0) h.1 in ground arith in
    rw linked (
      ge_from-goal key x m f (top root) u (omega arith) h.0 h.1 g tt
      ∙ ap (λ s. some (first_ge key x s)) (append-nil (leaves u)))

module _ (key : Ptr → ℕ) (f : ℕ) (m : Mem) (root : Ptr) (x : ℕ) (t : Option Tree)
    (fuel : 1 + (height_of t + height_of t) < f) (h : Rooted m root t) (g : KeepsOrder key t) where
  -- Given fuel above twice the height of the tree below `root`, and one more, and a tree whose
  -- leaves lie where its nodes say, `eb32_lookup_ge` ends. It returns the first of the leaves whose
  -- key is not below `x`, and NULL where there is none or the tree is empty.
  pub eb32_lookup_ge-contents : eb32_lookup_ge key f m root x ≡ some (first_ge key x (contents t))
  eb32_lookup_ge-contents = lookup_ge-contents key f m root x t fuel h g
