-- ===== src/Nearest/Below.antt =====
-- `eb32_lookup_le` returns the last leaf whose key is not above the argument.
use mathlib.Core.List.{append_assoc}
use ebmbtreebench.Prelude.{
  ℕ, zero, suc, ◌≡◌, ◌≤◌, ◌<◌, ◌/◌, ◌^◌, ◌%◌, ◌+◌, ◌==◌, ◌++◌, leb, ltb, arith, inl, inr,
  Bool-cases, Option, some, none, ◌∙◌, if◌then◌else◌, false, true, ap, sym, refl,
}
use ebmbtreebench.Memory.{Ptr, null, Mem, Bit, pos, negsuc, eb_gettag, eb_rght}
use ebmbtreebench.Tree.{
  Tree, leaf, node, Ctx, top, in_left, in_rght, slot, last, leaves, height, depth, before, Holds,
  Around, Rooted, contents, height_of, IsAddr,
}
use ebmbtreebench.Walk.Down.{untag-leaf, untag-node, walk_down-last}
use ebmbtreebench.Walk.{prev_from, eb_walk_down}
use ebmbtreebench.Walk.Neighbours.{prev_from-before}
use ebmbtreebench.Walk.Step.{link-nonnull}
use ebmbtreebench.Order.{IsRadix, KeepsOrder}
use ebmbtreebench.Order.Sorted.{All, All-append, All-leaves}
use ebmbtreebench.Nearest.{le_from, eb32_lookup_le, false, true}
use ebmbtreebench.Nearest.Pick.{
  HasUpTo, HasAbove, last_le_or, last_le-up_to, last_le-above, last_le_or-last,
}
use ebmbtreebench.Nearest.Side.{far-HasAbove, far-HasBelow, near-HasAbove, near-HasBelow, dups_all}
use Prim.Native.Nat.{bit_xor}
use ebmbtreebench.Tree.Count.{leaf_count}
use ebmbtreebench.Tree.Valid.{ℕ-cases}

module _ (key : Ptr → ℕ) (x : ℕ) (m : Mem) where
  -- What is looked for up to a slot.
  abbrev goal : Ctx → Tree → Ptr
  goal c t = last_le_or key x null (before c ++ leaves t)

  abbrev Rest : Ctx → Type 0
  Rest c = All (λ y. key y ≤ x) (before c)

  module _ (f : ℕ) (c : Ctx) (rest : Rest c) where
    -- All the leaves below the slot are too high: the climb finds the last one before them.
    skip :
        (t : Tree)
        → depth c < f
        → Around m c
        → HasAbove key x t
        → prev_from f m (slot c) ≡ some (goal c t)
    skip t fuel h high =
        prev_from-before m f c fuel h
        ∙ ap some (
            sym
              (last_le-above key x (before c) t high ∙ last_le_or-last key x null (before c) rest))

    -- None is: the way down the right side finds the last of them.
    take_last :
        (a : Ptr) (k : Bit) (l r : Tree)
        → height r < f
        → Holds m (a + 1) r
        → HasUpTo key x (node a k l r)
        → eb_walk_down f m (m.b (a + 1)) eb_rght ≡ some (goal c (node a k l r))
    unfolding last
    take_last a k l r fuel h up =
        walk_down-last m f r (a + 1) fuel h
        ∙ ap some (sym (last_le-up_to key x (before c) (node a k l r) up))

    le-leaf :
        (a : Ptr)
        → depth c < f
        → Around m c
        → Holds m (slot c) (leaf a)
        → le_from key x (suc f) m (m.b (slot c)) ≡ some (goal c (leaf a))
    unfolding le_from last leaf_count
    le-leaf a fuel h t =
        let tag : (eb_gettag (a + 0) == 0) ≡ true = let i = t.2 in ground arith in
        rw t.0 (
          rw (tag, le_from)
            (rw (untag-leaf a) (elim (Bool-cases (leb (key a) x)) [
              | inl hit ↦ rw hit (
                  ap some (
                    sym (
                      last_le-up_to key x (before c) (leaf a)
                        (λ y i. let q : y ≡ a = ground arith in rw q (ground (arith, hit))))))
              | inr miss ↦
                  rw (miss, t.1)
                    (skip (leaf a) fuel h
                      (λ y i. let q : y ≡ a = ground arith in rw q (ground (arith, miss))))
            ])))

  -- A pass of the loop at a node.
  abbrev pass : ℕ → Ptr → Bit → Option Ptr
  pass f a k =
      let prev = prev_from f m (m.node_p a) in
      let highest = eb_walk_down f m (m.b (a + 1)) eb_rght in
      elim k [
        | negsuc n ↦ if leb (key a) x then highest else prev
        | pos n ↦
            let below = le_from key x f m (m.b (a + x / 2 ^ n % 2)) in
            if leb 2 (bit_xor x (key a) / 2 ^ n)
            then if ltb (key a / 2 ^ n) (x / 2 ^ n) then highest else prev
            else below
      ]

  le_from-node : (f : ℕ) (a : Ptr) → IsAddr a → le_from key x (suc f) m (a + 1) ≡ pass f a (m.bit a)
  unfolding le_from
  le_from-node f a h =
      let e : (eb_gettag (a + 1) == 0) ≡ false = ground arith in
      rw (e, le_from) (ap (λ b. pass f b (m.bit b)) (untag-node a))

  -- The loop from a slot on finds what is looked for.
  abbrev Finds : ℕ → Ctx → Tree → Type 0
  Finds f c t = le_from key x f m (m.b (slot c)) ≡ some (goal c t)

  module _ (f : ℕ) (c : Ctx) (rest : Rest c) (a : Ptr) (l r : Tree) (fuel : depth c < f)
      (room : height r < f) (h : Around m c) where
    le-dups :
        (n : ℕ)
        → Holds m (slot c) (node a (negsuc n) l r)
        → IsRadix key (node a (negsuc n) l r)
        → pass f a (negsuc n) ≡ some (goal c (node a (negsuc n) l r))
    le-dups n t g = elim (Bool-cases (leb (key a) x)) [
      | inl e ↦ rw e (
          take_last f c rest a (negsuc n) l r room t.5
            (dups_all key a n l r (λ z. z ≤ x) g (ground (arith, e))))
      | inr e ↦
          rw (e, t.1)
            (skip f c rest (node a (negsuc n) l r) fuel h
              (dups_all key a n l r (λ z. x < z) g (ground (arith, e))))
    ]

    le-far :
        (n : ℕ)
        → Holds m (slot c) (node a (pos n) l r)
        → IsRadix key (node a (pos n) l r)
        → leb 2 (bit_xor x (key a) / 2 ^ n) ≡ true
        → pass f a (pos n) ≡ some (goal c (node a (pos n) l r))
    le-far n t g far =
        let far' : 2 ≤ bit_xor x (key a) / 2 ^ n = ground (arith, far) in
        elim (Bool-cases (ltb (key a / 2 ^ n) (x / 2 ^ n))) [
          | inl e ↦
              let low = far-HasBelow key x a n l r g far' (ground (arith, e)) in
              rw (far, e)
                (take_last f c rest a (pos n) l r room t.5 (λ y i. omega (arith, low y i)))
          | inr e ↦
              rw (far, e, t.1)
                (skip f c rest (node a (pos n) l r) fuel h
                  (far-HasAbove key x a n l r g far' (ground (arith, e))))
        ]

    le-near :
        (n : ℕ)
        → IsRadix key (node a (pos n) l r)
        → leb 2 (bit_xor x (key a) / 2 ^ n) ≡ false
        → Finds f (in_left a (pos n) r c) l
        → (Rest (in_rght a (pos n) l c) → Finds f (in_rght a (pos n) l c) r)
        → pass f a (pos n) ≡ some (goal c (node a (pos n) l r))
    unfolding leaves before
    le-near n g near left rght =
        let near' : bit_xor x (key a) / 2 ^ n < 2 = ground (arith, near) in
        rw (near, sym (append_assoc (before c) (leaves l) (leaves r)))
          (elim (ℕ-cases (x / 2 ^ n % 2)) [
            | inl e ↦ rw e (
                left
                ∙ ap some (
                    sym (
                      last_le-above key x (before c ++ leaves l) r
                        (near-HasAbove key x a n l r g near' e))))
            | inr p ↦
                let e : x / 2 ^ n % 2 ≡ 1 = omega arith in
                let low = near-HasBelow key x a n l r g near' e in
                rw e (
                  rght (
                    All-append (λ y. key y ≤ x) (before c) (leaves l) rest
                      (All-leaves (λ y. key y ≤ x) l (λ y i. omega (arith, low y i)))))
          ])

  pub le_from-goal :
      (f : ℕ) (c : Ctx) (t : Tree)
      → 1 + (depth c + (height t + height t)) < f
      → Around m c
      → Holds m (slot c) t
      → IsRadix key t
      → Rest c
      → Finds f c t
  unfolding height depth before
  le_from-goal zero c t fuel h t' g rest = absurd (omega arith)
  le_from-goal (suc f) c (leaf a) fuel h t g rest = le-leaf f c rest a (omega arith) h t
  le_from-goal (suc f) c (node a (negsuc n) l r) fuel h t g rest =
      rw (t.0, le_from-node f a t.3, t.2)
        (le-dups f c rest a l r (omega arith) (omega arith) h n t g)
  le_from-goal (suc f) c (node a (pos n) l r) fuel h t g rest =
      rw (t.0, le_from-node f a t.3, t.2)
        (elim (Bool-cases (leb 2 (bit_xor x (key a) / 2 ^ n))) [
          | inl far ↦ le-far f c rest a l r (omega arith) (omega arith) h n t g far
          | inr near ↦
              le-near f c rest a l r (omega arith) (omega arith) h n g near
                (le_from-goal f (in_left a (pos n) r c) l (omega arith) (t.0, t.1, t.2, t.3, t.5, h)
                  t.4 g.3 rest)
                (λ rest'.
                  le_from-goal f (in_rght a (pos n) l c) r (omega arith)
                    (t.0, t.1, t.2, t.3, t.4, h) t.5 g.4 rest')
        ])

pub lookup_le-contents :
    (key : Ptr → ℕ) (f : ℕ) (m : Mem) (root : Ptr) (x : ℕ) (t : Option Tree)
    → 1 + (height_of t + height_of t) < f
    → Rooted m root t
    → KeepsOrder key t
    → eb32_lookup_le key f m root x ≡ some (last_le_or key x null (contents t))
unfolding eb32_lookup_le contents last_le_or height_of depth before
lookup_le-contents key f m root x none fuel h g = rw h.1 refl
lookup_le-contents key f m root x (some u) fuel h g =
    let linked : (m.b (root + 0) == null) ≡ false =
      let i = link-nonnull m u (root + 0) h.1 in ground arith in
    rw linked (le_from-goal key x m f (top root) u (omega arith) h.0 h.1 g tt)

module _ (key : Ptr → ℕ) (f : ℕ) (m : Mem) (root : Ptr) (x : ℕ) (t : Option Tree)
    (fuel : 1 + (height_of t + height_of t) < f) (h : Rooted m root t) (g : KeepsOrder key t) where
  -- Given fuel above twice the height of the tree below `root`, and one more, and a tree whose
  -- leaves lie where its nodes say, `eb32_lookup_le` ends. It returns the last of the leaves whose
  -- key is not above `x`, and NULL where there is none or the tree is empty.
  pub eb32_lookup_le-contents :
      eb32_lookup_le key f m root x ≡ some (last_le_or key x null (contents t))
  eb32_lookup_le-contents = lookup_le-contents key f m root x t fuel h g
