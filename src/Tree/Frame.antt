-- ===== src/Tree/Frame.antt =====
-- A store that agrees with another one on the cells of a tree, or of what surrounds a slot,
-- holds the same tree. The slot of a context itself may differ.
use mathlib.Core.Path.{subst}
use ebmbtreebench.Prelude.{ℕ, ◌+◌, ◌<◌, ◌≤◌, ◌≡◌, ◌≢◌, ◌∙◌, ap, arith}
use ebmbtreebench.Memory.{Ptr, Mem, eb_clrtag, eb_left, eb_rght}
use ebmbtreebench.Tree.{Tree, leaf, node, Ctx, top, in_left, in_rght, slot, Holds, Around, IsAddr}
use ebmbtreebench.Tree.Count.{one_if, leaf_count, node_count, leaves_around, nodes_around}

-- `n` has the parent pointer and the bit of the node part of `a` from `m`.
pub record SameLink (m n : Mem) (a : Ptr) : Type 0 where
  pub node_p : n.node_p a ≡ m.node_p a
  pub bit : n.bit a ≡ m.bit a

pub clrtag-left : {a : Ptr} → IsAddr a → eb_clrtag (a + 0) ≡ a
clrtag-left h = omega arith

pub clrtag-rght : {a : Ptr} → IsAddr a → eb_clrtag (a + 1) ≡ a
clrtag-rght h = omega arith

-- The address of the structure that a context's slot lies in.
abbrev pub base : Ctx → Ptr
base (top root) = root
base (in_left a k r c) = a
base (in_rght a k l c) = a

-- No address is used twice as a node part, nor for the root and a node part.
abbrev pub IsApart : Ctx → Type 0
IsApart c = (x : Ptr) → nodes_around x c ≤ 1

pub base-IsAddr : (m : Mem) (c : Ctx) → Around m c → IsAddr (base c)
base-IsAddr m (top root) h = h.1
base-IsAddr m (in_left a k r c) h = h.3
base-IsAddr m (in_rght a k l c) h = h.3

pub base-around : (c : Ctx) → 0 < nodes_around (base c) c
unfolding nodes_around
base-around (top root) = ground arith
base-around (in_left a k r c) = ground arith
base-around (in_rght a k l c) = ground arith

pub slot-clrtag : (m : Mem) (c : Ctx) → Around m c → eb_clrtag (slot c) ≡ base c
slot-clrtag m (top root) h = clrtag-left h.1
slot-clrtag m (in_left a k r c) h = clrtag-left h.3
slot-clrtag m (in_rght a k l c) h = clrtag-rght h.3

-- Below a step from the node `a` that leaves the slot `hole` open, with `t` in the other slot,
-- no cell of `t` or of the rest is that slot.
hole-ne :
    (a hole s : ℕ) (t : Tree) (c : Ctx)
    → eb_clrtag hole ≡ a
    → one_if a a + (node_count a t + nodes_around a c) ≤ 1
    → 0 < node_count (eb_clrtag s) t + nodes_around (eb_clrtag s) c
    → s ≢ hole
hole-ne a hole s t c e apart i same =
    let i' : 0 < node_count a t + nodes_around a c =
      subst (λ x. 0 < node_count x t + nodes_around x c) (ap eb_clrtag same ∙ e) i in
    absurd (ground arith)

pub slot-Around : (m : Mem) (c : Ctx) → Around m c → 0 < nodes_around (eb_clrtag (slot c)) c
slot-Around m c h = rw (slot-clrtag m c h) (base-around c)

pub slot-ne :
    (m : Mem) (a hole : ℕ) (t : Tree) (c : Ctx)
    → eb_clrtag hole ≡ a
    → one_if a a + (node_count a t + nodes_around a c) ≤ 1
    → Around m c
    → slot c ≢ hole
slot-ne m a hole t c e apart h =
    hole-ne a hole (slot c) t c e apart (omega (arith, slot-Around m c h))

module _ {m n : Mem} where
  pub Holds-frame :
      (t : Tree) (p : ℕ)
      → n.b p ≡ m.b p
      → ((s : ℕ) → 0 < node_count (eb_clrtag s) t → n.b s ≡ m.b s)
      → ((a : Ptr) → 0 < node_count a t → SameLink m n a)
      → ((a : Ptr) → 0 < leaf_count a t → n.leaf_p a ≡ m.leaf_p a)
      → Holds m p t
      → Holds n p t
  unfolding leaf_count node_count
  Holds-frame (leaf a) p e bs us ls h = (e ∙ h.0, ls a (ground arith) ∙ h.1, h.2)
  Holds-frame (node a k l r) p e bs us ls h =
      let s : SameLink m n a = us a (ground arith) in
      let e0 : n.b (a + eb_left) ≡ m.b (a + eb_left) =
        bs (a + eb_left) (rw (clrtag-left h.3) (ground arith)) in
      let e1 : n.b (a + eb_rght) ≡ m.b (a + eb_rght) =
        bs (a + eb_rght) (rw (clrtag-rght h.3) (ground arith)) in
      (
        e ∙ h.0,
        s.node_p ∙ h.1,
        s.bit ∙ h.2,
        h.3,
        Holds-frame l (a + eb_left) e0 (λ x i. bs x (ground arith)) (λ x i. us x (ground arith))
            (λ x i. ls x (ground arith)) h.4,
        Holds-frame r (a + eb_rght) e1 (λ x i. bs x (ground arith)) (λ x i. us x (ground arith))
            (λ x i. ls x (ground arith)) h.5,
      )

  pub Around-frame :
      (c : Ctx)
      → IsApart c
      → ((s : ℕ) → 0 < nodes_around (eb_clrtag s) c → s ≢ slot c → n.b s ≡ m.b s)
      → ((a : Ptr) → 0 < nodes_around a c → SameLink m n a)
      → ((a : Ptr) → 0 < leaves_around a c → n.leaf_p a ≡ m.leaf_p a)
      → Around m c
      → Around n c
  unfolding leaves_around nodes_around
  Around-frame (top root) apart bs us ls h = (
    ap eb_clrtag (bs (root + eb_rght) (rw (clrtag-rght h.1) (ground arith)) (omega arith)) ∙ h.0,
    h.1,
  )
  Around-frame (in_left a k r c) apart bs us ls h =
      let u : SameLink m n a = us a (ground arith) in
      let at : eb_clrtag (a + eb_left) ≡ a = clrtag-left h.3 in
      (
        bs (slot c) (omega (arith, slot-Around m c h.5))
              (slot-ne m a (a + eb_left) r c at (apart a) h.5)
            ∙ h.0,
        u.node_p ∙ h.1,
        u.bit ∙ h.2,
        h.3,
        Holds-frame r (a + eb_rght)
            (bs (a + eb_rght) (rw (clrtag-rght h.3) (ground arith)) (omega arith))
            (λ x i. bs x (omega arith) (hole-ne a (a + eb_left) x r c at (apart a) (omega arith)))
            (λ x i. us x (omega arith)) (λ x i. ls x (omega arith)) h.4,
        Around-frame c (λ x. omega (arith, apart x))
            (λ x i _. bs x (omega arith) (hole-ne a (a + eb_left) x r c at (apart a) (omega arith)))
            (λ x i. us x (omega arith)) (λ x i. ls x (omega arith)) h.5,
      )
  Around-frame (in_rght a k l c) apart bs us ls h =
      let u : SameLink m n a = us a (ground arith) in
      let at : eb_clrtag (a + eb_rght) ≡ a = clrtag-rght h.3 in
      (
        bs (slot c) (omega (arith, slot-Around m c h.5))
              (slot-ne m a (a + eb_rght) l c at (apart a) h.5)
            ∙ h.0,
        u.node_p ∙ h.1,
        u.bit ∙ h.2,
        h.3,
        Holds-frame l (a + eb_left)
            (bs (a + eb_left) (rw (clrtag-left h.3) (ground arith)) (omega arith))
            (λ x i. bs x (omega arith) (hole-ne a (a + eb_rght) x l c at (apart a) (omega arith)))
            (λ x i. us x (omega arith)) (λ x i. ls x (omega arith)) h.4,
        Around-frame c (λ x. omega (arith, apart x))
            (λ x i _. bs x (omega arith) (hole-ne a (a + eb_rght) x l c at (apart a) (omega arith)))
            (λ x i. us x (omega arith)) (λ x i. ls x (omega arith)) h.5,
      )
