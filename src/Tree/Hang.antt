-- ===== src/Tree/Hang.antt =====
-- A subtree that is hung at another slot.
use ebmbtreebench.Prelude.{ℕ, ◌+◌, ◌<◌, ◌≡◌, ◌∙◌, arith, ◌≤◌, ◌≢◌, refl}
use ebmbtreebench.Memory.{Ptr, Mem, set_leaf_p, set_node_p, eb_clrtag, eb_left, eb_rght}
use ebmbtreebench.Tree.{Tree, leaf, node, link, Holds, IsAddr, Ctx, Around, slot}
use ebmbtreebench.Tree.Count.{
  leaf_count, node_count, inner_leaves, inner_nodes, nodes_around, leaves_around,
}
use ebmbtreebench.Tree.Frame.{
  Holds-frame, clrtag-left, clrtag-rght, SameLink, Around-frame, slot-Around,
}
use mathlib.Core.Path.{subst}

-- The parent pointer of the top of `t` is `p`.
abbrev pub UpIs : Mem → Tree → ℕ → Type 0
UpIs m (leaf a) p = m.leaf_p a ≡ p
UpIs m (node a k l r) p = m.node_p a ≡ p

-- Write that parent pointer.
abbrev pub hang : Tree → ℕ → Mem → Mem
hang (leaf a) p m = set_leaf_p a p m
hang (node a k l r) p m = set_node_p a p m

abbrev pub TopIsAddr : Tree → Type 0
TopIsAddr (leaf a) = IsAddr a
TopIsAddr (node a k l r) = IsAddr a

pub Holds-link : (m : Mem) (p : ℕ) (t : Tree) → Holds m p t → m.b p ≡ link t
Holds-link m p (leaf a) h = h.0
Holds-link m p (node a k l r) h = h.0

pub Holds-TopIsAddr : (m : Mem) (p : ℕ) (t : Tree) → Holds m p t → TopIsAddr t
Holds-TopIsAddr m p (leaf a) h = h.2
Holds-TopIsAddr m p (node a k l r) h = h.3

-- `n` has the inside of `t` from `m`: all but its slot and the parent pointer of its top.
pub record SameInside (m n : Mem) (t : Tree) : Type 0 where
  pub b : (s : ℕ) → 0 < node_count (eb_clrtag s) t → n.b s ≡ m.b s
  pub node_p : (a : Ptr) → 0 < inner_nodes a t → n.node_p a ≡ m.node_p a
  pub bit : (a : Ptr) → 0 < node_count a t → n.bit a ≡ m.bit a
  pub leaf_p : (a : Ptr) → 0 < inner_leaves a t → n.leaf_p a ≡ m.leaf_p a

pub Holds-move :
    {m n : Mem} (t : Tree) (p q : ℕ)
    → Holds m p t
    → n.b q ≡ link t
    → UpIs n t q
    → SameInside m n t
    → Holds n q t
unfolding node_count leaf_count inner_leaves inner_nodes
Holds-move (leaf a) p q h e up same = (e, up, h.2)
Holds-move {m} {n} (node a k l r) p q h e up same = (
  e,
  up,
  same.bit a (ground arith) ∙ h.2,
  h.3,
  Holds-frame l (a + eb_left) (same.b (a + eb_left) (rw (clrtag-left h.3) (ground arith)))
      (λ s i. same.b s (ground arith))
      (λ x i. record { node_p = same.node_p x (ground arith); bit = same.bit x (ground arith) })
      (λ x i. same.leaf_p x (ground arith)) h.4,
  Holds-frame r (a + eb_rght) (same.b (a + eb_rght) (rw (clrtag-rght h.3) (ground arith)))
      (λ s i. same.b s (ground arith))
      (λ x i. record { node_p = same.node_p x (ground arith); bit = same.bit x (ground arith) })
      (λ x i. same.leaf_p x (ground arith)) h.5,
)

-- What writing a parent pointer leaves alone.
pub hang-b : (t : Tree) (p : ℕ) (m : Mem) (s : ℕ) → (hang t p m).b s ≡ m.b s
hang-b (leaf a) p m s = refl
hang-b (node a k l r) p m s = refl

pub hang-bit : (t : Tree) (p : ℕ) (m : Mem) (a : Ptr) → (hang t p m).bit a ≡ m.bit a
hang-bit (leaf a) p m x = refl
hang-bit (node a k l r) p m x = refl

pub hang-node_p :
    (t : Tree) (p : ℕ) (m : Mem) (x : Ptr)
    → node_count x t ≤ inner_nodes x t
    → (hang t p m).node_p x ≡ m.node_p x
unfolding node_count inner_nodes
hang-node_p (leaf a) p m x h = refl
hang-node_p (node a k l r) p m x h = ground arith

pub hang-leaf_p :
    (t : Tree) (p : ℕ) (m : Mem) (x : Ptr)
    → leaf_count x t ≤ inner_leaves x t
    → (hang t p m).leaf_p x ≡ m.leaf_p x
unfolding leaf_count inner_leaves
hang-leaf_p (leaf a) p m x h = ground arith
hang-leaf_p (node a k l r) p m x h = refl

pub hang-UpIs : (t : Tree) (p : ℕ) (m : Mem) → UpIs (hang t p m) t p
hang-UpIs (leaf a) p m = ground arith
hang-UpIs (node a k l r) p m = ground arith

pub UpIs-set_node_p :
    (t : Tree) (p : ℕ) (m : Mem) (x v : Ptr)
    → node_count x t ≤ inner_nodes x t
    → UpIs m t p
    → UpIs (set_node_p x v m) t p
unfolding node_count inner_nodes
UpIs-set_node_p (leaf a) p m x v h up = up
UpIs-set_node_p (node a k l r) p m x v h up = ground arith

-- Two subtrees that share no part do not disturb each other's top.
pub UpIs-hang :
    (t u : Tree) (p q : ℕ) (m : Mem)
    → ((a : Ptr) → leaf_count a t + leaf_count a u ≤ 1)
    → ((a : Ptr) → node_count a t + node_count a u ≤ 1)
    → UpIs m t p
    → UpIs (hang u q m) t p
unfolding leaf_count node_count
UpIs-hang (leaf a) (leaf x) p q m ls ns up = ground (arith, ls a)
UpIs-hang (leaf a) (node x k l r) p q m ls ns up = up
UpIs-hang (node a k l r) (leaf x) p q m ls ns up = up
UpIs-hang (node a k l r) (node x k' l' r') p q m ls ns up = ground (arith, ns a)

pub inner_nodes-le : (x : Ptr) (t : Tree) → inner_nodes x t ≤ node_count x t
unfolding node_count inner_nodes
inner_nodes-le x (leaf a) = omega arith
inner_nodes-le x (node a k l r) = omega arith

pub inner_leaves-le : (x : Ptr) (t : Tree) → inner_leaves x t ≤ leaf_count x t
unfolding leaf_count inner_leaves
inner_leaves-le x (leaf a) = omega arith
inner_leaves-le x (node a k l r) = omega arith

pub slot-outside :
    (m : Mem) (c : Ctx) (t : Tree) (s : ℕ)
    → Around m c
    → ((x : Ptr) → nodes_around x c + node_count x t ≤ 1)
    → 0 < node_count (eb_clrtag s) t
    → s ≢ slot c
slot-outside m c t s around nodes i e =
    let i' : 0 < node_count (eb_clrtag (slot c)) t =
      subst (λ x. 0 < node_count (eb_clrtag x) t) e i in
    absurd (omega (arith, nodes (eb_clrtag (slot c)), slot-Around m c around))

-- `n` has what surrounds the slot of `c` from `m`.
pub record SameAround (m n : Mem) (c : Ctx) : Type 0 where
  pub b : (s : ℕ) → 0 < nodes_around (eb_clrtag s) c → s ≢ slot c → n.b s ≡ m.b s
  pub link : (a : Ptr) → 0 < nodes_around a c → SameLink m n a
  pub leaf_p : (a : Ptr) → 0 < leaves_around a c → n.leaf_p a ≡ m.leaf_p a

-- A store with a subtree at a slot. No structure has two leaf parts or two node parts in it.
pub record Site (m : Mem) (c : Ctx) (t : Tree) : Type 0 where
  pub around : Around m c
  pub holds : Holds m (slot c) t
  pub nodes : (x : Ptr) → nodes_around x c + node_count x t ≤ 1
  pub leaves : (x : Ptr) → leaves_around x c + leaf_count x t ≤ 1

-- The store `n` has the subtree `t` of `m` at the slot of `c`, which held something else.
pub splice :
    {m n : Mem} (c : Ctx) (t : Tree) (p : ℕ)
    → Around m c
    → Holds m p t
    → ((x : Ptr) → nodes_around x c + node_count x t ≤ 1)
    → ((x : Ptr) → leaves_around x c + leaf_count x t ≤ 1)
    → SameAround m n c
    → SameInside m n t
    → n.b (slot c) ≡ link t
    → UpIs n t (slot c)
    → Site n c t
splice c t p around holds nodes leaves same inside e up = record {
  around = Around-frame c (λ x. omega (arith, nodes x)) same.b same.link same.leaf_p around;
  holds = Holds-move t p (slot c) holds e up inside;
  nodes = nodes;
  leaves = leaves;
}
