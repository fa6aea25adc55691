-- ===== src/Tree/Valid.antt =====
-- The invariant of a store that holds a tree below a root.
use ebmbtreebench.Prelude.{
  ℕ, ◌+◌, ◌<◌, ◌≤◌, ◌≡◌, ap, refl, arith, some, none, Option, zero, suc, ◌⊎◌, inl, inr, ◌≢◌,
}
use ebmbtreebench.Memory.{Ptr, null, Mem, Bit, set_leaf_p, update_ne}
use ebmbtreebench.Tree.{Tree, Ctx, plug, slot, root_of, Rooted, leaf, node, in_rght, in_left}
use ebmbtreebench.Tree.Plug.{Rooted-plug, Around-Holds_of_Rooted}
use ebmbtreebench.Tree.Count.{
  leaf_count, node_count, one_if, leaf_count-plug, node_count-plug, leaves_around,
}
use ebmbtreebench.Tree.Hang.{Site}
use mathlib.Core.Path.{subst}
use ebmbtreebench.Tree.Frame.{Around-frame, Holds-frame}

unfoldable pub leaves_in : Ptr → Option Tree → ℕ
leaves_in x none = 0
leaves_in x (some t) = leaf_count x t

unfoldable pub nodes_in : Ptr → Option Tree → ℕ
nodes_in x none = 0
nodes_in x (some t) = node_count x t

pub record Valid (m : Mem) (root : Ptr) (t : Option Tree) : Type 0 where
  -- What the pointers and bits of the store describe.
  pub rooted : Rooted m root t
  -- No structure is used twice in one role, and none lies where the root does.
  pub nodes : (x : Ptr) → one_if root x + nodes_in x t ≤ 1
  pub leaves : (x : Ptr) → leaves_in x t ≤ 1
  -- The node part of a leaf that no branch refers to is marked unused.
  pub unused : (x : Ptr) → 0 < leaves_in x t → nodes_in x t ≡ 0 → m.node_p x ≡ null

pub Site-of_Valid :
    (m : Mem) (c : Ctx) (t : Tree) → Valid m (root_of c) (some (plug c t)) → Site m c t
unfolding leaves_in nodes_in
Site-of_Valid m c t v =
    let (around, holds) = Around-Holds_of_Rooted m c t v.rooted in
    record {
      around = around;
      holds = holds;
      nodes = λ x. omega (arith, v.nodes x, node_count-plug x c t);
      leaves = λ x. omega (arith, v.leaves x, leaf_count-plug x c t);
    }

pub Valid-of_Site :
    (m : Mem) (c : Ctx) (t : Tree)
    → Site m c t
    → ((x : Ptr) → 0 < leaf_count x (plug c t) → node_count x (plug c t) ≡ 0 → m.node_p x ≡ null)
    → Valid m (root_of c) (some (plug c t))
unfolding leaves_in nodes_in
Valid-of_Site m c t s unused = record {
  rooted = Rooted-plug m c t s.around s.holds;
  nodes = λ x. omega (arith, s.nodes x, node_count-plug x c t);
  leaves = λ x. omega (arith, s.leaves x, leaf_count-plug x c t);
  unused = unused;
}

pub ℕ-cases : (n : ℕ) → (n ≡ 0) ⊎ (0 < n)
ℕ-cases zero = inl refl
ℕ-cases (suc n) = inr (omega arith)

-- A node part of a tree stands at some slot of it.
pub record Found (x : Ptr) (c : Ctx) (t : Tree) : Type 0 where
  pub at : Ctx
  pub bit : Bit
  pub left : Tree
  pub rght : Tree
  pub whole : plug c t ≡ plug at (node x bit left rght)
  pub root : root_of at ≡ root_of c

pub find : (x : Ptr) (c : Ctx) (t : Tree) → 0 < node_count x t → Found x c t
unfolding node_count plug
find x c (leaf a) i = absurd (omega arith)
find x c (node a k l r) i = elim (ℕ-cases (one_if a x)) [
  | inl miss ↦ elim (ℕ-cases (node_count x l)) [
    | inl none_left ↦
        let f = find x (in_rght a k l c) r (omega arith) in
        record {
          at = f.at;
          bit = f.bit;
          left = f.left;
          rght = f.rght;
          whole = f.whole;
          root = f.root;
        }
    | inr some_left ↦
        let f = find x (in_left a k r c) l some_left in
        record {
          at = f.at;
          bit = f.bit;
          left = f.left;
          rght = f.rght;
          whole = f.whole;
          root = f.root;
        }
  ]
  | inr hit ↦
      let same : a ≡ x = ground arith in
      record {
        at = c;
        bit = k;
        left = l;
        rght = r;
        whole = ap (λ y. plug c (node y k l r)) same;
        root = refl;
      }
]

pub Site-set_leaf_p :
    (m : Mem) (c : Ctx) (t : Tree) (x v : Ptr)
    → Site m c t
    → leaves_around x c + leaf_count x t ≡ 0
    → Site (set_leaf_p x v m) c t
Site-set_leaf_p m c t x v s out =
    let ne = λ (a : Ptr) (i : 0 < leaves_around a c + leaf_count a t).
      let n : a ≢ x =
        λ e. absurd (omega (arith, subst (λ y. 0 < leaves_around y c + leaf_count y t) e i)) in
      n in
    record {
      around =
          Around-frame {m = m} {n = set_leaf_p x v m} c (λ y. omega (arith, s.nodes y))
            (λ y i e. refl) (λ a i. record { node_p = refl; bit = refl })
            (λ a i. update_ne m.leaf_p v (ne a (omega arith))) s.around;
      holds =
          Holds-frame {m = m} {n = set_leaf_p x v m} t (slot c) refl (λ y i. refl)
            (λ a i. record { node_p = refl; bit = refl })
            (λ a i. update_ne m.leaf_p v (ne a (omega arith))) s.holds;
      nodes = s.nodes;
      leaves = s.leaves;
    }
