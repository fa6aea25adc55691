-- ===== src/Tree/Count.antt =====
-- How often an address occurs in a tree, as a leaf part and as a node part. An address occurs
-- at most once in each role; counting states that in a form that arithmetic decides.
use ebmbtreebench.Prelude.{ℕ, ◌+◌, ◌≡◌, ◌==◌, arith, if◌then◌else◌, ◌≤◌}
use ebmbtreebench.Memory.{Ptr}
use ebmbtreebench.Tree.{Tree, leaf, node, Ctx, top, in_left, in_rght, plug, root_of}

abbrev pub one_if : Ptr → Ptr → ℕ
one_if a x = if a == x then 1 else 0

pub one_if_self : (x : Ptr) → one_if x x ≡ 1
one_if_self x = ground arith

unfoldable pub leaf_count : Ptr → Tree → ℕ
leaf_count x (leaf a) = one_if a x
leaf_count x (node a k l r) = leaf_count x l + leaf_count x r

unfoldable pub node_count : Ptr → Tree → ℕ
node_count x (leaf a) = 0
node_count x (node a k l r) = one_if a x + (node_count x l + node_count x r)

unfoldable pub leaves_around : Ptr → Ctx → ℕ
leaves_around x (top root) = 0
leaves_around x (in_left a k r c) = leaf_count x r + leaves_around x c
leaves_around x (in_rght a k l c) = leaf_count x l + leaves_around x c

-- The root counts as a node, so that no node lies where the root does.
unfoldable pub nodes_around : Ptr → Ctx → ℕ
nodes_around x (top root) = one_if root x
nodes_around x (in_left a k r c) = one_if a x + (node_count x r + nodes_around x c)
nodes_around x (in_rght a k l c) = one_if a x + (node_count x l + nodes_around x c)

pub leaf_count-plug :
    (x : Ptr) (c : Ctx) (t : Tree) → leaf_count x (plug c t) ≡ leaves_around x c + leaf_count x t
unfolding leaf_count leaves_around plug
leaf_count-plug x (top root) t = omega arith
leaf_count-plug x (in_left a k r c) t = omega (arith, leaf_count-plug x c (node a k t r))
leaf_count-plug x (in_rght a k l c) t = omega (arith, leaf_count-plug x c (node a k l t))

pub node_count-plug :
    (x : Ptr) (c : Ctx) (t : Tree)
    → one_if (root_of c) x + node_count x (plug c t) ≡ nodes_around x c + node_count x t
unfolding node_count nodes_around plug
node_count-plug x (top root) t = omega arith
node_count-plug x (in_left a k r c) t = omega (arith, node_count-plug x c (node a k t r))
node_count-plug x (in_rght a k l c) t = omega (arith, node_count-plug x c (node a k l t))

-- The parts of a tree below its top.
unfoldable pub inner_leaves : Ptr → Tree → ℕ
inner_leaves x (leaf a) = 0
inner_leaves x (node a k l r) = leaf_count x l + leaf_count x r

unfoldable pub inner_nodes : Ptr → Tree → ℕ
inner_nodes x (leaf a) = 0
inner_nodes x (node a k l r) = node_count x l + node_count x r

pub node_count-le-plug : (x : Ptr) (c : Ctx) (t : Tree) → node_count x t ≤ node_count x (plug c t)
unfolding node_count plug
node_count-le-plug x (top root) t = omega arith
node_count-le-plug x (in_left a k r c) t = omega (arith, node_count-le-plug x c (node a k t r))
node_count-le-plug x (in_rght a k l c) t = omega (arith, node_count-le-plug x c (node a k l t))
