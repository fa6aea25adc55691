-- ===== src/Tree.antt =====
-- The abstract view of an elastic binary tree, and what it means that a store holds one.
-- A leaf is the leaf part of an `eb_node` and a node its node part; a path from the root down
-- to a slot is a context, innermost step first, since the code climbs it by parent pointers.
pub mod Count
pub mod Dups
pub mod Frame
pub mod Hang
pub mod Valid
pub mod Plug
use ebmbtreebench.Prelude.{
  ℕ, ◌+◌, ◌%◌, ◌<◌, ◌≡◌, ◌==◌, Option, none, some, List, [], ◌∷◌, ◌++◌, if◌then◌else◌, Option, some,
}
use ebmbtreebench.Memory.{Ptr, null, Bit, Mem, eb_clrtag, eb_leaf, eb_node, eb_left, eb_rght}

pub data Tree : Type 0 where
  leaf : Ptr → Tree
  node : Ptr → Bit → Tree → Tree → Tree

-- `top root`, or the step from a node into one of its branches, with the other branch.
pub data Ctx : Type 0 where
  top : Ptr → Ctx
  in_left : Ptr → Bit → Tree → Ctx → Ctx
  in_rght : Ptr → Bit → Tree → Ctx → Ctx

-- The tagged pointer to a subtree.
abbrev pub link : Tree → Ptr
link (leaf a) = a + eb_leaf
link (node a k l r) = a + eb_node

-- The slot at which a context ends, which is also the tagged pointer up from there.
abbrev pub slot : Ctx → ℕ
slot (top root) = root + eb_left
slot (in_left a k r c) = a + eb_left
slot (in_rght a k l c) = a + eb_rght

unfoldable pub plug : Ctx → Tree → Tree
plug (top root) t = t
plug (in_left a k r c) t = plug c (node a k t r)
plug (in_rght a k l c) t = plug c (node a k l t)

unfoldable pub leaves : Tree → List Ptr
leaves (leaf a) = a ∷ []
leaves (node a k l r) = leaves l ++ leaves r

unfoldable pub first : Tree → Ptr
first (leaf a) = a
first (node a k l r) = first l

unfoldable pub last : Tree → Ptr
last (leaf a) = a
last (node a k l r) = last r

unfoldable pub height : Tree → ℕ
height (leaf a) = 0
height (node a k l r) = 1 + (height l + height r)

-- The leaves before and after a context's slot.
unfoldable pub before : Ctx → List Ptr
before (top root) = []
before (in_left a k r c) = before c
before (in_rght a k l c) = before c ++ leaves l

unfoldable pub after : Ctx → List Ptr
after (top root) = []
after (in_left a k r c) = leaves r ++ after c
after (in_rght a k l c) = after c

unfoldable pub depth : Ctx → ℕ
depth (top root) = 0
depth (in_left a k r c) = 1 + (height r + depth c)
depth (in_rght a k l c) = 1 + (height l + depth c)

-- The address of an allocated structure: not NULL, and aligned, so that its low bit is free.
pub record IsAddr (a : Ptr) : Type 0 where
  pub aligned : a % 2 ≡ 0
  pub nonnull : 0 < a

-- The subtree `t` hangs at the slot `p`.
abbrev pub Holds : Mem → ℕ → Tree → Type 0
Holds m p (leaf a) = (m.b p ≡ a + eb_leaf) × (m.leaf_p a ≡ p) × IsAddr a
Holds m p (node a k l r) =
    (m.b p ≡ a + eb_node)
    × (m.node_p a ≡ p)
    × (m.bit a ≡ k)
    × IsAddr a
    × Holds m (a + eb_left) l
    × Holds m (a + eb_rght) r

-- The surroundings of a slot: all of the tree but what hangs at the slot.
abbrev pub Around : Mem → Ctx → Type 0
Around m (top root) = (eb_clrtag (m.b (root + eb_rght)) ≡ null) × IsAddr root
Around m (in_left a k r c) =
    (m.b (slot c) ≡ a + eb_node)
    × (m.node_p a ≡ slot c)
    × (m.bit a ≡ k)
    × IsAddr a
    × Holds m (a + eb_rght) r
    × Around m c
Around m (in_rght a k l c) =
    (m.b (slot c) ≡ a + eb_node)
    × (m.node_p a ≡ slot c)
    × (m.bit a ≡ k)
    × IsAddr a
    × Holds m (a + eb_left) l
    × Around m c

-- What an `eb_root` holds: nothing, or one tree below its left branch.
abbrev pub Rooted : Mem → Ptr → Option Tree → Type 0
Rooted m root none = Around m (top root) × (m.b (root + eb_left) ≡ null)
Rooted m root (some t) = Around m (top root) × Holds m (root + eb_left) t

unfoldable pub contents : Option Tree → List Ptr
contents none = []
contents (some t) = leaves t

unfoldable pub height_of : Option Tree → ℕ
height_of none = 0
height_of (some t) = height t

-- The root that a context starts from.
abbrev pub root_of : Ctx → Ptr
root_of (top root) = root
root_of (in_left a k r c) = root_of c
root_of (in_rght a k l c) = root_of c
