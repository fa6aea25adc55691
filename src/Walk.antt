-- ===== src/Walk.antt =====
-- The walks of ebtree.h: down from a branch, and from a leaf to its neighbours.
-- Every loop takes fuel, one unit for a step up or down; `none` means that the fuel ran out.
-- A returned NULL is `some null`.
pub mod Down
pub mod Step
pub mod Neighbours
pub mod Dups
pub mod Unique
pub mod Ends
pub mod Listing
use ebmbtreebench.Prelude.{
  ℕ, zero, suc, ◌==◌, Bool, true, false, not, Option, none, some, if◌then◌else◌, List, [], ◌∷◌,
}
use ebmbtreebench.Memory.{
  Ptr, null, eb_left, eb_rght, eb_leaf, eb_node, is_neg, Mem, branch, eb_untag, eb_gettag,
  eb_clrtag, eb_root_to_node,
}

unfoldable pub eb_walk_down : ℕ → Mem → Ptr → ℕ → Option Ptr
eb_walk_down zero m start side = none
eb_walk_down (suc f) m start side = elim (eb_gettag start == eb_node) [
  | true ↦ eb_walk_down f m (branch m (eb_untag start eb_node) side) side
  | false ↦ some (eb_root_to_node (eb_untag start eb_leaf))
]

unfoldable pub eb_is_empty : Mem → Ptr → Bool
eb_is_empty m root = branch m root eb_left == null

unfoldable pub eb_is_dup : Mem → Ptr → Bool
eb_is_dup m node = is_neg (m.bit node)

unfoldable pub eb_first : ℕ → Mem → Ptr → Option Ptr
eb_first f m root = eb_walk_down f m (branch m root 0) eb_left

unfoldable pub eb_last : ℕ → Mem → Ptr → Option Ptr
eb_last f m root = eb_walk_down f m (branch m root 0) eb_rght

-- The tests of the loops: whether the structure whose left slot is `t` is the root.
abbrev pub below_root : Mem → Ptr → Bool
below_root m t = eb_clrtag (branch m (eb_untag t eb_left) eb_rght) == null

abbrev pub is_left : Ptr → Bool
is_left t = eb_gettag t == eb_left

-- What follows the loops of the functions that go forward.
unfoldable pub enter_rght : ℕ → Mem → Ptr → Option Ptr
enter_rght f m t =
    let t' = branch m (eb_untag t eb_left) eb_rght in
    if eb_clrtag t' == null then some null else eb_walk_down f m t' eb_left

-- What follows the loops of the functions that go backward.
unfoldable pub enter_left : ℕ → Mem → Ptr → Option Ptr
enter_left f m t = eb_walk_down f m (branch m (eb_untag t eb_rght) eb_left) eb_rght

unfoldable pub prev_from : ℕ → Mem → Ptr → Option Ptr
prev_from zero m t = none
prev_from (suc f) m t = elim (is_left t) [
  | true ↦
      let up = prev_from f m (m.node_p (eb_root_to_node (eb_untag t eb_left))) in
      if below_root m t then some null else up
  | false ↦ enter_left f m t
]

unfoldable pub eb_prev : ℕ → Mem → Ptr → Option Ptr
eb_prev f m node = prev_from f m (m.leaf_p node)

unfoldable pub next_from : ℕ → Mem → Ptr → Option Ptr
next_from zero m t = none
next_from (suc f) m t = elim (is_left t) [
  | false ↦ next_from f m (m.node_p (eb_root_to_node (eb_untag t eb_rght)))
  | true ↦ enter_rght f m t
]

unfoldable pub eb_next : ℕ → Mem → Ptr → Option Ptr
eb_next f m node = next_from f m (m.leaf_p node)

pub prev_dup_from : ℕ → Mem → Ptr → Option Ptr
prev_dup_from zero m t = none
prev_dup_from (suc f) m t = elim (is_left t) [
  | true ↦
      let node = eb_root_to_node (eb_untag t eb_left) in
      let up = prev_dup_from f m (m.node_p node) in
      if below_root m t then some null else if not (is_neg (m.bit node)) then some null else up
  | false ↦
      let found = enter_left f m t in
      if not (is_neg (m.bit (eb_root_to_node (eb_untag t eb_rght)))) then some null else found
]

pub eb_prev_dup : ℕ → Mem → Ptr → Option Ptr
eb_prev_dup f m node = prev_dup_from f m (m.leaf_p node)

-- Behind the loop `t` may refer to the root, whose `bit` is read all the same.
pub next_dup_from : ℕ → Mem → Ptr → Option Ptr
next_dup_from zero m t = none
next_dup_from (suc f) m t = elim (is_left t) [
  | false ↦
      let node = eb_root_to_node (eb_untag t eb_rght) in
      let up = next_dup_from f m (m.node_p node) in
      if not (is_neg (m.bit node)) then some null else up
  | true ↦
      let found = enter_rght f m t in
      if not (is_neg (m.bit (eb_root_to_node (eb_untag t eb_left)))) then some null else found
]

pub eb_next_dup : ℕ → Mem → Ptr → Option Ptr
eb_next_dup f m node = next_dup_from f m (m.leaf_p node)

pub prev_unique_from : ℕ → Mem → Ptr → Option Ptr
prev_unique_from zero m t = none
prev_unique_from (suc f) m t = elim (is_left t) [
  | false ↦
      let node = eb_root_to_node (eb_untag t eb_rght) in
      let up = prev_unique_from f m (m.node_p node) in
      if not (is_neg (m.bit node)) then enter_left f m t else up
  | true ↦
      let up = prev_unique_from f m (m.node_p (eb_root_to_node (eb_untag t eb_left))) in
      if below_root m t then some null else up
]

pub eb_prev_unique : ℕ → Mem → Ptr → Option Ptr
eb_prev_unique f m node = prev_unique_from f m (m.leaf_p node)

pub next_unique_from : ℕ → Mem → Ptr → Option Ptr
next_unique_from zero m t = none
next_unique_from (suc f) m t = elim (is_left t) [
  | true ↦
      let node = eb_root_to_node (eb_untag t eb_left) in
      let up = next_unique_from f m (m.node_p node) in
      if below_root m t
      then some null
      else if not (is_neg (m.bit node))
      then enter_rght f m t
      else up
  | false ↦ next_unique_from f m (m.node_p (eb_root_to_node (eb_untag t eb_rght)))
]

pub eb_next_unique : ℕ → Mem → Ptr → Option Ptr
eb_next_unique f m node = next_unique_from f m (m.leaf_p node)

-- The loop of the programs that list a tree:
-- `for (node = first(root); node; node = next(node))`, collecting the nodes.
unfoldable pub list_from : ℕ → ℕ → Mem → Ptr → Option (List Ptr)
list_from zero f m node = none
list_from (suc k) f m node = elim (node == null) [
  | true ↦ some []
  | false ↦ elim (eb_next f m node) [
    | none ↦ none
    | some next ↦ elim (list_from k f m next) [ none ↦ none | some rest ↦ some (node ∷ rest) ]
  ]
]

unfoldable pub list_nodes : ℕ → ℕ → Mem → Ptr → Option (List Ptr)
list_nodes k f m root = elim (eb_first f m root) [ none ↦ none | some node ↦ list_from k f m node ]
