-- ===== src/Delete.antt =====
-- `__eb_delete` of ebtree.h, statement by statement.
pub mod Relabel
pub mod Unlink
pub mod Lifted
pub mod Reused
pub mod Correct
pub mod Undo
use ebmbtreebench.Prelude.{◌-◌, ◌==◌, if◌then◌else◌, ℕ}
use ebmbtreebench.Memory.{
  Ptr, null, eb_left, eb_rght, eb_leaf, eb_node, Mem, set_b, set_node_p, set_leaf_p, set_bit,
  branch, eb_dotag, eb_untag, eb_gettag, eb_clrtag, eb_root_to_node,
}

-- Makes the structure below the tagged branch `child` refer up to `up`: its leaf part or its
-- node part, as the tag says.
unfoldable pub reparent : Ptr → Ptr → Mem → Mem
reparent child up m =
    if eb_gettag child == eb_leaf
    then set_leaf_p (eb_root_to_node (eb_untag child eb_leaf)) up m
    else set_node_p (eb_root_to_node (eb_untag child eb_node)) up m

-- From `gpside = eb_gettag(parent->node_p)` to `parent->node_p = NULL`.
unfoldable pub release_parent : Ptr → ℕ → Mem → Mem
release_parent parent pside m =
    let gpside = eb_gettag (m.node_p parent) in
    let gparent = eb_untag (m.node_p parent) gpside in
    let m1 = set_b gparent gpside (branch m parent (1 - pside)) m in
    let m2 = reparent (branch m1 gparent gpside) (eb_dotag gparent gpside) m1 in
    set_node_p parent null m2

-- From `parent->node_p = node->node_p` to the end of the loop over `pside`.
unfoldable pub replace_node : Ptr → Ptr → Mem → Mem
replace_node parent node m =
    let m1 = set_node_p parent (m.node_p node) m in
    let m2 =
      set_b parent eb_rght (branch m node eb_rght)
        (set_b parent eb_left (branch m node eb_left) m1) in
    let m3 = set_bit parent (m2.bit node) m2 in
    let gpside = eb_gettag (m3.node_p parent) in
    let gparent = eb_untag (m3.node_p parent) gpside in
    let m4 = set_b gparent gpside (eb_dotag parent eb_node) m3 in
    let m5 = reparent (branch m4 parent 0) (eb_dotag parent 0) m4 in
    reparent (branch m5 parent 1) (eb_dotag parent 1) m5

unfoldable pub eb_delete : Ptr → Mem → Mem
eb_delete node m =
    let pside = eb_gettag (m.leaf_p node) in
    let parent = eb_root_to_node (eb_untag (m.leaf_p node) pside) in
    let unlinked = release_parent parent pside m in
    if m.leaf_p node == null
    then m
    else if eb_clrtag (branch m parent eb_rght) == null
    then set_leaf_p node null (set_b parent eb_left null m)
    else if unlinked.node_p node == null
    then set_leaf_p node null unlinked
    else set_leaf_p node null (replace_node parent node unlinked)
