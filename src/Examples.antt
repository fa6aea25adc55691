-- ===== src/Examples.antt =====
-- A small tree, at which the theorems are run.
pub mod Core
pub mod Scalar
pub mod Lookup
pub mod Bits
pub mod Order
pub mod Bytes
pub mod Blocks
pub mod Prefixes
pub mod Strings
use ebmbtreebench.Tree.{
  in_left, Tree, Ctx, Rooted, node, in_rght, leaf, top, IsAddr, plug, before, after, leaves, height,
}
use ebmbtreebench.Memory.{Mem, negsuc, pos, Ptr}
use ebmbtreebench.Tree.Valid.{leaves_in, nodes_in, Valid, Site-of_Valid}
use ebmbtreebench.Prelude.{if◌then◌else◌, some, ◌==◌, ◌%◌, ◌≡◌, ◌<◌, arith, refl, ◌∷◌, [], ℕ}
use ebmbtreebench.Tree.Count.{leaf_count, node_count}
use ebmbtreebench.Insert.Grown.{CanInsert}
use ebmbtreebench.Tree.Hang.{Site}
use ebmbtreebench.Dup.Correct.{Inserts, eb_insert_dup-Inserts}

-- The leaf 2 beside two duplicates, 4 and 6, below the root at 100; 8 is free.
abbrev pub small : Mem
small = record {
  b = λ s.
      if s == 100
      then 5
      else if s == 4
      then 2
      else if s == 5
      then 7
      else if s == 6
      then 4
      else if s == 7
      then 6
      else 0;
  node_p = λ a. if a == 4 then 100 else if a == 6 then 5 else 0;
  leaf_p = λ a. if a == 2 then 4 else if a == 4 then 6 else if a == 6 then 7 else 0;
  bit = λ a. if a == 6 then negsuc 0 else pos 3;
}

abbrev pub dups : Tree
dups = node 6 (negsuc 0) (leaf 4) (leaf 6)

abbrev pub small_tree : Tree
small_tree = node 4 (pos 3) (leaf 2) dups

-- Where the leaf 4 is, and where the duplicates are.
abbrev pub at_dups : Ctx
at_dups = in_rght 4 (pos 3) (leaf 2) (top 100)

abbrev pub at_four : Ctx
at_four = in_left 6 (negsuc 0) (leaf 6) at_dups

pub small-Rooted : Rooted small 100 (some small_tree)
small-Rooted = (
  (refl, addr 100 refl (omega arith)),
  (
    refl,
    refl,
    refl,
    addr 4 refl (omega arith),
    (refl, refl, addr 2 refl (omega arith)),
    (
      refl,
      refl,
      refl,
      addr 6 refl (omega arith),
      (refl, refl, addr 4 refl (omega arith)),
      (refl, refl, addr 6 refl (omega arith)),
    ),
  ),
)
  where
    addr : (a : Ptr) → a % 2 ≡ 0 → 0 < a → IsAddr a
    addr a e i = record { aligned = e; nonnull = i }

pub small-Valid : Valid small 100 (some small_tree)
unfolding leaves_in nodes_in leaf_count node_count
small-Valid = record {
  rooted = small-Rooted;
  nodes = λ x. ground arith;
  leaves = λ x. ground arith;
  unused = λ x i e. ground arith;
}

pub eight_CanInsert : CanInsert 8 100 (some small_tree)
unfolding leaves_in nodes_in leaf_count node_count
eight_CanInsert = record {
  addr = record { aligned = refl; nonnull = omega arith };
  no_node = refl;
  no_leaf = refl;
}

pub four_Site : Site small at_four (leaf 4)
unfolding plug
four_Site = Site-of_Valid small at_four (leaf 4) small-Valid

pub eight_Inserts : Inserts 9 small at_dups dups 100 small_tree 6 8 (2 ∷ 4 ∷ 6 ∷ []) []
unfolding before after leaves plug height
eight_Inserts =
    eb_insert_dup-Inserts 9 small at_dups 6 (negsuc 0) (leaf 4) (leaf 6) 8 (omega arith) small-Valid
      eight_CanInsert

-- The keys of the small tree: 1 at 2, 9 at 4 and 6; 8 has the key 12.
abbrev pub keys : Ptr → ℕ
keys a = if a == 2 then 1 else if a == 8 then 12 else 9
