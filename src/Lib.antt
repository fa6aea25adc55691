-- ===== src/Lib.antt =====
-- Elastic binary trees: the store of `eb_node` structures, and the operations on it.
--
-- A tree is made of structures that each have a leaf part and a node part. `ebtree.h` has what
-- all the key types share: the walks from a structure to its neighbours, the insertion into a
-- tree of duplicates, and the deletion. `eb32tree.h` and `eb64tree.h` have the insertions for
-- 32-bit and 64-bit keys, which call the insertion of duplicates, and the lookups; `ebpttree.h`
-- passes pointers on to one of the two. `ebmbtree.h` has the same for blocks of bytes, and
-- `ebsttree.h` for strings; `ebimtree.h` and `ebistree.h` reach both by a pointer. `memcmp` and
-- `strcmp` are parameters, of which the theorems ask what the C library promises.
--
-- Memory: the structures of ebtree.h as maps from addresses, and the tagged pointers
--   (`eb_dotag`, `eb_untag`, `eb_gettag`, `eb_clrtag`).
-- Tree: the abstract trees, with a path to a slot as a context; `Holds`, `Around` and `Valid`
--   say that a store has a tree, with its parent pointers, and no part in it twice. Its child
--   modules count parts, move subtrees from slot to slot, and leave alone what is not written.
-- Walk: `eb_walk_down`, `eb_first`, `eb_last`, `eb_next`, `eb_prev` and the variants within and
--   beyond duplicates (ebtree.h).
-- Insert: what every insertion comes to, a new structure between a slot and its subtree.
-- Dup: `__eb_insert_dup` (ebtree.h).
-- Delete: `__eb_delete` (ebtree.h).
-- Fls: `flsnz`, `fls64` and `flsnz8_generic` (ebtree.h), with what shifts and exclusive ors say of
--   the bits of two numbers.
-- Bytes: `equal_bits`, `check_bits`, `string_equal_bits`, `cmp_bits` and `get_bit` (ebtree.h).
-- Scalar: `__eb32_insert` and `__eb32i_insert` (eb32tree.h).
-- Wide: `__eb64_insert` and `__eb64i_insert` (eb64tree.h), by way of Scalar.
-- Lookup: `__eb32_lookup`, `__eb32i_lookup` (eb32tree.h), `__eb64_lookup` and `__eb64i_lookup`
--   (eb64tree.h).
-- Order: the order of the leaves by key; `IsRadix` says that each leaf lies where the bits of the
--   nodes above it say.
-- Nearest: `eb32_lookup_ge`, `eb32_lookup_le` (eb32tree.c), `eb64_lookup_ge` and `eb64_lookup_le`
--   (eb64tree.c).
-- Typed: the functions of eb32tree.h and eb64tree.h that call those of ebtree.h with another type,
--   and the loop of test32.c that prints a tree.
-- Pointers: ebpttree.h, by way of Scalar or Wide.
-- Blocks: `__ebmb_lookup` and `__ebmb_insert` (ebmbtree.h), the functions of that file that call
--   those of ebtree.h, and `__ebim_lookup` (ebimtree.h). A block is a map from offsets to bytes, and
--   the bit of a node is the number of a bit in it; `IsBlockRadix` says what Order says of numbers.
-- Indirect: `__ebim_insert` (ebimtree.h), by way of Blocks for its descent and Wide for its writes.
--   The code compares one bit behind the end of the keys, so that its trees are ordered by that too.
-- Prefixes: `__ebmb_lookup_longest`, `__ebmb_lookup_prefix` and `__ebmb_insert_prefix`
--   (ebmbtree.h), by way of Scalar. `IsPrefixRadix` is the order of the tree, with its cover nodes; the
--   two lookups are run in Examples, with no theorem.
-- Strings: `__ebst_lookup`, `ebst_lookup_len` and `__ebst_insert` (ebsttree.h), and the same of
--   ebistree.h. A string is a block up to its first 0; `IsStringRadix` is the order of the tree.
-- Examples: a small tree, and the theorems run on it.
--
-- A function that changes the store takes it as an argument and returns the new one, with one
-- update for each assignment, in the order of the code. The members `key` and `pfx` are functions of
-- the address, since the code only reads them.
--
-- A loop takes fuel, one unit for a pass; `none` means that it ran out, and a returned NULL is
-- `some null`. A climb passes at most the depth of its slot, a descent at most the height of its
-- tree; the theorems ask for fuel above these and state that the result is there. The lookups of the
-- nearest keys climb after they have gone down, and so take twice as much.
--
-- The member `bit` is a `short int`. `to_short` cuts a number to it where a bit of a block, a string
-- or a prefix is stored; the theorems on their insertions ask for keys short enough that nothing is
-- cut off. The bits of numbers are below 64, and a tree of duplicates would need more than 2 ^ 32767
-- entries, so that there nothing is cut.
--
-- Not modelled: the width of addresses; compiler.h, which has no behaviour; of the tests, the
-- examples and the benchmark all but the loops that list a tree. A shift by a negative count, which C
-- leaves undefined and the lookups can come to, is a parameter. `flsnz` and `flsnz8` are the portable
-- code; the instruction that x86 uses is outside the model. The insertion for 64-bit keys is the one
-- for machines whose long has 8 bytes.
pub mod Blocks
pub mod Bytes
pub mod Delete
pub mod Dup
pub mod Examples
pub mod Fls
pub mod Indirect
pub mod Insert
pub mod Lookup
pub mod Memory
pub mod Nearest
pub mod Order
pub mod Pointers
pub mod Prefixes
pub mod Prelude
pub mod Scalar
pub mod Strings
pub mod Tree
pub mod Typed
pub mod Walk
pub mod Wide
