-- ===== src/Lookup.antt =====
-- `__eb32_lookup`, `__eb32i_lookup` (eb32tree.h), `__eb64_lookup` and `__eb64i_lookup` (eb64tree.h).
-- They differ in the key that picks the branches, which is a parameter here.
-- At a tree of duplicates of another key the code shifts by its negative bit, which C leaves
-- undefined: `shift_neg` stands for what the machine does there.
pub mod Sound
pub mod Sides
pub mod Exact
pub mod Found
use ebmbtreebench.Prelude.{true, false, ◌%◌, leb, zero}
use ebmbtreebench.Walk.{eb_walk_down}
use Prim.Native.Nat.{ℕ, bit_xor, suc}
use ebmbtreebench.Prelude.{ℕ, Option, ◌/◌, none, ◌^◌, if◌then◌else◌, ◌==◌, some}
use ebmbtreebench.Memory.{
  Bit, Ptr, pos, Mem, branch, negsuc, eb_left, eb_gettag, eb_leaf, null, eb_root_to_node, eb_untag,
  eb_node, is_neg,
}

abbrev pub shift : (ℕ → ℕ → ℕ) → ℕ → Bit → ℕ
shift shift_neg x (pos n) = x / 2 ^ n
shift shift_neg x (negsuc n) = shift_neg x (suc n)

-- The loop, for the key `x`, with the key `turn` that picks the branches.
unfoldable pub lookup_from : (ℕ → ℕ → ℕ) → (Ptr → ℕ) → ℕ → ℕ → ℕ → Mem → Ptr → Option Ptr
lookup_from shift_neg key x turn zero m troot = none
lookup_from shift_neg key x turn (suc f) m troot = elim (eb_gettag troot == eb_leaf) [
  | true ↦
      let node = eb_root_to_node (eb_untag troot eb_leaf) in
      some (if key node == x then node else null)
  | false ↦
      let node = eb_root_to_node (eb_untag troot eb_node) in
      let y = bit_xor (key node) x in
      let first_dup = eb_walk_down f m (branch m node eb_left) eb_left in
      let side = shift shift_neg turn (m.bit node) % 2 in
      let below = lookup_from shift_neg key x turn f m (branch m node side) in
      if y == 0
      then if is_neg (m.bit node) then first_dup else some node
      else if leb 2 (shift shift_neg y (m.bit node))
      then some null
      else below
]

unfoldable pub lookup : (ℕ → ℕ → ℕ) → (Ptr → ℕ) → (ℕ → ℕ) → ℕ → Mem → Ptr → ℕ → Option Ptr
lookup shift_neg key turn f m root x =
    let found = lookup_from shift_neg key x (turn x) f m (branch m root eb_left) in
    if branch m root eb_left == null then some null else found

pub eb32_lookup : (ℕ → ℕ → ℕ) → (Ptr → ℕ) → ℕ → Mem → Ptr → ℕ → Option Ptr
eb32_lookup shift_neg key = lookup shift_neg key (λ x. x)

pub eb32i_lookup : (ℕ → ℕ → ℕ) → (Ptr → ℕ) → ℕ → Mem → Ptr → ℕ → Option Ptr
eb32i_lookup shift_neg key = lookup shift_neg key (λ x. bit_xor x 0x80000000)

pub eb64_lookup : (ℕ → ℕ → ℕ) → (Ptr → ℕ) → ℕ → Mem → Ptr → ℕ → Option Ptr
eb64_lookup shift_neg key = lookup shift_neg key (λ x. x)

pub eb64i_lookup : (ℕ → ℕ → ℕ) → (Ptr → ℕ) → ℕ → Mem → Ptr → ℕ → Option Ptr
eb64i_lookup shift_neg key = lookup shift_neg key (λ x. bit_xor x (2 ^ 63))
