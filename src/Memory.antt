-- ===== src/Memory.antt =====
-- The store of ebtree.h: `struct eb_root`, `struct eb_node` and the tagged pointers.
-- Addresses are numbers, `NULL` is 0, and an `eb_node` has the address of its `branches`.
-- Each member of the struct is a map from addresses; `b[side]` of the `eb_root` at `a` is
-- stored at the slot `a + side`, which is also the tagged pointer that refers up to it.
use ebmbtreebench.Prelude.{
  ℕ, ◌+◌, ◌-◌, ◌%◌, ◌==◌, Bool, true, false, if◌then◌else◌, ◌≡◌, ◌≢◌, arith, ==_iff, refl, ltb, ◌^◌,
  ◌<◌,
}

abbrev pub Ptr : Type 0
Ptr = ℕ

abbrev pub null : Ptr
null = 0

abbrev pub eb_left : ℕ
eb_left = 0

abbrev pub eb_rght : ℕ
eb_rght = 1

abbrev pub eb_leaf : ℕ
eb_leaf = 0

abbrev pub eb_node : ℕ
eb_node = 1

-- The member `bit` of a node, a signed `short int`: `pos n` is a bit number, `negsuc n` is
-- -(n + 1), which marks a node of a tree of duplicates.
pub data Bit : Type 0 where
  pos : ℕ → Bit
  negsuc : ℕ → Bit

abbrev pub is_neg : Bit → Bool
is_neg (pos n) = false
is_neg (negsuc n) = true

-- What an `int` that is not negative comes to when it is stored in a `short int`.
unfoldable pub to_short : ℕ → Bit
to_short n = let low = n % 2 ^ 16 in if ltb low (2 ^ 15) then pos low else negsuc (2 ^ 16 - 1 - low)

-- A number below 2 ^ 15 is stored as it is.
pub to_short_small : (n : ℕ) → n < 2 ^ 15 → to_short n ≡ pos n
unfolding to_short
to_short_small n lt =
    let e : n % 2 ^ 16 ≡ n = omega arith in
    let small : ltb n (2 ^ 15) ≡ true = ground arith in rw (e, small) refl

pub record Mem : Type 0 where
  pub b : ℕ → Ptr
  pub node_p : Ptr → Ptr
  pub leaf_p : Ptr → Ptr
  pub bit : Ptr → Bit

abbrev pub update {ℓ} : {A : Type ℓ} → (ℕ → A) → ℕ → A → ℕ → A
update f a v x = if x == a then v else f x

abbrev pub set_b : Ptr → ℕ → Ptr → Mem → Mem
set_b root side v m = record m { b = update m.b (root + side) v }

abbrev pub set_node_p : Ptr → Ptr → Mem → Mem
set_node_p a v m = record m { node_p = update m.node_p a v }

abbrev pub set_leaf_p : Ptr → Ptr → Mem → Mem
set_leaf_p a v m = record m { leaf_p = update m.leaf_p a v }

abbrev pub set_bit : Ptr → Bit → Mem → Mem
set_bit a v m = record m { bit = update m.bit a v }

abbrev pub branch : Mem → Ptr → ℕ → Ptr
branch m root side = m.b (root + side)

abbrev pub eb_dotag : Ptr → ℕ → Ptr
eb_dotag root tag = root + tag

abbrev pub eb_untag : Ptr → ℕ → Ptr
eb_untag troot tag = troot - tag

abbrev pub eb_gettag : Ptr → ℕ
eb_gettag troot = troot % 2

abbrev pub eb_clrtag : Ptr → Ptr
eb_clrtag troot = troot - troot % 2

-- `branches` is the first member of a node, so the two addresses are one.
abbrev pub eb_root_to_node : Ptr → Ptr
eb_root_to_node root = root

pub untag_gettag : (p : ℕ) → eb_untag p (eb_gettag p) + eb_gettag p ≡ p
untag_gettag p = omega arith

pub update_self {ℓ} : {A : Type ℓ} (f : ℕ → A) (a : ℕ) (v : A) → update f a v a ≡ v
update_self f a v = rw ((==_iff a a).1 refl)

pub update_ne {ℓ} : {A : Type ℓ} (f : ℕ → A) {a x : ℕ} (v : A) → x ≢ a → update f a v x ≡ f x
update_ne f v ne = ground arith
