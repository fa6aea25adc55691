-- ===== src/Scalar/Placed.antt =====
-- Where an insertion puts the new structure, in terms of the comparisons that the code makes.
use ebmbtreebench.Scalar.{Ptr, ℕ, bit_xor}
use ebmbtreebench.Scalar.Descent.{Went, Stops, top_of}
use ebmbtreebench.Dup.Spine.{OnSpine}
use ebmbtreebench.Dup.Append.{lower}
use ebmbtreebench.Tree.{Ctx, Tree}
use ebmbtreebench.Memory.{Ptr, Bit, pos}
use ebmbtreebench.Prelude.{ℕ, Bool, ◌≢◌, ◌≡◌, ◌⊎◌, ◌-◌, if◌then◌else◌}

-- Above the subtree where the descent stops, whose key is another one.
pub record Apart (key : Ptr → ℕ) (newkey : ℕ) (fls : ℕ → ℕ) (ge : ℕ → ℕ → Bool) (new : Ptr)
    (c : Ctx) (t : Tree) (k : Bit) (side : ℕ) : Type 0 where
  pub went : Went key (key new) newkey c
  pub stops : Stops key (key new) t
  pub differs : key new ≢ key (top_of t)
  pub bit_is : k ≡ pos (fls (bit_xor (key new) (key (top_of t))) - 1)
  pub side_is : side ≡ (if ge (key new) (key (top_of t)) then 0 else 1)

-- Within the subtree where the descent stops, which has the key.
pub record Beside (key : Ptr → ℕ) (newkey : ℕ) (ge : ℕ → ℕ → Bool) (new : Ptr) (c : Ctx) (t : Tree)
    (k : Bit) (side : ℕ) : Type 0 where
  pub from_at : Ctx
  pub from_sub : Tree
  pub went : Went key (key new) newkey from_at
  pub stops : Stops key (key new) from_sub
  pub same : key new ≡ key (top_of from_sub)
  pub on : OnSpine from_at from_sub c t
  pub bit_is : k ≡ lower t
  pub side_is : (side ≡ 0) ⊎ (side ≡ (if ge (key new) (key (top_of from_sub)) then 0 else 1))

abbrev pub Placed : (Ptr → ℕ) → ℕ → (ℕ → ℕ) → (ℕ → ℕ → Bool) → Ptr → Ctx → Tree → Bit → ℕ → Type 0
Placed key newkey fls ge new c t k side =
    Apart key newkey fls ge new c t k side ⊎ Beside key newkey ge new c t k side
