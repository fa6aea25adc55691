-- ===== src/Lookup/Found.antt =====
-- The four lookups, at trees in the order that the insertion for the same keys keeps.
use ebmbtreebench.Prelude.{ℕ, ◌<◌, ◌^◌, some, not, leb, ltb}
use ebmbtreebench.Memory.{Ptr, Mem}
use ebmbtreebench.Tree.{Tree, height, Rooted}
use ebmbtreebench.Lookup.{lookup, eb32_lookup, eb32i_lookup, eb64_lookup, eb64i_lookup}
use ebmbtreebench.Lookup.Exact.{lookup-Exact}
use ebmbtreebench.Lookup.Sides.{Exact}
use ebmbtreebench.Order.{IsRadix}
use ebmbtreebench.Order.Turns.{eb32_IsTurn, eb32i_IsTurn, eb64_IsTurn, eb64i_IsTurn, shift_sign_is}
use ebmbtreebench.Fls.{flsnz, fls64}
use ebmbtreebench.Scalar.{shift_sign, signed_ge}
use ebmbtreebench.Wide.{signed_lt}
use Prim.Native.Nat.{bit_xor}
use mathlib.Core.Path.{subst}

module _ (shift_neg : ℕ → ℕ → ℕ) (key : Ptr → ℕ) (f : ℕ) (m : Mem) (root : Ptr) (x : ℕ) (t : Tree)
    (fuel : height t < f) (h : Rooted m root (some t)) where
  pub eb32_lookup-Exact :
      ((y : Ptr) → key y < 2 ^ 32)
      → x < 2 ^ 32
      → IsRadix key t
      → Exact key x t (eb32_lookup shift_neg key f m root x)
  unfolding eb32_lookup
  eb32_lookup-Exact width i g =
      lookup-Exact 32 (λ z. z) flsnz (λ a b. leb b a) eb32_IsTurn key width x i shift_neg m f root t
        fuel h g

  -- The lookup turns the sign over by an exclusive or, and the insertion by a sum.
  pub eb32i_lookup-Exact :
      ((y : Ptr) → key y < 2 ^ 32)
      → x < 2 ^ 32
      → IsRadix (λ y. shift_sign (key y)) t
      → Exact key x t (eb32i_lookup shift_neg key f m root x)
  unfolding eb32i_lookup lookup
  eb32i_lookup-Exact width i g =
      subst (λ z. Exact key x t (lookup shift_neg key (λ v. z) f m root x)) (shift_sign_is x i)
        (lookup-Exact 32 shift_sign flsnz signed_ge eb32i_IsTurn key width x i shift_neg m f root t
          fuel h g)

  pub eb64_lookup-Exact :
      ((y : Ptr) → key y < 2 ^ 64)
      → x < 2 ^ 64
      → IsRadix key t
      → Exact key x t (eb64_lookup shift_neg key f m root x)
  unfolding eb64_lookup
  eb64_lookup-Exact width i g =
      lookup-Exact 64 (λ z. z) fls64 (λ a b. not (ltb a b)) eb64_IsTurn key width x i shift_neg m f
        root t fuel h g

  pub eb64i_lookup-Exact :
      ((y : Ptr) → key y < 2 ^ 64)
      → x < 2 ^ 64
      → IsRadix (λ y. bit_xor (key y) (2 ^ 63)) t
      → Exact key x t (eb64i_lookup shift_neg key f m root x)
  unfolding eb64i_lookup
  eb64i_lookup-Exact width i g =
      lookup-Exact 64 (λ z. bit_xor z (2 ^ 63)) fls64 (λ a b. not (signed_lt a b)) eb64i_IsTurn key
        width x i shift_neg m f root t fuel h g
