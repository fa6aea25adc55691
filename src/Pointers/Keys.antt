-- ===== src/Pointers/Keys.antt =====
-- Trees with pointers for keys, on machines with pointers of 4 or of 8 bytes.
use ebmbtreebench.Prelude.{ℕ, some, ◌≡◌, ◌⊎◌, ◌<◌, ◌*◌, ◌^◌, inl, inr}
use ebmbtreebench.Memory.{Ptr, Mem, branch, eb_rght, eb_gettag}
use ebmbtreebench.Tree.{Tree, height, Rooted}
use ebmbtreebench.Tree.Valid.{Valid}
use ebmbtreebench.Insert.Grown.{CanInsert}
use ebmbtreebench.Scalar.Correct.{Refused}
use ebmbtreebench.Order.{IsRadix}
use ebmbtreebench.Order.Keys.{InOrder, eb32_insert-InOrder, eb64_insert-InOrder}
use ebmbtreebench.Lookup.Sides.{Exact}
use ebmbtreebench.Lookup.Found.{eb32_lookup-Exact, eb64_lookup-Exact}
use ebmbtreebench.Pointers.{ebpt_insert, ebpt_lookup}
use native.Mathlib.Nat.{mod-eq_of_lt}
use mathlib.Core.Path.{subst}

module _ (key : Ptr → ℕ) (f : ℕ) (m : Mem) (root new : Ptr) (t : Tree) (fuel : height t < f)
    (v : Valid m root (some t)) (fresh : CanInsert new root (some t)) (g : IsRadix key t) where
  pub ebpt_insert-InOrder :
      (word : ℕ)
      → (word ≡ 4) ⊎ (word ≡ 8)
      → ((y : Ptr) → key y < 2 ^ (8 * word))
      → InOrder key (ebpt_insert word key f root new m) root t new
        ⊎ Refused key
            (ebpt_insert word key f root new m)
            (eb_gettag (branch m root eb_rght))
            root
            t
            new
  ebpt_insert-InOrder word (inl e) width = rw e (
      eb32_insert-InOrder key f m root new t fuel v fresh
        (λ y. subst (λ z. key y < 2 ^ (8 * z)) e (width y)) g)
  ebpt_insert-InOrder word (inr e) width = rw e (
      eb64_insert-InOrder key f m root new t fuel v fresh
        (λ y. subst (λ z. key y < 2 ^ (8 * z)) e (width y)) g)

module _ (shift_neg : ℕ → ℕ → ℕ) (key : Ptr → ℕ) (f : ℕ) (m : Mem) (root : Ptr) (x : ℕ) (t : Tree)
    (fuel : height t < f) (h : Rooted m root (some t)) (g : IsRadix key t) where
  pub ebpt_lookup-Exact :
      (word : ℕ)
      → (word ≡ 4) ⊎ (word ≡ 8)
      → ((y : Ptr) → key y < 2 ^ (8 * word))
      → x < 2 ^ (8 * word)
      → Exact key x t (ebpt_lookup word shift_neg key f m root x)
  ebpt_lookup-Exact word (inl e) width i =
      let small : x < 2 ^ 32 = subst (λ z. x < 2 ^ (8 * z)) e i in
      rw (e, mod-eq_of_lt small)
        (eb32_lookup-Exact shift_neg key f m root x t fuel h
          (λ y. subst (λ z. key y < 2 ^ (8 * z)) e (width y)) small g)
  ebpt_lookup-Exact word (inr e) width i =
      let small : x < 2 ^ 64 = subst (λ z. x < 2 ^ (8 * z)) e i in
      rw (e, mod-eq_of_lt small)
        (eb64_lookup-Exact shift_neg key f m root x t fuel h
          (λ y. subst (λ z. key y < 2 ^ (8 * z)) e (width y)) small g)
