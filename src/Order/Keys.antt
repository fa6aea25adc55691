-- ===== src/Order/Keys.antt =====
-- The four insertions keep the leaves of a tree in the order of their keys.
use ebmbtreebench.Prelude.{
  ℕ, Bool, Option, some, ◌⊎◌, ◌≡◌, ◌<◌, ◌^◌, inl, inr, leb, ltb, not, sym, refl,
}
use ebmbtreebench.Memory.{Ptr, Mem, branch, eb_rght, eb_gettag}
use ebmbtreebench.Tree.{Tree, plug, height, leaves}
use ebmbtreebench.Tree.Valid.{Valid}
use ebmbtreebench.Insert.{grow}
use ebmbtreebench.Insert.Grown.{CanInsert}
use ebmbtreebench.Fls.{flsnz, fls64}
use ebmbtreebench.Scalar.{shift_sign, signed_ge, eb32_insert, eb32i_insert}
use ebmbtreebench.Scalar.Correct.{Put, Refused, Inserted}
use ebmbtreebench.Scalar.Placed.{Placed}
use ebmbtreebench.Scalar.Insert.{eb32_insert-Put, eb32i_insert-Put}
use ebmbtreebench.Wide.{signed_lt, eb64_insert, eb64i_insert}
use ebmbtreebench.Wide.Correct.{eb64_insert-Put, eb64i_insert-Put}
use ebmbtreebench.Order.{IsRadix}
use ebmbtreebench.Order.Insert.{IsTurn, Placed-IsRadix}
use ebmbtreebench.Order.Sorted.{IsSorted, leaves-IsSorted}
use ebmbtreebench.Order.Turns.{eb32_IsTurn, eb32i_IsTurn, eb64_IsTurn, eb64i_IsTurn}
use ebmbtreebench.Order.Place.{insert_by, Placed-insert_by}
use ebmbtreebench.Prelude.{ap, ◌∙◌}
use Prim.Native.Nat.{bit_xor}
use mathlib.Core.Path.{subst}

-- The insertion's result, with a tree whose leaves lie where its nodes say, so that they are in
-- the order that `ord` gives: those that the insertion into a sorted list gives.
pub record InOrder (ord : Ptr → ℕ) (result : Option (Ptr × Mem)) (root : Ptr) (t : Tree) (new : Ptr)
    : Type 0 where
  pub inserted : Inserted result root t new
  pub grown : Tree
  pub whole :
      grown
      ≡ plug inserted.grown.at (grow new inserted.grown.bit inserted.grown.side inserted.grown.sub)
  pub radix : IsRadix ord grown
  pub sorted : IsSorted ord (leaves grown)
  pub refines : leaves grown ≡ insert_by ord new (leaves t)

in_order :
    (w : ℕ) (turn fls : ℕ → ℕ) (ge : ℕ → ℕ → Bool) (key : Ptr → ℕ) (r : Option (Ptr × Mem))
    (root : Ptr) (t : Tree) (new : Ptr)
    → IsTurn w turn fls ge
    → ((y : Ptr) → key y < 2 ^ w)
    → IsRadix (λ y. turn (key y)) t
    → Put (Placed key (turn (key new)) fls ge new) r root t new
    → InOrder (λ y. turn (key y)) r root t new
in_order w turn fls ge key r root t new h width g p =
    let q = p.inserted.grown in
    let radix =
      Placed-IsRadix w turn fls ge h key width new q.at q.sub q.bit q.side
        (subst (IsRadix (λ y. turn (key y))) (sym q.from) g) p.placed in
    record {
      inserted = p.inserted;
      grown = plug q.at (grow new q.bit q.side q.sub);
      whole = refl;
      radix = radix;
      sorted = leaves-IsSorted (λ y. turn (key y)) (plug q.at (grow new q.bit q.side q.sub)) radix;
      refines =
          Placed-insert_by w turn fls ge h key width new q.at q.sub q.bit q.side
            (subst (IsRadix (λ y. turn (key y))) (sym q.from) g) p.placed
          ∙ ap (λ u. insert_by (λ y. turn (key y)) new (leaves u)) q.from;
    }

module _ (key : Ptr → ℕ) (f : ℕ) (m : Mem) (root new : Ptr) (t : Tree) (fuel : height t < f)
    (v : Valid m root (some t)) (fresh : CanInsert new root (some t)) where
  abbrev root_tag : ℕ
  root_tag = eb_gettag (branch m root eb_rght)

  -- An insertion with unsigned 32-bit keys, with fuel above the height of the valid tree `t` below
  -- `root`, whose leaves lie where its nodes say. Where it is not refused, the new structure is a
  -- leaf of a valid tree whose leaves lie where its nodes say too, so that they are sorted by key.
  -- They are the list that an insertion into the sorted list of the old leaves gives, behind the
  -- last leaf whose key is not above the new one.
  pub eb32_insert-InOrder :
      ((y : Ptr) → key y < 2 ^ 32)
      → IsRadix key t
      → InOrder key (eb32_insert key f root new m) root t new
        ⊎ Refused key (eb32_insert key f root new m) root_tag root t new
  eb32_insert-InOrder width g = elim (eb32_insert-Put key f m root new t fuel v fresh) [
    | inl p ↦ inl (
        in_order 32 (λ x. x) flsnz (λ x y. leb y x) key (eb32_insert key f root new m) root t new
          eb32_IsTurn width g p)
    | inr p ↦ inr p
  ]

  -- An insertion with signed 32-bit keys, with fuel above the height of the valid tree `t` below
  -- `root`, whose leaves lie where its nodes say. Where it is not refused, the new structure is a
  -- leaf of a valid tree whose leaves lie where its nodes say too, so that they are sorted by the
  -- key as a signed number. They are
  -- the list that an insertion into the sorted list of the old leaves gives, behind the last leaf
  -- that is not above the new one.
  pub eb32i_insert-InOrder :
      ((y : Ptr) → key y < 2 ^ 32)
      → IsRadix (λ y. shift_sign (key y)) t
      → InOrder (λ y. shift_sign (key y)) (eb32i_insert key f root new m) root t new
        ⊎ Refused key (eb32i_insert key f root new m) root_tag root t new
  eb32i_insert-InOrder width g = elim (eb32i_insert-Put key f m root new t fuel v fresh) [
    | inl p ↦ inl (
        in_order 32 shift_sign flsnz signed_ge key (eb32i_insert key f root new m) root t new
          eb32i_IsTurn width g p)
    | inr p ↦ inr p
  ]

  -- An insertion with unsigned 64-bit keys, with fuel above the height of the valid tree `t` below
  -- `root`, whose leaves lie where its nodes say. Where it is not refused, the new structure is a
  -- leaf of a valid tree whose leaves lie where its nodes say too, so that they are sorted by key.
  -- They are the list that an insertion into the sorted list of the old leaves gives, behind the
  -- last leaf whose key is not above the new one.
  pub eb64_insert-InOrder :
      ((y : Ptr) → key y < 2 ^ 64)
      → IsRadix key t
      → InOrder key (eb64_insert key f root new m) root t new
        ⊎ Refused key (eb64_insert key f root new m) root_tag root t new
  eb64_insert-InOrder width g = elim (eb64_insert-Put key f m root new t fuel v fresh) [
    | inl p ↦ inl (
        in_order 64 (λ x. x) fls64 (λ x y. not (ltb x y)) key (eb64_insert key f root new m) root t
          new eb64_IsTurn width g p)
    | inr p ↦ inr p
  ]

  -- An insertion with signed 64-bit keys, with fuel above the height of the valid tree `t` below
  -- `root`, whose leaves lie where its nodes say. Where it is not refused, the new structure is a
  -- leaf of a valid tree whose leaves lie where its nodes say too, so that they are sorted by the
  -- key with its sign bit turned over. They are
  -- the list that an insertion into the sorted list of the old leaves gives, behind the last leaf
  -- that is not above the new one.
  pub eb64i_insert-InOrder :
      ((y : Ptr) → key y < 2 ^ 64)
      → IsRadix (λ y. bit_xor (key y) (2 ^ 63)) t
      → InOrder (λ y. bit_xor (key y) (2 ^ 63)) (eb64i_insert key f root new m) root t new
        ⊎ Refused key (eb64i_insert key f root new m) root_tag root t new
  eb64i_insert-InOrder width g = elim (eb64i_insert-Put key f m root new t fuel v fresh) [
    | inl p ↦ inl (
        in_order 64 (λ x. bit_xor x (2 ^ 63)) fls64 (λ x y. not (signed_lt x y)) key
          (eb64i_insert key f root new m) root t new eb64i_IsTurn width g p)
    | inr p ↦ inr p
  ]
