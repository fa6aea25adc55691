-- ===== src/Prefixes/Stop.antt =====
-- A stop of the descent of `__ebmb_insert_prefix` at a leaf or a tree of duplicates.
use ebmbtreebench.Prelude.{
  ℕ, Option, none, some, ◌≡◌, ◌≢◌, ◌⊎◌, ◌<◌, ◌≤◌, ◌+◌, ◌*◌, ◌/◌, ◌^◌, ltb, arith, sym, Bool-cases,
  inl, inr,
}
use ebmbtreebench.Memory.{Ptr, Mem}
use ebmbtreebench.Tree.{Tree, Ctx, slot, plug, height, root_of}
use ebmbtreebench.Tree.Count.{leaf_count}
use ebmbtreebench.Tree.Valid.{Valid}
use ebmbtreebench.Insert.Grown.{CanInsert}
use ebmbtreebench.Order.{FitsIn, IsPlaced-sub}
use ebmbtreebench.Bytes.{Bytes, equal_bits, get_bit}
use ebmbtreebench.Bytes.Check.{AllEqual}
use ebmbtreebench.Bytes.Equal.{EqualBits, equal_bits-EqualBits}
use ebmbtreebench.Scalar.Between.{place_of}
use ebmbtreebench.Scalar.Descent.{top_of}
use ebmbtreebench.Prefixes.Insert.{PrefixPlace, limit, check_bit_and_break, prefix_attach}
use ebmbtreebench.Prefixes.Order.{PrefixLies, IsPrefixRadix, AllHave, leaf_count-top_of}
use ebmbtreebench.Prefixes.Attach.{leaves-Ends}
use ebmbtreebench.Prefixes.Put.{PrefixEnds}
use mathlib.Core.Path.{subst}

module _ (key : Ptr → Bytes) (bytes : (y : Ptr) (i : ℕ) → key y i < 256) (pfx : Ptr → ℕ) (g len : ℕ)
    (room : len * 8 + 8 ≤ g * 8) (within : (y : Ptr) → pfx y ≤ len * 8) (short : len ≤ 2047)
    (f tag : ℕ) (m : Mem) (new : Ptr) where
  abbrev after_descent : Option PrefixPlace → Option (Ptr × Mem)
  after_descent r = elim r [ none ↦ none | some p ↦ prefix_attach key pfx f tag p new m ]

  pub fits_short : pfx new < 2 ^ 14
  fits_short = omega (arith, within new)

  abbrev Ends : Ctx → Tree → Option (Ptr × Mem) → Type 0
  Ends = PrefixEnds key pfx f tag m new fits_short

  -- All leaves have the bits found equal; or, on the left of a cover node with its length, they have
  -- the new prefix.
  abbrev Ahead : Tree → ℕ → Type 0
  Ahead t bit =
      ((y : Ptr) → 0 < leaf_count y t → AllEqual (key y) (key new) 0 bit) ⊎ AllHave key pfx new t

  pub compared :
      (a : Ptr) (bit lim : ℕ)
      → lim ≤ len * 8
      → EqualBits (key new) (key a) (bit / 8 * 8) lim (equal_bits g (key new) (key a) bit lim)
  compared a bit lim le =
      equal_bits-EqualBits (key new) (key a) lim (bytes new) (bytes a) g bit (omega arith)

  pub joined :
      (a : Ptr) (bit bits : ℕ)
      → AllEqual (key a) (key new) 0 bit
      → ((i : ℕ) → bit / 8 * 8 ≤ i → i < bits → get_bit (key new) i ≡ get_bit (key a) i)
      → AllEqual (key new) (key a) 0 bits
  joined a bit bits before same i lo hi = elim (Bool-cases (ltb i bit)) [
    | inl lt ↦ sym (before i lo (ground (arith, lt)))
    | inr ge ↦ same i (let le : bit ≤ i = ground (arith, ge) in omega arith) hi
  ]

  module _ (c : Ctx) (t : Tree) (root : Ptr) (side : ℕ) (cell : root + side ≡ slot c)
      (fuel : height (plug c t) < f) (v : Valid m (root_of c) (some (plug c t)))
      (fresh : CanInsert new (root_of c) (some (plug c t)))
      (radix : IsPrefixRadix key pfx (plug c t)) (fits : FitsIn (PrefixLies key pfx) new c)
      (level : (y : Ptr)
        → 0 < leaf_count y t
        → (pfx y ≡ pfx (top_of t)) × AllEqual (key y) (key (top_of t)) 0 (pfx (top_of t))) where
    abbrev old : Ptr
    old = top_of t

    abbrev cut : ℕ → ℕ
    cut bits = limit (limit bits (pfx new)) (pfx old)

    inside : 0 < leaf_count old t
    inside = leaf_count-top_of key pfx t (IsPlaced-sub (PrefixLies key pfx) c t radix)

    cut_bits :
        (bit bits : ℕ)
        → Ahead t bit
        → ((i : ℕ) → bit / 8 * 8 ≤ i → i < bits → get_bit (key new) i ≡ get_bit (key old) i)
        → AllEqual (key new) (key old) 0 (cut bits)
    cut_bits bit bits (inl ahead) same j lo hi =
        joined old bit bits (ahead old inside) same j lo (ground (arith, hi))
    cut_bits bit bits (inr have) same j lo hi = sym ((have old inside).1 j lo (ground (arith, hi)))

    cut_apart :
        (bits : ℕ)
        → (limit (pfx new) (pfx old) ≤ bits) ⊎ (get_bit (key new) bits ≢ get_bit (key old) bits)
        → cut bits < pfx old
        → cut bits < pfx new
        → get_bit (key new) (cut bits) ≢ get_bit (key old) (cut bits)
    cut_apart bits (inl past) lt lt' = absurd (ground (arith, past, lt, lt'))
    cut_apart bits (inr differs) lt lt' =
        let e : bits ≡ cut bits = ground (arith, lt, lt') in
        subst (λ k. get_bit (key new) k ≢ get_bit (key old) k) e differs

    pub stop_ends :
        (bit : ℕ)
        → Ahead t bit
        → Ends c t (
            after_descent (
              check_bit_and_break
                (equal_bits g (key new) (key old) bit (limit (pfx new) (pfx old)))
                (place_of root side t)))
    stop_ends bit ahead =
        let lim : limit (pfx new) (pfx old) ≤ len * 8 = let i = within new in ground arith in
        let q = compared old bit (limit (pfx new) (pfx old)) lim in
        rw (q.runs) (
          leaves-Ends key pfx f tag m new fits_short root side c t cell fuel v fresh radix fits
            level q.bits (cut_bits bit q.bits ahead q.same) (cut_apart q.bits q.ends))
