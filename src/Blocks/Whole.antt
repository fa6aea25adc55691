-- ===== src/Blocks/Whole.antt =====
-- `__ebmb_insert` as a whole.
use ebmbtreebench.Prelude.{
  ℕ, false, Option, some, none, ◌≡◌, ◌≢◌, ◌⊎◌, ◌<◌, ◌+◌, ◌*◌, ◌/◌, arith, refl, sym, inl, inr, ◌≤◌,
  ◌==◌,
}
use ebmbtreebench.Memory.{Ptr, Mem, eb_gettag, branch, eb_rght, null}
use ebmbtreebench.Tree.{Tree, plug, height, root_of, link, top}
use ebmbtreebench.Tree.Count.{leaf_count}
use ebmbtreebench.Tree.Valid.{Valid}
use ebmbtreebench.Insert.Grown.{CanInsert}
use ebmbtreebench.Bytes.Byte.{get_bit-same}
use ebmbtreebench.Blocks.Insert.{BlockGrown, BlockKept, BlockRefused, ebmb_attach-Ends}
use ebmbtreebench.Bytes.{Bytes}
use ebmbtreebench.Scalar.Between.{place_of}
use ebmbtreebench.Scalar.Correct.{Put}
use ebmbtreebench.Scalar.Descent.{top_of}
use ebmbtreebench.Scalar.Insert.{First, only_leaf}
use ebmbtreebench.Blocks.{BlockPlace, ebmb_attach, ebmb_insert, eb_gettag, branch, eb_rght, null}
use ebmbtreebench.Blocks.Order.{IsBlockRadix}
use ebmbtreebench.Blocks.Descent.{ebmb_descend-Descends}
use ebmbtreebench.Blocks.Grow.{IsAbsent}
use mathlib.Core.Path.{subst}
use ebmbtreebench.Walk.Step.{link-nonnull}

module _ (key : Ptr → Bytes) (bytes : (y : Ptr) (i : ℕ) → key y i < 256) (g f : ℕ) (m : Mem)
    (root new : Ptr) (len : ℕ) where
  -- In an empty tree the structure becomes the only leaf.
  pub ebmb_insert-First :
      Valid m root none
      → CanInsert new root none
      → First (ebmb_insert key g f root new m len) root new
  unfolding ebmb_insert
  ebmb_insert-First v fresh = rw (v.rooted.1) (only_leaf m root new v fresh)

  abbrev root_tag : ℕ
  root_tag = eb_gettag (branch m root eb_rght)

  -- What an insertion ends with, for blocks of any length.
  abbrev BlockEndsWith : Ptr → Tree → Option (Ptr × Mem) → Type 0
  BlockEndsWith r u result =
      Put (BlockKept key len root_tag new) result r u new
      ⊎ BlockRefused key len result root_tag r u new

  kept_or_refused :
      (t : Tree)
      → len * 8 + 8 ≤ g * 8
      → height t < f
      → Valid m root (some t)
      → CanInsert new root (some t)
      → IsBlockRadix key (len * 8) t
      → BlockEndsWith root t (ebmb_insert key g f root new m len)
  unfolding ebmb_insert plug
  kept_or_refused t room fuel v fresh radix =
      let nonempty : (m.b (root + 0) == null) ≡ false =
        let i = link-nonnull m t (root + 0) v.rooted.1 in ground arith in
      let d =
        ebmb_descend-Descends key bytes g len room new m root t f (top root) t root 0 0 fuel
          v.rooted.1 radix refl refl refl tt (λ y i j lo hi. absurd (omega arith)) in
      let p = d.place in
      let s = d.spot in
      let v' : Valid m (root_of s.at) (some (plug s.at s.sub)) =
        subst (λ r. Valid m r (some (plug s.at s.sub))) (sym s.base)
          (subst (λ u. Valid m root (some u)) (sym s.whole) v) in
      let fresh' : CanInsert new (root_of s.at) (some (plug s.at s.sub)) =
        subst (λ r. CanInsert new r (some (plug s.at s.sub))) (sym s.base)
          (subst (λ u. CanInsert new root (some u)) (sym s.whole) fresh) in
      let out =
        ebmb_attach-Ends key bytes len f root_tag m new p.at.root p.at.side s.at s.sub s.cell
          (subst (λ u. height u < f) (sym s.whole) fuel) v' fresh'
          (subst (IsBlockRadix key (len * 8)) (sym s.whole) radix) s.fits p.bit s.ends in
      let there = place_at p.at.root p.at.side s.sub p.bit in
      rw (nonempty, d.runs)
        (subst (λ q. BlockEndsWith root t (ebmb_attach key len f root_tag q new m))
          (sym (place_eq p s.sub s.link_is s.old_is))
          (subst (λ u. BlockEndsWith root u (ebmb_attach key len f root_tag there new m)) s.whole
            (subst
              (λ r. BlockEndsWith r (plug s.at s.sub) (ebmb_attach key len f root_tag there new m))
              s.base out)))
    where
      place_at : Ptr → ℕ → Tree → ℕ → BlockPlace
      place_at r side u bit = record { at = place_of r side u; bit = bit }

      place_eq :
          (p : BlockPlace) (u : Tree)
          → p.at.troot ≡ link u
          → p.at.old ≡ top_of u
          → p ≡ place_at p.at.root p.at.side u p.bit
      place_eq p u e e' = λ i. record {
        at = record { root = p.at.root; side = p.at.side; troot = e i; old = e' i };
        bit = p.bit;
      }

  -- For keys of bytes and a length of at most 4096 bytes, so that the numbers of their bits fit in
  -- the member `bit`, with fuel for the bytes of a key and one more, and fuel above the height of
  -- the valid tree `t` below `root`, whose leaves lie where its nodes say in the first `len` bytes
  -- of their keys, the insertion of a structure that is in no role ends in one of two ways. It
  -- returns the structure, and the store has a valid tree in which it is a new leaf among the leaves
  -- of `t`, which keep their order, and in which all leaves lie where the nodes say; and if the root
  -- is tagged as unique, no leaf of `t` has the same bits. Or it returns a leaf of `t` with the same
  -- `len` bytes, the root is tagged as unique, and the store still has the valid tree `t`.
  pub ebmb_insert-Ends :
      (t : Tree)
      → len ≤ 4096
      → len * 8 + 8 ≤ g * 8
      → height t < f
      → Valid m root (some t)
      → CanInsert new root (some t)
      → IsBlockRadix key (len * 8) t
      → Put (BlockGrown key len root_tag new) (ebmb_insert key g f root new m len) root t new
        ⊎ BlockRefused key len
            (ebmb_insert key g f root new m len)
            (eb_gettag (branch m root eb_rght))
            root
            t
            new
  ebmb_insert-Ends t short room fuel v fresh radix =
      elim (kept_or_refused t room fuel v fresh radix) [
        | inl p ↦ inl (record { inserted = p.inserted; placed = (p.placed.0 short, p.placed.1) })
        | inr refused ↦ inr refused
      ]

  -- Take keys of bytes, fuel for the bytes of a key and one more and above the height of the valid
  -- tree `t` below `root`, whose leaves lie where its nodes say in the first `len` bytes of their
  -- keys, and a structure that is in no role. Where the root is tagged as unique and some leaf has
  -- the same `len` bytes, the insertion is refused: it returns a leaf of `t` with these bytes, and
  -- the store still has the valid tree `t`.
  pub ebmb_insert-BlockRefused :
      (t : Tree) (y : Ptr)
      → len * 8 + 8 ≤ g * 8
      → height t < f
      → Valid m root (some t)
      → CanInsert new root (some t)
      → IsBlockRadix key (len * 8) t
      → eb_gettag (branch m root eb_rght) ≢ 0
      → 0 < leaf_count y t
      → ((i : ℕ) → i < len → key new i ≡ key y i)
      → BlockRefused key len
          (ebmb_insert key g f root new m len)
          (eb_gettag (branch m root eb_rght))
          root
          t
          new
  ebmb_insert-BlockRefused t y room fuel v fresh radix unique there same =
      elim (kept_or_refused t room fuel v fresh radix) [
        | inr refused ↦ refused
        | inl p ↦ elim p.placed.1 [
          | inl z ↦ absurd (unique z)
          | inr absent ↦ absurd (
              subst (IsAbsent key (len * 8) new) p.inserted.grown.from absent y there
                (λ i lo hi. get_bit-same (key new) (key y) i (same (i / 8) (omega arith))))
        ]
      ]
