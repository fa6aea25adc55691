-- ===== src/Indirect/Whole.antt =====
-- `__ebim_insert` as a whole.
use ebmbtreebench.Prelude.{
  ℕ, Option, some, none, ◌≡◌, ◌⊎◌, ◌<◌, ◌≤◌, ◌+◌, ◌==◌, false, arith, refl, sym, ◌*◌,
}
use ebmbtreebench.Memory.{Ptr, Mem, null, branch, eb_rght, eb_gettag}
use ebmbtreebench.Tree.{Tree, top, plug, height, root_of, link}
use ebmbtreebench.Tree.Valid.{Valid}
use ebmbtreebench.Insert.Grown.{CanInsert}
use ebmbtreebench.Walk.Step.{link-nonnull}
use ebmbtreebench.Lookup.Sound.{first_count}
use ebmbtreebench.Tree.{first}
use ebmbtreebench.Bytes.{Bytes}
use ebmbtreebench.Scalar.Between.{place_of}
use ebmbtreebench.Scalar.Correct.{Put}
use ebmbtreebench.Scalar.Descent.{top_of}
use ebmbtreebench.Scalar.Insert.{First, only_leaf}
use ebmbtreebench.Blocks.{BlockPlace}
use ebmbtreebench.Blocks.Order.{IsBlockRadix}
use ebmbtreebench.Blocks.Insert.{BlockRefused}
use ebmbtreebench.Indirect.{ebim_attach, ebim_insert}
use ebmbtreebench.Indirect.Descent.{ebim_descend-Descends}
use ebmbtreebench.Indirect.Insert.{IndirectGrown, ebim_attach-Ends}
use mathlib.Core.Path.{subst}

module _ (key : Ptr → Bytes) (g f : ℕ) (m : Mem) (root new : Ptr) (len : ℕ) where
  -- In an empty tree the structure becomes the only leaf.
  pub ebim_insert-First :
      Valid m root none
      → CanInsert new root none
      → First (ebim_insert key g f root new m len) root new
  unfolding ebim_insert
  ebim_insert-First v fresh = rw (v.rooted.1) (only_leaf m root new v fresh)

  abbrev root_tag : ℕ
  root_tag = eb_gettag (branch m root eb_rght)

  abbrev EndsWith : Ptr → Tree → Option (Ptr × Mem) → Type 0
  EndsWith r u result =
      Put (IndirectGrown key len new) result r u new ⊎ BlockRefused key len result root_tag r u new

  abbrev place_at : Ptr → ℕ → Tree → ℕ → BlockPlace
  place_at r side u bit = record { at = place_of r side u; bit = bit }

  place_eq :
      (p : BlockPlace) (u : Tree)
      → p.at.troot ≡ link u
      → p.at.old ≡ top_of u
      → p ≡ place_at p.at.root p.at.side u p.bit
  place_eq p u e e' = λ i. record {
    at = record { root = p.at.root; side = p.at.side; troot = e i; old = e' i };
    bit = p.bit;
  }

-- Take keys of bytes and a length from 1 to 4095 bytes, so that the numbers of their bits fit in the
-- member `bit`, fuel for the bytes of a key and one more, and fuel above the height of the valid tree
-- `t` below `root`. The code compares one bit more than the `len` bytes have, the first of the byte
-- behind them; the leaves of `t` lie where its nodes say in all these bits. The insertion of a
-- structure that is in no role ends in one of two ways. It returns the structure, and the store has a
-- valid tree in which it is a new leaf among the leaves of `t`, which keep their order, and in which
-- all leaves lie where the nodes say in the same bits. Or it returns a leaf of `t` with the same
-- `len` bytes, the root is tagged as unique, and the store still has the valid tree `t`.
pub ebim_insert-Ends :
    (key : Ptr → Bytes)
    → ((y : Ptr) (i : ℕ) → key y i < 256)
    → (len : ℕ) (g f : ℕ) (m : Mem) (root new : Ptr) (t : Tree) → 0 < len
    → len ≤ 4095
    → len * 8 + 8 ≤ g * 8
    → height t < f
    → Valid m root (some t)
    → CanInsert new root (some t)
    → IsBlockRadix key (len * 8 + 1) t
    → Put (IndirectGrown key len new) (ebim_insert key g f root new m len) root t new
      ⊎ BlockRefused key len
          (ebim_insert key g f root new m len)
          (eb_gettag (branch m root eb_rght))
          root
          t
          new
unfolding ebim_insert plug
ebim_insert-Ends key bytes len g f m root new t some_bytes short room fuel v fresh radix =
    let nonempty : (m.b (root + 0) == null) ≡ false =
      let i = link-nonnull m t (root + 0) v.rooted.1 in ground arith in
    let d =
      ebim_descend-Descends key bytes g len room new m root t f (top root) t root fuel v.rooted.1
        radix refl refl 0 0 refl tt (omega arith)
        (record {
          guide = first t;
          inside = first_count t;
          agrees = λ j lo hi. absurd (omega arith);
        }) in
    let p = d.place in
    let s = d.spot in
    let v' : Valid m (root_of s.at) (some (plug s.at s.sub)) =
      subst (λ r. Valid m r (some (plug s.at s.sub))) (sym s.base)
        (subst (λ u. Valid m root (some u)) (sym s.whole) v) in
    let fresh' : CanInsert new (root_of s.at) (some (plug s.at s.sub)) =
      subst (λ r. CanInsert new r (some (plug s.at s.sub))) (sym s.base)
        (subst (λ u. CanInsert new root (some u)) (sym s.whole) fresh) in
    let out =
      ebim_attach-Ends key bytes len some_bytes short f (eb_gettag (branch m root eb_rght)) m new
        p.at.root p.at.side s.at s.sub s.cell (subst (λ u. height u < f) (sym s.whole) fuel) v'
        fresh' (subst (IsBlockRadix key (len * 8 + 1)) (sym s.whole) radix) s.fits p.bit s.ends in
    let there = place_at key g f m root new len p.at.root p.at.side s.sub p.bit in
    let attached =
      λ (q : BlockPlace). ebim_attach key (len * 8) f (eb_gettag (branch m root eb_rght)) q new m in
    rw (nonempty, d.runs)
      (subst (λ q. EndsWith key g f m root new len root t (attached q))
        (sym (place_eq key g f m root new len p s.sub s.link_is s.old_is))
        (subst (λ u. EndsWith key g f m root new len root u (attached there)) s.whole
          (subst (λ r. EndsWith key g f m root new len r (plug s.at s.sub) (attached there)) s.base
            out)))
