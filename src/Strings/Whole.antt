-- ===== src/Strings/Whole.antt =====
-- `__ebst_insert` as a whole.
use ebmbtreebench.Prelude.{
  ℕ, Option, some, none, ◌≡◌, ◌⊎◌, ◌<◌, ◌≤◌, ◌+◌, ◌==◌, false, arith, refl, sym,
}
use ebmbtreebench.Memory.{Ptr, Mem, Bit, pos, null, branch, eb_rght, eb_gettag}
use ebmbtreebench.Tree.{Tree, top, plug, height, root_of, link}
use ebmbtreebench.Tree.Valid.{Valid}
use ebmbtreebench.Insert.Grown.{CanInsert}
use ebmbtreebench.Walk.Step.{link-nonnull}
use ebmbtreebench.Lookup.Sound.{first_count}
use ebmbtreebench.Tree.{first}
use ebmbtreebench.Bytes.{Bytes}
use ebmbtreebench.Scalar.Between.{place_of}
use ebmbtreebench.Scalar.Correct.{Put}
use ebmbtreebench.Scalar.Descent.{top_of}
use ebmbtreebench.Scalar.Insert.{First, only_leaf}
use ebmbtreebench.Strings.{StringPlace, ebst_attach, ebst_insert}
use ebmbtreebench.Strings.Same.{IsString, IsStringRadix}
use ebmbtreebench.Strings.Descent.{ebst_descend-Descends}
use ebmbtreebench.Strings.Insert.{StringGrown, StringRefused, ebst_attach-Ends}
use mathlib.Core.Path.{subst}

module _ (key : Ptr → Bytes) (g f : ℕ) (m : Mem) (root new : Ptr) where
  -- In an empty tree the structure becomes the only leaf.
  pub ebst_insert-First :
      Valid m root none → CanInsert new root none → First (ebst_insert key g f root new m) root new
  unfolding ebst_insert
  ebst_insert-First v fresh = rw (v.rooted.1) (only_leaf m root new v fresh)

  abbrev root_tag : ℕ
  root_tag = eb_gettag (branch m root eb_rght)

  abbrev EndsWith : Ptr → Tree → Option (Ptr × Mem) → Type 0
  EndsWith r u result =
      Put (StringGrown key new) result r u new ⊎ StringRefused key result root_tag r u new

  abbrev place_at : Ptr → ℕ → Tree → Bit → StringPlace
  place_at r side u bit = record { at = place_of r side u; bit = bit }

  place_eq :
      (p : StringPlace) (u : Tree)
      → p.at.troot ≡ link u
      → p.at.old ≡ top_of u
      → p ≡ place_at p.at.root p.at.side u p.bit
  place_eq p u e e' = λ i. record {
    at = record { root = p.at.root; side = p.at.side; troot = e i; old = e' i };
    bit = p.bit;
  }

-- For keys of bytes that are strings which end within `room` bytes, which are at most 4096, so that
-- the numbers of their bits fit in the member `bit`, with fuel for the comparisons of
-- `room` or more, and fuel above the height of the valid tree `t` below `root`, whose leaves lie
-- where its nodes say, the insertion of a structure that is in no role ends in one of two ways. It
-- returns the structure, and the store has a valid tree in which it is a new leaf among the leaves
-- of `t`, which keep their order, and in which all leaves lie where the nodes say. Or it returns a
-- leaf of `t` with the same string, the root is tagged as unique, and the store still has the valid
-- tree `t`.
pub ebst_insert-Ends :
    (key : Ptr → Bytes)
    → ((y : Ptr) (i : ℕ) → key y i < 256)
    → (room : ℕ) → room ≤ 4096
    → ((y : Ptr) → IsString room (key y))
    → (g f : ℕ) (m : Mem) (root new : Ptr) (t : Tree) → room ≤ g
    → height t < f
    → Valid m root (some t)
    → CanInsert new root (some t)
    → IsStringRadix key t
    → Put (StringGrown key new) (ebst_insert key g f root new m) root t new
      ⊎ StringRefused key
          (ebst_insert key g f root new m)
          (eb_gettag (branch m root eb_rght))
          root
          t
          new
unfolding ebst_insert plug
ebst_insert-Ends key bytes room short strings g f m root new t fuel_g fuel v fresh radix =
    let nonempty : (m.b (root + 0) == null) ≡ false =
      let i = link-nonnull m t (root + 0) v.rooted.1 in ground arith in
    let d =
      ebst_descend-Descends key bytes room strings g fuel_g new m root t f (top root) t root fuel
        v.rooted.1 radix refl refl 0 (pos 0) refl tt
        (record {
          guide = first t;
          inside = first_count t;
          near = ((λ j lo hi. absurd (omega arith)), (λ j lt. absurd (omega arith)));
        }) in
    let p = d.place in
    let s = d.spot in
    let v' : Valid m (root_of s.at) (some (plug s.at s.sub)) =
      subst (λ r. Valid m r (some (plug s.at s.sub))) (sym s.base)
        (subst (λ u. Valid m root (some u)) (sym s.whole) v) in
    let fresh' : CanInsert new (root_of s.at) (some (plug s.at s.sub)) =
      subst (λ r. CanInsert new r (some (plug s.at s.sub))) (sym s.base)
        (subst (λ u. CanInsert new root (some u)) (sym s.whole) fresh) in
    let out =
      ebst_attach-Ends key room short f (eb_gettag (branch m root eb_rght)) m new (strings new)
        p.at.root p.at.side s.at s.sub s.cell (subst (λ u. height u < f) (sym s.whole) fuel) v'
        fresh' (subst (IsStringRadix key) (sym s.whole) radix) s.fits p.bit s.ends in
    let there = place_at key g f m root new p.at.root p.at.side s.sub p.bit in
    let attached =
      λ (q : StringPlace). ebst_attach key f (eb_gettag (branch m root eb_rght)) q new m in
    rw (nonempty, d.runs)
      (subst (λ q. EndsWith key g f m root new root t (attached q))
        (sym (place_eq key g f m root new p s.sub s.link_is s.old_is))
        (subst (λ u. EndsWith key g f m root new root u (attached there)) s.whole
          (subst (λ r. EndsWith key g f m root new r (plug s.at s.sub) (attached there)) s.base
            out)))
