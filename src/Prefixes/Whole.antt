-- ===== src/Prefixes/Whole.antt =====
-- `__ebmb_insert_prefix` as a whole.
use ebmbtreebench.Prelude.{
  ℕ, some, ◌≡◌, ◌⊎◌, ◌<◌, ◌≤◌, ◌+◌, ◌*◌, ◌==◌, ◌^◌, false, arith, refl, inl,
}
use ebmbtreebench.Memory.{Ptr, Mem, null, eb_rght, eb_gettag, branch}
use ebmbtreebench.Tree.{Tree, top, plug, height}
use ebmbtreebench.Tree.Valid.{Valid}
use ebmbtreebench.Insert.Grown.{CanInsert}
use ebmbtreebench.Bytes.{Bytes}
use ebmbtreebench.Scalar.Correct.{Put}
use ebmbtreebench.Walk.Step.{link-nonnull}
use ebmbtreebench.Prefixes.Insert.{limit, ebmb_insert_prefix}
use ebmbtreebench.Prefixes.Order.{IsPrefixRadix}
use ebmbtreebench.Prefixes.Put.{PrefixGrown, PrefixRefused}
use ebmbtreebench.Prefixes.Descent.{descend_ends}

-- Take keys of at most 2047 bytes, so that the numbers of their bits, doubled, fit in the member
-- `bit`, prefixes within them, fuel for the bytes of a key and one more, and fuel above the height
-- of a valid tree `t` below `root`, whose leaves lie where its nodes say: below a normal node longer
-- prefixes by their bit there, below a cover node those that end at its bit on the left and longer
-- ones on the right, and in a tree of duplicates one prefix. The insertion of a structure that is in
-- no role ends in one of two ways. It returns the structure, and the store has a valid tree in which
-- it is a new leaf among the leaves of `t`, which keep their order, and in which all leaves lie where
-- the nodes say. Or it returns a leaf of `t` with the same prefix, the root is tagged as unique, and
-- the store still has the valid tree `t`.
pub ebmb_insert_prefix-Ends :
    (key : Ptr → Bytes)
    → ((y : Ptr) (i : ℕ) → key y i < 256)
    → (pfx : Ptr → ℕ) (len : ℕ) → len ≤ 2047
    → ((y : Ptr) → pfx y ≤ len * 8)
    → (g f : ℕ) (m : Mem) (root new : Ptr) (t : Tree) → len * 8 + 8 ≤ g * 8
    → height t < f
    → Valid m root (some t)
    → CanInsert new root (some t)
    → IsPrefixRadix key pfx t
    → Put (PrefixGrown key pfx new) (ebmb_insert_prefix key pfx g f root new m len) root t new
      ⊎ PrefixRefused key pfx
          (ebmb_insert_prefix key pfx g f root new m len)
          (eb_gettag (branch m root eb_rght))
          root
          t
          new
unfolding ebmb_insert_prefix plug
ebmb_insert_prefix-Ends key bytes pfx len short within g f m root new t room fuel v fresh radix =
    let nonempty : (m.b (root + 0) == null) ≡ false =
      let i = link-nonnull m t (root + 0) v.rooted.1 in ground arith in
    let width : limit (len * 2 ^ 3) (pfx new) ≡ pfx new = let i = within new in ground arith in
    rw (nonempty, width)
      (descend_ends key bytes pfx g len room within short f (eb_gettag (branch m root eb_rght)) m
        new f (top root) t root 0 0 fuel v.rooted.1 refl fuel v fresh radix tt
        (inl (λ y i j lo hi. absurd (omega arith))))
