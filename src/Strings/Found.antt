-- ===== src/Strings/Found.antt =====
-- `__ebst_lookup` as a whole, and `ebst_lookup_len`.
use ebmbtreebench.Prelude.{ℕ, some, ◌≡◌, ◌<◌, ◌≤◌, ◌+◌, ◌==◌, false, arith}
use ebmbtreebench.Memory.{Ptr, Mem, Bit, pos, null, branch, eb_rght, eb_gettag}
use ebmbtreebench.Tree.{Tree, height, Rooted}
use ebmbtreebench.Walk.Step.{link-nonnull}
use ebmbtreebench.Bytes.{Bytes}
use ebmbtreebench.Strings.{ebst_lookup}
use ebmbtreebench.Strings.Same.{IsString, IsStringRadix}
use ebmbtreebench.Strings.Lookup.{IsStrcmp, StringFound, ebst_lookup_from-Found}

-- Take keys that are strings which end within `room` bytes, a `strcmp` that gives 0 exactly for
-- equal strings, a tree whose leaves lie where its nodes say, fuel for the comparisons of `room` or
-- more, and fuel above the height of the tree. For every string that ends within `room` bytes the
-- lookup ends, whether the root is unique or not. It returns a leaf with the string where there is
-- one, and NULL where there is none.
pub ebst_lookup-Found :
    (strcmp : Bytes → Bytes → Bit) (room : ℕ)
    → IsStrcmp strcmp room
    → (key : Ptr → Bytes) → ((y : Ptr) (i : ℕ) → key y i < 256)
    → ((y : Ptr) → IsString room (key y))
    → (x : Bytes) → ((i : ℕ) → x i < 256)
    → IsString room x
    → (g f : ℕ) (m : Mem) (root : Ptr) (t : Tree) → room ≤ g
    → height t < f
    → Rooted m root (some t)
    → IsStringRadix key t
    → StringFound key x t (ebst_lookup strcmp key g f m root x)
unfolding ebst_lookup
ebst_lookup-Found strcmp room right key bytes strings x bytes_x string_x g f m root t fuel_g fuel h
      radix =
    let linked : (m.b (root + 0) == null) ≡ false =
      let i = link-nonnull m t (root + 0) h.1 in ground arith in
    rw linked (
      ebst_lookup_from-Found strcmp room right key bytes strings x bytes_x string_x g fuel_g
        (eb_gettag (branch m root eb_rght)) m f t (root + 0) (pos 0) fuel h.1 radix
        (λ y i. ((λ j lo hi. absurd (omega arith)), λ j lt. absurd (omega arith))))
