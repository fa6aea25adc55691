-- ===== src/Strings/Insert.antt =====
-- `__ebst_insert` on a valid tree whose leaves lie where its nodes say, in all its branches.
use ebmbtreebench.Prelude.{
  ℕ, ◌≤◌, ◌/◌, ltb, true, Option, some, ◌≡◌, ◌≢◌, ◌⊎◌, ◌<◌, ◌+◌, ◌==◌, if◌then◌else◌, arith, refl,
  sym, inl, inr, Bool-cases,
}
use ebmbtreebench.Memory.{to_short, to_short_small, Ptr, Mem, Bit, pos, negsuc}
use ebmbtreebench.Tree.{Tree, leaf, node, Ctx, plug, height, root_of, slot}
use ebmbtreebench.Tree.Count.{leaf_count, one_if_self, leaf_count-plug}
use ebmbtreebench.Tree.Valid.{Valid, Site-of_Valid}
use ebmbtreebench.Insert.{grow}
use ebmbtreebench.Insert.Grown.{CanInsert}
use ebmbtreebench.Dup.Append.{lower}
use ebmbtreebench.Dup.Spine.{OnSpine, OnSpine-self}
use ebmbtreebench.Order.{FitsIn, IsPlaced-sub}
use ebmbtreebench.Order.Grow.{grown-IsPlaced}
use ebmbtreebench.Bytes.{Bytes, get_bit}
use ebmbtreebench.Scalar.{Place, is_leaf}
use ebmbtreebench.Scalar.Between.{place_of}
use ebmbtreebench.Scalar.Correct.{Put}
use ebmbtreebench.Scalar.Descent.{top_of}
use ebmbtreebench.Scalar.Whole.{dup_case, link_lower}
use ebmbtreebench.Wide.{set_parent, put_left, put_right, finish}
use ebmbtreebench.Wide.Put.{put_left-Put, put_right-Put, set_parent-Valid}
use ebmbtreebench.Blocks.Insert.{cmp_bits-cases}
use ebmbtreebench.Strings.{StringPlace, string_apart, ebst_attach}
use ebmbtreebench.Strings.Same.{SameString, SameString-sym, IsString, StringLies, IsStringRadix}
use ebmbtreebench.Strings.Grow.{StringPart, Agrees, apart-IsStringRadix, string_spine}
use ebmbtreebench.Strings.Near.{StringEnds}
use mathlib.Core.Path.{subst}

-- The tree is as it was, and `old`, which is a leaf of it, has the string of the structure.
pub record StringRefused (key : Ptr → Bytes) (result : Option (Ptr × Mem)) (root_tag : ℕ)
    (root : Ptr) (t : Tree) (new : Ptr) : Type 0 where
  pub store : Mem
  pub old : Ptr
  pub runs : result ≡ some (old, store)
  pub same_key : SameString (key new) (key old)
  pub tagged : root_tag ≢ 0
  pub valid : Valid store root (some t)
  pub there : 0 < leaf_count old t

-- The tree that an insertion makes has its leaves where its nodes say.
abbrev pub StringGrown : (Ptr → Bytes) → Ptr → Ctx → Tree → Bit → ℕ → Type 0
StringGrown key new c t k side = IsStringRadix key (plug c (grow new k side t))

leaf_count-top_of :
    (key : Ptr → Bytes) (t : Tree) → IsStringRadix key t → 0 < leaf_count (top_of t) t
unfolding leaf_count
leaf_count-top_of key (leaf a) g = omega (arith, one_if_self a)
leaf_count-top_of key (node a k l r) g = g.2

module _ (key : Ptr → Bytes) (room : ℕ) (short : room ≤ 4096) (f tag : ℕ) (m : Mem) (new : Ptr)
    (string : IsString room (key new)) (root : Ptr) (side : ℕ) (c : Ctx) (t : Tree)
    (cell : root + side ≡ slot c) (fuel : height (plug c t) < f)
    (v : Valid m (root_of c) (some (plug c t)))
    (fresh : CanInsert new (root_of c) (some (plug c t))) (radix : IsStringRadix key (plug c t))
    (fits : FitsIn (StringLies key) new c) where
  abbrev Ends : Option (Ptr × Mem) → Type 0
  Ends r =
      Put (StringGrown key new) r (root_of c) (plug c t) new
      ⊎ StringRefused key r tag (root_of c) (plug c t) new

  abbrev old : Ptr
  old = top_of t

  abbrev here : Place
  here = place_of root side t

  abbrev at_bit : Bit → StringPlace
  at_bit bit = record { at = here; bit = bit }

  top_leaf : 0 < leaf_count old t
  top_leaf = leaf_count-top_of key t (IsPlaced-sub (StringLies key) c t radix)

  -- Both orders of the writes come to those of eb32tree.h.
  left-Put :
      (k : Bit)
      → StringGrown key new c t k 1
      → Put
          (StringGrown key new)
          (some (new, finish k here new (put_left here new (set_parent here new m))))
          (root_of c)
          (plug c t)
          new
  left-Put k h = put_left-Put m new root side c t cell v fresh (StringGrown key new) k h

  right-Put :
      (k : Bit)
      → StringGrown key new c t k 0
      → Put
          (StringGrown key new)
          (some (new, finish k here new (put_right here new (set_parent here new m))))
          (root_of c)
          (plug c t)
          new
  right-Put k h = put_right-Put m new root side c t cell v fresh (StringGrown key new) k h

  part_grown :
      (bit s : ℕ)
      → StringPart key new old t bit
      → get_bit (key old) bit ≡ s
      → (s ≡ 0) × (get_bit (key new) bit ≡ 1) ⊎ (s ≡ 1) × (get_bit (key new) bit ≡ 0)
      → StringGrown key new c t (pos bit) s
  part_grown bit s part at ways =
      grown-IsPlaced (StringLies key) new (pos bit) s c t radix
        (apart-IsStringRadix key new t old bit s part at (IsPlaced-sub (StringLies key) c t radix)
          ways)
        fits

  -- The number of the bit fits in the member `bit`.
  stored : (bit : ℕ) → StringPart key new old t bit → to_short bit ≡ pos bit
  stored bit part = to_short_small bit (elim (Bool-cases (ltb string.end (bit / 8))) [
    | inr ge ↦ let le : bit / 8 ≤ string.end = ground (arith, ge) in omega (arith, string.within)
    | inl lt ↦
        let i = part.own string.end (ground (arith, lt)) in
        absurd (omega (arith, i, string.zero_end))
  ])

  part_case :
      (bit : ℕ)
      → StringPart key new old t bit
      → Put
          (StringGrown key new)
          (some (new, string_apart key here bit new m))
          (root_of c)
          (plug c t)
          new
  unfolding string_apart
  part_case bit part = elim (cmp_bits-cases (key new) (key old) bit part.differs) [
    | inl (zn, oo, e) ↦
        rw (e, stored bit part) (left-Put (pos bit) (part_grown bit 1 part oo (inr (refl, zn))))
    | inr (on, zo, e) ↦
        rw (e, stored bit part) (right-Put (pos bit) (part_grown bit 0 part zo (inl (refl, on))))
  ]

  abbrev marked : Mem
  marked = set_parent here new m

  marked-Valid : Valid marked (root_of c) (some (plug c t))
  marked-Valid = set_parent-Valid m new root side c t cell v fresh

  module _ (same : Agrees key new t) where
    spine_grown :
        (c' : Ctx) (t' : Tree) (s : ℕ) → OnSpine c t c' t' → StringGrown key new c' t' (lower t') s
    spine_grown c' t' s on = string_spine key new room string c c' t t' s radix same on

    -- Beside the leaf with the string.
    leaf_case :
        is_leaf here ≡ true
        → Ends (
            if tag == 0
            then some (new, finish (negsuc 0) here new (put_right here new marked))
            else some (old, marked))
    leaf_case e = elim (Bool-cases (tag == 0)) [
      | inl z ↦ rw z (
          inl (
            right-Put (negsuc 0) (
              subst (λ k. StringGrown key new c t k 0)
                (sym (link_lower m (slot c) t (Site-of_Valid m c t v).holds e))
                (spine_grown c t 0 (OnSpine-self c t)))))
      | inr z ↦ rw z (
          inr (record {
            store = marked;
            old = old;
            runs = refl;
            same_key = SameString-sym (key old) (key new) (same old top_leaf);
            tagged = let i : tag ≢ 0 = ground arith in i;
            valid = marked-Valid;
            there = omega (arith, top_leaf, leaf_count-plug old c t);
          }))
    ]

    same_case : (k : ℕ) → Ends (ebst_attach key f tag (at_bit (negsuc k)) new m)
    unfolding ebst_attach
    same_case k = elim (Bool-cases (is_leaf here)) [
      | inl e ↦ rw e (leaf_case e)
      | inr e ↦ rw e (
          inl (
            dup_case (StringGrown key new) f m new c t e fuel v fresh
              (λ c' t' s zero_side on. spine_grown c' t' s on)))
    ]

  pub ebst_attach-Ends :
      (bit : Bit) → StringEnds key new t bit → Ends (ebst_attach key f tag (at_bit bit) new m)
  unfolding ebst_attach
  ebst_attach-Ends (pos bit) part = inl (part_case bit part)
  ebst_attach-Ends (negsuc k) same = same_case same k
