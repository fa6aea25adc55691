-- ===== src/Blocks/Found.antt =====
-- `__ebmb_lookup` finds the first leaf whose block starts with the bytes looked for.
use ebmbtreebench.Prelude.{
  ℕ, suc, true, false, Option, some, ◌≡◌, ◌<◌, ◌≤◌, ◌+◌, ◌-◌, ◌*◌, arith, refl, sym, ◌∙◌, inl, inr,
  Bool-cases, leb, ◌/◌, ◌^◌, ap, zero, ◌==◌, if◌then◌else◌, ◌%◌,
}
use ebmbtreebench.Memory.{Ptr, Mem, Bit, negsuc, pos, null}
use ebmbtreebench.Tree.{Tree, leaf, node, height, Holds, first, Rooted}
use ebmbtreebench.Tree.Count.{leaf_count, one_if_self}
use ebmbtreebench.Lookup.Sound.{first_count}
use ebmbtreebench.Walk.Down.{untag-leaf, untag-node, node_tag, leaf_tag}
use ebmbtreebench.Bytes.{Bytes}
use ebmbtreebench.Blocks.{
  is_match, walk_left, ebmb_lookup_from, pos, leb, null, bit_xor, Stride, reached, ebmb_lookup,
  stride_to, mismatch, matched,
}
use ebmbtreebench.Blocks.Reach.{SameBytes, stride_to-IsStride, StrideRight}
use ebmbtreebench.Blocks.Order.{IsBlockRadix, dups-IsCommon}
use ebmbtreebench.Blocks.Lookup.{
  IsMemcmp, StartsWith, BlockFound, walk_left-first, match_true, match_false, absent_null, at_first,
  common_bytes, join_bytes, bit_of_x,
}
use ebmbtreebench.Blocks.Sides.{
  with_a, mismatch-Found, far-Found, left-Found, rght-Found, more_bytes, bit_after,
}
use mathlib.Core.Path.{subst}
use ebmbtreebench.Tree.Valid.{ℕ-cases}
use ebmbtreebench.Walk.Step.{link-nonnull}

module _ (memcmp : Bytes → Bytes → ℕ → Bit) (right : IsMemcmp memcmp) (key : Ptr → Bytes)
    (bytes : (y : Ptr) (i : ℕ) → key y i < 256) (x : Bytes) (bytes_x : (i : ℕ) → x i < 256)
    (width total : ℕ) (room : total ≤ width) (m : Mem) where
  abbrev Starts : Ptr → Type 0
  Starts y = StartsWith key x total y

  abbrev Found : Tree → Option Ptr → Type 0
  Found t r = BlockFound key x total t r

  abbrev Shares : ℕ → Tree → Type 0
  Shares p t = (y : Ptr) → 0 < leaf_count y t → SameBytes (key y) x 0 p

  abbrev w : ℕ
  w = width * 8

  -- `memcmp` finds the rest of the bytes equal.
  rest_same :
      (a : Ptr) (len p : ℕ)
      → p + len ≡ total
      → SameBytes (key a) x 0 p
      → is_match memcmp (key a) x len p ≡ true
      → Starts a
  rest_same a len p sum h e =
      join_bytes key bytes x bytes_x width total room a p total h (λ i lo hi.
        subst (λ j. key a j ≡ x j) (let q : p + (i - p) ≡ i = omega arith in q)
          (match_true memcmp right (key a) x len p e (i - p) (omega arith)))

  rest_differs :
      (a : Ptr) (len p : ℕ) → p + len ≡ total → is_match memcmp (key a) x len p ≡ false → ¬ Starts a
  rest_differs a len p sum e h =
      match_false memcmp right (key a) x len p e (λ i lt. h (p + i) (omega arith) (omega arith))

  abbrev Finds : ℕ → Tree → ℕ → ℕ → ℕ → Type 0
  Finds f t q len p = Found t (ebmb_lookup_from memcmp key x f m (m.b q) len p)

  leaf-Found :
      (f : ℕ) (a : Ptr) (q len p : ℕ)
      → Holds m q (leaf a)
      → p + len ≡ total
      → Shares p (leaf a)
      → Finds (suc f) (leaf a) q len p
  unfolding ebmb_lookup_from leaf_count first
  leaf-Found f a q len p h sum shares = rw h.0 (
      rw (leaf_tag h.2, ebmb_lookup_from)
        (rw (untag-leaf a) (elim (Bool-cases (is_match memcmp (key a) x len p)) [
          | inl e ↦ rw e (
              at_first key bytes x bytes_x width total room (leaf a) (some a) refl
                (rest_same a len p sum (shares a (omega (arith, one_if_self a))) e))
          | inr e ↦ rw e (
              absent_null key bytes x bytes_x width total room (leaf a) (λ y i s.
                rest_differs a len p sum e (subst Starts (let z : y ≡ a = ground arith in z) s)))
        ])))

  module _ (f : ℕ) (a : Ptr) (l r : Tree) (fuel : height l < f) (hl : Holds m (a + 0) l) where
    leftmost : walk_left f m (m.b (a + 0)) ≡ some (first l)
    leftmost = walk_left-first m f l (a + 0) fuel hl

    -- Where the node's block starts with the bytes and all leaves share them.
    leftmost-Found :
        (k : Bit) (n : ℕ)
        → ((y : Ptr) → 0 < leaf_count y (node a k l r) → SameBytes (key y) (key a) 0 total)
        → Starts a
        → Found (node a k l r) (walk_left f m (m.b (a + 0)))
    unfolding first leaf_count
    leftmost-Found k n common h =
        at_first key bytes x bytes_x width total room (node a k l r) (walk_left f m (m.b (a + 0)))
          leftmost
          (λ i lo hi. common (first l) (let c = first_count l in omega arith) i lo hi ∙ h i lo hi)

    dups-Found :
        (n q len p : ℕ)
        → Holds m q (node a (negsuc n) l r)
        → IsBlockRadix key w (node a (negsuc n) l r)
        → p + len ≡ total
        → Shares p (node a (negsuc n) l r)
        → Finds (suc f) (node a (negsuc n) l r) q len p
    unfolding ebmb_lookup_from leaf_count
    dups-Found n q len p h g sum shares =
        let common = λ (y : Ptr) (i : 0 < leaf_count y (node a (negsuc n) l r)).
          common_bytes key bytes x bytes_x width total room a y w total
            (dups-IsCommon key w a n l r g y i) (omega arith) in
        rw h.0 (
          rw (node_tag h.3, ebmb_lookup_from)
            (rw (untag-node a, h.2)
              (rw (untag-node a) (elim (Bool-cases (is_match memcmp (key a) x len p)) [
                | inl e ↦
                    rw e
                      (leftmost-Found (negsuc n) n common (rest_same a len p sum (shares a g.2) e))
                | inr e ↦ rw e (
                    absent_null key bytes x bytes_x width total room (node a (negsuc n) l r)
                      (λ y i s.
                        rest_differs a len p sum e
                          (λ j lo hi. sym (common y i j lo hi) ∙ s j lo hi)))
              ]))))

    -- What the lookup does with the outcome of the inner loop, at the structure `b`.
    abbrev after_stride_at : Ptr → Stride → Option Ptr
    after_stride_at b s = elim s [
      | mismatch ↦ some null
      | matched ↦ walk_left f m (m.b (b + 0))
      | reached p' len' d ↦
          if leb 2 (bit_xor (key b p' / 2 ^ d) (x p' / 2 ^ d))
          then some null
          else ebmb_lookup_from memcmp key x f m (m.b (b + x p' / 2 ^ d % 2)) len' p'
    ]

    abbrev after_stride : Stride → Option Ptr
    after_stride s = after_stride_at a s

    runs_stride :
        (n q len p : ℕ) (s : Stride)
        → Holds m q (node a (pos n) l r)
        → stride_to (key a) x len p n ≡ some s
        → ebmb_lookup_from memcmp key x (suc f) m (m.b q) len p ≡ after_stride s
    unfolding ebmb_lookup_from
    runs_stride n q len p s h e = rw h.0 (
        rw (node_tag h.3, ebmb_lookup_from)
          (rw (untag-node a, h.2)
            (rw (untag-node a, e) (ap (λ b. after_stride_at b s) (untag-node a)))))

    -- The lookup in the branches of the node.
    module _ (left : (len p : ℕ) → p + len ≡ total → 0 < len → Shares p l → Finds f l (a + 0) len p)
        (rght : (len p : ℕ) → p + len ≡ total → 0 < len → Shares p r → Finds f r (a + 1) len p)
        (n : ℕ) (g : IsBlockRadix key w (node a (pos n) l r)) where
      abbrev here : Tree
      here = node a (pos n) l r

      reached-Found :
          (p' len' d : ℕ)
          → p' + len' ≡ total
          → 0 < len'
          → p' * 8 ≤ n
          → d + n ≡ p' * 8 + 7
          → Shares p' here
          → Found here (after_stride (reached p' len' d))
      unfolding leaf_count
      reached-Found p' len' d sum more lo at shares =
          let bit = bit_of_x key bytes x bytes_x width total room n p' d lo at in
          let lt : n / 8 < total = omega arith in
          elim (Bool-cases (leb 2 (bit_xor (key a p' / 2 ^ d) (x p' / 2 ^ d)))) [
            | inl far ↦ rw far (
                far-Found key bytes x bytes_x width total room a l r n g p' d (omega arith) lo at
                  far)
            | inr near ↦ rw near (elim (ℕ-cases (x p' / 2 ^ d % 2)) [
              | inl z ↦ rw z (
                  left-Found key bytes x bytes_x width total room a l r n g
                    (ebmb_lookup_from memcmp key x f m (m.b (a + 0)) len' p') lt (bit ∙ z)
                    (left len' p' sum more (λ y i. shares y (omega arith))))
              | inr i ↦
                  let one : x p' / 2 ^ d % 2 ≡ 1 = omega arith in
                  rw one (
                    rght-Found key bytes x bytes_x width total room a l r n g
                      (ebmb_lookup_from memcmp key x f m (m.b (a + 1)) len' p') lt (bit ∙ one)
                      (rght len' p' sum more (λ y i. shares y (omega arith))))
            ])
          ]

      stride-Found :
          (len p : ℕ) (s : Stride)
          → p + len ≡ total
          → Shares p here
          → StrideRight (key a) x p len n s
          → Found here (after_stride s)
      unfolding leaf_count
      stride-Found len p mismatch sum shares d =
          mismatch-Found key bytes x bytes_x width total room a l r n g d.byte d.before
            (omega (arith, d.within)) d.differs
      stride-Found len p matched sum shares (le, same) =
          leftmost-Found (pos n) n
            (with_a key bytes x bytes_x width total room a l r n g total (omega arith))
            (join_bytes key bytes x bytes_x width total room a p total (shares a g.2)
              (λ i lo hi. same i lo (omega arith)))
      stride-Found len p (reached p' len' d) sum shares (sum', more, up, lo, at, same) =
          reached-Found p' len' d (omega arith) more lo at
            (more_bytes key bytes x bytes_x width total room a l r n g p p' lo (shares a g.2) same)

      node-Found :
          (q len p : ℕ)
          → Holds m q here
          → p + len ≡ total
          → 0 < len
          → Shares p here
          → Finds (suc f) here q len p
      node-Found q len p h sum more shares =
          let after = bit_after key bytes x bytes_x width total room a l r n g p shares in
          let s = stride_to-IsStride (key a) x n len p more after in
          subst (Found here) (sym (runs_stride n q len p s.outcome h s.runs))
            (stride-Found len p s.outcome sum shares s.right)

  ebmb_lookup_from-Found :
      (f : ℕ) (t : Tree) (q len p : ℕ)
      → height t < f
      → Holds m q t
      → IsBlockRadix key w t
      → p + len ≡ total
      → 0 < len
      → Shares p t
      → Finds f t q len p
  unfolding height
  ebmb_lookup_from-Found zero t q len p fuel h g sum more shares = absurd (omega arith)
  ebmb_lookup_from-Found (suc f) (leaf a) q len p fuel h g sum more shares =
      leaf-Found f a q len p h sum shares
  ebmb_lookup_from-Found (suc f) (node a (negsuc n) l r) q len p fuel h g sum more shares =
      dups-Found f a l r (omega arith) h.4 n q len p h g sum shares
  ebmb_lookup_from-Found (suc f) (node a (pos n) l r) q len p fuel h g sum more shares =
      node-Found f a l r (omega arith) h.4
        (λ len' p' e i s. ebmb_lookup_from-Found f l (a + 0) len' p' (omega arith) h.4 g.3 e i s)
        (λ len' p' e i s. ebmb_lookup_from-Found f r (a + 1) len' p' (omega arith) h.5 g.4 e i s) n
        g q len p h sum more shares

  -- Take keys of bytes, a `memcmp` that gives 0 exactly where the bytes are equal, a tree whose
  -- leaves lie where its nodes say in the first `width` bytes of their keys, and fuel above the
  -- height of the tree. For a block of at most `width` bytes the lookup ends. It returns the first
  -- leaf, in the order of the tree, whose key starts with the block, and NULL where there is none.
  pub ebmb_lookup-Found :
      (f : ℕ) (root : Ptr) (t : Tree)
      → height t < f
      → Rooted m root (some t)
      → IsBlockRadix key w t
      → Found t (ebmb_lookup memcmp key f m root x total)
  unfolding ebmb_lookup
  ebmb_lookup-Found f root t fuel h g =
      let linked : (m.b (root + 0) == null) ≡ false =
        let i = link-nonnull m t (root + 0) h.1 in ground arith in
      rw linked (elim (Bool-cases (total == 0)) [
        | inl z ↦
            let none_left : total ≡ 0 = ground arith in
            rw z (
              at_first key bytes x bytes_x width total room t (walk_left f m (m.b (root + 0)))
                (walk_left-first m f t (root + 0) fuel h.1) (λ i lo hi. absurd (omega arith)))
        | inr nz ↦ rw nz (
            ebmb_lookup_from-Found f t (root + 0) total 0 fuel h.1 g (omega arith)
              (ground (arith, nz)) (λ y i j lo hi. absurd (omega arith)))
      ])
