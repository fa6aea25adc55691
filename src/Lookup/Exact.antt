-- ===== src/Lookup/Exact.antt =====
-- In a tree whose leaves lie where its nodes say, a lookup finds a key that is there.
use ebmbtreebench.Prelude.{
  ℕ, zero, suc, Bool, some, ◌≡◌, ◌≢◌, ◌<◌, ◌+◌, ◌/◌, ◌%◌, ◌^◌, ◌==◌, leb, arith, refl, inl, inr,
  Bool-cases, ==_iff, ap, sym, ◌∙◌, true, false,
}
use ebmbtreebench.Memory.{Ptr, Mem, Bit, pos, negsuc, null, eb_gettag}
use ebmbtreebench.Tree.{Tree, leaf, node, height, Holds, Rooted, first}
use ebmbtreebench.Tree.Count.{leaf_count, one_if_self}
use ebmbtreebench.Tree.Valid.{ℕ-cases}
use ebmbtreebench.Walk.Down.{untag-leaf, walk_down-first}
use ebmbtreebench.Walk.Step.{link-nonnull}
use ebmbtreebench.Lookup.{lookup, lookup_from, shift}
use ebmbtreebench.Lookup.Sound.{first_count, lookup_from-node, pass}
use ebmbtreebench.Order.{IsRadix}
use ebmbtreebench.Order.Insert.{IsTurn}
use ebmbtreebench.Fls.Xor.{equal_of_xor}
use ebmbtreebench.Fls.Shift.{xor_self}
use Prim.Native.Nat.{bit_xor}
use ebmbtreebench.Lookup.Sides.{Exact, widen-Exact, far-none, side-left, side-rght, dups-key}

module _ (w : ℕ) (turn fls : ℕ → ℕ) (ge : ℕ → ℕ → Bool) (h : IsTurn w turn fls ge) (key : Ptr → ℕ)
    (width : (y : Ptr) → key y < 2 ^ w) (x : ℕ) (small : x < 2 ^ w) where
  abbrev ord : Ptr → ℕ
  ord y = turn (key y)

  module _ (shift_neg : ℕ → ℕ → ℕ) (m : Mem) where
    abbrev Finds : ℕ → Tree → ℕ → Type 0
    Finds f t p = Exact key x t (lookup_from shift_neg key x (turn x) f m (m.b p))

    abbrev Passes : ℕ → Ptr → Bit → Tree → Type 0
    Passes f a k t = Exact key x t (pass shift_neg key x (turn x) m f a k)

    leaf-Exact : (f : ℕ) (a : Ptr) (p : ℕ) → Holds m p (leaf a) → Finds (suc f) (leaf a) p
    unfolding lookup_from leaf_count
    leaf-Exact f a p t =
        let e : (eb_gettag (a + 0) == 0) ≡ true = let i = t.2 in ground arith in
        rw t.0 (
          rw (e, lookup_from)
            (rw (untag-leaf a) (elim (Bool-cases (key a == x)) [
              | inl hit ↦ rw hit (record {
                found = a;
                runs = refl;
                right = inr ((==_iff (key a) x).0 hit, omega (arith, one_if_self a));
              })
              | inr miss ↦ rw miss (record {
                found = null;
                runs = refl;
                right = inl (
                  refl,
                  λ y i e'. let q : y ≡ a = ground arith in absurd (ground (arith, miss, ap key q)),
                );
              })
            ])))

    module _ (f : ℕ) (a : Ptr) (l r : Tree) (room : height l < f) (left : Finds f l (a + 0))
        (rght : Finds f r (a + 1)) where
      pass-pos :
          (n : ℕ) → IsRadix ord (node a (pos n) l r) → Passes f a (pos n) (node a (pos n) l r)
      unfolding leaf_count
      pass-pos n g = elim (Bool-cases (bit_xor (key a) x == 0)) [
        | inl e ↦ rw e (record {
          found = a;
          runs = refl;
          right = inr (equal_of_xor (key a) x ((==_iff (bit_xor (key a) x) 0).0 e), g.2);
        })
        | inr e ↦ elim (Bool-cases (leb 2 (bit_xor (key a) x / 2 ^ n))) [
          | inl far ↦
              rw (e, far)
                (record {
                  found = null;
                  runs = refl;
                  right = inl (refl, far-none w turn fls ge h key width x small a n l r g far);
                })
          | inr near ↦
              rw (e, near)
                (elim (ℕ-cases (turn x / 2 ^ n % 2)) [
                  | inl s ↦ rw s (
                      widen-Exact key x l (node a (pos n) l r)
                        (lookup_from shift_neg key x (turn x) f m (m.b (a + 0))) (λ y. omega arith)
                        (side-left w turn fls ge h key width x small a n l r g s) left)
                  | inr i ↦
                      let s : turn x / 2 ^ n % 2 ≡ 1 = omega arith in
                      rw s (
                        widen-Exact key x r (node a (pos n) l r)
                          (lookup_from shift_neg key x (turn x) f m (m.b (a + 1)))
                          (λ y. omega arith)
                          (side-rght w turn fls ge h key width x small a n l r g s) rght)
                ])
        ]
      ]

      -- Below a tree of duplicates of another key it does not matter where the lookup goes.
      pass-other :
          (n side : ℕ)
          → side < 2
          → IsRadix ord (node a (negsuc n) l r)
          → key a ≢ x
          → Exact key x
              (node a (negsuc n) l r)
              (lookup_from shift_neg key x (turn x) f m (m.b (a + side)))
      unfolding leaf_count
      pass-other n side i g ne =
          let none_has = λ (y : Ptr) (c : 0 < leaf_count y (node a (negsuc n) l r)) (e : key y ≡ x).
            ne (sym (dups-key w turn fls ge h key width x small a n l r g y c) ∙ e) in
          elim (ℕ-cases side) [
            | inl z ↦ rw z (
                widen-Exact key x l (node a (negsuc n) l r)
                  (lookup_from shift_neg key x (turn x) f m (m.b (a + 0))) (λ y. omega arith)
                  (λ y c e. absurd (none_has y c e)) left)
            | inr p ↦
                let one : side ≡ 1 = omega arith in
                rw one (
                  widen-Exact key x r (node a (negsuc n) l r)
                    (lookup_from shift_neg key x (turn x) f m (m.b (a + 1))) (λ y. omega arith)
                    (λ y c e. absurd (none_has y c e)) rght)
          ]

      pass-negsuc :
          (n : ℕ)
          → Holds m (a + 0) l
          → IsRadix ord (node a (negsuc n) l r)
          → Passes f a (negsuc n) (node a (negsuc n) l r)
      unfolding leaf_count
      pass-negsuc n t g = elim (Bool-cases (bit_xor (key a) x == 0)) [
        | inl e ↦
            let same = equal_of_xor (key a) x ((==_iff (bit_xor (key a) x) 0).0 e) in
            let i = first_count l in
            rw e (record {
              found = first l;
              runs = walk_down-first m f l (a + 0) room t;
              right = inr (
                dups-key w turn fls ge h key width x small a n l r g (first l) (omega arith) ∙ same,
                omega arith,
              );
            })
        | inr e ↦
            let ne : key a ≢ x =
              λ q. absurd (ground (arith, e, ap (λ z. bit_xor z x) q, xor_self x)) in
            elim (Bool-cases (leb 2 (shift shift_neg (bit_xor (key a) x) (negsuc n)))) [
              | inl far ↦
                  rw (e, far)
                    (record {
                      found = null;
                      runs = refl;
                      right = inl (
                        refl,
                        λ y c q.
                            ne (sym (dups-key w turn fls ge h key width x small a n l r g y c) ∙ q),
                      );
                    })
              | inr near ↦
                  rw (e, near)
                    (pass-other n (shift shift_neg (turn x) (negsuc n) % 2) (omega arith) g ne)
            ]
      ]

    lookup_from-Exact :
        (f : ℕ) (t : Tree) (p : ℕ) → height t < f → Holds m p t → IsRadix ord t → Finds f t p
    unfolding height
    lookup_from-Exact zero t p fuel hold g = absurd (omega arith)
    lookup_from-Exact (suc f) (leaf a) p fuel hold g = leaf-Exact f a p hold
    lookup_from-Exact (suc f) (node a (pos n) l r) p fuel hold g =
        rw (hold.0, lookup_from-node shift_neg key x (turn x) m f a hold.3, hold.2)
          (pass-pos f a l r (omega arith) (lookup_from-Exact f l (a + 0) (omega arith) hold.4 g.3)
            (lookup_from-Exact f r (a + 1) (omega arith) hold.5 g.4) n g)
    lookup_from-Exact (suc f) (node a (negsuc n) l r) p fuel hold g =
        rw (hold.0, lookup_from-node shift_neg key x (turn x) m f a hold.3, hold.2)
          (pass-negsuc f a l r (omega arith)
            (lookup_from-Exact f l (a + 0) (omega arith) hold.4 g.3)
            (lookup_from-Exact f r (a + 1) (omega arith) hold.5 g.4) n hold.4 g)

    -- Take a tree whose leaves lie where its nodes say by the rank `turn` of their keys, keys of at
    -- most `w` bits, and fuel above the height of the tree. For every key `x` of as many bits the
    -- lookup ends. It returns a leaf with the key `x` where there is one, and NULL where there is
    -- none, whatever a shift by a negative count gives.
    pub lookup-Exact :
        (f : ℕ) (root : Ptr) (t : Tree)
        → height t < f
        → Rooted m root (some t)
        → IsRadix ord t
        → Exact key x t (lookup shift_neg key turn f m root x)
    unfolding lookup
    lookup-Exact f root t fuel hold g =
        let linked : (m.b (root + 0) == null) ≡ false =
          let i = link-nonnull m t (root + 0) hold.1 in ground arith in
        rw linked (lookup_from-Exact f t (root + 0) fuel hold.1 g)
