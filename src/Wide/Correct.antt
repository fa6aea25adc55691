-- ===== src/Wide/Correct.antt =====
-- The insertions of eb64tree.h as a whole.
use ebmbtreebench.Wide.{
  attach_leaf, attach_node, attach64, eb64_insert, eb64i_insert, Ptr, ℕ, Place, set_parent, is_leaf,
  finish, put_left, put_right, first_difference, bit_xor, signed_lt, fls64,
}
use ebmbtreebench.Wide.Put.{put_left-Put, put_right-Put}
use ebmbtreebench.Wide.Same.{set_parent-prepare}
use ebmbtreebench.Scalar.Whole.{dup_case, top_count, link_lower}
use ebmbtreebench.Scalar.Correct.{prepare-Valid, Inserted, Refused, Put}
use ebmbtreebench.Scalar.Insert.{insert-EndsWith, Inserted-of_Put}
use ebmbtreebench.Memory.{Ptr, Mem, Bit, eb_gettag, branch, negsuc, eb_rght}
use ebmbtreebench.Prelude.{
  ℕ, Bool, true, ◌+◌, ◌≡◌, ◌<◌, some, Option, Bool-cases, ◌⊎◌, ◌==◌, ◌≢◌, false, inl, sym, arith,
  inr, ==_iff, ltb, ◌^◌, refl, if◌then◌else◌, not,
}
use ebmbtreebench.Tree.{Ctx, Tree, height, slot, plug, root_of, Holds}
use ebmbtreebench.Tree.Valid.{Valid, Site-of_Valid}
use ebmbtreebench.Insert.Grown.{CanInsert}
use ebmbtreebench.Scalar.{Place, is_leaf}
use ebmbtreebench.Scalar.Descent.{top_of, Went, Stops}
use ebmbtreebench.Scalar.Between.{place_of}
use mathlib.Core.Path.{subst}
use ebmbtreebench.Tree.Count.{leaf_count-plug, node_count-le-plug}
use ebmbtreebench.Scalar.Placed.{Placed}
use ebmbtreebench.Dup.Append.{lower}
use ebmbtreebench.Fls.{fls64}
use ebmbtreebench.Dup.Spine.{OnSpine-self}

-- What the insertions need of their comparison: it is strict, and decides between two keys.
pub record IsLess (lt : ℕ → ℕ → Bool) (key : Ptr → ℕ) : Type 0 where
  pub strict : (a b : Ptr) → lt (key a) (key b) ≡ true → key a ≢ key b
  pub total : (a b : Ptr) → lt (key a) (key b) ≡ false → lt (key b) (key a) ≡ false → key a ≡ key b

module _ (key : Ptr → ℕ) (newkey : ℕ) (lt : ℕ → ℕ → Bool) (f tag : ℕ) (m : Mem) (new : Ptr)
    (root : Ptr) (side : ℕ) (c : Ctx) (t : Tree) (cell : root + side ≡ slot c)
    (fuel : height (plug c t) < f) (v : Valid m (root_of c) (some (plug c t)))
    (fresh : CanInsert new (root_of c) (some (plug c t))) (went : Went key (key new) newkey c)
    (stops : Stops key (key new) t) (less : IsLess lt key) where
  abbrev At : Ctx → Tree → Bit → ℕ → Type 0
  At = Placed key newkey fls64 (λ x y. not (lt x y)) new

  abbrev here : Place
  here = place_of root side t

  abbrev EndsSo : Option (Ptr × Mem) → Type 0
  EndsSo r = Put At r (root_of c) (plug c t) new ⊎ Refused key r tag (root_of c) (plug c t) new

  holds : Holds m (root + side) t
  holds = subst (λ q. Holds m q t) (sym cell) (Site-of_Valid m c t v).holds

  left_case :
      (k : Bit)
      → At c t k 1
      → EndsSo (some (new, finish k here new (put_left here new (set_parent here new m))))
  left_case k h = inl (put_left-Put m new root side c t cell v fresh At k h)

  right_case :
      (k : Bit)
      → At c t k 0
      → EndsSo (some (new, finish k here new (put_right here new (set_parent here new m))))
  right_case k h = inl (put_right-Put m new root side c t cell v fresh At k h)

  -- The new structure above a subtree with another key.
  new_above :
      (side' : ℕ)
      → key new ≢ key (top_of t)
      → side' ≡ (if not (lt (key new) (key (top_of t))) then 0 else 1)
      → At c t (first_difference (key new) (key (top_of t))) side'
  new_above side' ne e =
      inl (record { went = went; stops = stops; differs = ne; bit_is = refl; side_is = e })

  parent_Valid : Valid (set_parent here new m) (root_of c) (some (plug c t))
  parent_Valid =
      subst (λ n. Valid n (root_of c) (some (plug c t))) (set_parent-prepare here new m)
        (prepare-Valid m c t new here (m.bit new) v fresh)

  unique_case :
      (key new == key (top_of t)) ≡ true
      → (tag == 0) ≡ false
      → EndsSo (some (top_of t, set_parent here new m))
  unique_case e e' = inr (record {
    store = set_parent here new m;
    old = top_of t;
    runs = refl;
    same_key = (==_iff (key new) (key (top_of t))).0 e;
    tagged = let i : tag ≢ 0 = ground arith in i;
    valid = parent_Valid;
    there =
        omega
          (arith, top_count t, leaf_count-plug (top_of t) c t, node_count-le-plug (top_of t) c t);
  })

  leaf_case : negsuc 0 ≡ lower t → EndsSo (attach_leaf key lt tag here new m)
  unfolding attach_leaf
  leaf_case leaf_lower = elim (Bool-cases (lt (key new) (key (top_of t)))) [
    | inl e ↦
        rw (e, attach_leaf)
          (left_case (first_difference (key new) (key (top_of t)))
            (new_above 1 (less.strict new (top_of t) e) (rw e refl)))
    | inr e ↦ elim (Bool-cases (key new == key (top_of t))) [
      | inr e' ↦
          rw (e, e', attach_leaf)
            (right_case (first_difference (key new) (key (top_of t))) (
              new_above 0 (let ne : key new ≢ key (top_of t) = ground (arith, e') in ne)
                (rw e refl)))
      | inl e' ↦ elim (Bool-cases (tag == 0)) [
        | inl z ↦
            rw (e, e', z, attach_leaf)
              (right_case (negsuc 0) (
                inr (record {
                  from_at = c;
                  from_sub = t;
                  went = went;
                  stops = stops;
                  same = (==_iff _ _).0 e';
                  on = OnSpine-self c t;
                  bit_is = leaf_lower;
                  side_is = inl refl;
                })))
        | inr z ↦ rw (e, e', z, attach_leaf) (unique_case e' z)
      ]
    ]
  ]

  node_case : is_leaf here ≡ false → EndsSo (attach_node key lt f here new m)
  unfolding attach_node
  node_case n = elim (Bool-cases (lt (key new) (key (top_of t)))) [
    | inl e ↦
        rw (e, attach_node)
          (left_case (first_difference (key new) (key (top_of t)))
            (new_above 1 (less.strict new (top_of t) e) (rw e refl)))
    | inr e ↦ elim (Bool-cases (lt (key (top_of t)) (key new))) [
      | inl e' ↦
          rw (e, e', attach_node)
            (right_case (first_difference (key new) (key (top_of t)))
              (new_above 0 (λ same. less.strict (top_of t) new e' (sym same)) (rw e refl)))
      | inr e' ↦
          rw (e, e', attach_node)
            (inl (
              dup_case At f (set_parent here new m) new c t n fuel parent_Valid fresh
                (λ c' t' side' zero on. inr (record {
                  from_at = c;
                  from_sub = t;
                  went = went;
                  stops = stops;
                  same = less.total new (top_of t) e e';
                  on = on;
                  bit_is = refl;
                  side_is = inl zero;
                }))))
    ]
  ]

  pub attach64-EndsSo : EndsSo (attach64 key lt f tag here new m)
  unfolding attach64
  attach64-EndsSo = elim (Bool-cases (is_leaf here)) [
    | inl e ↦ rw (e, attach64) (leaf_case (link_lower m (root + side) t holds e))
    | inr e ↦ rw (e, attach64) (node_case e)
  ]

ltb-IsLess : (key : Ptr → ℕ) → IsLess ltb key
ltb-IsLess key = record {
  strict = λ a b e. let ne : key a ≢ key b = ground arith in ne;
  total = λ a b e e'. ground arith;
}

signed_lt-IsLess : (key : Ptr → ℕ) → IsLess signed_lt key
signed_lt-IsLess key = record {
  strict = λ a b e. let ne : key a ≢ key b = ground arith in ne;
  total = λ a b e e'. ground arith;
}

module _ (key : Ptr → ℕ) (f : ℕ) (m : Mem) (root new : Ptr) (t : Tree) (fuel : height t < f)
    (v : Valid m root (some t)) (fresh : CanInsert new root (some t)) where
  abbrev root_tag : ℕ
  root_tag = eb_gettag (branch m root eb_rght)

  -- The two insertions, with the places.
  pub eb64_insert-Put :
      Put
        (Placed key (key new) fls64 (λ x y. not (ltb x y)) new)
        (eb64_insert key f root new m)
        root
        t
        new
      ⊎ Refused key (eb64_insert key f root new m) root_tag root t new
  unfolding eb64_insert
  eb64_insert-Put =
      insert-EndsWith key (λ x. x) (attach64 key ltb f) f m root new
        (Placed key (key new) fls64 (λ x y. not (ltb x y)) new) t
        (λ r s c u cell i w g d st.
          attach64-EndsSo key (key new) ltb f root_tag m new r s c u cell i w g d st
            (ltb-IsLess key))
        fuel v fresh

  pub eb64i_insert-Put :
      Put
        (Placed key (bit_xor (key new) (2 ^ 63)) fls64 (λ x y. not (signed_lt x y)) new)
        (eb64i_insert key f root new m)
        root
        t
        new
      ⊎ Refused key (eb64i_insert key f root new m) root_tag root t new
  unfolding eb64i_insert
  eb64i_insert-Put =
      insert-EndsWith key (λ x. bit_xor x (2 ^ 63)) (attach64 key signed_lt f) f m root new
        (Placed key (bit_xor (key new) (2 ^ 63)) fls64 (λ x y. not (signed_lt x y)) new) t
        (λ r s c u cell i w g d st.
          attach64-EndsSo key (bit_xor (key new) (2 ^ 63)) signed_lt f root_tag m new r s c u cell i
            w g d st (signed_lt-IsLess key))
        fuel v fresh

-- The insertion with unsigned 64-bit keys of a structure that is in no role, with fuel above the
-- height of the valid tree `t` below `root`, ends in one of two ways. It returns the structure,
-- and the store has a valid tree in which it is a new leaf among the leaves of `t`, which keep
-- their order. Or it returns a structure of `t` with the same key, the root is tagged as unique,
-- and the store still has the valid tree `t`.
pub eb64_insert-Ends :
    (key : Ptr → ℕ) (f : ℕ) (m : Mem) (root new : Ptr) (t : Tree)
    → height t < f
    → Valid m root (some t)
    → CanInsert new root (some t)
    → Inserted (eb64_insert key f root new m) root t new
      ⊎ Refused key (eb64_insert key f root new m) (eb_gettag (branch m root eb_rght)) root t new
eb64_insert-Ends key f m root new t fuel v fresh =
    Inserted-of_Put (eb64_insert-Put key f m root new t fuel v fresh)
