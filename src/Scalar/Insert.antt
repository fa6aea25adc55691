-- ===== src/Scalar/Insert.antt =====
-- The insertions of eb32tree.h, in an empty tree and in any other.
use ebmbtreebench.Scalar.{
  Place, attach, insert, eb32_insert, eb32i_insert, Option, Ptr, shift_sign, signed_ge, flsnz,
}
use ebmbtreebench.Scalar.Correct.{Inserted, Refused, Put}
use ebmbtreebench.Scalar.Between.{place_of}
use ebmbtreebench.Scalar.Descent.{top_of, descend-Descends, Went, Stops}
use ebmbtreebench.Scalar.Whole.{attach-Ends}
use ebmbtreebench.Prelude.{
  Option, ℕ, ◌≡◌, some, ◌⊎◌, ◌+◌, ◌<◌, ◌==◌, none, false, sym, refl, arith, ap, leb, ◌≢◌, ◌∙◌, inl,
  inr,
}
use ebmbtreebench.Memory.{
  Ptr, Mem, eb_gettag, branch, eb_rght, null, set_node_p, set_leaf_p, eb_dotag, eb_left, set_b,
  eb_leaf, update_self, eb_clrtag, update_ne, Bit,
}
use ebmbtreebench.Tree.Valid.{leaves_in, Valid, nodes_in}
use ebmbtreebench.Tree.{Tree, link, Holds, plug, leaf, height, top, root_of, Ctx, slot}
use ebmbtreebench.Tree.Count.{leaf_count, node_count}
use ebmbtreebench.Insert.Grown.{CanInsert}
use mathlib.Core.Path.{subst}
use ebmbtreebench.Walk.Step.{link-nonnull}
use ebmbtreebench.Scalar.Placed.{Placed}
use ebmbtreebench.Fls.{flsnz}

-- The structure is the only leaf of the tree.
pub record First (result : Option (Ptr × Mem)) (root new : Ptr) : Type 0 where
  pub store : Mem
  pub runs : result ≡ some (new, store)
  pub valid : Valid store root (some (leaf new))

-- The writes into an empty tree.
pub only_leaf :
    (m : Mem) (root new : Ptr)
    → Valid m root none
    → CanInsert new root none
    → First
        (some (
          new,
          set_node_p new null (
              set_leaf_p new (eb_dotag root eb_left) (set_b root eb_left (eb_dotag new eb_leaf) m)),
        ))
        root
        new
unfolding leaves_in nodes_in leaf_count node_count
only_leaf m root new v fresh = record {
  store =
      set_node_p new null
        (set_leaf_p new (eb_dotag root eb_left) (set_b root eb_left (eb_dotag new eb_leaf) m));
  runs = refl;
  valid = record {
    rooted = (
      (
        ap eb_clrtag (update_ne m.b (new + 0) (let n : root + 1 ≢ root + 0 = omega arith in n))
            ∙ v.rooted.0.0,
        v.rooted.0.1,
      ),
      (update_self m.b (root + 0) (new + 0), update_self m.leaf_p new (root + 0), fresh.addr),
    );
    nodes = λ x. omega (arith, v.nodes x);
    leaves = λ x. ground arith;
    unused = λ x i e. ground arith;
  };
}

module _ (key : Ptr → ℕ) (turn : ℕ → ℕ) (ending : ℕ → Place → Ptr → Mem → Option (Ptr × Mem))
    (f : ℕ) (m : Mem) (root new : Ptr) where
  pub insert-First :
      Valid m root none
      → CanInsert new root none
      → First (insert key turn ending f root new m) root new
  unfolding insert
  insert-First v fresh = rw (v.rooted.1) (only_leaf m root new v fresh)

  module _ (P : Ctx → Tree → Bit → ℕ → Type 0) (t : Tree) where
    abbrev tag : ℕ
    tag = eb_gettag (branch m root eb_rght)

    abbrev EndsWith : Ptr → Tree → Option (Ptr × Mem) → Type 0
    EndsWith r u result = Put P result r u new ⊎ Refused key result tag r u new

    place_eq :
        (p : Place) (u : Tree) → p.troot ≡ link u → p.old ≡ top_of u → p ≡ place_of p.root p.side u
    place_eq p u e e' = λ i. record { root = p.root; side = p.side; troot = e i; old = e' i }

    nonempty : Holds m (root + 0) t → (m.b (root + 0) == null) ≡ false
    nonempty h = let i = link-nonnull m t (root + 0) h in ground arith

    -- What an ending has to do at every slot of a valid tree.
    abbrev EndsRight : Type 0
    EndsRight =
        (r : Ptr) (side : ℕ) (c : Ctx) (u : Tree)
        → r + side ≡ slot c
        → height (plug c u) < f
        → Valid m (root_of c) (some (plug c u))
        → CanInsert new (root_of c) (some (plug c u))
        → Went key (key new) (turn (key new)) c
        → Stops key (key new) u
        → EndsWith (root_of c) (plug c u) (ending tag (place_of r side u) new m)

    pub insert-EndsWith :
        EndsRight
        → height t < f
        → Valid m root (some t)
        → CanInsert new root (some t)
        → EndsWith root t (insert key turn ending f root new m)
    unfolding insert plug
    insert-EndsWith ends fuel v fresh =
        let d =
          descend-Descends key (key new) (turn (key new)) m root t f (top root) t root 0 fuel
            v.rooted.1 refl refl refl tt in
        let p = d.result in
        let s = d.spot in
        let v' : Valid m (root_of s.at) (some (plug s.at s.sub)) =
          subst (λ r. Valid m r (some (plug s.at s.sub))) (sym s.base)
            (subst (λ u. Valid m root (some u)) (sym s.whole) v) in
        let fresh' : CanInsert new (root_of s.at) (some (plug s.at s.sub)) =
          subst (λ r. CanInsert new r (some (plug s.at s.sub))) (sym s.base)
            (subst (λ u. CanInsert new root (some u)) (sym s.whole) fresh) in
        let out =
          ends p.root p.side s.at s.sub s.cell (subst (λ u. height u < f) (sym s.whole) fuel) v'
            fresh' s.went s.stops in
        let there = place_of p.root p.side s.sub in
        rw (nonempty v.rooted.1, d.runs)
          (subst (λ q. EndsWith root t (ending tag q new m))
            (sym (place_eq p s.sub s.link_is s.old_is))
            (subst (λ u. EndsWith root u (ending tag there new m)) s.whole
              (subst (λ r. EndsWith r (plug s.at s.sub) (ending tag there new m)) s.base out)))

-- Inserting a structure that is in no role into an empty tree makes it the only leaf of a valid
-- tree, with unsigned keys.
eb32_insert-First :
    (key : Ptr → ℕ) (f : ℕ) (m : Mem) (root new : Ptr)
    → Valid m root none
    → CanInsert new root none
    → First (eb32_insert key f root new m) root new
unfolding eb32_insert
eb32_insert-First key f m root new v fresh =
    insert-First key (λ x. x) (attach key (λ x y. leb y x) f) f m root new v fresh

-- What is known of a place is dropped.
pub Inserted-of_Put :
    {key : Ptr → ℕ} {P : Ctx → Tree → Bit → ℕ → Type 0} {r : Option (Ptr × Mem)} {tag : ℕ}
    {root : Ptr} {t : Tree} {new : Ptr}
    → Put P r root t new ⊎ Refused key r tag root t new
    → Inserted r root t new ⊎ Refused key r tag root t new
Inserted-of_Put (inl h) = inl h.inserted
Inserted-of_Put (inr h) = inr h

module _ (key : Ptr → ℕ) (f : ℕ) (m : Mem) (root new : Ptr) (t : Tree) (fuel : height t < f)
    (v : Valid m root (some t)) (fresh : CanInsert new root (some t)) where
  abbrev root_tag : ℕ
  root_tag = eb_gettag (branch m root eb_rght)

  -- The two insertions, with the places.
  pub eb32_insert-Put :
      Put
        (Placed key (key new) flsnz (λ x y. leb y x) new)
        (eb32_insert key f root new m)
        root
        t
        new
      ⊎ Refused key (eb32_insert key f root new m) root_tag root t new
  unfolding eb32_insert
  eb32_insert-Put =
      insert-EndsWith key (λ x. x) (attach key (λ x y. leb y x) f) f m root new
        (Placed key (key new) flsnz (λ x y. leb y x) new) t
        (attach-Ends key (key new) (λ x y. leb y x) f root_tag m new) fuel v fresh

  pub eb32i_insert-Put :
      Put
        (Placed key (shift_sign (key new)) flsnz signed_ge new)
        (eb32i_insert key f root new m)
        root
        t
        new
      ⊎ Refused key (eb32i_insert key f root new m) root_tag root t new
  unfolding eb32i_insert
  eb32i_insert-Put =
      insert-EndsWith key shift_sign (attach key signed_ge f) f m root new
        (Placed key (shift_sign (key new)) flsnz signed_ge new) t
        (attach-Ends key (shift_sign (key new)) signed_ge f root_tag m new) fuel v fresh

-- The insertion with unsigned keys of a structure that is in no role, with fuel above the height
-- of the valid tree `t` below `root`, ends in one of two ways. It returns the structure, and the
-- store has a valid tree in which it is a new leaf among the leaves of `t`, which keep their
-- order. Or it returns a structure of `t` with the same key, the root is tagged as unique, and
-- the store still has the valid tree `t`.
pub eb32_insert-Ends :
    (key : Ptr → ℕ) (f : ℕ) (m : Mem) (root new : Ptr) (t : Tree)
    → height t < f
    → Valid m root (some t)
    → CanInsert new root (some t)
    → Inserted (eb32_insert key f root new m) root t new
      ⊎ Refused key (eb32_insert key f root new m) (eb_gettag (branch m root eb_rght)) root t new
eb32_insert-Ends key f m root new t fuel v fresh =
    Inserted-of_Put (eb32_insert-Put key f m root new t fuel v fresh)
