-- ===== src/Scalar/Whole.antt =====
-- An insertion as a whole: the descent, then one of its ends.
use ebmbtreebench.Scalar.{
  Place, prepare, put_between, attach, Ptr, ℕ, is_leaf, eb_insert_dup, flsnz, bit_xor,
}
use ebmbtreebench.Scalar.Correct.{Refused, prepare-Valid, between-Put}
use ebmbtreebench.Scalar.Between.{place_of, prepare_twice}
use ebmbtreebench.Scalar.Descent.{top_of, Went, Stops}
use ebmbtreebench.Dup.Correct.{eb_insert_dup-Inserts}
use ebmbtreebench.Tree.{
  height, depth, plug, Tree, Ctx, top, leaf, slot, in_left, root_of, node, in_rght, leaves, link,
  before, after, Holds,
}
use ebmbtreebench.Tree.Count.{
  leaf_count, node_count, one_if_self, leaf_count-plug, node_count-le-plug,
}
use ebmbtreebench.Memory.{Ptr, Mem, negsuc, pos, eb_gettag, eb_leaf, Bit}
use ebmbtreebench.Prelude.{
  ℕ, Bool, ◌<◌, ◌≡◌, ◌+◌, arith, some, Option, ◌==◌, ◌⊎◌, false, true, if◌then◌else◌, inl, inr, ap,
  ==_iff, ◌≢◌, ◌-◌, refl, Bool-cases, ◌++◌, ◌∙◌, sym,
}
use ebmbtreebench.Tree.Valid.{Valid, Site-of_Valid}
use ebmbtreebench.Insert.Grown.{CanInsert}
use ebmbtreebench.Dup.{eb_insert_dup}
use ebmbtreebench.Fls.{flsnz}
use mathlib.Core.List.{append_assoc}
use ebmbtreebench.Tree.Plug.{leaves-plug}
use ebmbtreebench.Dup.Spine.{OnSpine, OnSpine-self}
use ebmbtreebench.Dup.Append.{lower}
use ebmbtreebench.Scalar.Correct.{Put}
use ebmbtreebench.Scalar.Placed.{Placed}
use mathlib.Core.Path.{subst}

height-plug : (c : Ctx) (t : Tree) → height (plug c t) ≡ depth c + height t
unfolding height depth plug
height-plug (top root) t = omega arith
height-plug (in_left a k r c) t = omega (arith, height-plug c (node a k t r))
height-plug (in_rght a k l c) t = omega (arith, height-plug c (node a k l t))

pub top_count : (t : Tree) → 0 < leaf_count (top_of t) t + node_count (top_of t) t
unfolding leaf_count node_count
top_count (leaf a) = ground (arith, one_if_self a)
top_count (node a k l r) = ground (arith, one_if_self a)

-- Where the descent ends at a node, its structure is the top of a tree of duplicates.
pub dup_case :
    (P : Ctx → Tree → Bit → ℕ → Type 0) (f : ℕ) (m : Mem) (new : Ptr) (c : Ctx) (t : Tree)
    → (eb_gettag (link t) == eb_leaf) ≡ false
    → height (plug c t) < f
    → Valid m (root_of c) (some (plug c t))
    → CanInsert new (root_of c) (some (plug c t))
    → ((c' : Ctx) (t' : Tree) (side : ℕ) → side ≡ 0 → OnSpine c t c' t' → P c' t' (lower t') side)
    → Put P (eb_insert_dup f (top_of t) new m) (root_of c) (plug c t) new
unfolding height leaves
dup_case P f m new c (leaf a) e fuel v fresh place_is =
    let i = (Site-of_Valid m c (leaf a) v).holds.2 in
    let odd : (eb_gettag (a + 0) == eb_leaf) ≡ true = ground arith in
    absurd (ground (arith, e, odd))
dup_case P f m new c (node a k l r) e fuel v fresh place_is =
    let d =
      eb_insert_dup-Inserts f m c a k l r new (omega (arith, height-plug c (node a k l r))) v
        fresh in
    record {
      placed =
          subst (λ z. P d.grown.at d.grown.sub z d.grown.side) (sym d.bit_is)
            (place_is d.grown.at d.grown.sub d.grown.side d.side_is d.on);
      inserted = record {
        store = d.store;
        runs = d.runs;
        front = before c ++ (leaves l ++ leaves r);
        back = after c;
        split =
            append_assoc (before c) (leaves l ++ leaves r) (after c)
            ∙ sym (leaves-plug c (node a k l r));
        grown = d.grown;
      };
    }

pub link_lower :
    (m : Mem) (p : ℕ) (t : Tree)
    → Holds m p t
    → (eb_gettag (link t) == eb_leaf) ≡ true
    → negsuc 0 ≡ lower t
link_lower m p (leaf a) h e = refl
link_lower m p (node a k l r) h e =
    let odd : (eb_gettag (a + 1) == eb_leaf) ≡ false = let i = h.3 in ground arith in
    absurd (ground (arith, e, odd))

module _ (key : Ptr → ℕ) (newkey : ℕ) (ge : ℕ → ℕ → Bool) (f tag : ℕ) (m : Mem) (new : Ptr)
    (root : Ptr) (side : ℕ) (c : Ctx) (t : Tree) (cell : root + side ≡ slot c)
    (fuel : height (plug c t) < f) (v : Valid m (root_of c) (some (plug c t)))
    (fresh : CanInsert new (root_of c) (some (plug c t))) (went : Went key (key new) newkey c)
    (stops : Stops key (key new) t) where
  abbrev At : Ctx → Tree → Bit → ℕ → Type 0
  At = Placed key newkey flsnz ge new

  abbrev here : Place
  here = place_of root side t

  abbrev Ends : Option (Ptr × Mem) → Type 0
  Ends r = Put At r (root_of c) (plug c t) new ⊎ Refused key r tag (root_of c) (plug c t) new

  differ_case : (key new == key (top_of t)) ≡ false → Ends (attach key ge f tag here new m)
  unfolding attach
  differ_case e =
      rw (e, attach)
        (inl (
          between-Put m c t new (pos (flsnz (bit_xor (key new) (key (top_of t))) - 1)) root side
            cell v fresh At (ge (key new) (key (top_of t)))
            (inl (record {
              went = went;
              stops = stops;
              differs = (let ne : key new ≢ key (top_of t) = ground (arith, e) in ne);
              bit_is = refl;
              side_is = refl;
            }))))

  abbrev marked : Mem
  marked = prepare here new (negsuc 0) m

  marked-Valid : Valid marked (root_of c) (some (plug c t))
  marked-Valid = prepare-Valid m c t new here (negsuc 0) v fresh

  refused_case :
      (e : (key new == key (top_of t)) ≡ true) → (tag == 0) ≡ false → Ends (some (top_of t, marked))
  refused_case e e' = inr (record {
    store = marked;
    old = top_of t;
    runs = refl;
    same_key = (==_iff (key new) (key (top_of t))).0 e;
    tagged = let i : tag ≢ 0 = ground arith in i;
    valid = marked-Valid;
    there =
        omega
          (arith, top_count t, leaf_count-plug (top_of t) c t, node_count-le-plug (top_of t) c t);
  })

  -- What is left of `attach` where the keys are equal, from the store `n`.
  abbrev same_ends : Mem → Option (Ptr × Mem)
  same_ends n =
      if tag == 0
      then if is_leaf here
        then some (new, put_between (ge (key new) (key (top_of t))) here new n)
        else eb_insert_dup f (top_of t) new n
      else some (top_of t, n)

  attach_same :
      (key new == key (top_of t)) ≡ true → attach key ge f tag here new m ≡ same_ends marked
  unfolding attach
  attach_same e =
      rw (e, attach)
        (ap same_ends (
          prepare_twice here new (pos (flsnz (bit_xor (key new) (key (top_of t))) - 1)) (negsuc 0)
            m))

  leaf_lower : is_leaf here ≡ true → negsuc 0 ≡ lower t
  leaf_lower e = link_lower m (slot c) t (Site-of_Valid m c t v).holds e

  -- Beside the leaf with the same key, or in the tree of duplicates.
  added_case :
      key new ≡ key (top_of t)
      → Put At
          (if is_leaf here
            then some (new, put_between (ge (key new) (key (top_of t))) here new marked)
            else eb_insert_dup f (top_of t) new marked)
          (root_of c)
          (plug c t)
          new
  added_case same = elim (Bool-cases (is_leaf here)) [
    | inl e ↦ rw e (
        between-Put m c t new (negsuc 0) root side cell v fresh At (ge (key new) (key (top_of t))) (
          inr (record {
            from_at = c;
            from_sub = t;
            went = went;
            stops = stops;
            same = same;
            on = OnSpine-self c t;
            bit_is = leaf_lower e;
            side_is = inr refl;
          })))
    | inr e ↦ rw e (
        dup_case At f marked new c t e fuel marked-Valid fresh (λ c' t' side zero on. inr (record {
          from_at = c;
          from_sub = t;
          went = went;
          stops = stops;
          same = same;
          on = on;
          bit_is = refl;
          side_is = inl zero;
        })))
  ]

  pub attach-Ends : Ends (attach key ge f tag here new m)
  attach-Ends = elim (Bool-cases (key new == key (top_of t))) [
    | inl e ↦ rw (attach_same e) (elim (Bool-cases (tag == 0)) [
      | inl z ↦ rw z (inl (added_case ((==_iff _ _).0 e)))
      | inr z ↦ rw z (refused_case e z)
    ])
    | inr e ↦ differ_case e
  ]
