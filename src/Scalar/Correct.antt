-- ===== src/Scalar/Correct.antt =====
-- `__eb32_insert` and `__eb32i_insert` on a valid tree, in all their branches.
use ebmbtreebench.Scalar.{Place, prepare, put_between, Option, Ptr, Mem, is_leaf}
use ebmbtreebench.Scalar.Between.{
  place_of, right-Above, left-Above, right-written, left-written, to_right, to_left,
}
use ebmbtreebench.Prelude.{
  Option, true, ℕ, ◌≡◌, some, ◌+◌, List, ◌≢◌, ◌++◌, ◌<◌, Bool, arith, if◌then◌else◌, ◌∙◌, refl, sym,
  ap, false,
}
use ebmbtreebench.Memory.{Ptr, Mem, Bit, update_ne, eb_left, eb_rght}
use ebmbtreebench.Tree.{Tree, Ctx, root_of, slot, plug, leaves, Holds, before, after}
use ebmbtreebench.Tree.Valid.{Valid, leaves_in, Site-of_Valid, nodes_in, Valid-of_Site}
use ebmbtreebench.Tree.Count.{leaf_count, node_count, nodes_around, leaves_around, leaf_count-plug}
use ebmbtreebench.Insert.Grown.{CanInsert, Grown, Fresh-of_CanInsert, grown_right, grown_left}
use ebmbtreebench.Insert.{Fresh, Above, written}
use ebmbtreebench.Tree.Hang.{Site}
use mathlib.Core.Path.{subst}
use ebmbtreebench.Tree.Frame.{SameLink, Around-frame, Holds-frame}
use mathlib.Core.List.{append_assoc}
use ebmbtreebench.Tree.Plug.{leaves-plug}

-- The structure is in the tree, a new leaf somewhere among the others, which keep their order.
pub record Inserted (result : Option (Ptr × Mem)) (root : Ptr) (t : Tree) (new : Ptr) : Type 0 where
  pub store : Mem
  pub runs : result ≡ some (new, store)
  pub front : List Ptr
  pub back : List Ptr
  pub split : front ++ back ≡ leaves t
  pub grown : Grown store root t new front back

-- An insertion whose place has the property `P`.
pub record Put (P : Ctx → Tree → Bit → ℕ → Type 0) (result : Option (Ptr × Mem)) (root : Ptr)
    (t : Tree) (new : Ptr) : Type 0 where
  pub inserted : Inserted result root t new
  pub placed : P inserted.grown.at inserted.grown.sub inserted.grown.bit inserted.grown.side

-- The tree is as it was, and `old`, which is in it, has the key of the structure.
pub record Refused (key : Ptr → ℕ) (result : Option (Ptr × Mem)) (root_tag : ℕ) (root : Ptr)
    (t : Tree) (new : Ptr) : Type 0 where
  pub store : Mem
  pub old : Ptr
  pub runs : result ≡ some (old, store)
  pub same_key : key new ≡ key old
  pub tagged : root_tag ≢ 0
  pub valid : Valid store root (some t)
  pub there : 0 < leaf_count old t + node_count old t

module _ (m : Mem) (c : Ctx) (t : Tree) (new : Ptr) (p : Place) (k : Bit)
    (v : Valid m (root_of c) (some (plug c t)))
    (f : CanInsert new (root_of c) (some (plug c t))) where
  fresh : Fresh new c t
  fresh = Fresh-of_CanInsert new c t f

  site : Site m c t
  site = Site-of_Valid m c t v

  ne_node : (a : Ptr) → 0 < nodes_around a c + node_count a t → a ≢ new
  ne_node a i e =
      absurd (omega (arith, fresh.no_node, subst (λ y. 0 < nodes_around y c + node_count y t) e i))

  ne_leaf : (a : Ptr) → 0 < leaves_around a c + leaf_count a t → a ≢ new
  ne_leaf a i e =
      absurd (omega (arith, fresh.no_leaf, subst (λ y. 0 < leaves_around y c + leaf_count y t) e i))

  -- What is written into the new structure first leaves the tree alone.
  pub prepare-Valid : Valid (prepare p new k m) (root_of c) (some (plug c t))
  unfolding prepare leaves_in nodes_in
  prepare-Valid =
      let v' = if is_leaf p then m.leaf_p p.old else m.node_p p.old in
      let same = λ (a : Ptr) (i : 0 < nodes_around a c + node_count a t).
        let r : SameLink m (prepare p new k m) a = record {
          node_p = update_ne m.node_p v' (ne_node a i);
          bit = update_ne m.bit k (ne_node a i);
        } in
        r in
      Valid-of_Site (prepare p new k m) c t
        (record {
          around =
              Around-frame {m = m} {n = prepare p new k m} c (λ y. omega (arith, site.nodes y))
                (λ s i ne. refl) (λ a i. same a (omega arith)) (λ a i. refl) site.around;
          holds =
              Holds-frame {m = m} {n = prepare p new k m} t (slot c) refl (λ s i. refl)
                (λ a i. same a (omega arith)) (λ a i. refl) site.holds;
          nodes = site.nodes;
          leaves = site.leaves;
        })
        (λ y i e.
          update_ne m.node_p v' (ne_leaf y (omega (arith, leaf_count-plug y c t))) ∙ v.unused y i e)

module _ (m : Mem) (c : Ctx) (t : Tree) (new : Ptr) (k : Bit) (root : Ptr) (side : ℕ)
    (cell : root + side ≡ slot c) (v : Valid m (root_of c) (some (plug c t)))
    (f : CanInsert new (root_of c) (some (plug c t))) where
  abbrev here : Place
  here = place_of root side t

  f' : Fresh new c t
  f' = Fresh-of_CanInsert new c t f

  site' : Site m c t
  site' = Site-of_Valid m c t v

  holds : Holds m (root + side) t
  holds = subst (λ q. Holds m q t) (sym cell) site'.holds

  -- Either side of the comparison puts the structure beside the subtree.
  pub between-Put :
      (P : Ctx → Tree → Bit → ℕ → Type 0) (ge : Bool)
      → P c t k (if ge then 0 else 1)
      → Put P
          (some (new, put_between ge here new (prepare here new k m)))
          (root_of c)
          (plug c t)
          new
  unfolding grown_left grown_right
  between-Put P true h = record {
    placed = h;
    inserted = record {
      store = put_between true here new (prepare here new k m);
      runs = refl;
      front = before c ++ leaves t;
      back = after c;
      split = append_assoc (before c) (leaves t) (after c) ∙ sym (leaves-plug c t);
      grown = grown_right m (put_between true here new (prepare here new k m)) c t new k v f (
          subst (λ n. Above m n c t new k eb_left)
            (ap (λ q. written (to_right q t new m) q t new k eb_left m) (sym cell)
              ∙ sym (right-written m new k root side t holds))
            (right-Above m c t new k site' f'));
    };
  }
  between-Put P false h = record {
    placed = h;
    inserted = record {
      store = put_between false here new (prepare here new k m);
      runs = refl;
      front = before c;
      back = leaves t ++ after c;
      split = sym (leaves-plug c t);
      grown = grown_left m (put_between false here new (prepare here new k m)) c t new k v f (
          subst (λ n. Above m n c t new k eb_rght)
            (ap (λ q. written (to_left q t new m) q t new k eb_rght m) (sym cell)
              ∙ sym (left-written m new k root side t holds))
            (left-Above m c t new k site' f'));
    };
  }
