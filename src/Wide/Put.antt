-- ===== src/Wide/Put.antt =====
-- The writes of eb64tree.h, in both orders, put the new structure between a slot and its subtree.
use ebmbtreebench.Prelude.{ℕ, some, ◌≡◌, ◌≢◌, ◌<◌, ◌+◌, true, false, arith, sym}
use ebmbtreebench.Memory.{Ptr, Mem, Bit}
use ebmbtreebench.Tree.{Tree, Ctx, plug, root_of, Holds, slot}
use ebmbtreebench.Tree.Count.{leaf_count, node_count, leaf_count-plug, node_count-le-plug}
use ebmbtreebench.Tree.Valid.{Valid, Site-of_Valid, leaves_in, nodes_in}
use ebmbtreebench.Insert.Grown.{CanInsert}
use ebmbtreebench.Scalar.{Place}
use ebmbtreebench.Scalar.Between.{place_of}
use ebmbtreebench.Scalar.Correct.{Put, between-Put, prepare-Valid}
use ebmbtreebench.Scalar.Descent.{top_of}
use ebmbtreebench.Scalar.Whole.{top_count}
use ebmbtreebench.Wide.{set_parent, put_left, put_right, finish}
use ebmbtreebench.Wide.Same.{set_parent-prepare, put_left-put_between, put_right-put_between}
use mathlib.Core.Path.{subst}

module _ (m : Mem) (new : Ptr) (root : Ptr) (side : ℕ) (c : Ctx) (t : Tree)
    (cell : root + side ≡ slot c) (v : Valid m (root_of c) (some (plug c t)))
    (fresh : CanInsert new (root_of c) (some (plug c t))) where
  abbrev here : Place
  here = place_of root side t

  holds : Holds m (root + side) t
  holds = subst (λ q. Holds m q t) (sym cell) (Site-of_Valid m c t v).holds

  top_ne : top_of t ≢ new
  unfolding leaves_in nodes_in
  top_ne e = absurd (
      omega (
        arith,
        fresh.no_leaf,
        fresh.no_node,
        leaf_count-plug new c t,
        node_count-le-plug new c t,
        subst (λ y. 0 < leaf_count y t + node_count y t) e (top_count t),
      ))

  pub set_parent-Valid : Valid (set_parent here new m) (root_of c) (some (plug c t))
  set_parent-Valid =
      subst (λ n. Valid n (root_of c) (some (plug c t))) (set_parent-prepare here new m)
        (prepare-Valid m c t new here (m.bit new) v fresh)

  module _ (P : Ctx → Tree → Bit → ℕ → Type 0) (k : Bit) where
    pub put_left-Put :
        P c t k 1
        → Put P
            (some (new, finish k here new (put_left here new (set_parent here new m))))
            (root_of c)
            (plug c t)
            new
    put_left-Put h =
        subst (λ n. Put P (some (new, n)) (root_of c) (plug c t) new)
          (sym (put_left-put_between m new k root side t holds))
          (between-Put m c t new k root side cell v fresh P false h)

    pub put_right-Put :
        P c t k 0
        → Put P
            (some (new, finish k here new (put_right here new (set_parent here new m))))
            (root_of c)
            (plug c t)
            new
    put_right-Put h =
        subst (λ n. Put P (some (new, n)) (root_of c) (plug c t) new)
          (sym (put_right-put_between m new k root side t holds top_ne))
          (between-Put m c t new k root side cell v fresh P true h)
