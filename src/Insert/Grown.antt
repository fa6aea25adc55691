-- ===== src/Insert/Grown.antt =====
-- An insertion into a valid tree, as a whole.
use ebmbtreebench.Prelude.{
  some, refl, [], Option, List, arith, ℕ, ◌<◌, ◌≡◌, ◌+◌, ◌++◌, ◌∷◌, ◌≢◌, ◌∙◌, ap, sym,
}
use ebmbtreebench.Tree.{leaf, node, plug, Tree, Ctx, root_of, IsAddr, leaves, before, after}
use ebmbtreebench.Insert.{
  Above, Fresh, grow, Mem, Ptr, Tree, Ctx, IsAddr, Bit, ℕ, node_count, leaf_count,
}
use ebmbtreebench.Memory.{Mem, Ptr, Bit, eb_left, eb_rght, null}
use ebmbtreebench.Tree.Valid.{nodes_in, leaves_in, Valid, Valid-of_Site, Site-of_Valid}
use ebmbtreebench.Tree.Count.{
  one_if, node_count-plug, node_count, leaf_count-plug, leaf_count, node_count-le-plug,
}
use ebmbtreebench.Insert.Graft.{Site-right, Site-left}
use ebmbtreebench.Tree.Plug.{leaves-plug}
use mathlib.Core.List.{append_assoc}

-- `n` holds the tree `old` with `new` between some slot of it and the subtree there, and
-- `new` is the leaf between `xs` and `ys`.
pub record Grown (n : Mem) (root : Ptr) (old : Tree) (new : Ptr) (xs ys : List Ptr) : Type 0 where
  pub at : Ctx
  pub sub : Tree
  pub bit : Bit
  pub side : ℕ
  pub from : plug at sub ≡ old
  pub base : root_of at ≡ root
  pub valid : Valid n root (some (plug at (grow new bit side sub)))
  pub order : leaves (plug at (grow new bit side sub)) ≡ xs ++ new ∷ ys

-- The structure `new` can be inserted: it is allocated, is not the root, and is in no role in
-- the tree.
pub record CanInsert (new root : Ptr) (t : Option Tree) : Type 0 where
  pub addr : IsAddr new
  pub no_node : one_if root new + nodes_in new t ≡ 0
  pub no_leaf : leaves_in new t ≡ 0

pub Fresh-of_CanInsert :
    (new : Ptr) (c : Ctx) (t : Tree) → CanInsert new (root_of c) (some (plug c t)) → Fresh new c t
unfolding nodes_in leaves_in
Fresh-of_CanInsert new c t f = record {
  addr = f.addr;
  no_node = omega (arith, f.no_node, node_count-plug new c t);
  no_leaf = omega (arith, f.no_leaf, leaf_count-plug new c t);
}

module _ (m n : Mem) (c : Ctx) (t : Tree) (new : Ptr) (k : Bit)
    (v : Valid m (root_of c) (some (plug c t)))
    (f : CanInsert new (root_of c) (some (plug c t))) where
  fresh : Fresh new c t
  fresh = Fresh-of_CanInsert new c t f

  still_unused :
      (side : ℕ)
      → Above m n c t new k side
      → (y : Ptr) → 0 < one_if new y + leaf_count y (plug c t)
      → one_if new y + node_count y (plug c t) ≡ 0
      → n.node_p y ≡ null
  unfolding nodes_in leaves_in
  still_unused side above y i e =
      above.same_node_p y (let ne : y ≢ new = ground arith in ne)
        (omega (arith, node_count-le-plug y c t))
      ∙ v.unused y (omega arith) (omega arith)

  pub Valid-right :
      Above m n c t new k eb_left → Valid n (root_of c) (some (plug c (node new k t (leaf new))))
  unfolding node_count leaf_count
  Valid-right above =
      Valid-of_Site n c (node new k t (leaf new)) (Site-right (Site-of_Valid m c t v) fresh above)
        (λ y i e.
          still_unused eb_left above y
            (omega (arith, leaf_count-plug y c t, leaf_count-plug y c (node new k t (leaf new))))
            (omega (arith, node_count-plug y c t, node_count-plug y c (node new k t (leaf new)))))

  pub Valid-left :
      Above m n c t new k eb_rght → Valid n (root_of c) (some (plug c (node new k (leaf new) t)))
  unfolding node_count leaf_count
  Valid-left above =
      Valid-of_Site n c (node new k (leaf new) t) (Site-left (Site-of_Valid m c t v) fresh above)
        (λ y i e.
          still_unused eb_rght above y
            (omega (arith, leaf_count-plug y c t, leaf_count-plug y c (node new k (leaf new) t)))
            (omega (arith, node_count-plug y c t, node_count-plug y c (node new k (leaf new) t))))

  unfoldable pub grown_right :
      Above m n c t new k eb_left
      → Grown n (root_of c) (plug c t) new (before c ++ leaves t) (after c)
  unfolding leaves
  grown_right above = record {
    at = c;
    sub = t;
    bit = k;
    side = eb_left;
    from = refl;
    base = refl;
    valid = Valid-right above;
    order =
        leaves-plug c (node new k t (leaf new))
        ∙ ap (λ z. before c ++ z) (append_assoc (leaves t) (new ∷ []) (after c))
        ∙ sym (append_assoc (before c) (leaves t) (new ∷ after c));
  }

  unfoldable pub grown_left :
      Above m n c t new k eb_rght
      → Grown n (root_of c) (plug c t) new (before c) (leaves t ++ after c)
  unfolding leaves
  grown_left above = record {
    at = c;
    sub = t;
    bit = k;
    side = eb_rght;
    from = refl;
    base = refl;
    valid = Valid-left above;
    order = leaves-plug c (node new k (leaf new) t);
  }
