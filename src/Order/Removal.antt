-- ===== src/Order/Removal.antt =====
-- `__eb_delete` keeps the leaves of a tree where its nodes say.
use ebmbtreebench.Prelude.{ℕ, ◌≡◌, ◌≢◌, ◌≤◌, ◌<◌, ◌+◌, ◌++◌, some, arith, ap}
use ebmbtreebench.Memory.{Ptr, Mem}
use ebmbtreebench.Tree.{
  Tree, leaf, node, Ctx, top, in_left, in_rght, plug, first, before, after, root_of,
}
use ebmbtreebench.Tree.Count.{
  leaf_count, node_count, nodes_around, one_if, one_if_self, node_count-plug, node_count-le-plug,
}
use ebmbtreebench.Tree.Valid.{Valid, Found}
use ebmbtreebench.Lookup.Sound.{first_count}
use ebmbtreebench.Order.{
  Branches, IsMovable, IsPlaced, KeepsPlaces, IsPlaced-sub, IsRadix, KeepsOrder, Lies,
  Lies-IsMovable,
}
use ebmbtreebench.Order.Delete.{
  IsLeft, IsPlaced-IsLeft, IsLeft-plug, IsLeft-IsPlaced, relabel-IsPlaced,
}
use ebmbtreebench.Delete.{eb_delete}
use ebmbtreebench.Delete.Lifted.{Doomed, Dropped, released}
use ebmbtreebench.Delete.Correct.{
  EndsWell, KeepsTo, eb_delete-Dropped, in_left-Doomed, in_rght-Doomed,
}
use mathlib.Core.Path.{subst}

module _ (L : Branches) (move : IsMovable L) (m : Mem) (x q side : ℕ) (c : Ctx) (s t : Tree)
    (d : Doomed m q side c t x) (whole : IsPlaced L (plug c s)) (g : IsPlaced L t)
    (less : (y : Ptr) → leaf_count y t ≤ leaf_count y s)
    (rest : (y : Ptr) → y ≢ x → leaf_count y s ≤ leaf_count y t)
    (own : q ≢ x → 0 < leaf_count q t) where
  left : (q' : Ptr) → 0 < leaf_count q' t → IsLeft L x q' (plug c t)
  left q' i =
      IsLeft-plug L x q' c s t whole
        (IsPlaced-IsLeft L x q' t g (omega (arith, d.leaves x, one_if_self x))) less rest i
        (omega (arith, d.leaves x, one_if_self x))

  once_node :
      (f : Found x (top (root_of c)) (plug c t))
      → nodes_around x f.at + (node_count x f.left + node_count x f.rght) ≡ 0
  unfolding node_count plug
  once_node f = omega (
    arith,
    node_count-plug x f.at (node x f.bit f.left f.rght),
    ap (node_count x) f.whole,
    ap (λ r. one_if r x) f.root,
    node_count-plug x c t,
    d.nodes x,
    one_if_self x,
  )

  not_parent : (f : Found x (top (root_of c)) (plug c t)) → q ≢ x
  unfolding node_count plug
  not_parent f e = absurd (
      omega (
        arith,
        ap (node_count x) f.whole,
        node_count-plug x f.at (node x f.bit f.left f.rght),
        ap (λ r. one_if r x) f.root,
        one_if_self x,
        released m q side c t x d,
        ap (λ y. node_count y (plug c t)) e,
        node_count-le-plug x f.at (node x f.bit f.left f.rght),
        once_node f,
      ))

  ends_well : EndsWell m x (KeepsPlaces L) q c t
  unfolding plug
  ends_well = (
    (λ e. IsLeft-IsPlaced L x (first t) (plug c t) (left (first t) (first_count t)) e),
    (λ f.
        relabel-IsPlaced L x q f.at f.bit f.left f.rght
          (subst (IsLeft L x q) f.whole (left q (own (not_parent f)))) (once_node f) move),
  )

keeps_to :
    (L : Branches) (m : Mem) (x : Ptr) (c : Ctx)
    → Valid m (root_of c) (some (plug c (leaf x)))
    → IsPlaced L (plug c (leaf x))
    → IsMovable L
    → KeepsTo m x (KeepsPlaces L) c
unfolding plug leaf_count
keeps_to L m x (top root) v g move = tt
keeps_to L m x (in_left q k r c) v g move =
    let h = IsPlaced-sub L c (node q k (leaf x) r) g in
    ends_well L move m x q 0 c (node q k (leaf x) r) r (in_left-Doomed m x q k r c v) g h.4
      (λ y. omega arith) (λ y ne. ground (arith, ne)) (λ ne. let own = h.2 in ground (arith, ne))
keeps_to L m x (in_rght q k l c) v g move =
    let h = IsPlaced-sub L c (node q k l (leaf x)) g in
    ends_well L move m x q 1 c (node q k l (leaf x)) l (in_rght-Doomed m x q k l c v) g h.3
      (λ y. omega arith) (λ y ne. ground (arith, ne)) (λ ne. let own = h.2 in ground (arith, ne))

-- Take any way to say where leaves belong below nodes, by which the structure of a node may be
-- changed for another one that belongs below it. Deleting a leaf of a valid tree whose leaves lie
-- where its nodes say gives the empty tree or a valid tree of which that holds too, with the other
-- leaves as they were.
pub eb_delete-KeepsPlaces :
    (L : Branches)
    → IsMovable L
    → (m : Mem) (x : Ptr) (c : Ctx) → Valid m (root_of c) (some (plug c (leaf x)))
    → IsPlaced L (plug c (leaf x))
    → Dropped (KeepsPlaces L) x (before c ++ after c) (root_of c) (eb_delete x m)
eb_delete-KeepsPlaces L move m x c v g =
    eb_delete-Dropped m x (KeepsPlaces L) c (keeps_to L m x c v g move) v

-- Deleting a leaf of a valid tree whose leaves lie where its nodes say, by any order of the keys,
-- gives the empty tree or a valid tree of which that holds too, with the other leaves as they were.
pub eb_delete-KeepsOrder :
    (ord : Ptr → ℕ) (m : Mem) (x : Ptr) (c : Ctx)
    → Valid m (root_of c) (some (plug c (leaf x)))
    → IsRadix ord (plug c (leaf x))
    → Dropped (KeepsOrder ord) x (before c ++ after c) (root_of c) (eb_delete x m)
eb_delete-KeepsOrder ord m x c v g = eb_delete-KeepsPlaces (Lies ord) (Lies-IsMovable ord) m x c v g
