-- ===== src/Typed/Sorted.antt =====
-- A tree that is printed after an insertion comes out sorted.
use ebmbtreebench.Prelude.{
  ℕ, zero, suc, Option, none, some, ◌≡◌, ◌<◌, ◌+◌, ◌^◌, List, [], ◌∷◌, ◌==◌, length, leb, arith,
  refl, sym, ap, ◌∙◌, inl, inr, Bool-cases,
}
use ebmbtreebench.Memory.{Ptr, Mem, Bit, null, branch, eb_rght, eb_gettag}
use ebmbtreebench.Tree.{
  Tree, node, Ctx, top, in_left, in_rght, plug, height, leaves, contents, height_of, Rooted,
}
use ebmbtreebench.Tree.Valid.{Valid}
use ebmbtreebench.Insert.{grow}
use ebmbtreebench.Insert.Grown.{CanInsert}
use ebmbtreebench.Walk.{list_from, list_nodes}
use ebmbtreebench.Walk.Listing.{list_nodes-contents}
use ebmbtreebench.Scalar.{eb32_insert}
use ebmbtreebench.Order.{IsRadix}
use ebmbtreebench.Order.Place.{insert_by}
use ebmbtreebench.Order.Keys.{InOrder, eb32_insert-InOrder}
use ebmbtreebench.Typed.{dump, dump_from, eb32_first, eb32_next}
use mathlib.Core.Path.{subst}

-- What a pass does with the next node, for the rest of the loop `go`.
abbrev onward : (Ptr → Option (List Ptr)) → Ptr → Option Ptr → Option (List Ptr)
onward go a o = elim o [
  | none ↦ none
  | some n ↦ elim (go n) [ none ↦ none | some rest ↦ some (a ∷ rest) ]
]

abbrev start : (Ptr → Option (List Ptr)) → Option Ptr → Option (List Ptr)
start go o = elim o [ none ↦ none | some n ↦ go n ]

chain :
    (k f : ℕ) (m : Mem) (a : Ptr) (o : Option Ptr)
    → ((n : Ptr) → dump_from k f m n ≡ list_from k f m n)
    → onward (dump_from k f m) a o ≡ onward (list_from k f m) a o
chain k f m a none h = refl
chain k f m a (some n) h = ap (λ o. elim o [ none ↦ none | some rest ↦ some (a ∷ rest) ]) (h n)

dump_from-list_from : (k f : ℕ) (m : Mem) (a : Ptr) → dump_from k f m a ≡ list_from k f m a
unfolding dump_from list_from
dump_from-list_from zero f m a = refl
dump_from-list_from (suc k) f m a = elim (Bool-cases (a == null)) [
  | inl e ↦ rw (e, dump_from, list_from) refl
  | inr e ↦
      rw (e, dump_from, list_from) (chain k f m a (eb32_next f m a) (dump_from-list_from k f m))
]

start_alike :
    (k f : ℕ) (m : Mem) (o : Option Ptr) → start (dump_from k f m) o ≡ start (list_from k f m) o
start_alike k f m none = refl
start_alike k f m (some n) = dump_from-list_from k f m n

dump-list_nodes : (k f : ℕ) (m : Mem) (root : Ptr) → dump k f m root ≡ list_nodes k f m root
unfolding dump list_nodes
dump-list_nodes k f m root = start_alike k f m (eb32_first f m root)

height-grow :
    (new : Ptr) (k : Bit) (side : ℕ) (t : Tree) → height (grow new k side t) ≡ 1 + height t
unfolding height
height-grow new k side t = elim (Bool-cases (side == 0)) [
  | inl e ↦ rw e (omega arith)
  | inr e ↦ rw e (omega arith)
]

height-plug_grow :
    (c : Ctx) (t u : Tree) → height u ≡ 1 + height t → height (plug c u) ≡ 1 + height (plug c t)
unfolding height plug
height-plug_grow (top root) t u e = e
height-plug_grow (in_left a k r c) t u e =
    height-plug_grow c (node a k t r) (node a k u r) (omega (arith, e))
height-plug_grow (in_rght a k l c) t u e =
    height-plug_grow c (node a k l t) (node a k l u) (omega (arith, e))

length-insert_by :
    (ord : Ptr → ℕ) (new : Ptr) (xs : List Ptr) → length (insert_by ord new xs) ≡ 1 + length xs
unfolding insert_by
length-insert_by ord new [] = refl
length-insert_by ord new (y ∷ ys) = elim (Bool-cases (leb (ord y) (ord new))) [
  | inl e ↦ rw e (omega (arith, length-insert_by ord new ys))
  | inr e ↦ rw e (omega arith)
]

-- The insertion returns the structure, and the program then prints `nodes`.
pub record Printed (k f : ℕ) (result : Option (Ptr × Mem)) (root new : Ptr) (nodes : List Ptr)
    : Type 0 where
  pub store : Mem
  pub runs : result ≡ some (new, store)
  pub prints : dump k f store root ≡ some nodes

InOrder-Printed :
    (key : Ptr → ℕ) (k f : ℕ) (r : Option (Ptr × Mem)) (root new : Ptr) (t : Tree)
    → 1 + height t < f
    → 1 + length (leaves t) < k
    → InOrder key r root t new
    → Printed k f r root new (insert_by key new (leaves t))
unfolding height_of contents
InOrder-Printed key k f r root new t fuel room d =
    let g = d.inserted.grown in
    let taller : height d.grown ≡ 1 + height t =
      ap height d.whole
      ∙ height-plug_grow g.at g.sub (grow new g.bit g.side g.sub)
          (height-grow new g.bit g.side g.sub)
      ∙ ap (λ u. 1 + height u) g.from in
    let rooted : Rooted d.inserted.store root (some d.grown) =
      subst (λ u. Rooted d.inserted.store root (some u)) (sym d.whole) g.valid.rooted in
    record {
      store = d.inserted.store;
      runs = d.inserted.runs;
      prints =
          dump-list_nodes k f d.inserted.store root
          ∙ list_nodes-contents d.inserted.store f k root (some d.grown) (omega (arith, taller))
              (omega (arith, ap length d.refines, length-insert_by key new (leaves t))) rooted
          ∙ ap some d.refines;
    }

-- Take a root that is not tagged as unique, with a valid tree `t` whose leaves lie where its nodes
-- say, keys of 32 bits, a structure that is in no role, and fuel above the height and the number of
-- leaves of `t`, and one more. `eb32_insert` returns the structure, and the loop of test32.c over
-- `eb32_first` and `eb32_next` then ends and lists what an insertion into the sorted list of the
-- leaves of `t` gives.
pub eb32_insert-dump :
    (key : Ptr → ℕ) (k f : ℕ) (m : Mem) (root new : Ptr) (t : Tree)
    → 1 + height t < f
    → 1 + length (leaves t) < k
    → Valid m root (some t)
    → CanInsert new root (some t)
    → ((y : Ptr) → key y < 2 ^ 32)
    → IsRadix key t
    → eb_gettag (branch m root eb_rght) ≡ 0
    → Printed k f (eb32_insert key f root new m) root new (insert_by key new (leaves t))
eb32_insert-dump key k f m root new t fuel room v fresh width g plain =
    elim (eb32_insert-InOrder key f m root new t (omega arith) v fresh width g) [
      | inl d ↦ InOrder-Printed key k f (eb32_insert key f root new m) root new t fuel room d
      | inr e ↦ absurd (e.tagged plain)
    ]
