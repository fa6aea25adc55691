-- ===== src/Dup/Correct.antt =====
-- `__eb_insert_dup` as a whole.
use ebmbtreebench.Prelude.{some, refl, ℕ, List, ◌≡◌, ◌<◌, ◌++◌, Bool-cases, inl, inr, arith}
use ebmbtreebench.Tree.{node, plug, Ctx, Tree, height, root_of, before, leaves, after}
use ebmbtreebench.Dup.{
  eb_insert_dup, ℕ, Mem, Ptr, Bit, bit_ltb, negsuc, insert_above_leaf, insert_above_node,
}
use ebmbtreebench.Memory.{Mem, Ptr, Bit, negsuc}
use ebmbtreebench.Insert.Grown.{Grown, CanInsert}
use ebmbtreebench.Tree.Valid.{Valid, Site-of_Valid}
use ebmbtreebench.Dup.Spine.{OnSpine, scan_holes-Scanned}
use ebmbtreebench.Dup.Append.{leaf-Appended, node-Appended, lower}

-- An insertion that ends: it returns `new`, and the store `n`.
pub record Inserts (f : ℕ) (m : Mem) (c : Ctx) (t : Tree) (root : Ptr) (old : Tree) (a new : Ptr)
    (xs ys : List Ptr) : Type 0 where
  pub store : Mem
  pub runs : eb_insert_dup f a new m ≡ some (new, store)
  pub grown : Grown store root old new xs ys
  pub on : OnSpine c t grown.at grown.sub
  pub bit_is : grown.bit ≡ lower grown.sub
  pub side_is : grown.side ≡ 0

-- Given fuel above the height of the tree of duplicates at `a`, wherever it is in a valid tree,
-- the insertion of a fresh structure ends, keeps the tree valid, and puts the new leaf behind all
-- the leaves of the tree of duplicates and before all that follow it.
pub eb_insert_dup-Inserts :
    (f : ℕ) (m : Mem) (c : Ctx) (a : Ptr) (k : Bit) (l r : Tree) (new : Ptr)
    → height r < f
    → Valid m (root_of c) (some (plug c (node a k l r)))
    → CanInsert new (root_of c) (some (plug c (node a k l r)))
    → Inserts f m c
        (node a k l r)
        (root_of c)
        (plug c (node a k l r))
        a
        new
        (before c ++ leaves (node a k l r))
        (after c)
unfolding eb_insert_dup
eb_insert_dup-Inserts f m c a k l r new fuel v fresh =
    let site = Site-of_Valid m c (node a k l r) v in
    let on : OnSpine c (node a k l r) c (node a k l r) = record {
      whole = refl;
      root = refl;
      front = refl;
      back = refl;
      inside = λ y. omega arith;
    } in
    let s =
      scan_holes-Scanned m c (node a k l r) f c a k l r a fuel site.holds on
        (record { at = c; bit = k; left = l; rght = r; on = on }) in
    elim (Bool-cases (bit_ltb (m.bit s.result.head) (negsuc 0))) [
      | inl e ↦ record {
        store = insert_above_leaf s.result.head new m;
        runs = rw (s.runs, eb_insert_dup) (rw e);
        grown = (leaf-Appended m c (node a k l r) new s.result.head s.head_spot v fresh).grown;
        on = (leaf-Appended m c (node a k l r) new s.result.head s.head_spot v fresh).on;
        bit_is = (leaf-Appended m c (node a k l r) new s.result.head s.head_spot v fresh).bit_is;
        side_is = (leaf-Appended m c (node a k l r) new s.result.head s.head_spot v fresh).side_is;
      }
      | inr e ↦ record {
        store = insert_above_node s.result.sub new m;
        runs = rw (s.runs, eb_insert_dup) (rw e);
        grown = (node-Appended m c (node a k l r) new s.result.sub s.sub_spot v fresh).grown;
        on = (node-Appended m c (node a k l r) new s.result.sub s.sub_spot v fresh).on;
        bit_is = (node-Appended m c (node a k l r) new s.result.sub s.sub_spot v fresh).bit_is;
        side_is = (node-Appended m c (node a k l r) new s.result.sub s.sub_spot v fresh).side_is;
      }
    ]
