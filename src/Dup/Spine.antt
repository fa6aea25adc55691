-- ===== src/Dup/Spine.antt =====
-- The walk down the right side of a tree of duplicates.
use mathlib.Core.List.{append_assoc}
use ebmbtreebench.Prelude.{
  ℕ, zero, suc, true, false, some, ◌++◌, ◌≡◌, Bool, ◌∙◌, ◌<◌, if◌then◌else◌, arith, ◌+◌, ◌==◌, ◌≤◌,
  refl,
}
use ebmbtreebench.Tree.{
  Tree, leaf, node, in_rght, plug, Ctx, before, height, after, root_of, leaves, Holds, slot,
}
use ebmbtreebench.Dup.{
  Scan, scan_holes, Mem, Ptr, Bit, Bool, eb_gettag, eb_rght, eb_leaf, eb_untag, eb_node, bit_ltb,
  bit_suc,
}
use ebmbtreebench.Memory.{Mem, Ptr, Bit, eb_gettag, eb_rght, eb_leaf, eb_untag, eb_node}
use ebmbtreebench.Tree.Count.{leaf_count}

-- The subtree `t` at the slot of `c` stands on the right side of `t0` at the slot of `c0`: they
-- are parts of one tree, and end with the same leaf.
pub record OnSpine (c0 : Ctx) (t0 : Tree) (c : Ctx) (t : Tree) : Type 0 where
  pub whole : plug c t ≡ plug c0 t0
  pub root : root_of c ≡ root_of c0
  pub front : before c ++ leaves t ≡ before c0 ++ leaves t0
  pub back : after c ≡ after c0
  pub inside : (y : Ptr) → leaf_count y t ≤ leaf_count y t0

pub OnSpine-self : (c : Ctx) (t : Tree) → OnSpine c t c t
OnSpine-self c t = record {
  whole = refl;
  root = refl;
  front = refl;
  back = refl;
  inside = λ y. omega arith;
}

-- The node `x` of the spine, and the last node of the spine with the leaf below it.
pub record NodeSpot (c0 : Ctx) (t0 : Tree) (x : Ptr) : Type 0 where
  pub at : Ctx
  pub bit : Bit
  pub left : Tree
  pub rght : Tree
  pub on : OnSpine c0 t0 at (node x bit left rght)

pub record LastSpot (c0 : Ctx) (t0 : Tree) (x : Ptr) : Type 0 where
  pub at : Ctx
  pub bit : Bit
  pub left : Tree
  pub last : Ptr
  pub on : OnSpine c0 t0 at (node x bit left (leaf last))

pub record Scanned (f : ℕ) (m : Mem) (c0 : Ctx) (t0 : Tree) (head sub : Ptr) : Type 0 where
  pub result : Scan
  pub runs : scan_holes f m head sub ≡ some result
  pub head_spot : LastSpot c0 t0 result.head
  pub sub_spot : NodeSpot c0 t0 result.sub

pub OnSpine-rght :
    {c0 : Ctx} {t0 : Tree} (c : Ctx) (a : Ptr) (k : Bit) (l r : Tree)
    → OnSpine c0 t0 c (node a k l r)
    → OnSpine c0 t0 (in_rght a k l c) r
unfolding before after leaves plug leaf_count
OnSpine-rght c a k l r on = record {
  whole = on.whole;
  root = on.root;
  front = append_assoc (before c) (leaves l) (leaves r) ∙ on.front;
  back = on.back;
  inside = λ y. omega (arith, on.inside y);
}

choose :
    {c0 : Ctx} {t0 : Tree} {x y : Ptr} (b : Bool)
    → NodeSpot c0 t0 x
    → NodeSpot c0 t0 y
    → NodeSpot c0 t0 (if b then x else y)
choose true s t = s
choose false s t = t

pub scan_holes-Scanned :
    (m : Mem) (c0 : Ctx) (t0 : Tree) (f : ℕ) (c : Ctx) (a : Ptr) (k : Bit) (l r : Tree) (sub : Ptr)
    → height r < f
    → Holds m (slot c) (node a k l r)
    → OnSpine c0 t0 c (node a k l r)
    → NodeSpot c0 t0 sub
    → Scanned f m c0 t0 a sub
unfolding scan_holes height
scan_holes-Scanned m c0 t0 zero c a k l r sub fuel h on s = absurd (omega arith)
scan_holes-Scanned m c0 t0 (suc f) c a k l (leaf z) sub fuel h on s =
    let e : (eb_gettag (m.b (a + eb_rght)) == eb_leaf) ≡ true =
      let y = h.5.2 in rw (h.5.0) (ground arith) in
    record {
      result = record { head = a; sub = sub };
      runs = rw (e, scan_holes);
      head_spot = record { at = c; bit = k; left = l; last = z; on = on };
      sub_spot = s;
    }
scan_holes-Scanned m c0 t0 (suc f) c a k l (node a' k' l' r') sub fuel h on s =
    let e : (eb_gettag (m.b (a + eb_rght)) == eb_leaf) ≡ false =
      let y = h.5.3 in rw (h.5.0) (ground arith) in
    let e' : eb_untag (m.b (a + eb_rght)) eb_node ≡ a' = rw (h.5.0) (omega arith) in
    let on' = OnSpine-rght c a k l (node a' k' l' r') on in
    let here : NodeSpot c0 t0 a' = record {
      at = in_rght a k l c;
      bit = k';
      left = l';
      rght = r';
      on = on';
    } in
    let deeper = bit_ltb (bit_suc (m.bit a)) (m.bit a') in
    let rest =
      scan_holes-Scanned m c0 t0 f (in_rght a k l c) a' k' l' r' (if deeper then a' else sub)
        (omega arith) h.5 on' (choose deeper here s) in
    record {
      result = rest.result;
      runs = rw (e, scan_holes) (rw e' rest.runs);
      head_spot = rest.head_spot;
      sub_spot = rest.sub_spot;
    }
