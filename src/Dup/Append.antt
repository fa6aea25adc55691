-- ===== src/Dup/Append.antt =====
-- A duplicate goes behind all the leaves of its tree: first in, first out.
use ebmbtreebench.Prelude.{ℕ, ◌≡◌, ◌+◌, ◌≢◌, ap, sym, ◌∙◌, arith, some, ◌++◌, ◌∷◌, refl}
use ebmbtreebench.Tree.{
  leaf, node, Tree, Ctx, Holds, link, slot, root_of, plug, before, in_rght, leaves, after,
}
use ebmbtreebench.Dup.{
  ℕ, Mem, insert_above_leaf, insert_above_node, Ptr, Bit, eb_node, eb_rght, eb_left, negsuc,
  bit_pred, eb_leaf, some,
}
use ebmbtreebench.Memory.{
  Mem, Ptr, update, Bit, eb_node, eb_rght, eb_clrtag, eb_left, negsuc, untag_gettag, eb_leaf,
}
use ebmbtreebench.Tree.Hang.{Site}
use ebmbtreebench.Insert.{Fresh, written, Above, grow}
use mathlib.Core.Path.{subst, ap₂}
use ebmbtreebench.Tree.Frame.{clrtag-left, clrtag-rght}
use ebmbtreebench.Insert.Writes.{written-Above, ne_slot}
use ebmbtreebench.Walk.Down.{untag-leaf}
use ebmbtreebench.Insert.Grown.{Grown, CanInsert, grown_right, Fresh-of_CanInsert}
use ebmbtreebench.Dup.Spine.{OnSpine, LastSpot, NodeSpot, OnSpine-rght}
use ebmbtreebench.Tree.Valid.{Valid, Site-of_Valid}

-- The bit of the new node, from what it is put above.
abbrev pub lower : Tree → Bit
lower (leaf a) = negsuc 0
lower (node a k l r) = bit_pred k

-- The order of writes of `__eb_insert_dup`: the slot first.
abbrev appended : ℕ → Tree → Ptr → Mem → ℕ → Ptr
appended p t new m =
    update (update (update m.b p (new + eb_node)) (new + eb_left) (link t)) (new + eb_rght)
      (new + eb_leaf)

module _ (m : Mem) (c : Ctx) (t : Tree) (new : Ptr) (k : Bit) (s : Site m c t)
    (f : Fresh new c t) where
  appended-Above :
      Above m (written (appended (slot c) t new m) (slot c) t new k eb_left m) c t new k eb_left
  appended-Above =
      let a = f.addr in
      let n0 : new + eb_left ≢ slot c =
        λ e. ne_slot m c t new s f (ap eb_clrtag (sym e) ∙ clrtag-left a) in
      let n1 : new + eb_rght ≢ slot c =
        λ e. ne_slot m c t new s f (ap eb_clrtag (sym e) ∙ clrtag-rght a) in
      written-Above m (appended (slot c) t new m) c t new k eb_left f (ground (arith, n0, n1))
        (ground arith) (ground arith)
        (λ y ne ne'.
          let d0 : y ≢ new + eb_left = λ e. ne' (ap eb_clrtag e ∙ clrtag-left a) in
          let d1 : y ≢ new + eb_rght = λ e. ne' (ap eb_clrtag e ∙ clrtag-rght a) in ground arith)

insert_above_leaf-written :
    (m : Mem) (head new z : Ptr)
    → Holds m (head + eb_rght) (leaf z)
    → insert_above_leaf head new m
      ≡ written
          (appended (head + eb_rght) (leaf z) new m)
          (head + eb_rght)
          (leaf z)
          new
          (negsuc 0)
          eb_left
          m
unfolding insert_above_leaf
insert_above_leaf-written m head new z h = rw h.0 (rw (untag-leaf z, h.1))

insert_above_node-written :
    (m : Mem) (sub new : Ptr) (k : Bit) (l r : Tree) (p : ℕ)
    → Holds m p (node sub k l r)
    → insert_above_node sub new m
      ≡ written (appended p (node sub k l r) new m) p (node sub k l r) new (bit_pred k) eb_left m
unfolding insert_above_node
insert_above_node-written m sub new k l r p h = rw (h.1, h.2) (rw (untag_gettag p))

module _ (m : Mem) (c0 : Ctx) (t0 : Tree) (new : Ptr) where
  pub record Appended (n : Mem) : Type 0 where
    pub grown : Grown n (root_of c0) (plug c0 t0) new (before c0 ++ leaves t0) (after c0)
    pub on : OnSpine c0 t0 grown.at grown.sub
    pub bit_is : grown.bit ≡ lower grown.sub
    pub side_is : grown.side ≡ 0

  -- A new structure above any subtree of the spine ends up behind all the leaves.
  spine-Grown :
      (n : Mem) (c : Ctx) (t : Tree) (k : Bit)
      → OnSpine c0 t0 c t
      → Valid m (root_of c) (some (plug c t))
      → CanInsert new (root_of c) (some (plug c t))
      → Above m n c t new k eb_left
      → k ≡ lower t
      → Appended n
  unfolding grown_right
  spine-Grown n c t k on v f above low =
      let g = grown_right m n c t new k v f above in
      record {
        on = on;
        bit_is = low;
        side_is = refl;
        grown = record {
          at = g.at;
          sub = g.sub;
          bit = g.bit;
          side = g.side;
          from = g.from ∙ on.whole;
          base = g.base ∙ on.root;
          valid =
              subst (λ r. Valid n r (some (plug g.at (grow new g.bit g.side g.sub)))) on.root
                g.valid;
          order = g.order ∙ ap₂ (λ xs ys. xs ++ new ∷ ys) on.front on.back;
        };
      }

  moved-Valid :
      {c : Ctx} {t : Tree}
      → OnSpine c0 t0 c t
      → Valid m (root_of c0) (some (plug c0 t0))
      → Valid m (root_of c) (some (plug c t))
  moved-Valid {c} {t} on v =
      subst (λ r. Valid m r (some (plug c t))) (sym on.root)
        (subst (λ z. Valid m (root_of c0) (some z)) (sym on.whole) v)

  moved_fresh :
      {c : Ctx} {t : Tree}
      → OnSpine c0 t0 c t
      → CanInsert new (root_of c0) (some (plug c0 t0))
      → CanInsert new (root_of c) (some (plug c t))
  moved_fresh {c} {t} on v =
      subst (λ r. CanInsert new r (some (plug c t))) (sym on.root)
        (subst (λ z. CanInsert new (root_of c0) (some z)) (sym on.whole) v)

  pub leaf-Appended :
      (head : Ptr) (s : LastSpot c0 t0 head)
      → Valid m (root_of c0) (some (plug c0 t0))
      → CanInsert new (root_of c0) (some (plug c0 t0))
      → Appended (insert_above_leaf head new m)
  leaf-Appended head s v f =
      let c = in_rght head s.bit s.left s.at in
      let on = OnSpine-rght s.at head s.bit s.left (leaf s.last) s.on in
      let v' = moved-Valid on v in
      let f' = moved_fresh on f in
      let site = Site-of_Valid m c (leaf s.last) v' in
      rw (insert_above_leaf-written m head new s.last site.holds) (
        spine-Grown _ c (leaf s.last) (negsuc 0) on v' f'
          (appended-Above m c (leaf s.last) new (negsuc 0) site
            (Fresh-of_CanInsert new c (leaf s.last) f'))
          refl)

  pub node-Appended :
      (sub : Ptr) (s : NodeSpot c0 t0 sub)
      → Valid m (root_of c0) (some (plug c0 t0))
      → CanInsert new (root_of c0) (some (plug c0 t0))
      → Appended (insert_above_node sub new m)
  node-Appended sub s v f =
      let t = node sub s.bit s.left s.rght in
      let v' = moved-Valid s.on v in
      let f' = moved_fresh s.on f in
      let site = Site-of_Valid m s.at t v' in
      rw (insert_above_node-written m sub new s.bit s.left s.rght (slot s.at) site.holds) (
        spine-Grown _ s.at t (bit_pred s.bit) s.on v' f'
          (appended-Above m s.at t new (bit_pred s.bit) site (Fresh-of_CanInsert new s.at t f'))
          refl)
