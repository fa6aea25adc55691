-- ===== src/Scalar/Between.antt =====
-- The writes of an insertion above a leaf or a node, on either side.
use ebmbtreebench.Scalar.{Place, place, prepare, put_between, ℕ, Ptr, Mem}
use ebmbtreebench.Scalar.Descent.{top_of}
use ebmbtreebench.Insert.{Above, Fresh, written}
use ebmbtreebench.Prelude.{ℕ, true, ◌≡◌, ◌+◌, arith, ap, false, ◌≢◌, ◌∙◌, sym, ◌==◌, refl}
use ebmbtreebench.Memory.{
  Ptr, Mem, update, Bit, set_bit, eb_left, eb_rght, eb_clrtag, eb_leaf, eb_node, eb_gettag,
}
use ebmbtreebench.Tree.{Tree, Ctx, link, Holds, slot, leaf, node}
use ebmbtreebench.Tree.Hang.{Site}
use ebmbtreebench.Insert.Writes.{written-Above, ne_slot}
use ebmbtreebench.Tree.Frame.{clrtag-left, clrtag-rght}

update_twice {ℓ} :
    {A : Type ℓ} (f : ℕ → A) (a : ℕ) (u v : A) → update (update f a u) a v ≡ update f a v
update_twice f a u v = λ i x. at x i
  where
    at : (x : ℕ) → update (update f a u) a v x ≡ update f a v x
    at x = ground arith

pub prepare_twice :
    (p : Place) (new : Ptr) (k k' : Bit) (m : Mem)
    → set_bit new k' (prepare p new k m) ≡ prepare p new k' m
unfolding prepare
prepare_twice p new k k' m =
    ap (λ g. record (prepare p new k' m) { bit = g }) (update_twice m.bit new k k')

abbrev pub to_right : ℕ → Tree → Ptr → Mem → ℕ → Ptr
to_right p t new m =
    update (update (update m.b (new + eb_left) (link t)) (new + eb_rght) (new + eb_leaf)) p
      (new + eb_node)

abbrev pub to_left : ℕ → Tree → Ptr → Mem → ℕ → Ptr
to_left p t new m =
    update (update (update m.b (new + eb_left) (new + eb_leaf)) (new + eb_rght) (link t)) p
      (new + eb_node)

abbrev pub place_of : Ptr → ℕ → Tree → Place
place_of root side t = place root side (link t) (top_of t)

module _ (m : Mem) (new : Ptr) (k : Bit) (root : Ptr) (side : ℕ) where
  pub right-written :
      (t : Tree)
      → Holds m (root + side) t
      → put_between true (place_of root side t) new (prepare (place_of root side t) new k m)
        ≡ written (to_right (root + side) t new m) (root + side) t new k eb_left m
  unfolding put_between prepare
  right-written (leaf a) h =
      let e : (eb_gettag (a + 0) == 0) ≡ true = let i = h.2 in ground arith in rw e (rw h.1 refl)
  right-written (node a k' l r) h =
      let e : (eb_gettag (a + 1) == 0) ≡ false = let i = h.3 in ground arith in rw e (rw h.1 refl)

  pub left-written :
      (t : Tree)
      → Holds m (root + side) t
      → put_between false (place_of root side t) new (prepare (place_of root side t) new k m)
        ≡ written (to_left (root + side) t new m) (root + side) t new k eb_rght m
  unfolding put_between prepare
  left-written (leaf a) h =
      let e : (eb_gettag (a + 0) == 0) ≡ true = let i = h.2 in ground arith in rw e (rw h.1 refl)
  left-written (node a k' l r) h =
      let e : (eb_gettag (a + 1) == 0) ≡ false = let i = h.3 in ground arith in rw e (rw h.1 refl)

module _ (m : Mem) (c : Ctx) (t : Tree) (new : Ptr) (k : Bit) (s : Site m c t)
    (f : Fresh new c t) where
  n0 : new + eb_left ≢ slot c
  n0 e = ne_slot m c t new s f (ap eb_clrtag (sym e) ∙ clrtag-left f.addr)

  n1 : new + eb_rght ≢ slot c
  n1 e = ne_slot m c t new s f (ap eb_clrtag (sym e) ∙ clrtag-rght f.addr)

  off0 : (y : ℕ) → eb_clrtag y ≢ new → y ≢ new + eb_left
  off0 y ne e = ne (ap eb_clrtag e ∙ clrtag-left f.addr)

  off1 : (y : ℕ) → eb_clrtag y ≢ new → y ≢ new + eb_rght
  off1 y ne e = ne (ap eb_clrtag e ∙ clrtag-rght f.addr)

  pub right-Above :
      Above m (written (to_right (slot c) t new m) (slot c) t new k eb_left m) c t new k eb_left
  right-Above =
      written-Above m (to_right (slot c) t new m) c t new k eb_left f (ground arith)
        (ground (arith, n0)) (ground (arith, n1))
        (λ y ne ne'. ground (arith, off0 y ne', off1 y ne'))

  pub left-Above :
      Above m (written (to_left (slot c) t new m) (slot c) t new k eb_rght m) c t new k eb_rght
  left-Above =
      written-Above m (to_left (slot c) t new m) c t new k eb_rght f (ground arith)
        (ground (arith, n1)) (ground (arith, n0))
        (λ y ne ne'. ground (arith, off0 y ne', off1 y ne'))
