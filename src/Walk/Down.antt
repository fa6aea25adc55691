-- ===== src/Walk/Down.antt =====
-- Walking down one side of a subtree ends at its outermost leaf.
use ebmbtreebench.Prelude.{ℕ, zero, suc, ◌+◌, ◌<◌, ◌≡◌, ◌∙◌, ◌==◌, some, true, false, refl, arith}
use ebmbtreebench.Memory.{Ptr, null, Mem, eb_left, eb_rght, eb_gettag, eb_untag}
use ebmbtreebench.Tree.{Tree, leaf, node, first, last, height, Holds, IsAddr}
use ebmbtreebench.Walk.{eb_walk_down}

pub gettag-leaf : {a : Ptr} → IsAddr a → (eb_gettag (a + 0) == 1) ≡ false
gettag-leaf h = ground arith

pub gettag-node : {a : Ptr} → IsAddr a → (eb_gettag (a + 1) == 1) ≡ true
gettag-node h = ground arith

pub node_tag : {a : Ptr} → IsAddr a → (eb_gettag (a + 1) == 0) ≡ false
node_tag h = ground arith

pub leaf_tag : {a : Ptr} → IsAddr a → (eb_gettag (a + 0) == 0) ≡ true
leaf_tag h = ground arith

pub untag-node : (a : Ptr) → eb_untag (a + 1) 1 ≡ a
untag-node a = omega arith

pub untag-leaf : (a : Ptr) → eb_untag (a + 0) 0 ≡ a
untag-leaf a = omega arith

module _ (m : Mem) (side f : ℕ) {a : Ptr} (h : IsAddr a) where
  pub walk_down-leaf : eb_walk_down (suc f) m (a + 0) side ≡ some a
  unfolding eb_walk_down
  walk_down-leaf = rw (gettag-leaf h, eb_walk_down) (rw (untag-leaf a))

  pub walk_down-node : eb_walk_down (suc f) m (a + 1) side ≡ eb_walk_down f m (m.b (a + side)) side
  unfolding eb_walk_down
  walk_down-node = rw (gettag-node h, eb_walk_down) (rw (untag-node a))

module _ (m : Mem) where
  pub walk_down-first :
      (f : ℕ) (t : Tree) (p : ℕ)
      → height t < f
      → Holds m p t
      → eb_walk_down f m (m.b p) eb_left ≡ some (first t)
  unfolding first height
  walk_down-first zero t p fuel h = absurd (omega arith)
  walk_down-first (suc f) (leaf a) p fuel h = rw h.0 (walk_down-leaf m eb_left f h.2)
  walk_down-first (suc f) (node a k l r) p fuel h =
      rw h.0 (walk_down-node m eb_left f h.3 ∙ walk_down-first f l (a + eb_left) (omega arith) h.4)

  pub walk_down-last :
      (f : ℕ) (t : Tree) (p : ℕ)
      → height t < f
      → Holds m p t
      → eb_walk_down f m (m.b p) eb_rght ≡ some (last t)
  unfolding last height
  walk_down-last zero t p fuel h = absurd (omega arith)
  walk_down-last (suc f) (leaf a) p fuel h = rw h.0 (walk_down-leaf m eb_rght f h.2)
  walk_down-last (suc f) (node a k l r) p fuel h =
      rw h.0 (walk_down-node m eb_rght f h.3 ∙ walk_down-last f r (a + eb_rght) (omega arith) h.5)

pub walk_down-null : (f : ℕ) (m : Mem) (side : ℕ) → 0 < f → eb_walk_down f m null side ≡ some null
unfolding eb_walk_down
walk_down-null zero m side fuel = absurd (omega arith)
walk_down-null (suc f) m side fuel = refl
