-- ===== src/Tree/Plug.antt =====
-- A tree taken apart at a slot and put together again.
use mathlib.Core.List.{append_assoc, append-nil}
use ebmbtreebench.Prelude.{◌≡◌, ◌∙◌, ap, sym, some, ◌++◌}
use ebmbtreebench.Memory.{Mem}
use ebmbtreebench.Tree.{
  Tree, node, Ctx, top, in_left, in_rght, slot, plug, leaves, before, after, Holds, Around, Rooted,
  root_of,
}

pub leaves-plug : (c : Ctx) (t : Tree) → leaves (plug c t) ≡ before c ++ (leaves t ++ after c)
unfolding leaves before after plug
leaves-plug (top root) t = sym (append-nil (leaves t))
leaves-plug (in_left a k r c) t =
    leaves-plug c (node a k t r)
    ∙ ap (λ x. before c ++ x) (append_assoc (leaves t) (leaves r) (after c))
leaves-plug (in_rght a k l c) t =
    leaves-plug c (node a k l t)
    ∙ ap (λ x. before c ++ x) (append_assoc (leaves l) (leaves t) (after c))
    ∙ sym (append_assoc (before c) (leaves l) (leaves t ++ after c))

module _ (m : Mem) where
  pub Rooted-plug :
      (c : Ctx) (t : Tree)
      → Around m c
      → Holds m (slot c) t
      → Rooted m (root_of c) (some (plug c t))
  unfolding plug
  Rooted-plug (top root) t h e = (h, e)
  Rooted-plug (in_left a k r c) t h e =
      Rooted-plug c (node a k t r) h.5 (h.0, h.1, h.2, h.3, e, h.4)
  Rooted-plug (in_rght a k l c) t h e =
      Rooted-plug c (node a k l t) h.5 (h.0, h.1, h.2, h.3, h.4, e)

  pub Around-Holds_of_Rooted :
      (c : Ctx) (t : Tree)
      → Rooted m (root_of c) (some (plug c t))
      → Around m c × Holds m (slot c) t
  unfolding plug
  Around-Holds_of_Rooted (top root) t h = h
  Around-Holds_of_Rooted (in_left a k r c) t h =
      let (around, (b, up, bit, addr, hl, hr)) = Around-Holds_of_Rooted c (node a k t r) h in
      ((b, up, bit, addr, hr, around), hl)
  Around-Holds_of_Rooted (in_rght a k l c) t h =
      let (around, (b, up, bit, addr, hl, hr)) = Around-Holds_of_Rooted c (node a k l t) h in
      ((b, up, bit, addr, hl, around), hr)
