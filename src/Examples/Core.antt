-- ===== src/Examples/Core.antt =====
-- Runs of the walks, the insertion of a duplicate and the deletion.
use ebmbtreebench.Examples.{
  small, small_tree, at_dups, at_four, small-Rooted, small-Valid, eight_CanInsert, four_Site, plug,
  ◌≡◌, some, arith, negsuc, leaf, dups,
}
use ebmbtreebench.Walk.{
  eb_next, eb_prev, eb_next_dup, eb_prev_dup, eb_next_unique, eb_prev_unique, list_nodes,
}
use ebmbtreebench.Dup.Correct.{Inserts, eb_insert_dup-Inserts}
use ebmbtreebench.Delete.Correct.{eb_delete-Removed}
use ebmbtreebench.Delete.Undo.{TakenBack, eb_delete-eb32_insert, eb_delete-eb_delete}
use ebmbtreebench.Examples.{keys}
use ebmbtreebench.Prelude.{◌⊎◌}
use ebmbtreebench.Scalar.{eb32_insert}
use ebmbtreebench.Scalar.Correct.{Refused}
use ebmbtreebench.Tree.{depth, height_of, before, leaves, plug, height, after, contents, leaf}
use ebmbtreebench.Prelude.{◌≡◌, ◌∷◌, some, [], arith, inl, inr, refl}
use ebmbtreebench.Delete.Lifted.{Removed}
use ebmbtreebench.Delete.{eb_delete}
use ebmbtreebench.Tree.Dups.{after_dups, before_dups, after_unique, before_unique}
use ebmbtreebench.Walk.Neighbours.{eb_next-after, eb_prev-before}
use ebmbtreebench.Walk.Dups.{eb_next_dup-after, eb_prev_dup-before}
use ebmbtreebench.Memory.{null, negsuc}
use ebmbtreebench.Walk.Unique.{eb_prev_unique-before, eb_next_unique-after}
use ebmbtreebench.Walk.Listing.{list_nodes-contents}

eb_next_example : eb_next 9 small 4 ≡ some 6
unfolding depth height after leaves
eb_next_example = eb_next-after small 9 at_four 4 (omega arith) four_Site.around four_Site.holds

eb_prev_example : eb_prev 9 small 4 ≡ some 2
unfolding depth height before leaves
eb_prev_example = eb_prev-before small 9 at_four 4 (omega arith) four_Site.around four_Site.holds

eb_next_dup_example : eb_next_dup 9 small 4 ≡ some 6
unfolding depth height after_dups leaves
eb_next_dup_example =
    eb_next_dup-after small 9 at_four 4 (omega arith) four_Site.around four_Site.holds

eb_prev_dup_example : eb_prev_dup 9 small 4 ≡ some null
unfolding depth height before_dups leaves
eb_prev_dup_example =
    eb_prev_dup-before small 9 at_four 4 (omega arith) four_Site.around four_Site.holds

eb_next_unique_example : eb_next_unique 9 small 4 ≡ some null
unfolding depth height after_unique leaves
eb_next_unique_example =
    eb_next_unique-after small 9 at_four 4 (omega arith) four_Site.around
      (inl (refl, inr (refl, tt))) four_Site.holds

eb_prev_unique_example : eb_prev_unique 9 small 4 ≡ some 2
unfolding depth height before_unique leaves
eb_prev_unique_example =
    eb_prev_unique-before small 9 at_four 4 (omega arith) four_Site.around
      (inl (refl, inr (refl, tt))) four_Site.holds

list_nodes_example : list_nodes 9 9 small 100 ≡ some (2 ∷ 4 ∷ 6 ∷ [])
unfolding height_of height contents leaves
list_nodes_example =
    list_nodes-contents small 9 9 100 (some small_tree) (omega arith) (omega arith) small-Rooted

eb_delete_example : Removed 4 (2 ∷ 6 ∷ []) 100 (eb_delete 4 small)
unfolding before after leaves plug
eb_delete_example = eb_delete-Removed small 4 at_four small-Valid

eb_insert_dup_example : Inserts 9 small at_dups dups 100 small_tree 6 8 (2 ∷ 4 ∷ 6 ∷ []) []
unfolding before after leaves plug height
eb_insert_dup_example =
    eb_insert_dup-Inserts 9 small at_dups 6 (negsuc 0) (leaf 4) (leaf 6) 8 (omega arith) small-Valid
      eight_CanInsert

insert_and_delete_example :
    TakenBack (eb32_insert keys 9 100 8 small) 100 small_tree 8
    ⊎ Refused keys (eb32_insert keys 9 100 8 small) 0 100 small_tree 8
unfolding height
insert_and_delete_example =
    eb_delete-eb32_insert keys 9 small 100 8 small_tree (omega arith) small-Valid eight_CanInsert

delete_twice_example : eb_delete 4 (eb_delete 4 small) ≡ eb_delete 4 small
unfolding plug
delete_twice_example = eb_delete-eb_delete small 4 at_four small-Valid
