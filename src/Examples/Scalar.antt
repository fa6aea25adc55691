-- ===== src/Examples/Scalar.antt =====
-- Runs of the insertions of eb32tree.h, with small keys.
use ebmbtreebench.Examples.{keys, small, small_tree, small-Valid, eight_CanInsert, height, arith}
use ebmbtreebench.Scalar.{eb32_insert}
use ebmbtreebench.Scalar.Correct.{Inserted, Refused}
use ebmbtreebench.Scalar.Insert.{eb32_insert-Ends}
use ebmbtreebench.Tree.{height}
use ebmbtreebench.Prelude.{◌⊎◌, arith}
use ebmbtreebench.Wide.{eb64_insert}
use ebmbtreebench.Wide.Correct.{eb64_insert-Ends}

eb32_insert_example :
    Inserted (eb32_insert keys 9 100 8 small) 100 small_tree 8
    ⊎ Refused keys (eb32_insert keys 9 100 8 small) 0 100 small_tree 8
unfolding height
eb32_insert_example =
    eb32_insert-Ends keys 9 small 100 8 small_tree (omega arith) small-Valid eight_CanInsert

eb64_insert_example :
    Inserted (eb64_insert keys 9 100 8 small) 100 small_tree 8
    ⊎ Refused keys (eb64_insert keys 9 100 8 small) 0 100 small_tree 8
unfolding height
eb64_insert_example =
    eb64_insert-Ends keys 9 small 100 8 small_tree (omega arith) small-Valid eight_CanInsert
