-- ===== src/PendingFiles/Examples.antt =====
-- A table with room for two requests.
use a_hand.Base.{pair_eq, nat_eq, List, [], ◌∷◌}
use a_hand.Base.Text.{codes, text_eq}
use a_hand.PendingFiles.{PendingFileRequests, new}
use a_hand.PendingFiles.Capacity.{
  Op, registers, resolves, cancels, run, IsCounted, run-new-IsCounted,
}

abbrev ops : List Op
ops =
    registers (codes "d1") (codes "r1") 1
    ∷ registers (codes "d1") (codes "r1") 2
    ∷ registers (codes "d2") (codes "r1") 3
    ∷ registers (codes "d2") (codes "r2") 4
    ∷ resolves (codes "d1") (codes "r1")
    ∷ cancels (codes "d1") (codes "r1")
    ∷ []

abbrev table : PendingFileRequests
table = run (new 2) ops

run-new-IsCounted_example : IsCounted table
run-new-IsCounted_example = run-new-IsCounted 2 ops
