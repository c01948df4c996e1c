-- ===== src/JobRegistry/Examples.antt =====
-- A job that runs and completes.
use a_hand.Base.{◌≡◌, ◌-◌, drop, length, false, if◌then◌else◌, List, [], ◌∷◌}
use a_hand.Base.Text.{codes}
use a_hand.JobRegistry.{running, new, is_known}
use a_hand.JobRegistry.History.{
  Op, registers, registers_interactive, removes, completes, run, completions, is_live, results,
  oldest, is_known-run,
}

abbrev ops : List Op
ops =
    registers (codes "j1") 1
    ∷ registers_interactive (codes "j2") 2 3
    ∷ removes (codes "j1")
    ∷ completes (codes "j1") 0 []
    ∷ []

is_known-run_example : is_known (run (new 4) ops) (codes "j1") ≡ (
    if is_live (codes "j1") false ops
    then running
    else oldest (results (codes "j1") (drop (length (completions ops) - 1000) (completions ops))))
is_known-run_example = is_known-run 4 ops (codes "j1")
