-- ===== src/JobStore/Examples.antt =====
-- A store with one job.
use a_hand.Base.{refl, false, [], ◌∷◌, some}
use a_hand.Base.Map
use a_hand.Base.Text.{text_eq, codes}
use a_hand.Hub.{running, finished}
use a_hand.Job.{Job, NewJob, new_pending, is_terminal_status}
use a_hand.JobStore.{JobStore}
use a_hand.JobStore.Laws.{transitions, terminals, Keeps, run, run-Keeps}

abbrev copying : NewJob
copying = record {
  device_id = codes "d1";
  tool = codes "cp";
  args = [];
  cwd = some (codes "/tmp");
  env = [];
  timeout_ms = 500;
  requested_by = codes "u1";
  interactive = false;
}

abbrev queued : Job
queued = new_pending (codes "j1") copying 1

abbrev done : Job
done = record (new_pending (codes "j2") copying 2) {
  status = finished;
  started_at = some 3;
  finished_at = some 4;
}

abbrev stored : JobStore
stored = (codes "j1", queued) ∷ (codes "j2", done) ∷ []

run-Keeps_example : Keeps done (
    Map.get
      (codes "j2")
      (run stored (transitions (codes "j2") running 7 ∷ terminals (codes "j2") 1 [] [] ∷ [])))
unfolding Map.get is_terminal_status
run-Keeps_example =
    run-Keeps (codes "j2") done stored
      (transitions (codes "j2") running 7 ∷ terminals (codes "j2") 1 [] [] ∷ []) (refl, refl, refl)
      refl tt
