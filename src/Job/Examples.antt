-- ===== src/Job/Examples.antt =====
-- A job and requests to change its status.
use a_hand.Base.{ℕ, false, List, [], ◌∷◌, none}
use a_hand.Base.Text.{codes}
use a_hand.Hub.{JobStatus, pending, sent, running, finished, failed}
use a_hand.Job.{NewJob, new_pending}
use a_hand.Job.Lifecycle.{IsTimed, apply_all, apply_all-new_pending}

abbrev listing : NewJob
listing = record {
  device_id = codes "d1";
  tool = codes "ls";
  args = codes "-l" ∷ [];
  cwd = none;
  env = [];
  timeout_ms = 1000;
  requested_by = codes "u1";
  interactive = false;
}

abbrev requests : List (JobStatus × ℕ)
requests = (sent, 2) ∷ (running, 3) ∷ (pending, 4) ∷ (finished, 5) ∷ (failed, 6) ∷ []

apply_all-new_pending_example : IsTimed (apply_all (new_pending (codes "j1") listing 1) requests)
apply_all-new_pending_example = apply_all-new_pending (codes "j1") listing 1 requests
