-- ===== src/JobRegistry.antt =====
-- The daemon's registry of running and completed jobs, crates/ahandd/src/registry.rs. A channel
-- sender is a number; whether a channel is still open is an argument of the operations that send.
-- Waiting for a permit of the semaphore is not modelled.
pub mod History
mod Examples
use a_hand.Base.{
  ℕ, suc, ltb, Bool, true, false, List, [], ◌∷◌, ◌++◌, Option, none, some, ◌==◌, if◌then◌else◌,
  length,
}
use a_hand.Base.Text.{Text, text_eq}
use a_hand.Base.Map
use a_hand.Base.Map.{Map}

-- `exit_code` is the `i32` as the bits of its two's complement.
pub record CompletedJob : Type 0 where
  pub exit_code : ℕ
  pub error : Text

pub data IsKnown : Type 0 where
  running : IsKnown
  completed : CompletedJob → IsKnown
  unknown : IsKnown

pub record JobRegistry : Type 0 where
  pub jobs : Map Text ℕ
  pub stdin_senders : Map Text ℕ
  pub semaphore : ℕ
  pub completed : List (Text × CompletedJob)
  pub max_completed : ℕ

unfoldable pub new : ℕ → JobRegistry
new max_concurrent = record {
  jobs = [];
  stdin_senders = [];
  semaphore = max_concurrent;
  completed = [];
  max_completed = 1000;
}

unfoldable pub register : JobRegistry → Text → ℕ → JobRegistry
register g job_id cancel_tx = record g { jobs = Map.insert job_id cancel_tx g.jobs }

unfoldable pub register_interactive : JobRegistry → Text → ℕ → ℕ → JobRegistry
register_interactive g job_id cancel_tx stdin_tx = record g {
  jobs = Map.insert job_id cancel_tx g.jobs;
  stdin_senders = Map.insert job_id stdin_tx g.stdin_senders;
}

-- Whether the input was delivered.
unfoldable pub send_stdin : (ℕ → Bool) → JobRegistry → Text → Bool
send_stdin is_open g job_id = elim (Map.get job_id g.stdin_senders) [
  | none ↦ false
  | some tx ↦ is_open tx
]

-- The channel that a cancel signal goes to, if it is open.
unfoldable pub cancel : (ℕ → Bool) → JobRegistry → Text → Option ℕ
cancel is_open g job_id = elim (Map.get job_id g.jobs) [
  | none ↦ none
  | some cancel_tx ↦ if is_open cancel_tx then some cancel_tx else none
]

unfoldable pub remove : JobRegistry → Text → JobRegistry
remove g job_id = record g {
  jobs = Map.remove job_id g.jobs;
  stdin_senders = Map.remove job_id g.stdin_senders;
}

-- The first entry of the cache for a job.
unfoldable pub find_completed : Text → List (Text × CompletedJob) → IsKnown
find_completed job_id [] = unknown
find_completed job_id ((id, result) ∷ entries) =
    let rest = find_completed job_id entries in
    if id == job_id then IsKnown.completed result else rest

unfoldable pub is_known : JobRegistry → Text → IsKnown
unfolding find_completed
is_known g job_id =
    if Map.contains_key job_id g.jobs then running else find_completed job_id g.completed

-- `while completed.len() > max_completed { completed.pop_front() }`.
unfoldable pub pop_over : ℕ → List (Text × CompletedJob) → List (Text × CompletedJob)
pop_over max [] = []
pop_over max (entry ∷ entries) =
    if ltb max (suc (length entries)) then pop_over max entries else entry ∷ entries

unfoldable pub mark_completed : JobRegistry → Text → ℕ → Text → JobRegistry
unfolding pop_over
mark_completed g job_id exit_code error = record g {
  completed =
      pop_over g.max_completed
        (g.completed ++ ((job_id, record { exit_code = exit_code; error = error }) ∷ []));
}

unfoldable pub active_count : JobRegistry → ℕ
active_count g = length g.jobs
