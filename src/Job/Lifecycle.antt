-- ===== src/Job/Lifecycle.antt =====
-- The lifecycle of a job as an order of its statuses, and what its times say.
use a_hand.Base.{ℕ, ◌≤◌, ◌<◌, ◌≡◌, ◌⊎◌, ◌≢◌, none, ◌↔◌, true, List, [], ◌∷◌, arith, is_some}
use a_hand.Base.Text.{Text}
use a_hand.Hub.{
  JobStatus, pending, sent, running, finished, failed, cancelled, illegal_job_transition, ok, err,
}
use a_hand.Job.{
  Job, NewJob, is_terminal_status, resolve_status_transition, new_pending, apply_status_transition,
}

-- How far a job has come: the three terminal statuses stand side by side at the end.
abbrev pub rank : JobStatus → ℕ
rank pending = 0
rank sent = 1
rank running = 2
rank finished = 3
rank failed = 3
rank cancelled = 3

-- A request is granted exactly when it asks for the present status or for one further on, and
-- then the job takes the requested status; any other is refused with the two statuses.
resolve_status_transition-rank :
    (current requested : JobStatus)
    → ((resolve_status_transition current requested ≡ ok requested)
        ↔ ((current ≡ requested) ⊎ (rank current < rank requested)))
      × ((resolve_status_transition current requested ≡ ok requested)
          ⊎ (resolve_status_transition current requested
              ≡ err (illegal_job_transition current requested)))
unfolding resolve_status_transition
resolve_status_transition-rank pending requested = ground arith
resolve_status_transition-rank sent requested = ground arith
resolve_status_transition-rank running requested = ground arith
resolve_status_transition-rank finished requested = ground arith
resolve_status_transition-rank failed requested = ground arith
resolve_status_transition-rank cancelled requested = ground arith

-- Requests with the times at which they arrive.
abbrev pub apply_all : Job → List (JobStatus × ℕ) → Job
apply_all j [] = j
apply_all j ((requested, at) ∷ rs) = apply_all (apply_status_transition j requested at).0 rs

pub record IsTimed (j : Job) : Type 0 where
  pub ended : (is_terminal_status j.status ≡ true) ↔ (is_some j.finished_at ≡ true)
  pub begun : (j.status ≢ running) ⊎ (is_some j.started_at ≡ true)

apply_status_transition-IsTimed :
    (j : Job) (requested : JobStatus) (at : ℕ)
    → IsTimed j
    → IsTimed (apply_status_transition j requested at).0
unfolding apply_status_transition
apply_status_transition-IsTimed j requested at v = ground arith

apply_all-IsTimed : (j : Job) (rs : List (JobStatus × ℕ)) → IsTimed j → IsTimed (apply_all j rs)
apply_all-IsTimed j [] v = v
apply_all-IsTimed j ((requested, at) ∷ rs) v =
    apply_all-IsTimed (apply_status_transition j requested at).0 rs
      (apply_status_transition-IsTimed j requested at v)

new_pending-IsTimed : (id : Text) (job : NewJob) (at : ℕ) → IsTimed (new_pending id job at)
unfolding new_pending is_terminal_status
new_pending-IsTimed id job at = ground arith

-- After any requests to a new job: it has a finish time exactly when its status is terminal, and
-- a start time whenever it is running.
pub apply_all-new_pending :
    (id : Text) (job : NewJob) (created_at : ℕ) (rs : List (JobStatus × ℕ))
    → IsTimed (apply_all (new_pending id job created_at) rs)
apply_all-new_pending id job created_at rs =
    apply_all-IsTimed (new_pending id job created_at) rs (new_pending-IsTimed id job created_at)

-- What one request leaves of a job.
abbrev pub Follows : Job → Job → Type 0
Follows j k =
    (rank j.status ≤ rank k.status)
    × ((j.started_at ≡ none) ⊎ (k.started_at ≡ j.started_at))
    × (k.id ≡ j.id)
    × (k.created_at ≡ j.created_at)

apply_status_transition-Follows :
    (j : Job) (requested : JobStatus) (at : ℕ)
    → Follows j (apply_status_transition j requested at).0
unfolding apply_status_transition
apply_status_transition-Follows j requested at = ground arith

-- Whatever is requested, the status of a job never goes back, a start time once set stays, and
-- so do its id and its creation time.
apply_all-Follows : (j : Job) (rs : List (JobStatus × ℕ)) → Follows j (apply_all j rs)
apply_all-Follows j [] = ground arith
apply_all-Follows j ((requested, at) ∷ rs) = ground (
  arith,
  apply_status_transition-Follows j requested at,
  apply_all-Follows (apply_status_transition j requested at).0 rs,
)
