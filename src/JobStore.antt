-- ===== src/JobStore.antt =====
-- The job store of a hub in memory mode: `MemoryJobStore` of crates/ahand-hub/src/state.rs. The
-- fresh uuid and the time of a call are its arguments.
pub mod Laws
mod Examples
use a_hand.Base.{
  ℕ, Bool, true, false, ◌&&◌, ◌||◌, List, map, Option, none, some, ltb, ◌==◌, nat_eq, if◌then◌else◌,
  keep,
}
use a_hand.Base.Text.{Text, text_eq}
use a_hand.Base.Map
use a_hand.Base.Map.{Map}
use a_hand.Base.Sort.{sort_by, text_leb}
use a_hand.Hub.{JobStatus, job_not_found, Result, ok, err}
use a_hand.Job.{Job, NewJob, JobFilter, status_eq, new_pending, apply_status_transition}

abbrev pub JobStore : Type 0
JobStore = Map Text Job

unfoldable pub insert : JobStore → NewJob → Text → ℕ → JobStore × Result Job
insert jobs new_job id now =
    let job = new_pending id new_job now in (Map.insert id job jobs, ok job)

unfoldable pub get : JobStore → Text → Result (Option Job)
get jobs job_id = ok (Map.get job_id jobs)

abbrev pub is_none_or {ℓ} : {A : Type ℓ} → Option A → (A → Bool) → Bool
is_none_or none p = true
is_none_or (some a) p = p a

abbrev pub matches : JobFilter → Job → Bool
matches filter job =
    is_none_or filter.device_id (λ device_id. job.device_id == device_id)
    && is_none_or filter.status (λ status. status_eq job.status status)

-- By creation time, and then by id.
abbrev pub created_leb : Job → Job → Bool
created_leb left right =
    ltb left.created_at right.created_at
    || (left.created_at == right.created_at && text_leb left.id right.id)

unfoldable pub list : JobStore → JobFilter → Result (List Job)
list jobs filter = ok (sort_by created_leb (keep (matches filter) (map (λ e. e.1) jobs)))

abbrev pub set_status :
    JobStore → Text → Job × Result JobStatus → JobStore × Result (Option JobStatus)
set_status jobs job_id (job, ok next_status) = (Map.insert job_id job jobs, ok (some next_status))
set_status jobs job_id (job, err e) = (jobs, err e)

unfoldable pub transition_status :
    JobStore → Text → JobStatus → ℕ → JobStore × Result (Option JobStatus)
transition_status jobs job_id status now = elim (Map.get job_id jobs) [
  | none ↦ (jobs, err (job_not_found job_id))
  | some job ↦
      if status_eq job.status status
      then (jobs, ok none)
      else set_status jobs job_id (apply_status_transition job status now)
]

abbrev pub forget {ℓ} : {A : Type ℓ} → Result A → Result (Unit {0})
forget (ok a) = ok tt
forget (err e) = err e

unfoldable pub update_status : JobStore → Text → JobStatus → ℕ → JobStore × Result (Unit {0})
unfolding transition_status
update_status jobs job_id status now =
    let (jobs', r) = transition_status jobs job_id status now in (jobs', forget r)

unfoldable pub update_terminal : JobStore → Text → ℕ → Text → Text → JobStore × Result (Unit {0})
update_terminal jobs job_id exit_code error output_summary = elim (Map.get job_id jobs) [
  | none ↦ (jobs, err (job_not_found job_id))
  | some job ↦ (
    Map.insert job_id
        (record job {
          exit_code = some exit_code;
          error = some error;
          output_summary = some output_summary;
        })
        jobs,
    ok tt,
  )
]
