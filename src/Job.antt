-- ===== src/Job.antt =====
-- Jobs of the hub and their lifecycle: crates/ahand-hub-core/src/job.rs. A uuid is its text, a
-- time is a number, and an exit code is the bit pattern of the `i32`.
pub mod Lifecycle
mod Examples
use a_hand.Base.{ℕ, Bool, true, false, not, ◌&&◌, List, Option, none, some, if◌then◌else◌, is_some}
use a_hand.Base.Text.{Text}
use a_hand.Base.Map.{Map}
use a_hand.Hub.{
  JobStatus, pending, sent, running, finished, failed, cancelled, illegal_job_transition, Result,
  ok, err,
}

-- The derived `PartialEq`.
abbrev pub status_eq : JobStatus → JobStatus → Bool
status_eq pending pending = true
status_eq sent sent = true
status_eq running running = true
status_eq finished finished = true
status_eq failed failed = true
status_eq cancelled cancelled = true
status_eq _ _ = false

unfoldable pub is_terminal_status : JobStatus → Bool
is_terminal_status finished = true
is_terminal_status failed = true
is_terminal_status cancelled = true
is_terminal_status _ = false

-- The arms of the `match` on (current, requested).
unfoldable pub is_allowed : JobStatus → JobStatus → Bool
is_allowed pending sent = true
is_allowed pending running = true
is_allowed pending finished = true
is_allowed pending failed = true
is_allowed pending cancelled = true
is_allowed sent running = true
is_allowed sent finished = true
is_allowed sent failed = true
is_allowed sent cancelled = true
is_allowed running finished = true
is_allowed running failed = true
is_allowed running cancelled = true
is_allowed _ _ = false

unfoldable pub resolve_status_transition : JobStatus → JobStatus → Result JobStatus
unfolding is_terminal_status is_allowed
resolve_status_transition current requested =
    if status_eq current requested
    then ok current
    else if is_terminal_status current
    then err (illegal_job_transition current requested)
    else if is_allowed current requested
    then ok requested
    else err (illegal_job_transition current requested)

pub record NewJob : Type 0 where
  pub device_id : Text
  pub tool : Text
  pub args : List Text
  pub cwd : Option Text
  pub env : Map Text Text
  pub timeout_ms : ℕ
  pub requested_by : Text
  pub interactive : Bool

pub record Job : Type 0 where
  pub id : Text
  pub device_id : Text
  pub tool : Text
  pub args : List Text
  pub cwd : Option Text
  pub env : Map Text Text
  pub timeout_ms : ℕ
  pub interactive : Bool
  pub status : JobStatus
  pub exit_code : Option ℕ
  pub error : Option Text
  pub output_summary : Option Text
  pub requested_by : Text
  pub created_at : ℕ
  pub started_at : Option ℕ
  pub finished_at : Option ℕ

pub record JobFilter : Type 0 where
  pub device_id : Option Text
  pub status : Option JobStatus

unfoldable pub new_pending : Text → NewJob → ℕ → Job
new_pending id job created_at = record {
  id = id;
  device_id = job.device_id;
  tool = job.tool;
  args = job.args;
  cwd = job.cwd;
  env = job.env;
  timeout_ms = job.timeout_ms;
  interactive = job.interactive;
  status = pending;
  exit_code = none;
  error = none;
  output_summary = none;
  requested_by = job.requested_by;
  created_at = created_at;
  started_at = none;
  finished_at = none;
}

-- The job with its times set for the status that it is about to take.
unfoldable pub enter_status : Job → JobStatus → ℕ → Job
unfolding is_terminal_status
enter_status j next_status at = record j {
  status = next_status;
  started_at =
      if status_eq next_status running && not (is_some j.started_at) then some at else j.started_at;
  finished_at = if is_terminal_status next_status then some at else j.finished_at;
}

-- An error leaves the job as it was.
unfoldable pub apply_status_transition : Job → JobStatus → ℕ → Job × Result JobStatus
unfolding resolve_status_transition enter_status
apply_status_transition j requested_status at =
    elim (resolve_status_transition j.status requested_status) [
      | ok next_status ↦ (enter_status j next_status at, ok next_status)
      | err e ↦ (j, err e)
    ]
