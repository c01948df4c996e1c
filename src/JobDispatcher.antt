-- ===== src/JobDispatcher.antt =====
-- Making jobs for devices that are there: crates/ahand-hub-core/src/services/job_dispatcher.rs, over
-- the device, job and audit stores as the traits of crates/ahand-hub-core/src/traits.rs name them.
-- The fresh id of a job and the readings of the clock are arguments. The JSON detail of an audit
-- entry is left out.
pub mod Stores
use a_hand.Base.{ℕ, ◌≡◌, Bool, true, false, not, Option, none, some, if◌then◌else◌}
use a_hand.Base.Text.{Text, codes}
use a_hand.Hub.{JobStatus, pending, HubError, device_not_found, device_offline, Result, ok, err}
use a_hand.Job.{Job, NewJob}
use a_hand.Devices.{Device}

-- What the dispatcher asks of a device store.
pub record DeviceStore (D : Type 0) : Type 0 where
  pub get : D → Text → Result (Option Device)

-- What it asks of a job store, and what a job store promises.
pub record JobStore (J : Type 0) : Type 0 where
  pub insert : J → NewJob → Text → ℕ → J × Result Job
  pub get : J → Text → Option Job
  pub transition_status : J → Text → JobStatus → ℕ → J × Result (Option JobStatus)
  -- A job that was inserted is there, pending, and for the device it was asked for.
  pub inserts :
      (jobs : J) (new_job : NewJob) (id : Text) (now : ℕ) (job : Job)
      → (insert jobs new_job id now).1 ≡ ok job
      → (get (insert jobs new_job id now).0 job.id ≡ some job)
        × (job.status ≡ pending)
        × (job.device_id ≡ new_job.device_id)
  -- An insertion that fails changes nothing.
  pub fails :
      (jobs : J) (new_job : NewJob) (id : Text) (now : ℕ) (e : HubError)
      → (insert jobs new_job id now).1 ≡ err e
      → (insert jobs new_job id now).0 ≡ jobs

pub record AuditEntry : Type 0 where
  pub timestamp : ℕ
  pub action : Text
  pub resource_type : Text
  pub resource_id : Text
  pub actor : Text
  pub source_ip : Option Text

module _ {D J A : Type 0} (devices : DeviceStore D) (job_store : JobStore J)
    (append : A → AuditEntry → A × Bool) where
  pub record JobDispatcher : Type 0 where
    pub known : D
    pub jobs : J
    pub audit : A

  abbrev pub created_entry : ℕ → Job → AuditEntry
  created_entry now job = record {
    timestamp = now;
    action = codes "job.created";
    resource_type = codes "job";
    resource_id = job.id;
    actor = job.requested_by;
    source_ip = none;
  }

  -- What becomes of an insertion; whether the entry could be written is not looked at.
  abbrev pub audited : JobDispatcher → ℕ → J × Result Job → JobDispatcher × Result Job
  audited d now (jobs, err e) = (record d { jobs = jobs }, err e)
  audited d now (jobs, ok job) =
      (record d { jobs = jobs; audit = (append d.audit (created_entry now job)).0 }, ok job)

  unfoldable pub create_job : JobDispatcher → NewJob → Text → ℕ → ℕ → JobDispatcher × Result Job
  create_job d new_job id now later = elim (devices.get d.known new_job.device_id) [
    | err e ↦ (d, err e)
    | ok none ↦ (d, err (device_not_found new_job.device_id))
    | ok (some device) ↦
        if not device.online
        then (d, err (device_offline device.id))
        else audited d later (job_store.insert d.jobs new_job id now)
  ]

  unfoldable pub transition :
      JobDispatcher → Text → JobStatus → ℕ → JobDispatcher × Result (Option JobStatus)
  transition d job_id status now =
      let (jobs, result) = job_store.transition_status d.jobs job_id status now in
      (record d { jobs = jobs }, result)
