-- ===== src/JobDispatcher/Stores.antt =====
-- The stores of a hub in memory mode, with what the dispatcher relies on.
use a_hand.Base.{ℕ, ◌≡◌, refl, subst, some}
use a_hand.Base.Text.{Text, text_eq}
use a_hand.Base.Map
use a_hand.Hub.{pending, HubError, ok, err}
use a_hand.Job.{Job, NewJob, new_pending}
use a_hand.Devices
use a_hand.JobStore
use a_hand.JobDispatcher.{DeviceStore}

abbrev pub memory_devices : DeviceStore Devices.MemoryDeviceStore
memory_devices = record { get = λ t device_id. ok (Devices.get t device_id) }

pub get-insert :
    (jobs : JobStore.JobStore) (new_job : NewJob) (id : Text) (now : ℕ) (job : Job)
    → (JobStore.insert jobs new_job id now).1 ≡ ok job
    → (Map.get job.id (JobStore.insert jobs new_job id now).0 ≡ some job)
      × (job.status ≡ pending)
      × (job.device_id ≡ new_job.device_id)
unfolding JobStore.insert new_pending
get-insert jobs new_job id now job e =
    let made : new_pending id new_job now ≡ job = cc in
    subst
      (λ j.
        (Map.get j.id (Map.insert id (new_pending id new_job now) jobs) ≡ some j)
        × (j.status ≡ pending)
        × (j.device_id ≡ new_job.device_id))
      made (Map.get-insert_self id (new_pending id new_job now) jobs, refl, refl)

pub insert_fails :
    (jobs : JobStore.JobStore) (new_job : NewJob) (id : Text) (now : ℕ) (e : HubError)
    → (JobStore.insert jobs new_job id now).1 ≡ err e
    → (JobStore.insert jobs new_job id now).0 ≡ jobs
unfolding JobStore.insert
insert_fails jobs new_job id now e h = cc

abbrev pub memory_jobs : a_hand.JobDispatcher.JobStore JobStore.JobStore
memory_jobs = record {
  insert = JobStore.insert;
  get = λ jobs id. Map.get id jobs;
  transition_status = JobStore.transition_status;
  inserts = get-insert;
  fails = insert_fails;
}
