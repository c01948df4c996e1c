-- ===== src/Hub.antt =====
-- Errors and results of the hub: crates/ahand-hub-core/src/error.rs, with the job statuses of
-- crates/ahand-hub-core/src/job.rs that an error names.
use a_hand.Base.{ℕ}
use a_hand.Base.Text.{Text}

pub data JobStatus : Type 0 where
  pending sent running finished failed cancelled : JobStatus

pub data HubError : Type 0 where
  device_not_found device_already_exists device_offline job_not_found job_not_cancellable :
      Text → HubError
  device_owned_by_different_user : Text → Text → HubError
  illegal_job_transition : JobStatus → JobStatus → HubError
  unauthorized forbidden invalid_signature : HubError
  invalid_token outbox_lock_contention internal : Text → HubError
  invalid_peer_ack : ℕ → ℕ → HubError

pub data Result {ℓ} (A : Type ℓ) : Type ℓ where
  ok : A → Result A
  err : HubError → Result A
