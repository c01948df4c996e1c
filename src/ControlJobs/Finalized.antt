-- ===== src/ControlJobs/Finalized.antt =====
-- A control-plane job after its terminal event.
use a_hand.Base.{
  ℕ, ◌-◌, ◌≡◌, ◌⊎◌, refl, Bool, [], ◌∷◌, Option, none, some, arith, leb, if◌then◌else◌, keep,
  Option-cases, eq_refl, inl, inr,
}
use a_hand.Base.Text.{Text, text_eq}
use a_hand.Base.Map
use a_hand.Base.Map.{Map}
use a_hand.ControlJobs.{
  ControlJobTracker, ControlJobEvent, JobChannels, CompletedControlJobAccess, access_of,
  correlation_key, prune_completed_access, is_retained, drop_correlation, get, access,
  find_by_correlation, finalize, send,
}

get-keep_absent :
    (p : Text × CompletedControlJobAccess → Bool) (k : Text)
    (m : Map Text CompletedControlJobAccess)
    → Map.get k m ≡ none
    → Map.get k (keep p m) ≡ none
unfolding Map.get
get-keep_absent p k [] h = refl
get-keep_absent p k ((j, v) ∷ m) h = ground (arith, get-keep_absent p k m)

get-keep-insert :
    (later retention : ℕ) (k : Text) (v : CompletedControlJobAccess)
    (m : Map Text CompletedControlJobAccess)
    → Map.get k (keep (is_retained later retention) (Map.insert k v m))
      ≡ (if leb (later - v.completed_at) retention then some v else none)
unfolding Map.get Map.insert
get-keep-insert later retention k v m = ground (
  arith,
  eq_refl k,
  get-keep_absent (is_retained later retention) k (Map.remove k m) (Map.get-remove_self k m),
)

abbrev finalized : ControlJobTracker → Text → ℕ → JobChannels → ControlJobTracker
finalized t job_id now channels = record t {
  jobs = Map.remove job_id t.jobs;
  completed_access =
      Map.insert job_id (record { access = access_of channels; completed_at = now })
        t.completed_access;
  correlation_index =
      drop_correlation channels.external_user_id channels.correlation_id job_id t.correlation_index;
}

finalize-live :
    (t : ControlJobTracker) (job_id : Text) (event : ControlJobEvent) (now : ℕ)
    (channels : JobChannels)
    → get t job_id ≡ some channels
    → finalize t job_id event now ≡ (finalized t job_id now channels, some (send event channels))
unfolding get finalize
finalize-live t job_id event now channels h = rw (h, finalize) refl

access-finalized :
    (t : ControlJobTracker) (job_id : Text) (now later : ℕ) (channels : JobChannels)
    → (access (finalized t job_id now channels) job_id later).1
      ≡ (if leb (later - now) t.completed_access_retention then some (access_of channels) else none)
unfolding access prune_completed_access
access-finalized t job_id now later channels =
    rw
      (
        access,
        Map.get-remove_self job_id t.jobs,
        get-keep-insert later t.completed_access_retention job_id
            (record { access = access_of channels; completed_at = now }) t.completed_access,
      )
      (ground arith)

-- After its terminal event a live job is gone from the index; who may read it is still told for as
-- long as the retention, and no longer.
access-finalize :
    (t : ControlJobTracker) (job_id : Text) (event : ControlJobEvent) (now later : ℕ)
    (channels : JobChannels)
    → get t job_id ≡ some channels
    → (get (finalize t job_id event now).0 job_id ≡ none)
      × ((access (finalize t job_id event now).0 job_id later).1 ≡ (
          if leb (later - now) t.completed_access_retention
          then some (access_of channels)
          else none))
unfolding get
access-finalize t job_id event now later channels h =
    rw (finalize-live t job_id event now channels h)
      (Map.get-remove_self job_id t.jobs, access-finalized t job_id now later channels)

drop_correlation-stale :
    (user : Text) (cid : Option Text) (job_id key : Text) (index : Map Text Text)
    → Map.get key index ≡ some job_id
    → (Map.get key (drop_correlation user cid job_id index) ≡ none)
      ⊎ (Map.get key (drop_correlation user cid job_id index) ≡ some job_id)
unfolding drop_correlation
drop_correlation-stale user none job_id key index h = inr h
drop_correlation-stale user (some cid) job_id key index h =
    elim (Option-cases (Map.get (correlation_key user cid) index)) [
      | inl e ↦ inr (rw (e, drop_correlation) h)
      | inr (x, e) ↦
          rw (e, drop_correlation)
            (ground (arith, h, Map.get-remove (correlation_key user cid) key index))
    ]

-- A correlation id that named a job finds nothing once the job is finalized, so that a retry
-- starts a new job.
find_by_correlation-finalize :
    (t : ControlJobTracker) (job_id user cid : Text) (event : ControlJobEvent) (now : ℕ)
    (channels : JobChannels)
    → get t job_id ≡ some channels
    → Map.get (correlation_key user cid) t.correlation_index ≡ some job_id
    → (find_by_correlation (finalize t job_id event now).0 user cid).1 ≡ none
unfolding find_by_correlation
find_by_correlation-finalize t job_id user cid event now channels h k =
    elim (drop_correlation-stale channels.external_user_id channels.correlation_id job_id
      (correlation_key user cid) t.correlation_index k) [
        | inl e ↦
            rw (finalize-live t job_id event now channels h) (rw (find_by_correlation, e) refl)
        | inr e ↦
            rw (finalize-live t job_id event now channels h)
              (rw (find_by_correlation, e, Map.get-remove_self job_id t.jobs) refl)
      ]
