-- ===== src/ControlJobs.antt =====
-- The hub's index of live control-plane jobs, crates/ahand-hub/src/control_jobs.rs. The clock
-- `Instant::now()` is an argument in nanoseconds. A broadcast channel is the list of the events
-- sent on it, the last one first; how the channel drops events for slow subscribers is not modelled.
pub mod Correlation
pub mod Finalized
mod Examples
use a_hand.Base.{
  ℕ, ◌-◌, Bool, true, false, List, [], ◌∷◌, ◌++◌, Option, none, some, leb, ◌==◌, if◌then◌else◌,
  keep, length, is_some,
}
use a_hand.Base.Text.{Text, text_eq, decimal}
use a_hand.Base.Map
use a_hand.Base.Map.{Map}

pub data ControlJobEvent : Type 0 where
  stdout_chunk : Text → ControlJobEvent
  stderr_chunk : Text → ControlJobEvent
  progress : ℕ → Option Text → ControlJobEvent
  finished : ℕ → ℕ → ControlJobEvent
  error : Text → Text → ControlJobEvent

pub record JobChannels : Type 0 where
  pub events : List ControlJobEvent
  pub device_id : Text
  pub external_user_id : Text
  pub correlation_id : Option Text
  pub started_at : ℕ

pub record ControlJobAccess : Type 0 where
  pub device_id : Text
  pub external_user_id : Text

pub record CompletedControlJobAccess : Type 0 where
  pub access : ControlJobAccess
  pub completed_at : ℕ

pub record ControlJobTracker : Type 0 where
  pub jobs : Map Text JobChannels
  pub completed_access : Map Text CompletedControlJobAccess
  pub correlation_index : Map Text Text
  pub completed_access_retention : ℕ

unfoldable pub new : ℕ → ControlJobTracker
new retention = record {
  jobs = [];
  completed_access = [];
  correlation_index = [];
  completed_access_retention = retention;
}

unfoldable pub send : ControlJobEvent → JobChannels → JobChannels
send event channels = record channels { events = event ∷ channels.events }

-- An entry is kept while it is no older than the retention.
abbrev pub is_retained : ℕ → ℕ → Text × CompletedControlJobAccess → Bool
is_retained now retention (job_id, entry) = leb (now - entry.completed_at) retention

unfoldable pub prune_completed_access : ControlJobTracker → ℕ → ControlJobTracker
prune_completed_access t now = record t {
  completed_access = keep (is_retained now t.completed_access_retention) t.completed_access;
}

-- The length of the user id comes first, so that the key splits in one way.
unfoldable pub correlation_key : Text → Text → Text
correlation_key user cid = decimal (length user) ++ (58 ∷ user ++ (58 ∷ cid))

unfoldable pub index_correlation : Text → Option Text → Text → Map Text Text → Map Text Text
index_correlation user none job_id index = index
index_correlation user (some cid) job_id index = Map.insert (correlation_key user cid) job_id index

-- `register` at the time `now`.
unfoldable pub register :
    ControlJobTracker → Text → Text → Text → Option Text → ℕ → ControlJobTracker
unfolding index_correlation prune_completed_access
register t job_id device user cid now =
    let channels : JobChannels = record {
      events = [];
      device_id = device;
      external_user_id = user;
      correlation_id = cid;
      started_at = now;
    } in
    let pruned =
      prune_completed_access
        (record t { correlation_index = index_correlation user cid job_id t.correlation_index })
        now in
    record pruned {
      completed_access = Map.remove job_id pruned.completed_access;
      jobs = Map.insert job_id channels pruned.jobs;
    }

unfoldable pub get : ControlJobTracker → Text → Option JobChannels
get t job_id = Map.get job_id t.jobs

abbrev pub access_of : JobChannels → ControlJobAccess
access_of channels = record {
  device_id = channels.device_id;
  external_user_id = channels.external_user_id;
}

unfoldable pub access : ControlJobTracker → Text → ℕ → ControlJobTracker × Option ControlJobAccess
unfolding prune_completed_access
access t job_id now =
    let pruned = prune_completed_access t now in
    elim (Map.get job_id pruned.jobs) [
      | some channels ↦ (pruned, some (access_of channels))
      | none ↦ elim (Map.get job_id pruned.completed_access) [
        | none ↦ (pruned, none)
        | some entry ↦ (pruned, some entry.access)
      ]
    ]

unfoldable pub find_by_correlation :
    ControlJobTracker → Text → Text → ControlJobTracker × Option Text
find_by_correlation t user cid = elim (Map.get (correlation_key user cid) t.correlation_index) [
  | none ↦ (t, none)
  | some existing ↦ if Map.contains_key existing t.jobs then (t, some existing) else (
    record t { correlation_index = Map.remove (correlation_key user cid) t.correlation_index },
    none,
  )
]

unfoldable pub publish : ControlJobTracker → Text → ControlJobEvent → ControlJobTracker
unfolding send
publish t job_id event = elim (Map.get job_id t.jobs) [
  | none ↦ t
  | some channels ↦ record t { jobs = Map.insert job_id (send event channels) t.jobs }
]

-- The entry goes only if it still points at this job.
unfoldable pub drop_correlation : Text → Option Text → Text → Map Text Text → Map Text Text
drop_correlation user none job_id index = index
drop_correlation user (some cid) job_id index = elim (Map.get (correlation_key user cid) index) [
  | none ↦ index
  | some existing ↦
      if existing == job_id then Map.remove (correlation_key user cid) index else index
]

-- `finalize` at the time `now`, with the channel as its last subscribers see it.
unfoldable pub finalize :
    ControlJobTracker → Text → ControlJobEvent → ℕ → ControlJobTracker × Option JobChannels
unfolding send drop_correlation
finalize t job_id event now = elim (Map.get job_id t.jobs) [
  | none ↦ (t, none)
  | some channels ↦ (
    record t {
      jobs = Map.remove job_id t.jobs;
      completed_access =
          Map.insert job_id (record { access = access_of channels; completed_at = now })
            t.completed_access;
      correlation_index =
          drop_correlation channels.external_user_id channels.correlation_id job_id
            t.correlation_index;
    },
    some (send event channels),
  )
]

unfoldable pub len : ControlJobTracker → ℕ
len t = length t.jobs

unfoldable pub is_empty : ControlJobTracker → Bool
is_empty t = elim t.jobs [ [] ↦ true | _ ∷ _ ↦ false ]
