-- ===== src/OutputStream.antt =====
-- The output of jobs as a stream of events, `MemoryOutputStream` of
-- crates/ahand-hub/src/output_stream.rs. The text of a JSON object is a parameter. A broadcast
-- channel delivers to a subscriber what was sent since it subscribed, or says that some was missed.
pub mod Resumed
pub mod Rising
mod Examples
use a_hand.Base.{
  ℕ, zero, suc, ◌+◌, ◌-◌, Bool, true, false, Option, none, some, List, [], ◌∷◌, ◌++◌, length, drop,
  ltb, leb, if◌then◌else◌, u64,
}
use a_hand.Base.Text.{Text, text_eq, codes, decimal}
use a_hand.Base.Map
use a_hand.Base.Map.{Map}

pub data OutputItem : Type 0 where
  stdout stderr : Text → OutputItem
  progress : ℕ → OutputItem
  finished : (exit_code : ℕ) → (error : Text) → OutputItem

pub data OutputEvent : Type 0 where
  stdout_bytes stderr_bytes : Text → OutputEvent
  finished_event : (exit_code : ℕ) → (error : Text) → OutputEvent

abbrev pub to_output_event : OutputItem → Option OutputEvent
to_output_event (stdout chunk) = some (stdout_bytes chunk)
to_output_event (stderr chunk) = some (stderr_bytes chunk)
to_output_event (progress p) = none
to_output_event (finished exit_code error) = some (finished_event exit_code error)

abbrev pub is_terminal : OutputItem → Bool
is_terminal (stdout chunk) = false
is_terminal (stderr chunk) = false
is_terminal (progress p) = false
is_terminal (finished exit_code error) = true

pub record Sequenced : Type 0 where
  pub seq : ℕ
  pub item : OutputItem

pub record JobOutputState : Type 0 where
  pub history : List Sequenced
  pub is_finished : Bool
  pub next_seq : ℕ

abbrev pub new_state : JobOutputState
new_state = record { history = []; is_finished = false; next_seq = 0 }

pub record MemoryOutputStream : Type 0 where
  pub jobs : Map Text JobOutputState
  pub max_history : ℕ

abbrev pub new : ℕ → MemoryOutputStream
new max_history = record { jobs = []; max_history = if leb 1 max_history then max_history else 1 }

-- The entry of a job, which is made where it is missing.
unfoldable pub job_state : MemoryOutputStream → Text → JobOutputState
job_state s job_id = elim (Map.get job_id s.jobs) [ none ↦ new_state | some state ↦ state ]

unfoldable pub prime : MemoryOutputStream → Text → MemoryOutputStream
unfolding job_state
prime s job_id = record s { jobs = Map.insert job_id (job_state s job_id) s.jobs }

-- No more than the last `max_history` items are kept.
unfoldable pub trimmed : ℕ → List Sequenced → List Sequenced
trimmed max_history history =
    if ltb max_history (length history)
    then drop (length history - max_history) history
    else history

unfoldable pub record_item : ℕ → JobOutputState → OutputItem → JobOutputState
unfolding trimmed
record_item max_history state item =
    let seq = u64 (state.next_seq + 1) in
    record {
      history = trimmed max_history (state.history ++ (record { seq = seq; item = item } ∷ []));
      is_finished = if is_terminal item then true else state.is_finished;
      next_seq = u64 (state.next_seq + 1);
    }

unfoldable pub record_output : MemoryOutputStream → Text → OutputItem → MemoryOutputStream
unfolding job_state record_item
record_output s job_id item = record s {
  jobs = Map.insert job_id (record_item s.max_history (job_state s job_id) item) s.jobs;
}

-- What is done when a finished job has been kept for long enough.
unfoldable pub expire : MemoryOutputStream → Text → MemoryOutputStream
expire s job_id = record s { jobs = Map.remove job_id s.jobs }

unfoldable pub needs_resync : List Sequenced → Option ℕ → Bool
needs_resync [] last_event_id = false
needs_resync (first ∷ rest) none = false
needs_resync (first ∷ rest) (some last) =
    ltb (if leb 18446744073709551616 (last + 1) then 18446744073709551615 else last + 1) first.seq

-- Items that a subscriber has not had yet, up to one that ends the job; whether it ended.
unfoldable pub replay : ℕ → List Sequenced → List Sequenced × ℕ × Bool
replay last_seq [] = ([], last_seq, false)
replay last_seq (s ∷ items) =
    let skipped = replay last_seq items in
    let (further, last, ended) = replay s.seq items in
    if leb s.seq last_seq
    then skipped
    else if is_terminal s.item
    then (s ∷ [], s.seq, true)
    else (s ∷ further, last, ended)

-- What a receiver gets, until the channel closes.
pub data Received : Type 0 where
  received : Sequenced → Received
  lagged : Received

pub data Yield : Type 0 where
  event : Sequenced → Yield
  history_trimmed events_lagged : Yield

unfoldable pub live : ℕ → List Received → List Yield
live last_seq [] = []
live last_seq (lagged ∷ rest) = events_lagged ∷ live last_seq rest
live last_seq (received s ∷ rest) =
    let skipped = live last_seq rest in
    let further = live s.seq rest in
    if leb s.seq last_seq
    then skipped
    else if is_terminal s.item
    then event s ∷ []
    else event s ∷ further

abbrev pub events : List Sequenced → List Yield
events [] = []
events (s ∷ rest) = event s ∷ events rest

abbrev pub last_or_zero : Option ℕ → ℕ
last_or_zero none = 0
last_or_zero (some last) = last

-- The stream of a subscriber, by the state at the time and what it receives later.
unfoldable pub subscribe_from : JobOutputState → Option ℕ → List Received → List Yield
unfolding needs_resync replay live
subscribe_from state last_event_id later =
    let last_seq = last_or_zero last_event_id in
    let (replayed, last, ended) = replay last_seq state.history in
    (if needs_resync state.history last_event_id then history_trimmed ∷ [] else [])
    ++ (events replayed
        ++ (if ended then [] else if state.is_finished then [] else live last later))

-- What of an item a terminal is told.
abbrev pub told : Option OutputEvent → List OutputEvent → List OutputEvent
told none rest = rest
told (some e) rest = e ∷ rest

unfoldable pub replay_terminal : List Sequenced → List OutputEvent × Bool
replay_terminal [] = ([], false)
replay_terminal (s ∷ items) =
    let (further, ended) = replay_terminal items in
    if is_terminal s.item
    then (told (to_output_event s.item) [], true)
    else (told (to_output_event s.item) further, ended)

unfoldable pub live_terminal : List Received → List OutputEvent
live_terminal [] = []
live_terminal (lagged ∷ rest) = live_terminal rest
live_terminal (received s ∷ rest) =
    let further = live_terminal rest in
    told (to_output_event s.item) (if is_terminal s.item then [] else further)

unfoldable pub subscribe_terminal : JobOutputState → List Received → List OutputEvent
unfolding replay_terminal live_terminal
subscribe_terminal state later =
    let (replayed, ended) = replay_terminal state.history in
    replayed ++ (if ended then [] else if state.is_finished then [] else live_terminal later)
