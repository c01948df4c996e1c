-- ===== src/OutboxStore.antt =====
-- The hub's outbox store in memory mode, crates/ahand-hub/src/ws/in_memory_outbox.rs: for each
-- device a session lock, a seq counter and the unacknowledged frames. A session's id is the fencing
-- token. The watch channel that announces kicks is a parameter: its sender's type `S`, and the
-- functions that make a channel, send on it and subscribe to it.
pub mod Effects
pub mod Fencing
pub mod Sequence
pub mod Reconcile
mod Examples
use a_hand.Base.{
  ℕ, ◌+◌, ◌≡◌, Bool, true, false, not, List, [], ◌∷◌, ◌++◌, Option, none, some, ltb, ◌==◌,
  if◌then◌else◌, u64, is_some,
}
use a_hand.Base.Text.{Text, text_eq}
use a_hand.Base.Map
use a_hand.Base.Map.{Map}
use a_hand.Frames.{Frame, evict, trim, unacked, payloads}
use a_hand.Hub.{HubError, unauthorized, Result, ok, err}

pub record DeviceState (S : Type 0) : Type 0 where
  pub lock : Option Text
  pub seq : ℕ
  pub buffer : List Frame
  pub kick_tx : Option S
  pub kick_count : ℕ

abbrev pub max_buffer : ℕ
max_buffer = 10000

abbrev pub Store : Type 0 → Type 0
Store S = Map Text (DeviceState S)

-- `owner == session_id` under an `Option`.
abbrev pub is_owner : Option Text → Text → Bool
is_owner none session_id = false
is_owner (some owner) session_id = owner == session_id

module _ {S : Type 0} where
  unfoldable pub default_state : DeviceState S
  default_state = record { lock = none; seq = 0; buffer = []; kick_tx = none; kick_count = 0 }

  -- `entry(device_id).or_default()`.
  abbrev pub or_default : Option (DeviceState S) → DeviceState S
  or_default none = default_state
  or_default (some entry) = entry

  unfoldable pub try_acquire_lock : Store S → Text → Text → Store S × Result Bool
  try_acquire_lock g device_id session_id =
      let entry = or_default (Map.get device_id g) in
      if is_some entry.lock
      then (Map.insert device_id entry g, ok false)
      else (Map.insert device_id (record entry { lock = some session_id }) g, ok true)

  unfoldable pub renew_lock : Store S → Text → Text → Result Bool
  renew_lock g device_id session_id = elim (Map.get device_id g) [
    | none ↦ ok false
    | some entry ↦ ok (is_owner entry.lock session_id)
  ]

  unfoldable pub release_lock : Store S → Text → Text → Store S × Result (Unit {0})
  release_lock g device_id session_id = elim (Map.get device_id g) [
    | none ↦ (g, ok tt)
    | some entry ↦
        if is_owner entry.lock session_id
        then (Map.insert device_id (record entry { lock = none }) g, ok tt)
        else (g, ok tt)
  ]

  -- The entry of the device if the session holds its lock.
  unfoldable pub fenced : Store S → Text → Text → Result (DeviceState S)
  fenced g device_id session_id = elim (Map.get device_id g) [
    | none ↦ err unauthorized
    | some entry ↦ if is_owner entry.lock session_id then ok entry else err unauthorized
  ]

  unfoldable pub reconcile_entry : DeviceState S → ℕ → DeviceState S × ℕ
  reconcile_entry entry last_ack =
      if ltb entry.seq last_ack
      then (record entry { seq = last_ack; buffer = [] }, last_ack)
      else (record entry { buffer = trim last_ack entry.buffer }, entry.seq)

  -- A fenced change of the entry that answers with a value.
  abbrev pub on_entry {ℓ} :
      {A : Type ℓ}
      → Store S
      → Text
      → Result (DeviceState S)
      → (DeviceState S → DeviceState S × A)
      → Store S × Result A
  on_entry g device_id (ok entry) f =
      let (entry', a) = f entry in (Map.insert device_id entry' g, ok a)
  on_entry g device_id (err e) f = (g, err e)

  unfoldable pub reconcile_on_hello : Store S → Text → Text → ℕ → Store S × Result ℕ
  unfolding fenced reconcile_entry
  reconcile_on_hello g device_id session_id last_ack =
      on_entry g device_id (fenced g device_id session_id) (λ entry. reconcile_entry entry last_ack)

  unfoldable pub unacked_frames : Store S → Text → ℕ → Result (List Text)
  unacked_frames g device_id last_ack = elim (Map.get device_id g) [
    | none ↦ ok []
    | some entry ↦ ok (payloads (unacked last_ack entry.buffer))
  ]

  unfoldable pub fenced_incr_seq : Store S → Text → Text → Store S × Result ℕ
  unfolding fenced
  fenced_incr_seq g device_id session_id =
      on_entry g device_id (fenced g device_id session_id)
        (λ entry. (record entry { seq = u64 (entry.seq + 1) }, u64 (entry.seq + 1)))

  unfoldable pub xadd_frame : Store S → Text → Text → ℕ → Text → Store S × Result (Unit {0})
  unfolding fenced
  xadd_frame g device_id session_id seq frame =
      on_entry g device_id (fenced g device_id session_id) (λ entry.
        (record entry { buffer = evict max_buffer (entry.buffer ++ ((seq, frame) ∷ [])) }, tt))

  unfoldable pub observe_ack : Store S → Text → ℕ → Store S × Result (Unit {0})
  observe_ack g device_id ack = elim (Map.get device_id g) [
    | none ↦ (g, ok tt)
    | some entry ↦
        if ltb entry.seq ack
        then (g, ok tt)
        else (Map.insert device_id (record entry { buffer = trim ack entry.buffer }) g, ok tt)
  ]

module _ {S R : Type 0} (channel : ℕ → S) (send : S → ℕ → S) (subscribe : S → S × R) where
  -- The first kick makes the channel, and later ones send on it.
  unfoldable pub kick : Store S → Text → Text → Store S × Result (Unit {0})
  kick g device_id new_session_id =
      let entry = or_default (Map.get device_id g) in
      let count = u64 (entry.kick_count + 1) in
      let tx = elim entry.kick_tx as (λ _. S) [ none ↦ channel count | some tx ↦ send tx count ] in
      (Map.insert device_id (record entry { kick_count = count; kick_tx = some tx }) g, ok tt)

  unfoldable pub subscribe_kick : Store S → Text → Store S × Result R
  subscribe_kick g device_id =
      let entry = or_default (Map.get device_id g) in
      let tx = elim entry.kick_tx as (λ _. S) [ none ↦ channel 0 | some tx ↦ tx ] in
      let (tx', recv) = subscribe tx in
      (Map.insert device_id (record entry { kick_tx = some tx' }) g, ok recv)
