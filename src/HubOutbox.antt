-- ===== src/HubOutbox.antt =====
-- The hub's outbox, crates/ahand-hub-core/src/outbox.rs: the daemon's outbox with acknowledgements
-- that are checked, replay from a given seq, and removal of a frame that could not be sent.
pub mod Invariant
pub mod Replay
mod Examples
use a_hand.Base.{
  ℕ, ◌+◌, ◌-◌, Bool, true, false, List, [], ◌∷◌, ◌++◌, ltb, nat_beq, if◌then◌else◌, u64,
}
use a_hand.Base.Text.{Text}
use a_hand.Frames.{Frame, evict, trim, unacked, payloads}

pub record Outbox : Type 0 where
  pub next_seq : ℕ
  pub peer_ack : ℕ
  pub local_ack : ℕ
  pub buffer : List Frame
  pub max_buffer : ℕ

unfoldable pub new : ℕ → Outbox
new max_buffer = record {
  next_seq = 1;
  peer_ack = 0;
  local_ack = 0;
  buffer = [];
  max_buffer = max_buffer;
}

abbrev pub max : ℕ → ℕ → ℕ
max a b = if ltb a b then b else a

unfoldable pub reserve_seq : Outbox → Outbox × ℕ
reserve_seq o = (record o { next_seq = u64 (o.next_seq + 1) }, o.next_seq)

unfoldable pub store : Outbox → ℕ → Text → Outbox
store o seq bytes = record o { buffer = evict o.max_buffer (o.buffer ++ ((seq, bytes) ∷ [])) }

unfoldable pub store_raw : Outbox → Text → Outbox × ℕ
unfolding reserve_seq store
store_raw o bytes = let (o', seq) = reserve_seq o in (store o' seq bytes, seq)

unfoldable pub on_recv : Outbox → ℕ → Outbox
on_recv o seq = record o { local_ack = max o.local_ack seq }

unfoldable pub on_peer_ack : Outbox → ℕ → Outbox
on_peer_ack o ack =
    let acked = max o.peer_ack ack in record o { peer_ack = acked; buffer = trim acked o.buffer }

-- `saturating_sub` is subtraction on ℕ.
unfoldable pub last_issued_seq : Outbox → ℕ
last_issued_seq o = o.next_seq - 1

unfoldable pub try_on_peer_ack : Outbox → ℕ → Outbox × Bool
unfolding on_peer_ack last_issued_seq
try_on_peer_ack o ack =
    if ltb (last_issued_seq o) ack then (o, false) else (on_peer_ack o ack, true)

unfoldable pub replay_from : Outbox → ℕ → List Text
replay_from o last_ack = payloads (unacked last_ack o.buffer)

unfoldable pub local_ack : Outbox → ℕ
local_ack o = o.local_ack

-- The first frame of the seq goes, if there is one.
unfoldable pub remove_first : ℕ → List Frame → List Frame
remove_first seq [] = []
remove_first seq ((s, d) ∷ b) = if nat_beq s seq then b else (s, d) ∷ remove_first seq b

unfoldable pub remove : Outbox → ℕ → Outbox
unfolding remove_first
remove o seq = record o { buffer = remove_first seq o.buffer }

unfoldable pub is_empty : Outbox → Bool
is_empty o = elim o.buffer [ [] ↦ true | _ ↦ false ]
