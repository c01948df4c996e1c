-- ===== src/Outbox.antt =====
-- The daemon's outbox, crates/ahandd/src/outbox.rs: it numbers outgoing envelopes, and keeps the
-- encoded ones until the hub acknowledges them. A method on `&mut self` returns the new record.
-- `encode` stands for prost's `encode_to_vec`; the payload of an envelope is any type.
pub mod Log
pub mod Bounds
mod Examples
use a_hand.Base.{ℕ, ◌+◌, List, [], ◌∷◌, ◌++◌, ltb, if◌then◌else◌, u64, length}
use a_hand.Base.Text.{Text}
use a_hand.Frames.{Frame, evict, trim, payloads}

-- The message `Envelope` of proto/ahand/v1/envelope.proto.
pub record Envelope (P : Type 0) : Type 0 where
  pub device_id : Text
  pub trace_id : Text
  pub msg_id : Text
  pub seq : ℕ
  pub ack : ℕ
  pub ts_ms : ℕ
  pub payload : P

pub record Outbox : Type 0 where
  pub next_seq : ℕ
  pub peer_ack : ℕ
  pub local_ack : ℕ
  pub buffer : List Frame
  pub max_buffer : ℕ

unfoldable pub new : ℕ → Outbox
new max_buffer = record {
  next_seq = 1;
  peer_ack = 0;
  local_ack = 0;
  buffer = [];
  max_buffer = max_buffer;
}

-- The envelope with its seq and ack, and the outbox after it.
unfoldable pub stamp : {P : Type 0} → Outbox → Envelope P → Outbox × Envelope P × ℕ
stamp o envelope = (
  record o { next_seq = u64 (o.next_seq + 1) },
  record envelope { seq = o.next_seq; ack = o.local_ack },
  o.next_seq,
)

unfoldable pub store : Outbox → ℕ → Text → Outbox
store o seq bytes = record o { buffer = evict o.max_buffer (o.buffer ++ ((seq, bytes) ∷ [])) }

unfoldable pub on_recv : Outbox → ℕ → Outbox
on_recv o seq = if ltb o.local_ack seq then record o { local_ack = seq } else o

unfoldable pub on_peer_ack : Outbox → ℕ → Outbox
on_peer_ack o ack =
    let o' = if ltb o.peer_ack ack then record o { peer_ack = ack } else o in
    record o' { buffer = trim o'.peer_ack o'.buffer }

unfoldable pub drain_unacked : Outbox → List Text
drain_unacked o = payloads o.buffer

unfoldable pub local_ack : Outbox → ℕ
local_ack o = o.local_ack

unfoldable pub pending_count : Outbox → ℕ
pending_count o = length o.buffer

unfoldable pub prepare_outbound :
    {P : Type 0} → (Envelope P → Text) → Outbox → Envelope P → Outbox × Envelope P × Text
unfolding stamp store
prepare_outbound encode o envelope =
    let (o', stamped, seq) = stamp o envelope in
    let bytes = encode stamped in (store o' seq bytes, stamped, bytes)
