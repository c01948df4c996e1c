-- ===== src/PendingFiles.antt =====
-- The hub's table of file requests in flight, crates/ahand-hub/src/pending_file_requests.rs. The
-- two halves of a `oneshot` channel are the number it was made with, which `register` takes;
-- `resolve` returns which waiter gets the response.
pub mod Capacity
mod Examples
use a_hand.Base.{
  ℕ, suc, ◌+◌, ◌-◌, Option, none, some, [], ltb, ◌==◌, if◌then◌else◌, nat_eq, pair_eq,
}
use a_hand.Base.Text.{Text, text_eq}
use a_hand.Base.Map
use a_hand.Base.Map.{Map}

abbrev pub max_pending_file_requests : ℕ
max_pending_file_requests = 1024

pub data PendingFileRequestsError : Type 0 where
  at_capacity : PendingFileRequestsError
  duplicate : PendingFileRequestsError

-- `Result<Receiver, PendingFileRequestsError>`.
pub data Registered : Type 0 where
  ok : ℕ → Registered
  err : PendingFileRequestsError → Registered

pub record PendingFileRequests : Type 0 where
  pub pending : Map (Text × Text) ℕ
  pub capacity : ℕ
  pub in_flight : ℕ

unfoldable pub new : ℕ → PendingFileRequests
new capacity = record { pending = []; capacity = capacity; in_flight = 0 }

abbrev pub fetch_add : PendingFileRequests → PendingFileRequests
fetch_add p = record p { in_flight = p.in_flight + 1 }

abbrev pub fetch_sub : PendingFileRequests → PendingFileRequests
fetch_sub p = record p { in_flight = p.in_flight - 1 }

unfoldable pub register : PendingFileRequests → Text → Text → ℕ → PendingFileRequests × Registered
register p device_id request_id tx =
    let reserved = fetch_add p in
    if ltb reserved.capacity reserved.in_flight
    then (fetch_sub reserved, err at_capacity)
    else elim (Map.get (device_id, request_id) reserved.pending) [
      | some waiter ↦ (fetch_sub reserved, err duplicate)
      | none ↦ (
        record reserved { pending = Map.insert (device_id, request_id) tx reserved.pending },
        ok tx,
      )
    ]

unfoldable pub resolve : PendingFileRequests → Text → Text → PendingFileRequests × Option ℕ
resolve p device_id request_id = elim (Map.get (device_id, request_id) p.pending) [
  | none ↦ (p, none)
  | some tx ↦
      (fetch_sub (record p { pending = Map.remove (device_id, request_id) p.pending }), some tx)
]

unfoldable pub cancel : PendingFileRequests → Text → Text → PendingFileRequests
cancel p device_id request_id = elim (Map.get (device_id, request_id) p.pending) [
  | none ↦ p
  | some tx ↦ fetch_sub (record p { pending = Map.remove (device_id, request_id) p.pending })
]
