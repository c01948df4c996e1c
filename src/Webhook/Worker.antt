-- ===== src/Webhook/Worker.antt =====
-- The worker that drains the queue, crates/ahand-hub/src/webhook/worker.rs, and the enqueueing of
-- crates/ahand-hub/src/webhook/mod.rs. The decoding of a stored payload, the outcome of sending it
-- and whether the dead letter file could be written are arguments. `accepted` is a record of the
-- events that the gateway accepted, which the code does not keep.
use a_hand.Base.{
  ℕ, ◌+◌, ◌-◌, ◌*◌, Bool, Option, none, some, List, ◌∷◌, leb, ltb, if◌then◌else◌, u32,
}
use a_hand.Base.Text.{Text, codes}
use a_hand.Webhook.{
  WebhookPayload, WebhookDelivery, WebhookConfig, SendOutcome, success, permanent_failure,
  retry_later,
}
use a_hand.Webhook.Store.{MemoryWebhookDeliveryStore, enqueue, delete, mark_failed}
use a_hand.Webhook.Sender.{backoff_secs}

pub record DeadLetter : Type 0 where
  pub event_id : Text
  pub payload : Text
  pub attempts : ℕ
  pub last_error : Text
  pub created_at : ℕ

pub record World : Type 0 where
  pub store : MemoryWebhookDeliveryStore
  pub dlq : List DeadLetter
  pub accepted : List Text

-- The line that `append_dlq` writes.
abbrev pub dead_letter : WebhookDelivery → Text → DeadLetter
dead_letter delivery reason = record {
  event_id = delivery.event_id;
  payload = delivery.payload;
  attempts = delivery.attempts;
  last_error = reason;
  created_at = delivery.created_at;
}

-- A row whose dead letter cannot be written stays, to be tried again in five minutes.
unfoldable pub dlq_and_delete : World → Bool → ℕ → WebhookDelivery → Text → World
dlq_and_delete w written now delivery reason =
    if written
    then record w {
      dlq = dead_letter delivery reason ∷ w.dlq;
      store = delete w.store delivery.event_id;
    }
    else record w {
      store =
          mark_failed w.store delivery.event_id (now + 5 * 60 * 1000) delivery.attempts
            (codes "dlq_write_failed");
    }

-- What the outside answers to one delivery.
pub record Answer : Type 0 where
  pub outcome : SendOutcome
  pub written : Bool
  pub now : ℕ

unfoldable pub retry : World → WebhookConfig → Answer → WebhookDelivery → Text → World
unfolding dlq_and_delete
retry w config answer delivery reason =
    let next_attempts = u32 (delivery.attempts + 1) in
    if leb config.max_retries next_attempts
    then dlq_and_delete w answer.written answer.now delivery reason
    else record w {
      store =
          mark_failed w.store delivery.event_id (answer.now + backoff_secs next_attempts * 1000)
            next_attempts reason;
    }

unfoldable pub handle : World → WebhookConfig → Answer → WebhookDelivery → SendOutcome → World
unfolding retry dlq_and_delete
handle w config answer delivery success = record w {
  store = delete w.store delivery.event_id;
  accepted = delivery.event_id ∷ w.accepted;
}
handle w config answer delivery (permanent_failure reason) =
    dlq_and_delete w answer.written answer.now delivery reason
handle w config answer delivery (retry_later reason) = retry w config answer delivery reason

unfoldable pub send_and_handle :
    (Text → Option WebhookPayload) → World → WebhookConfig → Answer → WebhookDelivery → World
unfolding dlq_and_delete
send_and_handle decode w config answer delivery = elim (decode delivery.payload) [
  | none ↦ dlq_and_delete w answer.written answer.now delivery (codes "payload decode failed")
  | some payload ↦ handle w config answer delivery answer.outcome
]

-- How long the worker sleeps, in milliseconds: the earliest retry, where `none` is an error of
-- the store, and `now`.
unfoldable pub sleep_for : Option (Option ℕ) → ℕ → ℕ
sleep_for none now = 1000
sleep_for (some none) now = 30000
sleep_for (some (some ts)) now =
    if leb ts now then 0 else if ltb (ts - now) 30000 then ts - now else 30000

-- `enqueue_typed` with the id and the times that it takes; a disabled webhook does nothing.
unfoldable pub enqueue_typed :
    (WebhookPayload → Text)
    → Bool
    → MemoryWebhookDeliveryStore
    → WebhookPayload
    → ℕ
    → ℕ
    → MemoryWebhookDeliveryStore
enqueue_typed to_value enabled s payload now created =
    if enabled
    then enqueue s (record {
      event_id = payload.event_id;
      payload = to_value payload;
      attempts = 0;
      next_retry_at = now;
      last_error = none;
      created_at = created;
    })
    else s
