-- ===== src/Webhook.antt =====
-- Outbound webhooks of the hub: crates/ahand-hub/src/webhook and the queue that it drains,
-- crates/ahand-hub-store/src/webhook_delivery_store.rs, in memory. A time is a number of
-- milliseconds, a JSON value is its text, and the `i32` of `attempts` is its 32 bits.
pub mod Store
pub mod Sender
pub mod Worker
pub mod Leases
pub mod Kept
pub mod Retries
pub mod Wakeups
mod Examples
use a_hand.Base.{ℕ, Bool, true, false, Option, none, some, List, [], ◌∷◌}
use a_hand.Base.Text.{Text, codes}
use a_hand.Base.Map.{Map}

pub record WebhookPayload : Type 0 where
  pub event_id : Text
  pub event_type : Text
  pub device_id : Text
  pub external_user_id : Option Text
  pub occurred_at : ℕ
  pub event_data : Text

pub record WebhookDelivery : Type 0 where
  pub event_id : Text
  pub payload : Text
  pub attempts : ℕ
  pub next_retry_at : ℕ
  pub last_error : Option Text
  pub created_at : ℕ

pub record MemoryRow : Type 0 where
  pub delivery : WebhookDelivery
  pub leased : Bool
  pub leased_at : Option ℕ

pub record WebhookConfig : Type 0 where
  pub url : Text
  pub secret : Text
  pub max_retries : ℕ

pub data SendOutcome : Type 0 where
  success : SendOutcome
  permanent_failure retry_later : Text → SendOutcome
