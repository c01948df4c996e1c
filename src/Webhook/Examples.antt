-- ===== src/Webhook/Examples.antt =====
-- One webhook that is enqueued, claimed, and tried until it is given up.
use a_hand.Base.{
  ◌≡◌, ◌≤◌, ◌-◌, refl, true, false, Option, none, some, [], ◌∷◌, arith, All, map, keep,
}
use a_hand.Base.Text.{Text, text_eq, codes}
use a_hand.Base.Map
use a_hand.Webhook.{WebhookPayload, WebhookDelivery, WebhookConfig, retry_later}
use a_hand.Webhook.Store.{
  MemoryWebhookDeliveryStore, is_free, enqueue, claim_one, earliest_next_retry,
}
use a_hand.Webhook.Worker.{World, Answer, sleep_for}
use a_hand.Webhook.Kept.{enqueues, claims, sends, is_accounted, run, is_accounted-run}
use a_hand.Webhook.Leases
use a_hand.Webhook.Retries.{rounds, rounds-enqueue}
use a_hand.Webhook.Wakeups.{sleep_for-earliest_next_retry}

abbrev decode : Text → Option WebhookPayload
decode payload = some (record {
  event_id = codes "e1";
  event_type = codes "device.online";
  device_id = codes "d1";
  external_user_id = none;
  occurred_at = 5;
  event_data = payload;
})

abbrev config : WebhookConfig
config = record { url = codes "https://gateway"; secret = codes "s"; max_retries = 2 }

abbrev delivery : WebhookDelivery
delivery = record {
  event_id = codes "e1";
  payload = codes "{}";
  attempts = 0;
  next_retry_at = 5;
  last_error = none;
  created_at = 5;
}

abbrev store : MemoryWebhookDeliveryStore
store = record { rows = []; lease_expiry = 60 }

abbrev world : World
world = record { store = store; dlq = []; accepted = [] }

abbrev answer : Answer
answer = record { outcome = retry_later (codes "503"); written = true; now = 10 }

abbrev stored : MemoryWebhookDeliveryStore
stored = record {
  rows = (codes "e1", record { delivery = delivery; leased = false; leased_at = none }) ∷ [];
  lease_expiry = 60;
}

is_accounted-run_example :
    is_accounted (codes "e1") (
      run decode config world
        (enqueues delivery ∷ claims 6 (delivery ∷ []) ∷ sends answer delivery ∷ []))
    ≡ true
is_accounted-run_example =
    is_accounted-run decode config world
      (enqueues delivery ∷ claims 6 (delivery ∷ []) ∷ sends answer delivery ∷ []) (codes "e1") refl

claim_one-run_example :
    claim_one
      (Leases.run (claim_one stored 6 (codes "e1")).0 (Leases.claims 20 (delivery ∷ []) ∷ []))
      30
      (codes "e1")
    ≡ (Leases.run (claim_one stored 6 (codes "e1")).0 (Leases.claims 20 (delivery ∷ []) ∷ []), none)
unfolding claim_one Map.get Map.insert
claim_one-run_example =
    Leases.claim_one-run stored (Leases.claims 20 (delivery ∷ []) ∷ []) 6 30 (codes "e1") delivery
      refl (omega arith, tt) (omega arith)

rounds-enqueue_example :
    Map.get
      (codes "e1")
      (rounds decode config
        (record world { store = enqueue store delivery })
        (codes "e1")
        (answer ∷ answer ∷ [])).store.rows
    ≡ none
rounds-enqueue_example =
    rounds-enqueue decode config world delivery (answer ∷ answer ∷ []) refl (refl, (refl, tt))
      (omega arith) (omega arith) (omega arith)

sleep_for-earliest_next_retry_example :
    All
      (λ t. sleep_for (some (earliest_next_retry stored 3)) 3 ≤ t - 3)
      (map (λ e. e.1.delivery.next_retry_at) (keep (λ e. is_free 60 3 e.1) stored.rows))
sleep_for-earliest_next_retry_example = sleep_for-earliest_next_retry stored 3
