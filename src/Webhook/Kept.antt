-- ===== src/Webhook/Kept.antt =====
-- No webhook is lost: what was enqueued is in the queue, or was accepted, or is a dead letter.
use a_hand.Base.{
  ℕ, ◌+◌, ◌≡◌, refl, Bool, true, false, ◌||◌, Option, none, List, [], ◌∷◌, arith, any, elem,
  is_some, ◌==◌, Option-cases, Bool-cases, inl, inr, leb, u32, ◌∙◌,
}
use a_hand.Base.Text.{Text, text_eq, text_beq_iff}
use a_hand.Base.Map
use a_hand.Webhook.{
  WebhookPayload, WebhookDelivery, WebhookConfig, SendOutcome, success, permanent_failure,
  retry_later,
}
use a_hand.Webhook.Store.{
  MemoryWebhookDeliveryStore, enqueue, delete, mark_failed, failed, claim, claim_one, is_free,
  lease,
}
use a_hand.Webhook.Worker.{
  World, DeadLetter, Answer, dlq_and_delete, retry, handle, send_and_handle,
}

pub data Op : Type 0 where
  enqueues : WebhookDelivery → Op
  claims : ℕ → List WebhookDelivery → Op
  sends : Answer → WebhookDelivery → Op

abbrev pub is_queued : Text → MemoryWebhookDeliveryStore → Bool
is_queued id s = is_some (Map.get id s.rows)

abbrev pub is_dead : Text → List DeadLetter → Bool
is_dead id dlq = any (λ (l : DeadLetter). l.event_id == id) dlq

abbrev pub is_accounted : Text → World → Bool
is_accounted id w = is_queued id w.store || (is_dead id w.dlq || elem id w.accepted)

-- Whether one of the operations enqueues the event.
abbrev pub is_enqueued : Text → List Op → Bool
is_enqueued id [] = false
is_enqueued id (enqueues d ∷ os) = d.event_id == id || is_enqueued id os
is_enqueued id (claims now ds ∷ os) = is_enqueued id os
is_enqueued id (sends answer d ∷ os) = is_enqueued id os

is_queued-claim_one :
    (s : MemoryWebhookDeliveryStore) (now : ℕ) (k id : Text)
    → is_queued id (claim_one s now k).0 ≡ is_queued id s
unfolding claim_one
is_queued-claim_one s now k id = elim (Option-cases (Map.get k s.rows)) [
  | inl e ↦ rw (e, claim_one) refl
  | inr (row, e) ↦ elim (Bool-cases (is_free s.lease_expiry now row)) [
    | inl b ↦
        rw (e, b, claim_one, Map.get-insert k id (lease now row) s.rows)
          (ground (arith, e, text_beq_iff k id))
    | inr b ↦ rw (e, b, claim_one) refl
  ]
]

is_queued-claim :
    (s : MemoryWebhookDeliveryStore) (now : ℕ) (ds : List WebhookDelivery) (id : Text)
    → is_queued id (claim s now ds).0 ≡ is_queued id s
unfolding claim
is_queued-claim s now [] id = refl
is_queued-claim s now (d ∷ ds) id =
    is_queued-claim (claim_one s now d.event_id).0 now ds id
    ∙ is_queued-claim_one s now d.event_id id

is_queued-mark_failed :
    (s : MemoryWebhookDeliveryStore) (k id : Text) (at attempts : ℕ) (reason : Text)
    → is_queued id (mark_failed s k at attempts reason) ≡ is_queued id s
unfolding mark_failed
is_queued-mark_failed s k id at attempts reason = elim (Option-cases (Map.get k s.rows)) [
  | inl e ↦ rw (e, mark_failed) refl
  | inr (row, e) ↦
      rw (e, mark_failed, Map.get-insert k id (failed row at attempts reason) s.rows)
        (ground (arith, e, text_beq_iff k id))
]

dlq_and_delete-is_accounted :
    (w : World) (written : Bool) (now : ℕ) (d : WebhookDelivery) (reason id : Text)
    → is_accounted id w ≡ true
    → is_accounted id (dlq_and_delete w written now d reason) ≡ true
unfolding dlq_and_delete delete
dlq_and_delete-is_accounted w true now d reason id h =
    ground (arith, Map.get-remove d.event_id id w.store.rows)
dlq_and_delete-is_accounted w false now d reason id h =
    rw (dlq_and_delete, is_queued-mark_failed w.store d.event_id id _ _ _) h

module _ (decode : Text → Option WebhookPayload) (config : WebhookConfig) where
  unfoldable pub step : World → Op → World
  step w (enqueues d) = record w { store = enqueue w.store d }
  step w (claims now ds) = record w { store = (claim w.store now ds).0 }
  step w (sends answer d) = send_and_handle decode w config answer d

  unfoldable pub run : World → List Op → World
  run w [] = w
  run w (o ∷ os) = run (step w o) os

  handle-is_accounted :
      (w : World) (answer : Answer) (d : WebhookDelivery) (outcome : SendOutcome) (id : Text)
      → is_accounted id w ≡ true
      → is_accounted id (handle w config answer d outcome) ≡ true
  unfolding handle retry delete
  handle-is_accounted w answer d success id h =
      ground (arith, Map.get-remove d.event_id id w.store.rows)
  handle-is_accounted w answer d (permanent_failure reason) id h =
      dlq_and_delete-is_accounted w answer.written answer.now d reason id h
  handle-is_accounted w answer d (retry_later reason) id h =
      elim (Bool-cases (leb config.max_retries (u32 (d.attempts + 1)))) [
        | inl b ↦
            rw (b, handle, retry)
              (dlq_and_delete-is_accounted w answer.written answer.now d reason id h)
        | inr b ↦ rw (b, handle, retry, is_queued-mark_failed w.store d.event_id id _ _ _) h
      ]

  step-is_accounted :
      (w : World) (o : Op) (id : Text)
      → is_accounted id w ≡ true
      → is_accounted id (step w o) ≡ true
  unfolding step enqueue send_and_handle
  step-is_accounted w (enqueues d) id h = ground (
    arith,
    Map.get-insert d.event_id id (record { delivery = d; leased = false; leased_at = none })
        w.store.rows,
  )
  step-is_accounted w (claims now ds) id h = rw (is_queued-claim w.store now ds id) h
  step-is_accounted w (sends answer d) id h = elim (Option-cases (decode d.payload)) [
    | inl e ↦
        rw (step, send_and_handle, e)
          (dlq_and_delete-is_accounted w answer.written answer.now d _ id h)
    | inr (p, e) ↦
        rw (step, send_and_handle, e) (handle-is_accounted w answer d answer.outcome id h)
  ]

  run-is_accounted :
      (w : World) (os : List Op) (id : Text)
      → is_accounted id w ≡ true
      → is_accounted id (run w os) ≡ true
  unfolding run
  run-is_accounted w [] id h = h
  run-is_accounted w (o ∷ os) id h = run-is_accounted (step w o) os id (step-is_accounted w o id h)

  -- Every event that was enqueued is, after any interleaving of leases, claims from an old scan,
  -- and outcomes of sending any delivery, in the queue, or accepted by the gateway, or a dead
  -- letter, whether or not the dead letter file could be written each time.
  pub is_accounted-run :
      (w : World) (os : List Op) (id : Text)
      → is_enqueued id os ≡ true
      → is_accounted id (run w os) ≡ true
  unfolding run step enqueue
  is_accounted-run w [] id h = cc
  is_accounted-run w (enqueues d ∷ os) id h = elim (Bool-cases (d.event_id == id)) [
    | inl b ↦ run-is_accounted (step w (enqueues d)) os id (
        ground (
          arith,
          b,
          Map.get-insert d.event_id id (record { delivery = d; leased = false; leased_at = none })
              w.store.rows,
        ))
    | inr b ↦ is_accounted-run (step w (enqueues d)) os id (ground (arith, b))
  ]
  is_accounted-run w (claims now ds ∷ os) id h = is_accounted-run (step w (claims now ds)) os id h
  is_accounted-run w (sends answer d ∷ os) id h = is_accounted-run (step w (sends answer d)) os id h
