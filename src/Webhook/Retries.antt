-- ===== src/Webhook/Retries.antt =====
-- A webhook is tried a bounded number of times.
use a_hand.Base.{
  ℕ, subst, ap, ◌∙◌, suc, ◌+◌, ◌*◌, ◌≤◌, ◌<◌, ◌≡◌, ◌⊎◌, refl, true, false, Option, none, some, List,
  [], ◌∷◌, arith, leb, u32, All, length, Option-cases, Bool-cases, inl, inr,
}
use a_hand.Base.Text.{Text, text_eq, codes}
use a_hand.Base.Map
use a_hand.Webhook.{
  WebhookPayload, WebhookDelivery, WebhookConfig, MemoryRow, SendOutcome, success,
  permanent_failure, retry_later,
}
use a_hand.Webhook.Store.{enqueue, delete, mark_failed, failed}
use a_hand.Webhook.Sender.{backoff_secs}
use a_hand.Webhook.Worker.{World, Answer, dlq_and_delete, retry, handle, send_and_handle}

module _ (decode : Text → Option WebhookPayload) (config : WebhookConfig) where
  -- The row of one event is sent, if it is there, with each answer in turn.
  unfoldable pub rounds : World → Text → List Answer → World
  rounds w id [] = w
  rounds w id (answer ∷ answers) = elim (Map.get id w.store.rows) [
    | none ↦ rounds w id answers
    | some row ↦ rounds (send_and_handle decode w config answer row.delivery) id answers
  ]

  -- What one round leaves: nothing, or a row with one attempt more.
  abbrev Left : Text → ℕ → World → Type 0
  Left id attempts w =
      (Map.get id w.store.rows ≡ none)
      ⊎ ((row : MemoryRow) × (Map.get id w.store.rows ≡ some row)
          × (row.delivery.event_id ≡ id)
          × (row.delivery.attempts ≡ suc attempts)
          × (suc attempts < config.max_retries))

  dead-Left :
      (w : World) (d : WebhookDelivery) (now : ℕ) (reason : Text)
      → Left d.event_id d.attempts (dlq_and_delete w true now d reason)
  unfolding dlq_and_delete delete
  dead-Left w d now reason = inl (Map.get-remove_self d.event_id w.store.rows)

  retry-Left :
      (w : World) (row : MemoryRow) (answer : Answer) (reason : Text)
      → Map.get row.delivery.event_id w.store.rows ≡ some row
      → answer.written ≡ true
      → row.delivery.attempts < 4294967295
      → Left row.delivery.event_id row.delivery.attempts (retry w config answer row.delivery reason)
  unfolding retry mark_failed
  retry-Left w row answer reason g a h =
      elim (Bool-cases (leb config.max_retries (u32 (row.delivery.attempts + 1)))) [
        | inl b ↦ rw (retry, b, a) (dead-Left w row.delivery answer.now reason)
        | inr b ↦
            rw (retry, b, mark_failed, g)
              (inr (
                failed row (answer.now + backoff_secs (u32 (row.delivery.attempts + 1)) * 1000)
                    (u32 (row.delivery.attempts + 1)) reason,
                Map.get-insert_self row.delivery.event_id
                    (failed row (answer.now + backoff_secs (u32 (row.delivery.attempts + 1)) * 1000)
                      (u32 (row.delivery.attempts + 1)) reason)
                    w.store.rows,
                refl,
                omega arith,
                ground arith,
              ))
      ]

  send-Left :
      (w : World) (row : MemoryRow) (answer : Answer) (outcome : SendOutcome)
      → Map.get row.delivery.event_id w.store.rows ≡ some row
      → answer.written ≡ true
      → row.delivery.attempts < 4294967295
      → Left row.delivery.event_id row.delivery.attempts
          (handle w config answer row.delivery outcome)
  unfolding handle delete
  send-Left w row answer success g a h =
      inl (Map.get-remove_self row.delivery.event_id w.store.rows)
  send-Left w row answer (permanent_failure reason) g a h =
      rw (handle, a) (dead-Left w row.delivery answer.now reason)
  send-Left w row answer (retry_later reason) g a h = retry-Left w row answer reason g a h

  round-Left :
      (w : World) (row : MemoryRow) (answer : Answer)
      → Map.get row.delivery.event_id w.store.rows ≡ some row
      → answer.written ≡ true
      → row.delivery.attempts < 4294967295
      → Left row.delivery.event_id row.delivery.attempts
          (send_and_handle decode w config answer row.delivery)
  unfolding send_and_handle
  round-Left w row answer g a h = elim (Option-cases (decode row.delivery.payload)) [
    | inl e ↦
        rw (send_and_handle, e, a)
          (dead-Left w row.delivery answer.now (codes "payload decode failed"))
    | inr (p, e) ↦ rw (send_and_handle, e) (send-Left w row answer answer.outcome g a h)
  ]

  round_id :
      (w : World) (row : MemoryRow) (answer : Answer) (id : Text)
      → row.delivery.event_id ≡ id
      → Map.get id w.store.rows ≡ some row
      → answer.written ≡ true
      → row.delivery.attempts < 4294967295
      → Left id row.delivery.attempts (send_and_handle decode w config answer row.delivery)
  round_id w row answer id i g a h =
      subst
        (λ k. Left k row.delivery.attempts (send_and_handle decode w config answer row.delivery)) i
        (round-Left w row answer (ap (λ (k : Text). Map.get k w.store.rows) i ∙ g) a h)

  rounds_gone :
      (w : World) (id : Text) (answers : List Answer)
      → Map.get id w.store.rows ≡ none
      → Map.get id (rounds w id answers).store.rows ≡ none
  unfolding rounds
  rounds_gone w id [] g = g
  rounds_gone w id (answer ∷ answers) g = rw (rounds, g) (rounds_gone w id answers g)

  rounds_end :
      (w : World) (id : Text) (answers : List Answer) (row : MemoryRow)
      → Map.get id w.store.rows ≡ some row
      → row.delivery.event_id ≡ id
      → All (λ (a : Answer). a.written ≡ true) answers
      → row.delivery.attempts < 4294967295
      → config.max_retries < 4294967296
      → 0 < length answers
      → config.max_retries ≤ row.delivery.attempts + length answers
      → Map.get id (rounds w id answers).store.rows ≡ none
  unfolding rounds
  rounds_end w id [] row g i a h m z l = absurd (omega arith)
  rounds_end w id (answer ∷ answers) row g i a h m z l =
      rw (rounds, g)
        (elim (round_id w row answer id i g a.0 h) [
          | inl e ↦ rounds_gone (send_and_handle decode w config answer row.delivery) id answers e
          | inr (next, g', i', n, b) ↦
              rounds_end (send_and_handle decode w config answer row.delivery) id answers next g' i'
                a.1 (omega (arith, n, b, m)) m (omega (arith, b, l)) (omega (arith, n, l))
        ])

  -- An event with no attempt made yet that is sent `max_retries` times, a number below 2^32, or
  -- once where that is 0, has left the queue, whatever the gateway answered each time, if the
  -- dead letter file can be written: the attempts come to an end.
  pub rounds-enqueue :
      (w : World) (d : WebhookDelivery) (answers : List Answer)
      → d.attempts ≡ 0
      → All (λ (a : Answer). a.written ≡ true) answers
      → config.max_retries < 4294967296
      → 0 < length answers
      → config.max_retries ≤ length answers
      → Map.get d.event_id
          (rounds (record w { store = enqueue w.store d }) d.event_id answers).store.rows
        ≡ none
  unfolding enqueue
  rounds-enqueue w d answers z a m l k =
      rounds_end (record w { store = enqueue w.store d }) d.event_id answers
        (record { delivery = d; leased = false; leased_at = none })
        (Map.get-insert_self d.event_id (record { delivery = d; leased = false; leased_at = none })
          w.store.rows)
        refl a (omega (arith, z)) m l (omega (arith, z, k))
