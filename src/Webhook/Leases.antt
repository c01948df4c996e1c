-- ===== src/Webhook/Leases.antt =====
-- A lease on a webhook delivery is exclusive until it expires or is given up.
use a_hand.Base.{
  ℕ, ◌+◌, ◌≤◌, ◌≡◌, refl, true, false, none, some, List, [], ◌∷◌, arith, ◌==◌, Option-cases,
  Bool-cases, eq_cases, inl, inr,
}
use a_hand.Base.Text.{Text, text_eq}
use a_hand.Base.Map
use a_hand.Webhook.{WebhookDelivery, MemoryRow}
use a_hand.Webhook.Store.{
  MemoryWebhookDeliveryStore, enqueue, delete, mark_failed, failed, claim, claim_one, is_free,
  lease,
}

pub data Op : Type 0 where
  enqueues : WebhookDelivery → Op
  claims : ℕ → List WebhookDelivery → Op
  deletes : Text → Op
  fails : Text → ℕ → ℕ → Text → Op

unfoldable pub step : MemoryWebhookDeliveryStore → Op → MemoryWebhookDeliveryStore
step s (enqueues d) = enqueue s d
step s (claims now ds) = (claim s now ds).0
step s (deletes id) = delete s id
step s (fails id at attempts reason) = mark_failed s id at attempts reason

unfoldable pub run : MemoryWebhookDeliveryStore → List Op → MemoryWebhookDeliveryStore
run s [] = s
run s (o ∷ os) = run (step s o) os

-- No operation gives the delivery up, and no claim comes after the limit.
abbrev pub IsUntouched : Text → ℕ → List Op → Type 0
IsUntouched id limit [] = Unit {0}
IsUntouched id limit (enqueues d ∷ os) = ((d.event_id == id) ≡ false) × IsUntouched id limit os
IsUntouched id limit (claims now ds ∷ os) = (now ≤ limit) × IsUntouched id limit os
IsUntouched id limit (deletes i ∷ os) = ((i == id) ≡ false) × IsUntouched id limit os
IsUntouched id limit (fails i at attempts reason ∷ os) =
    ((i == id) ≡ false) × IsUntouched id limit os

-- The row is leased since `t`.
record IsHeld (id : Text) (t expiry : ℕ) (s : MemoryWebhookDeliveryStore) : Type 0 where
  row : MemoryRow
  stored : Map.get id s.rows ≡ some row
  leased : row.leased ≡ true
  since : row.leased_at ≡ some t
  expiring : s.lease_expiry ≡ expiry

busy :
    (expiry t now : ℕ) (row : MemoryRow)
    → row.leased ≡ true
    → row.leased_at ≡ some t
    → now ≤ t + expiry
    → is_free expiry now row ≡ false
busy expiry t now row l a h = rw (l, a) (ground arith)

claim_one_held :
    (s : MemoryWebhookDeliveryStore) (now t expiry : ℕ) (id : Text)
    → IsHeld id t expiry s
    → now ≤ t + expiry
    → claim_one s now id ≡ (s, none)
unfolding claim_one
claim_one_held s now t expiry id v h =
    rw (claim_one, v.stored, v.expiring, busy expiry t now v.row v.leased v.since h) refl

claim_one-IsHeld :
    (s : MemoryWebhookDeliveryStore) (now t expiry : ℕ) (k id : Text)
    → IsHeld id t expiry s
    → now ≤ t + expiry
    → IsHeld id t expiry (claim_one s now k).0
unfolding claim_one
claim_one-IsHeld s now t expiry k id v h = elim (eq_cases k id) [
  | inl (b, e) ↦ rw (e, claim_one_held s now t expiry id v h) v
  | inr (b, e) ↦ elim (Option-cases (Map.get k s.rows)) [
    | inl g ↦ rw (claim_one, g) v
    | inr (row, g) ↦ elim (Bool-cases (is_free s.lease_expiry now row)) [
      | inl f ↦
          rw (claim_one, g, f)
            (record {
              row = v.row;
              stored = rw (Map.get-insert k id (lease now row) s.rows, b) v.stored;
              leased = v.leased;
              since = v.since;
              expiring = v.expiring;
            })
      | inr f ↦ rw (claim_one, g, f) v
    ]
  ]
]

claim-IsHeld :
    (s : MemoryWebhookDeliveryStore) (now t expiry : ℕ) (ds : List WebhookDelivery) (id : Text)
    → IsHeld id t expiry s
    → now ≤ t + expiry
    → IsHeld id t expiry (claim s now ds).0
unfolding claim
claim-IsHeld s now t expiry [] id v h = v
claim-IsHeld s now t expiry (d ∷ ds) id v h =
    claim-IsHeld (claim_one s now d.event_id).0 now t expiry ds id
      (claim_one-IsHeld s now t expiry d.event_id id v h) h

-- A change of another row.
stays :
    (id : Text) (t expiry : ℕ) (s s' : MemoryWebhookDeliveryStore)
    → IsHeld id t expiry s
    → Map.get id s'.rows ≡ Map.get id s.rows
    → s'.lease_expiry ≡ s.lease_expiry
    → IsHeld id t expiry s'
stays id t expiry s s' v e x = record {
  row = v.row;
  stored = ground (arith, e, v.stored);
  leased = v.leased;
  since = v.since;
  expiring = ground (arith, x, v.expiring);
}

step-IsHeld :
    (s : MemoryWebhookDeliveryStore) (o : Op) (t expiry : ℕ) (id : Text)
    → IsHeld id t expiry s
    → IsUntouched id (t + expiry) (o ∷ [])
    → IsHeld id t expiry (step s o)
unfolding step enqueue delete mark_failed
step-IsHeld s (enqueues d) t expiry id v u =
    stays id t expiry s (enqueue s d) v
      (rw
        (
          enqueue,
          Map.get-insert d.event_id id (record { delivery = d; leased = false; leased_at = none })
              s.rows,
          u.0,
        )
        refl)
      refl
step-IsHeld s (claims now ds) t expiry id v u = claim-IsHeld s now t expiry ds id v u.0
step-IsHeld s (deletes i) t expiry id v u =
    stays id t expiry s (delete s i) v (rw (delete, Map.get-remove i id s.rows, u.0) refl) refl
step-IsHeld s (fails i at attempts reason) t expiry id v u =
    elim (Option-cases (Map.get i s.rows)) [
      | inl e ↦ rw (step, mark_failed, e) v
      | inr (row, e) ↦
          rw (step, mark_failed, e)
            (stays id t expiry s
              (record s { rows = Map.insert i (failed row at attempts reason) s.rows }) v
              (rw (Map.get-insert i id (failed row at attempts reason) s.rows, u.0) refl) refl)
    ]

IsUntouched-split :
    (id : Text) (limit : ℕ) (o : Op) (os : List Op)
    → IsUntouched id limit (o ∷ os)
    → IsUntouched id limit (o ∷ []) × IsUntouched id limit os
IsUntouched-split id limit (enqueues d) os u = ((u.0, tt), u.1)
IsUntouched-split id limit (claims now ds) os u = ((u.0, tt), u.1)
IsUntouched-split id limit (deletes i) os u = ((u.0, tt), u.1)
IsUntouched-split id limit (fails i at attempts reason) os u = ((u.0, tt), u.1)

run-IsHeld :
    (s : MemoryWebhookDeliveryStore) (os : List Op) (t expiry : ℕ) (id : Text)
    → IsHeld id t expiry s
    → IsUntouched id (t + expiry) os
    → IsHeld id t expiry (run s os)
unfolding run
run-IsHeld s [] t expiry id v u = v
run-IsHeld s (o ∷ os) t expiry id v u =
    run-IsHeld (step s o) os t expiry id
      (step-IsHeld s o t expiry id v (IsUntouched-split id (t + expiry) o os u).0)
      (IsUntouched-split id (t + expiry) o os u).1

claimed :
    (s : MemoryWebhookDeliveryStore) (t : ℕ) (id : Text) (d : WebhookDelivery)
    → (claim_one s t id).1 ≡ some d
    → IsHeld id t s.lease_expiry (claim_one s t id).0
unfolding claim_one
claimed s t id d h = elim (Option-cases (Map.get id s.rows)) [
  | inl e ↦ ground (arith, e, h)
  | inr (row, e) ↦ elim (Bool-cases (is_free s.lease_expiry t row)) [
    | inl f ↦
        rw (claim_one, e, f)
          (record {
            row = lease t row;
            stored = Map.get-insert_self id (lease t row) s.rows;
            leased = refl;
            since = refl;
            expiring = refl;
          })
    | inr f ↦ ground (arith, e, f, h)
  ]
]

-- Once a worker has claimed a delivery, no worker is handed it again until the lease expires,
-- whatever candidates other workers hold from older scans, unless it is deleted, marked as failed
-- or enqueued anew.
pub claim_one-run :
    (s : MemoryWebhookDeliveryStore) (os : List Op) (t now : ℕ) (id : Text) (d : WebhookDelivery)
    → (claim_one s t id).1 ≡ some d
    → IsUntouched id (t + s.lease_expiry) os
    → now ≤ t + s.lease_expiry
    → claim_one (run (claim_one s t id).0 os) now id ≡ (run (claim_one s t id).0 os, none)
claim_one-run s os t now id d h u l =
    claim_one_held (run (claim_one s t id).0 os) now t s.lease_expiry id
      (run-IsHeld (claim_one s t id).0 os t s.lease_expiry id (claimed s t id d h) u) l
