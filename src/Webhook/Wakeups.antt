-- ===== src/Webhook/Wakeups.antt =====
-- The worker is awake when a delivery is due.
use a_hand.Base.{
  ℕ, subst, ◌-◌, ◌≤◌, ◌≡◌, refl, Option, none, some, List, [], ◌∷◌, arith, leb, All, map, keep,
  Option-cases, Bool-cases, inl, inr,
}
use a_hand.Webhook.Store.{MemoryWebhookDeliveryStore, earliest_of, earliest_next_retry, is_free}
use a_hand.Webhook.Worker.{sleep_for}

-- No time of the list comes before the moment that is given.
abbrev IsAtMost : Option ℕ → List ℕ → Type 0
IsAtMost none ts = ts ≡ []
IsAtMost (some least) ts = All (λ t. least ≤ t) ts

All-le : (a b : ℕ) (ts : List ℕ) → a ≤ b → All (λ t. b ≤ t) ts → All (λ t. a ≤ t) ts
All-le a b [] h k = tt
All-le a b (t ∷ ts) h k = (omega (arith, k.0), All-le a b ts h k.1)

earliest_of-IsAtMost : (ts : List ℕ) → IsAtMost (earliest_of ts) ts
unfolding earliest_of
earliest_of-IsAtMost [] = refl
earliest_of-IsAtMost (t ∷ ts) = elim (Option-cases (earliest_of ts)) [
  | inl e ↦
      let empty : ts ≡ [] = subst (λ o. IsAtMost o ts) e (earliest_of-IsAtMost ts) in
      rw (earliest_of, e) (omega arith, rw empty tt)
  | inr (least, e) ↦
      let below : All (λ u. least ≤ u) ts =
        subst (λ o. IsAtMost o ts) e (earliest_of-IsAtMost ts) in
      elim (Bool-cases (leb t least)) [
        | inl b ↦ rw (earliest_of, e, b) (omega arith, All-le t least ts (ground arith) below)
        | inr b ↦ rw (earliest_of, e, b) (ground arith, below)
      ]
]

slept :
    (o : Option ℕ) (now : ℕ) (ts : List ℕ)
    → IsAtMost o ts
    → All (λ t. sleep_for (some o) now ≤ t - now) ts
unfolding sleep_for
slept o now [] h = tt
slept none now (t ∷ ts) h = ground arith
slept (some least) now (t ∷ ts) h = (ground arith, slept (some least) now ts h.1)

-- The worker never sleeps past the time at which a delivery that no worker holds is next due, and
-- does not sleep at all when one is due already.
pub sleep_for-earliest_next_retry :
    (s : MemoryWebhookDeliveryStore) (now : ℕ)
    → All
        (λ t. sleep_for (some (earliest_next_retry s now)) now ≤ t - now)
        (map (λ e. e.1.delivery.next_retry_at) (keep (λ e. is_free s.lease_expiry now e.1) s.rows))
unfolding earliest_next_retry
sleep_for-earliest_next_retry s now =
    slept (earliest_next_retry s now) now
      (map (λ e. e.1.delivery.next_retry_at) (keep (λ e. is_free s.lease_expiry now e.1) s.rows))
      (earliest_of-IsAtMost
        (map (λ e. e.1.delivery.next_retry_at) (keep (λ e. is_free s.lease_expiry now e.1) s.rows)))
