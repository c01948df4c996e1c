-- ===== src/Webhook/Store.antt =====
-- The in-memory queue of webhook deliveries. `lease_due` scans the rows and then claims the
-- candidates one by one, and other calls may come between the two.
use a_hand.Base.{
  ℕ, ◌+◌, suc, zero, Bool, true, false, not, ◌&&◌, ◌||◌, Option, none, some, List, [], ◌∷◌, map,
  length, keep, ltb, leb, if◌then◌else◌,
}
use a_hand.Base.Text.{Text, text_eq}
use a_hand.Base.Map
use a_hand.Base.Map.{Map}
use a_hand.Base.Sort.{sort_by}
use a_hand.Webhook.{WebhookDelivery, MemoryRow}

pub record MemoryWebhookDeliveryStore : Type 0 where
  pub rows : Map Text MemoryRow
  pub lease_expiry : ℕ

unfoldable pub with_lease_expiry : ℕ → MemoryWebhookDeliveryStore
with_lease_expiry lease_expiry = record { rows = []; lease_expiry = lease_expiry }

unfoldable pub enqueue : MemoryWebhookDeliveryStore → WebhookDelivery → MemoryWebhookDeliveryStore
enqueue s delivery = record s {
  rows =
      Map.insert delivery.event_id
        (record { delivery = delivery; leased = false; leased_at = none }) s.rows;
}

-- `now - claimed_at > expiry`, and a lease with no time is stale.
abbrev pub is_stale : ℕ → ℕ → Option ℕ → Bool
is_stale expiry now none = true
is_stale expiry now (some claimed_at) = ltb (claimed_at + expiry) now

-- No worker holds the row.
abbrev pub is_free : ℕ → ℕ → MemoryRow → Bool
is_free expiry now row = not row.leased || is_stale expiry now row.leased_at

abbrev pub is_due : ℕ → ℕ → Text × MemoryRow → Bool
is_due expiry now (id, row) = not (ltb now row.delivery.next_retry_at) && is_free expiry now row

abbrev pub retry_leb : WebhookDelivery → WebhookDelivery → Bool
retry_leb a b = leb a.next_retry_at b.next_retry_at

-- `truncate`.
abbrev pub take : ℕ → List WebhookDelivery → List WebhookDelivery
take zero ds = []
take (suc n) [] = []
take (suc n) (d ∷ ds) = d ∷ take n ds

unfoldable pub candidates : MemoryWebhookDeliveryStore → ℕ → ℕ → List WebhookDelivery
candidates s now limit =
    take limit
      (sort_by retry_leb (map (λ e. e.1.delivery) (keep (is_due s.lease_expiry now) s.rows)))

abbrev pub lease : ℕ → MemoryRow → MemoryRow
lease now row = record row { leased = true; leased_at = some now }

-- One turn of the claiming loop, for the row with the candidate's id.
unfoldable pub claim_one :
    MemoryWebhookDeliveryStore → ℕ → Text → MemoryWebhookDeliveryStore × Option WebhookDelivery
claim_one s now id = elim (Map.get id s.rows) [
  | none ↦ (s, none)
  | some row ↦
      if is_free s.lease_expiry now row
      then (record s { rows = Map.insert id (lease now row) s.rows }, some row.delivery)
      else (s, none)
]

abbrev pub push : Option WebhookDelivery → List WebhookDelivery → List WebhookDelivery
push none claimed = claimed
push (some d) claimed = d ∷ claimed

unfoldable pub claim :
    MemoryWebhookDeliveryStore
    → ℕ
    → List WebhookDelivery
    → MemoryWebhookDeliveryStore × List WebhookDelivery
unfolding claim_one
claim s now [] = (s, [])
claim s now (d ∷ ds) =
    let (s', claimed) = claim_one s now d.event_id in
    let (s'', rest) = claim s' now ds in (s'', push claimed rest)

unfoldable pub lease_due :
    MemoryWebhookDeliveryStore → ℕ → ℕ → MemoryWebhookDeliveryStore × List WebhookDelivery
unfolding candidates claim
lease_due s now limit = claim s now (candidates s now limit)

unfoldable pub delete : MemoryWebhookDeliveryStore → Text → MemoryWebhookDeliveryStore
delete s event_id = record s { rows = Map.remove event_id s.rows }

abbrev pub failed : MemoryRow → ℕ → ℕ → Text → MemoryRow
failed row next_retry_at attempts last_error = record {
  delivery = record row.delivery {
    attempts = attempts;
    next_retry_at = next_retry_at;
    last_error = some last_error;
  };
  leased = false;
  leased_at = none;
}

unfoldable pub mark_failed :
    MemoryWebhookDeliveryStore → Text → ℕ → ℕ → Text → MemoryWebhookDeliveryStore
mark_failed s event_id next_retry_at attempts last_error = elim (Map.get event_id s.rows) [
  | none ↦ s
  | some row ↦ record s {
    rows = Map.insert event_id (failed row next_retry_at attempts last_error) s.rows;
  }
]

-- `min` of an iterator.
unfoldable pub earliest_of : List ℕ → Option ℕ
earliest_of [] = none
earliest_of (t ∷ ts) = elim (earliest_of ts) [
  | none ↦ some t
  | some least ↦ if leb t least then some t else some least
]

unfoldable pub earliest_next_retry : MemoryWebhookDeliveryStore → ℕ → Option ℕ
unfolding earliest_of
earliest_next_retry s now =
    earliest_of
      (map (λ e. e.1.delivery.next_retry_at) (keep (λ e. is_free s.lease_expiry now e.1) s.rows))

unfoldable pub pending_count : MemoryWebhookDeliveryStore → ℕ
pending_count s = length s.rows
