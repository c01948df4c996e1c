-- ===== src/PendingFiles/Capacity.antt =====
-- The table of file requests in flight: its counter and its capacity over any run of operations,
-- and what every operation does to the waiters.
use a_hand.Base.{
  ℕ, ◌+◌, ◌≤◌, ◌≡◌, refl, ◌&&◌, List, [], ◌∷◌, none, some, arith, ltb, ◌==◌, if◌then◌else◌, length,
  is_some, nat_eq, pair_eq, Option-cases, Bool-cases, inl, inr, not,
}
use a_hand.Base.Text.{Text, text_eq, text_beq_iff}
use a_hand.Base.Map
use a_hand.PendingFiles.{
  PendingFileRequests, at_capacity, duplicate, ok, err, new, register, resolve, cancel,
}

pub data Op : Type 0 where
  registers : Text → Text → ℕ → Op
  resolves : Text → Text → Op
  cancels : Text → Text → Op

unfoldable pub step : PendingFileRequests → Op → PendingFileRequests
step p (registers d r tx) = (register p d r tx).0
step p (resolves d r) = (resolve p d r).0
step p (cancels d r) = cancel p d r

unfoldable pub run : PendingFileRequests → List Op → PendingFileRequests
run p [] = p
run p (o ∷ os) = run (step p o) os

-- The counter is the number of waiters, and stays within the capacity.
pub record IsCounted (p : PendingFileRequests) : Type 0 where
  pub distinct : Map.IsDistinct p.pending
  pub counted : p.in_flight ≡ length p.pending
  pub bounded : p.in_flight ≤ p.capacity

register-IsCounted :
    (p : PendingFileRequests) (d r : Text) (tx : ℕ) → IsCounted p → IsCounted (register p d r tx).0
unfolding register
register-IsCounted p d r tx v = elim (Option-cases (Map.get (d, r) p.pending)) [
  | inl e ↦ elim (Bool-cases (ltb p.capacity (p.in_flight + 1))) [
    | inl full ↦
        rw (full, register)
          (record {
            distinct = v.distinct;
            counted = omega (arith, v.counted);
            bounded = omega (arith, v.bounded);
          })
    | inr room ↦
        rw (room, e, register)
          (record {
            distinct = Map.insert-IsDistinct (d, r) tx p.pending v.distinct;
            counted = ground (arith, Map.length-insert (d, r) tx p.pending e, v.counted);
            bounded = ground arith;
          })
  ]
  | inr (w, e) ↦ elim (Bool-cases (ltb p.capacity (p.in_flight + 1))) [
    | inl full ↦
        rw (full, register)
          (record {
            distinct = v.distinct;
            counted = omega (arith, v.counted);
            bounded = omega (arith, v.bounded);
          })
    | inr room ↦
        rw (room, e, register)
          (record {
            distinct = v.distinct;
            counted = omega (arith, v.counted);
            bounded = omega (arith, v.bounded);
          })
  ]
]

cancel-IsCounted : (p : PendingFileRequests) (d r : Text) → IsCounted p → IsCounted (cancel p d r)
unfolding cancel
cancel-IsCounted p d r v = elim (Option-cases (Map.get (d, r) p.pending)) [
  | inl e ↦ rw (e, cancel) v
  | inr (w, e) ↦
      rw (e, cancel)
        (record {
          distinct = Map.remove-IsDistinct (d, r) p.pending v.distinct;
          counted = ground (arith, Map.length-remove (d, r) p.pending v.distinct, e, v.counted);
          bounded = omega (arith, v.bounded);
        })
]

-- `resolve` leaves what `cancel` leaves.
resolve-cancel : (p : PendingFileRequests) (d r : Text) → (resolve p d r).0 ≡ cancel p d r
unfolding resolve cancel
resolve-cancel p d r = elim (Option-cases (Map.get (d, r) p.pending)) [
  | inl e ↦ rw (e, cancel, resolve) refl
  | inr (w, e) ↦ rw (e, cancel, resolve) refl
]

step-IsCounted : (p : PendingFileRequests) (o : Op) → IsCounted p → IsCounted (step p o)
unfolding step
step-IsCounted p (registers d r tx) v = register-IsCounted p d r tx v
step-IsCounted p (resolves d r) v = rw (resolve-cancel p d r) (cancel-IsCounted p d r v)
step-IsCounted p (cancels d r) v = cancel-IsCounted p d r v

run-IsCounted : (p : PendingFileRequests) (os : List Op) → IsCounted p → IsCounted (run p os)
unfolding run
run-IsCounted p [] v = v
run-IsCounted p (o ∷ os) v = run-IsCounted (step p o) os (step-IsCounted p o v)

-- After any sequence of operations the counter is the number of waiters, no two waiters have one
-- key, and the counter is within the capacity.
pub run-new-IsCounted : (capacity : ℕ) (os : List Op) → IsCounted (run (new capacity) os)
unfolding new
run-new-IsCounted capacity os =
    run-IsCounted (new capacity) os
      (record { distinct = tt; counted = refl; bounded = omega arith })

-- When the counter is right, `register` answers that the table is full, else that the key is
-- taken, else with its waiter, and that waiter alone is the one that a response to the same device
-- and request reaches afterwards; a refusal leaves the waiter that was there.
register_lem :
    (p : PendingFileRequests) (d r : Text) (tx : ℕ)
    → IsCounted p
    → ((register p d r tx).1 ≡ (
        if ltb (length p.pending) p.capacity
        then (if is_some (Map.get (d, r) p.pending) then err duplicate else ok tx)
        else err at_capacity))
      × ((resolve (register p d r tx).0 d r).1 ≡ (
          if ltb (length p.pending) p.capacity && not (is_some (Map.get (d, r) p.pending))
          then some tx
          else Map.get (d, r) p.pending))
unfolding register resolve
register_lem p d r tx v = elim (Option-cases (Map.get (d, r) p.pending)) [
  | inl e ↦ ground (arith, e, v.counted, Map.get-insert_self (d, r) tx p.pending)
  | inr (w, e) ↦ ground (arith, e, v.counted)
]

-- A response or a cancellation for one device and request takes that waiter away and no other.
get-cancel :
    (p : PendingFileRequests) (d r other_d other_r : Text)
    → (Map.get (other_d, other_r) (cancel p d r).pending
        ≡ (if d == other_d && r == other_r then none else Map.get (other_d, other_r) p.pending))
      × ((resolve p d r).0 ≡ cancel p d r)
unfolding cancel
get-cancel p d r other_d other_r = (left, resolve-cancel p d r)
  where
    left :
        Map.get (other_d, other_r) (cancel p d r).pending
        ≡ (if d == other_d && r == other_r then none else Map.get (other_d, other_r) p.pending)
    left = elim (Option-cases (Map.get (d, r) p.pending)) [
      | inl e ↦ rw (e, cancel) (absent e)
      | inr (w, e) ↦ rw (e, cancel) (Map.get-remove (d, r) (other_d, other_r) p.pending)
    ]
      where
        absent :
            Map.get (d, r) p.pending ≡ none
            → Map.get (other_d, other_r) p.pending ≡ (
                if d == other_d && r == other_r then none else Map.get (other_d, other_r) p.pending)
        absent e = ground (arith, e, text_beq_iff d other_d, text_beq_iff r other_r)
