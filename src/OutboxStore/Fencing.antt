-- ===== src/OutboxStore/Fencing.antt =====
-- The session lock of a device as a fence: who may touch the device's counter and frames, and
-- that the counter never issues a seq twice.
use a_hand.Base.{
  ℕ, ◌≡◌, ap, ◌∙◌, true, false, List, [], ◌∷◌, Option, none, some, arith, ◌==◌, Bool-cases, inl,
  inr, ◌&&◌,
}
use a_hand.Base.Text.{Text, text_eq, text_beq_iff}
use a_hand.Base.Map
use a_hand.Hub.{unauthorized, ok, err}
use a_hand.OutboxStore.{
  DeviceState, Store, fenced, reconcile_entry, try_acquire_lock, reconcile_on_hello,
  fenced_incr_seq, xadd_frame,
}
use a_hand.OutboxStore.Effects.{
  Call, acquires, releases, increments, kicks, reconciles, adds, observes, subscribes, device, step,
  act, get-step,
}

module _ {S : Type 0} where
  -- The session that holds a device's lock, and the last seq issued to the device.
  abbrev pub owner_of : Option (DeviceState S) → Option Text
  owner_of none = none
  owner_of (some x) = x.lock

  abbrev pub seq_of : Option (DeviceState S) → ℕ
  seq_of none = 0
  seq_of (some x) = x.seq

module _ {S R : Type 0} (channel : ℕ → S) (send : S → ℕ → S) (subscribe : S → S × R) where
  abbrev pub run : Store S → List Call → Store S
  run g [] = g
  run g (c ∷ cs) = run (step channel send subscribe g c) cs

-- Not one of the calls releases the lock of `d` for the session `s`.
abbrev pub Holding : Text → Text → List Call → Type 0
Holding d s [] = Unit {0}
Holding d s (releases e t ∷ cs) = ((e == d && t == s) ≡ false) × Holding d s cs
Holding d s (acquires e t ∷ cs) = Holding d s cs
Holding d s (increments e t ∷ cs) = Holding d s cs
Holding d s (kicks e t ∷ cs) = Holding d s cs
Holding d s (reconciles e t a ∷ cs) = Holding d s cs
Holding d s (adds e t n f ∷ cs) = Holding d s cs
Holding d s (observes e a ∷ cs) = Holding d s cs
Holding d s (subscribes e ∷ cs) = Holding d s cs

module _ {S R : Type 0} (channel : ℕ → S) (send : S → ℕ → S) (subscribe : S → S × R) where
  act-owner_of :
      (c : Call) (d s : Text) (e : Option (DeviceState S))
      → (device c == d) ≡ true
      → Holding d s (c ∷ [])
      → owner_of e ≡ some s
      → owner_of (act channel send subscribe c e) ≡ some s
  unfolding reconcile_entry
  act-owner_of c d s none h k o = cc
  act-owner_of (acquires e t) d s (some x) h k o = ground arith
  act-owner_of (releases e t) d s (some x) h k o =
      ground (arith, text_beq_iff s t, text_beq_iff t s)
  act-owner_of (increments e t) d s (some x) h k o = ground arith
  act-owner_of (kicks e t) d s (some x) h k o = o
  act-owner_of (reconciles e t a) d s (some x) h k o = ground arith
  act-owner_of (adds e t n f) d s (some x) h k o = ground arith
  act-owner_of (observes e a) d s (some x) h k o = ground arith
  act-owner_of (subscribes e) d s (some x) h k o = o

  step-owner_of :
      (g : Store S) (c : Call) (d s : Text)
      → Holding d s (c ∷ [])
      → owner_of (Map.get d g) ≡ some s
      → owner_of (Map.get d (step channel send subscribe g c)) ≡ some s
  step-owner_of g c d s k o =
      rw (get-step channel send subscribe g c d) (elim (Bool-cases (device c == d)) [
        | inl h ↦ rw h (
            act-owner_of c d s _ h k
              (ap (λ (t : Text). owner_of (Map.get t g)) ((text_beq_iff (device c) d).0 h) ∙ o))
        | inr h ↦ rw h o
      ])

  Holding-split :
      (c : Call) (d s : Text) (cs : List Call)
      → Holding d s (c ∷ cs)
      → Holding d s (c ∷ []) × Holding d s cs
  Holding-split (acquires e t) d s cs h = (tt, h)
  Holding-split (releases e t) d s cs h = ((h.0, tt), h.1)
  Holding-split (increments e t) d s cs h = (tt, h)
  Holding-split (kicks e t) d s cs h = (tt, h)
  Holding-split (reconciles e t a) d s cs h = (tt, h)
  Holding-split (adds e t n f) d s cs h = (tt, h)
  Holding-split (observes e a) d s cs h = (tt, h)
  Holding-split (subscribes e) d s cs h = (tt, h)

  run-owner_of :
      (cs : List Call) (g : Store S) (d s : Text)
      → Holding d s cs
      → owner_of (Map.get d g) ≡ some s
      → owner_of (Map.get d (run channel send subscribe g cs)) ≡ some s
  run-owner_of [] g d s k o = o
  run-owner_of (c ∷ cs) g d s k o =
      run-owner_of cs (step channel send subscribe g c) d s (Holding-split c d s cs k).1
        (step-owner_of g c d s (Holding-split c d s cs k).0 o)

other_fenced :
    {S : Type 0} (g : Store S) (d s t : Text)
    → owner_of (Map.get d g) ≡ some s
    → (s == t) ≡ false
    → fenced g d t ≡ err unauthorized
unfolding fenced
other_fenced g d s t o h = ground arith

acquired_no_more :
    {S : Type 0} (g : Store S) (d s t : Text)
    → owner_of (Map.get d g) ≡ some s
    → (try_acquire_lock g d t).1 ≡ ok false
unfolding try_acquire_lock
acquired_no_more g d s t o = ground arith

-- The fenced calls of a session on a device fail and change nothing, and no session can acquire
-- the device's lock.
abbrev pub Excluded : {S : Type 0} → Store S → Text → Text → Type 0
Excluded g d t =
    (fenced_incr_seq g d t ≡ (g, err unauthorized))
    × ((n : ℕ) (f : Text) → xadd_frame g d t n f ≡ (g, err unauthorized))
    × ((a : ℕ) → reconcile_on_hello g d t a ≡ (g, err unauthorized))
    × ((u : Text) → (try_acquire_lock g d u).1 ≡ ok false)

owned-Excluded :
    {S : Type 0} (g : Store S) (d s t : Text)
    → owner_of (Map.get d g) ≡ some s
    → (s == t) ≡ false
    → Excluded g d t
unfolding fenced_incr_seq xadd_frame reconcile_on_hello
owned-Excluded g d s t o h =
    let e = other_fenced g d s t o h in
    (rw e, λ n f. rw e, λ a. rw e, λ u. acquired_no_more g d s u o)

-- From the moment a session holds a device's lock, and through any calls among which it does not
-- release that lock itself, the session keeps it: the fenced calls of every other session fail
-- and change nothing, and no session can acquire it.
pub run-Excluded :
    {S R : Type 0} (channel : ℕ → S) (send : S → ℕ → S) (subscribe : S → S × R) (cs : List Call)
    (g : Store S) (d s t : Text)
    → owner_of (Map.get d g) ≡ some s
    → Holding d s cs
    → (s == t) ≡ false
    → (owner_of (Map.get d (run channel send subscribe g cs)) ≡ some s)
      × Excluded (run channel send subscribe g cs) d t
run-Excluded channel send subscribe cs g d s t o k h =
    let o' = run-owner_of channel send subscribe cs g d s k o in
    (o', owned-Excluded (run channel send subscribe g cs) d s t o' h)
