-- ===== src/OutboxStore/Effects.antt =====
-- What each call of the outbox store does to the entry of each device.
use a_hand.Base.{
  ℕ, ◌+◌, ◌≡◌, refl, [], ◌∷◌, Option, none, some, arith, ◌==◌, if◌then◌else◌, u64, ltb, Bool-cases,
  Option-cases, inl, inr, is_some, ◌++◌,
}
use a_hand.Base.Text.{Text, text_eq, text_beq_iff}
use a_hand.Base.Map
use a_hand.Hub.{unauthorized, ok, err}
use a_hand.OutboxStore.{
  DeviceState, Store, is_owner, or_default, on_entry, fenced, reconcile_entry, max_buffer,
  try_acquire_lock, release_lock, reconcile_on_hello, fenced_incr_seq, xadd_frame, observe_ack,
  kick, subscribe_kick,
}
use a_hand.Frames.{evict, trim}

-- The calls that change the store, the device first and then the session.
pub data Call : Type 0 where
  acquires releases increments kicks : Text → Text → Call
  reconciles : Text → Text → ℕ → Call
  adds : Text → Text → ℕ → Text → Call
  observes : Text → ℕ → Call
  subscribes : Text → Call

abbrev pub device : Call → Text
device (acquires d s) = d
device (releases d s) = d
device (increments d s) = d
device (kicks d s) = d
device (reconciles d s a) = d
device (adds d s n f) = d
device (observes d a) = d
device (subscribes d) = d

module _ {S R : Type 0} (channel : ℕ → S) (send : S → ℕ → S) (subscribe : S → S × R) where
  abbrev pub step : Store S → Call → Store S
  step g (acquires d s) = (try_acquire_lock g d s).0
  step g (releases d s) = (release_lock g d s).0
  step g (increments d s) = (fenced_incr_seq g d s).0
  step g (kicks d s) = (kick channel send subscribe g d s).0
  step g (reconciles d s a) = (reconcile_on_hello g d s a).0
  step g (adds d s n f) = (xadd_frame g d s n f).0
  step g (observes d a) = (observe_ack g d a).0
  step g (subscribes d) = (subscribe_kick channel send subscribe g d).0

-- What each call makes of the entry of its device.
module _ {S R : Type 0} (channel : ℕ → S) (send : S → ℕ → S) (subscribe : S → S × R) where
  abbrev pub act : Call → Option (DeviceState S) → Option (DeviceState S)
  act (acquires d s) e =
      let x = or_default e in some (if is_some x.lock then x else record x { lock = some s })
  act (kicks d s) e =
      let x = or_default e in
      let count = u64 (x.kick_count + 1) in
      let tx = elim x.kick_tx as (λ _. S) [ none ↦ channel count | some tx ↦ send tx count ] in
      some (record x { kick_count = count; kick_tx = some tx })
  act (subscribes d) e =
      let x = or_default e in
      let tx = elim x.kick_tx as (λ _. S) [ none ↦ channel 0 | some tx ↦ tx ] in
      some (record x { kick_tx = some (subscribe tx).0 })
  act (releases d s) none = none
  act (releases d s) (some x) = some (if is_owner x.lock s then record x { lock = none } else x)
  act (increments d s) none = none
  act (increments d s) (some x) =
      some (if is_owner x.lock s then record x { seq = u64 (x.seq + 1) } else x)
  act (reconciles d s a) none = none
  act (reconciles d s a) (some x) = some (if is_owner x.lock s then (reconcile_entry x a).0 else x)
  act (adds d s n f) none = none
  act (adds d s n f) (some x) = some (
      if is_owner x.lock s
      then record x { buffer = evict max_buffer (x.buffer ++ ((n, f) ∷ [])) }
      else x)
  act (observes d a) none = none
  act (observes d a) (some x) =
      some (if ltb x.seq a then x else record x { buffer = trim a x.buffer })

  fenced_lem :
      (g : Store S) (d s : Text) (x : DeviceState S)
      → Map.get d g ≡ some x
      → fenced g d s ≡ (if is_owner x.lock s then ok x else err unauthorized)
  unfolding fenced
  fenced_lem g d s x h = rw (h, fenced)

  fenced_absent : (g : Store S) (d s : Text) → Map.get d g ≡ none → fenced g d s ≡ err unauthorized
  unfolding fenced
  fenced_absent g d s h = rw (h, fenced)

  get-on_entry {ℓ} :
      {A : Type ℓ} (g : Store S) (d e s : Text) (f : DeviceState S → DeviceState S × A)
      (x : DeviceState S)
      → Map.get e g ≡ some x
      → Map.get d (on_entry g e (fenced g e s) f).0
        ≡ (if e == d then some (if is_owner x.lock s then (f x).0 else x) else Map.get d g)
  get-on_entry g d e s f x h = elim (Bool-cases (is_owner x.lock s)) [
    | inl o ↦ rw (fenced_lem g e s x h, o) (Map.get-insert e d (f x).0 g)
    | inr o ↦ rw (fenced_lem g e s x h, o) (ground (arith, text_beq_iff e d))
  ]

  absent-on_entry {ℓ} :
      {A : Type ℓ} (g : Store S) (e s : Text) (f : DeviceState S → DeviceState S × A)
      → Map.get e g ≡ none
      → (on_entry g e (fenced g e s) f).0 ≡ g
  absent-on_entry g e s f h = rw (fenced_absent g e s h)

  unheld :
      (g : Store S) (d e : Text)
      → Map.get e g ≡ none
      → Map.get d g ≡ (if e == d then none else Map.get d g)
  unheld g d e h = ground (arith, text_beq_iff e d)

  -- A call that needs an entry is judged by what it makes of one.
  settle :
      (g h : Store S) (e d : Text) (f : Option (DeviceState S) → Option (DeviceState S))
      → f none ≡ none
      → (Map.get e g ≡ none → h ≡ g)
      → ((x : DeviceState S)
          → Map.get e g ≡ some x
          → Map.get d h ≡ (if e == d then f (some x) else Map.get d g))
      → Map.get d h ≡ (if e == d then f (Map.get e g) else Map.get d g)
  settle g h e d f strict absent present = elim (Option-cases (Map.get e g)) [
    | inl p ↦ rw (absent p, p, strict) (unheld g d e p)
    | inr (x, p) ↦ rw p (present x p)
  ]

  release_absent : (g : Store S) (e s : Text) → Map.get e g ≡ none → (release_lock g e s).0 ≡ g
  unfolding release_lock
  release_absent g e s p = rw (p, release_lock)

  release_present :
      (g : Store S) (e s d : Text) (x : DeviceState S)
      → Map.get e g ≡ some x
      → Map.get d (release_lock g e s).0
        ≡ (if e == d then act (releases e s) (some x) else Map.get d g)
  unfolding release_lock
  release_present g e s d x p =
      rw (p, release_lock)
        (ground (arith, text_beq_iff e d, Map.get-insert e d (record x { lock = none }) g))

  observe_absent : (g : Store S) (e : Text) (a : ℕ) → Map.get e g ≡ none → (observe_ack g e a).0 ≡ g
  unfolding observe_ack
  observe_absent g e a p = rw (p, observe_ack)

  observe_present :
      (g : Store S) (e d : Text) (a : ℕ) (x : DeviceState S)
      → Map.get e g ≡ some x
      → Map.get d (observe_ack g e a).0
        ≡ (if e == d then act (observes e a) (some x) else Map.get d g)
  unfolding observe_ack
  observe_present g e d a x p =
      rw (p, observe_ack)
        (ground
          (arith, text_beq_iff e d, Map.get-insert e d (record x { buffer = trim a x.buffer }) g))

  -- Each call acts on the entry of its own device, and on no other.
  pub get-step :
      (g : Store S) (c : Call) (d : Text)
      → Map.get d (step channel send subscribe g c)
        ≡ (if device c == d then act c (Map.get (device c) g) else Map.get d g)
  unfolding try_acquire_lock kick subscribe_kick fenced_incr_seq reconcile_on_hello xadd_frame
  get-step g (acquires e s) d = ground (
    arith,
    Map.get-insert e d (or_default (Map.get e g)) g,
    Map.get-insert e d (record (or_default (Map.get e g)) { lock = some s }) g,
  )
  get-step g (kicks e s) d = Map.get-insert e d _ g
  get-step g (subscribes e) d = Map.get-insert e d _ g
  get-step g (releases e s) d =
      settle g _ e d (act (releases e s)) refl (release_absent g e s) (release_present g e s d)
  get-step g (increments e s) d =
      settle g _ e d (act (increments e s)) refl (absent-on_entry g e s _) (get-on_entry g d e s _)
  get-step g (reconciles e s a) d =
      settle g _ e d (act (reconciles e s a)) refl (absent-on_entry g e s _)
        (get-on_entry g d e s _)
  get-step g (adds e s k f) d =
      settle g _ e d (act (adds e s k f)) refl (absent-on_entry g e s _) (get-on_entry g d e s _)
  get-step g (observes e a) d =
      settle g _ e d (act (observes e a)) refl (observe_absent g e a)
        (λ x. observe_present g e d a x)
