-- ===== src/OutboxStore/Sequence.antt =====
-- The seq counter of a device never issues a seq twice.
use a_hand.Base.{
  ℕ, suc, ◌+◌, ◌≤◌, ◌<◌, ◌≡◌, sym, subst, List, [], ◌∷◌, Option, none, some, arith, ◌==◌, u64,
  Bool-cases, Option-cases, inl, inr,
}
use a_hand.Base.Text.{Text, text_eq, text_beq_iff}
use a_hand.Base.Map
use a_hand.Hub.{ok}
use a_hand.OutboxStore.{DeviceState, Store, fenced, reconcile_entry, fenced_incr_seq}
use a_hand.OutboxStore.Effects.{
  Call, acquires, releases, increments, kicks, reconciles, adds, observes, subscribes, device, step,
  act, get-step,
}
use a_hand.OutboxStore.Fencing.{seq_of, run}

module _ {S R : Type 0} (channel : ℕ → S) (send : S → ℕ → S) (subscribe : S → S × R) where
  act-seq_of :
      (c : Call) (e : Option (DeviceState S))
      → seq_of e < 18446744073709551615
      → seq_of e ≤ seq_of (act channel send subscribe c e)
  unfolding reconcile_entry
  act-seq_of (acquires e t) none h = omega arith
  act-seq_of (kicks e t) none h = omega arith
  act-seq_of (subscribes e) none h = omega arith
  act-seq_of _ none h = omega arith
  act-seq_of (acquires e t) (some x) h = ground arith
  act-seq_of (releases e t) (some x) h = ground arith
  act-seq_of (increments e t) (some x) h = ground arith
  act-seq_of (kicks e t) (some x) h = omega arith
  act-seq_of (reconciles e t a) (some x) h = ground arith
  act-seq_of (adds e t n f) (some x) h = ground arith
  act-seq_of (observes e a) (some x) h = ground arith
  act-seq_of (subscribes e) (some x) h = omega arith

  step-seq_of :
      (g : Store S) (c : Call) (d : Text)
      → seq_of (Map.get d g) < 18446744073709551615
      → seq_of (Map.get d g) ≤ seq_of (Map.get d (step channel send subscribe g c))
  step-seq_of g c d b =
      rw (get-step channel send subscribe g c d) (elim (Bool-cases (device c == d)) [
        | inl h ↦ rw h (
            subst
              (λ (t : Text).
                seq_of (Map.get d g) ≤ seq_of (act channel send subscribe c (Map.get t g)))
              (sym ((text_beq_iff (device c) d).0 h)) (act-seq_of c (Map.get d g) b))
        | inr h ↦ rw h (omega arith)
      ])

  -- The counter of `d` stays below its last value all along.
  abbrev pub Unwrapped : Text → Store S → List Call → Type 0
  Unwrapped d g [] = seq_of (Map.get d g) < 18446744073709551615
  Unwrapped d g (c ∷ cs) =
      (seq_of (Map.get d g) < 18446744073709551615)
      × Unwrapped d (step channel send subscribe g c) cs

  run-seq_of :
      (cs : List Call) (g : Store S) (d : Text)
      → Unwrapped d g cs
      → (seq_of (Map.get d g) ≤ seq_of (Map.get d (run channel send subscribe g cs)))
        × (seq_of (Map.get d (run channel send subscribe g cs)) < 18446744073709551615)
  run-seq_of [] g d u = (omega arith, u)
  run-seq_of (c ∷ cs) g d u =
      omega (arith, step-seq_of g c d u.0, run-seq_of cs (step channel send subscribe g c) d u.1)

issued :
    {S : Type 0} (g : Store S) (d s : Text) (n : ℕ)
    → seq_of (Map.get d g) < 18446744073709551615
    → (fenced_incr_seq g d s).1 ≡ ok n
    → (n ≡ suc (seq_of (Map.get d g))) × (seq_of (Map.get d (fenced_incr_seq g d s).0) ≡ n)
unfolding fenced_incr_seq fenced
issued g d s n b h = elim (Option-cases (Map.get d g)) [
  | inl e ↦ ground arith
  | inr (x, e) ↦ ground (arith, Map.get-insert_self d (record x { seq = u64 (x.seq + 1) }) g)
]

-- Between any two seqs issued for a device, whatever sessions they are issued to and whatever is
-- called in between, the later one is the larger, as long as the 64-bit counter does not wrap.
pub fenced_incr_seq_rises :
    {S R : Type 0} (channel : ℕ → S) (send : S → ℕ → S) (subscribe : S → S × R) (cs : List Call)
    (g : Store S) (d s t : Text) (n m : ℕ)
    → Unwrapped channel send subscribe d g (increments d s ∷ cs)
    → (fenced_incr_seq g d s).1 ≡ ok n
    → (fenced_incr_seq (run channel send subscribe g (increments d s ∷ cs)) d t).1 ≡ ok m
    → n < m
fenced_incr_seq_rises channel send subscribe cs g d s t n m u h k = omega (
  arith,
  issued g d s n u.0 h,
  issued (run channel send subscribe g (increments d s ∷ cs)) d t m,
  run-seq_of channel send subscribe cs (fenced_incr_seq g d s).0 d u.1,
)
