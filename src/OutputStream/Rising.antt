-- ===== src/OutputStream/Rising.antt =====
-- The order of the events of a stream.
use a_hand.Base.{
  ℕ, ◌<◌, ◌≡◌, refl, Bool, true, false, Option, List, [], ◌∷◌, ◌++◌, leb, if◌then◌else◌, arith,
  Bool-cases, inl, inr,
}
use a_hand.OutputStream.{
  is_terminal, Sequenced, JobOutputState, needs_resync, replay, Received, received, lagged, Yield,
  event, history_trimmed, events_lagged, live, events, last_or_zero, subscribe_from,
}

-- Every event is behind the one before it, and behind `last`.
abbrev pub IsRising : ℕ → List Yield → Type 0
IsRising last [] = Unit
IsRising last (event s ∷ rest) = (last < s.seq) × IsRising s.seq rest
IsRising last (history_trimmed ∷ rest) = IsRising last rest
IsRising last (events_lagged ∷ rest) = IsRising last rest

live-IsRising : (last : ℕ) (later : List Received) → IsRising last (live last later)
unfolding live
live-IsRising last [] = tt
live-IsRising last (lagged ∷ rest) = live-IsRising last rest
live-IsRising last (received s ∷ rest) = elim (Bool-cases (leb s.seq last)) [
  | inl b ↦ rw (live, b) (live-IsRising last rest)
  | inr b ↦ elim (Bool-cases (is_terminal s.item)) [
    | inl t ↦ rw (live, b, t) (ground (arith, b), tt)
    | inr t ↦ rw (live, b, t) (ground (arith, b), live-IsRising s.seq rest)
  ]
]

choose {ℓ κ} :
    {A : Type ℓ} (P : A → Type κ) (b : Bool) {x y : A}
    → (b ≡ true → P x)
    → (b ≡ false → P y)
    → P (if b then x else y)
choose P true h k = h refl
choose P false h k = k refl

-- What follows the replayed events may start where they leave off.
unfoldable Continues : ℕ → List Yield → List Sequenced × ℕ × Bool → Type 0
Continues last rest answer = IsRising answer.1 rest → IsRising last (events answer.0 ++ rest)

replay-Continues :
    (last : ℕ) (items : List Sequenced) (rest : List Yield)
    → Continues last rest (replay last items)
unfolding replay Continues
replay-Continues last [] rest = λ h. h
replay-Continues last (s ∷ items) rest =
    choose (Continues last rest) (leb s.seq last) (λ _. replay-Continues last items rest)
      (λ b.
        choose (Continues last rest) (is_terminal s.item) (λ _ h. (ground (arith, b), h))
          (λ _ h. (ground (arith, b), replay-Continues s.seq items rest h)))

-- A subscriber gets its events in the order of their numbers, each of them once and none that it had
-- before, whatever the history holds and whatever is received, in any order, with repeats or gaps.
pub subscribe_from-IsRising :
    (state : JobOutputState) (last_event_id : Option ℕ) (later : List Received)
    → IsRising (last_or_zero last_event_id) (subscribe_from state last_event_id later)
unfolding subscribe_from Continues
subscribe_from-IsRising state last_event_id later =
    let last_seq = last_or_zero last_event_id in
    let (replayed, last, ended) = replay last_seq state.history in
    noticed (needs_resync state.history last_event_id) last_seq _ (
      replay-Continues last_seq state.history _ (
        choose (IsRising last) ended (λ _. tt)
          (λ _.
            choose (IsRising last) state.is_finished (λ _. tt) (λ _. live-IsRising last later))))
  where
    noticed :
        (b : Bool) (last : ℕ) (rest : List Yield)
        → IsRising last rest
        → IsRising last ((if b then history_trimmed ∷ [] else []) ++ rest)
    noticed true last rest h = h
    noticed false last rest h = h
