-- ===== src/AppTools/Revisions.antt =====
-- The revision of the registry of app tools as a sign of its content.
use a_hand.Base.{suc, ◌+◌, ◌<◌, ◌≡◌, ◌⊎◌, refl, Bool, List, [], ◌∷◌, arith, length, inl, inr}
use a_hand.Base.Text.{Text, text_eq}
use a_hand.AppTools.{
  AppToolDef, AppToolRegistry, CompletedAppToolCall, register, unregister, snapshot, mark_running,
  mark_completed,
}

pub data Op (J H : Type 0) : Type 0 where
  registers : AppToolDef J → H → Op J H
  unregisters : Text → Op J H
  starts : Text → Op J H
  ends : Text → CompletedAppToolCall → Op J H

module _ {J H : Type 0} (is_object : J → Bool) (to_string : J → Text) where
  unfoldable pub step : AppToolRegistry H → Op J H → AppToolRegistry H
  step r (registers tool handler) = (register is_object to_string r tool handler).0
  step r (unregisters name) = (unregister r name).0
  step r (starts id) = mark_running r id
  step r (ends id result) = mark_completed r id result

  unfoldable pub run : AppToolRegistry H → List (Op J H) → AppToolRegistry H
  run r [] = r
  run r (o ∷ os) = run (step r o) os

  step-revision :
      (r : AppToolRegistry H) (o : Op J H)
      → r.revision < 18446744073709551615
      → ((step r o).tools ≡ r.tools) × ((step r o).revision ≡ r.revision)
        ⊎ ((step r o).revision ≡ suc r.revision)
  unfolding step register unregister mark_running mark_completed
  step-revision r (registers tool handler) h = ground arith
  step-revision r (unregisters name) h = ground arith
  step-revision r (starts id) h = inl (refl, refl)
  step-revision r (ends id result) h = inl (refl, refl)

  run-revision :
      (r : AppToolRegistry H) (os : List (Op J H))
      → r.revision + length os < 18446744073709551615
      → (((run r os).tools ≡ r.tools) × ((run r os).revision ≡ r.revision))
        ⊎ (r.revision < (run r os).revision)
  unfolding run
  run-revision r [] h = inl (refl, refl)
  run-revision r (o ∷ os) h = ground (arith, step-revision r o, run-revision (step r o) os)

  -- As long as the 64-bit counter does not wrap, a snapshot that has the revision of an earlier one
  -- is the earlier one, whatever was registered, unregistered or called in between.
  pub snapshot-run :
      (r : AppToolRegistry H) (os : List (Op J H))
      → r.revision + length os < 18446744073709551615
      → (snapshot (run r os)).revision ≡ (snapshot r).revision
      → snapshot (run r os) ≡ snapshot r
  unfolding snapshot
  snapshot-run r os h e = elim (run-revision r os h) [
    | inl (t, v) ↦ rw (snapshot, t, v) refl
    | inr g ↦ ground (arith, g, e)
  ]
