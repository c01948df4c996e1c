-- ===== src/OutboxStore/Examples.antt =====
-- A store with one device, whose lock the session `s1` holds.
use a_hand.Base.{ℕ, suc, ◌<◌, ◌≡◌, refl, if◌then◌else◌, ltb, ◌++◌, List, [], ◌∷◌, none, some, arith}
use a_hand.Base.Map
use a_hand.Base.Text.{text_eq, codes}
use a_hand.Frames.{payloads, unacked}
use a_hand.Hub.{ok}
use a_hand.OutboxStore.{
  DeviceState, Store, reconcile_on_hello, unacked_frames, fenced_incr_seq, xadd_frame,
}
use a_hand.OutboxStore.Effects.{Call, acquires, kicks, adds, observes, subscribes}
use a_hand.OutboxStore.Fencing.{owner_of, Excluded, run, run-Excluded}
use a_hand.OutboxStore.Sequence.{fenced_incr_seq_rises}
use a_hand.OutboxStore.Reconcile.{unacked_frames-reconcile_on_hello, unacked_frames-xadd_frame}

-- A broadcast channel that counts what was sent on it.
abbrev channel : ℕ → ℕ
channel size = 0

abbrev send : ℕ → ℕ → ℕ
send count kick = suc count

abbrev subscribe : ℕ → ℕ × ℕ
subscribe count = (count, count)

abbrev held : DeviceState ℕ
held = record {
  lock = some (codes "s1");
  seq = 2;
  buffer = (1, codes "a") ∷ (2, codes "b") ∷ [];
  kick_tx = none;
  kick_count = 0;
}

abbrev store : Store ℕ
store = (codes "d1", held) ∷ []

abbrev calls : List Call
calls =
    acquires (codes "d1") (codes "s2")
    ∷ subscribes (codes "d1")
    ∷ kicks (codes "d1") (codes "s2")
    ∷ adds (codes "d1") (codes "s1") 3 (codes "c")
    ∷ observes (codes "d1") 1
    ∷ []

run-Excluded_example :
    (owner_of (Map.get (codes "d1") (run channel send subscribe store calls)) ≡ some (codes "s1"))
    × Excluded (run channel send subscribe store calls) (codes "d1") (codes "s2")
unfolding Map.get
run-Excluded_example =
    run-Excluded channel send subscribe calls store (codes "d1") (codes "s1") (codes "s2") refl tt
      refl

fenced_incr_seq_rises_example : 3 < 4
unfolding Map.get Map.insert fenced_incr_seq
fenced_incr_seq_rises_example =
    fenced_incr_seq_rises channel send subscribe [] store (codes "d1") (codes "s1") (codes "s1") 3 4
      (omega arith, omega arith) refl refl

unacked_frames-reconcile_on_hello_example :
    let (g', answer) = reconcile_on_hello store (codes "d1") (codes "s1") 1 in
    (answer ≡ ok (if ltb held.seq 1 then 1 else held.seq))
    × (unacked_frames g' (codes "d1") 1
        ≡ (if ltb held.seq 1 then ok [] else unacked_frames store (codes "d1") 1))
unfolding Map.get
unacked_frames-reconcile_on_hello_example =
    unacked_frames-reconcile_on_hello store (codes "d1") (codes "s1") held 1 1 refl refl
      (omega arith)

unacked_frames-xadd_frame_example :
    let g' = (fenced_incr_seq store (codes "d1") (codes "s1")).0 in
    ((fenced_incr_seq store (codes "d1") (codes "s1")).1 ≡ ok 3)
    × (unacked_frames (xadd_frame g' (codes "d1") (codes "s1") 3 (codes "c")).0 (codes "d1") 1
        ≡ ok (payloads (unacked 1 held.buffer) ++ (codes "c" ∷ [])))
unfolding Map.get
unacked_frames-xadd_frame_example =
    unacked_frames-xadd_frame store (codes "d1") (codes "s1") held (codes "c") 1 refl refl
      (omega arith) (omega arith) (omega arith)
