-- ===== src/HubOutbox/Examples.antt =====
-- Runs of the hub's outbox.
use a_hand.Base.{◌≤◌, ◌<◌, ◌≡◌, ◌⊎◌, true, false, List, [], ◌∷◌, arith}
use a_hand.Base.Text.{codes}
use a_hand.HubOutbox.{
  max, new, reserve_seq, store, store_raw, on_recv, on_peer_ack, try_on_peer_ack, replay_from,
  last_issued_seq,
}
use a_hand.Frames.{evict, trim}
use a_hand.HubOutbox.Invariant.{
  Call, reserves, stores, store_raws, recvs, peer_acks, removes, run, IsOrdered, Inv, run-new-Inv,
}
use a_hand.HubOutbox.Replay.{replay_from-try_on_peer_ack}

abbrev calls : List Call
calls =
    store_raws (codes "a")
    ∷ store_raws (codes "b")
    ∷ peer_acks 9
    ∷ peer_acks 1
    ∷ recvs 4
    ∷ store_raws (codes "c")
    ∷ reserves
    ∷ stores 4 (codes "d")
    ∷ removes 2
    ∷ []

calls-IsOrdered : IsOrdered (new 2) calls
unfolding new reserve_seq store store_raw on_recv try_on_peer_ack on_peer_ack last_issued_seq evict
    trim
calls-IsOrdered = ((omega arith, omega arith, (omega arith, (omega arith, tt))), tt)

run-new-Inv_example : Inv (run (new 2) calls)
run-new-Inv_example = run-new-Inv 2 calls (omega arith) calls-IsOrdered

replay_from-try_on_peer_ack_example :
    try_on_peer_ack (run (new 2) calls) 2 ≡ (run (new 2) calls, false)
      × (last_issued_seq (run (new 2) calls) < 2)
    ⊎ ((try_on_peer_ack (run (new 2) calls) 2).1 ≡ true)
      × (2 ≤ last_issued_seq (run (new 2) calls))
      × (replay_from (try_on_peer_ack (run (new 2) calls) 2).0 0
          ≡ replay_from (run (new 2) calls) (max 0 2))
replay_from-try_on_peer_ack_example =
    replay_from-try_on_peer_ack (run (new 2) calls) 2 0
      (run-new-Inv 2 calls (omega arith) calls-IsOrdered)
