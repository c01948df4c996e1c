-- ===== src/HubOutbox/Replay.antt =====
-- What the hub's outbox replays, and what its checked acknowledgement and its removal change.
use a_hand.Base.{
  ℕ, suc, ◌-◌, ◌≤◌, ◌<◌, ◌≡◌, ap, true, false, ◌⊎◌, List, [], ◌∷◌, ◌++◌, arith, length,
  length-append,
}
use a_hand.Base.Text.{Text}
use a_hand.Frames.{
  Frame, trim, unacked, payloads, Rises, Rises-lower, evict_short, unacked_all, unacked-unacked,
  trim-unacked,
}
use a_hand.HubOutbox.{
  Outbox, max, store_raw, last_issued_seq, try_on_peer_ack, replay_from, remove_first, remove,
}
use a_hand.HubOutbox.Invariant.{Inv}

trim-max : (p a hi : ℕ) (b : List Frame) → Rises p hi b → trim (max p a) b ≡ unacked a b
trim-max p a hi b r = ground (
  arith,
  trim-unacked p p hi b r,
  trim-unacked a p hi b r,
  unacked_all p hi b r,
  λ (h : a ≤ p). unacked_all a hi b (Rises-lower p a hi b h r),
)

-- An acknowledgement above the last issued seq is refused and changes nothing; any other is
-- accepted, and from then on a replay from `last` is what a replay from the larger of `last` and
-- the acknowledged seq was before.
pub replay_from-try_on_peer_ack :
    (o : Outbox) (ack last : ℕ)
    → Inv o
    → try_on_peer_ack o ack ≡ (o, false) × (last_issued_seq o < ack)
      ⊎ ((try_on_peer_ack o ack).1 ≡ true)
        × (ack ≤ last_issued_seq o)
        × (replay_from (try_on_peer_ack o ack).0 last ≡ replay_from o (max last ack))
unfolding try_on_peer_ack replay_from
replay_from-try_on_peer_ack o ack last v = ground (
  arith,
  ap (λ b. payloads (unacked last b)) (trim-max o.peer_ack ack (o.next_seq - 1) o.buffer v.rising),
  ap payloads (unacked-unacked last ack o.buffer),
)

remove_first-snoc :
    (seq lo hi : ℕ) (d : Text) (b : List Frame)
    → Rises lo hi b
    → hi < seq
    → remove_first seq (b ++ ((seq, d) ∷ [])) ≡ b
unfolding remove_first
remove_first-snoc seq lo hi d [] r h = ground arith
remove_first-snoc seq lo hi d ((s, e) ∷ b) r h =
    ground (arith, remove_first-snoc seq s hi d b r.2 h)

-- A frame that is stored while the buffer has room, and then removed by its seq because it could
-- not be sent, leaves nothing but the used seq behind.
remove-store_raw :
    (o : Outbox) (bytes : Text)
    → Inv o
    → length o.buffer < o.max_buffer
    → o.next_seq < 18446744073709551615
    → let (o', seq) = store_raw o bytes in remove o' seq ≡ record o { next_seq = suc o.next_seq }
unfolding store_raw remove
remove-store_raw o bytes v h k = ground (
  arith,
  evict_short o.max_buffer (o.buffer ++ ((o.next_seq, bytes) ∷ [])),
  length-append o.buffer ((o.next_seq, bytes) ∷ []),
  remove_first-snoc o.next_seq o.peer_ack (o.next_seq - 1) bytes o.buffer v.rising,
)
