-- ===== src/HubOutbox/Invariant.antt =====
-- The hub's outbox never holds an acknowledged frame, one that was not issued, or too many.
use a_hand.Base.{ℕ, suc, ◌+◌, ◌-◌, ◌≤◌, ◌<◌, ◌≡◌, List, [], ◌∷◌, All, arith, u64, length}
use a_hand.Base.Text.{Text}
use a_hand.Frames.{
  Frame, Rises, Rises-snoc, Rises-lower, Rises-mono, Rises-evict, length-evict-le, length-trim-le,
  trim_above,
}
use a_hand.HubOutbox.{
  Outbox, new, reserve_seq, store, store_raw, on_recv, try_on_peer_ack, remove_first, remove,
}

pub record Inv (o : Outbox) : Type 0 where
  pub issued : 0 < o.next_seq
  pub acked : o.peer_ack < o.next_seq
  pub capped : length o.buffer ≤ o.max_buffer
  pub rising : Rises o.peer_ack (o.next_seq - 1) o.buffer

new-Inv : (m : ℕ) → Inv (new m)
unfolding new
new-Inv m = record { issued = omega arith; acked = omega arith; capped = omega arith; rising = tt }

store_raw-Inv :
    (o : Outbox) (bytes : Text)
    → o.next_seq < 18446744073709551615
    → Inv o
    → Inv (store_raw o bytes).0
unfolding store_raw
store_raw-Inv o bytes h v = record {
  issued = omega arith;
  acked = omega arith;
  capped = length-evict-le o.max_buffer _;
  rising = rw wraps (
      Rises-evict o.max_buffer o.peer_ack o.next_seq _ (
        Rises-snoc o.peer_ack (o.next_seq - 1) o.next_seq _ o.buffer (omega arith) (omega arith)
          v.rising));
}
  where
    wraps : u64 (o.next_seq + 1) - 1 ≡ o.next_seq
    wraps = omega arith

try_on_peer_ack-Inv : (o : Outbox) (ack : ℕ) → Inv o → Inv (try_on_peer_ack o ack).0
unfolding try_on_peer_ack
try_on_peer_ack-Inv o ack v = ground (
  arith,
  trim_above ack o.peer_ack (o.next_seq - 1) o.buffer v.rising,
  trim_above o.peer_ack o.peer_ack (o.next_seq - 1) o.buffer v.rising,
  length-trim-le ack o.buffer,
  length-trim-le o.peer_ack o.buffer,
)

Rises-remove_first :
    (seq lo hi : ℕ) (b : List Frame)
    → Rises lo hi b
    → Rises lo hi (remove_first seq b) × (length (remove_first seq b) ≤ length b)
unfolding remove_first
Rises-remove_first seq lo hi [] r = (r, omega arith)
Rises-remove_first seq lo hi ((s, d) ∷ b) r =
    ground (arith, Rises-remove_first seq s hi b r.2, Rises-lower s lo hi b)

remove-Inv : (o : Outbox) (seq : ℕ) → Inv o → Inv (remove o seq)
unfolding remove
remove-Inv o seq v =
    ground (arith, Rises-remove_first seq o.peer_ack (o.next_seq - 1) o.buffer v.rising)

on_recv-Inv : (o : Outbox) (seq : ℕ) → Inv o → Inv (on_recv o seq)
unfolding on_recv
on_recv-Inv o seq v = ground arith

-- The calls that change the outbox.
pub data Call : Type 0 where
  reserves : Call
  stores : ℕ → Text → Call
  store_raws : Text → Call
  recvs peer_acks removes : ℕ → Call

abbrev pub step : Outbox → Call → Outbox
step o reserves = (reserve_seq o).0
step o (stores seq bytes) = store o seq bytes
step o (store_raws bytes) = (store_raw o bytes).0
step o (recvs seq) = on_recv o seq
step o (peer_acks ack) = (try_on_peer_ack o ack).0
step o (removes seq) = remove o seq

abbrev pub run : Outbox → List Call → Outbox
run o [] = o
run o (c ∷ cs) = run (step o c) cs

-- What a caller of `store` sees to: the seq was issued, is not acknowledged yet, and is above every
-- buffered one.
abbrev pub IsFresh : Outbox → ℕ → Type 0
IsFresh o seq = (seq < o.next_seq) × (o.peer_ack < seq) × All (λ (f : Frame). f.0 < seq) o.buffer

-- Each call of `store` is made with such a seq, at the time of the call.
abbrev pub IsOrdered : Outbox → List Call → Type 0
IsOrdered o [] = Unit
IsOrdered o (reserves ∷ cs) = IsOrdered (reserve_seq o).0 cs
IsOrdered o (stores seq bytes ∷ cs) = IsFresh o seq × IsOrdered (store o seq bytes) cs
IsOrdered o (store_raws bytes ∷ cs) = IsOrdered (store_raw o bytes).0 cs
IsOrdered o (recvs seq ∷ cs) = IsOrdered (on_recv o seq) cs
IsOrdered o (peer_acks ack ∷ cs) = IsOrdered (try_on_peer_ack o ack).0 cs
IsOrdered o (removes seq ∷ cs) = IsOrdered (remove o seq) cs

abbrev pub issues : List Call → ℕ
issues [] = 0
issues (reserves ∷ cs) = suc (issues cs)
issues (stores seq bytes ∷ cs) = issues cs
issues (store_raws bytes ∷ cs) = suc (issues cs)
issues (recvs seq ∷ cs) = issues cs
issues (peer_acks ack ∷ cs) = issues cs
issues (removes seq ∷ cs) = issues cs

Rises-below :
    (lo hi seq : ℕ) (b : List Frame)
    → All (λ (f : Frame). f.0 < seq) b
    → Rises lo hi b
    → Rises lo (seq - 1) b
Rises-below lo hi seq [] h r = tt
Rises-below lo hi seq ((s, d) ∷ b) (h, hs) r =
    (r.0, omega (arith, h), Rises-below s hi seq b hs r.2)

reserve_seq-Inv : (o : Outbox) → o.next_seq < 18446744073709551615 → Inv o → Inv (reserve_seq o).0
unfolding reserve_seq
reserve_seq-Inv o h v = record {
  issued = omega (arith, wraps);
  acked = omega (arith, wraps, v.acked);
  capped = v.capped;
  rising =
      Rises-mono o.peer_ack (o.next_seq - 1) (u64 (o.next_seq + 1) - 1) o.buffer
        (omega (arith, wraps)) v.rising;
}
  where
    wraps : u64 (o.next_seq + 1) ≡ o.next_seq + 1
    wraps = omega (arith, h)

store-Inv : (o : Outbox) (seq : ℕ) (bytes : Text) → IsFresh o seq → Inv o → Inv (store o seq bytes)
unfolding store
store-Inv o seq bytes (below, above, newest) v = record {
  issued = v.issued;
  acked = v.acked;
  capped = length-evict-le o.max_buffer _;
  rising = Rises-mono o.peer_ack seq (o.next_seq - 1) _ (omega (arith, below)) (
      Rises-evict o.max_buffer o.peer_ack seq _ (
        Rises-snoc o.peer_ack (seq - 1) seq _ o.buffer (omega (arith, above)) (omega (arith, above))
          (Rises-below o.peer_ack (o.next_seq - 1) seq o.buffer newest v.rising)));
}

next_seq-store_raw :
    (o : Outbox) (bytes : Text)
    → o.next_seq < 18446744073709551615
    → (store_raw o bytes).0.next_seq ≡ suc o.next_seq
unfolding store_raw
next_seq-store_raw o bytes h = omega arith

next_seq-try_on_peer_ack : (o : Outbox) (ack : ℕ) → (try_on_peer_ack o ack).0.next_seq ≡ o.next_seq
unfolding try_on_peer_ack
next_seq-try_on_peer_ack o ack = ground arith

next_seq-reserve_seq :
    (o : Outbox) → o.next_seq < 18446744073709551615 → (reserve_seq o).0.next_seq ≡ suc o.next_seq
unfolding reserve_seq
next_seq-reserve_seq o h = omega arith

run-Inv :
    (o : Outbox) (cs : List Call)
    → o.next_seq + issues cs < 18446744073709551616
    → IsOrdered o cs
    → Inv o
    → Inv (run o cs)
unfolding on_recv remove store
run-Inv o [] h k v = v
run-Inv o (reserves ∷ cs) h k v =
    run-Inv (reserve_seq o).0 cs (omega (arith, next_seq-reserve_seq o (omega arith))) k
      (reserve_seq-Inv o (omega arith) v)
run-Inv o (stores seq bytes ∷ cs) h (fresh, k) v =
    run-Inv (store o seq bytes) cs h k (store-Inv o seq bytes fresh v)
run-Inv o (store_raws bytes ∷ cs) h k v =
    run-Inv (store_raw o bytes).0 cs (omega (arith, next_seq-store_raw o bytes (omega arith))) k
      (store_raw-Inv o bytes (omega arith) v)
run-Inv o (recvs seq ∷ cs) h k v = run-Inv (on_recv o seq) cs h k (on_recv-Inv o seq v)
run-Inv o (peer_acks ack ∷ cs) h k v =
    run-Inv (try_on_peer_ack o ack).0 cs (omega (arith, next_seq-try_on_peer_ack o ack)) k
      (try_on_peer_ack-Inv o ack v)
run-Inv o (removes seq ∷ cs) h k v = run-Inv (remove o seq) cs h k (remove-Inv o seq v)

-- After any calls from a new outbox, with acknowledgements checked by `try_on_peer_ack`, a counter
-- that does not wrap, and each seq given to `store` issued, not acknowledged and above the
-- buffered ones: no acknowledged frame is buffered, the buffered seqs rise strictly and were
-- issued, at most `max_buffer` are buffered, and no seq is acknowledged before its issue.
pub run-new-Inv :
    (m : ℕ) (cs : List Call)
    → issues cs < 18446744073709551615
    → IsOrdered (new m) cs
    → Inv (run (new m) cs)
unfolding new
run-new-Inv m cs h k = run-Inv (new m) cs (omega arith) k (new-Inv m)
