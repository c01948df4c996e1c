-- ===== src/Outbox/Bounds.antt =====
-- What holds of the daemon's outbox whatever the peer acknowledges.
use a_hand.Base.{ℕ, suc, ◌+◌, ◌-◌, ◌≤◌, ◌<◌, ◌≡◌, refl, List, [], ◌∷◌, arith, u64, length}
use a_hand.Base.Text.{Text}
use a_hand.Frames.{
  Frame, trim, Rises, Rises-snoc, Rises-evict, Rises-trim, length-evict-le, length-trim-le,
}
use a_hand.Outbox.{Envelope, Outbox, new, on_recv, on_peer_ack, prepare_outbound}
use a_hand.Outbox.Log.{Event, send, receive, acknowledge, step, run}

-- Nothing is buffered beyond the capacity, and the buffered seqs rise and were issued.
pub record IsBounded (o : Outbox) : Type 0 where
  pub capped : length o.buffer ≤ o.max_buffer
  pub issued : 0 < o.next_seq
  pub rising : Rises 0 (o.next_seq - 1) o.buffer

new-IsBounded : (m : ℕ) → IsBounded (new m)
unfolding new
new-IsBounded m = record { capped = omega arith; issued = omega arith; rising = tt }

abbrev pub sends : {P : Type 0} → List (Event P) → ℕ
sends [] = 0
sends (send e ∷ es) = suc (sends es)
sends (receive s ∷ es) = sends es
sends (acknowledge a ∷ es) = sends es

module _ {P : Type 0} (encode : Envelope P → Text) where
  send-IsBounded :
      (o : Outbox) (envelope : Envelope P)
      → o.next_seq < 18446744073709551615
      → IsBounded o
      → IsBounded (step encode o (send envelope))
  unfolding prepare_outbound
  send-IsBounded o envelope h v = record {
    capped = length-evict-le o.max_buffer _;
    issued = omega arith;
    rising = rw wraps (
        Rises-evict o.max_buffer 0 o.next_seq _ (
          Rises-snoc 0 (o.next_seq - 1) o.next_seq _ o.buffer (omega arith) (omega arith)
            v.rising));
  }
    where
      wraps : u64 (o.next_seq + 1) - 1 ≡ o.next_seq
      wraps = omega arith

  quiet-IsBounded :
      (o : Outbox) (n : ℕ)
      → IsBounded o
      → IsBounded (on_recv o n)
        × IsBounded (on_peer_ack o n)
        × ((on_recv o n).next_seq ≡ o.next_seq)
        × ((on_peer_ack o n).next_seq ≡ o.next_seq)
  unfolding on_recv on_peer_ack
  quiet-IsBounded o n v = ground (
    arith,
    Rises-trim n 0 (o.next_seq - 1) o.buffer v.rising,
    Rises-trim o.peer_ack 0 (o.next_seq - 1) o.buffer v.rising,
    length-trim-le n o.buffer,
    length-trim-le o.peer_ack o.buffer,
  )

  next_seq-send :
      (o : Outbox) (envelope : Envelope P)
      → o.next_seq < 18446744073709551615
      → (step encode o (send envelope)).next_seq ≡ suc o.next_seq
  unfolding prepare_outbound
  next_seq-send o envelope h = omega arith

  run-IsBounded :
      (o : Outbox) (es : List (Event P))
      → o.next_seq + sends es < 18446744073709551616
      → IsBounded o
      → IsBounded (run encode o es)
  run-IsBounded o [] h v = v
  run-IsBounded o (send envelope ∷ es) h v =
      run-IsBounded (step encode o (send envelope)) es
        (omega (arith, next_seq-send o envelope (omega arith)))
        (send-IsBounded o envelope (omega arith) v)
  run-IsBounded o (receive seq ∷ es) h v =
      run-IsBounded (on_recv o seq) es (omega (arith, (quiet-IsBounded o seq v).2))
        (quiet-IsBounded o seq v).0
  run-IsBounded o (acknowledge ack ∷ es) h v =
      run-IsBounded (on_peer_ack o ack) es (omega (arith, (quiet-IsBounded o ack v).3))
        (quiet-IsBounded o ack v).1

-- From a new outbox, as long as the 64-bit counter does not wrap, and whatever seqs the peer
-- acknowledges or sends: at most `max_buffer` frames are pending, and their seqs rise strictly
-- and are seqs that were issued.
pub run-new-IsBounded :
    {P : Type 0} (encode : Envelope P → Text) (m : ℕ) (es : List (Event P))
    → sends es < 18446744073709551615
    → IsBounded (run encode (new m) es)
unfolding new
run-new-IsBounded encode m es h = run-IsBounded encode (new m) es (omega arith) (new-IsBounded m)

trim_rest : (a lo hi : ℕ) (b : List Frame) → hi ≤ a → Rises lo hi b → trim a b ≡ []
unfolding trim
trim_rest a lo hi [] h r = refl
trim_rest a lo hi ((s, d) ∷ b) h r = ground (arith, trim_rest a s hi b h r.2)

peer_ack-send :
    {P : Type 0} (encode : Envelope P → Text) (o : Outbox) (envelope : Envelope P)
    → (step encode o (send envelope)).peer_ack ≡ o.peer_ack
unfolding prepare_outbound
peer_ack-send encode o envelope = refl

on_peer_ack-le : (o : Outbox) (ack : ℕ) → ack ≤ (on_peer_ack o ack).peer_ack
unfolding on_peer_ack
on_peer_ack-le o ack = ground arith

on_peer_ack_empties :
    (o : Outbox) (later : ℕ)
    → IsBounded o
    → o.next_seq ≤ suc o.peer_ack
    → (on_peer_ack o later).buffer ≡ []
unfolding on_peer_ack
on_peer_ack_empties o later v h = ground (
  arith,
  trim_rest o.peer_ack 0 (o.next_seq - 1) o.buffer,
  trim_rest later 0 (o.next_seq - 1) o.buffer,
)

-- The daemon does not check an acknowledgement against what it issued: after one at or above the
-- next seq, a frame that is then sent does not survive the next acknowledgement, whatever that
-- one says.
on_peer_ack_unchecked :
    {P : Type 0} (encode : Envelope P → Text) (o : Outbox) (envelope : Envelope P) (ack later : ℕ)
    → IsBounded o
    → o.next_seq < 18446744073709551615
    → o.next_seq ≤ ack
    → (on_peer_ack (prepare_outbound encode (on_peer_ack o ack) envelope).0 later).buffer ≡ []
on_peer_ack_unchecked encode o envelope ack later v h k =
    on_peer_ack_empties _ later
      (send-IsBounded encode (on_peer_ack o ack) envelope (omega (arith, same))
        (quiet-IsBounded encode o ack v).1)
      (omega (
        arith,
        same,
        raised,
        next_seq-send encode (on_peer_ack o ack) envelope (omega (arith, same)),
        peer_ack-send encode (on_peer_ack o ack) envelope,
      ))
  where
    same : (on_peer_ack o ack).next_seq ≡ o.next_seq
    same = (quiet-IsBounded encode o ack v).3

    raised : ack ≤ (on_peer_ack o ack).peer_ack
    raised = on_peer_ack-le o ack
