-- ===== src/Outbox/Log.antt =====
-- The outbox against a log of everything sent: what a reconnect replays is exactly the newest
-- `max_buffer` of the frames that the peer has not acknowledged.
use a_hand.Base.{
  ℕ, suc, ◌-◌, ◌≤◌, ◌<◌, ◌≡◌, refl, sym, ap, ◌∙◌, List, [], ◌∷◌, ◌++◌, arith, ltb, if◌then◌else◌,
  length, length-append, drop,
}
use a_hand.Base.Text.{Text}
use a_hand.Frames.{
  Frame, evict, unacked, payloads, Rises, Rises-snoc, evict-drop, evict-snoc, unacked-append,
  trim-newest,
}
use a_hand.Outbox.{
  Envelope, Outbox, new, on_recv, on_peer_ack, drain_unacked, local_ack, prepare_outbound,
}

-- What a peer of the outbox can bring about.
pub data Event (P : Type 0) : Type 0 where
  send : Envelope P → Event P
  receive : ℕ → Event P
  acknowledge : ℕ → Event P

module _ {P : Type 0} (encode : Envelope P → Text) where
  abbrev pub step : Outbox → Event P → Outbox
  step o (send envelope) = (prepare_outbound encode o envelope).0
  step o (receive seq) = on_recv o seq
  step o (acknowledge ack) = on_peer_ack o ack

-- The specification: all frames ever sent, and the largest seqs acknowledged and seen.
pub record Log : Type 0 where
  pub sent : List Frame
  pub acked : ℕ
  pub seen : ℕ

abbrev pub empty : Log
empty = record { sent = []; acked = 0; seen = 0 }

abbrev pub larger : ℕ → ℕ → ℕ
larger a b = if ltb a b then b else a

module _ {P : Type 0} (encode : Envelope P → Text) where
  -- The next frame holds the envelope under the number of its position, counted from 1.
  abbrev pub next_frame : Log → Envelope P → Frame
  next_frame l envelope =
      (suc (length l.sent), encode (record envelope { seq = suc (length l.sent); ack = l.seen }))

  abbrev pub log_step : Log → Event P → Log
  log_step l (send envelope) = record l { sent = l.sent ++ (next_frame l envelope ∷ []) }
  log_step l (receive seq) = record l { seen = larger l.seen seq }
  log_step l (acknowledge ack) = record l { acked = larger l.acked ack }

  -- An honest peer acknowledges only what was sent, and the 64-bit counter does not wrap.
  abbrev pub IsHonest : Log → List (Event P) → Type 0
  IsHonest l [] = Unit {0}
  IsHonest l (send envelope ∷ es) =
      (length l.sent < 18446744073709551614) × IsHonest (log_step l (send envelope)) es
  IsHonest l (receive seq ∷ es) = IsHonest (log_step l (receive seq)) es
  IsHonest l (acknowledge ack ∷ es) =
      (ack ≤ length l.sent) × IsHonest (log_step l (acknowledge ack)) es

  abbrev pub run : Outbox → List (Event P) → Outbox
  run o [] = o
  run o (e ∷ es) = run (step encode o e) es

  abbrev pub log_run : Log → List (Event P) → Log
  log_run l [] = l
  log_run l (e ∷ es) = log_run (log_step l e) es

pub record Refines (o : Outbox) (l : Log) : Type 0 where
  pub numbered : o.next_seq ≡ suc (length l.sent)
  pub acked_same : o.peer_ack ≡ l.acked
  pub seen_same : o.local_ack ≡ l.seen
  pub acked_sent : l.acked ≤ length l.sent
  pub rising : Rises 0 (length l.sent) l.sent
  pub buffered : o.buffer ≡ evict o.max_buffer (unacked l.acked l.sent)

new-Refines : (m : ℕ) → Refines (new m) empty
unfolding new evict
new-Refines m = record {
  numbered = refl;
  acked_same = refl;
  seen_same = refl;
  acked_sent = omega arith;
  rising = tt;
  buffered = refl;
}

new-max_buffer : (m : ℕ) → (new m).max_buffer ≡ m
unfolding new
new-max_buffer m = refl

module _ {P : Type 0} (encode : Envelope P → Text) where
  send-Refines :
      (o : Outbox) (l : Log) (envelope : Envelope P)
      → Refines o l
      → length l.sent < 18446744073709551614
      → Refines (step encode o (send envelope)) (log_step encode l (send envelope))
  unfolding prepare_outbound
  send-Refines o l envelope r h = record {
    numbered = omega (arith, longer);
    acked_same = r.acked_same;
    seen_same = r.seen_same;
    acked_sent = omega (arith, longer);
    rising = rw longer (
        Rises-snoc 0 (length l.sent) (suc (length l.sent)) _ l.sent (omega arith) (omega arith)
          r.rising);
    buffered =
        rw (r.numbered, r.seen_same, r.buffered)
          (evict-snoc o.max_buffer (unacked l.acked l.sent) (next_frame encode l envelope)
            ∙ ap (evict o.max_buffer) (sym (unacked-append l.acked l.sent _ ∙ kept)));
  }
    where
      longer : length (l.sent ++ (next_frame encode l envelope ∷ [])) ≡ suc (length l.sent)
      longer = omega (arith, length-append l.sent (next_frame encode l envelope ∷ []))

      kept :
          unacked l.acked l.sent ++ unacked l.acked (next_frame encode l envelope ∷ [])
          ≡ unacked l.acked l.sent ++ (next_frame encode l envelope ∷ [])
      kept = ground (arith, r.acked_sent)

  receive-Refines :
      (o : Outbox) (l : Log) (seq : ℕ)
      → Refines o l
      → Refines (step encode o (receive seq)) (log_step encode l (receive seq))
  unfolding on_recv
  receive-Refines o l seq r = ground arith

  acknowledge-Refines :
      (o : Outbox) (l : Log) (ack : ℕ)
      → Refines o l
      → ack ≤ length l.sent
      → Refines (step encode o (acknowledge ack)) (log_step encode l (acknowledge ack))
  unfolding on_peer_ack
  acknowledge-Refines o l ack r h = record {
    numbered = ground arith;
    acked_same = ground arith;
    seen_same = ground arith;
    acked_sent = ground arith;
    rising = r.rising;
    buffered = ground (
      arith,
      trim-newest ack l.acked o.max_buffer (length l.sent) l.sent,
      trim-newest l.acked l.acked o.max_buffer (length l.sent) l.sent,
    );
  }

  step-Refines :
      (o : Outbox) (l : Log) (e : Event P) (es : List (Event P))
      → Refines o l
      → IsHonest encode l (e ∷ es)
      → Refines (step encode o e) (log_step encode l e)
  step-Refines o l (send envelope) es r h = send-Refines o l envelope r h.0
  step-Refines o l (receive seq) es r h = receive-Refines o l seq r
  step-Refines o l (acknowledge ack) es r h = acknowledge-Refines o l ack r h.0

  IsHonest-rest :
      (l : Log) (e : Event P) (es : List (Event P))
      → IsHonest encode l (e ∷ es)
      → IsHonest encode (log_step encode l e) es
  IsHonest-rest l (send envelope) es h = h.1
  IsHonest-rest l (receive seq) es h = h
  IsHonest-rest l (acknowledge ack) es h = h.1

  run-Refines :
      (o : Outbox) (l : Log) (es : List (Event P))
      → Refines o l
      → IsHonest encode l es
      → Refines (run encode o es) (log_run encode l es)
  run-Refines o l [] r h = r
  run-Refines o l (e ∷ es) r h =
      run-Refines (step encode o e) (log_step encode l e) es (step-Refines o l e es r h)
        (IsHonest-rest l e es h)

  max_buffer-step : (o : Outbox) (e : Event P) → (step encode o e).max_buffer ≡ o.max_buffer
  unfolding prepare_outbound on_recv on_peer_ack
  max_buffer-step o (send envelope) = refl
  max_buffer-step o (receive seq) = ground arith
  max_buffer-step o (acknowledge ack) = ground arith

  max_buffer-run : (o : Outbox) (es : List (Event P)) → (run encode o es).max_buffer ≡ o.max_buffer
  max_buffer-run o [] = refl
  max_buffer-run o (e ∷ es) = max_buffer-run (step encode o e) es ∙ max_buffer-step o e

-- The newest `m` frames of a list.
abbrev pub newest : ℕ → List Frame → List Frame
newest m b = drop (length b - m) b

-- After any events from a new outbox, with a peer that acknowledges only seqs that were sent and
-- a counter that does not wrap, a reconnect replays exactly the newest `max_buffer` of the frames
-- not yet acknowledged, oldest first, and announces the largest seq received.
pub drain_unacked-log_run :
    {P : Type 0} (encode : Envelope P → Text) (m : ℕ) (es : List (Event P))
    → IsHonest encode empty es
    → (drain_unacked (run encode (new m) es)
        ≡ payloads
            (newest m (unacked (log_run encode empty es).acked (log_run encode empty es).sent)))
      × (local_ack (run encode (new m) es) ≡ (log_run encode empty es).seen)
unfolding drain_unacked local_ack
drain_unacked-log_run encode m es h =
    (ap payloads (end.buffered ∙ rw capacity (evict-drop m _)), end.seen_same)
  where
    end : Refines (run encode (new m) es) (log_run encode empty es)
    end = run-Refines encode (new m) empty es (new-Refines m) h

    capacity : (run encode (new m) es).max_buffer ≡ m
    capacity = max_buffer-run encode (new m) es ∙ new-max_buffer m
