-- ===== src/Outbox/Examples.antt =====
-- Runs of the daemon's outbox.
use a_hand.Base.{◌≡◌, List, [], ◌∷◌, arith}
use a_hand.Base.Text.{Text, codes}
use a_hand.Frames.{payloads, unacked}
use a_hand.Outbox.{Envelope, new, drain_unacked, local_ack}
use a_hand.Outbox.Log.{
  Event, send, receive, acknowledge, run, empty, log_run, newest, drain_unacked-log_run,
}
use a_hand.Outbox.Bounds.{IsBounded, run-new-IsBounded}

abbrev message : Text → Envelope Text
message payload = record {
  device_id = codes "d";
  trace_id = [];
  msg_id = codes "m";
  seq = 0;
  ack = 0;
  ts_ms = 1000;
  payload = payload;
}

abbrev encode : Envelope Text → Text
encode e = e.seq ∷ e.ack ∷ e.payload

abbrev exchange : List (Event Text)
exchange =
    send (message (codes "a"))
    ∷ send (message (codes "b"))
    ∷ receive 7
    ∷ acknowledge 1
    ∷ send (message (codes "c"))
    ∷ send (message (codes "d"))
    ∷ []

drain_unacked-log_run_example :
    (drain_unacked (run encode (new 2) exchange)
      ≡ payloads (
          newest 2
            (unacked (log_run encode empty exchange).acked (log_run encode empty exchange).sent)))
    × (local_ack (run encode (new 2) exchange) ≡ (log_run encode empty exchange).seen)
drain_unacked-log_run_example =
    drain_unacked-log_run encode 2 exchange
      (omega arith, (omega arith, (omega arith, (omega arith, (omega arith, tt)))))

run-new-IsBounded_example : IsBounded (run encode (new 2) exchange)
run-new-IsBounded_example = run-new-IsBounded encode 2 exchange (omega arith)
