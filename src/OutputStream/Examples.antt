-- ===== src/OutputStream/Examples.antt =====
-- A job that printed three lines, of which the last two are kept.
use a_hand.Base.{◌≡◌, refl, some, List, [], ◌∷◌, arith}
use a_hand.Base.Text.{codes}
use a_hand.OutputStream.{
  OutputItem, stdout, finished, Sequenced, new_state, record_item, trimmed, needs_resync, replay,
  received, lagged, subscribe_from,
}
use a_hand.OutputStream.Resumed.{number_from, record_all, subscribe_from-resumed}
use a_hand.OutputStream.Rising.{IsRising, subscribe_from-IsRising}

abbrev items : List OutputItem
items = stdout (codes "a") ∷ stdout (codes "b") ∷ stdout (codes "c") ∷ []

abbrev late : Sequenced
late = record { seq = 4; item = finished 0 (codes "") }

subscribe_from-resumed_example :
    replay 1 (record_all 2 new_state items).history ≡ replay 1 (number_from 1 items)
unfolding record_item trimmed needs_resync
subscribe_from-resumed_example = subscribe_from-resumed 2 1 items (omega arith) (omega arith) refl

subscribe_from-IsRising_example : IsRising 2 (
    subscribe_from
      (record_all 2 new_state items)
      (some 2)
      (lagged ∷ received late ∷ received late ∷ []))
subscribe_from-IsRising_example =
    subscribe_from-IsRising (record_all 2 new_state items) (some 2)
      (lagged ∷ received late ∷ received late ∷ [])
