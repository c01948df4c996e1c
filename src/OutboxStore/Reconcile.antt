-- ===== src/OutboxStore/Reconcile.antt =====
-- What a device gets back when it reconnects: no acknowledged frame, every other, and fresh seqs.
use mathlib.Core.List.{map-append}
use a_hand.Base.{
  ℕ, suc, ◌+◌, ◌≤◌, ◌<◌, ◌≡◌, refl, ap, ◌∙◌, true, [], ◌∷◌, ◌++◌, some, arith, if◌then◌else◌, u64,
  ltb, ◌⊎◌, length, length-append,
}
use a_hand.Base.Text.{Text, text_eq}
use a_hand.Base.Map
use a_hand.Frames.{trim, unacked, payloads, unacked-trim, evict_short, unacked-append}
use a_hand.Hub.{ok}
use a_hand.OutboxStore.{
  DeviceState, Store, is_owner, max_buffer, fenced, reconcile_entry, reconcile_on_hello,
  unacked_frames, fenced_incr_seq, xadd_frame, observe_ack,
}

frames_of :
    {S : Type 0} (g : Store S) (d : Text) (x : DeviceState S) (k : ℕ)
    → Map.get d g ≡ some x
    → unacked_frames g d k ≡ ok (payloads (unacked k x.buffer))
unfolding unacked_frames
frames_of g d x k e = rw (e, unacked_frames)

module _ {S : Type 0} (g : Store S) (d s : Text) (x : DeviceState S)
    (held : Map.get d g ≡ some x) where
  owned : is_owner x.lock s ≡ true → fenced g d s ≡ ok x
  unfolding fenced
  owned o = rw (held, fenced, o)

  reconcile_owned :
      (a : ℕ)
      → is_owner x.lock s ≡ true
      → reconcile_on_hello g d s a
        ≡ (Map.insert d (reconcile_entry x a).0 g, ok ((reconcile_entry x a).1))
  unfolding reconcile_on_hello
  reconcile_owned a o = rw (owned o)

  incr_owned :
      is_owner x.lock s ≡ true
      → x.seq < 18446744073709551615
      → fenced_incr_seq g d s ≡ (Map.insert d (record x { seq = suc x.seq }) g, ok (suc x.seq))
  unfolding fenced_incr_seq
  incr_owned o b = rw (owned o) (rw wraps)
    where
      wraps : u64 (x.seq + 1) ≡ suc x.seq
      wraps = omega arith

  xadd_owned :
      (n : ℕ) (f : Text)
      → is_owner x.lock s ≡ true
      → length x.buffer < max_buffer
      → xadd_frame g d s n f
        ≡ (Map.insert d (record x { buffer = x.buffer ++ ((n, f) ∷ []) }) g, ok tt)
  unfolding xadd_frame
  xadd_owned n f o room =
      rw (owned o) (rw (evict_short max_buffer (x.buffer ++ ((n, f) ∷ [])) fits))
    where
      fits : length (x.buffer ++ ((n, f) ∷ [])) ≤ max_buffer
      fits = omega (arith, length-append x.buffer ((n, f) ∷ []))

  unacked_frames-reconcile :
      (a k : ℕ)
      → is_owner x.lock s ≡ true
      → a ≤ k
      → unacked_frames (Map.insert d (reconcile_entry x a).0 g) d k
        ≡ (if ltb x.seq a then ok [] else unacked_frames g d k)
  unfolding reconcile_entry
  unacked_frames-reconcile a k o h =
      frames_of (Map.insert d (reconcile_entry x a).0 g) d (reconcile_entry x a).0 k
        (Map.get-insert_self d (reconcile_entry x a).0 g)
      ∙ ground (arith, frames_of g d x k held, unacked-trim a k x.buffer h)

-- A hello from the session that holds the lock is answered with the larger of the last seq issued
-- and the last seq that the device has seen. If the store had issued the device's seq, every frame
-- above it can still be replayed, as before; otherwise nothing is left to replay.
pub unacked_frames-reconcile_on_hello :
    {S : Type 0} (g : Store S) (d s : Text) (x : DeviceState S) (last_ack k : ℕ)
    → Map.get d g ≡ some x
    → is_owner x.lock s ≡ true
    → last_ack ≤ k
    → let (g', answer) = reconcile_on_hello g d s last_ack in
      (answer ≡ ok (if ltb x.seq last_ack then last_ack else x.seq))
      × (unacked_frames g' d k ≡ (if ltb x.seq last_ack then ok [] else unacked_frames g d k))
unfolding reconcile_entry
unacked_frames-reconcile_on_hello g d s x last_ack k held o h =
    rw (reconcile_owned g d s x held last_ack o)
      (ground arith, unacked_frames-reconcile g d s x held last_ack k o h)

-- An acknowledgement above the last issued seq is ignored; any other keeps for replay every frame
-- above the acknowledged seq.
unacked_frames-observe_ack :
    {S : Type 0} (g : Store S) (d : Text) (x : DeviceState S) (ack k : ℕ)
    → Map.get d g ≡ some x
    → ack ≤ k
    → ((observe_ack g d ack).0 ≡ g) × (x.seq < ack)
      ⊎ (Map.get d (observe_ack g d ack).0 ≡ some (record x { buffer = trim ack x.buffer }))
        × (unacked_frames (observe_ack g d ack).0 d k ≡ unacked_frames g d k)
        × (ack ≤ x.seq)
unfolding observe_ack
unacked_frames-observe_ack g d x ack k held h =
    rw (held, observe_ack)
      (ground (
        arith,
        frames_of g d x k held,
        frames_of (Map.insert d (record x { buffer = trim ack x.buffer }) g) d
            (record x { buffer = trim ack x.buffer }) k,
        Map.get-insert_self d (record x { buffer = trim ack x.buffer }) g,
        unacked-trim ack k x.buffer h,
      ))

-- A frame that the owner adds under the seq that it was just issued, while there is room, is what a
-- replay from any lower seq ends with, behind all that such a replay held before.
pub unacked_frames-xadd_frame :
    {S : Type 0} (g : Store S) (d s : Text) (x : DeviceState S) (frame : Text) (k : ℕ)
    → Map.get d g ≡ some x
    → is_owner x.lock s ≡ true
    → length x.buffer < max_buffer
    → k ≤ x.seq
    → x.seq < 18446744073709551615
    → let g' = (fenced_incr_seq g d s).0 in
      ((fenced_incr_seq g d s).1 ≡ ok (suc x.seq))
      × (unacked_frames (xadd_frame g' d s (suc x.seq) frame).0 d k
          ≡ ok (payloads (unacked k x.buffer) ++ (frame ∷ [])))
unacked_frames-xadd_frame {S} g d s x frame k held o room h b = rw (incr_owned g d s x held o b) (
  refl,
  rw
      (xadd_owned (Map.insert d next g) d s next (Map.get-insert_self d next g) (suc x.seq) frame o
        room)
      (frames_of _ d _ k (Map.get-insert_self d _ (Map.insert d next g))
        ∙ ap (λ b. ok (payloads b)) last
        ∙ ap ok (map-append _ (unacked k x.buffer) _)),
)
  where
    next : DeviceState S
    next = record x { seq = suc x.seq }

    last :
        unacked k (x.buffer ++ ((suc x.seq, frame) ∷ []))
        ≡ unacked k x.buffer ++ ((suc x.seq, frame) ∷ [])
    last = ground (arith, unacked-append k x.buffer ((suc x.seq, frame) ∷ []))
