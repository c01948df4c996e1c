-- ===== src/Frames.antt =====
-- The buffer of unacknowledged frames that the daemon's outbox, the hub's outbox and the hub's
-- outbox store share: a queue of (seq, bytes), oldest first, with its two trimming loops.
use a_hand.Base.{
  ℕ, suc, ◌-◌, ◌≤◌, ◌<◌, ◌≡◌, refl, ap, ◌∙◌, inl, inr, true, false, List, [], ◌∷◌, ◌++◌, map, arith,
  ltb, leb, if◌then◌else◌, length, length-append, drop, keep, length-keep-le, Bool-cases,
}
use a_hand.Base.Text.{Text}

abbrev pub Frame : Type 0
Frame = ℕ × Text

-- `while buffer.len() > max { buffer.pop_front(); }`
unfoldable pub evict : ℕ → List Frame → List Frame
evict m [] = []
evict m (x ∷ b) = if ltb m (suc (length b)) then evict m b else x ∷ b

-- `while let Some((seq, _)) = buffer.front() { if seq <= ack { pop_front } else { break } }`
unfoldable pub trim : ℕ → List Frame → List Frame
trim a [] = []
trim a ((s, d) ∷ b) = if leb s a then trim a b else (s, d) ∷ b

-- The frames whose seq is above `a`, in order.
abbrev pub unacked : ℕ → List Frame → List Frame
unacked a = keep λ f. ltb a f.0

abbrev pub payloads : List Frame → List Text
payloads = map λ f. f.1

-- The seqs rise strictly, from above `lo` and up to `hi`.
abbrev pub Rises : ℕ → ℕ → List Frame → Type 0
Rises lo hi [] = Unit {0}
Rises lo hi ((s, d) ∷ b) = (lo < s) × (s ≤ hi) × Rises s hi b

pub Rises-mono : (lo hi hi' : ℕ) (b : List Frame) → hi ≤ hi' → Rises lo hi b → Rises lo hi' b
Rises-mono lo hi hi' [] h r = tt
Rises-mono lo hi hi' ((s, d) ∷ b) h r = (r.0, omega arith, Rises-mono s hi hi' b h r.2)

pub Rises-lower : (lo lo' hi : ℕ) (b : List Frame) → lo' ≤ lo → Rises lo hi b → Rises lo' hi b
Rises-lower lo lo' hi [] h r = tt
Rises-lower lo lo' hi ((s, d) ∷ b) h r = (omega arith, r.1, r.2)

pub Rises-snoc :
    (lo hi s : ℕ) (d : Text) (b : List Frame)
    → lo ≤ hi
    → hi < s
    → Rises lo hi b
    → Rises lo s (b ++ ((s, d) ∷ []))
Rises-snoc lo hi s d [] k h r = (omega arith, omega arith, tt)
Rises-snoc lo hi s d ((t, e) ∷ b) k h r = (r.0, omega arith, Rises-snoc t hi s d b r.1 h r.2)

pub Rises-evict : (m lo hi : ℕ) (b : List Frame) → Rises lo hi b → Rises lo hi (evict m b)
unfolding evict
Rises-evict m lo hi [] r = r
Rises-evict m lo hi ((s, d) ∷ b) r =
    ground (arith, Rises-evict m s hi b r.2, Rises-lower s lo hi (evict m b))

pub Rises-trim : (a lo hi : ℕ) (b : List Frame) → Rises lo hi b → Rises lo hi (trim a b)
unfolding trim
Rises-trim a lo hi [] r = r
Rises-trim a lo hi ((s, d) ∷ b) r =
    ground (arith, Rises-trim a s hi b r.2, Rises-lower s lo hi (trim a b))

pub length-evict-le : (m : ℕ) (b : List Frame) → length (evict m b) ≤ m
unfolding evict
length-evict-le m [] = omega arith
length-evict-le m (x ∷ b) = ground (arith, length-evict-le m b)

pub length-trim-le : (a : ℕ) (b : List Frame) → length (trim a b) ≤ length b
unfolding trim
length-trim-le a [] = omega arith
length-trim-le a ((s, d) ∷ b) = ground (arith, length-trim-le a b)

pub evict_short : (m : ℕ) (b : List Frame) → length b ≤ m → evict m b ≡ b
unfolding evict
evict_short m [] h = refl
evict_short m (x ∷ b) h = ground arith

-- Eviction keeps the newest `m` frames.
zero-sub : (m : ℕ) → 0 - m ≡ 0
zero-sub m = omega arith

pub evict-drop : (m : ℕ) (b : List Frame) → evict m b ≡ drop (length b - m) b
unfolding evict
evict-drop m [] = rw (zero-sub m)
evict-drop m (x ∷ b) = elim (Bool-cases (ltb m (suc (length b)))) [
  | inl e ↦ rw e (rw (over e) (evict-drop m b))
  | inr e ↦ rw e (rw (within e))
]
  where
    over : ltb m (suc (length b)) ≡ true → suc (length b) - m ≡ suc (length b - m)
    over e = ground arith

    within : ltb m (suc (length b)) ≡ false → suc (length b) - m ≡ 0
    within e = ground arith

pub unacked_all : (a hi : ℕ) (b : List Frame) → Rises a hi b → unacked a b ≡ b
unacked_all a hi [] r = refl
unacked_all a hi ((s, d) ∷ b) r =
    ground (arith, unacked_all a hi b (Rises-lower s a hi b (omega arith) r.2))

-- On a rising buffer the loop that stops at the first unacknowledged frame drops all others.
pub trim-unacked : (a lo hi : ℕ) (b : List Frame) → Rises lo hi b → trim a b ≡ unacked a b
unfolding trim
trim-unacked a lo hi [] r = refl
trim-unacked a lo hi ((s, d) ∷ b) r = elim (Bool-cases (leb s a)) [
  | inl e ↦ ground (arith, trim-unacked a s hi b r.2)
  | inr e ↦ ground (arith, unacked_all a hi b (Rises-lower s a hi b (ground arith) r.2))
]

-- Evicting before the frame is pushed makes no difference.
pub evict-snoc :
    (m : ℕ) (b : List Frame) (x : Frame) → evict m (evict m b ++ (x ∷ [])) ≡ evict m (b ++ (x ∷ []))
unfolding evict
evict-snoc m [] x = refl
evict-snoc m (y ∷ b) x = ground (arith, evict-snoc m b x, length-append b (x ∷ []))

-- Acknowledging and evicting commute on a rising buffer.
unacked-evict :
    (a m lo hi : ℕ) (b : List Frame) → Rises lo hi b → unacked a (evict m b) ≡ evict m (unacked a b)
unfolding evict
unacked-evict a m lo hi [] r = refl
unacked-evict a m lo hi ((s, d) ∷ b) r = ground (
  arith,
  unacked-evict a m s hi b r.2,
  length-keep-le (λ (f : Frame). ltb a f.0) b,
  evict_short m (unacked a b),
  λ (h : a < s). unacked_all a hi b (Rises-lower s a hi b (omega arith) r.2),
)

pub unacked-append : (a : ℕ) (b c : List Frame) → unacked a (b ++ c) ≡ unacked a b ++ unacked a c
unacked-append a [] c = refl
unacked-append a (x ∷ b) c = ground (arith, unacked-append a b c)

Rises-unacked : (a lo hi : ℕ) (b : List Frame) → Rises lo hi b → Rises lo hi (unacked a b)
Rises-unacked a lo hi [] r = r
Rises-unacked a lo hi ((s, d) ∷ b) r =
    ground (arith, Rises-unacked a s hi b r.2, Rises-lower s lo hi (unacked a b))

-- What passes the larger of two bounds passes both.
pub unacked-unacked :
    (a c : ℕ) (b : List Frame) → unacked a (unacked c b) ≡ unacked (if ltb c a then a else c) b
unacked-unacked a c [] = refl
unacked-unacked a c (x ∷ b) = ground (arith, unacked-unacked a c b)

-- Acknowledging more of a buffer that holds the newest `m` of the frames above `c`.
pub trim-newest :
    (a c m hi : ℕ) (b : List Frame)
    → c ≤ a
    → Rises 0 hi b
    → trim a (evict m (unacked c b)) ≡ evict m (unacked a b)
trim-newest a c m hi b h r =
    trim-unacked a 0 hi (evict m (unacked c b)) (Rises-evict m 0 hi (unacked c b) rising)
    ∙ unacked-evict a m 0 hi (unacked c b) rising
    ∙ ap (evict m) (unacked-unacked a c b ∙ bound)
  where
    rising : Rises 0 hi (unacked c b)
    rising = Rises-unacked c 0 hi b r

    bound : unacked (if ltb c a then a else c) b ≡ unacked a b
    bound = ground arith

-- What is left after trimming lies above the acknowledged seq.
pub trim_above : (a lo hi : ℕ) (b : List Frame) → Rises lo hi b → Rises a hi (trim a b)
unfolding trim
trim_above a lo hi [] r = tt
trim_above a lo hi ((s, d) ∷ b) r = ground (arith, trim_above a s hi b r.2)

-- Trimming takes nothing from a replay that starts at the acknowledged seq or above.
pub unacked-trim : (a k : ℕ) (b : List Frame) → a ≤ k → unacked k (trim a b) ≡ unacked k b
unfolding trim
unacked-trim a k [] h = refl
unacked-trim a k ((s, d) ∷ b) h = ground (arith, unacked-trim a k b h)
