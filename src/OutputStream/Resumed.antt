-- ===== src/OutputStream/Resumed.antt =====
-- A subscriber that comes back after the event it had last.
use a_hand.Base.{
  ℕ, zero, suc, ◌+◌, ◌-◌, ◌≤◌, ◌<◌, ◌≡◌, refl, sym, ap, subst, ◌∙◌, true, false, some, List, [],
  ◌∷◌, ◌++◌, append_assoc, append_nil, length, length-append, drop, ltb, leb, u64, arith,
  Bool-cases, inl, inr,
}
use a_hand.OutputStream.{
  OutputItem, Sequenced, JobOutputState, new_state, trimmed, record_item, needs_resync, replay,
}

-- Everything that was recorded, under its sequence numbers.
abbrev pub number_from : ℕ → List OutputItem → List Sequenced
number_from i [] = []
number_from i (x ∷ xs) = record { seq = i; item = x } ∷ number_from (suc i) xs

abbrev pub record_all : ℕ → JobOutputState → List OutputItem → JobOutputState
record_all m state [] = state
record_all m state (x ∷ xs) = record_all m (record_item m state x) xs

length-number_from : (i : ℕ) (xs : List OutputItem) → length (number_from i xs) ≡ length xs
length-number_from i [] = refl
length-number_from i (x ∷ xs) = ap suc (length-number_from (suc i) xs)

number_from-append :
    (i : ℕ) (xs : List OutputItem) (x : OutputItem)
    → number_from i (xs ++ (x ∷ []))
      ≡ number_from i xs ++ (record { seq = i + length xs; item = x } ∷ [])
number_from-append i [] x = ap (λ n. record { seq = n; item = x } ∷ []) (omega arith)
number_from-append i (y ∷ xs) x =
    ap (λ r. record { seq = i; item = y } ∷ r)
      (number_from-append (suc i) xs x
        ∙ ap (λ n. number_from (suc i) xs ++ (record { seq = n; item = x } ∷ [])) (omega arith))

drop-append :
    {A : Type 0} (k : ℕ) (xs ys : List A) → k ≤ length xs → drop k (xs ++ ys) ≡ drop k xs ++ ys
drop-append zero xs ys h = refl
drop-append (suc k) [] ys h = ground (arith, h)
drop-append (suc k) (x ∷ xs) ys h = drop-append k xs ys (omega (arith, h))

zero_plus : (j : ℕ) → j ≡ 0 + j
zero_plus j = omega arith

suc_plus : (k j : ℕ) → suc (k + j) ≡ suc k + j
suc_plus k j = omega arith

drop_nil : {A : Type 0} (k : ℕ) → drop {A = A} k [] ≡ []
drop_nil zero = refl
drop_nil (suc k) = refl

length-drop : {A : Type 0} (k : ℕ) (xs : List A) → length (drop k xs) ≡ length xs - k
length-drop zero xs = omega arith
length-drop (suc k) [] = omega arith
length-drop (suc k) (x ∷ xs) = omega (arith, length-drop k xs)

drop-drop : {A : Type 0} (j k : ℕ) (xs : List A) → drop j (drop k xs) ≡ drop (k + j) xs
drop-drop j zero xs = ap (λ n. drop n xs) (zero_plus j)
drop-drop j (suc k) [] = drop_nil j ∙ sym (drop_nil (suc k + j))
drop-drop j (suc k) (x ∷ xs) = drop-drop j k xs ∙ ap (λ n. drop n (x ∷ xs)) (suc_plus k j)

trimmed_lem : (m : ℕ) (ys : List Sequenced) → trimmed m ys ≡ drop (length ys - m) ys
unfolding trimmed
trimmed_lem m ys = elim (Bool-cases (ltb m (length ys))) [
  | inl b ↦ rw (trimmed, b) refl
  | inr b ↦ rw (trimmed, b, small b) refl
]
  where
    small : ltb m (length ys) ≡ false → length ys - m ≡ 0
    small b = ground (arith, b)

-- The last `m` items stay the last `m` items.
trimmed-append :
    (m : ℕ) (log : List Sequenced) (s : Sequenced)
    → trimmed m (drop (length log - m) log ++ (s ∷ []))
      ≡ drop (length (log ++ (s ∷ [])) - m) (log ++ (s ∷ []))
trimmed-append m log s =
    let zs = log ++ (s ∷ []) in
    let k = length log - m in
    ap (trimmed m) (sym (drop-append k log (s ∷ []) (omega arith)))
    ∙ trimmed_lem m (drop k zs)
    ∙ drop-drop (length (drop k zs) - m) k zs
    ∙ ap (λ n. drop n zs) (omega (arith, length-drop k zs, length-append log (s ∷ [])))

-- The state keeps the last `m` items of what was recorded, and counts all of it.
abbrev pub IsLog : ℕ → List OutputItem → JobOutputState → Type 0
IsLog m items state =
    (state.history ≡ drop (length (number_from 1 items) - m) (number_from 1 items))
    × (state.next_seq ≡ length items)

record_item-IsLog :
    (m : ℕ) (items : List OutputItem) (x : OutputItem) (state : JobOutputState)
    → length items < 18446744073709551615
    → IsLog m items state
    → IsLog m (items ++ (x ∷ [])) (record_item m state x)
unfolding record_item
record_item-IsLog m items x state l (h, n) = (
  rw (number_from-append 1 items x, h, wraps)
      (trimmed-append m (number_from 1 items) (record { seq = 1 + length items; item = x })),
  omega (arith, n, l, length-append items (x ∷ [])),
)
  where
    wraps : u64 (state.next_seq + 1) ≡ 1 + length items
    wraps = omega (arith, n, l)

record_all-IsLog :
    (m : ℕ) (items xs : List OutputItem) (state : JobOutputState)
    → length items + length xs < 18446744073709551616
    → IsLog m items state
    → IsLog m (items ++ xs) (record_all m state xs)
record_all-IsLog m items [] state l h = rw (append_nil items) h
record_all-IsLog m items (x ∷ xs) state l h = rw (sym (append_assoc items (x ∷ []) xs)) (
    record_all-IsLog m (items ++ (x ∷ [])) xs (record_item m state x)
      (omega (arith, l, length-append items (x ∷ [])))
      (record_item-IsLog m items x state (omega (arith, l)) h))

-- What a subscriber has already had is passed over.
replay_skips :
    (n k i : ℕ) (xs : List OutputItem)
    → i + k ≤ suc n
    → replay n (drop k (number_from i xs)) ≡ replay n (number_from i xs)
unfolding replay
replay_skips n zero i xs h = refl
replay_skips n (suc k) i [] h = refl
replay_skips n (suc k) i (x ∷ xs) h =
    rw (seen i n (omega (arith, h))) (replay_skips n k (suc i) xs (omega (arith, h)))
  where
    seen : (i n : ℕ) → i ≤ n → leb i n ≡ true
    seen i n h = ground (arith, h)

drop-number_from :
    (k i : ℕ) (xs : List OutputItem)
    → k < length xs
    → (x : OutputItem) × (rest : List Sequenced) × (drop k (number_from i xs)
        ≡ record { seq = i + k; item = x } ∷ rest)
drop-number_from k i [] h = elim (nothing k h) [ ]
  where
    nothing : (k : ℕ) → k < 0 → ⊥
    nothing k h = omega (arith, h)
drop-number_from zero i (x ∷ xs) h =
    (x, _, ap (λ n. record { seq = n; item = x } ∷ number_from (suc i) xs) (plus_zero i))
  where
    plus_zero : (i : ℕ) → i ≡ i + 0
    plus_zero i = omega arith
drop-number_from (suc k) i (x ∷ xs) h =
    let (y, rest, e) = drop-number_from k (suc i) xs (omega (arith, h)) in
    (y, rest, e ∙ ap (λ n. record { seq = n; item = y } ∷ rest) (shift i k))
  where
    shift : (i k : ℕ) → suc i + k ≡ i + suc k
    shift i k = omega arith

-- Where at least one item is kept and fewer than 2^64 - 1 were recorded, and the hub does not
-- tell a subscriber that comes back after the event `last` to start again, it replays what it
-- would replay had it kept everything that was recorded: nothing is missed, although only the
-- last `m` items are kept.
pub subscribe_from-resumed :
    (m last : ℕ) (xs : List OutputItem)
    → 0 < m
    → length xs < 18446744073709551615
    → let history = (record_all m new_state xs).history in
      needs_resync history (some last) ≡ false
      → replay last history ≡ replay last (number_from 1 xs)
unfolding needs_resync
subscribe_from-resumed m last [] p l r = refl
subscribe_from-resumed m last (x ∷ xs) p l r =
    let full = number_from 1 (x ∷ xs) in
    let k = length full - m in
    let kept =
      (record_all-IsLog m [] (x ∷ xs) new_state (omega (arith, l))
        (sym (drop_nil (0 - m)), refl)).0 in
    let (y, rest, e) =
      drop-number_from k 1 (x ∷ xs) (omega (arith, p, length-number_from 1 (x ∷ xs))) in
    let asked = subst (λ h. needs_resync h (some last) ≡ false) (kept ∙ e) r in
    rw kept (replay_skips last k 1 (x ∷ xs) (ground (arith, asked)))
