-- ===== src/FileManager/Reading/Entered.antt =====
-- Where a read of a text file begins.
use a_hand.Base.{
  ℕ, zero, suc, ◌+◌, ◌-◌, ◌≤◌, ◌<◌, ◌≡◌, inl, inr, refl, subst, true, ◌&&◌, Option, none, some,
  List, [], ◌∷◌, length, drop, ltb, nat_beq, if◌then◌else◌, arith, Bool-cases,
}
use a_hand.Base.Text.{Text}
use a_hand.FileManager.Write.{min}
use a_hand.FileManager.Reading.{
  starts_from, compute_line_offsets_raw, offset_at, insertion_point, line_index_for_byte, Position,
  at_line, at_byte, at_line_col, resolve_start_raw,
}
use a_hand.FileManager.Reading.Contiguous.{IsAscending, IsEntered, first_offset}

starts_from-IsAscending :
    (raw_len from i : ℕ) (s : Text)
    → from ≤ suc i
    → from ≤ raw_len
    → i + length s ≤ raw_len
    → IsAscending raw_len from (starts_from i s)
unfolding starts_from
starts_from-IsAscending raw_len from i [] h k l = k
starts_from-IsAscending raw_len from i (b ∷ []) h k l = k
starts_from-IsAscending raw_len from i (b ∷ c ∷ s) h k l = elim (Bool-cases (nat_beq b 10)) [
  | inl e ↦
      rw (starts_from, e)
        (
          h,
          starts_from-IsAscending raw_len (suc i) (suc i) (c ∷ s) (omega arith) (omega (arith, l))
              (omega (arith, l)),
        )
  | inr e ↦
      rw (starts_from, e)
        (starts_from-IsAscending raw_len from (suc i) (c ∷ s) (omega (arith, h)) k
          (omega (arith, l)))
]

compute_line_offsets_raw-IsAscending :
    (s : Text) → IsAscending (length s) 0 (compute_line_offsets_raw s)
unfolding compute_line_offsets_raw
compute_line_offsets_raw-IsAscending [] = omega arith
compute_line_offsets_raw-IsAscending (b ∷ s) = (
  omega arith,
  starts_from-IsAscending (length (b ∷ s)) 0 0 (b ∷ s) (omega arith) (omega arith) (omega arith),
)

offset_ascends :
    (raw_len from idx : ℕ) (os : List ℕ)
    → IsAscending raw_len from os
    → offset_at raw_len idx os ≤ offset_at raw_len (suc idx) os
offset_ascends raw_len from idx [] h = omega arith
offset_ascends raw_len from zero (o ∷ os) h = (first_offset raw_len o os h.1).0
offset_ascends raw_len from (suc idx) (o ∷ os) h = offset_ascends raw_len o idx os h.1

between-IsEntered :
    (raw_len from idx b : ℕ) (os : List ℕ)
    → IsAscending raw_len from os
    → idx ≤ length os
    → offset_at raw_len idx os ≤ b
    → b ≤ offset_at raw_len (suc idx) os
    → IsEntered raw_len b (some b) (drop idx os)
between-IsEntered raw_len from zero b [] h k l u = omega (arith, l, u)
between-IsEntered raw_len from (suc idx) b [] h k l u = omega (arith, k)
between-IsEntered raw_len from zero b (o ∷ os) h k l u = (ground (arith, l), u, h.1)
between-IsEntered raw_len from (suc idx) b (o ∷ os) h k l u =
    between-IsEntered raw_len o idx b os h.1 (omega (arith, k)) l u

-- Everything before the insertion point is smaller, and what stands there is not.
insertion_point_lem :
    (raw_len byte : ℕ) (os : List ℕ)
    → byte ≤ raw_len
    → (insertion_point os byte ≤ length os)
      × (byte ≤ offset_at raw_len (insertion_point os byte) os)
      × ((j : ℕ) → insertion_point os byte ≡ suc j → offset_at raw_len j os < byte)
insertion_point_lem raw_len byte [] h = (omega arith, h, λ j e. ground (arith, e))
insertion_point_lem raw_len byte (o ∷ os) h = elim (Bool-cases (ltb o byte)) [
  | inl b ↦
      let (within, above, below) = insertion_point_lem raw_len byte os h in
      rw b (
        omega (arith, within),
        above,
        λ j e.
            subst (λ k. offset_at raw_len k (o ∷ os) < byte) (omega (arith, e))
              (smaller (insertion_point os byte) b below),
      )
  | inr b ↦ rw b (omega arith, ground (arith, b), λ j e. ground (arith, e))
]
  where
    smaller :
        (k : ℕ)
        → ltb o byte ≡ true
        → ((j : ℕ) → k ≡ suc j → offset_at raw_len j os < byte)
        → offset_at raw_len k (o ∷ os) < byte
    smaller zero b below = ground (arith, b)
    smaller (suc k) b below = below k refl

pred_suc : (j : ℕ) → suc j - 1 ≡ j
pred_suc j = omega arith

-- A byte lies in the line that is found for it.
line_index_between :
    (raw_len from byte o : ℕ) (os : List ℕ)
    → IsAscending raw_len from (o ∷ os)
    → o ≤ byte
    → byte ≤ raw_len
    → let idx = line_index_for_byte raw_len (o ∷ os) byte in
      (idx ≤ length (o ∷ os))
      × (offset_at raw_len idx (o ∷ os) ≤ byte)
      × (byte ≤ offset_at raw_len (suc idx) (o ∷ os))
unfolding line_index_for_byte
line_index_between raw_len from byte o os h l u =
    let (within, above, below) = insertion_point_lem raw_len byte (o ∷ os) u in
    pick (insertion_point (o ∷ os) byte) within above below
  where
    before :
        (k : ℕ)
        → k ≤ length (o ∷ os)
        → byte ≤ offset_at raw_len k (o ∷ os)
        → ((j : ℕ) → k ≡ suc j → offset_at raw_len j (o ∷ os) < byte)
        → (k - 1 ≤ length (o ∷ os))
          × (offset_at raw_len (k - 1) (o ∷ os) ≤ byte)
          × (byte ≤ offset_at raw_len (suc (k - 1)) (o ∷ os))
    before zero within above below =
        (omega arith, l, omega (arith, above, offset_ascends raw_len from 0 (o ∷ os) h))
    before (suc j) within above below =
        rw (pred_suc j) (omega (arith, within), ground (arith, below j refl), above)

    pick :
        (k : ℕ)
        → k ≤ length (o ∷ os)
        → byte ≤ offset_at raw_len k (o ∷ os)
        → ((j : ℕ) → k ≡ suc j → offset_at raw_len j (o ∷ os) < byte)
        → let idx =
            if ltb k (length (o ∷ os)) && nat_beq (offset_at raw_len k (o ∷ os)) byte
            then k
            else k - 1 in
          (idx ≤ length (o ∷ os))
          × (offset_at raw_len idx (o ∷ os) ≤ byte)
          × (byte ≤ offset_at raw_len (suc idx) (o ∷ os))
    pick k within above below =
        elim (Bool-cases (ltb k (length (o ∷ os)) && nat_beq (offset_at raw_len k (o ∷ os)) byte)) [
          | inl found ↦ rw found (
            within,
            ground (arith, found),
            omega (arith, above, offset_ascends raw_len from k (o ∷ os) h),
          )
          | inr absent ↦ rw absent (before k within above below)
        ]

-- A column that does not run over the range of a byte count.
abbrev pub IsInRange : Option Position → List ℕ → ℕ → Type 0
IsInRange none offsets raw_len = Unit
IsInRange (some (at_line line)) offsets raw_len = Unit
IsInRange (some (at_byte b)) offsets raw_len = Unit
IsInRange (some (at_line_col lc)) offsets raw_len =
    offset_at raw_len (min (lc.line - 1) (length offsets)) offsets + lc.col < 18446744073709551616

offset_within :
    (raw_len from idx : ℕ) (os : List ℕ)
    → IsAscending raw_len from os
    → offset_at raw_len idx os ≤ raw_len
offset_within raw_len from idx [] h = omega arith
offset_within raw_len from zero (o ∷ os) h = omega (arith, first_offset raw_len o os h.1)
offset_within raw_len from (suc idx) (o ∷ os) h = offset_within raw_len o idx os h.1

starts_at_zero : (raw : Text) → offset_at (length raw) 0 (compute_line_offsets_raw raw) ≤ 0
unfolding compute_line_offsets_raw
starts_at_zero [] = omega arith
starts_at_zero (c ∷ s) = omega arith

byte_between :
    (raw : Text) (byte : ℕ)
    → byte ≤ length raw
    → let offsets = compute_line_offsets_raw raw in
      let idx = line_index_for_byte (length raw) offsets byte in
      (idx ≤ length offsets)
      × (offset_at (length raw) idx offsets ≤ byte)
      × (byte ≤ offset_at (length raw) (suc idx) offsets)
unfolding line_index_for_byte compute_line_offsets_raw
byte_between [] byte h = (omega arith, omega arith, h)
byte_between (c ∷ s) byte h =
    line_index_between (length (c ∷ s)) 0 byte 0 (starts_from 0 (c ∷ s))
      (compute_line_offsets_raw-IsAscending (c ∷ s)) (omega arith) h

-- Where a read begins lies in the file and in the line that it is counted to.
pub resolve_start_raw-IsEntered :
    (raw : Text) (position : Option Position)
    → IsInRange position (compute_line_offsets_raw raw) (length raw)
    → let (byte, idx) = resolve_start_raw position (compute_line_offsets_raw raw) (length raw) in
      IsEntered (length raw) byte (some byte) (drop idx (compute_line_offsets_raw raw))
      × (byte ≤ length raw)
unfolding resolve_start_raw
resolve_start_raw-IsEntered raw position r = go position r
  where
    entered :
        (byte idx : ℕ)
        → idx ≤ length (compute_line_offsets_raw raw)
        → offset_at (length raw) idx (compute_line_offsets_raw raw) ≤ byte
        → byte ≤ offset_at (length raw) (suc idx) (compute_line_offsets_raw raw)
        → IsEntered (length raw) byte (some byte) (drop idx (compute_line_offsets_raw raw))
          × (byte ≤ length raw)
    entered byte idx k l u = (
      between-IsEntered (length raw) 0 idx byte (compute_line_offsets_raw raw)
          (compute_line_offsets_raw-IsAscending raw) k l u,
      omega (
        arith,
        u,
        offset_within (length raw) 0 (suc idx) (compute_line_offsets_raw raw)
            (compute_line_offsets_raw-IsAscending raw),
      ),
    )

    go :
        (position : Option Position)
        → IsInRange position (compute_line_offsets_raw raw) (length raw)
        → let (byte, idx) =
            resolve_start_raw position (compute_line_offsets_raw raw) (length raw) in
          IsEntered (length raw) byte (some byte) (drop idx (compute_line_offsets_raw raw))
          × (byte ≤ length raw)
    go none r = entered 0 0 (omega arith) (starts_at_zero raw) (omega arith)
    go (some (at_line line)) r =
        entered _ (min (line - 1) (length (compute_line_offsets_raw raw))) (ground arith)
          (omega arith)
          (offset_ascends (length raw) 0 _ (compute_line_offsets_raw raw)
            (compute_line_offsets_raw-IsAscending raw))
    go (some (at_byte b)) r =
        let (k, l, u) = byte_between raw (min b (length raw)) (ground arith) in
        entered (min b (length raw)) _ k l u
    go (some (at_line_col lc)) r =
        entered _ (min (lc.line - 1) (length (compute_line_offsets_raw raw))) (ground arith)
          (ground (
            arith,
            r,
            offset_ascends (length raw) 0
                (min (lc.line - 1) (length (compute_line_offsets_raw raw)))
                (compute_line_offsets_raw raw) (compute_line_offsets_raw-IsAscending raw),
          ))
          (ground arith)
