-- ===== src/FileManager/Reading/Shown.antt =====
-- Which bytes of a text file the lines of an answer show.
use a_hand.Base.{
  ℕ, zero, suc, ◌+◌, ◌-◌, ◌≤◌, ◌<◌, ◌≡◌, ◌⊎◌, inl, inr, refl, sym, subst, Bool, true, not, ◌&&◌,
  List, [], ◌∷◌, ◌++◌, length, ltb, arith, Bool-cases,
}
use a_hand.Base.Text.{Text}
use a_hand.FileManager.Reading.{TextLine, slice, byte_at, is_byte, display_end, truncate_line}

-- A line break, or nothing.
abbrev pub IsBreak : Text → Type 0
IsBreak s = (s ≡ []) ⊎ ((s ≡ 10 ∷ []) ⊎ (s ≡ 13 ∷ 10 ∷ []))

slice_empty : (i : ℕ) (s : Text) → slice i i s ≡ []
slice_empty zero s = refl
slice_empty (suc i) [] = refl
slice_empty (suc i) (c ∷ s) = slice_empty i s

slice_one : (i b : ℕ) (s : Text) → is_byte b (byte_at i s) ≡ true → slice i (suc i) s ≡ b ∷ []
slice_one i b [] h = cc
slice_one zero b (c ∷ s) h = ground (arith, h)
slice_one (suc i) b (c ∷ s) h = slice_one i b s h

slice_two :
    (i a b : ℕ) (s : Text)
    → is_byte a (byte_at i s) ≡ true
    → is_byte b (byte_at (suc i) s) ≡ true
    → slice i (suc (suc i)) s ≡ a ∷ b ∷ []
slice_two i a b [] h k = cc
slice_two zero a b (c ∷ s) h k = rw (slice_one 0 b s k) (ground (arith, h))
slice_two (suc i) a b (c ∷ s) h k = slice_two i a b s h k

-- Behind the shown part of a line comes at most its line break.
pub display_end-IsBreak :
    (raw : Text) (cut_short : Bool) (from to : ℕ)
    → from ≤ to
    → (from ≤ display_end raw cut_short from to)
      × IsBreak (slice (display_end raw cut_short from to) to raw)
unfolding display_end
display_end-IsBreak raw cut_short from to h =
    elim (Bool-cases (not cut_short && (ltb from to && is_byte 10 (byte_at (to - 1) raw)))) [
      | inr b ↦ rw (display_end, b) (h, inl (slice_empty to raw))
      | inl b ↦ elim (Bool-cases (ltb from (to - 1) && is_byte 13 (byte_at (to - 2) raw))) [
        | inr c ↦ rw (display_end, b, c) (omega (arith, below b), inr (inl (last_one b)))
        | inl c ↦ rw (display_end, b, c) (omega (arith, below_two c), inr (inr (last_two b c)))
      ]
    ]
  where
    below : (not cut_short && (ltb from to && is_byte 10 (byte_at (to - 1) raw))) ≡ true → from < to
    below b = ground (arith, b)

    ends :
        (not cut_short && (ltb from to && is_byte 10 (byte_at (to - 1) raw))) ≡ true
        → is_byte 10 (byte_at (to - 1) raw) ≡ true
    ends b = ground (arith, b)

    below_two : (ltb from (to - 1) && is_byte 13 (byte_at (to - 2) raw)) ≡ true → from < to - 1
    below_two c = ground (arith, c)

    before :
        (ltb from (to - 1) && is_byte 13 (byte_at (to - 2) raw)) ≡ true
        → is_byte 13 (byte_at (to - 2) raw) ≡ true
    before c = ground (arith, c)

    last_one :
        (not cut_short && (ltb from to && is_byte 10 (byte_at (to - 1) raw))) ≡ true
        → slice (to - 1) to raw ≡ 10 ∷ []
    last_one b =
        let top : suc (to - 1) ≡ to = omega (arith, below b) in
        subst (λ t. slice (to - 1) t raw ≡ 10 ∷ []) top (slice_one (to - 1) 10 raw (ends b))

    last_two :
        (not cut_short && (ltb from to && is_byte 10 (byte_at (to - 1) raw))) ≡ true
        → (ltb from (to - 1) && is_byte 13 (byte_at (to - 2) raw)) ≡ true
        → slice (to - 2) to raw ≡ 13 ∷ 10 ∷ []
    last_two b c =
        let mid : to - 1 ≡ suc (to - 2) = omega (arith, below_two c) in
        let top : suc (suc (to - 2)) ≡ to = omega (arith, below_two c) in
        subst (λ t. slice (to - 2) t raw ≡ 13 ∷ 10 ∷ []) top
          (slice_two (to - 2) 13 10 raw (before c)
            (subst (λ i. is_byte 10 (byte_at i raw) ≡ true) mid (ends b)))

module _ (is_utf8 : Bool) (decode : Text → Text) where
  -- A line of an answer shows the bytes from `from` up to its line break in front of `to`, decoded,
  -- and cut to the width.
  abbrev pub IsShown : Text → ℕ → ℕ → ℕ → TextLine → Type 0
  IsShown raw width from to line =
      (stop : ℕ) × (from ≤ stop)
      × IsBreak (slice stop to raw)
      × (truncate_line is_utf8 decode (slice from stop raw) width
          ≡ (line.content, line.truncated, line.remaining_bytes))

  -- Lines that follow each other with no gap from one byte to another, and are numbered from
  -- behind `above`.
  abbrev pub AreShown : Text → ℕ → ℕ → ℕ → List TextLine → ℕ → Type 0
  AreShown raw width above from [] to = from ≡ to
  AreShown raw width above from (line ∷ lines) to =
      (line.line_number ≡ suc above)
      × ((mid : ℕ) × IsShown raw width from mid line × AreShown raw width (suc above) mid lines to)

  pub AreShown-snoc :
      (raw : Text) (width above from mid to : ℕ) (lines : List TextLine) (line : TextLine)
      → AreShown raw width above from lines mid
      → line.line_number ≡ suc (above + length lines)
      → IsShown raw width mid to line
      → AreShown raw width above from (lines ++ (line ∷ [])) to
  AreShown-snoc raw width above from mid to [] line e n s =
      (omega (arith, n), (to, subst (λ f. IsShown raw width f to line) (sym e) s, refl))
  AreShown-snoc raw width above from mid to (l ∷ lines) line (e, (next, shown, rest)) n s = (
    e,
    (
      next,
      shown,
      AreShown-snoc raw width (suc above) next mid to lines line rest (omega (arith, n)) s,
    ),
  )
