-- ===== src/FileManager/Reading/Contiguous.antt =====
-- What a read of a text file covers.
use a_hand.Base.{
  ℕ, suc, ◌+◌, ◌-◌, ◌≤◌, ◌≡◌, refl, sym, ap, subst, Bool, true, false, ◌&&◌, ◌||◌, Option, none,
  some, List, [], ◌∷◌, ◌++◌, length, leb, nat_beq, if◌then◌else◌, arith,
}
use a_hand.Base.Text.{Text}
use a_hand.FileManager.Write.{min}
use a_hand.FileManager.Reading.Shown.{AreShown, AreShown-snoc, display_end-IsBreak}
use a_hand.FileManager.Reading.{
  display_end, StopReason, max_lines, max_bytes, target_end, file_end, offset_at, target_cut, enter,
  Progress, Limits, stop, take_line, is_cut_by_max, is_cut_by_target, consume_end, stopping,
  read_lines,
}

-- The starts of lines that follow the byte `from`, in order, and within the file.
abbrev pub IsAscending : ℕ → ℕ → List ℕ → Type 0
IsAscending raw_len from [] = from ≤ raw_len
IsAscending raw_len from (o ∷ os) = (from ≤ o) × IsAscending raw_len o os

-- The line that is entered next begins where the reading stands, or before it.
abbrev pub IsEntered : ℕ → ℕ → Option ℕ → List ℕ → Type 0
IsEntered raw_len pos first [] = pos ≡ raw_len
IsEntered raw_len pos first (o ∷ os) =
    (enter first o ≡ pos) × (pos ≤ offset_at raw_len 0 os) × IsAscending raw_len o os

length_snoc {ℓ} : {A : Type ℓ} (xs : List A) (x : A) → length (xs ++ (x ∷ [])) ≡ suc (length xs)
length_snoc [] x = refl
length_snoc (y ∷ xs) x = ap suc (length_snoc xs x)

pub first_offset :
    (raw_len from : ℕ) (os : List ℕ)
    → IsAscending raw_len from os
    → (from ≤ offset_at raw_len 0 os) × (offset_at raw_len 0 os ≤ raw_len)
first_offset raw_len from [] h = (h, omega arith)
first_offset raw_len from (o ∷ os) (h, hs) = (h, omega (arith, first_offset raw_len o os hs))

module _ (is_utf8 : Bool) (decode : Text → Text) where
  -- What was read, from the byte `start` on and in the lines behind the first `above` ones.
  abbrev pub IsRead : Text → ℕ → ℕ → Limits → Progress → Type 0
  IsRead raw above start limits p =
      (p.end_byte ≡ start + p.bytes_accumulated)
      × (p.end_byte ≤ length raw)
      × (p.bytes_accumulated ≤ limits.most_bytes)
      × (length p.lines ≤ limits.most_lines)
      × AreShown is_utf8 decode raw limits.max_line_width above start p.lines p.end_byte

  -- Where the loop ends: what was read, and all of it where the end of the file is the reason.
  pub record IsDone (raw : Text) (above start : ℕ) (limits : Limits) (q : Progress) : Type 0 where
    pub is_read : IsRead raw above start limits q
    pub is_all : q.stop_reason ≡ file_end → q.end_byte ≡ length raw

  stop-IsDone :
      (raw : Text) (above start : ℕ) (limits : Limits) (reason : StopReason) (p : Progress)
      → (reason ≡ file_end → ⊥)
      → IsRead raw above start limits p
      → IsDone raw above start limits (stop reason p)
  stop-IsDone raw above start limits reason p n h = record {
    is_read = h;
    is_all = λ e. elim (n e) [ ];
  }

  tested-IsDone :
      (raw : Text) (above start : ℕ) (limits : Limits)
      (no_budget no_room at_target cut_target cut_max : Bool) (p taken further : Progress)
      → IsRead raw above start limits p
      → (no_room ≡ false → IsRead raw above start limits taken)
      → (no_room ≡ false
          → cut_target ≡ false
          → cut_max ≡ false
          → IsDone raw above start limits further)
      → IsDone raw above start limits (
          if no_budget
          then stop max_bytes p
          else if no_room
          then stop max_lines p
          else if at_target
          then stop target_end p
          else if cut_target
          then stop target_end taken
          else if cut_max
          then stop max_bytes taken
          else further)
  tested-IsDone raw above start limits true r a t m p taken further h k l =
      stop-IsDone raw above start limits max_bytes p (λ e. cc) h
  tested-IsDone raw above start limits false true a t m p taken further h k l =
      stop-IsDone raw above start limits max_lines p (λ e. cc) h
  tested-IsDone raw above start limits false false true t m p taken further h k l =
      stop-IsDone raw above start limits target_end p (λ e. cc) h
  tested-IsDone raw above start limits false false false true m p taken further h k l =
      stop-IsDone raw above start limits target_end taken (λ e. cc) (k refl)
  tested-IsDone raw above start limits false false false false true p taken further h k l =
      stop-IsDone raw above start limits max_bytes taken (λ e. cc) (k refl)
  tested-IsDone raw above start limits false false false false false p taken further h k l =
      l refl refl refl

  stopping-IsDone :
      (raw : Text) (above start : ℕ) (limits : Limits) (from line_end : ℕ)
      (p taken further : Progress)
      → IsRead raw above start limits p
      → (leb limits.most_lines (length p.lines) ≡ false → IsRead raw above start limits taken)
      → (leb limits.most_lines (length p.lines) ≡ false
          → is_cut_by_target is_utf8 decode limits from line_end ≡ false
          → is_cut_by_max is_utf8 decode limits p from line_end ≡ false
          → IsDone raw above start limits further)
      → IsDone raw above start limits (stopping is_utf8 decode limits from line_end p taken further)
  unfolding stopping
  stopping-IsDone raw above start limits from line_end p taken further =
      tested-IsDone raw above start limits
        (nat_beq limits.most_bytes 0 || leb limits.most_bytes p.bytes_accumulated)
        (leb limits.most_lines (length p.lines))
        (nat_beq (consume_end is_utf8 decode limits p from line_end) from
          && is_cut_by_target is_utf8 decode limits from line_end)
        (is_cut_by_target is_utf8 decode limits from line_end)
        (is_cut_by_max is_utf8 decode limits p from line_end) p taken further

  target_cut_between :
      (t : Option ℕ) (from line_end : ℕ)
      → from ≤ line_end
      → (from ≤ target_cut t from line_end) × (target_cut t from line_end ≤ line_end)
  target_cut_between none from line_end h = ground (arith, h)
  target_cut_between (some t) from line_end h = ground (arith, h)

  take_line-IsRead :
      (raw : Text) (above start : ℕ) (limits : Limits) (idx : ℕ) (cut_short : Bool)
      (from line_end cut : ℕ) (p : Progress)
      → p.end_byte ≡ from
      → from ≤ line_end
      → line_end ≤ length raw
      → from ≤ cut
      → cut ≤ line_end
      → leb limits.most_lines (length p.lines) ≡ false
      → idx ≡ above + length p.lines
      → IsRead raw above start limits p
      → IsRead raw above start limits (
          take_line is_utf8 decode raw limits idx cut_short from
            (min (from + min (limits.most_bytes - p.bytes_accumulated) (line_end - from)) cut)
            p)
  take_line-IsRead raw above start limits idx cut_short from line_end cut p e h k c d l i
        (end, within, budget, few, shown) =
      let to = min (from + min (limits.most_bytes - p.bytes_accumulated) (line_end - from)) cut in
      let (forward, break) = display_end-IsBreak raw cut_short from to (ground (arith, h, c)) in
      (
        ground arith,
        ground arith,
        ground arith,
        rw (length_snoc p.lines _) (ground (arith, l)),
        AreShown-snoc is_utf8 decode raw limits.max_line_width above start from to p.lines _
            (subst (AreShown is_utf8 decode raw limits.max_line_width above start p.lines) e shown)
            (omega (arith, i)) (display_end raw cut_short from to, forward, break, refl),
      )

  -- A line that is not cut is consumed to its end.
  consumed :
      (limits : Limits) (p : Progress) (from line_end : ℕ)
      → from ≤ line_end
      → is_cut_by_target is_utf8 decode limits from line_end ≡ false
      → is_cut_by_max is_utf8 decode limits p from line_end ≡ false
      → line_end ≡ consume_end is_utf8 decode limits p from line_end
  consumed limits p from line_end h t m =
      ground (arith, h, t, m, target_cut_between limits.target_end_byte from line_end h)

  next-IsEntered :
      (raw_len line_start : ℕ) (starts : List ℕ)
      → IsAscending raw_len line_start starts
      → IsEntered raw_len (offset_at raw_len 0 starts) none starts
        × (offset_at raw_len 0 starts ≤ raw_len)
  next-IsEntered raw_len line_start [] h = (refl, omega arith)
  next-IsEntered raw_len line_start (o ∷ starts) (h, hs) = (
    (refl, (first_offset raw_len o starts hs).0, hs),
    omega (arith, first_offset raw_len o starts hs),
  )

  pub read_lines-IsDone :
      (raw : Text) (above start : ℕ) (limits : Limits) (idx : ℕ) (first : Option ℕ)
      (starts : List ℕ) (p : Progress)
      → p.stop_reason ≡ file_end
      → idx ≡ above + length p.lines
      → IsEntered (length raw) p.end_byte first starts
      → IsRead raw above start limits p
      → IsDone raw above start limits (read_lines is_utf8 decode raw limits idx first starts p)
  unfolding read_lines
  read_lines-IsDone raw above start limits idx first [] p f i e h = record {
    is_read = h;
    is_all = λ _. e;
  }
  read_lines-IsDone raw above start limits idx first (line_start ∷ starts) p f i
        (entered, before_end, ascending) h =
      let line_end = offset_at (length raw) 0 starts in
      let from = enter first line_start in
      let next = next-IsEntered (length raw) line_start starts ascending in
      let between =
        target_cut_between limits.target_end_byte from line_end
          (omega (arith, entered, before_end)) in
      let cut_short =
        is_cut_by_max is_utf8 decode limits p from line_end
        || is_cut_by_target is_utf8 decode limits from line_end in
      let taken =
        take_line is_utf8 decode raw limits idx cut_short from
          (consume_end is_utf8 decode limits p from line_end) p in
      let taken_IsRead : leb limits.most_lines (length p.lines) ≡ false
          → IsRead raw above start limits taken =
        λ room.
          take_line-IsRead raw above start limits idx cut_short from line_end
            (target_cut limits.target_end_byte from line_end) p (sym entered)
            (omega (arith, entered, before_end)) next.1 between.0 between.1 room i h in
      stopping-IsDone raw above start limits from line_end p taken _ h taken_IsRead
        (λ room target budget.
          read_lines-IsDone raw above start limits (suc idx) none starts taken f
            (rw (length_snoc p.lines _) (omega (arith, i)))
            (subst (λ pos. IsEntered (length raw) pos none starts)
              (consumed limits p from line_end (omega (arith, entered, before_end)) target budget)
              next.0)
            (taken_IsRead room))
