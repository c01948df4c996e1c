-- ===== src/FileManager/Reading.antt =====
-- Reading a text file in pieces: crates/ahandd/src/file_manager/text_read.rs. The encodings and
-- their decoders are a parameter.
pub mod Shown
pub mod Contiguous
pub mod Entered
use a_hand.Base.{
  ℕ, zero, suc, ◌+◌, ◌-◌, Bool, true, false, not, ◌&&◌, ◌||◌, Option, none, some, List, [], ◌∷◌,
  ◌++◌, length, drop, ltb, leb, nat_beq, if◌then◌else◌, u32, u64,
}
use a_hand.Base.Text.{Text}
use a_hand.FileManager.Write.{min}

pub data StopReason : Type 0 where
  unspecified max_lines max_bytes target_end file_end error : StopReason

pub record LineCol : Type 0 where
  pub line : ℕ
  pub col : ℕ

pub data Position : Type 0 where
  at_line at_byte : ℕ → Position
  at_line_col : LineCol → Position

pub record TextLine : Type 0 where
  pub content : Text
  pub line_number : ℕ
  pub truncated : Bool
  pub remaining_bytes : ℕ

abbrev pub max : ℕ → ℕ → ℕ
max a b = if leb a b then b else a

-- The starts of the lines behind the first one, `i` bytes having been passed.
unfoldable pub starts_from : ℕ → Text → List ℕ
starts_from i [] = []
starts_from i (b ∷ []) = []
starts_from i (b ∷ c ∷ rest) =
    let further = starts_from (suc i) (c ∷ rest) in
    if nat_beq b 10 then suc i ∷ further else further

unfoldable pub compute_line_offsets_raw : Text → List ℕ
unfolding starts_from
compute_line_offsets_raw [] = []
compute_line_offsets_raw (b ∷ rest) = 0 ∷ starts_from 0 (b ∷ rest)

-- `offsets.get(idx).copied().unwrap_or(raw_len)`.
abbrev pub offset_at : ℕ → ℕ → List ℕ → ℕ
offset_at raw_len idx [] = raw_len
offset_at raw_len zero (o ∷ os) = o
offset_at raw_len (suc idx) (o ∷ os) = offset_at raw_len idx os

-- Where `binary_search` stops in a sorted list.
abbrev pub insertion_point : List ℕ → ℕ → ℕ
insertion_point [] byte = 0
insertion_point (o ∷ os) byte =
    let further = insertion_point os byte in if ltb o byte then suc further else 0

unfoldable pub line_index_for_byte : ℕ → List ℕ → ℕ → ℕ
line_index_for_byte raw_len offsets byte =
    let idx = insertion_point offsets byte in
    if ltb idx (length offsets) && nat_beq (offset_at raw_len idx offsets) byte
    then idx
    else idx - 1

-- A byte and the index of its line.
unfoldable pub resolve_start_raw : Option Position → List ℕ → ℕ → ℕ × ℕ
unfolding line_index_for_byte
resolve_start_raw none offsets raw_len = (0, 0)
resolve_start_raw (some (at_line line)) offsets raw_len =
    let idx = min (line - 1) (length offsets) in (offset_at raw_len idx offsets, idx)
resolve_start_raw (some (at_byte b)) offsets raw_len =
    let byte = min b raw_len in (byte, line_index_for_byte raw_len offsets byte)
resolve_start_raw (some (at_line_col lc)) offsets raw_len =
    let idx = min (lc.line - 1) (length offsets) in
    (min (u64 (offset_at raw_len idx offsets + lc.col)) (offset_at raw_len (suc idx) offsets), idx)

-- A target without a position is the end of the file.
unfoldable pub resolve_position_raw : Option Position → List ℕ → ℕ → ℕ
resolve_position_raw none offsets raw_len = raw_len
resolve_position_raw (some (at_line line)) offsets raw_len =
    offset_at raw_len (min (line - 1) (length offsets)) offsets
resolve_position_raw (some (at_byte b)) offsets raw_len = min b raw_len
resolve_position_raw (some (at_line_col lc)) offsets raw_len =
    let idx = min (lc.line - 1) (length offsets) in
    min (u64 (offset_at raw_len idx offsets + lc.col)) (offset_at raw_len (suc idx) offsets)

-- `&raw[start..end]`.
abbrev pub slice : ℕ → ℕ → Text → Text
slice start zero s = []
slice start (suc end) [] = []
slice zero (suc end) (c ∷ s) = c ∷ slice zero end s
slice (suc start) (suc end) (c ∷ s) = slice start end s

abbrev pub byte_at : ℕ → Text → Option ℕ
byte_at i [] = none
byte_at zero (c ∷ s) = some c
byte_at (suc i) (c ∷ s) = byte_at i s

abbrev pub is_byte : ℕ → Option ℕ → Bool
is_byte b none = false
is_byte b (some c) = nat_beq c b

-- Where the shown part of a line ends: in front of its line break.
unfoldable pub display_end : Text → Bool → ℕ → ℕ → ℕ
display_end raw cut_short effective_start consume_end =
    if not cut_short
      && (ltb effective_start consume_end && is_byte 10 (byte_at (consume_end - 1) raw))
    then if ltb effective_start (consume_end - 1) && is_byte 13 (byte_at (consume_end - 2) raw)
      then consume_end - 2
      else consume_end - 1
    else consume_end

-- What the loop of `handle_read_text` keeps.
pub record Progress : Type 0 where
  pub lines : List TextLine
  pub bytes_accumulated : ℕ
  pub stop_reason : StopReason
  pub end_byte : ℕ
  pub end_line_idx : ℕ

pub record Limits : Type 0 where
  pub most_lines : ℕ
  pub most_bytes : ℕ
  pub max_line_width : ℕ
  pub target_end_byte : Option ℕ

abbrev pub stop : StopReason → Progress → Progress
stop reason p = record {
  lines = p.lines;
  bytes_accumulated = p.bytes_accumulated;
  stop_reason = reason;
  end_byte = p.end_byte;
  end_line_idx = p.end_line_idx;
}

abbrev pub target_cut : Option ℕ → ℕ → ℕ → ℕ
target_cut none effective_start line_end = line_end
target_cut (some t) effective_start line_end = min (max t effective_start) line_end

-- `(b & 0xC0) == 0x80`.
abbrev is_continuation : Option ℕ → Bool
is_continuation none = false
is_continuation (some b) = leb 128 b && ltb b 192

-- The first line may be entered behind its start.
abbrev pub enter : Option ℕ → ℕ → ℕ
enter none line_start = line_start
enter (some start_byte) line_start = max start_byte line_start

module _ (is_utf8 : Bool) (decode : Text → Text) where
  -- A cut is moved back to the start of a character.
  unfoldable pub char_start : Text → ℕ → ℕ
  char_start raw_line zero = zero
  char_start raw_line (suc cut) =
      let further = char_start raw_line cut in
      if is_continuation (byte_at (suc cut) raw_line) then further else suc cut

  unfoldable pub truncate_line : Text → ℕ → Text × Bool × ℕ
  unfolding char_start
  truncate_line raw_line max_width =
      if nat_beq max_width 0 || leb (length raw_line) max_width
      then (decode raw_line, false, 0)
      else (let cut = if is_utf8 then char_start raw_line max_width else max_width in
          (decode (slice 0 cut raw_line), true, u32 (length raw_line - cut)))

  -- What a line adds, which is consumed from `effective_start` up to `consume_end`.
  abbrev pub take_line : Text → Limits → ℕ → Bool → ℕ → ℕ → Progress → Progress
  take_line raw limits idx cut_short effective_start consume_end p =
      let (content, truncated, remaining) =
        truncate_line
          (slice effective_start (display_end raw cut_short effective_start consume_end) raw)
          limits.max_line_width in
      record {
        lines =
            p.lines
            ++ (record {
              content = content;
              line_number = suc idx;
              truncated = truncated;
              remaining_bytes = remaining;
            }
                ∷ []);
        bytes_accumulated = p.bytes_accumulated + (consume_end - effective_start);
        stop_reason = p.stop_reason;
        end_byte = consume_end;
        end_line_idx = idx;
      }

  -- The end of what is consumed of a line.
  abbrev pub consume_end : Limits → Progress → ℕ → ℕ → ℕ
  consume_end limits p from line_end =
      min (from + min (limits.most_bytes - p.bytes_accumulated) (line_end - from))
        (target_cut limits.target_end_byte from line_end)

  abbrev pub is_cut_by_max : Limits → Progress → ℕ → ℕ → Bool
  is_cut_by_max limits p from line_end =
      ltb (from + min (limits.most_bytes - p.bytes_accumulated) (line_end - from)) line_end

  abbrev pub is_cut_by_target : Limits → ℕ → ℕ → Bool
  is_cut_by_target limits from line_end =
      ltb (target_cut limits.target_end_byte from line_end) line_end

  -- The stops in front of a line and behind it, and else what comes of the lines that follow.
  unfoldable pub stopping : Limits → ℕ → ℕ → Progress → Progress → Progress → Progress
  stopping limits from line_end p taken further =
      if nat_beq limits.most_bytes 0 || leb limits.most_bytes p.bytes_accumulated
      then stop max_bytes p
      else if leb limits.most_lines (length p.lines)
      then stop max_lines p
      else if nat_beq (consume_end limits p from line_end) from
          && is_cut_by_target limits from line_end
      then stop target_end p
      else if is_cut_by_target limits from line_end
      then stop target_end taken
      else if is_cut_by_max limits p from line_end
      then stop max_bytes taken
      else further

  -- The loop over the starts of the lines from `idx` on; `first` is where the first of them is
  -- entered, and nothing for those behind it.
  unfoldable pub read_lines : Text → Limits → ℕ → Option ℕ → List ℕ → Progress → Progress
  unfolding truncate_line display_end stopping
  read_lines raw limits idx first [] p = p
  read_lines raw limits idx first (line_start ∷ starts) p =
      let line_end = offset_at (length raw) 0 starts in
      let from = enter first line_start in
      let cut_short =
        is_cut_by_max limits p from line_end || is_cut_by_target limits from line_end in
      let taken = take_line raw limits idx cut_short from (consume_end limits p from line_end) p in
      stopping limits from line_end p taken (read_lines raw limits (suc idx) none starts taken)
