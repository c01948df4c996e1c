-- ===== src/FileManager/ReadText.antt =====
-- The handler of a text read, `handle_read_text` of crates/ahandd/src/file_manager/text_read.rs.
-- The encodings of `encoding_rs` and the detector of `chardetng` are parameters.
use a_hand.Base.{
  ℕ, ◌+◌, ◌-◌, Bool, true, false, ◌&&◌, ◌||◌, Option, none, some, List, [], length, drop, ltb, leb,
  if◌then◌else◌, ◌==◌,
}
use a_hand.Base.Text.{Text, text_eq, codes, is_empty}
use a_hand.Base.Map
use a_hand.FileManager.{
  not_found, is_a_directory, too_large, encoding, Result, ok, err, file_error, file, directory,
  symlink, Fs,
}
use a_hand.FileManager.Write.{min, lower}
use a_hand.FileManager.Reading.{
  StopReason, max_lines, file_end, Position, TextLine, compute_line_offsets_raw, offset_at,
  resolve_start_raw, resolve_position_raw, Progress, Limits, read_lines,
}

pub record FileReadText : Type 0 where
  pub path : Text
  pub start : Option Position
  pub max_lines : Option ℕ
  pub max_bytes : Option ℕ
  -- A target that is there may be without a position.
  pub target_end : Option (Option Position)
  pub max_line_width : Option ℕ
  pub encoding : Option Text
  pub no_follow_symlink : Bool

pub record PositionInfo : Type 0 where
  pub line : ℕ
  pub byte_in_file : ℕ
  pub byte_in_line : ℕ

pub record FileReadTextResult : Type 0 where
  pub lines : List TextLine
  pub stop_reason : StopReason
  pub start_pos : PositionInfo
  pub end_pos : PositionInfo
  pub remaining_bytes : ℕ
  pub total_file_bytes : ℕ
  pub total_lines : ℕ
  pub detected_encoding : Text

abbrev pub default_max_lines : ℕ
default_max_lines = 200

abbrev pub default_max_bytes : ℕ
default_max_bytes = 65536

abbrev pub default_max_line_width : ℕ
default_max_line_width = 500

abbrev pub unwrap_or {ℓ} : {A : Type ℓ} → A → Option A → A
unwrap_or a none = a
unwrap_or a (some b) = b

abbrev is_file_end : StopReason → Bool
is_file_end file_end = true
is_file_end _ = false

-- The limit on lines is the reason also where it was met at the end of the file.
unfoldable pub final_reason : ℕ → Progress → StopReason
final_reason most_lines p =
    if leb most_lines (length p.lines) && is_file_end p.stop_reason
    then max_lines
    else p.stop_reason

module _ {E : Type 0} (utf_8 : E) (is_utf_8 : E → Bool) (for_label : Text → Option E)
    (guess : Text → E) (name : E → Text) (decode : E → Text → Text)
    (is_valid_utf8 : Text → Bool) where
  unfoldable pub resolve_encoding : Text → Option Text → Text → Result E
  resolve_encoding raw none req_path = ok (if is_valid_utf8 raw then utf_8 else guess raw)
  resolve_encoding raw (some hint) req_path =
      if is_empty hint
      then ok (if is_valid_utf8 raw then utf_8 else guess raw)
      else if lower hint == codes "utf-8" || lower hint == codes "utf8"
      then ok utf_8
      else elim (for_label hint) [ none ↦ file_error encoding req_path | some e ↦ ok e ]

  abbrev pub limits_of : FileReadText → Text → ℕ → Limits
  limits_of req raw max_read_bytes = record {
    most_lines = unwrap_or default_max_lines req.max_lines;
    most_bytes = min (unwrap_or default_max_bytes req.max_bytes) max_read_bytes;
    max_line_width = unwrap_or default_max_line_width req.max_line_width;
    target_end_byte = elim req.target_end [
      | none ↦ none
      | some t ↦ some (resolve_position_raw t (compute_line_offsets_raw raw) (length raw))
    ];
  }

  abbrev pub begin : ℕ → ℕ → Progress
  begin start_byte start_line_idx = record {
    lines = [];
    bytes_accumulated = 0;
    stop_reason = file_end;
    end_byte = start_byte;
    end_line_idx = start_line_idx;
  }

  -- The loop, from the start that the request names.
  unfoldable pub progress : FileReadText → Text → ℕ → E → Progress
  unfolding read_lines resolve_start_raw resolve_position_raw compute_line_offsets_raw
  progress req raw max_read_bytes e =
      let offsets = compute_line_offsets_raw raw in
      let (start_byte, start_line_idx) = resolve_start_raw req.start offsets (length raw) in
      read_lines (is_utf_8 e) (decode e) raw (limits_of req raw max_read_bytes) start_line_idx
        (some start_byte) (drop start_line_idx offsets) (begin start_byte start_line_idx)

  unfoldable pub read_file : FileReadText → Text → ℕ → E → FileReadTextResult
  unfolding progress resolve_start_raw resolve_position_raw compute_line_offsets_raw final_reason
  read_file req raw max_read_bytes e =
      let offsets = compute_line_offsets_raw raw in
      let (start_byte, start_line_idx) = resolve_start_raw req.start offsets (length raw) in
      let done = progress req raw max_read_bytes e in
      record {
        lines = done.lines;
        stop_reason = final_reason (limits_of req raw max_read_bytes).most_lines done;
        start_pos = record {
          line = start_line_idx + 1;
          byte_in_file = start_byte;
          byte_in_line = start_byte - offset_at (length raw) start_line_idx offsets;
        };
        end_pos = record {
          line = done.end_line_idx + 1;
          byte_in_file = done.end_byte;
          byte_in_line = done.end_byte - offset_at (length raw) done.end_line_idx offsets;
        };
        remaining_bytes = length raw - done.end_byte;
        total_file_bytes = length raw;
        total_lines = length offsets;
        detected_encoding = name e;
      }

  -- The bytes of a regular file within the limit; a link at a resolved path leads nowhere.
  unfoldable pub load : Fs → FileReadText → Text → ℕ → Result Text
  load fs req resolved max_read_bytes = elim (Map.get resolved fs) [
    | none ↦ file_error not_found resolved
    | some directory ↦ file_error is_a_directory req.path
    | some symlink ↦
        if req.no_follow_symlink
        then file_error is_a_directory req.path
        else file_error not_found resolved
    | some (file raw) ↦
        if ltb max_read_bytes (length raw) then file_error too_large req.path else ok raw
  ]

  unfoldable pub handle_read_text : Fs → FileReadText → Text → ℕ → Result FileReadTextResult
  unfolding load resolve_encoding read_file
  handle_read_text fs req resolved max_read_bytes = elim (load fs req resolved max_read_bytes) [
    | err e ↦ err e
    | ok raw ↦ elim (resolve_encoding raw req.encoding req.path) [
      | err e ↦ err e
      | ok e ↦ ok (read_file req raw max_read_bytes e)
    ]
  ]
