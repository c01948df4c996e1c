-- ===== src/FileManager/Covered.antt =====
-- What the answer to a text read covers of the file.
use a_hand.Base.{ℕ, ◌+◌, ◌-◌, ◌≤◌, ◌≡◌, Bool, length}
use a_hand.Base.Text.{Text, text_eq}
use a_hand.Base.Map
use a_hand.FileManager.Write.{min}
use a_hand.FileManager.Reading.{max_lines, file_end}
use a_hand.FileManager.Reading.Shown.{AreShown}
use a_hand.FileManager.ReadText.{
  FileReadText, FileReadTextResult, default_max_lines, default_max_bytes, default_max_line_width,
  unwrap_or,
}

-- A stretch of the file within the limits, with what is left of the file counted, and shown by the
-- lines: they follow each other with no gap from the start to the end, are numbered from the line of
-- the start on, and each is what it spans but for its line break, decoded and cut to the width.
pub record IsCovered (is_utf8 : Bool) (decode : Text → Text) (req : FileReadText) (raw : Text)
    (max_read_bytes : ℕ) (r : FileReadTextResult) : Type 0 where
  pub is_shown :
      AreShown is_utf8 decode raw
        (unwrap_or default_max_line_width req.max_line_width)
        (r.start_pos.line - 1)
        r.start_pos.byte_in_file
        r.lines
        r.end_pos.byte_in_file
  pub is_forward : r.start_pos.byte_in_file ≤ r.end_pos.byte_in_file
  pub is_within_bytes :
      r.end_pos.byte_in_file
      ≤ r.start_pos.byte_in_file + min (unwrap_or default_max_bytes req.max_bytes) max_read_bytes
  pub is_within_lines : length r.lines ≤ unwrap_or default_max_lines req.max_lines
  pub is_counted : r.end_pos.byte_in_file + r.remaining_bytes ≡ r.total_file_bytes
  pub is_total : r.total_file_bytes ≡ length raw
  pub is_complete : r.stop_reason ≡ file_end → r.remaining_bytes ≡ 0
