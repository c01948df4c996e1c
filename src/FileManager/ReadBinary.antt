-- ===== src/FileManager/ReadBinary.antt =====
-- Reading bytes of a file, `handle_read_binary` of crates/ahandd/src/file_manager/binary_read.rs.
-- How many bytes the operating system hands on at once is a parameter, by how much of the file is
-- left.
pub mod Whole
use a_hand.Base.{
  ℕ, zero, suc, ◌+◌, ◌-◌, Bool, true, false, Option, none, some, List, [], ◌∷◌, ◌++◌, length, drop,
  leb, nat_beq, if◌then◌else◌,
}
use a_hand.Base.Text.{Text, text_eq}
use a_hand.Base.Map
use a_hand.FileManager.{
  not_found, is_a_directory, Result, ok, err, file_error, Node, file, directory, symlink, Fs,
}
use a_hand.FileManager.Lines.{take}
use a_hand.FileManager.Write.{min}
use a_hand.FileManager.ReadText.{unwrap_or}

pub record FileReadBinary : Type 0 where
  pub path : Text
  pub byte_offset : ℕ
  pub byte_length : ℕ
  pub max_bytes : Option ℕ
  pub no_follow_symlink : Bool

-- The result; it never carries a URL for downloading.
pub record FileReadBinaryResult : Type 0 where
  pub content : Text
  pub byte_offset : ℕ
  pub bytes_read : ℕ
  pub total_file_bytes : ℕ
  pub remaining_bytes : ℕ

abbrev pub default_binary_max : ℕ
default_binary_max = 1048576

-- How many bytes are asked for.
abbrev pub requested_length : FileReadBinary → ℕ → ℕ → ℕ
requested_length req total max_read_bytes =
    let available = total - req.byte_offset in
    min (if nat_beq req.byte_length 0 then available else min req.byte_length available)
      (min (unwrap_or default_binary_max req.max_bytes) max_read_bytes)

module _ (amount : ℕ → ℕ) where
  -- The loop that fills the buffer, over what is left of the file; each turn but the last one reads
  -- a byte at least, so that as much fuel as bytes are wanted is enough.
  unfoldable pub fill : ℕ → Text → ℕ → Text
  unfolding take
  fill zero rest wanted = []
  fill (suc fuel) rest wanted =
      let n = min (amount (length rest)) (min wanted (length rest)) in
      let further = fill fuel (drop n rest) (wanted - n) in
      if nat_beq wanted 0 then [] else if nat_beq n 0 then [] else take n rest ++ further

  unfoldable pub read_bytes : FileReadBinary → Text → ℕ → FileReadBinaryResult
  unfolding fill
  read_bytes req raw max_read_bytes =
      let content =
        fill (requested_length req (length raw) max_read_bytes) (drop req.byte_offset raw)
          (requested_length req (length raw) max_read_bytes) in
      if leb (length raw) req.byte_offset
      then record {
        content = [];
        byte_offset = req.byte_offset;
        bytes_read = 0;
        total_file_bytes = length raw;
        remaining_bytes = 0;
      }
      else record {
        content = content;
        byte_offset = req.byte_offset;
        bytes_read = length content;
        total_file_bytes = length raw;
        remaining_bytes = length raw - (req.byte_offset + length content);
      }

  -- A link at a resolved path leads nowhere.
  unfoldable pub handle_read_binary : Fs → FileReadBinary → Text → ℕ → Result FileReadBinaryResult
  unfolding read_bytes
  handle_read_binary fs req resolved max_read_bytes = elim (Map.get resolved fs) [
    | none ↦ file_error not_found resolved
    | some directory ↦ file_error is_a_directory req.path
    | some symlink ↦
        if req.no_follow_symlink
        then file_error is_a_directory req.path
        else file_error not_found resolved
    | some (file raw) ↦ ok (read_bytes req raw max_read_bytes)
  ]
