-- ===== src/FileManager/Write.antt =====
-- Writing and editing files: crates/ahandd/src/file_manager/write_ops.rs. Parameters: whether bytes
-- are UTF-8. The files that a text is read from are those that are seen with links followed.
use a_hand.Base.{
  ℕ, suc, ◌+◌, ◌-◌, Bool, true, false, not, ◌&&◌, ◌||◌, Option, none, some, List, [], ◌∷◌, ◌++◌,
  length, drop, ltb, leb, nat_beq, if◌then◌else◌, ◌==◌, u32,
}
use a_hand.Base.Text.{Text, text_eq, codes}
use a_hand.Base.Map
use a_hand.FileManager.{
  unspecified, not_found, is_a_directory, too_large, invalid_path, io, multiple_matches, Result, ok,
  err, file_error, Node, file, directory, symlink, Fs, StringReplace, LineRangeReplace,
  ByteRangeReplace,
}
use a_hand.FileManager.Replace.{matches, replace, replacen_once}
use a_hand.FileManager.Lines.{split_inclusive, concat, take, ends_with_newline, line_at}

pub data Source : Type 0 where
  content : Text → Source
  s3_object_key : Text → Source

pub record FullWrite : Type 0 where
  pub source : Option Source
  pub s3_download_url : Option Text

pub data WriteMethod : Type 0 where
  full_write : FullWrite → WriteMethod
  append : Text → WriteMethod
  string_replace : StringReplace → WriteMethod
  line_range_replace : LineRangeReplace → WriteMethod
  byte_range_replace : ByteRangeReplace → WriteMethod

pub record FileWrite : Type 0 where
  pub path : Text
  pub create_parents : Bool
  pub method : Option WriteMethod
  pub encoding : Option Text
  pub no_follow_symlink : Bool

pub data EditMethod : Type 0 where
  string_replace : StringReplace → EditMethod
  line_range_replace : LineRangeReplace → EditMethod
  byte_range_replace : ByteRangeReplace → EditMethod

pub record FileEdit : Type 0 where
  pub path : Text
  pub method : Option EditMethod
  pub encoding : Option Text
  pub no_follow_symlink : Bool

pub data WriteAction : Type 0 where
  created overwritten appended edited : WriteAction

pub record FileWriteResult : Type 0 where
  pub path : Text
  pub action : WriteAction
  pub bytes_written : ℕ
  pub final_size : ℕ
  pub replacements_made : Option ℕ

pub record FileEditResult : Type 0 where
  pub path : Text
  pub final_size : ℕ
  pub replacements_made : Option ℕ
  pub match_error : Bool

-- ASCII letters in lower case.
abbrev pub lower : Text → Text
lower [] = []
lower (c ∷ s) = (if leb 65 c && leb c 90 then c + 32 else c) ∷ lower s

unfoldable pub ensure_encoding_supported : Option Text → Bool
ensure_encoding_supported none = true
ensure_encoding_supported (some e) =
    e == [] || (lower e == codes "utf-8" || lower e == codes "utf8")

-- `metadata().len()`, where the file is there to be measured.
abbrev pub size_of : Option Node → Option ℕ
size_of none = none
size_of (some (file s)) = some (length s)
size_of (some directory) = none
size_of (some symlink) = none

abbrev pub size_or_zero : Option ℕ → ℕ
size_or_zero none = 0
size_or_zero (some n) = n

abbrev pub is_oversized : Option ℕ → ℕ → Bool
is_oversized none max = false
is_oversized (some n) max = ltb max n

-- `read`.
unfoldable pub read : Fs → Text → Result Text
read fs path = elim (Map.get path fs) [
  | none ↦ file_error not_found path
  | some (file s) ↦ ok s
  | some directory ↦ file_error is_a_directory path
  | some symlink ↦ file_error io path
]

-- `u64::saturating_add`.
abbrev pub saturating_add : ℕ → ℕ → ℕ
saturating_add a b = if leb 18446744073709551616 (a + b) then 18446744073709551615 else a + b

abbrev pub and_then {ℓ κ} : {A : Type ℓ} {B : Type κ} → Result A → (A → Result B) → Result B
and_then (ok a) f = f a
and_then (err e) f = err e

-- The block that stands in for the lines, with the newline of the last one that it replaces.
unfoldable pub new_block : Text → Text → Text
unfolding ends_with_newline
new_block last new_content =
    if ends_with_newline last && not (ends_with_newline new_content)
    then new_content ++ (10 ∷ [])
    else new_content

abbrev pub min : ℕ → ℕ → ℕ
min a b = if leb a b then a else b

unfoldable pub splice_lines : ℕ → ℕ → Text → List Text → Text
unfolding new_block
splice_lines start end new_content lines =
    concat (take start lines ++ (new_block (line_at end lines) new_content ∷ drop (suc end) lines))

module _ (is_utf8 : Text → Bool) where
  -- `read_to_string`: other bytes than UTF-8 are an error of input and output.
  unfoldable pub read_to_string : Fs → Text → Result Text
  unfolding read
  read_to_string fs path =
      and_then (read fs path) (λ s. if is_utf8 s then ok s else file_error io path)

  unfoldable pub apply_string_replace : Fs → Text → Text → StringReplace → ℕ → Result (Text × ℕ)
  unfolding read_to_string
  apply_string_replace fs req_path resolved sr max =
      if is_oversized (size_of (Map.get resolved fs)) max
      then file_error too_large req_path
      else and_then (read_to_string fs resolved) (λ existing.
        let count = u32 (matches sr.old_string existing) in
        if nat_beq count 0
        then file_error not_found req_path
        else if ltb 1 count && not sr.replace_all
        then file_error multiple_matches req_path
        else ok (
          if sr.replace_all
              then replace sr.old_string sr.new_string existing
              else replacen_once sr.old_string sr.new_string existing,
          count,
        ))

  unfoldable pub apply_line_range_replace : Fs → Text → Text → LineRangeReplace → ℕ → Result Text
  unfolding read_to_string splice_lines
  apply_line_range_replace fs req_path resolved lr max =
      if nat_beq lr.start_line 0 || (nat_beq lr.end_line 0 || ltb lr.end_line lr.start_line)
      then file_error unspecified req_path
      else if is_oversized (size_of (Map.get resolved fs)) max
      then file_error too_large req_path
      else and_then (read_to_string fs resolved) (λ existing.
        let lines = split_inclusive existing in
        if leb (length lines) (lr.start_line - 1)
        then file_error unspecified req_path
        else ok (
            splice_lines (lr.start_line - 1) (min (lr.end_line - 1) (length lines - 1))
              lr.new_content lines))

unfoldable pub splice_bytes : ℕ → ℕ → Text → Text → Text
splice_bytes start end new_content existing =
    take start existing ++ (new_content ++ drop end existing)

unfoldable pub apply_byte_range_replace : Fs → Text → Text → ByteRangeReplace → ℕ → Result Text
unfolding read splice_bytes
apply_byte_range_replace fs req_path resolved br max =
    if is_oversized (size_of (Map.get resolved fs)) max
    then file_error too_large req_path
    else and_then (read fs resolved) (λ existing.
      if leb 18446744073709551616 (br.byte_offset + br.byte_length)
      then file_error invalid_path req_path
      else if ltb (length existing) br.byte_offset
          || ltb (length existing) (br.byte_offset + br.byte_length)
      then file_error unspecified req_path
      else ok
          (splice_bytes br.byte_offset (br.byte_offset + br.byte_length) br.new_content existing))
