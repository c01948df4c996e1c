-- ===== src/FileManager/Handlers.antt =====
-- The handlers of write and edit requests: crates/ahandd/src/file_manager/write_ops.rs, with
-- `reject_if_final_component_is_symlink` of crates/ahandd/src/file_manager/mod.rs. `os` is the
-- operating system and `fetch` the download of an S3 object.
use a_hand.Base.{
  ℕ, Bool, true, false, not, ◌&&◌, Option, none, some, length, ltb, nat_beq, if◌then◌else◌, u32,
}
use a_hand.Base.Text.{Text, text_eq}
use a_hand.Base.Map
use a_hand.FileManager.{
  FileErrorCode, unspecified, not_found, is_a_directory, too_large, invalid_path, io, encoding,
  Result, ok, err, file_error, Node, file, directory, symlink, Fs, StringReplace,
}
use a_hand.FileManager.Os.{is_symlink, is_dir, Os, stat, seen}
use a_hand.FileManager.Replace.{matches, replace, replacen_once}
use a_hand.FileManager.Write.{
  content, s3_object_key, FullWrite, WriteMethod, full_write, append, string_replace,
  line_range_replace, byte_range_replace, FileWrite, EditMethod, FileEdit, WriteAction, created,
  overwritten, appended, edited, FileWriteResult, FileEditResult, ensure_encoding_supported,
  size_of, size_or_zero, is_oversized, saturating_add, read_to_string, apply_string_replace,
  apply_line_range_replace, apply_byte_range_replace,
}

-- Whether `reject_if_final_component_is_symlink` rejects.
unfoldable pub is_rejected : Fs → Text → Bool → Bool
is_rejected fs resolved no_follow_symlink = no_follow_symlink && is_symlink (Map.get resolved fs)

-- `try_exists` with an error taken for `false`, as where links run in a circle.
abbrev pub is_there : Option Node → Bool
is_there none = false
is_there (some (file s)) = true
is_there (some directory) = true
is_there (some symlink) = false

-- The answer to a call that came back with an error or with none.
abbrev pub answer {ℓ} : {R : Type ℓ} → Text → Fs × Option FileErrorCode → R → Fs × Result R
answer path (fs, none) result = (fs, ok result)
answer path (fs, some code) result = (fs, file_error code path)

module _ (is_utf8 : Text → Bool) (os : Os) where
  -- `tokio::fs::write`, and what the handler then answers.
  abbrev pub write {ℓ} : {R : Type ℓ} → Fs → Text → Text → R → Fs × Result R
  write fs resolved bytes result = answer resolved (os.write_file fs resolved bytes) result

  -- `enforce_size_limit` and then the write.
  unfoldable pub write_limited {ℓ} : {R : Type ℓ} → Fs → Text → Text → ℕ → Text → R → Fs × Result R
  write_limited fs req_path resolved max bytes result =
      if ltb max (length bytes)
      then (fs, file_error too_large req_path)
      else write fs resolved bytes result

  abbrev pub written : Text → WriteAction → Text → Option ℕ → FileWriteResult
  written resolved action bytes replacements = record {
    path = resolved;
    action = action;
    bytes_written = length bytes;
    final_size = length bytes;
    replacements_made = replacements;
  }

  abbrev pub edit_done : Text → Text → Option ℕ → FileEditResult
  edit_done resolved bytes replacements = record {
    path = resolved;
    final_size = length bytes;
    replacements_made = replacements;
    match_error = false;
  }

  -- A step that has failed already changes nothing.
  abbrev pub with_bytes {ℓ κ} :
      {A : Type ℓ} {R : Type κ} → Fs → Result A → (A → Fs × Result R) → Fs × Result R
  with_bytes fs (ok a) f = f a
  with_bytes fs (err e) f = (fs, err e)

  -- The directories above a path, where they are asked for; an error names the directory.
  unfoldable pub make_parents : Bool → Fs → Text → Fs × Result (Unit {0})
  make_parents create_parents fs resolved =
      if not create_parents then (fs, ok tt) else elim (os.parent resolved) [
        | none ↦ (fs, ok tt)
        | some parent ↦ answer parent (os.create_dir_all fs parent) tt
      ]

  abbrev pub after_parents {ℓ} :
      {R : Type ℓ} → Fs × Result (Unit {0}) → (Fs → Fs × Result R) → Fs × Result R
  after_parents (fs, err e) f = (fs, err e)
  after_parents (fs, ok _) f = f fs

  module _ (fetch : Text → ℕ → Text → Result Text) where
    unfoldable pub full_write_bytes : Text → FullWrite → ℕ → Result Text
    full_write_bytes req_path fw max = elim fw.source [
      | none ↦ file_error unspecified req_path
      | some (content c) ↦ if ltb max (length c) then file_error too_large req_path else ok c
      | some (s3_object_key key) ↦ elim fw.s3_download_url [
        | none ↦ file_error unspecified req_path
        | some url ↦ fetch url max req_path
      ]
    ]

    unfoldable pub handle_full_write :
        Fs → Text → Text → FullWrite → ℕ → Fs × Result FileWriteResult
    unfolding full_write_bytes write_limited
    handle_full_write fs req_path resolved fw max =
        with_bytes fs (full_write_bytes req_path fw max) (λ bytes.
          write_limited fs req_path resolved max bytes (
            written resolved (if is_there (stat os fs resolved) then overwritten else created) bytes
              none))

    -- The size that is measured behind an append.
    abbrev pub appended_to : Text → Text → Fs × Option FileErrorCode → Fs × Result FileWriteResult
    appended_to resolved added (fs, some code) = (fs, file_error code resolved)
    appended_to resolved added (fs, none) = elim (size_of (stat os fs resolved)) [
      | none ↦ (fs, file_error io resolved)
      | some size ↦ (
        fs,
        ok (record {
          path = resolved;
          action = appended;
          bytes_written = length added;
          final_size = size;
          replacements_made = none;
        }),
      )
    ]

    unfoldable pub handle_append : Fs → Text → Text → Text → ℕ → Fs × Result FileWriteResult
    handle_append fs req_path resolved added max =
        if ltb max (saturating_add (size_or_zero (size_of (stat os fs resolved))) (length added))
        then (fs, file_error too_large req_path)
        else appended_to resolved added (os.append_file fs resolved added)

    unfoldable pub handle_method : Fs → Text → Text → WriteMethod → ℕ → Fs × Result FileWriteResult
    unfolding handle_full_write handle_append write_limited apply_string_replace
        apply_line_range_replace apply_byte_range_replace
    handle_method fs req_path resolved (full_write fw) max =
        handle_full_write fs req_path resolved fw max
    handle_method fs req_path resolved (append added) max =
        handle_append fs req_path resolved added max
    handle_method fs req_path resolved (string_replace sr) max =
        with_bytes fs (apply_string_replace is_utf8 (seen os fs resolved) req_path resolved sr max)
          (λ (bytes, count).
            write_limited fs req_path resolved max bytes
              (written resolved edited bytes (some count)))
    handle_method fs req_path resolved (line_range_replace lr) max =
        with_bytes fs
          (apply_line_range_replace is_utf8 (seen os fs resolved) req_path resolved lr max)
          (λ bytes.
            write_limited fs req_path resolved max bytes (written resolved edited bytes none))
    handle_method fs req_path resolved (byte_range_replace br) max =
        with_bytes fs (apply_byte_range_replace (seen os fs resolved) req_path resolved br max)
          (λ bytes.
            write_limited fs req_path resolved max bytes (written resolved edited bytes none))

    unfoldable pub handle_write : Fs → FileWrite → Text → ℕ → Fs × Result FileWriteResult
    unfolding is_rejected handle_method make_parents
    handle_write fs req resolved max =
        if not (ensure_encoding_supported req.encoding)
        then (fs, file_error encoding req.path)
        else if is_rejected fs resolved req.no_follow_symlink
        then (fs, file_error invalid_path req.path)
        else elim req.method [
          | none ↦ (fs, file_error unspecified req.path)
          | some method ↦
              after_parents (make_parents req.create_parents fs resolved)
                (λ fs'. handle_method fs' req.path resolved method max)
        ]

  -- A match error is an answer, and not an error, of an edit.
  abbrev pub no_edit : Text → Text → FileEditResult
  no_edit resolved existing = record {
    path = resolved;
    final_size = length existing;
    replacements_made = some 0;
    match_error = true;
  }

  unfoldable pub handle_string_replace_edit :
      Fs → Text → Text → StringReplace → ℕ → Fs × Result FileEditResult
  unfolding read_to_string write_limited
  handle_string_replace_edit fs req_path resolved sr max =
      if is_oversized (size_of (Map.get resolved (seen os fs resolved))) max
      then (fs, file_error too_large req_path)
      else with_bytes fs (read_to_string is_utf8 (seen os fs resolved) resolved) (λ existing.
        let count = u32 (matches sr.old_string existing) in
        if nat_beq count 0
        then (fs, ok (no_edit resolved existing))
        else if ltb 1 count && not sr.replace_all
        then (fs, ok (no_edit resolved existing))
        else (let updated =
              if sr.replace_all
              then replace sr.old_string sr.new_string existing
              else replacen_once sr.old_string sr.new_string existing in
            write_limited fs req_path resolved max updated
              (edit_done resolved updated (some count))))

  unfoldable pub handle_edit_method : Fs → Text → Text → EditMethod → ℕ → Fs × Result FileEditResult
  unfolding handle_string_replace_edit write_limited apply_line_range_replace
      apply_byte_range_replace
  handle_edit_method fs req_path resolved (EditMethod.string_replace sr) max =
      handle_string_replace_edit fs req_path resolved sr max
  handle_edit_method fs req_path resolved (EditMethod.line_range_replace lr) max =
      with_bytes fs
        (apply_line_range_replace is_utf8 (seen os fs resolved) req_path resolved lr max)
        (λ bytes. write_limited fs req_path resolved max bytes (edit_done resolved bytes none))
  handle_edit_method fs req_path resolved (EditMethod.byte_range_replace br) max =
      with_bytes fs (apply_byte_range_replace (seen os fs resolved) req_path resolved br max)
        (λ bytes. write_limited fs req_path resolved max bytes (edit_done resolved bytes none))

  unfoldable pub handle_edit : Fs → FileEdit → Text → ℕ → Fs × Result FileEditResult
  unfolding is_rejected handle_edit_method
  handle_edit fs req resolved max =
      if not (ensure_encoding_supported req.encoding)
      then (fs, file_error encoding req.path)
      else if is_rejected fs resolved req.no_follow_symlink
      then (fs, file_error invalid_path req.path)
      else if not (is_there (stat os fs resolved))
      then (fs, file_error not_found req.path)
      else if is_dir (stat os fs resolved)
      then (fs, file_error is_a_directory req.path)
      else elim req.method [
        | none ↦ (fs, file_error unspecified req.path)
        | some method ↦ handle_edit_method fs req.path resolved method max
      ]
