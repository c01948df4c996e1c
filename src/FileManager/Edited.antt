-- ===== src/FileManager/Edited.antt =====
-- Editing a file and writing it by the same method do the same to the files.
use a_hand.Base.{
  ℕ, ◌≡◌, refl, Bool, true, false, not, ◌&&◌, Option, none, some, length, arith, ltb, nat_beq,
  if◌then◌else◌, Bool-cases, inl, inr, u32,
}
use a_hand.Base.Text.{Text, text_eq}
use a_hand.Base.Map
use a_hand.FileManager.{
  Result-cases, FileErrorCode, FileError, Result, ok, err, Fs, file, StringReplace,
}
use a_hand.FileManager.Os.{Os, stat, seen}
use a_hand.FileManager.Replace.{matches}
use a_hand.FileManager.Write.{
  WriteMethod, string_replace, line_range_replace, byte_range_replace, EditMethod, size_of,
  is_oversized, read_to_string, apply_string_replace, apply_line_range_replace,
  apply_byte_range_replace,
}
use a_hand.FileManager.Handlers.{
  is_rejected, answer, write_limited, with_bytes, make_parents, handle_method, handle_write,
  handle_string_replace_edit, handle_edit_method, handle_edit,
}

abbrev pub as_write : EditMethod → WriteMethod
as_write (EditMethod.string_replace sr) = string_replace sr
as_write (EditMethod.line_range_replace lr) = line_range_replace lr
as_write (EditMethod.byte_range_replace br) = byte_range_replace br

module _ (is_utf8 : Text → Bool) (os : Os) (fs : Fs) (resolved : Text) (max : ℕ) where
  answer_same :
      {Q R : Type 0} (called : Fs × Option FileErrorCode) (q : Q) (r : R)
      → (answer resolved called q).0 ≡ (answer resolved called r).0
  answer_same (fs', none) q r = refl
  answer_same (fs', some code) q r = refl

  write_limited_same :
      {Q R : Type 0} (req_path bytes : Text) (q : Q) (r : R)
      → (write_limited is_utf8 os fs req_path resolved max bytes q).0
        ≡ (write_limited is_utf8 os fs req_path resolved max bytes r).0
  unfolding write_limited
  write_limited_same req_path bytes q r = elim (Bool-cases (ltb max (length bytes))) [
    | inl b ↦ rw (write_limited, b) refl
    | inr b ↦ rw (write_limited, b) (answer_same (os.write_file fs resolved bytes) q r)
  ]

  with_bytes_same :
      {A Q R : Type 0} (a : Result A) (f : A → Fs × Result Q) (g : A → Fs × Result R)
      → ((x : A) → (f x).0 ≡ (g x).0)
      → (with_bytes is_utf8 os fs a f).0 ≡ (with_bytes is_utf8 os fs a g).0
  with_bytes_same (ok x) f g h = h x
  with_bytes_same (err e) f g h = refl

  -- The two tests on the number of matches, which one handler answers and the other reports.
  tested_same :
      {A Q R : Type 0} (req_path : Text) (no_match ambiguous : Bool) (a : Text × A) (refused q : Q)
      (e e' : FileError) (r : Text × A → R)
      → (if no_match
          then (fs, ok refused)
          else if ambiguous
          then (fs, ok refused)
          else write_limited is_utf8 os fs req_path resolved max a.0 q).0
        ≡ (with_bytes is_utf8 os fs
            (if no_match then err e else if ambiguous then err e' else ok a)
            (λ x. write_limited is_utf8 os fs req_path resolved max x.0 (r x))).0
  tested_same req_path true ambiguous a refused q e e' r = refl
  tested_same req_path false true a refused q e e' r = refl
  tested_same req_path false false a refused q e e' r = write_limited_same req_path a.0 q (r a)

  string_same :
      (fetch : Text → ℕ → Text → Result Text) (req_path : Text) (sr : StringReplace)
      → (handle_string_replace_edit is_utf8 os fs req_path resolved sr max).0
        ≡ (handle_method is_utf8 os fetch fs req_path resolved (string_replace sr) max).0
  unfolding handle_string_replace_edit handle_method apply_string_replace write_limited
  string_same fetch req_path sr =
      elim (Bool-cases (is_oversized (size_of (Map.get resolved (seen os fs resolved))) max)) [
        | inl b ↦ rw (handle_string_replace_edit, handle_method, apply_string_replace, b) refl
        | inr b ↦ elim (Result-cases (read_to_string is_utf8 (seen os fs resolved) resolved)) [
          | inl (e, r) ↦
              rw (handle_string_replace_edit, handle_method, apply_string_replace, b, r) refl
          | inr (existing, r) ↦
              rw (handle_string_replace_edit, handle_method, apply_string_replace, b, r)
                (tested_same req_path (nat_beq (u32 (matches sr.old_string existing)) 0)
                  (ltb 1 (u32 (matches sr.old_string existing)) && not sr.replace_all) _ _ _ _ _ _)
        ]
      ]

  method_same :
      (fetch : Text → ℕ → Text → Result Text) (req_path : Text) (method : EditMethod)
      → (handle_edit_method is_utf8 os fs req_path resolved method max).0
        ≡ (handle_method is_utf8 os fetch fs req_path resolved (as_write method) max).0
  unfolding handle_edit_method handle_method
  method_same fetch req_path (EditMethod.string_replace sr) = string_same fetch req_path sr
  method_same fetch req_path (EditMethod.line_range_replace lr) =
      with_bytes_same
        (apply_line_range_replace is_utf8 (seen os fs resolved) req_path resolved lr max) _ _
        (λ bytes. write_limited_same req_path bytes _ _)
  method_same fetch req_path (EditMethod.byte_range_replace br) =
      with_bytes_same (apply_byte_range_replace (seen os fs resolved) req_path resolved br max) _ _
        (λ bytes. write_limited_same req_path bytes _ _)

  -- Where the path leads to a file, an edit leaves exactly the files that a write request by the
  -- same method that makes no directories leaves, also where one of them answers with an error and
  -- the other with a match error.
  pub handle_edit-handle_write :
      (fetch : Text → ℕ → Text → Result Text) (path existing : Text) (method : EditMethod)
      (encoding : Option Text) (no_follow : Bool)
      → stat os fs resolved ≡ some (file existing)
      → (handle_edit is_utf8 os fs
          (record {
            path = path;
            method = some method;
            encoding = encoding;
            no_follow_symlink = no_follow;
          })
          resolved
          max).0
        ≡ (handle_write is_utf8 os fetch fs
            (record {
              path = path;
              create_parents = false;
              method = some (as_write method);
              encoding = encoding;
              no_follow_symlink = no_follow;
            })
            resolved
            max).0
  unfolding handle_edit handle_write is_rejected make_parents
  handle_edit-handle_write fetch path existing method encoding no_follow g =
      ground (arith, g, method_same fetch path method)
