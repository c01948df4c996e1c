-- ===== src/FileManager/Examples.antt =====
-- A directory `/w` with one file of three lines, on the allowlist.
use a_hand.Base.{
  ℕ, ◌≡◌, ◌⊎◌, ◌<◌, refl, Bool, true, false, not, ◌&&◌, Option, none, some, List, [], ◌∷◌, arith,
  length, leb, drop, ◌==◌, if◌then◌else◌,
}
use a_hand.Base.Text.{Text, text_eq, codes, starts_with}
use a_hand.Base.Map
use a_hand.FileManager.{Result, ok, file, Fs, ByteRangeReplace}
use a_hand.FileManager.Lines.{take}
use a_hand.FileManager.Write.{
  FileWrite, append, is_oversized, read_to_string, apply_string_replace, apply_byte_range_replace,
}
use a_hand.FileManager.Write.{EditMethod}
use a_hand.FileManager.Handlers.{make_parents, handle_write, handle_edit}
use a_hand.FileManager.Download.{
  HttpResponse, fetch_full_write_bytes, validate_download_url_scheme, bytes_received, is_whole,
  body, fetch_full_write_bytes-body,
}
use a_hand.FileManager.Paths.{
  PathBuf, normal, parse, display, Canonical, found, missing, push_all, canonicalize_or_parent,
  climb,
}
use a_hand.FileManager.Policy.{FilePolicyChecker, PolicyResult, check_path}
use a_hand.FileManager.Permitted.{IsPermitted}
use a_hand.FileManager.Requests.{write}
use a_hand.FileManager.Escalation.{check_request_approval, check_paths}
use a_hand.FileManager.Dispatch.{dispatch_write}
use a_hand.FileManager.Reading.{Position}
use a_hand.FileManager.ReadText.{FileReadText}
use a_hand.FileManager.ReadBinary.{FileReadBinary}
use a_hand.FileManager.ReadBinary.Whole.{fetch_all, fetch_all-handle_read_binary}
use a_hand.FileManager.PlainOs.{plain, plain-IsOs}
use a_hand.FileManager.Kept.{IsKept, IsLimited, handle_write-IsLimited}
use a_hand.FileManager.Spliced.{apply_byte_range_replace-undo}
use a_hand.FileManager.Edited.{as_write, handle_edit-handle_write}
use a_hand.FileManager.Resolved.{IsResolved, canonicalize_or_parent-IsResolved}
use a_hand.FileManager.Replace.{matches, replace}
use a_hand.FileManager.Replaced.{Replaces, apply_string_replace-Replaces}
use a_hand.FileManager.Dispatched.{IsCleared, check_request_approval-IsCleared}
use a_hand.FileManager.Confined.{dispatch_write-check_request_approval}

abbrev is_utf8 : Text → Bool
is_utf8 s = true

abbrev fetch : Text → ℕ → Text → Result Text
fetch url max req_path = ok (codes "remote")

abbrev lines : Text
lines = 97 ∷ 10 ∷ 98 ∷ 10 ∷ 99 ∷ []

abbrev fs : Fs
fs = (codes "/w/a", file lines) ∷ []

abbrev new_file : FileWrite
new_file = record {
  path = codes "/w/b";
  create_parents = true;
  method = some (append (codes "x"));
  encoding = none;
  no_follow_symlink = true;
}

-- Only `/w` is there.
abbrev directory : PathBuf
directory = record { is_absolute = true; components = normal (codes "w") ∷ [] }

abbrev canonicalize_at : PathBuf → Canonical
canonicalize_at p = if display p == codes "/w" then found directory else missing

abbrev canonicalize : Fs → PathBuf → Canonical
canonicalize files p = canonicalize_at p

-- A pattern is a prefix.
abbrev compile : Text → Option (Text → Bool)
compile pattern = some (λ path. take 2 path == pattern)

abbrev checker : FilePolicyChecker
checker = record {
  enabled = true;
  allowlist = codes "/w" ∷ [];
  denylist = codes "/e" ∷ [];
  dangerous_paths = codes "/x" ∷ [];
  max_read_bytes = 100;
  max_write_bytes = 100;
}

abbrev empty_dir : Fs → Text → Bool
empty_dir files path = false

abbrev remove_tree : Fs → Text → Fs
remove_tree files path = files

abbrev expand : Text → Option (List (Option Text))
expand pattern = none

handle_write-IsLimited_example :
    IsLimited true fs
      (plain.follow (make_parents is_utf8 plain true fs (codes "/w/b")).0 (codes "/w/b"))
      100
      (handle_write is_utf8 plain fetch fs new_file (codes "/w/b") 100)
handle_write-IsLimited_example =
    handle_write-IsLimited is_utf8 plain plain-IsOs (codes "/w/b") 100 fetch fs new_file
      (omega arith)

cleared :
    check_request_approval compile (canonicalize fs) checker expand 10 (some (write new_file))
    ≡ ok none
unfolding check_request_approval check_paths check_path parse display climb take
cleared = refl

check_request_approval-IsCleared_example :
    IsCleared compile (canonicalize fs) checker expand 10 (some (write new_file))
check_request_approval-IsCleared_example =
    check_request_approval-IsCleared compile (canonicalize fs) checker expand 10
      (some (write new_file)) cleared

dispatch_write-check_request_approval_example :
    (r : PolicyResult) × IsPermitted compile
      (canonicalize fs)
      checker
      new_file.path
      new_file.no_follow_symlink
      r
    × (r.needs_approval ≡ false)
    × ((other : Text)
        → (display r.resolved_path == other) ≡ false
        → IsKept true fs
            (dispatch_write is_utf8 plain fetch compile canonicalize empty_dir remove_tree checker
              fs new_file).0
            other)
dispatch_write-check_request_approval_example =
    dispatch_write-check_request_approval is_utf8 plain plain-IsOs fetch compile canonicalize
      empty_dir remove_tree checker expand 10 fs new_file (omega arith) cleared (λ r h. refl)

canonicalize_or_parent-IsResolved_example :
    IsResolved canonicalize_at
      (parse (codes "/w/c/d"))
      (push_all directory (normal (codes "c") ∷ normal (codes "d") ∷ []))
unfolding canonicalize_or_parent parse display climb
canonicalize_or_parent-IsResolved_example =
    canonicalize_or_parent-IsResolved canonicalize_at (parse (codes "/w/c/d"))
      (push_all directory (normal (codes "c") ∷ normal (codes "d") ∷ [])) refl

handle_edit-handle_write_example :
    (handle_edit is_utf8 plain fs
      (record {
        path = codes "/w/a";
        method = some (
            EditMethod.byte_range_replace
              (record { byte_offset = 0; byte_length = 1; new_content = codes "z" }));
        encoding = none;
        no_follow_symlink = false;
      })
      (codes "/w/a")
      100).0
    ≡ (handle_write is_utf8 plain fetch fs
        (record {
          path = codes "/w/a";
          create_parents = false;
          method = some (
              as_write (
                EditMethod.byte_range_replace
                  (record { byte_offset = 0; byte_length = 1; new_content = codes "z" })));
          encoding = none;
          no_follow_symlink = false;
        })
        (codes "/w/a")
        100).0
unfolding Map.get plain
handle_edit-handle_write_example =
    handle_edit-handle_write is_utf8 plain fs (codes "/w/a") 100 fetch (codes "/w/a") lines
      (EditMethod.byte_range_replace
        (record { byte_offset = 0; byte_length = 1; new_content = codes "z" }))
      none false refl

abbrev scheme : Text → Option Text
scheme url = some (codes "https")

abbrev response : HttpResponse
response = record {
  is_success = true;
  content_length = some 3;
  chunks = some (codes "ab") ∷ some (codes "c") ∷ [];
}

abbrev get : Text → Option HttpResponse
get url = some response

fetch_full_write_bytes-body_example :
    bytes_received (fetch_full_write_bytes scheme get (codes "u") 100 (codes "/w/b")) ≡ (
      if validate_download_url_scheme scheme get (codes "u")
        && (response.is_success
            && (not (is_oversized response.content_length 100)
                && (is_whole response.chunks && leb (length (body response.chunks)) 100)))
      then some (body response.chunks)
      else none)
fetch_full_write_bytes-body_example =
    fetch_full_write_bytes-body scheme get (codes "u") 100 (codes "/w/b") response (omega arith)
      refl

abbrev doubled : Text
doubled = 97 ∷ 10 ∷ 98 ∷ 98 ∷ 10 ∷ 99 ∷ []

apply_string_replace-Replaces_example :
    Replaces (10 ∷ 98 ∷ []) (10 ∷ 98 ∷ 98 ∷ []) lines doubled 1
    × (0 < 1)
    × ((true ≡ true) ⊎ (◌≡◌ {A = ℕ} 1 1))
unfolding Map.get apply_string_replace read_to_string matches starts_with replace
apply_string_replace-Replaces_example =
    apply_string_replace-Replaces is_utf8 fs (codes "/w/a") (codes "/w/a") lines doubled 10
      (98 ∷ []) (10 ∷ 98 ∷ 98 ∷ []) true 100 1 refl (omega arith) refl

abbrev swap : ByteRangeReplace
swap = record { byte_offset = 2; byte_length = 1; new_content = codes "xyz" }

abbrev swapped : Text
swapped = 97 ∷ 10 ∷ 120 ∷ 121 ∷ 122 ∷ 10 ∷ 99 ∷ []

apply_byte_range_replace-undo_example :
    apply_byte_range_replace
      (Map.insert (codes "/w/a") (file swapped) fs)
      (codes "/w/a")
      (codes "/w/a")
      (record { byte_offset = 2; byte_length = 3; new_content = take 1 (drop 2 lines) })
      100
    ≡ ok lines
unfolding Map.get apply_byte_range_replace take
apply_byte_range_replace-undo_example =
    apply_byte_range_replace-undo fs (codes "/w/a") (codes "/w/a") lines swapped swap 100 refl refl
      (omega arith) (omega arith)

abbrev decode : Bool → Text → Text
decode e s = s

abbrev is_utf_8 : Bool → Bool
is_utf_8 e = e

abbrev for_label : Text → Option Bool
for_label l = none

abbrev guess : Text → Bool
guess s = false

abbrev name : Bool → Text
name e = if e then codes "UTF-8" else codes "other"

abbrev reading : FileReadText
reading = record {
  path = codes "/w/a";
  start = some (Position.at_line 2);
  max_lines = some 5;
  max_bytes = some 1;
  target_end = none;
  max_line_width = none;
  encoding = none;
  no_follow_symlink = false;
}

abbrev amount : ℕ → ℕ
amount left = 2

abbrev bytes_wanted : FileReadBinary
bytes_wanted = record {
  path = codes "/w/a";
  byte_offset = 0;
  byte_length = 0;
  max_bytes = some 3;
  no_follow_symlink = false;
}

fetch_all-handle_read_binary_example :
    fetch_all amount (length lines) fs bytes_wanted (codes "/w/a") 100 0 ≡ lines
unfolding Map.get
fetch_all-handle_read_binary_example =
    fetch_all-handle_read_binary amount fs bytes_wanted (codes "/w/a") lines 100
      (λ k h. omega arith) refl (omega arith)
