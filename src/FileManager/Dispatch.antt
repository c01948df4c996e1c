-- ===== src/FileManager/Dispatch.antt =====
-- The dispatch of a write and of an edit request, with the check after it: `dispatch` and
-- `verify_post_create` of crates/ahandd/src/file_manager/mod.rs. Resolving a path depends on the
-- files, so it is done again on those that the handler leaves.
use a_hand.Base.{ℕ, Bool, false, Option, none, some, if◌then◌else◌}
use a_hand.Base.Text.{Text, text_eq}
use a_hand.Base.Map
use a_hand.FileManager.{Result, ok, err, Fs}
use a_hand.FileManager.Paths.{PathBuf, display, Canonical}
use a_hand.FileManager.Policy.{FilePolicyChecker, check_path}
use a_hand.FileManager.Write.{FileWrite, FileEdit, FileWriteResult, FileEditResult}
use a_hand.FileManager.Os.{is_dir, Os}
use a_hand.FileManager.Handlers.{handle_write, handle_edit}

pub data PostCreateCleanup : Type 0 where
  remove_file_or_dir remove_tree_all leave : PostCreateCleanup

module _ (is_utf8 : Text → Bool) (os : Os) (fetch : Text → ℕ → Text → Result Text)
    (compile : Text → Option (Text → Bool)) (canonicalize : Fs → PathBuf → Canonical)
    (empty_dir : Fs → Text → Bool) (remove_tree : Fs → Text → Fs) where
  -- A file is removed, and a directory only where it is empty.
  unfoldable pub remove_one : Fs → Text → Fs
  remove_one fs path = elim (Map.get path fs) [
    | none ↦ fs
    | some node ↦
        if is_dir (some node)
        then (if empty_dir fs path then Map.remove path fs else fs)
        else Map.remove path fs
  ]

  unfoldable pub clean_up : PostCreateCleanup → Fs → Text → Fs
  unfolding remove_one
  clean_up remove_file_or_dir fs path = remove_one fs path
  clean_up remove_tree_all fs path =
      if is_dir (Map.get path fs) then remove_tree fs path else remove_one fs path
  clean_up leave fs path = fs

  unfoldable pub verify_post_create {ℓ} :
      {R : Type ℓ} → FilePolicyChecker → Fs → Text → PostCreateCleanup → R → Fs × Result R
  unfolding check_path clean_up
  verify_post_create checker fs resolved cleanup result =
      elim (check_path compile (canonicalize fs) checker resolved false) [
        | ok r ↦ (fs, ok result)
        | err e ↦ (clean_up cleanup fs resolved, err e)
      ]

  -- The check after a write; a handler's error is passed on.
  abbrev pub then_verify :
      FilePolicyChecker → Text → Fs × Result FileWriteResult → Fs × Result FileWriteResult
  then_verify checker resolved (fs, err e) = (fs, err e)
  then_verify checker resolved (fs, ok result) =
      verify_post_create checker fs resolved remove_file_or_dir result

  abbrev pub write_at : FilePolicyChecker → Fs → FileWrite → Text → Fs × Result FileWriteResult
  write_at checker fs req resolved =
      then_verify checker resolved
        (handle_write is_utf8 os fetch fs req resolved checker.max_write_bytes)

  unfoldable pub dispatch_write : FilePolicyChecker → Fs → FileWrite → Fs × Result FileWriteResult
  unfolding check_path handle_write verify_post_create
  dispatch_write checker fs req =
      elim (check_path compile (canonicalize fs) checker req.path req.no_follow_symlink) [
        | err e ↦ (fs, err e)
        | ok checked ↦ write_at checker fs req (display checked.resolved_path)
      ]

  unfoldable pub dispatch_edit : FilePolicyChecker → Fs → FileEdit → Fs × Result FileEditResult
  unfolding check_path handle_edit
  dispatch_edit checker fs req =
      elim (check_path compile (canonicalize fs) checker req.path req.no_follow_symlink) [
        | err e ↦ (fs, err e)
        | ok checked ↦
            handle_edit is_utf8 os fs req (display checked.resolved_path) checker.max_write_bytes
      ]
