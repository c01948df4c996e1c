-- ===== src/FileManager/Policy.antt =====
-- The policy on paths, `FilePolicyChecker` of crates/ahandd/src/file_manager/policy.rs on a Unix
-- system. The `glob` crate is a parameter: the test that a pattern compiles to, if it compiles.
use a_hand.Base.{
  ℕ, Bool, true, false, not, Option, none, some, List, [], ◌∷◌, any, if◌then◌else◌, ◌==◌,
}
use a_hand.Base.Text.{Text, text_eq, is_empty}
use a_hand.FileManager.{policy_denied, invalid_path, Result, ok, file_error}
use a_hand.FileManager.Paths.{
  Component, cur_dir, parent_dir, normal, PathBuf, parse, display, Canonical,
  canonicalize_or_parent, canonicalize_no_follow,
}

pub record FilePolicyConfig : Type 0 where
  pub enabled : Bool
  pub path_allowlist : List Text
  pub path_denylist : List Text
  pub max_read_bytes : ℕ
  pub max_write_bytes : ℕ
  pub dangerous_paths : List Text

pub record FilePolicyChecker : Type 0 where
  pub enabled : Bool
  pub allowlist : List Text
  pub denylist : List Text
  pub dangerous_paths : List Text
  pub max_read_bytes : ℕ
  pub max_write_bytes : ℕ

abbrev pub new : FilePolicyConfig → FilePolicyChecker
new config = record {
  enabled = config.enabled;
  allowlist = config.path_allowlist;
  denylist = config.path_denylist;
  dangerous_paths = config.dangerous_paths;
  max_read_bytes = config.max_read_bytes;
  max_write_bytes = config.max_write_bytes;
}

pub record PolicyResult : Type 0 where
  pub resolved_path : PathBuf
  pub needs_approval : Bool

abbrev pub is_parent_dir : Component → Bool
is_parent_dir cur_dir = false
is_parent_dir parent_dir = true
is_parent_dir (normal name) = false

abbrev is_nil : List Text → Bool
is_nil [] = true
is_nil (x ∷ xs) = false

module _ (compile : Text → Option (Text → Bool)) where
  -- A pattern that does not compile stands for itself.
  unfoldable pub glob_match : Text → Text → Bool
  glob_match path pattern = elim (compile pattern) [
    | none ↦ pattern == path
    | some matches_with ↦ matches_with path
  ]

  module _ (canonicalize : PathBuf → Canonical) where
    unfoldable pub resolve : PathBuf → Bool → Option PathBuf
    unfolding canonicalize_or_parent canonicalize_no_follow
    resolve raw no_follow_symlink =
        if no_follow_symlink
        then canonicalize_no_follow canonicalize raw
        else canonicalize_or_parent canonicalize raw

    unfoldable pub check_resolved : FilePolicyChecker → Text → PathBuf → Result PolicyResult
    unfolding glob_match
    check_resolved checker path resolved =
        if any (glob_match (display resolved)) checker.denylist
        then file_error policy_denied path
        else if is_nil checker.allowlist
        then file_error policy_denied path
        else if not (any (glob_match (display resolved)) checker.allowlist)
        then file_error policy_denied path
        else ok (record {
          resolved_path = resolved;
          needs_approval = any (glob_match (display resolved)) checker.dangerous_paths;
        })

    -- Whether the path is to be written, which the code does not read, is left out.
    unfoldable pub check_path : FilePolicyChecker → Text → Bool → Result PolicyResult
    unfolding resolve check_resolved
    check_path checker path no_follow_symlink =
        let raw = parse path in
        if not checker.enabled
        then file_error policy_denied path
        else if is_empty path
        then file_error invalid_path path
        else if any is_parent_dir raw.components
        then file_error invalid_path path
        else if not raw.is_absolute
        then file_error invalid_path path
        else elim (resolve raw no_follow_symlink) [
          | none ↦ file_error invalid_path path
          | some resolved ↦ check_resolved checker path resolved
        ]
