-- ===== src/FileManager/Permitted.antt =====
-- What the policy on paths lets through.
use a_hand.Base.{◌≡◌, refl, Bool, true, false, not, Option, none, some, any, if◌then◌else◌, arith}
use a_hand.Base.Text.{Text, text_eq, is_empty}
use a_hand.FileManager.{FileError, invalid_path, Result, ok, err, file_error}
use a_hand.FileManager.Paths.{PathBuf, parse, display, Canonical}
use a_hand.FileManager.Policy.{
  FilePolicyChecker, PolicyResult, is_parent_dir, glob_match, resolve, check_resolved, check_path,
}

-- A guard that was passed.
passed {ℓ} :
    {A : Type ℓ} {rest : Result A} {r : A} (e : FileError) (b : Bool)
    → (if b then err e else rest) ≡ ok r
    → (b ≡ false) × (rest ≡ ok r)
passed e true h = cc
passed e false h = (refl, h)

module _ (compile : Text → Option (Text → Bool)) (canonicalize : PathBuf → Canonical)
    (checker : FilePolicyChecker) where
  -- A place that no pattern of the denylist covers and one of the allowlist does.
  abbrev pub IsOpen : PathBuf → Type 0
  IsOpen p =
      (any (glob_match compile (display p)) checker.denylist ≡ false)
      × (any (glob_match compile (display p)) checker.allowlist ≡ true)

  pub record IsPermitted (path : Text) (no_follow_symlink : Bool) (r : PolicyResult) : Type 0 where
    pub is_enabled : checker.enabled ≡ true
    pub is_rooted : (parse path).is_absolute ≡ true
    pub is_straight : any is_parent_dir (parse path).components ≡ false
    pub is_resolved :
        resolve compile canonicalize (parse path) no_follow_symlink ≡ some r.resolved_path
    pub is_open : IsOpen r.resolved_path
    pub is_dangerous :
        r.needs_approval
        ≡ any (glob_match compile (display r.resolved_path)) checker.dangerous_paths

  resolved_lem :
      (path : Text) (resolved : Option PathBuf) (r : PolicyResult)
      → elim resolved as (λ _. Result PolicyResult) [
        | none ↦ file_error invalid_path path
        | some p ↦ check_resolved compile canonicalize checker path p
      ]
        ≡ ok r
      → (resolved ≡ some r.resolved_path)
        × IsOpen r.resolved_path
        × (r.needs_approval
            ≡ any (glob_match compile (display r.resolved_path)) checker.dangerous_paths)
  unfolding check_resolved
  resolved_lem path none r h = cc
  resolved_lem path (some p) r h = ground arith

  -- A path is let through only if file operations are enabled, the path is absolute and free of
  -- `..`, and the place it resolves to is off the denylist and on the allowlist; approval is asked
  -- for exactly where that place is on the list of dangerous ones.
  pub check_path-IsPermitted :
      (path : Text) (no_follow_symlink : Bool) (r : PolicyResult)
      → check_path compile canonicalize checker path no_follow_symlink ≡ ok r
      → IsPermitted path no_follow_symlink r
  unfolding check_path
  check_path-IsPermitted path no_follow_symlink r h =
      let (is_on, h1) = passed _ (not checker.enabled) h in
      let (is_there, h2) = passed _ (is_empty path) h1 in
      let (no_parent, h3) = passed _ (any is_parent_dir (parse path).components) h2 in
      let (rooted, h4) = passed _ (not (parse path).is_absolute) h3 in
      let (resolved, is_free, dangerous) = resolved_lem path _ r h4 in
      record {
        is_enabled = ground (arith, is_on);
        is_rooted = ground (arith, rooted);
        is_straight = no_parent;
        is_resolved = resolved;
        is_open = is_free;
        is_dangerous = dangerous;
      }
