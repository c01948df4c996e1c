-- ===== src/FileManager/Escalation.antt =====
-- The check of a request before it is dispatched: `check_request_approval` and
-- `glob_has_dangerous_match` of crates/ahandd/src/file_manager/mod.rs. `expand` is the `glob` crate's
-- list of what a pattern matches, an entry that could not be read being `none`.
use a_hand.Base.{
  ℕ, zero, suc, Bool, false, ◌&&◌, ◌||◌, Option, none, some, List, [], ◌∷◌, ◌++◌, nat_beq,
  if◌then◌else◌, ◌==◌, any,
}
use a_hand.Base.Text.{Text, text_eq, codes, is_empty, starts_with}
use a_hand.FileManager.{Result, ok, err}
use a_hand.FileManager.Paths.{PathBuf, display, Canonical, segments}
use a_hand.FileManager.Policy.{FilePolicyChecker, PolicyResult, check_path}
use a_hand.FileManager.Requests.{
  permanent, FileGlob, Operation, glob, delete, Access, collect_request_paths,
}

pub data Escalation : Type 0 where
  recursive_permanent_delete dangerous_path dangerous_glob_match : (path : Text) → Escalation
  glob_scan_cap_hit : Escalation

pub data GlobScanOutcome : Type 0 where
  found_dangerous : Text → GlobScanOutcome
  cap_hit clean : GlobScanOutcome

-- `/` and `\` both end a segment.
abbrev slashes : Text → Text
slashes [] = []
slashes (c ∷ s) = (if nat_beq c 92 then 47 else c) ∷ slashes s

unfoldable pub has_parent_segment : Text → Bool
unfolding segments
has_parent_segment pattern =
    let cut = segments (slashes pattern) in any (λ s. s == codes "..") (cut.0 ∷ cut.1)

-- A pattern that dispatch refuses.
unfoldable pub is_refused : Text → Bool
unfolding has_parent_segment
is_refused pattern = starts_with (codes "/") pattern || has_parent_segment pattern

-- `base.join(pattern)`.
abbrev join_pattern : PathBuf → Text → Text
join_pattern base pattern =
    let b = display base in
    if starts_with (codes "/") pattern
    then pattern
    else if b == codes "/"
    then b ++ pattern
    else b ++ (47 ∷ pattern)

module _ (compile : Text → Option (Text → Bool)) (canonicalize : PathBuf → Canonical)
    (checker : FilePolicyChecker) where
  abbrev is_dangerous : Result PolicyResult → Bool
  is_dangerous (ok r) = r.needs_approval
  is_dangerous (err e) = false

  -- As many matches as `scan_cap` are looked at.
  unfoldable pub scan : ℕ → List (Option Text) → GlobScanOutcome
  unfolding check_path
  scan zero [] = clean
  scan zero (entry ∷ entries) = cap_hit
  scan (suc scan_cap) [] = clean
  scan (suc scan_cap) (none ∷ entries) = scan scan_cap entries
  scan (suc scan_cap) (some path ∷ entries) =
      let rest = scan scan_cap entries in
      if is_dangerous (check_path compile canonicalize checker path false)
      then found_dangerous path
      else rest

  module _ (expand : Text → Option (List (Option Text))) (scan_cap : ℕ) where
    -- The full pattern, or nothing where the base is not let through.
    unfoldable pub full_pattern : FileGlob → Option Text
    unfolding check_path
    full_pattern g = elim g.base_path [
      | none ↦ some g.pattern
      | some b ↦
          if is_empty b
          then some g.pattern
          else elim (check_path compile canonicalize checker b false) [
            | ok r ↦ some (join_pattern r.resolved_path g.pattern)
            | err e ↦ none
          ]
    ]

    unfoldable pub matches : FileGlob → List (Option Text)
    unfolding is_refused full_pattern
    matches g = if is_refused g.pattern then [] else elim (full_pattern g) [
      | none ↦ []
      | some pattern ↦ elim (expand pattern) [ none ↦ [] | some entries ↦ entries ]
    ]

    unfoldable pub glob_has_dangerous_match : FileGlob → GlobScanOutcome
    unfolding matches scan
    glob_has_dangerous_match g = scan scan_cap (matches g)

    abbrev pub scanned : GlobScanOutcome → Option Escalation
    scanned (found_dangerous path) = some (dangerous_glob_match path)
    scanned cap_hit = some glob_scan_cap_hit
    scanned clean = none

    -- The paths that a request touches, one after the other, and then what a glob matches.
    unfoldable pub check_paths : List Access → Option Escalation → Result (Option Escalation)
    unfolding check_path
    check_paths [] last = ok last
    check_paths (a ∷ rest) last =
        let further = check_paths rest last in
        elim (check_path compile canonicalize checker a.path a.no_follow_symlink) [
          | err e ↦ err e
          | ok r ↦ if r.needs_approval then ok (some (dangerous_path a.path)) else further
        ]

    abbrev pub glob_escalation : Option Operation → Option Escalation
    glob_escalation none = none
    glob_escalation (some (glob g)) = scanned (glob_has_dangerous_match g)
    glob_escalation (some _) = none

    abbrev pub permanent_delete : Option Operation → Option Text
    permanent_delete none = none
    permanent_delete (some (delete d)) =
        if nat_beq d.mode permanent && d.recursive then some d.path else none
    permanent_delete (some _) = none

    unfoldable pub check_request_approval : Option Operation → Result (Option Escalation)
    unfolding check_paths glob_has_dangerous_match collect_request_paths
    check_request_approval operation = elim (permanent_delete operation) [
      | some path ↦ ok (some (recursive_permanent_delete path))
      | none ↦ check_paths (collect_request_paths operation) (glob_escalation operation)
    ]
