-- ===== src/FileManager/Dispatched.antt =====
-- What a dispatched request can do, and what its check before that rules out.
use a_hand.Base.{
  ℕ, zero, suc, ◌≡◌, refl, subst, Bool, true, false, ◌&&◌, Option, none, some, List, [], ◌∷◌, arith,
  All, if◌then◌else◌, nat_beq,
}
use a_hand.Base.Text.{Text, text_eq, is_empty}
use a_hand.FileManager.{Result, ok, err}
use a_hand.FileManager.Paths.{PathBuf, Canonical, parse, display, push_all}
use a_hand.FileManager.Policy.{FilePolicyChecker, PolicyResult, check_path}
use a_hand.FileManager.Write.{FileWrite, FileEdit}
use a_hand.FileManager.Requests.{
  permanent, FileDelete, FileGlob, Operation, stat, list, glob, mkdir, read_text, read_binary,
  read_image, read_pdf, write, edit, delete, chmod, copy, move, create_symlink, Access, reads,
  parent, lexically_normalize, target_paths, collect_request_paths,
}
use a_hand.FileManager.Escalation.{
  Escalation, recursive_permanent_delete, dangerous_path, scanned, glob_escalation,
  permanent_delete, GlobScanOutcome, found_dangerous, cap_hit, clean, scan, check_paths,
  check_request_approval, glob_has_dangerous_match, matches,
}

-- Which paths a request names, and whether links at their ends are not to be followed. The target
-- of a symlink is read against the directory that the link stands in.
pub data Names : Operation → Text → Bool → Type 0 where
  of_stat : (path : Text) (no_follow : Bool) → Names (stat path no_follow) path no_follow
  of_list : (path : Text) → Names (list path) path false
  of_glob :
      (pattern base : Text)
      → is_empty base ≡ false
      → Names (glob (record { pattern = pattern; base_path = some base })) base false
  of_mkdir : (path : Text) → Names (mkdir path) path false
  of_text : (path : Text) (no_follow : Bool) → Names (read_text path no_follow) path no_follow
  of_binary : (path : Text) (no_follow : Bool) → Names (read_binary path no_follow) path no_follow
  of_image : (path : Text) (no_follow : Bool) → Names (read_image path no_follow) path no_follow
  of_pdf : (path : Text) (no_follow : Bool) → Names (read_pdf path no_follow) path no_follow
  of_write : (w : FileWrite) → Names (write w) w.path w.no_follow_symlink
  of_edit : (e : FileEdit) → Names (edit e) e.path e.no_follow_symlink
  of_delete : (d : FileDelete) → Names (delete d) d.path d.no_follow_symlink
  of_chmod : (path : Text) (no_follow : Bool) → Names (chmod path no_follow) path no_follow
  copied : (source destination : Text) → Names (copy source destination) source false
  copied_to : (source destination : Text) → Names (copy source destination) destination false
  moved : (source destination : Text) → Names (move source destination) source false
  moved_to : (source destination : Text) → Names (move source destination) destination false
  link : (target link_path : Text) → Names (create_symlink target link_path) link_path true
  absolute :
      (target link_path : Text)
      → is_empty target ≡ false
      → (parse target).is_absolute ≡ true
      → Names (create_symlink target link_path) target true
  relative :
      (target link_path : Text) (directory : PathBuf)
      → is_empty target ≡ false
      → (parse target).is_absolute ≡ false
      → parent (parse link_path) ≡ some directory
      → Names
          (create_symlink target link_path)
          (display (lexically_normalize (push_all directory (parse target).components)))
          true

module _ (compile : Text → Option (Text → Bool)) (canonicalize : PathBuf → Canonical)
    (checker : FilePolicyChecker) where
  -- The path is let through, to a place that is not dangerous.
  abbrev pub IsAllowed : Text → Bool → Type 0
  IsAllowed path no_follow =
      (r : PolicyResult) × (check_path compile canonicalize checker path no_follow ≡ ok r)
      × (r.needs_approval ≡ false)

  abbrev IsHarmless : Access → Type 0
  IsHarmless a = IsAllowed a.path a.no_follow_symlink

  step :
      (a : Access) (answer : Result PolicyResult) (further : Result (Option Escalation))
      → elim answer as (λ _. Result (Option Escalation)) [
        | err e ↦ err e
        | ok r ↦ if r.needs_approval then ok (some (dangerous_path a.path)) else further
      ]
        ≡ ok none
      → (r : PolicyResult) × (answer ≡ ok r) × (r.needs_approval ≡ false) × (further ≡ ok none)
  step a (ok r) further h = (r, refl, ground (arith, h), ground (arith, h))
  step a (err e) further h = cc

  check_paths-IsHarmless :
      (expand : Text → Option (List (Option Text))) (scan_cap : ℕ) (paths : List Access)
      (last : Option Escalation)
      → check_paths compile canonicalize checker expand scan_cap paths last ≡ ok none
      → All IsHarmless paths × (last ≡ none)
  unfolding check_paths
  check_paths-IsHarmless expand scan_cap [] last h = (tt, cc)
  check_paths-IsHarmless expand scan_cap (a ∷ rest) last h =
      let (r, c, d, h') = step a _ _ h in
      let (harmless, e) = check_paths-IsHarmless expand scan_cap rest last h' in
      (((r, c, d), harmless), e)

  -- No match that could be read is let through to a dangerous place.
  abbrev pub IsHarmlessEntry : Option Text → Type 0
  IsHarmlessEntry none = Unit
  IsHarmlessEntry (some path) =
      (r : PolicyResult)
      → check_path compile canonicalize checker path false ≡ ok r
      → r.needs_approval ≡ false

  scan-IsHarmlessEntry :
      (scan_cap : ℕ) (entries : List (Option Text))
      → scan compile canonicalize checker scan_cap entries ≡ clean
      → All IsHarmlessEntry entries
  unfolding scan
  scan-IsHarmlessEntry zero [] h = tt
  scan-IsHarmlessEntry zero (entry ∷ entries) h = cc
  scan-IsHarmlessEntry (suc scan_cap) [] h = tt
  scan-IsHarmlessEntry (suc scan_cap) (none ∷ entries) h =
      (tt, scan-IsHarmlessEntry scan_cap entries h)
  scan-IsHarmlessEntry (suc scan_cap) (some path ∷ entries) h =
      (λ r c. ground (arith, h, c), ground (arith, h, scan-IsHarmlessEntry scan_cap entries))

  unfoldable pub IsCleared : (Text → Option (List (Option Text))) → ℕ → Option Operation → Type 0
  IsCleared expand scan_cap operation =
      ((op : Operation) (path : Text) (no_follow : Bool)
        → operation ≡ some op
        → Names op path no_follow
        → IsAllowed path no_follow)
      × ((g : FileGlob)
          → operation ≡ some (glob g)
          → All IsHarmlessEntry (matches compile canonicalize checker expand scan_cap g))
      × ((d : FileDelete)
          → operation ≡ some (delete d)
          → (nat_beq d.mode permanent && d.recursive) ≡ false)

  not_deleted :
      (deleted : Option Text) (further : Result (Option Escalation))
      → elim deleted as (λ _. Result (Option Escalation)) [
        | some path ↦ ok (some (recursive_permanent_delete path))
        | none ↦ further
      ]
        ≡ ok none
      → (deleted ≡ none) × (further ≡ ok none)
  not_deleted none further h = (refl, h)
  not_deleted (some path) further h = cc

  scanned_clean :
      (expand : Text → Option (List (Option Text))) (scan_cap : ℕ) (outcome : GlobScanOutcome)
      → scanned compile canonicalize checker expand scan_cap outcome ≡ none
      → outcome ≡ clean
  scanned_clean expand scan_cap (found_dangerous path) h = cc
  scanned_clean expand scan_cap cap_hit h = cc
  scanned_clean expand scan_cap clean h = refl

  not_path : (b : Bool) (path : Text) → (if b then some path else none) ≡ none → b ≡ false
  not_path true path h = cc
  not_path false path h = refl

  target_paths_absolute :
      (target link_path : Text)
      → is_empty target ≡ false
      → (parse target).is_absolute ≡ true
      → target_paths target link_path ≡ reads target true
  unfolding target_paths
  target_paths_absolute target link_path e a = rw (target_paths, e, a) refl

  target_paths_relative :
      (target link_path : Text) (directory : PathBuf)
      → is_empty target ≡ false
      → (parse target).is_absolute ≡ false
      → parent (parse link_path) ≡ some directory
      → target_paths target link_path
        ≡ reads (display (lexically_normalize (push_all directory (parse target).components))) true
  unfolding target_paths
  target_paths_relative target link_path directory e a p = rw (target_paths, e, a, p) refl

  named :
      (op : Operation) (path : Text) (no_follow : Bool)
      → All IsHarmless (collect_request_paths (some op))
      → Names op path no_follow
      → IsAllowed path no_follow
  unfolding collect_request_paths target_paths
  named op path no_follow h (of_stat p f) = h.0
  named op path no_follow h (of_list p) = h.0
  named op path no_follow h (of_glob pattern base e) = ground (arith, h, e)
  named op path no_follow h (of_mkdir p) = h.0
  named op path no_follow h (of_text p f) = h.0
  named op path no_follow h (of_binary p f) = h.0
  named op path no_follow h (of_image p f) = h.0
  named op path no_follow h (of_pdf p f) = h.0
  named op path no_follow h (of_write w) = h.0
  named op path no_follow h (of_edit e) = h.0
  named op path no_follow h (of_delete d) = h.0
  named op path no_follow h (of_chmod p f) = h.0
  named op path no_follow h (copied s d) = h.0
  named op path no_follow h (copied_to s d) = h.1.0
  named op path no_follow h (moved s d) = h.0
  named op path no_follow h (moved_to s d) = h.1.0
  named op path no_follow h (link t l) = h.0
  named op path no_follow h (absolute t l e a) =
      (subst (All IsHarmless) (target_paths_absolute t l e a) h.1).0
  named op path no_follow h (relative t l d e a p) =
      (subst (All IsHarmless) (target_paths_relative t l d e a p) h.1).0

  -- Where the check lets a request go on with no approval, the policy lets through each path that
  -- the request names, the source and the destination of a copy or a move and the target of a
  -- symlink among them, to a place that is not dangerous; a glob matches none that is dangerous, also where
  -- there are more matches than were looked at, and a delete is not permanent and recursive.
  pub check_request_approval-IsCleared :
      (expand : Text → Option (List (Option Text))) (scan_cap : ℕ) (operation : Option Operation)
      → check_request_approval compile canonicalize checker expand scan_cap operation ≡ ok none
      → IsCleared expand scan_cap operation
  unfolding check_request_approval IsCleared glob_has_dangerous_match
  check_request_approval-IsCleared expand scan_cap operation h =
      let (not_permanent, h') = not_deleted _ _ h in
      let (harmless, no_glob) =
        check_paths-IsHarmless expand scan_cap (collect_request_paths operation) _ h' in
      (
        λ op path no_follow e n.
            named op path no_follow
              (subst (λ o. All IsHarmless (collect_request_paths o)) e harmless) n,
        λ g e.
            scan-IsHarmlessEntry scan_cap (matches compile canonicalize checker expand scan_cap g) (
              scanned_clean expand scan_cap _ (
                subst (λ o. glob_escalation compile canonicalize checker expand scan_cap o ≡ none) e
                  no_glob)),
        λ d e. not_path (nat_beq d.mode permanent && d.recursive) d.path (
            subst (λ o. permanent_delete compile canonicalize checker expand scan_cap o ≡ none) e
              not_permanent),
      )
