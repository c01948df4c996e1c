-- ===== src/FileManager/Confined.antt =====
-- Which files a dispatched write request can change.
use a_hand.Base.{
  ℕ, ◌<◌, ◌≡◌, refl, ◌∙◌, ap, Bool, true, false, not, ◌||◌, Bool-cases, Option, none, some, List,
  arith, ◌==◌, inl, inr,
}
use a_hand.Base.Text.{Text, text_eq}
use a_hand.Base.Map
use a_hand.FileManager.{Result-cases, Result, ok, err, Fs}
use a_hand.FileManager.Paths.{PathBuf, display, Canonical}
use a_hand.FileManager.Policy.{FilePolicyChecker, PolicyResult, check_path}
use a_hand.FileManager.Permitted.{IsPermitted, check_path-IsPermitted}
use a_hand.FileManager.Requests.{write, collect_request_paths}
use a_hand.FileManager.Escalation.{check_request_approval}
use a_hand.FileManager.Dispatched.{of_write, check_request_approval-IsCleared, IsCleared}
use a_hand.FileManager.Write.{FileWrite, FileWriteResult}
use a_hand.FileManager.Os.{is_symlink, Os, IsOs}
use a_hand.FileManager.Handlers.{is_rejected, make_parents, handle_write}
use a_hand.FileManager.Kept.{IsKept, IsLimited, make_parents-IsKept, handle_write-IsLimited}
use a_hand.FileManager.Dispatch.{
  remove_file_or_dir, remove_one, clean_up, verify_post_create, then_verify, write_at,
  dispatch_write,
}

module _ (is_utf8 : Text → Bool) (os : Os) (lawful : IsOs os)
    (fetch : Text → ℕ → Text → Result Text) (compile : Text → Option (Text → Bool))
    (canonicalize : Fs → PathBuf → Canonical) (empty_dir : Fs → Text → Bool)
    (remove_tree : Fs → Text → Fs) (checker : FilePolicyChecker) where
  get-remove_one :
      (fs : Fs) (resolved other : Text)
      → (resolved == other) ≡ false
      → Map.get other
          (remove_one is_utf8 os fetch compile canonicalize empty_dir remove_tree fs resolved)
        ≡ Map.get other fs
  unfolding remove_one
  get-remove_one fs resolved other n = ground (arith, n, Map.get-remove resolved other fs)

  get-verify_post_create :
      (fs : Fs) (resolved other : Text) (result : FileWriteResult)
      → (resolved == other) ≡ false
      → Map.get other
          (verify_post_create is_utf8 os fetch compile canonicalize empty_dir remove_tree checker fs
            resolved remove_file_or_dir result).0
        ≡ Map.get other fs
  unfolding verify_post_create clean_up
  get-verify_post_create fs resolved other result n =
      elim (Result-cases (check_path compile (canonicalize fs) checker resolved false)) [
        | inl (e, c) ↦ rw (verify_post_create, c) (get-remove_one fs resolved other n)
        | inr (r, c) ↦ rw (verify_post_create, c) refl
      ]

  get-then_verify :
      (made : Bool) (fs : Fs) (resolved other : Text) (answer : Fs × Result FileWriteResult)
      → (resolved == other) ≡ false
      → IsKept made fs answer.0 other
      → IsKept made fs
          (then_verify is_utf8 os fetch compile canonicalize empty_dir remove_tree checker resolved
            answer).0
          other
  get-then_verify made fs resolved other (fs', ok result) n (inl e) =
      inl (get-verify_post_create fs' resolved other result n ∙ e)
  get-then_verify made fs resolved other (fs', ok result) n (inr (m, gone, there)) =
      inr (m, gone, get-verify_post_create fs' resolved other result n ∙ there)
  get-then_verify made fs resolved other (fs', err _) n e = e

  elsewhere :
      (made : Bool) (fs : Fs) (place other : Text) (answer : Fs × Result FileWriteResult)
      → (place == other) ≡ false
      → IsLimited made fs place checker.max_write_bytes answer
      → IsKept made fs answer.0 other
  elsewhere made fs place other (fs', ok r) n (kept, _) = kept other n
  elsewhere made fs place other (fs', err e) n (kept, _) = kept other n

  -- The making of directories leaves no link where there was none.
  still_no_link :
      (made : Bool) (fs before : Fs) (resolved : Text)
      → is_symlink (Map.get resolved fs) ≡ false
      → IsKept made fs before resolved
      → is_symlink (Map.get resolved before) ≡ false
  still_no_link made fs before resolved h (inl same) = rw same h
  still_no_link made fs before resolved h (inr (_, _, there)) = rw there refl

  handled :
      (fs : Fs) (req : FileWrite) (resolved other : Text)
      → checker.max_write_bytes < 18446744073709551615
      → is_symlink (Map.get resolved fs) ≡ false
      → (resolved == other) ≡ false
      → IsKept req.create_parents fs
          (handle_write is_utf8 os fetch fs req resolved checker.max_write_bytes).0
          other
  handled fs req resolved other m h n =
      let own =
        lawful.follow_own (make_parents is_utf8 os req.create_parents fs resolved).0 resolved (
          still_no_link req.create_parents fs _ resolved h (
            make_parents-IsKept is_utf8 os lawful resolved checker.max_write_bytes fetch
              req.create_parents fs resolved)) in
      elsewhere req.create_parents fs _ other _ (ap (λ p. p == other) own ∙ n)
        (handle_write-IsLimited is_utf8 os lawful resolved checker.max_write_bytes fetch fs req m)

  -- A link at the place is refused where links are not to be followed.
  refused_link :
      (fs : Fs) (req : FileWrite) (resolved : Text)
      → req.no_follow_symlink ≡ true
      → is_symlink (Map.get resolved fs) ≡ true
      → (handle_write is_utf8 os fetch fs req resolved checker.max_write_bytes).0 ≡ fs
  unfolding handle_write is_rejected
  refused_link fs req resolved f h = ground (arith, f, h)

  write_at-IsKept :
      (fs : Fs) (req : FileWrite) (resolved other : Text)
      → checker.max_write_bytes < 18446744073709551615
      → (req.no_follow_symlink || not (is_symlink (Map.get resolved fs))) ≡ true
      → (resolved == other) ≡ false
      → IsKept req.create_parents fs
          (write_at is_utf8 os fetch compile canonicalize empty_dir remove_tree checker fs req
            resolved).0
          other
  write_at-IsKept fs req resolved other m h n =
      get-then_verify req.create_parents fs resolved other _ n
        (elim (Bool-cases (is_symlink (Map.get resolved fs))) [
          | inl l ↦ inl (ap (Map.get other) (refused_link fs req resolved (ground (arith, h, l)) l))
          | inr l ↦ handled fs req resolved other m l n
        ])

  -- A write request, with a limit below 2^64 - 1, that the check lets go on with no approval,
  -- where links are not to be followed or there is none at the place its path resolves to,
  -- changes at most that place, which the policy lets through and which is not dangerous: every
  -- other path is as it was, but for directories that `create_parents` made where there was
  -- nothing, also where the write or the check after it fails.
  pub dispatch_write-check_request_approval :
      (expand : Text → Option (List (Option Text))) (scan_cap : ℕ) (fs : Fs) (req : FileWrite)
      → checker.max_write_bytes < 18446744073709551615
      → check_request_approval compile (canonicalize fs) checker expand scan_cap (some (write req))
        ≡ ok none
      → ((r : PolicyResult)
          → check_path compile (canonicalize fs) checker req.path req.no_follow_symlink ≡ ok r
          → (req.no_follow_symlink || not (is_symlink (Map.get (display r.resolved_path) fs)))
            ≡ true)
      → (r : PolicyResult) × IsPermitted compile
          (canonicalize fs)
          checker
          req.path
          req.no_follow_symlink
          r
        × (r.needs_approval ≡ false)
        × ((other : Text)
            → (display r.resolved_path == other) ≡ false
            → IsKept req.create_parents fs
                (dispatch_write is_utf8 os fetch compile canonicalize empty_dir remove_tree checker
                  fs req).0
                other)
  unfolding dispatch_write IsCleared collect_request_paths
  dispatch_write-check_request_approval expand scan_cap fs req m h no_link =
      let (named, no_glob, no_delete) =
        check_request_approval-IsCleared compile (canonicalize fs) checker expand scan_cap
          (some (write req)) h in
      let (r, c, harmless) = named (write req) req.path req.no_follow_symlink refl (of_write req) in
      (
        r,
        check_path-IsPermitted compile (canonicalize fs) checker req.path req.no_follow_symlink r c,
        harmless,
        λ other n.
            rw (dispatch_write, c)
              (write_at-IsKept fs req (display r.resolved_path) other m (no_link r c) n),
      )
