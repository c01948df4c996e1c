-- ===== src/Approval/Responses.antt =====
-- A response resolves its own request, once, and only a denial with a reason leaves a refusal.
use a_hand.Base.{
  ℕ, ◌≡◌, refl, ◌⊎◌, ap, Bool, true, false, not, ◌&&◌, List, ◌∷◌, Option, none, some, arith, ◌==◌,
  if◌then◌else◌, Option-cases, inl, inr,
}
use a_hand.Base.Text.{Text, text_eq, is_empty}
use a_hand.Base.Map
use a_hand.Wire.{JobRequest, ApprovalResponse, RefusalContext}
use a_hand.Session.{SessionManager, record_refusal}
use a_hand.Approval.{
  ApprovalManager, PendingApproval, submit_with_timeout, resolve, expire, apply_approval_response,
}

-- Whether a response refuses with a reason, so that the refusal is kept.
abbrev pub is_refusal : ApprovalResponse → Bool
is_refusal resp = not resp.approved && not (is_empty resp.reason)

-- A response to a job that is not pending changes nothing and is reported as not resolved. One to
-- a pending job is reported as resolved: the job is no longer pending and every other one is as it
-- was, the response goes to the job's waiter, and a refusal of the job's tool is recorded exactly if
-- the response denies and gives a reason.
apply_approval_response_lem :
    (m : ApprovalManager) (s : SessionManager) (resp : ApprovalResponse) (principal other : Text)
    (now unix_ms : ℕ)
    → ((Map.get resp.job_id m.pending ≡ none)
        × (apply_approval_response m s resp principal now unix_ms ≡ ((m, s), false)))
      ⊎ ((entry : PendingApproval) × (Map.get resp.job_id m.pending ≡ some entry)
          × (let ((m', s'), done) = apply_approval_response m s resp principal now unix_ms in
              (done ≡ true)
              × (Map.get other m'.pending
                  ≡ (if resp.job_id == other then none else Map.get other m.pending))
              × (m'.sent ≡ (entry.result_tx, resp) ∷ m.sent)
              × (s' ≡ (
                  if is_refusal resp
                  then record_refusal s principal entry.request.tool resp.reason now unix_ms
                  else s))))
unfolding apply_approval_response
apply_approval_response_lem m s resp principal other now unix_ms =
    elim (Option-cases (Map.get resp.job_id m.pending)) [
      | inl e ↦ inl (e, ground arith)
      | inr (entry, e) ↦ inr (
        entry,
        e,
        (
          ground arith,
          ground (arith, Map.get-remove resp.job_id other m.pending),
          ground arith,
          ground arith,
        ),
      )
    ]

resolve_found :
    (m : ApprovalManager) (resp : ApprovalResponse) (entry : PendingApproval)
    → Map.get resp.job_id m.pending ≡ some entry
    → resolve m resp ≡ (
      record m {
        pending = Map.remove resp.job_id m.pending;
        sent = (entry.result_tx, resp) ∷ m.sent;
      },
      some (entry.request, entry.caller_uid),
    )
unfolding resolve
resolve_found m resp entry e = rw (e, resolve)

resolve_missing :
    (m : ApprovalManager) (resp : ApprovalResponse)
    → Map.get resp.job_id m.pending ≡ none
    → resolve m resp ≡ (m, none)
unfolding resolve
resolve_missing m resp e = rw (e, resolve)

-- A request that was submitted is pending under its job id. Its response resolves it and is logged
-- for its waiter, its expiry reports that it was there, and after either of them no response
-- resolves it and no expiry reports it again.
pub resolve-submit_with_timeout :
    (m : ApprovalManager) (req : JobRequest) (uid reason : Text) (refusals : List RefusalContext)
    (timeout now_ms : ℕ) (first second : ApprovalResponse)
    → first.job_id ≡ req.job_id
    → second.job_id ≡ req.job_id
    → let (m', advertised, tx) = submit_with_timeout m req uid reason refusals timeout now_ms in
      let (m'', resolved) = resolve m' first in
      (resolved ≡ some (req, uid))
      × (m''.sent ≡ (tx, first) ∷ m.sent)
      × (resolve m'' second ≡ (m'', none))
      × ((expire m'' req.job_id).1 ≡ false)
      × (let (m3, expired) = expire m' req.job_id in
          (expired ≡ true) × (resolve m3 second ≡ (m3, none)) × ((expire m3 req.job_id).1 ≡ false))
unfolding submit_with_timeout expire
resolve-submit_with_timeout m req uid reason refusals timeout now_ms first second e f = (
  ap (λ (r : ApprovalManager × Option (JobRequest × Text)). r.1) answered,
  ap (λ (r : ApprovalManager × Option (JobRequest × Text)). r.0.sent) answered,
  again,
  late,
  (there, resolve_missing _ second gone, twice),
)
  where
    submitted : ApprovalManager
    submitted = (submit_with_timeout m req uid reason refusals timeout now_ms).0

    entry : PendingApproval
    entry = record {
      request = req;
      caller_uid = uid;
      approval_request = (submit_with_timeout m req uid reason refusals timeout now_ms).1;
      result_tx = m.channels;
    }

    answered : resolve submitted first ≡ (
      record submitted {
        pending = Map.remove first.job_id submitted.pending;
        sent = (m.channels, first) ∷ m.sent;
      },
      some (req, uid),
    )
    answered =
        resolve_found submitted first entry (rw e (Map.get-insert_self req.job_id entry m.pending))

    again : resolve (resolve submitted first).0 second ≡ ((resolve submitted first).0, none)
    again =
        resolve_missing (resolve submitted first).0 second
          (rw (answered, f, e) (Map.get-remove_self req.job_id submitted.pending))

    gone : Map.get second.job_id (expire submitted req.job_id).0.pending ≡ none
    gone = rw f (Map.get-remove_self req.job_id submitted.pending)

    late : (expire (resolve submitted first).0 req.job_id).1 ≡ false
    late = rw (answered, e, expire, Map.get-remove_self req.job_id submitted.pending) refl

    there : (expire submitted req.job_id).1 ≡ true
    there = rw (expire, Map.get-insert_self req.job_id entry m.pending) refl

    twice : (expire (expire submitted req.job_id).0 req.job_id).1 ≡ false
    twice = rw (expire, Map.get-remove_self req.job_id submitted.pending) refl
