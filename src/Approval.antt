-- ===== src/Approval.antt =====
-- The daemon's approval manager, crates/ahandd/src/approval.rs. The oneshot channel of a request is
-- a number: `channels` counts those made, and `sent` logs the response sent on each. A `Duration`
-- is a number of nanoseconds, and the wall clock's reading is an argument.
pub mod Once
pub mod Responses
mod Examples
use a_hand.Base.{
  ℕ, suc, ◌+◌, Bool, true, false, not, ◌&&◌, List, [], ◌∷◌, ◌++◌, map, Option, none, some,
  if◌then◌else◌, u64, is_some,
}
use a_hand.Base.Text.{Text, text_eq, is_empty}
use a_hand.Base.Map
use a_hand.Base.Map.{Map}
use a_hand.Wire.{JobRequest, RefusalContext, ApprovalRequest, ApprovalResponse}
use a_hand.Session.{SessionManager, from_secs, as_millis, record_refusal}

pub record PendingApproval : Type 0 where
  pub request : JobRequest
  pub caller_uid : Text
  pub approval_request : ApprovalRequest
  pub result_tx : ℕ

pub record ApprovalManager : Type 0 where
  pub pending : Map Text PendingApproval
  pub default_timeout : ℕ
  pub channels : ℕ
  pub sent : List (ℕ × ApprovalResponse)

unfoldable pub new : ℕ → ApprovalManager
new timeout_secs = record {
  pending = [];
  default_timeout = from_secs timeout_secs;
  channels = 0;
  sent = [];
}

-- The request to broadcast, and the receiver's channel.
unfoldable pub submit_with_timeout :
    ApprovalManager
    → JobRequest
    → Text
    → Text
    → List RefusalContext
    → ℕ
    → ℕ
    → ApprovalManager × ApprovalRequest × ℕ
submit_with_timeout m req caller_uid reason previous_refusals timeout now_ms =
    let tx = m.channels in
    let approval_req : ApprovalRequest = record {
      job_id = req.job_id;
      tool = req.tool;
      args = req.args;
      cwd = req.cwd;
      reason = reason;
      detected_domains = [];
      expires_ms = u64 (now_ms + u64 (as_millis timeout));
      caller_uid = caller_uid;
      previous_refusals = previous_refusals;
    } in
    let entry : PendingApproval = record {
      request = req;
      caller_uid = caller_uid;
      approval_request = approval_req;
      result_tx = tx;
    } in
    (
      record m { pending = Map.insert req.job_id entry m.pending; channels = suc tx },
      approval_req,
      tx,
    )

unfoldable pub submit :
    ApprovalManager
    → JobRequest
    → Text
    → Text
    → List RefusalContext
    → ℕ
    → ApprovalManager × ApprovalRequest × ℕ
unfolding submit_with_timeout
submit m req caller_uid reason previous_refusals now_ms =
    submit_with_timeout m req caller_uid reason previous_refusals m.default_timeout now_ms

unfoldable pub resolve :
    ApprovalManager → ApprovalResponse → ApprovalManager × Option (JobRequest × Text)
resolve m response = elim (Map.get response.job_id m.pending) [
  | none ↦ (m, none)
  | some entry ↦ (
    record m {
      pending = Map.remove response.job_id m.pending;
      sent = (entry.result_tx, response) ∷ m.sent;
    },
    some (entry.request, entry.caller_uid),
  )
]

unfoldable pub expire : ApprovalManager → Text → ApprovalManager × Bool
expire m job_id =
    (record m { pending = Map.remove job_id m.pending }, is_some (Map.get job_id m.pending))

unfoldable pub list_pending : ApprovalManager → List ApprovalRequest
list_pending m = map (λ e. e.1.approval_request) m.pending

-- What a denial with a reason does after the entry is resolved.
abbrev pub refuse_resolved :
    SessionManager → Text → Text → ℕ → ℕ → Option (JobRequest × Text) → SessionManager × Bool
refuse_resolved s principal reason now unix_ms none = (s, false)
refuse_resolved s principal reason now unix_ms (some (req, uid)) =
    (record_refusal s principal req.tool reason now unix_ms, true)

-- `now` and `unix_ms` are the clocks that a recorded refusal reads.
unfoldable pub apply_approval_response :
    ApprovalManager
    → SessionManager
    → ApprovalResponse
    → Text
    → ℕ
    → ℕ
    → (ApprovalManager × SessionManager) × Bool
unfolding resolve
apply_approval_response m s resp principal now unix_ms =
    let (m', resolved) = resolve m resp in
    if not resp.approved && not (is_empty resp.reason)
    then (let (s', done) = refuse_resolved s principal resp.reason now unix_ms resolved in
        ((m', s'), done))
    else ((m', s), is_some resolved)
