-- ===== src/Approval/Once.antt =====
-- However requests and responses are interleaved, a waiter gets one response at most.
use a_hand.Base.{
  ℕ, ◌+◌, ◌≤◌, ◌≡◌, List, [], ◌∷◌, some, arith, ltb, ◌==◌, if◌then◌else◌, nat_eq, Option-cases, inl,
  inr,
}
use a_hand.Base.Text.{Text, text_eq}
use a_hand.Base.Map
use a_hand.Base.Map.{Map}
use a_hand.Wire.{JobRequest, RefusalContext, ApprovalResponse}
use a_hand.Approval.{ApprovalManager, PendingApproval, new, submit_with_timeout, resolve, expire}

-- How many pending requests wait on a channel, and how many responses were sent on it.
abbrev pub waiting : ℕ → Map Text PendingApproval → ℕ
waiting n [] = 0
waiting n ((k, e) ∷ m) = (if e.result_tx == n then 1 else 0) + waiting n m

abbrev pub responses : ℕ → List (ℕ × ApprovalResponse) → ℕ
responses n [] = 0
responses n ((tx, r) ∷ sent) = (if tx == n then 1 else 0) + responses n sent

waiting-remove :
    (n : ℕ) (k : Text) (m : Map Text PendingApproval) → waiting n (Map.remove k m) ≤ waiting n m
unfolding Map.remove
waiting-remove n k [] = omega arith
waiting-remove n k ((j, e) ∷ m) = ground (arith, waiting-remove n k m)

waiting-get :
    (n : ℕ) (k : Text) (e : PendingApproval) (m : Map Text PendingApproval)
    → Map.get k m ≡ some e
    → (if e.result_tx == n then 1 else 0) + waiting n (Map.remove k m) ≤ waiting n m
unfolding Map.get Map.remove
waiting-get n k e [] h = cc
waiting-get n k e ((j, f) ∷ m) h = ground (arith, waiting-get n k e m, waiting-remove n k m)

-- A channel serves one request or one response, and one not yet made serves none.
abbrev pub IsOnce : ApprovalManager → Type 0
IsOnce m = (n : ℕ) → waiting n m.pending + responses n m.sent ≤ (if ltb n m.channels then 1 else 0)

pub data Call : Type 0 where
  submits : JobRequest → Text → Text → List RefusalContext → ℕ → ℕ → Call
  resolves : ApprovalResponse → Call
  expires : Text → Call

abbrev pub step : ApprovalManager → Call → ApprovalManager
step m (submits req uid reason refusals timeout now_ms) =
    (submit_with_timeout m req uid reason refusals timeout now_ms).0
step m (resolves response) = (resolve m response).0
step m (expires job_id) = (expire m job_id).0

abbrev pub run : ApprovalManager → List Call → ApprovalManager
run m [] = m
run m (c ∷ cs) = run (step m c) cs

step-IsOnce : (m : ApprovalManager) (c : Call) → IsOnce m → IsOnce (step m c)
unfolding submit_with_timeout resolve expire Map.insert
step-IsOnce m (submits req uid reason refusals timeout now_ms) v n =
    ground (arith, v n, waiting-remove n req.job_id m.pending)
step-IsOnce m (resolves response) v n = elim (Option-cases (Map.get response.job_id m.pending)) [
  | inl e ↦ rw (step, e, resolve) (v n)
  | inr (entry, e) ↦
      rw (step, e, resolve) (ground (arith, v n, waiting-get n response.job_id entry m.pending e))
]
step-IsOnce m (expires job_id) v n = ground (arith, v n, waiting-remove n job_id m.pending)

run-IsOnce : (m : ApprovalManager) (cs : List Call) → IsOnce m → IsOnce (run m cs)
run-IsOnce m [] v = v
run-IsOnce m (c ∷ cs) v = run-IsOnce (step m c) cs (step-IsOnce m c v)

-- After any calls on a new manager, repeated job ids, late and repeated responses included: at
-- most one response was sent to any waiter, and a waiter that was answered is no longer pending.
pub run-new-IsOnce :
    (timeout_secs : ℕ) (cs : List Call) (n : ℕ)
    → let m = run (new timeout_secs) cs in waiting n m.pending + responses n m.sent ≤ 1
unfolding new
run-new-IsOnce timeout_secs cs n =
    ground (arith, run-IsOnce (new timeout_secs) cs (λ k. ground arith) n)
