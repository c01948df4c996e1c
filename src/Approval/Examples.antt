-- ===== src/Approval/Examples.antt =====
-- A job that waits for an approval.
use a_hand.Base.{◌+◌, ◌≤◌, ◌≡◌, refl, true, false, List, [], ◌∷◌, none, some}
use a_hand.Base.Text.{text_eq, codes}
use a_hand.Wire.{JobRequest, ApprovalResponse}
use a_hand.Approval.{ApprovalManager, new, submit_with_timeout, resolve, expire}
use a_hand.Approval.Once.{Call, submits, resolves, expires, run, waiting, responses, run-new-IsOnce}
use a_hand.Approval.Responses.{resolve-submit_with_timeout}

abbrev request : JobRequest
request = record {
  job_id = codes "j1";
  tool = codes "rm";
  args = codes "-rf" ∷ [];
  cwd = [];
  env = [];
  timeout_ms = 0;
  interactive = false;
}

abbrev denial : ApprovalResponse
denial = record { job_id = codes "j1"; approved = false; remember = false; reason = codes "no" }

abbrev calls : List Call
calls =
    submits request (codes "u1") [] [] 10 0
    ∷ submits request (codes "u1") [] [] 10 1
    ∷ resolves denial
    ∷ resolves denial
    ∷ expires (codes "j1")
    ∷ []

abbrev manager : ApprovalManager
manager = (submit_with_timeout (new 60) request (codes "u1") [] [] 10 0).0

run-new-IsOnce_example : let m = run (new 60) calls in waiting 1 m.pending + responses 1 m.sent ≤ 1
run-new-IsOnce_example = run-new-IsOnce 60 calls 1

resolve-submit_with_timeout_example :
    let (m', advertised, tx) = submit_with_timeout (new 60) request (codes "u1") [] [] 10 0 in
    let (m'', resolved) = resolve m' denial in
    (resolved ≡ some (request, codes "u1"))
    × (m''.sent ≡ (tx, denial) ∷ (new 60).sent)
    × (resolve m'' denial ≡ (m'', none))
    × ((expire m'' (codes "j1")).1 ≡ false)
    × (let (m3, expired) = expire m' (codes "j1") in
        (expired ≡ true) × (resolve m3 denial ≡ (m3, none)) × ((expire m3 (codes "j1")).1 ≡ false))
resolve-submit_with_timeout_example =
    resolve-submit_with_timeout (new 60) request (codes "u1") [] [] 10 0 denial denial refl refl
