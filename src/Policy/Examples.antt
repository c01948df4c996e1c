-- ===== src/Policy/Examples.antt =====
-- A policy that asks for an approval.
use a_hand.Base.{◌≡◌, refl, false, [], ◌∷◌, ◌++◌, Option, none}
use a_hand.Base.Text.{Text, text_eq, codes, before, contains, after, starts_with, after_last}
use a_hand.Base.Map
use a_hand.Wire.{JobRequest}
use a_hand.Policy.{
  PolicyChecker, allow, check, remember_approval, extract_domains, extract_from, extract_host,
  try_extract_ssh_host,
}
use a_hand.Policy.Remembered.{check-remember_approval}

-- No argument is a URL.
abbrev url_host : Text → Option Text
url_host s = none

abbrev debug : Text → Text
debug s = 34 ∷ s ++ (34 ∷ [])

abbrev request : JobRequest
request = record {
  job_id = codes "j1";
  tool = codes "/usr/bin/ssh";
  args = codes "bob@x.org" ∷ codes "ls" ∷ [];
  cwd = [];
  env = [];
  timeout_ms = 0;
  interactive = false;
}

abbrev checker : PolicyChecker
checker = record {
  config = record {
    allowed_tools = codes "ls" ∷ [];
    denied_paths = codes "/etc" ∷ [];
    denied_tools = codes "rm" ∷ [];
    allowed_domains = codes "y.org" ∷ [];
    approval_timeout_secs = 60;
  };
  session_approvals = [];
}

check-remember_approval_example :
    check url_host debug
      (remember_approval checker (codes "u1") request.tool (codes "x.org" ∷ []))
      request
      (codes "u1")
    ≡ allow
unfolding check extract_domains extract_from extract_host try_extract_ssh_host before contains after
    starts_with after_last Map.get
check-remember_approval_example =
    check-remember_approval url_host debug checker request (codes "u1")
      (codes "tool " ++ (debug request.tool ++ codes " is not in the allow list"))
      (codes "x.org" ∷ []) refl
