-- ===== src/Session/Examples.antt =====
-- A session manager with one trusted caller.
use a_hand.Base.{◌≡◌, ◌↔◌, true, false, ◌++◌, [], ◌∷◌, some}
use a_hand.Base.Map
use a_hand.Base.Text.{Text, text_eq, codes}
use a_hand.Wire.{JobRequest, inactive, trust}
use a_hand.Session.{allow, SessionManager, CallerSession, check}
use a_hand.Session.Trust.{permits, check-permits}

abbrev debug : Text → Text
debug s = 34 ∷ s ++ (34 ∷ [])

abbrev request : JobRequest
request = record {
  job_id = codes "j1";
  tool = codes "ls";
  args = [];
  cwd = [];
  env = [];
  timeout_ms = 0;
  interactive = false;
}

abbrev trusted : CallerSession
trusted = record { mode = trust; trust_expires = some 100; trust_timeout_mins = 60 }

abbrev manager : SessionManager
manager = record {
  sessions = (codes "u1", trusted) ∷ [];
  refusal_log =
      record { tool = codes "rm"; reason = codes "no"; expires_at = 50; refused_at_ms = 1 } ∷ [];
  default_trust_timeout_mins = 60;
  default_mode = inactive;
}

check-permits_example :
    ((check debug manager request (codes "u1") 99 99).1 ≡ allow)
    ↔ (permits (Map.get (codes "u1") manager.sessions) 99 ≡ true)
check-permits_example = check-permits debug manager request (codes "u1") 99 99
