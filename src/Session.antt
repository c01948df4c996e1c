-- ===== src/Session.antt =====
-- The daemon's session manager, crates/ahandd/src/session.rs: a mode for each caller, trust that
-- runs out, and a log of refusals. An `Instant` is a number of nanoseconds, and each reading of a
-- clock is an argument, in the order in which the code takes them. `debug` is the `{:?}` rendering
-- of a string.
pub mod Trust
pub mod Refusals
pub mod Settings
mod Examples
use a_hand.Base.{
  ℕ, ◌+◌, ◌-◌, ◌*◌, ◌/◌, Bool, true, false, List, [], ◌∷◌, ◌++◌, map, Option, none, some, ltb, leb,
  ◌==◌, if◌then◌else◌, nat_eq, u64, keep,
}
use a_hand.Base.Text.{Text, text_eq, codes, is_empty}
use a_hand.Base.Map
use a_hand.Base.Map.{Map}
use a_hand.Wire.{
  SessionMode, inactive, strict, trust, auto_accept, JobRequest, RefusalContext, SessionState,
}

pub data SessionDecision : Type 0 where
  allow : SessionDecision
  deny : Text → SessionDecision
  needs_approval : Text → List RefusalContext → SessionDecision

pub record CallerSession : Type 0 where
  pub mode : SessionMode
  pub trust_expires : Option ℕ
  pub trust_timeout_mins : ℕ

pub record RefusalEntry : Type 0 where
  pub tool : Text
  pub reason : Text
  pub expires_at : ℕ
  pub refused_at_ms : ℕ

pub record SessionManager : Type 0 where
  pub sessions : Map Text CallerSession
  pub refusal_log : List RefusalEntry
  pub default_trust_timeout_mins : ℕ
  pub default_mode : SessionMode

abbrev pub from_secs : ℕ → ℕ
from_secs n = n * 1000000000

abbrev pub as_millis : ℕ → ℕ
as_millis d = d / 1000000

abbrev pub is_trust : SessionMode → Bool
is_trust trust = true
is_trust _ = false

unfoldable pub new : ℕ → SessionManager
new default_trust_timeout_mins = record {
  sessions = [];
  refusal_log = [];
  default_trust_timeout_mins = default_trust_timeout_mins;
  default_mode = inactive;
}

unfoldable pub set_default_mode : SessionManager → SessionMode → SessionManager
set_default_mode m mode = record m { default_mode = mode }

-- When trust given at `now` runs out: a product of `u64`s, and a sum of instants.
abbrev pub trust_until : SessionMode → ℕ → ℕ → Option ℕ
trust_until mode now timeout =
    if is_trust mode then some (now + from_secs (u64 (timeout * 60))) else none

unfoldable pub register_caller : SessionManager → Text → ℕ → SessionManager
register_caller m caller_uid now = elim (Map.get caller_uid m.sessions) [
  | some session ↦ m
  | none ↦ record m {
    sessions =
        Map.insert caller_uid
          (record {
            mode = m.default_mode;
            trust_expires = trust_until m.default_mode now m.default_trust_timeout_mins;
            trust_timeout_mins = m.default_trust_timeout_mins;
          })
          m.sessions;
  }
]

-- The log without what has expired, and the refusals of the tool in it.
unfoldable pub get_refusals : SessionManager → Text → ℕ → SessionManager × List RefusalContext
get_refusals m tool now =
    let log = keep (λ (e : RefusalEntry). ltb now e.expires_at) m.refusal_log in
    (
      record m { refusal_log = log },
      map (λ e. record { tool = e.tool; reason = e.reason; refused_at_ms = e.refused_at_ms })
          (keep (λ (e : RefusalEntry). e.tool == tool) log),
    )

abbrev pub not_activated : Text
not_activated = codes "session not activated"

abbrev pub trust_expired : Text
trust_expired = codes "trust expired"

module _ (debug : Text → Text) where
  abbrev pub strict_reason : Text → Text
  strict_reason tool = codes "strict mode: approval required for " ++ debug tool

  -- The arms of the `match` on the session's mode. `now` and `later` are two readings of one clock.
  unfoldable pub check_session :
      SessionManager
      → JobRequest
      → Text
      → ℕ
      → ℕ
      → CallerSession
      → SessionMode
      → SessionManager × SessionDecision
  unfolding get_refusals
  check_session m req caller_uid now later session inactive = (m, deny not_activated)
  check_session m req caller_uid now later session strict =
      let (m', refusals) = get_refusals m req.tool now in
      (m', needs_approval (strict_reason req.tool) refusals)
  check_session m req caller_uid now later session trust = elim session.trust_expires [
    | none ↦ (m, allow)
    | some expires ↦
        if leb expires now
        then (
          record m {
            sessions =
                Map.insert caller_uid (record session { mode = inactive; trust_expires = none })
                  m.sessions;
          },
          deny trust_expired,
        )
        else (
          record m {
            sessions =
                Map.insert caller_uid
                  (record session {
                    trust_expires =
                        some (later + from_secs (u64 (session.trust_timeout_mins * 60)));
                  })
                  m.sessions;
          },
          allow,
        )
  ]
  check_session m req caller_uid now later session auto_accept = (m, allow)

  unfoldable pub check :
      SessionManager → JobRequest → Text → ℕ → ℕ → SessionManager × SessionDecision
  unfolding check_session
  check m req caller_uid now later = elim (Map.get caller_uid m.sessions) [
    | none ↦ (m, deny not_activated)
    | some session ↦ check_session m req caller_uid now later session session.mode
  ]

-- `now` is read for the expiry, `later` for what is left of it, and `unix_ms` for the answer.
unfoldable pub set_mode :
    SessionManager → Text → SessionMode → ℕ → ℕ → ℕ → ℕ → SessionManager × SessionState
set_mode m caller_uid mode trust_timeout_mins now later unix_ms =
    let timeout =
      if trust_timeout_mins == 0 then m.default_trust_timeout_mins else trust_timeout_mins in
    let trust_expires = trust_until mode now timeout in
    let trust_expires_ms = elim trust_expires as (λ _. ℕ) [
      | none ↦ 0
      | some exp ↦ u64 (unix_ms + u64 (as_millis (exp - later)))
    ] in
    (
      record m {
        sessions =
            Map.insert caller_uid
              (record { mode = mode; trust_expires = trust_expires; trust_timeout_mins = timeout })
              m.sessions;
      },
      record {
        caller_uid = caller_uid;
        mode = mode;
        trust_expires_ms = trust_expires_ms;
        trust_timeout_mins = timeout;
      },
    )

unfoldable pub record_refusal : SessionManager → Text → Text → Text → ℕ → ℕ → SessionManager
record_refusal m caller_uid tool reason now unix_ms = record m {
  refusal_log =
      m.refusal_log
      ++ (record {
        tool = tool;
        reason = reason;
        expires_at = now + from_secs (24 * 3600);
        refused_at_ms = unix_ms;
      }
          ∷ []);
}

-- The state of a registered session, as two methods compute it.
unfoldable pub session_state : Text → CallerSession → ℕ → ℕ → SessionState
session_state caller_uid session now unix_ms = record {
  caller_uid = caller_uid;
  mode = session.mode;
  trust_expires_ms = elim session.trust_expires as (λ _. ℕ) [
    | none ↦ 0
    | some exp ↦ if ltb now exp then u64 (unix_ms + u64 (as_millis (exp - now))) else 0
  ];
  trust_timeout_mins = session.trust_timeout_mins;
}

unfoldable pub get_session_state : SessionManager → Text → ℕ → ℕ → SessionState
unfolding session_state
get_session_state m caller_uid now unix_ms = elim (Map.get caller_uid m.sessions) [
  | some session ↦ session_state caller_uid session now unix_ms
  | none ↦ record {
    caller_uid = caller_uid;
    mode = inactive;
    trust_expires_ms = 0;
    trust_timeout_mins = m.default_trust_timeout_mins;
  }
]

-- Both clocks are read anew for each caller.
unfoldable pub query_sessions : SessionManager → Text → (Text → ℕ) → (Text → ℕ) → List SessionState
unfolding get_session_state
query_sessions m caller_uid now unix_ms =
    if is_empty caller_uid
    then map (λ (e : Text × CallerSession). session_state e.0 e.1 (now e.0) (unix_ms e.0))
        m.sessions
    else get_session_state m caller_uid (now caller_uid) (unix_ms caller_uid) ∷ []
