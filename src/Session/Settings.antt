-- ===== src/Session/Settings.antt =====
-- What a caller is told about its session after its mode is set.
use a_hand.Base.{
  ℕ, ◌+◌, ◌-◌, ◌*◌, ◌<◌, ◌≡◌, refl, ap, sym, ◌∙◌, none, some, arith, ◌==◌, if◌then◌else◌, u64,
  nat_eq, eq_cases, inl, inr,
}
use a_hand.Base.Text.{Text, text_eq}
use a_hand.Base.Map
use a_hand.Wire.{SessionMode, inactive, strict, trust, auto_accept, SessionState}
use a_hand.Session.{
  SessionManager, CallerSession, from_secs, as_millis, trust_until, set_mode, get_session_state,
  session_state,
}

-- The session that `set_mode` stores, and its answer.
abbrev given : SessionMode → ℕ → ℕ → CallerSession
given mode now timeout = record {
  mode = mode;
  trust_expires = trust_until mode now timeout;
  trust_timeout_mins = timeout;
}

abbrev answer : Text → SessionMode → ℕ → ℕ → ℕ → ℕ → SessionState
answer uid mode now later unix_ms timeout = record {
  caller_uid = uid;
  mode = mode;
  trust_expires_ms = elim (trust_until mode now timeout) as (λ _. ℕ) [
    | none ↦ 0
    | some exp ↦ u64 (unix_ms + u64 (as_millis (exp - later)))
  ];
  trust_timeout_mins = timeout;
}

told :
    (uid : Text) (mode : SessionMode) (now later unix_ms timeout : ℕ)
    → later < now + from_secs (u64 (timeout * 60))
    → session_state uid (given mode now timeout) later unix_ms
      ≡ answer uid mode now later unix_ms timeout
unfolding session_state
told uid inactive now later unix_ms timeout h = refl
told uid strict now later unix_ms timeout h = refl
told uid trust now later unix_ms timeout h = ground arith
told uid auto_accept now later unix_ms timeout h = refl

-- What `set_mode` answers is what the caller's session state says right after, for every mode, if
-- the state is read by the same clock readings, before trust given then runs out; a timeout of 0
-- stands for the default. No other caller's state changes.
get_session_state-set_mode :
    (m : SessionManager) (uid other : Text) (mode : SessionMode) (mins now later unix_ms : ℕ)
    → later
      < now + from_secs (u64 ((if mins == 0 then m.default_trust_timeout_mins else mins) * 60))
    → get_session_state (set_mode m uid mode mins now later unix_ms).0 other later unix_ms ≡ (
        if uid == other
        then (set_mode m uid mode mins now later unix_ms).1
        else get_session_state m other later unix_ms)
unfolding set_mode get_session_state
get_session_state-set_mode m uid other mode mins now later unix_ms h = elim (eq_cases uid other) [
  | inl (b, e) ↦
      rw (get_session_state, Map.get-insert uid other (given mode now timeout) m.sessions, b)
        (told other mode now later unix_ms timeout h
          ∙ ap (λ u. answer u mode now later unix_ms timeout) (sym e))
  | inr (b, e) ↦
      rw (get_session_state, Map.get-insert uid other (given mode now timeout) m.sessions, b) refl
]
  where
    timeout : ℕ
    timeout = if mins == 0 then m.default_trust_timeout_mins else mins
