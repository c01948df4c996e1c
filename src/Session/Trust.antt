-- ===== src/Session/Trust.antt =====
-- When the session manager lets a request through, how trust runs out and is renewed, and what a
-- caller is told about its session.
use a_hand.Base.{
  ℕ, ◌+◌, ◌*◌, ◌≤◌, ◌<◌, ◌≡◌, ◌↔◌, refl, Bool, true, false, List, [], ◌∷◌, Option, none, some,
  arith, ltb, leb, if◌then◌else◌, u64, All, Option-cases, inl, inr, nat_eq,
}
use a_hand.Base.Text.{Text, text_eq}
use a_hand.Base.Map
use a_hand.Wire.{SessionMode, inactive, strict, trust, auto_accept, JobRequest}
use a_hand.Session.{
  SessionManager, CallerSession, SessionDecision, allow, deny, from_secs, not_activated,
  trust_expired, check_session, check,
}

-- The sessions that let a request through at a time.
abbrev pub is_open : SessionMode → Option ℕ → ℕ → Bool
is_open inactive expires now = false
is_open strict expires now = false
is_open trust none now = true
is_open trust (some expires) now = ltb now expires
is_open auto_accept expires now = true

abbrev pub permits : Option CallerSession → ℕ → Bool
permits none now = false
permits (some session) now = is_open session.mode session.trust_expires now

module _ (debug : Text → Text) where
  check_session-permits :
      (m : SessionManager) (req : JobRequest) (uid : Text) (now later : ℕ) (s : CallerSession)
      (mode : SessionMode)
      → ((check_session debug m req uid now later s mode).1 ≡ allow)
        ↔ (is_open mode s.trust_expires now ≡ true)
  unfolding check_session
  check_session-permits m req uid now later s inactive = ground arith
  check_session-permits m req uid now later s strict = ground arith
  check_session-permits m req uid now later s trust = ground arith
  check_session-permits m req uid now later s auto_accept = ground arith

  -- A request is allowed exactly when its caller has a session that accepts everything, or a
  -- trusted one that has no expiry or one still to come.
  pub check-permits :
      (m : SessionManager) (req : JobRequest) (uid : Text) (now later : ℕ)
      → ((check debug m req uid now later).1 ≡ allow)
        ↔ (permits (Map.get uid m.sessions) now ≡ true)
  unfolding check
  check-permits m req uid now later = elim (Option-cases (Map.get uid m.sessions)) [
    | inl e ↦ rw (e, check) (ground arith)
    | inr (s, e) ↦ rw (e, check) (check_session-permits m req uid now later s s.mode)
  ]

-- Requests of one caller, each with the two readings of the clock that its check takes.
abbrev pub Requests : Type 0
Requests = List (JobRequest × ℕ × ℕ)

module _ (debug : Text → Text) (uid : Text) where
  abbrev pub decisions : SessionManager → Requests → List SessionDecision
  decisions m [] = []
  decisions m ((req, now, later) ∷ rs) =
      let (m', decision) = check debug m req uid now later in decision ∷ decisions m' rs

  check_trusted :
      (m : SessionManager) (req : JobRequest) (now later expires : ℕ) (s : CallerSession)
      → Map.get uid m.sessions ≡ some s
      → s.mode ≡ trust
      → s.trust_expires ≡ some expires
      → check debug m req uid now later ≡ (
          if leb expires now
          then (
            record m {
              sessions =
                  Map.insert uid (record s { mode = inactive; trust_expires = none }) m.sessions;
            },
            deny trust_expired,
          )
          else (
            record m {
              sessions =
                  Map.insert uid
                    (record s {
                      trust_expires = some (later + from_secs (u64 (s.trust_timeout_mins * 60)));
                    })
                    m.sessions;
            },
            allow,
          ))
  unfolding check check_session
  check_trusted m req now later expires s e t x = rw (e, check) (ground arith)

  check_inactive :
      (m : SessionManager) (req : JobRequest) (now later : ℕ) (s : CallerSession)
      → Map.get uid m.sessions ≡ some s
      → s.mode ≡ inactive
      → check debug m req uid now later ≡ (m, deny not_activated)
  unfolding check check_session
  check_inactive m req now later s e t = rw (e, check) (ground arith)

  decisions_inactive :
      (rs : Requests) (m : SessionManager) (s : CallerSession)
      → Map.get uid m.sessions ≡ some s
      → s.mode ≡ inactive
      → All (λ d. d ≡ deny not_activated) (decisions m rs)
  decisions_inactive [] m s e t = tt
  decisions_inactive ((req, now, later) ∷ rs) m s e t =
      rw (check_inactive m req now later s e t) (refl, decisions_inactive rs m s e t)

  -- A trusted caller whose next request comes at or after its expiry is refused, and so is every
  -- request after that one, until its mode is set again: its session has become inactive.
  pub decisions_expired :
      (m : SessionManager) (req : JobRequest) (now later expires : ℕ) (s : CallerSession)
      (rs : Requests)
      → Map.get uid m.sessions ≡ some s
      → s.mode ≡ trust
      → s.trust_expires ≡ some expires
      → expires ≤ now
      → (denied : List SessionDecision) × (decisions m ((req, now, later) ∷ rs)
          ≡ deny trust_expired ∷ denied)
        × All (λ d. d ≡ deny not_activated) denied
  decisions_expired m req now later expires s rs e t x h =
      rw (check_trusted m req now later expires s e t x, overdue)
        (
          decisions closed_now rs,
          refl,
          decisions_inactive rs closed_now closed (Map.get-insert_self uid closed m.sessions) refl,
        )
    where
      overdue : leb expires now ≡ true
      overdue = ground arith

      closed : CallerSession
      closed = record s { mode = inactive; trust_expires = none }

      closed_now : SessionManager
      closed_now = record m { sessions = Map.insert uid closed m.sessions }

  -- Every request comes before trust runs out, which each one puts off by the window.
  abbrev pub InWindow : ℕ → ℕ → Requests → Type 0
  InWindow expires window [] = Unit {0}
  InWindow expires window ((req, now, later) ∷ rs) =
      (now < expires) × InWindow (later + window) window rs

  -- A trusted caller that never lets the timeout pass between two requests is never refused.
  decisions-InWindow :
      (rs : Requests) (m : SessionManager) (s : CallerSession) (expires : ℕ)
      → Map.get uid m.sessions ≡ some s
      → s.mode ≡ trust
      → s.trust_expires ≡ some expires
      → InWindow expires (from_secs (u64 (s.trust_timeout_mins * 60))) rs
      → All (λ d. d ≡ allow) (decisions m rs)
  decisions-InWindow [] m s expires e t x w = tt
  decisions-InWindow ((req, now, later) ∷ rs) m s expires e t x w =
      rw (check_trusted m req now later expires s e t x, in_time)
        (
          refl,
          decisions-InWindow rs _ renewed _ (Map.get-insert_self uid renewed m.sessions) t refl w.1,
        )
    where
      in_time : leb expires now ≡ false
      in_time = ground (arith, w.0)

      renewed : CallerSession
      renewed = record s {
        trust_expires = some (later + from_secs (u64 (s.trust_timeout_mins * 60)));
      }
