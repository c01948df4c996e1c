-- ===== src/Session/Refusals.antt =====
-- The refusal log: what is recorded is seen for 24 hours by requests for its tool, and pruning
-- hides nothing.
use a_hand.Base.{
  ℕ, ◌+◌, ◌≤◌, ◌≡◌, refl, List, [], ◌∷◌, ◌++◌, map, arith, ltb, ◌==◌, if◌then◌else◌, keep, ◌&&◌,
  nat_eq,
}
use a_hand.Base.Text.{Text, text_eq}
use a_hand.Wire.{RefusalContext}
use a_hand.Session.{SessionManager, RefusalEntry, get_refusals, record_refusal}

abbrev context : RefusalEntry → RefusalContext
context e = record { tool = e.tool; reason = e.reason; refused_at_ms = e.refused_at_ms }

visible : Text → ℕ → List RefusalEntry → List RefusalContext
visible tool now log =
    map (λ (e : RefusalEntry). context e)
      (keep (λ (e : RefusalEntry). e.tool == tool)
        (keep (λ (e : RefusalEntry). ltb now e.expires_at) log))

get_refusals-visible :
    (m : SessionManager) (tool : Text) (now : ℕ)
    → get_refusals m tool now ≡ (
      record m { refusal_log = keep (λ (e : RefusalEntry). ltb now e.expires_at) m.refusal_log },
      visible tool now m.refusal_log,
    )
unfolding get_refusals visible
get_refusals-visible m tool now = refl

visible-append :
    (tool : Text) (now : ℕ) (log : List RefusalEntry) (e : RefusalEntry)
    → visible tool now (log ++ (e ∷ []))
      ≡ visible tool now log
        ++ (if ltb now e.expires_at && e.tool == tool then context e ∷ [] else [])
unfolding visible
visible-append tool now [] e = ground arith
visible-append tool now (f ∷ log) e = ground (arith, visible-append tool now log e)

-- A refusal recorded at `at` is, for the 24 hours from then, the last of the refusals that a
-- lookup of its tool returns; a lookup of another tool, or a later one, does not see it; and all
-- refusals recorded before are seen as they were.
get_refusals-record_refusal :
    (m : SessionManager) (uid tool reason other : Text) (at unix_ms now : ℕ)
    → (get_refusals (record_refusal m uid tool reason at unix_ms) other now).1
      ≡ (get_refusals m other now).1
        ++ (if ltb now (at + 86400000000000) && tool == other
            then record { tool = tool; reason = reason; refused_at_ms = unix_ms } ∷ []
            else [])
unfolding record_refusal
get_refusals-record_refusal m uid tool reason other at unix_ms now =
    rw
      (
        get_refusals-visible (record_refusal m uid tool reason at unix_ms) other now,
        get_refusals-visible m other now,
      )
      (visible-append other now m.refusal_log _)

visible-keep :
    (tool : Text) (now later : ℕ) (log : List RefusalEntry)
    → now ≤ later
    → visible tool later (keep (λ (e : RefusalEntry). ltb now e.expires_at) log)
      ≡ visible tool later log
unfolding visible
visible-keep tool now later [] h = refl
visible-keep tool now later (e ∷ log) h = ground (arith, visible-keep tool now later log h)

-- A lookup drops expired refusals from the log, but no lookup at the same time or later, for any
-- tool, returns anything else for that.
get_refusals_twice :
    (m : SessionManager) (tool other : Text) (now later : ℕ)
    → now ≤ later
    → (get_refusals (get_refusals m tool now).0 other later).1 ≡ (get_refusals m other later).1
get_refusals_twice m tool other now later h =
    rw
      (
        get_refusals-visible m tool now,
        get_refusals-visible m other later,
        get_refusals-visible _ other later,
      )
      (visible-keep other now later m.refusal_log h)
