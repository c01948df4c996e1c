-- ===== src/Policy/Remembered.antt =====
-- What the policy checker decides, and what an approval that it remembers changes.
use a_hand.Base.{
  ◌≡◌, refl, Bool, true, false, not, ◌&&◌, ◌||◌, List, [], ◌∷◌, Option, arith, ◌==◌, keep, any,
  elem, Bool-cases, inl, inr,
}
use a_hand.Base.Text.{Text, text_eq, text_beq_iff, is_empty, starts_with}
use a_hand.Base.Map
use a_hand.Wire.{JobRequest}
use a_hand.Policy.{
  allow, needs_approval, PolicyChecker, extract_domains, tool_key, domain_key, approvals_of, is_nil,
  check, set_insert, insert_domains, remember_approval,
}

elem-set_insert : (x a : Text) (s : List Text) → elem x (set_insert a s) ≡ (a == x || elem x s)
elem-set_insert x a s = ground (arith, text_beq_iff a x)

insert_domains_keeps :
    (x : Text) (ds s : List Text) → elem x s ≡ true → elem x (insert_domains ds s) ≡ true
unfolding insert_domains
insert_domains_keeps x [] s h = h
insert_domains_keeps x (d ∷ ds) s h =
    insert_domains_keeps x ds (set_insert (domain_key d) s)
      (ground (arith, elem-set_insert x (domain_key d) s))

insert_domains_adds :
    (x : Text) (ds s : List Text)
    → elem x ds ≡ true
    → elem (domain_key x) (insert_domains ds s) ≡ true
unfolding insert_domains
insert_domains_adds x [] s h = cc
insert_domains_adds x (d ∷ ds) s h = elim (Bool-cases (d == x)) [
  | inl e ↦ insert_domains_keeps (domain_key x) ds (set_insert (domain_key d) s) (
      ground (
        arith,
        elem-set_insert (domain_key x) (domain_key d) s,
        text_beq_iff d x,
        text_beq_iff (domain_key d) (domain_key x),
      ))
  | inr e ↦ insert_domains_adds x ds (set_insert (domain_key d) s) (ground (arith, e))
]

elem-keep :
    (p : Text → Bool) (x : Text) (ds : List Text)
    → elem x ds ≡ true
    → p x ≡ true
    → elem x (keep p ds) ≡ true
elem-keep p x [] h k = cc
elem-keep p x (d ∷ ds) h k = ground (arith, text_beq_iff d x, elem-keep p x ds)

keep_none :
    (p : Text → Bool) (ds : List Text)
    → ((x : Text) → elem x ds ≡ true → p x ≡ false)
    → keep p ds ≡ []
keep_none p [] h = refl
keep_none p (d ∷ ds) h =
    rw (h d (ground (arith, text_beq_iff d d))) (keep_none p ds (λ x k. h x (ground (arith, k))))

module _ (url_host : Text → Option Text) (debug : Text → Text) (c : PolicyChecker)
    (req : JobRequest) (caller_uid : Text) where
  detected : List Text
  detected = extract_domains url_host req.tool req.args

  approved : List Text
  approved =
      insert_domains detected
        (set_insert (tool_key req.tool) (approvals_of (Map.get caller_uid c.session_approvals)))

  tool_approved : elem (tool_key req.tool) approved ≡ true
  unfolding approved
  tool_approved =
      insert_domains_keeps (tool_key req.tool) detected
        (set_insert (tool_key req.tool) (approvals_of (Map.get caller_uid c.session_approvals)))
        (ground (
          arith,
          elem-set_insert (tool_key req.tool) (tool_key req.tool)
              (approvals_of (Map.get caller_uid c.session_approvals)),
          text_beq_iff (tool_key req.tool) (tool_key req.tool),
        ))

  none_unapproved :
      keep
        (λ d.
          not (elem d c.config.allowed_domains)
          && not (elem d (keep (λ x. elem (domain_key x) approved) detected)))
        detected
      ≡ []
  unfolding approved
  none_unapproved =
      keep_none
        (λ d.
          not (elem d c.config.allowed_domains)
          && not (elem d (keep (λ x. elem (domain_key x) approved) detected)))
        detected
        (λ x k. ground (
          arith,
          elem-keep (λ d. elem (domain_key d) approved) x detected k
              (insert_domains_adds x detected
                (set_insert (tool_key req.tool)
                  (approvals_of (Map.get caller_uid c.session_approvals)))
                k),
        ))

  not_denied :
      (reason : Text) (domains : List Text)
      → check url_host debug c req caller_uid ≡ needs_approval reason domains
      → (elem req.tool c.config.denied_tools ≡ false)
        × ((not (is_empty req.cwd)
              && any (λ denied. starts_with denied req.cwd) c.config.denied_paths)
            ≡ false)
        × (domains ≡ detected)
  unfolding check detected
  not_denied reason domains h = ground arith

  -- Once an approval that `check` asked for is remembered with the domains it named, the same
  -- request of the same caller is allowed.
  pub check-remember_approval :
      (reason : Text) (domains : List Text)
      → check url_host debug c req caller_uid ≡ needs_approval reason domains
      → check url_host debug (remember_approval c caller_uid req.tool domains) req caller_uid
        ≡ allow
  unfolding check remember_approval detected approved
  check-remember_approval reason domains h =
      let facts = not_denied reason domains h in
      rw
        (
          facts.2,
          Map.get-insert_self caller_uid approved c.session_approvals,
          facts.0,
          facts.1,
          now_allowed,
          none_blocked,
        )
        refl
    where
      now_allowed :
          (is_nil c.config.allowed_tools
            || (elem req.tool c.config.allowed_tools || elem (tool_key req.tool) approved))
          ≡ true
      now_allowed = ground (arith, tool_approved)

      none_blocked :
          ((not (is_nil detected) && not (is_nil c.config.allowed_domains))
            && not (
                is_nil (
                  keep
                    (λ d.
                      not (elem d c.config.allowed_domains)
                      && not (elem d (keep (λ x. elem (domain_key x) approved) detected)))
                    detected)))
          ≡ false
      none_blocked = rw none_unapproved (ground arith)

  -- Remembering an approval of one caller changes no decision for another.
  check-remember_approval_other :
      (other tool : Text) (domains : List Text)
      → (other == caller_uid) ≡ false
      → check url_host debug (remember_approval c other tool domains) req caller_uid
        ≡ check url_host debug c req caller_uid
  unfolding check remember_approval
  check-remember_approval_other other tool domains h =
      rw
        (
          Map.get-insert other caller_uid
              (insert_domains domains
                (set_insert (tool_key tool) (approvals_of (Map.get other c.session_approvals))))
              c.session_approvals,
          h,
        )
        refl
