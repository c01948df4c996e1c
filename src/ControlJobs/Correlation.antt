-- ===== src/ControlJobs/Correlation.antt =====
-- Correlation ids: keys are told apart, and a live job is found again under its own.
use a_hand.Base.{
  ℕ, ◌≡◌, ◌&&◌, refl, sym, ap, ◌∙◌, [], ◌∷◌, ◌++◌, some, arith, ◌==◌, if◌then◌else◌, length, All,
}
use a_hand.Base.Text.{
  Text, text_eq, text_beq_iff, decimal, value, value-decimal, IsDigit, decimal-IsDigit, before,
  before-append,
}
use a_hand.Base.Map
use a_hand.ControlJobs.{ControlJobTracker, correlation_key, register, find_by_correlation}

digits_no_colon : (s : Text) → All IsDigit s → All (λ a. a ≡ 58 → ⊥) s
digits_no_colon [] h = tt
digits_no_colon (c ∷ s) h = ((λ e. omega (arith, h.0, e)), digits_no_colon s h.1)

-- Texts of one length in front of what follows are the same texts.
split_append : (a b s t : Text) → length a ≡ length b → a ++ s ≡ b ++ t → (a ≡ b) × (s ≡ t)
split_append [] [] s t l e = (refl, e)
split_append [] (y ∷ b) s t l e = ground arith
split_append (x ∷ a) [] s t l e = ground arith
split_append (x ∷ a) (y ∷ b) s t l e = ground (arith, split_append a b s t)

same_length :
    (u u' c c' : Text) → correlation_key u c ≡ correlation_key u' c' → length u ≡ length u'
unfolding correlation_key
same_length u u' c c' e =
    sym (value-decimal (length u)) ∙ ap value same_digits ∙ value-decimal (length u')
  where
    same_digits : decimal (length u) ≡ decimal (length u')
    same_digits =
        sym (
          before-append 58 (decimal (length u)) (u ++ (58 ∷ c))
            (digits_no_colon (decimal (length u)) (decimal-IsDigit (length u))))
        ∙ ap (before 58) e
        ∙ before-append 58 (decimal (length u')) (u' ++ (58 ∷ c'))
            (digits_no_colon (decimal (length u')) (decimal-IsDigit (length u')))

-- Two pairs of a user and a correlation id have one key only if they are the same pair, whatever
-- colons and digits they hold.
pub correlation_key_injective :
    (u u' c c' : Text) → correlation_key u c ≡ correlation_key u' c' → (u ≡ u') × (c ≡ c')
unfolding correlation_key
correlation_key_injective u u' c c' e =
    let l = same_length u u' c c' e in
    let rest =
      split_append (decimal (length u)) (decimal (length u')) (58 ∷ u ++ (58 ∷ c))
        (58 ∷ u' ++ (58 ∷ c')) (ap (λ n. length (decimal n)) l) e in
    let user = split_append (58 ∷ u) (58 ∷ u') (58 ∷ c) (58 ∷ c') (ground (arith, l)) rest.1 in
    ground (arith, user)

key_eq :
    (user user' cid cid' : Text)
    → (correlation_key user cid == correlation_key user' cid') ≡ (user == user' && cid == cid')
key_eq user user' cid cid' = ground (
  arith,
  text_beq_iff user user',
  text_beq_iff cid cid',
  text_beq_iff (correlation_key user cid) (correlation_key user' cid'),
  correlation_key_injective user user' cid cid',
)

-- A job that is registered with a correlation id is what the same user finds under the same id;
-- the entry of every other pair of a user and an id stays what it was.
find_by_correlation-register :
    (t : ControlJobTracker) (job_id device user cid user' cid' : Text) (now : ℕ)
    → (find_by_correlation (register t job_id device user (some cid) now) user cid
        ≡ (register t job_id device user (some cid) now, some job_id))
      × (Map.get
            (correlation_key user' cid')
            (register t job_id device user (some cid) now).correlation_index
          ≡ (if user == user' && cid == cid'
              then some job_id
              else Map.get (correlation_key user' cid') t.correlation_index))
unfolding register find_by_correlation
find_by_correlation-register t job_id device user cid user' cid' now = (
  rw
      (
        find_by_correlation,
        Map.get-insert_self (correlation_key user cid) job_id t.correlation_index,
        Map.get-insert_self job_id
            (record {
              events = [];
              device_id = device;
              external_user_id = user;
              correlation_id = some cid;
              started_at = now;
            })
            t.jobs,
      )
      refl,
  rw
      (
        Map.get-insert (correlation_key user cid) (correlation_key user' cid') job_id
            t.correlation_index,
        key_eq user user' cid cid',
      )
      refl,
)
