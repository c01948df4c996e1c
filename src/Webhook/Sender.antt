-- ===== src/Webhook/Sender.antt =====
-- The sending of one webhook, crates/ahand-hub/src/webhook/sender.rs. The HMAC in hexadecimal, the
-- JSON of a payload and the answer of the HTTP request are parameters.
use a_hand.Base.{
  ℕ, zero, suc, ◌*◌, ◌≡◌, ◌≤◌, Bool, ◌&&◌, Option, none, some, [], ◌∷◌, ◌++◌, leb, nat_beq, refl,
  sym, ap, ◌∙◌, if◌then◌else◌, ◌==◌, arith, All,
}
use a_hand.Base.Text.{
  Text, text_eq, codes, decimal, value, value-decimal, IsDigit, decimal-IsDigit, before,
  before-append,
}
use a_hand.Webhook.{WebhookPayload, SendOutcome, success, permanent_failure, retry_later}

-- What the HMAC reads: the time of signing, a dot, and the body.
unfoldable pub signed_bytes : ℕ → Text → Text
signed_bytes timestamp_secs raw_body = decimal timestamp_secs ++ (46 ∷ raw_body)

module _ (hmac : Text → Text → Text) where
  unfoldable pub sign : Text → ℕ → Text → Text
  unfolding signed_bytes
  sign secret timestamp_secs raw_body =
      codes "sha256=" ++ hmac secret (signed_bytes timestamp_secs raw_body)

  unfoldable pub verify : Text → ℕ → Text → Text → Bool
  unfolding sign
  verify secret timestamp_secs raw_body signature_header =
      sign secret timestamp_secs raw_body == signature_header

-- An HTTP status, or the text of a transport error.
pub data Response : Type 0 where
  status : ℕ → Response
  transport_error : Text → Response

abbrev pub status_reason : ℕ → Text
status_reason code = codes "status " ++ decimal code

unfoldable pub classify : Response → SendOutcome
classify (transport_error e) = retry_later (codes "transport error: " ++ e)
classify (status code) =
    if leb 200 code && leb code 299
    then success
    else if leb 500 code && leb code 599
    then retry_later (status_reason code)
    else if nat_beq code 429
    then retry_later (status_reason code)
    else permanent_failure (status_reason code)

-- `none` is a payload that does not serialize; the request is sent with the signature of `now`.
unfoldable pub send_once :
    (Text → Text → Text)
    → (WebhookPayload → Option Text)
    → (Text → Text → Response)
    → Text
    → WebhookPayload
    → ℕ
    → SendOutcome
unfolding sign classify
send_once hmac to_vec post secret payload now = elim (to_vec payload) [
  | none ↦ permanent_failure (codes "serialize payload")
  | some body ↦ classify (post body (sign hmac secret now body))
]

abbrev pub pow2 : ℕ → ℕ
pow2 zero = 1
pow2 (suc n) = 2 * pow2 n

unfoldable pub backoff_secs : ℕ → ℕ
backoff_secs zero = 1
backoff_secs (suc n) = if leb 8 (suc n) then 256 else pow2 (suc n)

digits_no_dot : (s : Text) → All IsDigit s → All (λ a. a ≡ 46 → ⊥) s
digits_no_dot [] h = tt
digits_no_dot (c ∷ s) h = ((λ e. omega (arith, h.0, e)), digits_no_dot s h.1)

read_time : (t : ℕ) (body : Text) → value (before 46 (signed_bytes t body)) ≡ t
unfolding signed_bytes
read_time t body =
    ap value (before-append 46 (decimal t) body (digits_no_dot (decimal t) (decimal-IsDigit t)))
    ∙ value-decimal t

after_same : (s t u : Text) → s ++ t ≡ s ++ u → t ≡ u
after_same [] t u e = e
after_same (c ∷ s) t u e = after_same s t u (ground (arith, e))

-- No two pairs of a signing time and a body give the HMAC the same bytes, so that a captured body
-- cannot be signed for another time by moving digits between the two.
signed_bytes_injective :
    (t t' : ℕ) (body body' : Text)
    → signed_bytes t body ≡ signed_bytes t' body'
    → (t ≡ t') × (body ≡ body')
unfolding signed_bytes
signed_bytes_injective t t' body body' e =
    let same : t ≡ t' =
      sym (read_time t body) ∙ ap (λ s. value (before 46 s)) e ∙ read_time t' body' in
    (
      same,
      ground (
        arith,
        after_same (decimal t) (46 ∷ body) (46 ∷ body')
            (e ∙ ap (λ n. decimal n ++ (46 ∷ body')) (sym same)),
      ),
    )

pow2_large : (n : ℕ) → 256 ≤ pow2 (suc (suc (suc (suc (suc (suc (suc (suc n))))))))
pow2_large zero = omega arith
pow2_large (suc n) = omega (arith, pow2_large n)

-- The delay doubles with every failed attempt, from one second, until it stays at 256 seconds.
backoff_secs-doubles : (n : ℕ) → backoff_secs n ≡ (if leb (pow2 n) 256 then pow2 n else 256)
unfolding backoff_secs
backoff_secs-doubles zero = refl
backoff_secs-doubles (suc zero) = refl
backoff_secs-doubles (suc (suc zero)) = refl
backoff_secs-doubles (suc (suc (suc zero))) = refl
backoff_secs-doubles (suc (suc (suc (suc zero)))) = refl
backoff_secs-doubles (suc (suc (suc (suc (suc zero))))) = refl
backoff_secs-doubles (suc (suc (suc (suc (suc (suc zero)))))) = refl
backoff_secs-doubles (suc (suc (suc (suc (suc (suc (suc zero))))))) = refl
backoff_secs-doubles (suc (suc (suc (suc (suc (suc (suc (suc n)))))))) =
    ground (arith, pow2_large n)
