-- ===== src/Client/Creation.antt =====
-- Errors of requests, and of the one that creates an instance (internal/playflow/client.go).
use nakama_playflow.Base.{
  ℕ, ◌≤◌, ◌≡◌, refl, sym, subst, ◌∙◌, inl, inr, Bool, true, false, not, ◌&&◌, ◌||◌, Option, none,
  some, Text, text_eq, text_eqb, ◌==◌, nat_eq, leb, ltb, length, bytes, pos, negsuc, ℤ, is_blank,
  is_empty, exists, arith, parse_int, Bool-cases, Option-cases,
}
use nakama_playflow.Provider.{Instance}
use nakama_playflow.Provider.Request.{StartRequest}
use nakama_playflow.Client.Errors.{Cause, ApiError, local_error, retryable, Outcome, done, failed}
use nakama_playflow.Client.Requests.{
  hour, until_deadline, wait_for, parse_retry_after, Exchange, Call, Input, accepts, max_body_bytes,
  read_body, read_response, before_exchange, request,
}
use nakama_playflow.Client.Operations.{
  valid_id, is_negative, is_ttl, valid_port, check_started, start,
}

until_deadline-le : (now : ℕ) (o : Option ℕ) → until_deadline now o ≤ hour
until_deadline-le now none = omega arith
until_deadline-le now (some d) = ground arith

wait_for-le :
    (parse_time : Text → Option ℕ) (now : ℕ) (value : Text) (o : Option ℤ)
    → wait_for parse_time now value o ≤ hour
wait_for-le parse_time now value none = until_deadline-le now (parse_time value)
wait_for-le parse_time now value (some (negsuc n)) = omega arith
wait_for-le parse_time now value (some (pos n)) = ground arith

pub parse_retry_after-le :
    (parse_time : Text → Option ℕ) (value : Text) (now : ℕ)
    → parse_retry_after parse_time value now ≤ hour
unfolding parse_retry_after
parse_retry_after-le parse_time value now = wait_for-le parse_time now value (parse_int value)

-- Whether the exchange may have left an instance behind: it went out, and was not refused.
abbrev pub may_have_created : Exchange → Bool
may_have_created Exchange.unmade = false
may_have_created (Exchange.lost cause) = true
may_have_created (Exchange.response status retry body) =
    leb 200 status && ltb status 300 || leb 500 status || status == 408

-- What holds of the error of a request that creates: it is marked exactly if the exchange may have
-- left an instance behind, a new attempt is called safe only after a refusal for the rate of requests,
-- and the pause that is asked for is an hour at most.
pub record IsHonest (x : Exchange) (e : ApiError) : Type 0 where
  pub marked : e.outcome_unknown ≡ may_have_created x
  pub once : retryable e ≡ true → e.status_code ≡ 429
  pub patient : e.retry_after ≤ hour

failed-injective {ℓ} :
    {A : Type ℓ} {a b : ApiError} → ◌≡◌ {A = Outcome A} (failed a) (failed b) → a ≡ b
failed-injective h = cc

-- An error of this kind, which no exchange has caused, calls for no new attempt.
unsent-IsHonest :
    (operation : Text) (e : ApiError)
    → local_error operation (bytes "invalid_request") ≡ e
    → IsHonest Exchange.unmade e
unfolding retryable text_eqb
unsent-IsHonest operation e h =
    subst (IsHonest Exchange.unmade) h
      (record { marked = refl; once = λ r. cc; patient = omega arith })

lost-IsHonest :
    (operation : Text) (cause : Cause) (e : ApiError)
    → record (local_error operation (bytes "transport_error")) {
      outcome_unknown = true;
      cause = cause;
    }
      ≡ e
    → IsHonest (Exchange.lost cause) e
unfolding retryable
lost-IsHonest operation cause e h =
    subst (IsHonest (Exchange.lost cause)) h
      (record { marked = refl; once = λ r. cc; patient = omega arith })

body-IsHonest :
    {A : Type 0} (operation retry : Text) (status : ℕ) (decode : Text → Option A)
    (body : Option Text) (e : ApiError)
    → (ltb status 200 || leb 300 status) ≡ false
    → read_body operation true status decode body ≡ failed e
    → IsHonest (Exchange.response status retry body) e
unfolding retryable
body-IsHonest operation retry status decode none e g h =
    subst (IsHonest (Exchange.response status retry none)) (failed-injective h)
      (record { marked = ground arith; once = λ r. cc; patient = omega arith })
body-IsHonest operation retry status decode (some body) e g h =
    elim (Bool-cases (ltb max_body_bytes (length body))) [
      | inl f ↦
          subst (IsHonest (Exchange.response status retry (some body)))
            (failed-injective (rw f at h))
            (record { marked = ground arith; once = λ r. cc; patient = omega arith })
      | inr f ↦ elim (Option-cases (decode body)) [
        | inr (a, d) ↦ cc (rw (f, d) at h)
        | inl d ↦
            subst (IsHonest (Exchange.response status retry (some body)))
              (failed-injective (rw (f, d) at h))
              (record { marked = ground arith; once = λ r. cc; patient = omega arith })
      ]
    ]

response-IsHonest :
    {A : Type 0} (operation : Text) (decode : Text → Option A) (call : Call) (x : Exchange)
    (e : ApiError)
    → read_response operation true decode call x ≡ failed e
    → IsHonest x e
unfolding retryable text_eqb
response-IsHonest operation decode call Exchange.unmade e h =
    unsent-IsHonest operation e (failed-injective h)
response-IsHonest operation decode call (Exchange.lost cause) e h =
    lost-IsHonest operation cause e (failed-injective h)
response-IsHonest operation decode call (Exchange.response status retry body) e h =
    elim (Bool-cases (ltb status 200 || leb 300 status)) [
      | inr g ↦ body-IsHonest operation retry status decode body e g (rw g at h)
      | inl g ↦
          subst (IsHonest (Exchange.response status retry body)) (failed-injective (rw g at h))
            (record {
              marked = ground arith;
              once = λ r. ground arith;
              patient = parse_retry_after-le call.parse_time retry call.now;
            })
    ]

-- Whether a request to create an instance leaves the process.
abbrev pub is_live : Cause → Bool
is_live Cause.no_cause = true
is_live _ = false

abbrev pub is_in_order : StartRequest → Bool
is_in_order input =
    not (is_blank input.name || is_blank input.region)
    && not (is_negative input.version || not (is_ttl input.ttl))
    && not (exists (λ p. not (valid_port p)) input.port_configs)

abbrev pub leaves : (StartRequest → Input) → StartRequest → Call → Bool
leaves marshal input call = is_in_order input && is_live call.ended && accepts (marshal input)

-- What is settled here is known to have created nothing, and is no reason to try again.
pub record IsLocal (e : ApiError) : Type 0 where
  pub known : e.outcome_unknown ≡ false
  pub final : retryable e ≡ false
  pub patient : e.retry_after ≤ hour

done_created :
    {A : Type 0} (operation : Text) (decode : Text → Option A) (call : Call) (x : Exchange) (a : A)
    → read_response operation true decode call x ≡ done a
    → may_have_created x ≡ true
done_created operation decode call Exchange.unmade a h = cc
done_created operation decode call (Exchange.lost cause) a h = cc
done_created operation decode call (Exchange.response status retry body) a h =
    elim (Bool-cases (ltb status 200 || leb 300 status)) [
      | inl g ↦ cc (rw g at h)
      | inr g ↦ ground arith
    ]

started-IsHonest :
    (decode : Text → Option Instance) (call : Call) (e : ApiError) (r : Outcome Instance)
    → read_response (bytes "start") true decode call call.exchange ≡ r
    → check_started r ≡ failed e
    → IsHonest call.exchange e
unfolding retryable text_eqb
started-IsHonest decode call e (failed d) g h =
    response-IsHonest (bytes "start") decode call call.exchange e (g ∙ h)
started-IsHonest decode call e (done i) g h =
    elim (Bool-cases (not (valid_id i.instance_id) || is_empty i.status)) [
      | inr f ↦ cc (rw f at h)
      | inl f ↦ subst (IsHonest call.exchange) (failed-injective (rw f at h)) (record {
        marked = sym (done_created (bytes "start") decode call call.exchange i g);
        once = λ r. cc;
        patient = omega arith;
      })
    ]

refused-IsLocal :
    (d e : ApiError)
    → d.outcome_unknown ≡ false
    → retryable d ≡ false
    → d.retry_after ≤ hour
    → ◌≡◌ {A = Outcome Instance} (failed d) (failed e)
    → IsLocal e
refused-IsLocal d e u r p h =
    subst IsLocal (failed-injective h) (record { known = u; final = r; patient = p })

abbrev Verdict : Bool → Exchange → ApiError → Type 0
Verdict sent x e = (sent ≡ true → IsHonest x e) × (sent ≡ false → IsLocal e)

local_verdict : (x : Exchange) (e : ApiError) → IsLocal e → Verdict false x e
local_verdict x e l = (λ h. cc, λ h. l)

-- The part of the request that follows the test of the context.
exchanged :
    (input : Input) (decode : Text → Option Instance) (call : Call) (e : ApiError)
    → check_started (
        before_exchange
          (bytes "start")
          input
          (read_response (bytes "start") true decode call call.exchange))
      ≡ failed e
    → Verdict (accepts input) call.exchange e
unfolding retryable text_eqb
exchanged input decode call e h = elim (Bool-cases (accepts input)) [
  | inl a ↦ rw a (
    λ g.
        started-IsHonest decode call e
          (read_response (bytes "start") true decode call call.exchange) refl (rw a at h),
    λ g. cc,
  )
  | inr a ↦ rw a (
      local_verdict call.exchange e (
        refused-IsLocal (local_error (bytes "start") (bytes "invalid_request_body")) e refl refl
          (omega arith) (rw a at h)))
]

requested :
    (ended : Cause) (input : Input) (decode : Text → Option Instance) (call : Call) (e : ApiError)
    → check_started (request (bytes "start") true input decode (record call { ended = ended }))
      ≡ failed e
    → Verdict (is_live ended && accepts input) call.exchange e
unfolding request retryable text_eqb
requested Cause.no_cause input decode call e h =
    exchanged input decode (record call { ended = Cause.no_cause }) e h
requested Cause.canceled input decode call e h =
    local_verdict call.exchange e (refused-IsLocal _ e refl refl (omega arith) h)
requested Cause.deadline_exceeded input decode call e h =
    local_verdict call.exchange e (refused-IsLocal _ e refl refl (omega arith) h)

-- A start that fails either never left the process, and then it is known to have created nothing and is
-- no reason to try again; or its error is marked exactly if the exchange may have left an instance
-- behind, calls a new attempt safe only after a refusal with status 429, and asks for a pause of an
-- hour at most.
pub start-IsHonest :
    (marshal : StartRequest → Input) (decode : Text → Option Instance) (input : StartRequest)
    (call : Call) (e : ApiError)
    → start marshal decode input call ≡ failed e
    → (leaves marshal input call ≡ true → IsHonest call.exchange e)
      × (leaves marshal input call ≡ false → IsLocal e)
unfolding start retryable text_eqb
start-IsHonest marshal decode input call e h =
    elim (Bool-cases (is_blank input.name || is_blank input.region)) [
      | inl a ↦
          rw a (
            local_verdict call.exchange e (refused-IsLocal _ e refl refl (omega arith) (rw a at h)))
      | inr a ↦ elim (Bool-cases (is_negative input.version || not (is_ttl input.ttl))) [
        | inl b ↦
            rw (a, b)
              (local_verdict call.exchange e
                (refused-IsLocal _ e refl refl (omega arith) (rw (a, b) at h)))
        | inr b ↦ elim (Bool-cases (exists (λ p. not (valid_port p)) input.port_configs)) [
          | inl d ↦
              rw (a, b, d)
                (local_verdict call.exchange e
                  (refused-IsLocal _ e refl refl (omega arith) (rw (a, b, d) at h)))
          | inr d ↦
              rw (a, b, d) (requested call.ended (marshal input) decode call e (rw (a, b, d) at h))
        ]
      ]
    ]
