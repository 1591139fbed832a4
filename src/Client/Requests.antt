-- ===== src/Client/Requests.antt =====
-- One request (`request` and `parseRetryAfter`, internal/playflow/client.go).
use nakama_playflow.Base.{
  ℕ, ◌-◌, ◌*◌, Bool, true, false, ◌&&◌, ◌||◌, Option, none, some, Text, ◌==◌, nat_eq, leb, ltb,
  length, bytes, ℤ, pos, negsuc, parse_int, if◌then◌else◌,
}
use nakama_playflow.Client.Errors.{Cause, local_error, Outcome, done, failed}

abbrev pub second : ℕ
second = 1000000000

abbrev pub hour : ℕ
hour = 3600 * second

-- The deadline of a header that is a date, in nanoseconds.
abbrev pub until_deadline : ℕ → Option ℕ → ℕ
until_deadline now none = 0
until_deadline now (some deadline) =
    if ltb now deadline then (if ltb hour (deadline - now) then hour else deadline - now) else 0

abbrev pub wait_for : (Text → Option ℕ) → ℕ → Text → Option ℤ → ℕ
wait_for parse_time now value (some (negsuc n)) = 0
wait_for parse_time now value (some (pos n)) =
    if leb n 0 then 0 else if ltb 3600 n then hour else n * second
wait_for parse_time now value none = until_deadline now (parse_time value)

-- `parseRetryAfter`. `parse_time` is `http.ParseTime`.
unfoldable pub parse_retry_after : (Text → Option ℕ) → Text → ℕ → ℕ
parse_retry_after parse_time value now = wait_for parse_time now value (parse_int value)

-- What `http.Client.Do` comes back with: no request could be made of the URL, the exchange failed, or
-- a response with its status, its header `Retry-After` and its body, `none` if it cannot be read.
pub data Exchange : Type 0 where
  unmade : Exchange
  lost : Cause → Exchange
  response : ℕ → Text → Option Text → Exchange

-- `ctx.Err()` before the request, and the clock that `request` reads.
pub record Call : Type 0 where
  pub ended : Cause
  pub exchange : Exchange
  pub parse_time : Text → Option ℕ
  pub now : ℕ

abbrev pub max_body_bytes : ℕ
max_body_bytes = 4194304

abbrev pub read_body {ℓ} :
    {A : Type ℓ} → Text → Bool → ℕ → (Text → Option A) → Option Text → Outcome A
read_body operation is_post status decode none =
    failed (record (local_error operation (bytes "invalid_response_body")) {
      status_code = status;
      outcome_unknown = is_post;
    })
read_body operation is_post status decode (some body) =
    if ltb max_body_bytes (length body)
    then failed (record (local_error operation (bytes "invalid_response_body")) {
      status_code = status;
      outcome_unknown = is_post;
    })
    else elim (decode body) [
      | some a ↦ done a
      | none ↦ failed (record (local_error operation (bytes "invalid_response_json")) {
        status_code = status;
        outcome_unknown = is_post;
      })
    ]

abbrev pub read_response {ℓ} :
    {A : Type ℓ} → Text → Bool → (Text → Option A) → Call → Exchange → Outcome A
read_response operation is_post decode call Exchange.unmade =
    failed (local_error operation (bytes "invalid_request"))
read_response operation is_post decode call (Exchange.lost cause) =
    failed (record (local_error operation (bytes "transport_error")) {
      outcome_unknown = is_post;
      cause = cause;
    })
read_response operation is_post decode call (Exchange.response status retry body) =
    if ltb status 200 || leb 300 status
    then failed (record (local_error operation (bytes "provider_rejected_request")) {
      status_code = status;
      retry_after = parse_retry_after call.parse_time retry call.now;
      outcome_unknown = is_post && (leb 500 status || status == 408);
    })
    else read_body operation is_post status decode body

-- The body that `json.Marshal` makes of the input: there may be no input, and it may fail.
pub data Input : Type 0 where
  no_input unmarshalable : Input
  body : Text → Input

abbrev pub accepts : Input → Bool
accepts Input.no_input = true
accepts Input.unmarshalable = false
accepts (Input.body b) = leb (length b) max_body_bytes

abbrev pub before_exchange {ℓ} : {A : Type ℓ} → Text → Input → Outcome A → Outcome A
before_exchange operation input next =
    if accepts input then next else failed (local_error operation (bytes "invalid_request_body"))

-- `request`.
unfoldable pub request {ℓ} :
    {A : Type ℓ} → Text → Bool → Input → (Text → Option A) → Call → Outcome A
unfolding parse_retry_after
request operation is_post input decode call = elim call.ended [
  | Cause.no_cause ↦
      before_exchange operation input (read_response operation is_post decode call call.exchange)
  | cause ↦ failed (record (local_error operation (bytes "context_ended")) { cause = cause })
]
