-- ===== src/Client/Errors.antt =====
-- `APIError`, and when a new attempt is safe (internal/playflow/client.go).
use nakama_playflow.Base.{
  ℕ, Bool, true, false, ◌||◌, Text, text_eq, ◌==◌, nat_eq, leb, bytes, if◌then◌else◌,
}
use nakama_playflow.Provider.{CallError, api}

-- The error of the context that an `APIError` wraps, if any.
pub data Cause : Type 0 where
  no_cause canceled deadline_exceeded : Cause

-- `retry_after` is in nanoseconds.
pub record ApiError : Type 0 where
  pub operation : Text
  pub status_code : ℕ
  pub reason : Text
  pub retry_after : ℕ
  pub outcome_unknown : Bool
  pub cause : Cause

-- An error that was made here, with no answer of the provider.
abbrev pub local_error : Text → Text → ApiError
local_error operation reason = record {
  operation = operation;
  status_code = 0;
  reason = reason;
  retry_after = 0;
  outcome_unknown = false;
  cause = Cause.no_cause;
}

abbrev pub is_canceled : Cause → Bool
is_canceled Cause.canceled = true
is_canceled _ = false

-- `Retryable`.
unfoldable pub retryable : ApiError → Bool
retryable e =
    if e.outcome_unknown || is_canceled e.cause
    then false
    else e.reason == bytes "transport_error"
      || e.status_code == 408
      || e.status_code == 429
      || leb 500 e.status_code

-- What the controller reads of the error.
abbrev pub call_error : ApiError → CallError
call_error e = api e.status_code e.outcome_unknown

pub data Outcome {ℓ} (A : Type ℓ) : Type ℓ where
  done : A → Outcome A
  failed : ApiError → Outcome A
