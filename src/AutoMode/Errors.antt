-- ===== src/AutoMode/Errors.antt =====
-- How an attempt's exception is classified: core/exceptions.py's classes as far as
-- mm_gateway/services_selection.py looks at them.
use mm_gateway.Prelude.{
  ℕ, String, Bool, true, false, ◌&&◌, not, List, [], ◌∷◌, ltb, leb, contains, nat_eq, string_eq,
  ◌==◌, if◌then◌else◌,
}

pub data Failure : Type 0 where
  -- `ProviderTimeoutError`
  provider_timeout : Failure
  -- `ProviderRequestError`, with its status code
  provider_request : ℕ → Failure
  -- any other `GatewayError`, with its code and status code
  gateway_error : String → ℕ → Failure
  -- any other exception
  other_exception : Failure

abbrev pub terminal_codes : List String
terminal_codes =
    "invalid_request_error" ∷ "unsupported_feature" ∷ "forbidden" ∷ "unauthorized"
    ∷ "validation_error" ∷ "conflict" ∷ "model_not_found" ∷ "task_not_found" ∷ "task_failed" ∷ []

unfoldable pub is_retryable : Failure → Bool
is_retryable provider_timeout = true
is_retryable (provider_request status) = contains (429 ∷ 502 ∷ 503 ∷ 504 ∷ []) status
is_retryable (gateway_error code status) =
    if contains terminal_codes code then false else not (leb 400 status && ltb status 500)
is_retryable other_exception = true

unfoldable pub is_rate_limited : Failure → Bool
is_rate_limited (provider_request status) = status == 429
is_rate_limited _ = false

-- `_failure_reason` of auto_mode.py
pub data Reason : Type 0 where
  timeout rate_limited provider_unavailable over_budget model_retired : Reason

unfoldable pub failure_reason : Failure → Reason
unfolding is_rate_limited
failure_reason provider_timeout = timeout
failure_reason e = if is_rate_limited e then rate_limited else provider_unavailable
