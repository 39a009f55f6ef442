-- ===== src/Llm/Fallback.antt =====
-- llm/fallback_policy.py: the primary provider with its retries, and the fallback. `primary k` is
-- what the k-th call of the primary provider does; logging is left out.
use pages_to_rgb.Prelude.{ℕ, String, Option, none, some, zero, suc, ◌+◌, str_eq, if◌then◌else◌}

pub data FallbackTrigger : Type 0 where
  timeout rate_limited server_error unavailable schema_invalid : FallbackTrigger

-- An exception: the two classes of common/errors.py by their reason code, or any other.
pub data Raised : Type 0 where
  retryable : String → Raised
  non_retryable : String → Raised
  other : String → Raised

pub data Attempt (A : Type 0) : Type 0 where
  returned : A → Attempt A
  raised : Raised → Attempt A

retryable_trigger : String → Option FallbackTrigger
retryable_trigger code =
    if str_eq code "LLM_TIMEOUT"
    then some timeout
    else if str_eq code "LLM_RATE_LIMITED"
    then some rate_limited
    else if str_eq code "LLM_PROVIDER_ERROR"
    then some server_error
    else none

non_retryable_trigger : String → Option FallbackTrigger
non_retryable_trigger code =
    if str_eq code "LLM_SCHEMA_INVALID"
    then some schema_invalid
    else if str_eq code "LLM_SCHEMA_REPAIR_FAILED"
    then some schema_invalid
    else if str_eq code "LLM_ALL_PROVIDERS_FAILED"
    then some unavailable
    else none

unfoldable pub classify_error : Raised → Option FallbackTrigger
unfolding retryable_trigger non_retryable_trigger
classify_error (retryable code) = retryable_trigger code
classify_error (non_retryable code) = non_retryable_trigger code
classify_error (other name) = none

-- A run: what it returns or raises, and how often it called each provider.
pub record Run (A : Type 0) : Type 0 where
  pub outcome : Attempt (A × String)
  pub primary_calls : ℕ
  pub fallback_calls : ℕ

module _ {A : Type 0} (primary : ℕ → Attempt A) (fallback : Attempt A) where
  answer_of : Attempt A → Attempt (A × String)
  answer_of (returned a) = returned (a, "deepseek")
  answer_of (raised x) = raised (non_retryable "LLM_ALL_PROVIDERS_FAILED")

  unfoldable pub call_fallback : ℕ → Run A
  unfolding answer_of
  call_fallback calls = record {
    outcome = answer_of fallback;
    primary_calls = calls;
    fallback_calls = 1;
  }

  -- After a failed call: the rest of the loop, unless the error is no technical failure.
  unfoldable pub after_error : Option FallbackTrigger → Raised → ℕ → Run A → Run A
  after_error none x calls rest = record {
    outcome = raised x;
    primary_calls = calls;
    fallback_calls = 0;
  }
  after_error (some t) x calls rest = rest

  unfoldable pub after_attempt : Attempt A → ℕ → Run A → Run A
  after_attempt (returned a) calls rest = record {
    outcome = returned (a, "anthropic");
    primary_calls = calls;
    fallback_calls = 0;
  }
  after_attempt (raised x) calls rest = after_error (classify_error x) x calls rest

  -- `n` attempts are left, and the next one is the k-th.
  unfoldable pub attempt_from : ℕ → ℕ → Run A
  attempt_from zero k = call_fallback k
  attempt_from (suc n) k = after_attempt (primary k) (k + 1) (attempt_from n (k + 1))

  unfoldable pub run_with_fallback : ℕ → Run A
  run_with_fallback max_retries = attempt_from (max_retries + 1) 0
