-- ===== src/Resilience/Policy.antt =====
-- packages/model-gateway/src/resilience.ts: the bounded retry policy and the classification of
-- stream events. The default wait, a timer, is an effect of the gateway.
pub mod Backoff
use agent_routebench.Prelude.{
  ℕ, suc, ◌*◌, ◌^◌, ◌≤◌, ◌<◌, Bool, true, false, not, ◌&&◌, String, List, [], ◌∷◌, includes, Option,
  none, some, min, ltb, leb, nat_eq, if◌then◌else◌, Outcome, ok, err, ◌>>=◌, ◌>>◌, ensure,
}
use agent_routebench.Contracts.Value.{
  Number, natural, negative, fraction, infinity, nan, Value, undefined, null, callable, plain,
  instance_of, array, string, property, is_true, max_safe_integer, safe_integer_from,
}
use agent_routebench.Contracts.Events.{ModelStreamEvent, error}

pub record RetryPolicy : Type 0 where
  pub max_attempts_per_provider : ℕ
  pub max_total_attempts : ℕ
  pub initial_backoff_ms : ℕ
  pub max_backoff_ms : ℕ

-- DEFAULT_RETRY_POLICY
abbrev pub default_retry_policy : RetryPolicy
default_retry_policy = record {
  max_attempts_per_provider = 2;
  max_total_attempts = 8;
  initial_backoff_ms = 250;
  max_backoff_ms = 2000;
}

-- ResilienceOptionError
pub data ResilienceError : Type 0 where
  invalid_resilience_options : ResilienceError

abbrev or_invalid : Option ℕ → Outcome ResilienceError ℕ
or_invalid none = err invalid_resilience_options
or_invalid (some n) = ok n

-- readAttemptCount and readDelay, which differ in the least value that they take.
abbrev read_number : ℕ → Value → ℕ → Outcome ResilienceError ℕ
read_number least undefined fallback = ok fallback
read_number least value fallback = or_invalid (safe_integer_from least value)

unfoldable pub read_attempt_count : Value → ℕ → Outcome ResilienceError ℕ
read_attempt_count value fallback = read_number 1 value fallback

unfoldable pub read_delay : Value → ℕ → Outcome ResilienceError ℕ
read_delay value fallback = read_number 0 value fallback

-- `input === undefined`, or an object; a function is none.
abbrev pub is_readable : Value → Bool
is_readable undefined = true
is_readable (plain fs) = true
is_readable (instance_of fs) = true
is_readable (array vs) = true
is_readable _ = false

-- normalizeRetryPolicy. `input?.k` of undefined is undefined.
unfoldable pub normalize_retry_policy : Value → Outcome ResilienceError RetryPolicy
unfolding read_attempt_count read_delay
normalize_retry_policy input = do
  ensure (is_readable input) invalid_resilience_options
  per_provider ←
      read_attempt_count (property "maxAttemptsPerProvider" input)
        default_retry_policy.max_attempts_per_provider
  total ←
      read_attempt_count (property "maxTotalAttempts" input) default_retry_policy.max_total_attempts
  initial ← read_delay (property "initialBackoffMs" input) default_retry_policy.initial_backoff_ms
  most ← read_delay (property "maxBackoffMs" input) default_retry_policy.max_backoff_ms
  ensure (not (ltb most initial)) invalid_resilience_options
  ok (record {
    max_attempts_per_provider = per_provider;
    max_total_attempts = total;
    initial_backoff_ms = initial;
    max_backoff_ms = most;
  })

-- `2 ** index` is the double Infinity from 1024 on, and zero times that is NaN. A safe integer times
-- a power of two is exact where it is finite; where it is not, the bound is the smaller one too.
abbrev double_exponents : ℕ
double_exponents = 1024

abbrev pub retry_index : Number → ℕ
retry_index (natural n) = if leb n max_safe_integer then n else 0
retry_index _ = 0

-- computeBackoffDelayMs
unfoldable pub compute_backoff_delay_ms : RetryPolicy → Number → Number
compute_backoff_delay_ms policy index =
    if ltb (retry_index index) double_exponents
    then natural (min (policy.initial_backoff_ms * 2 ^ retry_index index) policy.max_backoff_ms)
    else if nat_eq policy.initial_backoff_ms 0
    then nan
    else natural policy.max_backoff_ms

-- RETRYABLE_STREAM_ERROR_CODES
abbrev pub retryable_stream_error_codes : List String
retryable_stream_error_codes = "rate_limited" ∷ "upstream_unavailable" ∷ []

abbrev is_retryable_code : Value → Bool
is_retryable_code (string s) = includes s retryable_stream_error_codes
is_retryable_code _ = false

-- isRetryableStreamError
unfoldable pub is_retryable_stream_error : ModelStreamEvent → Bool
is_retryable_stream_error (error code message retryable) =
    is_true retryable && is_retryable_code code
is_retryable_stream_error _ = false

-- isVisibleStreamEvent
abbrev pub is_visible_stream_event : ModelStreamEvent → Bool
is_visible_stream_event (error _ _ _) = false
is_visible_stream_event _ = true
