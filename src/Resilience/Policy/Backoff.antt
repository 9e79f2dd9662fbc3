-- ===== src/Resilience/Policy/Backoff.antt =====
-- The bounds of the retry policy of packages/model-gateway/src/resilience.ts and its delays.
use agent_routebench.Prelude.{
  ℕ, zero, suc, ◌*◌, ◌^◌, ◌≤◌, ◌<◌, ◌≡◌, ◌⊎◌, sym, Bool-cases, inl, inr, String, not, ◌&&◌, min,
  ltb, leb, nat_eq, if◌then◌else◌, ok, arith, AfterOk, AfterOk-ok, ensure-AfterOk, ok-AfterOk,
  chain-AfterOk,
}
use native.Mathlib.Nat.{pow-le-pow_right, two-pow-succ}
use agent_routebench.Contracts.Value.{
  Number, natural, nan, undefined, number, Value, property, max_safe_integer,
}
use agent_routebench.Resilience.Policy.{
  RetryPolicy, read_attempt_count, retry_index, read_delay, normalize_retry_policy, is_readable,
  default_retry_policy, compute_backoff_delay_ms,
}

abbrev pub IsBetween : ℕ → ℕ → Type 0
IsBetween least n = (least ≤ n) × (n ≤ max_safe_integer)

read_attempt_count-IsBetween :
    (v : Value) (fallback : ℕ)
    → IsBetween 1 fallback
    → AfterOk (IsBetween 1) (read_attempt_count v fallback)
unfolding read_attempt_count
read_attempt_count-IsBetween undefined fallback h = ok-AfterOk _ h
read_attempt_count-IsBetween (number (natural n)) fallback h = record { holds = ground arith }
read_attempt_count-IsBetween _ fallback h = record { holds = tt }

read_delay-IsBetween :
    (v : Value) (fallback : ℕ)
    → IsBetween 0 fallback
    → AfterOk (IsBetween 0) (read_delay v fallback)
unfolding read_delay
read_delay-IsBetween undefined fallback h = ok-AfterOk _ h
read_delay-IsBetween (number (natural n)) fallback h = record { holds = ground arith }
read_delay-IsBetween _ fallback h = record { holds = tt }

abbrev pub IsNormal : RetryPolicy → Type 0
IsNormal p =
    IsBetween 1 p.max_attempts_per_provider
    × IsBetween 1 p.max_total_attempts
    × (p.initial_backoff_ms ≤ p.max_backoff_ms)
    × (p.max_backoff_ms ≤ max_safe_integer)

normalize-IsNormal : (input : Value) → AfterOk IsNormal (normalize_retry_policy input)
unfolding normalize_retry_policy
normalize-IsNormal input = ensure-AfterOk (is_readable input) _ _ (λ _.
    chain-AfterOk
      (count-IsBetween "maxAttemptsPerProvider" default_retry_policy.max_attempts_per_provider
        (omega arith, omega arith))
      (λ a ha.
        chain-AfterOk
          (count-IsBetween "maxTotalAttempts" default_retry_policy.max_total_attempts
            (omega arith, omega arith))
          (λ b hb.
            chain-AfterOk
              (delay-IsBetween "initialBackoffMs" default_retry_policy.initial_backoff_ms
                (omega arith, omega arith))
              (λ c hc.
                chain-AfterOk
                  (delay-IsBetween "maxBackoffMs" default_retry_policy.max_backoff_ms
                    (omega arith, omega arith))
                  (λ d hd. ensure-AfterOk (not (ltb d c)) _ _ (λ ordered.
                    let least_first : c ≤ d = ground arith in
                    ok-AfterOk _ (ha, hb, least_first, hd.1)))))))
  where
    count-IsBetween :
        (k : String) (fallback : ℕ)
        → IsBetween 1 fallback
        → AfterOk (IsBetween 1) (read_attempt_count (property k input) fallback)
    count-IsBetween k = read_attempt_count-IsBetween (property k input)

    delay-IsBetween :
        (k : String) (fallback : ℕ)
        → IsBetween 0 fallback
        → AfterOk (IsBetween 0) (read_delay (property k input) fallback)
    delay-IsBetween k = read_delay-IsBetween (property k input)

-- A policy that is accepted, from any input, has attempt counts between 1 and the largest safe
-- integer, and delays in order up to it.
pub normalize_retry_policy-IsNormal :
    (input : Value) (policy : RetryPolicy)
    → normalize_retry_policy input ≡ ok policy
    → IsNormal policy
normalize_retry_policy-IsNormal input policy h = AfterOk-ok (normalize-IsNormal input) h

-- The bound is reached before a power of two stops being a finite double.
large_delay : (initial n : ℕ) → 0 < initial → 53 ≤ n → 2 ^ 53 ≤ initial * 2 ^ n
large_delay zero n positive h = omega arith
large_delay (suc i) n positive h =
    let power : 2 ^ 53 ≤ 2 ^ n = pow-le-pow_right (omega arith) h in omega arith

closed_form :
    (policy : RetryPolicy) (given : Number) (n : ℕ)
    → IsNormal policy
    → retry_index given ≡ n
    → compute_backoff_delay_ms policy given ≡ (
        if nat_eq policy.initial_backoff_ms 0 && leb 1024 n
        then nan
        else natural (min (policy.initial_backoff_ms * 2 ^ n) policy.max_backoff_ms))
unfolding compute_backoff_delay_ms
closed_form policy given n h e = rw e (ground (arith, large_delay policy.initial_backoff_ms n))

-- The index that a given number stands for: a safe integer that is not negative stands for itself,
-- every other number for 0.
abbrev pub StandsFor : Number → ℕ → Type 0
StandsFor (natural given) n =
    ((given ≤ max_safe_integer) × (n ≡ given)) ⊎ ((max_safe_integer < given) × (n ≡ 0))
StandsFor _ n = n ≡ 0

-- The delay that doubles from one retry to the next, but never beyond the bound.
abbrev pub doubled : ℕ → ℕ → ℕ → ℕ
doubled initial most zero = min initial most
doubled initial most (suc n) = min (2 * doubled initial most n) most

-- The delay in milliseconds, which is NaN where Infinity is multiplied by 0.
abbrev pub Delays : RetryPolicy → ℕ → Number → Type 0
Delays policy n delay =
    ((policy.initial_backoff_ms ≡ 0) × (1024 ≤ n) × (delay ≡ nan))
    ⊎ (((0 < policy.initial_backoff_ms) ⊎ (n < 1024))
        × (delay ≡ natural (doubled policy.initial_backoff_ms policy.max_backoff_ms n)))

doubled-eq : (initial most n : ℕ) → doubled initial most n ≡ min (initial * 2 ^ n) most
doubled-eq initial most zero = ground arith
doubled-eq initial most (suc n) =
    let double : initial * 2 ^ suc n ≡ 2 * (initial * 2 ^ n) = grind (arith, two-pow-succ n) in
    omega (arith, double, doubled-eq initial most n)

StandsFor-eq : (given : Number) (n : ℕ) → StandsFor given n → retry_index given ≡ n
StandsFor-eq (natural given) n h = ground arith
StandsFor-eq _ n h = sym h

-- Under a policy that is accepted, the delay before the first retry is `initialBackoffMs`, and each
-- later one is twice the one before, bounded by `maxBackoffMs`; but it is NaN where
-- `initialBackoffMs` is 0 and the index is 1024 or more. An index that is negative or no safe
-- integer counts as 0.
pub compute_backoff_delay_ms-doubles :
    (policy : RetryPolicy) (given : Number) (n : ℕ)
    → IsNormal policy
    → StandsFor given n
    → Delays policy n (compute_backoff_delay_ms policy given)
compute_backoff_delay_ms-doubles policy given n h stands =
    let initial = policy.initial_backoff_ms in
    let most = policy.max_backoff_ms in
    let closed = closed_form policy given n h (StandsFor-eq given n stands) in
    elim (Bool-cases (nat_eq initial 0 && leb 1024 n)) [
      | inl late ↦ inl (ground arith, ground arith, ground (arith, closed))
      | inr early ↦
          let finite : (0 < initial) ⊎ (n < 1024) = ground arith in
          inr (finite, ground (arith, closed, doubled-eq initial most n))
    ]
