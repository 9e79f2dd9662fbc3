-- ===== src/Resilience/Gateway.antt =====
-- packages/model-gateway/src/resilient-routed-gateway.ts: bounded retries and an ordered failover.
-- The attempt against a candidate and the registry are arguments.
pub mod Schedule
pub mod Courses
pub mod Answer
use agent_routebench.Prelude.{
  ℕ, zero, suc, ◌+◌, ◌-◌, Bool, true, false, not, ◌||◌, String, List, [], ◌∷◌, Option, none, some,
  leb, ◌==◌, if◌then◌else◌, Outcome, ok, err,
}
use agent_routebench.Contracts.Value.{Value, Number, natural, string}
use agent_routebench.Contracts.Events.{ModelStreamEvent, error, Stream, value, done, failed}
use agent_routebench.Core.{text_or_empty}
use agent_routebench.Generator.{Gen, Signal, pure, finish, emit, observe, ◌>>=◌, ◌>>◌}
use agent_routebench.Registry.Types.{ResolvedRoute, RegistryError}
use agent_routebench.Resilience.Errors.{
  StreamErrorCode, aborted, upstream_unavailable, rate_limited, gateway_error, stream_error_event,
}
use agent_routebench.Resilience.Policy.{
  RetryPolicy, compute_backoff_delay_ms, is_retryable_stream_error, is_visible_stream_event,
}

-- What a call of `stream` does: it yields an event, waits, starts an attempt against a candidate, or
-- throws what an attempt throws.
pub data Effect : Type 0 where
  yielded : ModelStreamEvent → Effect
  waited : Number → Effect
  attempted : ResolvedRoute → Effect
  threw : Effect

-- runCandidateAttempt, told the number of attempts before it.
abbrev pub Attempt : Type 0
Attempt = ℕ → ResolvedRoute → Stream ModelStreamEvent

-- `yield streamErrorEvent(code); return;`
abbrev pub end_with {κ} : {A : Type κ} → StreamErrorCode → Gen Effect A
end_with code = emit (yielded (stream_error_event code)) >> finish

-- `event.code as StreamErrorCode`, where it is one of the retryable two.
abbrev pub retryable_code : ModelStreamEvent → StreamErrorCode
retryable_code (error (string code) _ _) =
    if code == "rate_limited" then rate_limited else upstream_unavailable
retryable_code _ = upstream_unavailable

-- The `for await` loop over one attempt and the test behind it: the retryable code of an attempt
-- that may be repeated.
unfoldable pub relay : Stream ModelStreamEvent → Bool → Gen Effect StreamErrorCode
relay done visible = if visible then finish else end_with gateway_error
relay failed visible = emit threw >> finish
relay (value e rest) visible =
    if is_visible_stream_event e
    then emit (yielded e) >> relay rest true
    else if visible || not (is_retryable_stream_error e)
    then emit (yielded e) >> finish
    else pure (retryable_code e)

-- How the loop over a candidate's attempts is left: at its end, or by `break candidates`.
pub data CandidateExit : Type 0 where
  exhausted : (attempts_used : ℕ) (last : Option StreamErrorCode) → CandidateExit
  budget_spent : (last : Option StreamErrorCode) → CandidateExit

abbrev pub or_gateway_error : Option StreamErrorCode → StreamErrorCode
or_gateway_error none = gateway_error
or_gateway_error (some code) = code

module _ (signal : Signal) (policy : RetryPolicy) (attempt : Attempt) where
  -- The wait before a retry.
  unfoldable pub back_off : ℕ → Gen Effect (Unit {0})
  back_off zero = pure tt
  back_off (suc retry) = do
    emit (waited (compute_backoff_delay_ms policy (natural retry)))
    stop ← observe signal
    elim stop [ true ↦ end_with aborted | false ↦ pure tt ]

  -- The inner `for` loop, with the rounds left and the number of the round.
  unfoldable pub try_candidate :
      ResolvedRoute → ℕ → ℕ → ℕ → Option StreamErrorCode → Gen Effect CandidateExit
  try_candidate candidate zero round used last = pure (exhausted used last)
  try_candidate candidate (suc left) round used last = do
    stop ← observe signal
    elim stop [
      | true ↦ end_with aborted
      | false ↦ if leb policy.max_total_attempts used then pure (budget_spent last) else do
        back_off round
        emit (attempted candidate)
        code ← relay (attempt used candidate) false
        try_candidate candidate left (round + 1) (used + 1) (some code)
    ]

  abbrev pub after_candidate :
      (ℕ → Option StreamErrorCode → Gen Effect (Unit {0})) → CandidateExit → Gen Effect (Unit {0})
  after_candidate next (exhausted used last) = next used last
  after_candidate next (budget_spent last) = end_with (or_gateway_error last)

  -- The outer `for` loop and the `yield` behind it.
  unfoldable pub try_candidates :
      List ResolvedRoute → ℕ → Option StreamErrorCode → Gen Effect (Unit {0})
  try_candidates [] used last = end_with (or_gateway_error last)
  try_candidates (candidate ∷ candidates) used last = do
    exit ← try_candidate candidate policy.max_attempts_per_provider 0 used last
    after_candidate (try_candidates candidates) exit

  -- `stream`, with the result of `resolveRouteCandidates` for the request's route.
  unfoldable pub stream : Outcome RegistryError (List ResolvedRoute) → Gen Effect (Unit {0})
  stream resolution = do
    stop ← observe signal
    elim stop [
      | true ↦ end_with aborted
      | false ↦ elim resolution [
        | err _ ↦ end_with gateway_error
        | ok candidates ↦ try_candidates candidates 0 none
      ]
    ]
