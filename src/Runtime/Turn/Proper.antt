-- ===== src/Runtime/Turn/Proper.antt =====
-- What each event of a turn carries: the run's request id, a turn index within the budget, and, for
-- an error, a fixed text.
use agent_routebench.Prelude.{ℕ, ◌≤◌, ◌<◌, ◌≡◌, refl, ◌⊎◌, inl, inr, true, false, String, err}
use agent_routebench.Contracts.Value.{Value}
use agent_routebench.Contracts.Validation.{ValidationError, validate_model_request}
use agent_routebench.Contracts.Events.{ModelStreamEvent, Stream, value, done, failed}
use agent_routebench.Core
use agent_routebench.Core.{AgentEvent}
use agent_routebench.Core.Safety.{Ends, IsSafeEvent, IsSafeError, run-safe}
use agent_routebench.Generator.{Gen, Signal}
use agent_routebench.Generator.Rules.{
  Always, bind-Always, then-Always, pure-Always, finish-Always, emit-Always, observe-Always,
  observe-bind-Always,
}
use agent_routebench.Runtime.Events.{
  AgentLoopErrorKey, AgentLoopEvent, aborted, gateway_failure, runtime_error, agent_loop_error_code,
  agent_loop_message, turn_started, route_selected, text_delta, tool_call, usage,
  tool_execution_started, tool_execution_completed, completed, loop_completed, error, Effect,
  yielded,
}
use agent_routebench.Runtime.Calls.{ToolCallCheck, accepted, refused}
use agent_routebench.Runtime.Turn.Sent.{IsTurnRequest}
use agent_routebench.Runtime.Turn.{
  Turn, Exit, gateway_failed, yield, fail_with, fail, interrupted, on_tool_call, on_event,
  unless_interrupted, consume,
}

-- The code and the message of a key of the loop's own table.
abbrev pub IsLoopText : String → String → Type 0
IsLoopText code message =
    (key : AgentLoopErrorKey) × (code ≡ agent_loop_error_code key)
    × (message ≡ agent_loop_message key)

-- Those of the error that the validator throws at a request that a run for `request` sends.
abbrev pub IsValidationText : Value → String → String → Type 0
IsValidationText request code message =
    (sent : Value) × IsTurnRequest request sent
    × (e : ValidationError) × (validate_model_request sent ≡ err e)
    × (code ≡ e.code)
    × (message ≡ e.message)

-- What an error event of Agent Core may say.
abbrev pub IsCoreText : Value → AgentEvent → Type 0
IsCoreText request (AgentEvent.error id code message retryable) =
    IsValidationText request code message ⊎ IsSafeError (AgentEvent.error id code message retryable)
IsCoreText request _ = Unit

abbrev pub Every {ℓ} : {A : Type ℓ} → (A → Type 0) → Stream A → Type 0
Every P (value a rest) = P a × Every P rest
Every P done = Unit
Every P failed = Unit

abbrev pub IsProperEvent : Value → String → ℕ → AgentLoopEvent → Type 0
IsProperEvent request id n (turn_started r i) = (r ≡ id) × (i < n)
IsProperEvent request id n (route_selected r i route model) = (r ≡ id) × (i < n)
IsProperEvent request id n (text_delta r i text) = (r ≡ id) × (i < n)
IsProperEvent request id n (tool_call r i call name input) = (r ≡ id) × (i < n)
IsProperEvent request id n (usage r i input output) = (r ≡ id) × (i < n)
IsProperEvent request id n (tool_execution_started r i call name) = (r ≡ id) × (i < n)
IsProperEvent request id n (tool_execution_completed r i call failure) = (r ≡ id) × (i < n)
IsProperEvent request id n (completed r i) = (r ≡ id) × (i < n)
IsProperEvent request id n (loop_completed r k) = (r ≡ id) × (k ≤ n)
IsProperEvent request id n (error r i code message retryable) =
    (r ≡ id)
    × (i < n)
    × (IsLoopText code message ⊎ IsCoreText request (AgentEvent.error r code message retryable))

Ends-core :
    (request : Value) (s : Stream AgentEvent) (id : String)
    → Ends (IsSafeEvent id) s
    → Every (IsCoreText request) s
Ends-core request (value (AgentEvent.error i c m r) rest) id h =
    (inr h.0.1, Ends-core request rest id h.1)
Ends-core request (value (AgentEvent.route_selected _ _ _) rest) id h =
    (tt, Ends-core request rest id h.1)
Ends-core request (value (AgentEvent.text_delta _ _) rest) id h =
    (tt, Ends-core request rest id h.1)
Ends-core request (value (AgentEvent.tool_call _ _ _ _) rest) id h =
    (tt, Ends-core request rest id h.1)
Ends-core request (value (AgentEvent.usage _ _ _) rest) id h = (tt, Ends-core request rest id h.1)
Ends-core request (value (AgentEvent.completed _) rest) id h = (tt, Ends-core request rest id h.1)
Ends-core request done id h = tt
Ends-core request failed id h = tt

pub run-core :
    (request : Value) (gateway : Value → Stream ModelStreamEvent) (sent : Value)
    → IsTurnRequest request sent
    → Every (IsCoreText request) (Core.run gateway sent)
run-core request gateway sent same = elim (run-safe gateway sent) [
  | inl (e, invalid, shape) ↦ rw shape (inl (sent, same, e, invalid, refl, refl), tt)
  | inr safe ↦ Ends-core request _ _ safe
]

module _ {P : Effect → Type 0} where
  pub fail_with-Always {κ} :
      {A : Type κ} {R : A → Type 0} (e : AgentLoopEvent) → P (yielded e) → Always P R (fail_with e)
  fail_with-Always e p = then-Always (emit-Always _ p) finish-Always

  pub yield-Always : (e : AgentLoopEvent) → P (yielded e) → Always P (λ _. Unit {0}) (yield e)
  yield-Always e p = emit-Always _ p

  interrupted-Always : (signal : Signal) → Always P (λ _. Unit {0}) (interrupted signal)
  unfolding interrupted
  interrupted-Always signal = observe-bind-Always _ _ (pure-Always _ tt) (observe-Always signal)

  pub unless_interrupted-Always {κ} :
      {A : Type κ} {R : A → Type 0} (signal : Signal) (id : String) (i : ℕ) {next : Gen Effect A}
      → P (yielded (runtime_error id i aborted))
      → Always P R next
      → Always P R (unless_interrupted signal id i next)
  unless_interrupted-Always signal id i p h =
      bind-Always (interrupted-Always signal)
        (elim [ true ↦ λ _. fail_with-Always _ p | false ↦ λ _. h ])

-- The effects that yield proper events, and whatever else `Q` allows.
module _ (P : Effect → Type 0) (request : Value) (id : String) (n i : ℕ) (bound : i < n)
    (yields : (e : AgentLoopEvent) → IsProperEvent request id n e → P (yielded e)) where
  abbrev pub IsProperExit : Exit → Type 0
  IsProperExit (gateway_failed code message retryable) =
      IsProperEvent request id n (error id i code message retryable)
  IsProperExit _ = Unit

  pub fail-IsProper {κ} :
      {A : Type κ} {R : A → Type 0} (key : AgentLoopErrorKey) → Always P R (fail id i key)
  fail-IsProper key = fail_with-Always _ (yields _ (refl, bound, inl (key, refl, refl)))

  on_tool_call-IsProper :
      (turn : Turn) (next : Turn → Gen Effect Exit) (check : ToolCallCheck)
      → ((t : Turn) → Always P IsProperExit (next t))
      → Always P IsProperExit (on_tool_call id i turn next check)
  on_tool_call-IsProper turn next (refused key) h = pure-Always _ tt
  on_tool_call-IsProper turn next (accepted call) h =
      then-Always (yield-Always _ (yields _ (refl, bound))) (h _)

  on_event-IsProper :
      (e : AgentEvent) (turn : Turn) (next : Turn → Gen Effect Exit)
      → IsCoreText request e
      → ((t : Turn) → Always P IsProperExit (next t))
      → Always P IsProperExit (on_event id i e turn next)
  unfolding on_event
  on_event-IsProper (AgentEvent.route_selected _ route model) turn next c h =
      then-Always (yield-Always _ (yields _ (refl, bound))) (h _)
  on_event-IsProper (AgentEvent.text_delta _ text) turn next c h =
      then-Always (yield-Always _ (yields _ (refl, bound))) (h _)
  on_event-IsProper (AgentEvent.usage _ input output) turn next c h =
      then-Always (yield-Always _ (yields _ (refl, bound))) (h _)
  on_event-IsProper (AgentEvent.completed _) turn next c h =
      then-Always (yield-Always _ (yields _ (refl, bound))) (h _)
  on_event-IsProper (AgentEvent.error _ code message retryable) turn next c h =
      pure-Always _ (refl, bound, inr c)
  on_event-IsProper (AgentEvent.tool_call _ call name input) turn next c h =
      on_tool_call-IsProper turn next _ h

  pub consume-IsProper :
      (signal : Signal) (s : Stream AgentEvent) (turn : Turn)
      → Every (IsCoreText request) s
      → Always P IsProperExit (consume signal id i s turn)
  unfolding consume
  consume-IsProper signal done turn h =
      unless_interrupted-Always signal id i (yields _ (refl, bound, inl (aborted, refl, refl)))
        (pure-Always _ tt)
  consume-IsProper signal failed turn h =
      unless_interrupted-Always signal id i (yields _ (refl, bound, inl (aborted, refl, refl)))
        (fail-IsProper gateway_failure)
  consume-IsProper signal (value e rest) turn h =
      unless_interrupted-Always signal id i (yields _ (refl, bound, inl (aborted, refl, refl)))
        (on_event-IsProper e turn _ h.0 (λ t. consume-IsProper signal rest t h.1))
