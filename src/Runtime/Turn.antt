-- ===== src/Runtime/Turn.antt =====
-- One turn of the loop of packages/agent-runtime/src/agent-loop.ts up to the end of the model's
-- stream: nextStep and the inner `for (;;)`. A `signal` of undefined is the one that never aborts.
pub mod Proper
pub mod Sent
pub mod Copies
use agent_routebench.Prelude.{ℕ, Bool, true, false, String, List, [], ◌∷◌, ◌++◌, Option, none, some}
use agent_routebench.Contracts.Value.{Value}
use agent_routebench.Contracts.Events.{Stream, value, done, failed}
use agent_routebench.Contracts.Json.{clone_json_value}
use agent_routebench.Core.{AgentEvent}
use agent_routebench.Generator.{Gen, Signal, pure, finish, emit, observe, ◌>>=◌, ◌>>◌}
use agent_routebench.Runtime.Events.{
  AgentLoopErrorKey, AgentLoopEvent, aborted, gateway_failure, runtime_error, ToolExecutionRequest,
  Effect, yielded,
}
use agent_routebench.Runtime.Events
use agent_routebench.Runtime.Calls.{ToolCallCheck, accepted, refused, read_tool_call}

-- The variables of a turn. `seen` is `seenToolCallIds`, which outlives the turn.
pub record Turn : Type 0 where
  pub texts : List String
  pub tool_calls : List ToolExecutionRequest
  pub seen : List String
  pub completed : Bool

-- How the inner loop is left other than by `return`. Of `gatewayFailure` it keeps what varies.
pub data Exit : Type 0 where
  drained : Turn → Exit
  gateway_failed : (code message : String) (retryable : Bool) → Exit
  rejected_call : AgentLoopErrorKey → Exit

abbrev pub yield : AgentLoopEvent → Gen Effect (Unit {0})
yield e = emit (yielded e)

-- `yield runtimeError(…); return;`
abbrev pub fail_with {κ} : {A : Type κ} → AgentLoopEvent → Gen Effect A
fail_with e = yield e >> finish

abbrev pub fail {κ} : {A : Type κ} → String → ℕ → AgentLoopErrorKey → Gen Effect A
fail id turn key = fail_with (runtime_error id turn key)

-- nextStep, as far as it waits: whether the signal had aborted before, or does so first.
unfoldable pub interrupted : Signal → Gen Effect Bool
interrupted signal = do
  before ← observe signal
  elim before [ true ↦ pure true | false ↦ observe signal ]

abbrev pub with_call : ToolExecutionRequest → Turn → Turn
with_call call turn = record turn {
  tool_calls = turn.tool_calls ++ call ∷ [];
  seen = call.id ∷ turn.seen;
}

-- The end of the round for a tool call.
abbrev pub on_tool_call :
    String → ℕ → Turn → (Turn → Gen Effect Exit) → ToolCallCheck → Gen Effect Exit
on_tool_call id i turn next (refused key) = pure (rejected_call key)
on_tool_call id i turn next (accepted call) = do
  yield (AgentLoopEvent.tool_call id i call.id call.name (clone_json_value call.input))
  next (with_call call turn)

-- The body of the inner loop for one event; `next` is the rest of the loop.
unfoldable pub on_event :
    String → ℕ → AgentEvent → Turn → (Turn → Gen Effect Exit) → Gen Effect Exit
on_event id i (AgentEvent.route_selected _ route model) turn next = do
  yield (AgentLoopEvent.route_selected id i route model)
  next turn
on_event id i (AgentEvent.text_delta _ text) turn next = do
  yield (AgentLoopEvent.text_delta id i text)
  next (record turn { texts = turn.texts ++ text ∷ [] })
on_event id i (AgentEvent.usage _ input output) turn next = do
  yield (AgentLoopEvent.usage id i input output)
  next turn
on_event id i (AgentEvent.completed _) turn next = do
  yield (AgentLoopEvent.completed id i)
  next (record turn { completed = true })
on_event id i (AgentEvent.error _ code message retryable) turn next =
    pure (gateway_failed code message retryable)
on_event id i (AgentEvent.tool_call _ call name input) turn next =
    on_tool_call id i turn next (read_tool_call call name input turn.seen)

-- What follows a wait: `return` if it was interrupted.
abbrev pub unless_interrupted {κ} : {A : Type κ} → Signal → String → ℕ → Gen Effect A → Gen Effect A
unless_interrupted signal id i next = do
  stop ← interrupted signal
  elim stop [ true ↦ fail id i aborted | false ↦ next ]

-- The inner loop, over the stream that Agent Core gives.
unfoldable pub consume : Signal → String → ℕ → Stream AgentEvent → Turn → Gen Effect Exit
unfolding interrupted on_event
consume signal id i done turn = unless_interrupted signal id i (pure (drained turn))
consume signal id i failed turn = unless_interrupted signal id i (fail id i gateway_failure)
consume signal id i (value e rest) turn =
    unless_interrupted signal id i (on_event id i e turn (consume signal id i rest))
