-- ===== src/Runtime/Options.antt =====
-- The options of the loop: resolveAgentLoopOptions of packages/agent-runtime/src/agent-loop.ts and
-- the defaults of types.ts.
use agent_routebench.Prelude.{
  ℕ, ◌||◌, Option, none, some, if◌then◌else◌, Outcome, ok, err, ◌>>=◌, ◌>>◌, ensure,
}
use agent_routebench.Contracts.Value.{
  Value, undefined, property, is_undefined, is_plain_object, has_callable_method, safe_integer_from,
}
use agent_routebench.Contracts.Events.{ModelStreamEvent, Stream}
use agent_routebench.Runtime.Events.{
  AgentLoopErrorKey, invalid_loop_options, ToolExecutionRequest, Settled,
}

-- The injected code: `stream` of the gateway, which is told the number of the turn that calls it,
-- and `execute` of the executor, which is told when it is called.
abbrev pub Gateway : Type 0
Gateway = ℕ → Value → Stream ModelStreamEvent

abbrev pub Executor : Type 0
Executor = ℕ → ToolExecutionRequest → Settled

pub record ResolvedAgentLoopOptions : Type 0 where
  pub gateway : Gateway
  pub tool_executor : Option Executor
  pub max_turns : ℕ
  pub max_tool_calls_per_turn : ℕ
  pub max_tool_result_bytes : ℕ

-- DEFAULT_AGENT_LOOP_LIMITS
abbrev pub default_max_turns : ℕ
default_max_turns = 8

abbrev pub default_max_tool_calls_per_turn : ℕ
default_max_tool_calls_per_turn = 16

abbrev pub default_max_tool_result_bytes : ℕ
default_max_tool_result_bytes = 65536

abbrev some_limit : Option ℕ → Outcome AgentLoopErrorKey ℕ
some_limit none = err invalid_loop_options
some_limit (some n) = ok n

unfoldable pub resolve_limit : Value → ℕ → Outcome AgentLoopErrorKey ℕ
resolve_limit undefined fallback = ok fallback
resolve_limit value fallback = some_limit (safe_integer_from 1 value)

-- The options as a value, and what the methods that it holds do.
unfoldable pub resolve_agent_loop_options :
    Value → Gateway → Executor → Outcome AgentLoopErrorKey ResolvedAgentLoopOptions
unfolding resolve_limit
resolve_agent_loop_options options gateway execute = do
  ensure (is_plain_object options) invalid_loop_options
  ensure (has_callable_method (property "gateway" options) "stream") invalid_loop_options
  ensure
      (is_undefined (property "toolExecutor" options)
        || has_callable_method (property "toolExecutor" options) "execute")
      invalid_loop_options
  turns ← resolve_limit (property "maxTurns" options) default_max_turns
  calls ← resolve_limit (property "maxToolCallsPerTurn" options) default_max_tool_calls_per_turn
  bytes ← resolve_limit (property "maxToolResultBytes" options) default_max_tool_result_bytes
  ok (record {
    gateway = gateway;
    tool_executor = if is_undefined (property "toolExecutor" options) then none else some execute;
    max_turns = turns;
    max_tool_calls_per_turn = calls;
    max_tool_result_bytes = bytes;
  })
