-- ===== src/Runtime/Events.antt =====
-- packages/agent-runtime/src/errors.ts and the types of types.ts: the loop's error keys with their
-- fixed codes and messages, its events, and what a run of it does besides yielding them.
use agent_routebench.Prelude.{ℕ, Bool, false, String}
use agent_routebench.Contracts.Value.{Value, Number}

pub data AgentLoopErrorKey : Type 0 where
  invalid_loop_options aborted tool_execution_unavailable unknown_tool : AgentLoopErrorKey
  invalid_tool_call duplicate_tool_call_id too_many_tool_calls : AgentLoopErrorKey
  max_turns_exceeded tool_execution_failed incomplete_model_response : AgentLoopErrorKey
  gateway_failure : AgentLoopErrorKey

-- AGENT_LOOP_ERROR_CODES
abbrev pub agent_loop_error_code : AgentLoopErrorKey → String
agent_loop_error_code invalid_loop_options = "invalid_loop_options"
agent_loop_error_code aborted = "aborted"
agent_loop_error_code tool_execution_unavailable = "tool_execution_unavailable"
agent_loop_error_code unknown_tool = "unknown_tool"
agent_loop_error_code invalid_tool_call = "invalid_tool_call"
agent_loop_error_code duplicate_tool_call_id = "duplicate_tool_call_id"
agent_loop_error_code too_many_tool_calls = "too_many_tool_calls"
agent_loop_error_code max_turns_exceeded = "max_turns_exceeded"
agent_loop_error_code tool_execution_failed = "tool_execution_failed"
agent_loop_error_code incomplete_model_response = "incomplete_model_response"
agent_loop_error_code gateway_failure = "gateway_error"

-- agentLoopMessage, over AGENT_LOOP_ERROR_MESSAGES
abbrev pub agent_loop_message : AgentLoopErrorKey → String
agent_loop_message invalid_loop_options = "Agent loop options are invalid."
agent_loop_message aborted = "Request aborted."
agent_loop_message tool_execution_unavailable = "Tool execution is unavailable."
agent_loop_message unknown_tool = "The requested tool is not available."
agent_loop_message invalid_tool_call = "The model returned an invalid tool call."
agent_loop_message duplicate_tool_call_id = "The model returned a duplicate tool call id."
agent_loop_message too_many_tool_calls = "The model returned too many tool calls."
agent_loop_message max_turns_exceeded = "The agent loop reached its maximum number of turns."
agent_loop_message tool_execution_failed = "Tool execution failed."
agent_loop_message incomplete_model_response = "The model stream ended before completion."
agent_loop_message gateway_failure = "Model gateway request failed."

-- TOOL_FAILURE_CONTENT
abbrev pub tool_failure_content : String
tool_failure_content = agent_loop_message tool_execution_failed

pub data AgentLoopEvent : Type 0 where
  turn_started : (request_id : String) (turn_index : ℕ) → AgentLoopEvent
  route_selected : (request_id : String) (turn_index : ℕ) (route_id model : String) → AgentLoopEvent
  text_delta : (request_id : String) (turn_index : ℕ) (text : String) → AgentLoopEvent
  tool_call :
      (request_id : String) (turn_index : ℕ) (id name : String) (input : Value) → AgentLoopEvent
  usage :
      (request_id : String) (turn_index : ℕ) (input_tokens output_tokens : Number) → AgentLoopEvent
  tool_execution_started :
      (request_id : String) (turn_index : ℕ) (tool_call_id name : String) → AgentLoopEvent
  tool_execution_completed :
      (request_id : String) (turn_index : ℕ) (tool_call_id : String) (is_error : Bool)
      → AgentLoopEvent
  completed : (request_id : String) (turn_index : ℕ) → AgentLoopEvent
  loop_completed : (request_id : String) (turns : ℕ) → AgentLoopEvent
  error :
      (request_id : String) (turn_index : ℕ) (code message : String) (retryable : Bool)
      → AgentLoopEvent

-- runtimeError
abbrev pub runtime_error : String → ℕ → AgentLoopErrorKey → AgentLoopEvent
runtime_error id turn key = error id turn (agent_loop_error_code key) (agent_loop_message key) false

pub record ToolExecutionRequest : Type 0 where
  pub id : String
  pub name : String
  pub input : Value

-- A call of an executor settles with a value, or it throws or rejects. A call that never settles
-- has no value here: it is seen only where an abort overtakes it, which the signal says.
pub data Settled : Type 0 where
  resolved : Value → Settled
  rejected : Settled

-- What a run does: it yields an event, sends a request to the gateway, calls the executor (with the
-- number of readings of the signal so far), or throws a TypeError at its consumer.
pub data Effect : Type 0 where
  yielded : AgentLoopEvent → Effect
  requested : Value → Effect
  executed : ℕ → ToolExecutionRequest → Effect
  threw : Effect
