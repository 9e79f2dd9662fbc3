-- ===== src/Runtime/Calls.antt =====
-- The checks of a model's tool call and of an executor's result, in
-- packages/agent-runtime/src/agent-loop.ts.
use Prim.Native.String.{len}
use agent_routebench.Prelude.{
  ℕ, Bool, true, false, String, List, includes, Option, none, some, ltb, if◌then◌else◌,
}
use agent_routebench.Contracts.Value.{Value, undefined, string, boolean, plain, property}
use agent_routebench.Contracts.Json.{is_json_value, clone_json_value}
use agent_routebench.Contracts.Validation.{as_non_empty_string}
use agent_routebench.Runtime.Events.{
  AgentLoopErrorKey, invalid_tool_call, duplicate_tool_call_id, ToolExecutionRequest,
  tool_failure_content,
}

pub data ToolCallCheck : Type 0 where
  accepted : ToolExecutionRequest → ToolCallCheck
  refused : AgentLoopErrorKey → ToolCallCheck

-- readToolCall
unfoldable pub read_named_call : Option String → Option String → Value → List String → ToolCallCheck
read_named_call none name input seen = refused invalid_tool_call
read_named_call (some id) none input seen = refused invalid_tool_call
read_named_call (some id) (some name) input seen =
    if is_json_value input
    then if includes id seen
      then refused duplicate_tool_call_id
      else accepted (record { id = id; name = name; input = clone_json_value input })
    else refused invalid_tool_call

unfoldable pub read_tool_call : Value → Value → Value → List String → ToolCallCheck
unfolding read_named_call
read_tool_call id name input seen =
    read_named_call (as_non_empty_string id) (as_non_empty_string name) input seen

-- utf8ByteLength
abbrev pub utf8_byte_length : String → ℕ
utf8_byte_length text = len text

pub record ClassifiedToolResult : Type 0 where
  pub content : String
  pub is_error : Bool

abbrev pub failure : ClassifiedToolResult
failure = record { content = tool_failure_content; is_error = true }

-- `isError` of a result: absent, a Boolean, or something else.
abbrev flag : Value → Option Bool
flag undefined = some false
flag (boolean b) = some b
flag _ = none

abbrev sized : ℕ → String → Option Bool → ClassifiedToolResult
sized max_bytes content none = failure
sized max_bytes content (some b) =
    if ltb max_bytes (utf8_byte_length content)
    then failure
    else record { content = content; is_error = b }

abbrev with_content : ℕ → Value → Value → ClassifiedToolResult
with_content max_bytes (string content) is_error = sized max_bytes content (flag is_error)
with_content max_bytes _ is_error = failure

-- classifyToolResult
unfoldable pub classify_tool_result : Value → ℕ → ClassifiedToolResult
classify_tool_result (plain fs) max_bytes =
    with_content max_bytes (property "content" (plain fs)) (property "isError" (plain fs))
classify_tool_result raw max_bytes = failure
