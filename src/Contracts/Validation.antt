-- ===== src/Contracts/Validation.antt =====
-- The validators of packages/agent-contracts/src/contracts.ts. A thrown AgentValidationError is its
-- code and its message.
use agent_routebench.Prelude.{
  ℕ, Bool, true, false, not, String, codes, includes, includes_codes, to_lower_case, List, [], ◌∷◌,
  Option, none, some, map, ◌==◌, if◌then◌else◌, Outcome, ok, err, ◌>>=◌, ◌>>◌, ensure,
}
use agent_routebench.Contracts.Value.{
  Value, string, plain, keys, property, as_array, is_text, is_positive_integer, is_plain_object,
}
use agent_routebench.Contracts.Json.{is_json_value}

pub record ValidationError : Type 0 where
  pub code : String
  pub message : String

abbrev pub validation_error : String → String → ValidationError
validation_error code message = record { code = code; message = message }

abbrev pub Checked : Type 0 → Type 0
Checked A = Outcome ValidationError A

abbrev throws {ℓ} : {A : Type ℓ} → String → String → Outcome ValidationError A
throws code message = err (validation_error code message)

-- FORBIDDEN_REQUEST_FIELDS
abbrev pub forbidden_request_fields : List String
forbidden_request_fields =
    "apikey" ∷ "api_key" ∷ "token" ∷ "authorization" ∷ "headers" ∷ "baseurl" ∷ "base_url"
    ∷ "endpoint" ∷ "providersecret" ∷ "provider_secret" ∷ "refreshtoken" ∷ "refresh_token" ∷ "oauth"
    ∷ []

-- ALLOWED_AGENT_ROLES
abbrev pub allowed_agent_roles : List String
allowed_agent_roles = "system" ∷ "user" ∷ "assistant" ∷ "tool" ∷ []

abbrev pub as_non_empty_string : Value → Option String
as_non_empty_string (string s) = if s == "" then none else some s
as_non_empty_string _ = none

abbrev or_throw {ℓ} : {A : Type ℓ} → Option A → String → String → Outcome ValidationError A
or_throw none code message = throws code message
or_throw (some a) code message = ok a

-- assertNonEmptyString, with the text that it leaves asserted. `message` is the label's message.
unfoldable pub assert_non_empty_string : Value → String → String → Checked String
assert_non_empty_string value code message = or_throw (as_non_empty_string value) code message

unfoldable pub assert_json_value : Value → String → String → Checked (Unit {0})
assert_json_value value code message = ensure (is_json_value value) (validation_error code message)

abbrev pub is_agent_role : Value → Bool
is_agent_role (string s) = includes s allowed_agent_roles
is_agent_role _ = false

unfoldable pub assert_agent_role : Value → Checked (Unit {0})
assert_agent_role value = ensure (is_agent_role value) (
    validation_error "invalid_role"
      "Each message role must be one of: system, user, assistant, tool.")

abbrev is_string : Value → Bool
is_string (string s) = true
is_string _ = false

-- The three kinds of content block. Each takes the ids of the tool calls so far, and returns them.
unfoldable pub check_text_block : List String → Value → Checked (List String)
check_text_block seen block = do
  ensure (is_string (property "text" block))
      (validation_error "invalid_text" "Text content must be a string.")
  ok seen

unfoldable pub check_tool_call_block : List String → Value → Checked (List String)
unfolding assert_non_empty_string assert_json_value
check_tool_call_block seen block = do
  id ←
      assert_non_empty_string (property "id" block) "empty_tool_call_id"
        "tool_call.id must be a non-empty string."
  name ←
      assert_non_empty_string (property "name" block) "empty_tool_name"
        "tool_call.name must be a non-empty string."
  ensure (not (includes id seen)) (
      validation_error "duplicate_tool_call_id"
        "tool_call.id values must be unique within a request.")
  assert_json_value (property "input" block) "invalid_tool_input"
      "tool_call.input must be a JSON-serializable value."
  ok (id ∷ seen)

unfoldable pub check_tool_result_block : List String → Value → Checked (List String)
unfolding assert_non_empty_string
check_tool_result_block seen block = do
  id ←
      assert_non_empty_string (property "toolCallId" block) "empty_tool_result_id"
        "tool_result.toolCallId must be a non-empty string."
  ensure (is_string (property "content" block))
      (validation_error "invalid_tool_result_content" "tool_result.content must be a string.")
  ensure (includes id seen) (
      validation_error "unknown_tool_call_ref"
        "tool_result.toolCallId must reference a prior tool_call.id.")
  ok seen

-- One round of the loop over `message.content`.
unfoldable pub check_block : List String → Value → Checked (List String)
unfolding check_text_block check_tool_call_block check_tool_result_block
check_block seen block = do
  ensure (is_plain_object block)
      (validation_error "invalid_content_block" "Each content block must be an object.")
  if is_text (property "type" block) "text"
      then check_text_block seen block
      else if is_text (property "type" block) "tool_call"
      then check_tool_call_block seen block
      else if is_text (property "type" block) "tool_result"
      then check_tool_result_block seen block
      else throws "unknown_content_block" "Unsupported content block type."

unfoldable pub check_blocks : List String → List Value → Checked (List String)
check_blocks seen [] = ok seen
check_blocks seen (block ∷ blocks) = do seen' ← check_block seen block; check_blocks seen' blocks

abbrev non_empty : Option (List Value) → Option (List Value)
non_empty (some (v ∷ vs)) = some (v ∷ vs)
non_empty _ = none

-- One round of the loop over `messages`.
unfoldable pub check_message : List String → Value → Checked (List String)
unfolding assert_agent_role
check_message seen message = do
  ensure (is_plain_object message)
      (validation_error "invalid_message" "Each message must be an object.")
  assert_agent_role (property "role" message)
  blocks ←
      or_throw (non_empty (as_array (property "content" message))) "empty_content"
        "Each message must contain at least one content block."
  check_blocks seen blocks

unfoldable pub check_messages : List String → List Value → Checked (List String)
check_messages seen [] = ok seen
check_messages seen (message ∷ messages) = do
  seen' ← check_message seen message
  check_messages seen' messages

-- validateAgentMessages, with the ids that the loop has collected at its end.
unfoldable pub validate_agent_messages : Value → Checked (List String)
validate_agent_messages messages = do
  list ←
      or_throw (non_empty (as_array messages)) "empty_messages"
        "messages must be a non-empty array."
  check_messages [] list

-- One round of the loop of validateAgentToolDefinitions; `seen` holds the names so far.
unfoldable pub check_tool : List String → Value → Checked (List String)
unfolding assert_non_empty_string assert_json_value
check_tool seen tool = do
  ensure (is_plain_object tool)
      (validation_error "invalid_tool_definition" "Each tool definition must be an object.")
  name ←
      assert_non_empty_string (property "name" tool) "empty_tool_name"
        "tool.name must be a non-empty string."
  ensure (not (includes name seen))
      (validation_error "duplicate_tool_name" "tool.name values must be unique within a request.")
  ensure (is_string (property "description" tool))
      (validation_error "invalid_tool_description" "tool.description must be a string.")
  assert_json_value (property "inputSchema" tool) "invalid_tool_input_schema"
      "tool.inputSchema must be a JSON-serializable value."
  ok (name ∷ seen)

unfoldable pub check_tools : List String → List Value → Checked (List String)
check_tools seen [] = ok seen
check_tools seen (tool ∷ tools) = do seen' ← check_tool seen tool; check_tools seen' tools

unfoldable pub validate_agent_tool_definitions : Value → Checked (List String)
validate_agent_tool_definitions tools = do
  list ← or_throw (as_array tools) "invalid_tools" "tools must be an array."
  check_tools [] list

abbrev some_forbidden : List (List ℕ) → List String → Bool
some_forbidden forbidden [] = false
some_forbidden forbidden (k ∷ ks) =
    if includes_codes (to_lower_case (codes k)) forbidden then true else some_forbidden forbidden ks

-- Some key of the object is forbidden, in any letter case.
unfoldable pub has_forbidden_key : List String → Value → Bool
has_forbidden_key forbidden (plain fs) = some_forbidden (map codes forbidden) (keys fs)
has_forbidden_key forbidden _ = false

abbrev is_array : Value → Bool
is_array v = elim (as_array v) [ none ↦ false | some _ ↦ true ]

-- validateModelRequest, with the ids of the request's tool calls.
unfoldable pub validate_model_request : Value → Checked (List String)
unfolding assert_non_empty_string
validate_model_request request = do
  ensure (is_plain_object request)
      (validation_error "invalid_request" "Model request must be an object.")
  ensure (not (has_forbidden_key forbidden_request_fields request)) (
      validation_error "forbidden_request_field"
        "Model request contains a field that is not allowed on Agent Core requests.")
  _ ←
      assert_non_empty_string (property "requestId" request) "empty_request_id"
        "requestId must be a non-empty string."
  _ ←
      assert_non_empty_string (property "routeId" request) "empty_route_id"
        "routeId must be a non-empty string."
  _ ←
      assert_non_empty_string (property "model" request) "empty_model"
        "model must be a non-empty string."
  ensure (is_positive_integer (property "maxTokens" request))
      (validation_error "invalid_max_tokens" "maxTokens must be a positive integer.")
  ensure (is_array (property "messages" request))
      (validation_error "invalid_messages" "messages must be an array.")
  ids ← validate_agent_messages (property "messages" request)
  ensure (is_array (property "tools" request))
      (validation_error "invalid_tools" "tools must be an array.")
  _ ← validate_agent_tool_definitions (property "tools" request)
  ok ids
