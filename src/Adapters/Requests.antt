-- ===== src/Adapters/Requests.antt =====
-- packages/model-gateway/src/adapters/request-validation.ts and anthropic-request.ts: the requests
-- that the adapters can express, and the body of an Anthropic request. A request has no cycles, so
-- that the shared validator throws its own errors only; `structuredClone` of a JSON value belongs to
-- the platform and is a parameter.
pub mod Groups
pub mod Content
pub mod OpenAi
pub mod Tally
pub mod Correlation
use agent_routebench.Prelude.{
  ℕ, zero, suc, Bool, true, false, not, ◌&&◌, ◌||◌, String, List, [], ◌∷◌, ◌++◌, Option, none, some,
  ◌==◌, leb, length, map, includes, nat_eq, if◌then◌else◌, Outcome, ok, err, ensure, ◌>>=◌, ◌>>◌,
}
use Prim.Native.String.{◌++◌ as append}
use agent_routebench.Contracts.Value.{
  Value, Fields, undefined, boolean, string, array, plain, field, end, from_list, property, is_text,
  as_array, is_plain_object, is_undefined,
}
use agent_routebench.Contracts.Validation.{validate_model_request}

-- ADAPTER_ERROR_CODES that an encoder throws.
pub data RequestErrorCode : Type 0 where
  invalid_adapter_request unsupported_adapter_input : RequestErrorCode

abbrev pub Checked : Type 0 → Type 0
Checked A = Outcome RequestErrorCode A

-- A list that the shared validator has found to be one.
abbrev pub list_of : Option (List Value) → List Value
list_of none = []
list_of (some values) = values

abbrev pub blocks_of : Value → List Value
blocks_of message = list_of (as_array (property "content" message))

abbrev pub is_type : String → Value → Bool
is_type type block = is_text (property "type" block) type

abbrev pub text_of : Value → String
text_of (string text) = text
text_of _ = ""

-- isBlockAllowedForRole
unfoldable pub is_block_allowed_for_role : Value → ℕ → Value → Bool
is_block_allowed_for_role role index block =
    if is_text role "system"
    then nat_eq index 0 && is_type "text" block
    else if is_text role "user"
    then is_type "text" block
    else if is_text role "assistant"
    then is_type "text" block || is_type "tool_call" block
    else if is_text role "tool"
    then is_type "tool_result" block
    else false

abbrev is_boolean_or_absent : Value → Bool
is_boolean_or_absent undefined = true
is_boolean_or_absent (boolean b) = true
is_boolean_or_absent _ = false

unfoldable pub check_blocks_of : Value → ℕ → List Value → Bool
check_blocks_of role index [] = true
check_blocks_of role index (block ∷ blocks) =
    is_block_allowed_for_role role index block
    && (not (is_type "tool_result" block) || is_boolean_or_absent (property "isError" block))
    && check_blocks_of role index blocks

-- assertRoleBlockShape
unfoldable pub check_shapes : ℕ → List Value → Bool
check_shapes index [] = true
check_shapes index (message ∷ messages) =
    check_blocks_of (property "role" message) index (blocks_of message)
    && check_shapes (suc index) messages

unfoldable pub have_object_inputs : List Value → Bool
have_object_inputs [] = true
have_object_inputs (block ∷ blocks) =
    (not (is_type "tool_call" block) || is_plain_object (property "input" block))
    && have_object_inputs blocks

-- assertToolArgumentObjects
unfoldable pub have_object_arguments : List Value → Bool
have_object_arguments [] = true
have_object_arguments (message ∷ messages) =
    have_object_inputs (blocks_of message) && have_object_arguments messages

-- assertToolSchemas
unfoldable pub have_object_schemas : List Value → Bool
have_object_schemas [] = true
have_object_schemas (tool ∷ tools) =
    is_plain_object (property "inputSchema" tool)
    && is_text (property "type" (property "inputSchema" tool)) "object"
    && have_object_schemas tools

abbrev pub without : String → List String → List String
without id [] = []
without id (next ∷ ids) = let later = without id ids in if next == id then later else next ∷ later

-- The sets `pending` and `settled`.
pub record Calls : Type 0 where
  pub pending : List String
  pub settled : List String

-- The loop over the blocks of an assistant message.
unfoldable pub open_calls : Calls → List Value → Checked Calls
open_calls calls [] = ok calls
open_calls calls (block ∷ blocks) =
    let id = text_of (property "id" block) in
    if not (is_type "tool_call" block)
    then open_calls calls blocks
    else if includes id calls.pending || includes id calls.settled
    then err invalid_adapter_request
    else open_calls (record calls { pending = calls.pending ++ (id ∷ []) }) blocks

-- The loop over the blocks of a tool message.
unfoldable pub settle_calls : Calls → List Value → Checked Calls
settle_calls calls [] = ok calls
settle_calls calls (block ∷ blocks) =
    let id = text_of (property "toolCallId" block) in
    if not (is_type "tool_result" block)
    then settle_calls calls blocks
    else if not (includes id calls.pending)
    then err invalid_adapter_request
    else settle_calls
        (record { pending = without id calls.pending; settled = calls.settled ++ (id ∷ []) }) blocks

abbrev pub is_none : List String → Bool
is_none [] = true
is_none (id ∷ ids) = false

unfoldable pub correlate_message : Calls → Value → Checked Calls
correlate_message calls message =
    let role = property "role" message in
    if (is_text role "user" || is_text role "assistant") && not (is_none calls.pending)
    then err invalid_adapter_request
    else if is_text role "assistant"
    then open_calls calls (blocks_of message)
    else if is_text role "tool"
    then settle_calls calls (blocks_of message)
    else ok calls

-- assertToolCorrelation, from the sets that the messages before have left.
unfoldable pub correlate : Calls → List Value → Checked (Unit {0})
correlate calls [] = ensure (is_none calls.pending) invalid_adapter_request
correlate calls (message ∷ messages) =
    correlate_message calls message >>= λ later. correlate later messages

abbrev pub is_valid : Value → Bool
is_valid request = elim (validate_model_request request) [ ok ids ↦ true | err e ↦ false ]

abbrev pub messages_of : Value → List Value
messages_of request = list_of (as_array (property "messages" request))

abbrev pub tools_of : Value → List Value
tools_of request = list_of (as_array (property "tools" request))

-- assertAdapterRequest
unfoldable pub assert_adapter_request : Value → Checked (Unit {0})
assert_adapter_request request = do
  ensure (is_valid request) invalid_adapter_request
  ensure (check_shapes 0 (messages_of request)) invalid_adapter_request
  ensure (have_object_arguments (messages_of request)) unsupported_adapter_input
  ensure (have_object_schemas (tools_of request)) unsupported_adapter_input
  correlate (record { pending = []; settled = [] }) (messages_of request)

-- RoleGroup
pub record RoleGroup : Type 0 where
  pub role : String
  pub content : List Value

-- textOf
unfoldable pub joined_text : List Value → String
joined_text [] = ""
joined_text (block ∷ blocks) =
    let later = joined_text blocks in
    if is_type "text" block then append (text_of (property "text" block)) later else later

abbrev pub text_block : String → Value
text_block text = plain (field "type" (string "text") (field "text" (string text) end))

-- flushText, with the text that is pending, if a text block has come.
abbrev pub flushed : Option String → List Value
flushed none = []
flushed (some text) = text_block text ∷ []

abbrev pub with_text : Option String → String → Option String
with_text none text = some text
with_text (some pending) text = some (append pending text)

module _ (clone : Value → Value) where
  abbrev pub tool_use_block : Value → Value
  tool_use_block block = plain (
      field "type" (string "tool_use") (
        field "id" (property "id" block) (
          field "name" (property "name" block)
            (field "input" (clone (property "input" block)) end))))

  abbrev pub call_block : Value → List Value
  call_block block = if is_type "tool_call" block then tool_use_block block ∷ [] else []

  -- contentBlocks, behind a pending text.
  unfoldable pub content_blocks : Option String → List Value → List Value
  content_blocks pending [] = flushed pending
  content_blocks pending (block ∷ blocks) =
      if is_type "text" block
      then content_blocks (with_text pending (text_of (property "text" block))) blocks
      else flushed pending ++ (call_block block ++ content_blocks none blocks)

  abbrev pub error_field : Value → Fields
  error_field undefined = end
  error_field given = field "is_error" given end

  -- toolResultBlocks
  unfoldable pub tool_result_blocks : List Value → List Value
  tool_result_blocks [] = []
  tool_result_blocks (block ∷ blocks) =
      let later = tool_result_blocks blocks in
      if is_type "tool_result" block
      then plain (
          field "type" (string "tool_result") (
            field "tool_use_id" (property "toolCallId" block) (
              field "content" (property "content" block) (error_field (property "isError" block)))))
        ∷ later
      else later

  abbrev pub role_of : Value → String
  role_of message = if is_text (property "role" message) "assistant" then "assistant" else "user"

  unfoldable pub encode_message : Value → List Value
  encode_message message =
      if is_text (property "role" message) "tool"
      then tool_result_blocks (blocks_of message)
      else content_blocks none (blocks_of message)

  -- A message's blocks join the last group, if that has the same role.
  unfoldable pub add_group : String → List Value → List RoleGroup → List RoleGroup
  add_group role content [] = record { role = role; content = content } ∷ []
  add_group role content (last ∷ []) =
      if last.role == role
      then record { role = last.role; content = last.content ++ content } ∷ []
      else last ∷ record { role = role; content = content } ∷ []
  add_group role content (group ∷ next ∷ groups) = group ∷ add_group role content (next ∷ groups)

  -- The loop over the messages: the groups.
  unfoldable pub group_messages : List RoleGroup → List Value → List RoleGroup
  group_messages groups [] = groups
  group_messages groups (message ∷ messages) =
      if is_text (property "role" message) "system"
      then group_messages groups messages
      else group_messages (add_group (role_of message) (encode_message message) groups) messages

  -- The loop over the messages: the system text.
  unfoldable pub system_text : Option String → List Value → Option String
  system_text last [] = last
  system_text last (message ∷ messages) =
      if is_text (property "role" message) "system"
      then system_text (some (joined_text (blocks_of message))) messages
      else system_text last messages

  abbrev pub group_value : RoleGroup → Value
  group_value group =
      plain
        (field "role" (string group.role) (field "content" (array (from_list group.content)) end))

  abbrev pub tool_value : Value → Value
  tool_value tool = plain (
      field "name" (property "name" tool) (
        field "description" (property "description" tool)
          (field "input_schema" (clone (property "inputSchema" tool)) end)))

  abbrev pub tools_field : List Value → Fields
  tools_field [] = end
  tools_field (tool ∷ tools) = field "tools" (array (from_list (map tool_value (tool ∷ tools)))) end

  abbrev pub system_field : Option String → Fields → Fields
  system_field none rest = rest
  system_field (some text) rest = field "system" (string text) rest

  abbrev pub body_of : Value → Value
  body_of request = plain (
      field "model" (property "model" request) (
        field "max_tokens" (property "maxTokens" request) (
          field "stream" (boolean true) (
            field "messages"
              (array (from_list (map group_value (group_messages [] (messages_of request)))))
              (system_field (system_text none (messages_of request))
                (tools_field (tools_of request)))))))

  -- encodeAnthropicMessagesRequest
  unfoldable pub encode_anthropic_messages_request : Value → Checked Value
  encode_anthropic_messages_request request = assert_adapter_request request >> ok (body_of request)
