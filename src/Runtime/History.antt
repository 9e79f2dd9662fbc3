-- ===== src/Runtime/History.antt =====
-- The copies of the conversation and what is collected of it, in
-- packages/agent-runtime/src/agent-loop.ts.
use agent_routebench.Prelude.{String, List, [], ◌∷◌, ◌++◌, map, Option, none, some, if◌then◌else◌}
use agent_routebench.Contracts.Value.{
  Value, string, boolean, array, plain, end, field, from_list, property, as_array, is_undefined,
  is_text, is_true,
}
use agent_routebench.Contracts.Json.{clone_json_value}

-- cloneContentBlock, of a block that is a plain object.
abbrev clone_tool_result : Value → Value
clone_tool_result block =
    if is_undefined (property "isError" block)
    then plain (
        field "type" (string "tool_result") (
          field "toolCallId" (property "toolCallId" block)
            (field "content" (property "content" block) end)))
    else plain (
        field "type" (string "tool_result") (
          field "toolCallId" (property "toolCallId" block) (
            field "content" (property "content" block)
              (field "isError" (boolean (is_true (property "isError" block))) end))))

unfoldable pub clone_plain_block : Value → Value
clone_plain_block block =
    if is_text (property "type" block) "text"
    then plain (field "type" (string "text") (field "text" (property "text" block) end))
    else if is_text (property "type" block) "tool_call"
    then plain (
        field "type" (string "tool_call") (
          field "id" (property "id" block) (
            field "name" (property "name" block)
              (field "input" (clone_json_value (property "input" block)) end))))
    else if is_text (property "type" block) "tool_result"
    then clone_tool_result block
    else block

unfoldable pub clone_content_block : Value → Value
unfolding clone_plain_block
clone_content_block (plain fs) = clone_plain_block (plain fs)
clone_content_block block = block

abbrev pub list_or_empty : Option (List Value) → List Value
list_or_empty none = []
list_or_empty (some vs) = vs

-- `isPlainObject(v) ? v : {}`
abbrev pub plain_or_empty : Value → Value
plain_or_empty (plain fs) = plain fs
plain_or_empty _ = plain end

unfoldable pub clone_message : Value → Value
unfolding clone_content_block
clone_message message =
    let source = plain_or_empty message in
    plain (
      field "role" (property "role" source) (
        field "content"
          (array (
            from_list
              (map clone_content_block (list_or_empty (as_array (property "content" source))))))
          end))

-- cloneMessages, of the elements.
unfoldable pub clone_messages : List Value → List Value
unfolding clone_message
clone_messages messages = map clone_message messages

unfoldable pub clone_tool_definition : Value → Value
clone_tool_definition tool =
    let source = plain_or_empty tool in
    plain (
      field "name" (property "name" source) (
        field "description" (property "description" source)
          (field "inputSchema" (clone_json_value (property "inputSchema" source)) end)))

unfoldable pub clone_tool_definitions : Value → Value
unfolding clone_tool_definition
clone_tool_definitions raw =
    array (from_list (map clone_tool_definition (list_or_empty (as_array raw))))

-- The text under a key of a plain object, if there is one.
abbrev pub own_text : String → Value → List String
own_text key (plain fs) = elim (property key (plain fs)) [ string s ↦ s ∷ [] | _ ↦ [] ]
own_text key _ = []

unfoldable pub collect_names : List Value → List String
collect_names [] = []
collect_names (tool ∷ tools) = own_text "name" tool ++ collect_names tools

-- collectToolNames. A set is the list of its additions.
unfoldable pub collect_tool_names : Value → List String
unfolding collect_names
collect_tool_names raw = collect_names (list_or_empty (as_array raw))

abbrev pub block_ids : Value → List String
block_ids block =
    if is_text (property "type" (plain_or_empty block)) "tool_call" then own_text "id" block else []

unfoldable pub collect_block_ids : List Value → List String
collect_block_ids [] = []
collect_block_ids (block ∷ blocks) = block_ids block ++ collect_block_ids blocks

unfoldable pub collect_message_ids : List Value → List String
unfolding collect_block_ids
collect_message_ids [] = []
collect_message_ids (message ∷ messages) =
    collect_block_ids (list_or_empty (as_array (property "content" (plain_or_empty message))))
    ++ collect_message_ids messages

-- collectToolCallIds
unfoldable pub collect_tool_call_ids : Value → List String
unfolding collect_message_ids
collect_tool_call_ids raw = collect_message_ids (list_or_empty (as_array raw))

-- buildTurnRequest
unfoldable pub build_turn_request : Value → List Value → Value
unfolding clone_messages clone_tool_definitions
build_turn_request request messages = plain (
    field "requestId" (property "requestId" request) (
      field "routeId" (property "routeId" request) (
        field "model" (property "model" request) (
          field "messages" (array (from_list (clone_messages messages))) (
            field "tools" (clone_tool_definitions (property "tools" request))
              (field "maxTokens" (property "maxTokens" request) end))))))
