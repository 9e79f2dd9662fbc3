-- ===== src/Scenarios/Encoding.antt =====
-- A conversation with one tool call, encoded for Anthropic.
use agent_routebench.Prelude.{
  ◌≡◌, ◌≤◌, refl, ℕ, String, length, Option, some, ok, err, none, AfterOk,
}
use agent_routebench.Contracts.Value.{
  Value, number, natural, string, array, plain, field, end, item, nil, property, as_array,
}
use agent_routebench.Contracts.Json.{is_json_value}
use agent_routebench.Contracts.Validation.{
  validate_model_request, validate_agent_messages, check_messages, check_message, check_blocks,
  check_block, check_text_block, check_tool_call_block, check_tool_result_block, assert_agent_role,
  assert_json_value, assert_non_empty_string, has_forbidden_key, validate_agent_tool_definitions,
  check_tools,
}
use agent_routebench.Adapters.Requests.{
  Checked, encode_anthropic_messages_request, assert_adapter_request, correlate, correlate_message,
  open_calls, settle_calls, check_shapes, check_blocks_of, is_block_allowed_for_role,
  have_object_arguments, have_object_inputs, have_object_schemas, group_messages, add_group,
  encode_message, content_blocks, tool_result_blocks, system_text, list_of, messages_of,
}
use agent_routebench.Adapters.Requests.Correlation.{called, answered, assert_adapter_request-calls}
use agent_routebench.Adapters.Requests.OpenAi.{max_completion_tokens, encode_open_ai_chat_request}
use agent_routebench.Adapters.Requests.OpenAi.Answers.{IsChat, encode_open_ai-IsChat}
use agent_routebench.Adapters.Requests.Groups.{IsEncoding, encode_anthropic-IsEncoding}

abbrev text : String → Value
text content = plain (field "type" (string "text") (field "text" (string content) end))

abbrev message : String → Value → Value
message role block =
    plain (field "role" (string role) (field "content" (array (item block nil)) end))

abbrev call : Value
call = plain (
    field "type" (string "tool_call")
      (field "id" (string "c1") (field "name" (string "clock") (field "input" (plain end) end))))

abbrev result : Value
result = plain (
    field "type" (string "tool_result")
      (field "toolCallId" (string "c1") (field "content" (string "noon") end)))

abbrev question : Value
question = plain (
    field "requestId" (string "r1") (
      field "routeId" (string "main") (
        field "model" (string "m") (
          field "maxTokens" (number (natural 64)) (
            field "tools" (array nil) (
              field "messages"
                (array (
                  item (message "system" (text "Be brief.")) (
                    item (message "user" (text "Time?")) (
                      item (message "assistant" call)
                        (item (message "tool" result) (item (message "user" (text "And?")) nil))))))
                end))))))

anthropic_body_example :
    AfterOk
      (IsEncoding (λ given. given) question)
      (encode_anthropic_messages_request (λ given. given) question)
anthropic_body_example = encode_anthropic-IsEncoding (λ given. given) question

clock_example :
    AfterOk
      (λ u.
        (called "c1" (messages_of question) ≡ answered "c1" (messages_of question))
        × (called "c1" (messages_of question) ≤ 1))
      (assert_adapter_request question)
clock_example = assert_adapter_request-calls question "c1"

chat_body_example :
    AfterOk
      (IsChat (λ given. given) (λ given. "{}") question max_completion_tokens)
      (encode_open_ai_chat_request (λ given. given) (λ given. "{}") question max_completion_tokens)
chat_body_example =
    encode_open_ai-IsChat (λ given. given) (λ given. "{}") question max_completion_tokens

abbrev count_messages : Checked Value → Option ℕ
count_messages (ok body) = some (length (list_of (as_array (property "messages" body))))
count_messages (err code) = none

-- The tool's result and the next question are one group.
three_groups : count_messages (encode_anthropic_messages_request (λ given. given) question) ≡ some 3
unfolding encode_anthropic_messages_request assert_adapter_request correlate correlate_message
    open_calls settle_calls check_shapes check_blocks_of is_block_allowed_for_role
    have_object_arguments have_object_inputs have_object_schemas group_messages add_group
    encode_message content_blocks tool_result_blocks system_text validate_model_request
    validate_agent_messages check_messages check_message check_blocks check_block check_text_block
    check_tool_call_block check_tool_result_block assert_agent_role assert_json_value
    assert_non_empty_string has_forbidden_key validate_agent_tool_definitions check_tools
    is_json_value
three_groups = refl
