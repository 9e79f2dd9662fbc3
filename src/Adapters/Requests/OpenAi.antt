-- ===== src/Adapters/Requests/OpenAi.antt =====
-- packages/model-gateway/src/adapters/openai-chat-request.ts: the body of a Chat Completions
-- request. `structuredClone` and `JSON.stringify` of JSON values belong to the platform and are
-- parameters.
pub mod Answers
use agent_routebench.Prelude.{
  ◌==◌, Option, some, none, Bool, true, false, String, List, [], ◌∷◌, ◌++◌, map, append_assoc,
  if◌then◌else◌, ok, ◌>>◌, AfterOk, bind-AfterOk, ok-AfterOk, Bool-cases, inl, inr, ◌||◌,
}
use agent_routebench.Contracts.Value.{
  Value, Fields, undefined, null, number, natural, boolean, string, array, plain, field, end,
  from_list, property, is_text,
}
use agent_routebench.Adapters.Requests.{
  Checked, is_type, blocks_of, joined_text, messages_of, tools_of, assert_adapter_request,
}

-- OpenAITokenLimitField
pub data TokenLimitField : Type 0 where
  max_tokens max_completion_tokens : TokenLimitField

abbrev pub name_of : TokenLimitField → String
name_of max_tokens = "max_tokens"
name_of max_completion_tokens = "max_completion_tokens"

-- normalizeTokenLimitField: none is the error invalid_adapter_options.
unfoldable pub normalize_token_limit_field : Value → Option TokenLimitField
normalize_token_limit_field undefined = some max_tokens
normalize_token_limit_field (string name) =
    if name == "max_tokens"
    then some max_tokens
    else if name == "max_completion_tokens"
    then some max_completion_tokens
    else none
normalize_token_limit_field _ = none

unfoldable pub has_text : List Value → Bool
has_text [] = false
has_text (block ∷ blocks) = is_type "text" block || has_text blocks

module _ (clone : Value → Value) (stringify : Value → String) where
  -- encodeToolResultEnvelope
  abbrev pub envelope : Value → Bool → String
  envelope content is_error =
      stringify (plain (field "content" content (field "isError" (boolean is_error) end)))

  abbrev pub is_true : Value → Bool
  is_true (boolean b) = b
  is_true _ = false

  abbrev pub function_call : Value → Value
  function_call block = plain (
      field "id" (property "id" block) (
        field "type" (string "function") (
          field "function"
            (plain (
              field "name" (property "name" block)
                (field "arguments" (string (stringify (clone (property "input" block)))) end)))
            end)))

  unfoldable pub assistant_tool_calls : List Value → List Value
  assistant_tool_calls [] = []
  assistant_tool_calls (block ∷ blocks) =
      let later = assistant_tool_calls blocks in
      if is_type "tool_call" block then function_call block ∷ later else later

  abbrev pub tool_message : Value → Value
  tool_message block = plain (
      field "role" (string "tool") (
        field "tool_call_id" (property "toolCallId" block) (
          field "content"
            (string (envelope (property "content" block) (is_true (property "isError" block))))
            end)))

  unfoldable pub tool_messages : List Value → List Value
  tool_messages [] = []
  tool_messages (block ∷ blocks) =
      let later = tool_messages blocks in
      if is_type "tool_result" block then tool_message block ∷ later else later

  abbrev pub calls_field : List Value → Fields
  calls_field [] = end
  calls_field (call ∷ calls) = field "tool_calls" (array (from_list (call ∷ calls))) end

  abbrev pub assistant_message : List Value → Value
  assistant_message blocks = plain (
      field "role" (string "assistant") (
        field "content" (if has_text blocks then string (joined_text blocks) else null)
          (calls_field (assistant_tool_calls blocks))))

  abbrev pub text_message : Value → Value
  text_message message = plain (
      field "role"
        (string (if is_text (property "role" message) "system" then "system" else "user"))
        (field "content" (string (joined_text (blocks_of message))) end))

  -- The body of the loop of encodeMessages.
  unfoldable pub encode_one : Value → List Value
  encode_one message =
      if is_text (property "role" message) "tool"
      then tool_messages (blocks_of message)
      else if is_text (property "role" message) "assistant"
      then assistant_message (blocks_of message) ∷ []
      else text_message message ∷ []

  unfoldable pub encode_messages : List Value → List Value
  encode_messages [] = []
  encode_messages (message ∷ messages) = encode_one message ++ encode_messages messages

  abbrev pub function_tool : Value → Value
  function_tool tool = plain (
      field "type" (string "function") (
        field "function"
          (plain (
            field "name" (property "name" tool) (
              field "description" (property "description" tool)
                (field "parameters" (clone (property "inputSchema" tool)) end))))
          end))

  abbrev pub tools_field : List Value → Fields
  tools_field [] = end
  tools_field (tool ∷ tools) =
      field "tools" (array (from_list (map function_tool (tool ∷ tools)))) end

  abbrev pub chat_body : Value → TokenLimitField → Value
  chat_body request limit = plain (
      field "model" (property "model" request) (
        field "stream" (boolean true) (
          field "n" (number (natural 1)) (
            field "stream_options" (plain (field "include_usage" (boolean true) end)) (
              field (name_of limit) (property "maxTokens" request) (
                field "messages" (array (from_list (encode_messages (messages_of request))))
                  (tools_field (tools_of request))))))))

  -- encodeOpenAIChatRequest
  unfoldable pub encode_open_ai_chat_request : Value → TokenLimitField → Checked Value
  encode_open_ai_chat_request request limit =
      assert_adapter_request request >> ok (chat_body request limit)
