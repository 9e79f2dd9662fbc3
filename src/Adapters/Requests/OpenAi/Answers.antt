-- ===== src/Adapters/Requests/OpenAi/Answers.antt =====
-- The messages and the limit of an encoded Chat Completions request.
use agent_routebench.Prelude.{
  ◌≡◌, refl, String, List, [], ◌∷◌, ◌++◌, if◌then◌else◌, AfterOk, bind-AfterOk, ok-AfterOk,
  Bool-cases, inl, inr,
}
use agent_routebench.Contracts.Value.{Value, undefined, array, from_list, read, property, is_text}
use agent_routebench.Adapters.Requests.{
  is_type, blocks_of, messages_of, tools_of, assert_adapter_request,
}
use agent_routebench.Adapters.Requests.OpenAi.{
  TokenLimitField, max_tokens, max_completion_tokens, name_of, tool_messages, encode_one,
  encode_messages, tools_field, chat_body, encode_open_ai_chat_request,
}

-- The ids that a list of encoded messages answers, and those of the results in a request.
abbrev pub answered_ids : List Value → List Value
answered_ids [] = []
answered_ids (message ∷ messages) =
    let later = answered_ids messages in
    if is_text (property "role" message) "tool"
    then property "tool_call_id" message ∷ later
    else later

abbrev pub ids_in : List Value → List Value
ids_in [] = []
ids_in (block ∷ blocks) =
    let later = ids_in blocks in
    if is_type "tool_result" block then property "toolCallId" block ∷ later else later

abbrev pub result_ids : List Value → List Value
result_ids [] = []
result_ids (message ∷ messages) =
    let later = result_ids messages in
    if is_text (property "role" message) "tool" then ids_in (blocks_of message) ++ later else later

answered_ids-append :
    (xs ys : List Value) → answered_ids (xs ++ ys) ≡ answered_ids xs ++ answered_ids ys
answered_ids-append [] ys = refl
answered_ids-append (x ∷ xs) ys = elim (Bool-cases (is_text (property "role" x) "tool")) [
  | inl tool ↦ rw (tool, answered_ids-append xs ys) refl
  | inr other ↦ rw (other, answered_ids-append xs ys) refl
]

abbrev other_name : TokenLimitField → String
other_name max_tokens = "max_completion_tokens"
other_name max_completion_tokens = "max_tokens"

module _ (clone : Value → Value) (stringify : Value → String) where
  answered_ids-tool_messages :
      (blocks : List Value) → answered_ids (tool_messages clone stringify blocks) ≡ ids_in blocks
  unfolding tool_messages
  answered_ids-tool_messages [] = refl
  answered_ids-tool_messages (block ∷ blocks) = elim (Bool-cases (is_type "tool_result" block)) [
    | inl result ↦ rw (result, answered_ids-tool_messages blocks) refl
    | inr other ↦ rw (other, answered_ids-tool_messages blocks) refl
  ]

  abbrev answers_of : Value → List Value
  answers_of message =
      if is_text (property "role" message) "tool" then ids_in (blocks_of message) else []

  answered_ids-encode_one :
      (message : Value) → answered_ids (encode_one clone stringify message) ≡ answers_of message
  unfolding encode_one
  answered_ids-encode_one message =
      let role = property "role" message in
      elim (Bool-cases (is_text role "tool")) [
        | inl tool ↦ rw tool (answered_ids-tool_messages (blocks_of message))
        | inr other ↦ elim (Bool-cases (is_text role "assistant")) [
          | inl assistant ↦ rw (other, assistant) refl
          | inr neither ↦ elim (Bool-cases (is_text role "system")) [
            | inl system ↦ rw (other, neither, system) refl
            | inr user ↦ rw (other, neither, user) refl
          ]
        ]
      ]

  answered_ids-encode_messages :
      (messages : List Value)
      → answered_ids (encode_messages clone stringify messages) ≡ result_ids messages
  unfolding encode_messages
  answered_ids-encode_messages [] = refl
  answered_ids-encode_messages (message ∷ messages) =
      rw
        (
          answered_ids-append (encode_one clone stringify message)
              (encode_messages clone stringify messages),
          answered_ids-encode_one message,
          answered_ids-encode_messages messages,
        )
        (elim (Bool-cases (is_text (property "role" message) "tool")) [
          | inl tool ↦ rw tool refl
          | inr other ↦ rw other refl
        ])

  -- A Chat Completions body for a request and a limit's field.
  pub record IsChat (request : Value) (limit : TokenLimitField) (body : Value) : Type 0 where
    pub messages : List Value
    pub listed : property "messages" body ≡ array (from_list messages)
    pub answers : answered_ids messages ≡ result_ids (messages_of request)
    pub limited : property (name_of limit) body ≡ property "maxTokens" request
    pub once : property (other_name limit) body ≡ undefined

  tools-absent :
      (limit : TokenLimitField) (tools : List Value)
      → read (other_name limit) (tools_field clone stringify tools) ≡ undefined
  tools-absent limit [] = refl
  tools-absent max_tokens (tool ∷ tools) = refl
  tools-absent max_completion_tokens (tool ∷ tools) = refl

  other-absent :
      (request : Value) (limit : TokenLimitField)
      → property (other_name limit) (chat_body clone stringify request limit) ≡ undefined
  other-absent request max_tokens = tools-absent max_tokens (tools_of request)
  other-absent request max_completion_tokens = tools-absent max_completion_tokens (tools_of request)

  listed-messages :
      (request : Value) (limit : TokenLimitField)
      → property "messages" (chat_body clone stringify request limit)
        ≡ array (from_list (encode_messages clone stringify (messages_of request)))
  listed-messages request max_tokens = refl
  listed-messages request max_completion_tokens = refl

  named :
      (request : Value) (limit : TokenLimitField)
      → property (name_of limit) (chat_body clone stringify request limit)
        ≡ property "maxTokens" request
  named request max_tokens = refl
  named request max_completion_tokens = refl

  -- A Chat Completions body holds the limit on tokens in the field that was asked for and not in the
  -- other one, and its tool messages answer the ids of the request's tool results, in their order.
  pub encode_open_ai-IsChat :
      (request : Value) (limit : TokenLimitField)
      → AfterOk (IsChat request limit) (encode_open_ai_chat_request clone stringify request limit)
  unfolding encode_open_ai_chat_request
  encode_open_ai-IsChat request limit = bind-AfterOk (assert_adapter_request request) _ (λ u e.
      ok-AfterOk (chat_body clone stringify request limit) (record {
        messages = encode_messages clone stringify (messages_of request);
        listed = listed-messages request limit;
        answers = answered_ids-encode_messages (messages_of request);
        limited = named request limit;
        once = other-absent request limit;
      }))
