-- ===== src/Adapters/Requests/Groups.antt =====
-- The messages of an encoded Anthropic request.
use agent_routebench.Prelude.{
  ◌≡◌, refl, sym, ap, ◌∙◌, false, String, List, [], ◌∷◌, ◌++◌, map, ◌==◌, eq_iff, if◌then◌else◌,
  AfterOk, bind-AfterOk, ok-AfterOk, append_assoc, append-nil, Bool-cases, inl, inr,
}
use agent_routebench.Contracts.Value.{
  Value, string, plain, field, end, array, from_list, property, is_text,
}
use agent_routebench.Adapters.Requests.Content.{
  results_for, content_for, content_blocks-content_for, tool_result_blocks-results_for,
}
use agent_routebench.Adapters.Requests.Correlation.{assistant-not_tool}
use agent_routebench.Adapters.Requests.{
  RoleGroup, messages_of, blocks_of, role_of, encode_message, add_group, group_messages,
  assert_adapter_request, encode_anthropic_messages_request, body_of,
}

abbrev Parts : String → List RoleGroup → Type 0
Parts role [] = Unit
Parts role (group ∷ groups) = (role == group.role) ≡ false

-- Two groups in a row have different roles.
abbrev pub IsAlternating : List RoleGroup → Type 0
IsAlternating [] = Unit
IsAlternating (group ∷ groups) = Parts group.role groups × IsAlternating groups

abbrev pub said_by : String → List Value → List (String × Value)
said_by role [] = []
said_by role (block ∷ blocks) = (role, block) ∷ said_by role blocks

-- The blocks of the groups, each with the role under which it stands.
abbrev pub said : List RoleGroup → List (String × Value)
said [] = []
said (group ∷ groups) = said_by group.role group.content ++ said groups

-- A group as a message of the body.
abbrev pub group_item : RoleGroup → Value
group_item group =
    plain (field "role" (string group.role) (field "content" (array (from_list group.content)) end))

said_by-append :
    (role : String) (xs ys : List Value)
    → said_by role (xs ++ ys) ≡ said_by role xs ++ said_by role ys
said_by-append role [] ys = refl
said_by-append role (x ∷ xs) ys = ap (◌∷◌ (role, x)) (said_by-append role xs ys)

module _ (clone : Value → Value) where
  -- The blocks that a message becomes, each with its role: a tool's results and a user's content
  -- stand under "user", an assistant's content under "assistant".
  abbrev pub turn_of : Value → List (String × Value)
  turn_of message =
      let blocks = blocks_of message in
      if is_text (property "role" message) "tool"
      then said_by "user" (results_for clone blocks)
      else if is_text (property "role" message) "assistant"
      then said_by "assistant" (content_for clone blocks)
      else said_by "user" (content_for clone blocks)

  -- Those of all messages but the system's.
  abbrev pub spoken : List Value → List (String × Value)
  spoken [] = []
  spoken (message ∷ messages) =
      let later = spoken messages in
      if is_text (property "role" message) "system" then later else turn_of message ++ later

  add_group-IsAlternating :
      (role : String) (content : List Value) (groups : List RoleGroup)
      → IsAlternating groups
      → IsAlternating (add_group clone role content groups)
  unfolding add_group
  add_group-IsAlternating role content [] h = (tt, tt)
  add_group-IsAlternating role content (last ∷ []) h = elim (Bool-cases (last.role == role)) [
    | inl same ↦ rw same (tt, tt)
    | inr other ↦ rw other (other, (tt, tt))
  ]
  add_group-IsAlternating role content (group ∷ next ∷ groups) h =
      (Parts-add group next groups h.0, add_group-IsAlternating role content (next ∷ groups) h.1)
    where
      Parts-add :
          (group next : RoleGroup) (groups : List RoleGroup)
          → Parts group.role (next ∷ groups)
          → Parts group.role (add_group clone role content (next ∷ groups))
      Parts-add group next [] k = elim (Bool-cases (next.role == role)) [
        | inl same ↦ rw same k
        | inr other ↦ rw other k
      ]
      Parts-add group next (third ∷ groups) k = k

  said-add_group :
      (role : String) (content : List Value) (groups : List RoleGroup)
      → said (add_group clone role content groups) ≡ said groups ++ said_by role content
  unfolding add_group
  said-add_group role content [] = append-nil (said_by role content)
  said-add_group role content (last ∷ []) = elim (Bool-cases (last.role == role)) [
    | inl same ↦
        rw
          (
            same,
            append-nil (said_by last.role (last.content ++ content)),
            append-nil (said_by last.role last.content),
            said_by-append last.role last.content content,
            (eq_iff last.role role).0 same,
          )
          refl
    | inr other ↦
        rw (other, append-nil (said_by role content), append-nil (said_by last.role last.content))
          refl
  ]
  said-add_group role content (group ∷ next ∷ groups) =
      rw (said-add_group role content (next ∷ groups)) (
        sym (
          append_assoc (said_by group.role group.content) (said (next ∷ groups))
            (said_by role content)))

  group_messages-IsAlternating :
      (groups : List RoleGroup) (messages : List Value)
      → IsAlternating groups
      → IsAlternating (group_messages clone groups messages)
  unfolding group_messages
  group_messages-IsAlternating groups [] h = h
  group_messages-IsAlternating groups (message ∷ messages) h =
      elim (Bool-cases (is_text (property "role" message) "system")) [
        | inl system ↦ rw system (group_messages-IsAlternating groups messages h)
        | inr other ↦ rw other (
            group_messages-IsAlternating
              (add_group clone (role_of clone message) (encode_message clone message) groups)
              messages
              (add_group-IsAlternating (role_of clone message) (encode_message clone message) groups
                h))
      ]

  said_by-encode_message :
      (message : Value)
      → said_by (role_of clone message) (encode_message clone message) ≡ turn_of message
  unfolding encode_message
  said_by-encode_message message =
      let role = property "role" message in
      let blocks = blocks_of message in
      elim (Bool-cases (is_text role "assistant")) [
        | inl assistant ↦
            rw (assistant, assistant-not_tool role assistant)
              (ap (said_by "assistant") (content_blocks-content_for clone blocks))
        | inr other ↦ elim (Bool-cases (is_text role "tool")) [
          | inl tool ↦
              rw (other, tool) (ap (said_by "user") (tool_result_blocks-results_for clone blocks))
          | inr neither ↦
              rw (other, neither) (ap (said_by "user") (content_blocks-content_for clone blocks))
        ]
      ]

  said-group_messages :
      (groups : List RoleGroup) (messages : List Value)
      → said (group_messages clone groups messages) ≡ said groups ++ spoken messages
  unfolding group_messages
  said-group_messages groups [] = sym (append-nil (said groups))
  said-group_messages groups (message ∷ messages) =
      let role = role_of clone message in
      let content = encode_message clone message in
      elim (Bool-cases (is_text (property "role" message) "system")) [
        | inl system ↦ rw system (said-group_messages groups messages)
        | inr other ↦ rw other (
            said-group_messages (add_group clone role content groups) messages
            ∙ ap (λ l. l ++ spoken messages) (said-add_group role content groups)
            ∙ append_assoc (said groups) (said_by role content) (spoken messages)
            ∙ ap (◌++◌ (said groups))
                (ap (λ l. l ++ spoken messages) (said_by-encode_message message)))
      ]

  -- A body for the messages of a request.
  pub record IsEncoding (request body : Value) : Type 0 where
    pub model : property "model" body ≡ property "model" request
    pub limit : property "max_tokens" body ≡ property "maxTokens" request
    pub groups : List RoleGroup
    pub listed : property "messages" body ≡ array (from_list (map group_item groups))
    pub alternating : IsAlternating groups
    pub complete : said groups ≡ spoken (messages_of request)

  -- A request that is encoded for Anthropic has the request's model and limit on tokens, and messages
  -- whose roles alternate. Their blocks, one message behind the other, are those of the request's
  -- messages other than the system's, in their order: a user's blocks and a tool's results under the
  -- role "user", an assistant's under "assistant". Texts of a message that follow one another become
  -- one text, a tool call becomes a `tool_use` with its id, name and a copy of its input, and a tool result a
  -- `tool_result` with its id, content and error mark.
  pub encode_anthropic-IsEncoding :
      (request : Value)
      → AfterOk (IsEncoding request) (encode_anthropic_messages_request clone request)
  unfolding encode_anthropic_messages_request
  encode_anthropic-IsEncoding request = bind-AfterOk (assert_adapter_request request) _ (λ u e.
      ok-AfterOk (body_of clone request) (record {
        model = refl;
        limit = refl;
        groups = group_messages clone [] (messages_of request);
        listed = refl;
        alternating = group_messages-IsAlternating [] (messages_of request) tt;
        complete = said-group_messages [] (messages_of request);
      }))
