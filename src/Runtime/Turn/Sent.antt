-- ===== src/Runtime/Turn/Sent.antt =====
-- The requests that packages/agent-runtime/src/agent-loop.ts sends: what they share with the
-- caller's one.
use agent_routebench.Prelude.{◌≡◌, refl, List, [], ◌∷◌, map}
use agent_routebench.Contracts.Value.{
  Value, plain, field, end, array, from_list, as_array, property,
}
use agent_routebench.Contracts.Json.{clone_json_value}
use agent_routebench.Runtime.Turn.Copies.{BeginsWith, BeginsWith-clone}
use agent_routebench.Runtime.History.{
  build_turn_request, clone_tool_definitions, clone_tool_definition, list_or_empty, plain_or_empty,
  clone_messages,
}

-- A tool with the same name and description, and a deep copy of the schema.
abbrev pub IsToolCopy : Value → Value → Type 0
IsToolCopy tool copy =
    (property "name" copy ≡ property "name" tool)
    × (property "description" copy ≡ property "description" tool)
    × (property "inputSchema" copy ≡ clone_json_value (property "inputSchema" tool))

-- The tools, each copied, in their order.
abbrev pub AreToolCopies : List Value → List Value → Type 0
AreToolCopies [] [] = Unit
AreToolCopies (tool ∷ tools) (copy ∷ copies) =
    IsToolCopy (plain_or_empty tool) copy × AreToolCopies tools copies
AreToolCopies _ _ = ⊥

abbrev pub messages_of : Value → List Value
messages_of request = list_or_empty (as_array (property "messages" request))

-- A request with the caller's id, route, model, limit on tokens and tools, and messages that begin with
-- copies of the caller's.
pub record IsTurnRequest (request sent : Value) : Type 0 where
  pub same_id : property "requestId" sent ≡ property "requestId" request
  pub same_route : property "routeId" sent ≡ property "routeId" request
  pub same_model : property "model" sent ≡ property "model" request
  pub same_limit : property "maxTokens" sent ≡ property "maxTokens" request
  pub tools : List Value
  pub tools_sent : property "tools" sent ≡ array (from_list tools)
  pub same_tools : AreToolCopies (list_or_empty (as_array (property "tools" request))) tools
  pub messages : List Value
  pub messages_sent : property "messages" sent ≡ array (from_list messages)
  pub same_messages : BeginsWith (messages_of request) messages

clone-AreToolCopies : (tools : List Value) → AreToolCopies tools (map clone_tool_definition tools)
unfolding clone_tool_definition
clone-AreToolCopies [] = tt
clone-AreToolCopies (tool ∷ tools) = ((refl, refl, refl), clone-AreToolCopies tools)

pub build_turn_request-IsTurnRequest :
    (request : Value) (messages : List Value)
    → BeginsWith (messages_of request) messages
    → IsTurnRequest request (build_turn_request request messages)
unfolding build_turn_request clone_tool_definitions
build_turn_request-IsTurnRequest request messages h = record {
  same_id = refl;
  same_route = refl;
  same_model = refl;
  same_limit = refl;
  tools = _;
  tools_sent = refl;
  same_tools = clone-AreToolCopies (list_or_empty (as_array (property "tools" request)));
  messages = clone_messages messages;
  messages_sent = refl;
  same_messages = BeginsWith-clone (messages_of request) messages h;
}

-- A request with the same properties, but no messages.
abbrev pub without_messages : Value → Value
without_messages request = plain (
    field "requestId" (property "requestId" request) (
      field "routeId" (property "routeId" request) (
        field "model" (property "model" request) (
          field "tools" (property "tools" request)
            (field "maxTokens" (property "maxTokens" request) end)))))

pub build_turn_request-any :
    (request : Value) (messages : List Value)
    → IsTurnRequest (without_messages request) (build_turn_request request messages)
unfolding build_turn_request clone_tool_definitions
build_turn_request-any request messages = record {
  same_id = refl;
  same_route = refl;
  same_model = refl;
  same_limit = refl;
  tools = _;
  tools_sent = refl;
  same_tools = clone-AreToolCopies (list_or_empty (as_array (property "tools" request)));
  messages = clone_messages messages;
  messages_sent = refl;
  same_messages = tt;
}
