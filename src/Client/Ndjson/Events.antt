-- ===== src/Client/Ndjson/Events.antt =====
-- The events of Agent Core, as they cross to the client.
use agent_routebench.Prelude.{◌≡◌, refl, true, String, ok, arith}
use agent_routebench.Contracts.Value.{Value, Fields, string, number, boolean, plain, field, end}
use agent_routebench.Core.{AgentEvent}
use agent_routebench.Client.Ndjson.{
  is_event, validate_agent_event, is_string, is_object, is_finite_number,
}

-- The object that stands for an event on the wire.
abbrev typed : String → String → Fields → Value
typed type request_id rest =
    plain (field "type" (string type) (field "requestId" (string request_id) rest))

abbrev pub event_value : AgentEvent → Value
event_value (AgentEvent.route_selected request_id route_id model) =
    typed "route_selected" request_id
      (field "routeId" (string route_id) (field "model" (string model) end))
event_value (AgentEvent.text_delta request_id text) =
    typed "text_delta" request_id (field "text" (string text) end)
event_value (AgentEvent.tool_call request_id id name input) =
    typed "tool_call" request_id (field "id" id (field "name" name (field "input" input end)))
event_value (AgentEvent.usage request_id input output) =
    typed "usage" request_id
      (field "inputTokens" (number input) (field "outputTokens" (number output) end))
event_value (AgentEvent.completed request_id) = typed "completed" request_id end
event_value (AgentEvent.error request_id code message retryable) = typed "error" request_id (
    field "code" (string code)
      (field "message" (string message) (field "retryable" (boolean retryable) end)))

-- What the client asks beyond the type: a tool call with texts and an object, finite counts.
abbrev pub IsSendable : AgentEvent → Type 0
IsSendable (AgentEvent.tool_call request_id id name input) =
    (is_string id ≡ true) × (is_string name ≡ true) × (is_object input ≡ true)
IsSendable (AgentEvent.usage request_id input output) =
    (is_finite_number input ≡ true) × (is_finite_number output ≡ true)
IsSendable _ = Unit

sendable-event_value :
    (event : AgentEvent)
    → IsSendable event
    → validate_agent_event (event_value event) ≡ ok (event_value event)
unfolding validate_agent_event is_event
sendable-event_value (AgentEvent.route_selected request_id route_id model) h = refl
sendable-event_value (AgentEvent.text_delta request_id text) h = refl
sendable-event_value (AgentEvent.tool_call request_id id name input) h = rw (h.0, h.1, h.2)
sendable-event_value (AgentEvent.usage request_id input output) h = rw (h.0, h.1)
sendable-event_value (AgentEvent.completed request_id) h = refl
sendable-event_value (AgentEvent.error request_id code message retryable) h = refl

accepted-IsSendable :
    (event : AgentEvent) (answer : Value)
    → validate_agent_event (event_value event) ≡ ok answer
    → IsSendable event
unfolding validate_agent_event is_event
accepted-IsSendable (AgentEvent.tool_call request_id id name input) answer h =
    (ground arith, ground arith, ground arith)
accepted-IsSendable (AgentEvent.usage request_id input output) answer h =
    (ground arith, ground arith)
accepted-IsSendable (AgentEvent.route_selected request_id route_id model) answer h = tt
accepted-IsSendable (AgentEvent.text_delta request_id text) answer h = tt
accepted-IsSendable (AgentEvent.completed request_id) answer h = tt
accepted-IsSendable (AgentEvent.error request_id code message retryable) answer h = tt

-- An event of Agent Core, as an object with the event's fields, passes the client's validation if
-- and only if, for a tool call, its id and name are texts and its input is an object, and, for a
-- usage, its counts are finite numbers; an event that passes is left unchanged.
pub validate_agent_event-event_value :
    (event : AgentEvent)
    → (IsSendable event → validate_agent_event (event_value event) ≡ ok (event_value event))
      × ((answer : Value) → validate_agent_event (event_value event) ≡ ok answer → IsSendable event)
validate_agent_event-event_value event = (sendable-event_value event, accepted-IsSendable event)
