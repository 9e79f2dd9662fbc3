-- ===== src/Core.antt =====
-- packages/agent-core/src/agent-core.ts: one validated request to a model gateway, as a stream of
-- agent events.
pub mod Safety
use agent_routebench.Prelude.{
  ◌≡◌, Bool, true, false, String, List, [], ◌∷◌, includes, ◌==◌, if◌then◌else◌, Outcome, ok, err,
}
use agent_routebench.Contracts.Value.{Value, undefined, string, plain, Number, property, is_true}
use agent_routebench.Contracts.Validation.{ValidationError, validate_model_request}
use agent_routebench.Contracts.Events.{ModelStreamEvent, Stream, value, done, failed}

pub data AgentEvent : Type 0 where
  route_selected : (request_id route_id model : String) → AgentEvent
  text_delta : (request_id text : String) → AgentEvent
  tool_call : (request_id : String) (id name input : Value) → AgentEvent
  usage : (request_id : String) (input_tokens output_tokens : Number) → AgentEvent
  completed : (request_id : String) → AgentEvent
  error : (request_id code message : String) (retryable : Bool) → AgentEvent

-- SAFE_GATEWAY_ERROR_CODES
abbrev pub safe_gateway_error_codes : List String
safe_gateway_error_codes =
    "aborted" ∷ "rate_limited" ∷ "upstream_unavailable" ∷ "provider_protocol_error"
    ∷ "gateway_error" ∷ []

abbrev pub gateway_error_message : String
gateway_error_message = "Model gateway request failed."

abbrev pub gateway_aborted_message : String
gateway_aborted_message = "Request aborted."

-- The code, if it is a text of the set.
abbrev pub safe_code : Value → String
safe_code (string s) = if includes s safe_gateway_error_codes then s else "gateway_error"
safe_code _ = "gateway_error"

unfoldable pub sanitized_gateway_error : String → Value → Value → AgentEvent
sanitized_gateway_error request_id code retryable =
    error request_id (safe_code code)
      (if safe_code code == "aborted" then gateway_aborted_message else gateway_error_message)
      (is_true retryable)

abbrev pub text_or_empty : Value → String
text_or_empty (string s) = s
text_or_empty _ = ""

-- `typeof request?.requestId === "string" ? request.requestId : ""`
abbrev pub request_id_of : Value → String
request_id_of request = text_or_empty (property "requestId" request)

-- Every error that the validators throw is an AgentValidationError.
unfoldable pub invalid_request_error : Value → ValidationError → AgentEvent
invalid_request_error request e = error (request_id_of request) e.code e.message false

unfoldable pub map_gateway_event : ModelStreamEvent → String → AgentEvent
unfolding sanitized_gateway_error
map_gateway_event (ModelStreamEvent.text_delta text) id = text_delta id text
map_gateway_event (ModelStreamEvent.tool_call call name input) id = tool_call id call name input
map_gateway_event (ModelStreamEvent.usage i o) id = usage id i o
map_gateway_event ModelStreamEvent.completed id = completed id
map_gateway_event (ModelStreamEvent.error code message retryable) id =
    sanitized_gateway_error id code retryable
map_gateway_event ModelStreamEvent.unknown id =
    sanitized_gateway_error id (string "gateway_error") undefined

-- The `for await` loop with its `catch`.
unfoldable pub map_gateway_stream : Stream ModelStreamEvent → String → Stream AgentEvent
unfolding map_gateway_event
map_gateway_stream (value e rest) id = value (map_gateway_event e id) (map_gateway_stream rest id)
map_gateway_stream done id = done
map_gateway_stream failed id = value (error id "gateway_error" gateway_error_message false) done

-- `run` of the core that createAgentCore returns, over the gateway's `stream`. A `stream` that
-- throws at once is the stream `failed`.
abbrev pub accepted : (Value → Stream ModelStreamEvent) → Value → Stream AgentEvent
accepted gateway request =
    value
      (route_selected (request_id_of request) (text_or_empty (property "routeId" request))
        (text_or_empty (property "model" request)))
      (map_gateway_stream (gateway request) (request_id_of request))

unfoldable pub run : (Value → Stream ModelStreamEvent) → Value → Stream AgentEvent
unfolding invalid_request_error map_gateway_stream
run gateway request = elim (validate_model_request request) [
  | err e ↦ value (invalid_request_error request e) done
  | ok _ ↦ accepted gateway request
]
