-- ===== src/Core/Safety.antt =====
-- What the event stream of the agent core promises whatever the gateway sends.
use agent_routebench.Prelude.{
  ◌≡◌, refl, ◌⊎◌, inl, inr, Bool, true, false, String, List, includes, arith, Bool-cases, Outcome,
  ok, err,
}
use agent_routebench.Contracts.Value.{Value, string}
use agent_routebench.Contracts.Validation.{ValidationError, validate_model_request}
use agent_routebench.Contracts.Events.{ModelStreamEvent, Stream, value, done, failed}
use agent_routebench.Core.{
  AgentEvent, route_selected, text_delta, tool_call, usage, completed, error,
  safe_gateway_error_codes, gateway_error_message, gateway_aborted_message, safe_code,
  request_id_of, map_gateway_event, map_gateway_stream, run,
}

-- The stream ends by itself, and each of its values has `P`.
abbrev pub Ends {ℓ} : {A : Type ℓ} → (A → Type 0) → Stream A → Type 0
Ends P (value a rest) = P a × Ends P rest
Ends P done = Unit
Ends P failed = ⊥

abbrev pub event_request_id : AgentEvent → String
event_request_id (route_selected id r m) = id
event_request_id (text_delta id t) = id
event_request_id (tool_call id c n i) = id
event_request_id (usage id i o) = id
event_request_id (completed id) = id
event_request_id (error id c m r) = id

-- An event of the request `id` that shows no text of a gateway's error: its code is one of the five
-- safe ones, and its message one of two.
abbrev pub IsSafeError : AgentEvent → Type 0
IsSafeError (error id code message retryable) =
    (includes code safe_gateway_error_codes ≡ true)
    × ((message ≡ gateway_aborted_message) ⊎ (message ≡ gateway_error_message))
IsSafeError _ = Unit

abbrev pub IsSafeEvent : String → AgentEvent → Type 0
IsSafeEvent id e = (event_request_id e ≡ id) × IsSafeError e

safe_code_included : (v : Value) → includes (safe_code v) safe_gateway_error_codes ≡ true
safe_code_included (string s) = elim (Bool-cases (includes s safe_gateway_error_codes)) [
  | inl e ↦ rw e e
  | inr e ↦ rw e
]
safe_code_included _ = refl

map_gateway_event-safe :
    (e : ModelStreamEvent) (id : String) → IsSafeEvent id (map_gateway_event e id)
unfolding map_gateway_event
map_gateway_event-safe (ModelStreamEvent.error c m r) id =
    (refl, (safe_code_included c, ground arith))
map_gateway_event-safe (ModelStreamEvent.unknown) id = (refl, (refl, inr refl))
map_gateway_event-safe (ModelStreamEvent.text_delta _) id = (refl, tt)
map_gateway_event-safe (ModelStreamEvent.tool_call _ _ _) id = (refl, tt)
map_gateway_event-safe (ModelStreamEvent.usage _ _) id = (refl, tt)
map_gateway_event-safe (ModelStreamEvent.completed) id = (refl, tt)

map_gateway_stream-safe :
    (s : Stream ModelStreamEvent) (id : String) → Ends (IsSafeEvent id) (map_gateway_stream s id)
unfolding map_gateway_stream
map_gateway_stream-safe (value e rest) id =
    (map_gateway_event-safe e id, map_gateway_stream-safe rest id)
map_gateway_stream-safe done id = tt
map_gateway_stream-safe failed id = ((refl, (refl, inr refl)), tt)

abbrev pub is_error : AgentEvent → Bool
is_error (error id c m r) = true
is_error _ = false

-- A request that does not validate gives one event, an error.
abbrev pub IsRefused : Value → Stream AgentEvent → Type 0
IsRefused request s =
    (e : ValidationError) × (validate_model_request request ≡ err e)
    × (s ≡ value (error (request_id_of request) e.code e.message false) done)

-- The stream of a run never throws. Either the request does not validate, and its one event is the
-- validation error under the request's id; or every event carries the request's id, and every error
-- has one of the safe codes and one of the two fixed messages.
pub run-safe :
    (gateway : Value → Stream ModelStreamEvent) (request : Value)
    → IsRefused request (run gateway request)
      ⊎ Ends (IsSafeEvent (request_id_of request)) (run gateway request)
unfolding run
run-safe gateway request = go (validate_model_request request) refl
  where
    go :
        (v : Outcome ValidationError (List String))
        → validate_model_request request ≡ v
        → IsRefused request (run gateway request)
          ⊎ Ends (IsSafeEvent (request_id_of request)) (run gateway request)
    go (err e) h = inl (e, h, rw (h, run))
    go (ok ids) h = inr (rw (h, run) ((refl, tt), map_gateway_stream-safe (gateway request) _))
