-- ===== src/Scenarios/Reading.antt =====
-- An answer of the local API, in two chunks.
use agent_routebench.Prelude.{
  ◌≡◌, refl, true, String, [], ◌∷◌, Option, none, some, ◌==◌, codes, codes_eq, ok, if◌then◌else◌,
}
use agent_routebench.Contracts.Value.{Value, undefined, string, plain, field, end}
use agent_routebench.Core.{AgentEvent}
use agent_routebench.Adapters.Sse.{TextDecoder, is_empty}
use agent_routebench.Client.Ndjson.{
  Reads, chunk, done, parse_ndjson_stream, validate_agent_event, is_event, read_limits, read_all,
  read_chunk, read_buffer, read_lines, read_line, split_lines, has_line_end, without_return,
}
use agent_routebench.Client.Ndjson.Events.{
  event_value, IsSendable, validate_agent_event-event_value,
}
use agent_routebench.Client.Ndjson.Ending.{EndsProperly, parse_ndjson_stream-EndsProperly}

-- The line `x` stands for the event that completes request 1.
abbrev last_event : Value
last_event = event_value (AgentEvent.completed "1")

abbrev parse_x : String → Option Value
parse_x text = if text == "x" then some last_event else none

abbrev x_decoder : TextDecoder
x_decoder = record {
  decode = λ fed bytes. if codes_eq bytes (codes "x") then some "x" else some "\r\n";
  flushes = λ fed. true;
}

abbrev answer : Reads
answer = chunk (codes "x") (chunk (13 ∷ 10 ∷ []) done)

reading_example :
    EndsProperly
      (parse_ndjson_stream parse_x x_decoder undefined undefined answer).events
      (parse_ndjson_stream parse_x x_decoder undefined undefined answer).outcome
reading_example = parse_ndjson_stream-EndsProperly parse_x x_decoder undefined undefined answer

one_event :
    parse_ndjson_stream parse_x x_decoder undefined undefined answer
    ≡ record { events = last_event ∷ []; outcome = ok tt }
unfolding parse_ndjson_stream read_limits read_all read_chunk read_buffer read_lines read_line
    split_lines has_line_end without_return validate_agent_event is_event is_empty
one_event = refl

abbrev call_event : AgentEvent
call_event =
    AgentEvent.tool_call "1" (string "a") (string "read") (plain (field "path" (string "x") end))

sent_example :
    (IsSendable call_event
      → validate_agent_event (event_value call_event) ≡ ok (event_value call_event))
    × ((answer : Value)
        → validate_agent_event (event_value call_event) ≡ ok answer
        → IsSendable call_event)
sent_example = validate_agent_event-event_value call_event
