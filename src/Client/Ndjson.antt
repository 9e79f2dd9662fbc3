-- ===== src/Client/Ndjson.antt =====
-- packages/local-agent-client/src/ndjson.ts: the reader of an answer's lines, each an agent event.
-- `JSON.parse` and TextDecoder belong to the platform and are parameters. What each round of the loop
-- meets is given in order: an abort, which the loop looks for before and during a read, is one such
-- meeting. The overloads of the arguments are left out.
pub mod Ending
pub mod Events
use agent_routebench.Prelude.{
  ℕ, ◌+◌, Bool, true, false, not, ◌&&◌, ◌||◌, String, List, [], ◌∷◌, ◌++◌, Option, none, some, ltb,
  leb, nat_eq, length, all, includes, if◌then◌else◌, Outcome, ok, err, ensure, ◌>>=◌, ◌>>◌,
}
use Prim.Native.Char.{code}
use Prim.Native.String.{len, ◌++◌ as append}
use agent_routebench.Contracts.Value.{
  Value, Fields, Number, undefined, null, boolean, number, string, array, plain, instance_of,
  natural, negative, fraction, infinity, nan, is_text, property, read, keys, safe_integer_from,
  is_nullish,
}
use agent_routebench.Adapters.Sse.{TextDecoder, is_empty}

-- LOCAL_AGENT_CLIENT_ERROR_CODES that the reader throws, and the exception of a failed read.
pub data ClientError : Type 0 where
  invalid_arguments api_protocol_error stream_too_large aborted read_failed : ClientError

pub record NdjsonLimits : Type 0 where
  pub max_line_bytes : ℕ
  pub max_total_bytes : ℕ

abbrev pub limit_of : ℕ → Value → Option ℕ
limit_of fallback given = if is_nullish given then some fallback else safe_integer_from 1 given

abbrev pub both : Option ℕ → Option ℕ → Outcome ClientError NdjsonLimits
both (some line) (some total) = ok (record { max_line_bytes = line; max_total_bytes = total })
both (some line) none = err invalid_arguments
both none total = err invalid_arguments

-- The limits that the reader is given, over DEFAULT_MAX_LINE_BYTES and DEFAULT_MAX_TOTAL_BYTES.
unfoldable pub read_limits : Value → Value → Outcome ClientError NdjsonLimits
read_limits line total = both (limit_of 262144 line) (limit_of 16777216 total)

abbrev pub as_object : Value → Option Fields
as_object (plain fields) = some fields
as_object (instance_of fields) = some fields
as_object _ = none

-- exactFields
abbrev pub exact_fields : Fields → List String → Bool
exact_fields object fields =
    nat_eq (length (keys object)) (length fields)
    && all (λ field. includes field (keys object)) fields

-- stringField and finiteNumberField
abbrev pub is_string : Value → Bool
is_string (string text) = true
is_string _ = false

abbrev pub is_finite_number : Number → Bool
is_finite_number (natural n) = true
is_finite_number (negative n) = true
is_finite_number (fraction sign bits) = true
is_finite_number (infinity sign) = false
is_finite_number nan = false

abbrev pub is_number : Value → Bool
is_number (number n) = is_finite_number n
is_number _ = false

abbrev pub is_boolean : Value → Bool
is_boolean (boolean b) = true
is_boolean _ = false

abbrev pub is_object : Value → Bool
is_object (plain fields) = true
is_object (instance_of fields) = true
is_object _ = false

abbrev pub are_strings : Fields → List String → Bool
are_strings object fields = all (λ field. is_string (read field object)) fields

-- The branches of validateAgentEvent.
unfoldable pub is_event : Fields → Bool
is_event object =
    let type = read "type" object in
    if is_text type "route_selected"
    then exact_fields object ("type" ∷ "requestId" ∷ "routeId" ∷ "model" ∷ [])
      && are_strings object ("requestId" ∷ "routeId" ∷ "model" ∷ [])
    else if is_text type "text_delta"
    then exact_fields object ("type" ∷ "requestId" ∷ "text" ∷ [])
      && are_strings object ("requestId" ∷ "text" ∷ [])
    else if is_text type "tool_call"
    then exact_fields object ("type" ∷ "requestId" ∷ "id" ∷ "name" ∷ "input" ∷ [])
      && are_strings object ("requestId" ∷ "id" ∷ "name" ∷ [])
      && is_object (read "input" object)
    else if is_text type "usage"
    then exact_fields object ("type" ∷ "requestId" ∷ "inputTokens" ∷ "outputTokens" ∷ [])
      && is_string (read "requestId" object)
      && is_number (read "inputTokens" object)
      && is_number (read "outputTokens" object)
    else if is_text type "completed"
    then exact_fields object ("type" ∷ "requestId" ∷ []) && is_string (read "requestId" object)
    else if is_text type "error"
    then exact_fields object ("type" ∷ "requestId" ∷ "code" ∷ "message" ∷ "retryable" ∷ [])
      && are_strings object ("requestId" ∷ "code" ∷ "message" ∷ [])
      && is_boolean (read "retryable" object)
    else false

abbrev pub checked : Value → Option Fields → Outcome ClientError Value
checked value none = err api_protocol_error
checked value (some object) = if is_event object then ok value else err api_protocol_error

-- validateAgentEvent
unfoldable pub validate_agent_event : Value → Outcome ClientError Value
validate_agent_event value = checked value (as_object value)

-- TERMINAL_TYPES
abbrev pub is_terminal : Value → Bool
is_terminal event =
    is_text (property "type" event) "completed" || is_text (property "type" event) "error"

-- `buffer.split("\n")`: the complete lines, and what follows the last one.
abbrev pub put_front : String → List String × String → List String × String
put_front letter ([], tail) = ([], append letter tail)
put_front letter (line ∷ lines, tail) = (append letter line ∷ lines, tail)

unfoldable pub split_lines : String → List String × String
split_lines String.[] = ([], "")
split_lines (String.◌∷◌ letter rest) =
    let later = split_lines rest in
    if nat_eq (code letter) 10
    then ("" ∷ later.0, later.1)
    else put_front (String.◌∷◌ letter String.[]) later

-- `includes("\n")`
unfoldable pub has_line_end : String → Bool
has_line_end String.[] = false
has_line_end (String.◌∷◌ letter rest) = nat_eq (code letter) 10 || has_line_end rest

-- `endsWith("\r") ? slice(0, -1)`
unfoldable pub without_return : String → String
without_return String.[] = String.[]
without_return (String.◌∷◌ letter rest) =
    let later = without_return rest in
    if is_empty rest && nat_eq (code letter) 13 then String.[] else String.◌∷◌ letter later

-- The events that the reader yields, and how it goes on or ends.
pub record Run (A : Type 0) : Type 0 where
  pub events : List Value
  pub outcome : Outcome ClientError A

abbrev pub throws : {A : Type 0} → ClientError → Run A
throws code = record { events = []; outcome = err code }

abbrev pub continue_with : {A B : Type 0} → List Value → Outcome ClientError A → (A → Run B) → Run B
continue_with events (err code) next = record { events = events; outcome = err code }
continue_with events (ok a) next =
    let later = next a in record { events = events ++ later.events; outcome = later.outcome }

abbrev pub yields : {A : Type 0} → Outcome ClientError Value → (Bool → Run A) → Run A
yields (err code) next = throws code
yields (ok event) next =
    let later = next (is_terminal event) in
    record { events = event ∷ later.events; outcome = later.outcome }

-- What one round of the loop meets: a chunk, a value that is none, the end, a failed read, an abort.
pub data Reads : Type 0 where
  chunk : List ℕ → Reads → Reads
  no_bytes done rejected cancelled : Reads

-- The variables of the loop, with the bytes that the decoder was fed.
pub record Reader : Type 0 where
  pub buffer : String
  pub total_bytes : ℕ
  pub terminated : Bool
  pub fed : List ℕ

module _ (parse : String → Option Value) (decoder : TextDecoder) (limits : NdjsonLimits) where
  abbrev pub parsed : Option Value → Outcome ClientError Value
  parsed none = err api_protocol_error
  parsed (some value) = validate_agent_event value

  unfoldable pub read_line : {A : Type 0} → Bool → String → (Bool → Run A) → Run A
  read_line terminated line next =
      if is_empty line
      then next terminated
      else if ltb limits.max_line_bytes (len line)
      then throws stream_too_large
      else if terminated
      then throws api_protocol_error
      else yields (parsed (parse line)) next

  -- The loop over the lines of a chunk. It gives `terminated`.
  unfoldable pub read_lines : Bool → List String → Run Bool
  read_lines terminated [] = record { events = []; outcome = ok terminated }
  read_lines terminated (line ∷ lines) =
      read_line terminated (without_return line) (λ later. read_lines later lines)

  unfoldable pub read_buffer : Reader → String → List ℕ → Run Reader
  read_buffer reader buffer bytes =
      if ltb limits.max_line_bytes (len buffer) && not (has_line_end buffer)
      then throws stream_too_large
      else let split = split_lines buffer in
        if ltb limits.max_line_bytes (len split.1)
        then throws stream_too_large
        else let run = read_lines reader.terminated split.0 in
          continue_with run.events run.outcome (λ terminated. record {
            events = [];
            outcome = ok (record {
              buffer = split.1;
              total_bytes = reader.total_bytes + length bytes;
              terminated = terminated;
              fed = reader.fed ++ bytes;
            });
          })

  abbrev pub read_text : Reader → Option String → List ℕ → Run Reader
  read_text reader none bytes = throws api_protocol_error
  read_text reader (some text) bytes = read_buffer reader (append reader.buffer text) bytes

  unfoldable pub read_chunk : Reader → List ℕ → Run Reader
  read_chunk reader bytes =
      if ltb limits.max_total_bytes (reader.total_bytes + length bytes)
      then throws stream_too_large
      else read_text reader (decoder.decode reader.fed bytes) bytes

  abbrev pub at_end : Reader → Outcome ClientError (Unit {0})
  at_end reader =
      if not (decoder.flushes reader.fed)
      then err api_protocol_error
      else if not (is_empty reader.buffer) || not reader.terminated
      then err api_protocol_error
      else ok tt

  -- The loop of parseNDJSONStream.
  unfoldable pub read_all : Reader → Reads → Run (Unit {0})
  read_all reader (chunk bytes rest) =
      let run = read_chunk reader bytes in
      continue_with run.events run.outcome (λ later. read_all later rest)
  read_all reader no_bytes = throws api_protocol_error
  read_all reader done = record { events = []; outcome = at_end reader }
  read_all reader rejected = throws read_failed
  read_all reader cancelled = throws aborted

-- parseNDJSONStream
unfoldable pub parse_ndjson_stream :
    (String → Option Value) → TextDecoder → Value → Value → Reads → Run (Unit {0})
parse_ndjson_stream parse decoder max_line_bytes max_total_bytes reads =
    continue_with [] (read_limits max_line_bytes max_total_bytes) (λ limits.
      read_all parse decoder limits
        (record { buffer = ""; total_bytes = 0; terminated = false; fed = [] }) reads)
