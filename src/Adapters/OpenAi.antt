-- ===== src/Adapters/OpenAi.antt =====
-- packages/model-gateway/src/adapters/openai-chat-stream.ts: the decoder of OpenAI chat frames.
pub mod Ending
pub mod ToolCalls
use agent_routebench.Prelude.{
  ℕ, ◌+◌, Bool, true, false, not, ◌&&◌, ◌||◌, String, List, [], ◌∷◌, ◌++◌, Option, none, some, ◌==◌,
  leb, includes, if◌then◌else◌, Outcome, ok, err,
}
use Prim.Native.String.{◌++◌ as append}
use agent_routebench.Contracts.Value.{
  Value, Fields, plain, string, number, natural, is_undefined, is_text, is_nullish, read, as_array,
  safe_integer_from, as_plain_object, as_string,
}
use agent_routebench.Contracts.Events.{
  Stream, ModelStreamEvent, text_delta, tool_call, usage, completed,
}
use agent_routebench.Generator.{Signal}
use agent_routebench.Resilience.Errors.{
  StreamErrorCode, rate_limited, upstream_unavailable, gateway_error, stream_error_event,
}
use agent_routebench.Adapters.Sse.{SseEvent, TextDecoder, is_empty}
use agent_routebench.Adapters.Decoding.{Thrown, FrameDecoder, Decoding, decode_with}
use agent_routebench.Adapters.Decoding.Options.{NormalizedDecodeOptions, AdapterErrorCode}
use agent_routebench.Adapters.Steps.{◌>>=◌, ◌>>◌}
use agent_routebench.Adapters.Indexed
use agent_routebench.Adapters.Indexed.{sort_by_index}
use agent_routebench.Adapters.DecodeUtils.{
  Json, protocol_error, require, check, plain_object, parse_json_object_frame, read_token_count,
  parse_tool_input_object, map_structured_error_type, utf8_byte_length, full_text, trim, is_zero,
}

-- ToolCallState, less its index, which is its key.
pub record ToolCallState : Type 0 where
  pub id : Option String
  pub name : Option String
  pub args : String
  pub bytes : ℕ

pub record OpenAiState : Type 0 where
  pub max_tool_input_bytes : ℕ
  pub saw_finish_reason : Bool
  pub finish_reason : Option String
  pub tools_emitted : Bool
  pub terminal : Bool
  pub prompt_tokens : Option ℕ
  pub completion_tokens : Option ℕ
  pub tool_calls : List (ℕ × ToolCallState)

-- The events that a call adds, and the state after it.
abbrev pub Answer : Type 0
Answer = Outcome Thrown (List ModelStreamEvent × OpenAiState)

abbrev type_code : Value → StreamErrorCode
type_code given =
    map_structured_error_type given ("rate_limit_error" ∷ "rate_limit_exceeded" ∷ [])
      ("server_error" ∷ "overloaded_error" ∷ [])

abbrev or_by : StreamErrorCode → StreamErrorCode → StreamErrorCode
or_by gateway_error second = second
or_by first second = first

abbrev code_of_fields : Option Fields → StreamErrorCode
code_of_fields none = gateway_error
code_of_fields (some fields) =
    or_by (type_code (read "type" fields)) (type_code (read "code" fields))

-- mapOpenAIError
unfoldable pub map_open_ai_error : Value → StreamErrorCode
map_open_ai_error given = code_of_fields (as_plain_object given)

abbrev pub entry_or_new : Option ToolCallState → ToolCallState
entry_or_new none = record { id = none; name = none; args = ""; bytes = 0 }
entry_or_new (some entry) = entry

-- A text that is set once and never changed.
abbrev pub same_or_new : Option String → String → Outcome Thrown (Option String)
same_or_new none new = ok (some new)
same_or_new (some old) new = if old == new then ok (some old) else err protocol_error

unfoldable pub set_once : Option String → Value → Outcome Thrown (Option String)
set_once old given =
    if is_nullish given then ok old else full_text given >>= λ new. same_or_new old new

unfoldable pub add_arguments : ℕ → ToolCallState → Value → Outcome Thrown ToolCallState
add_arguments limit entry given =
    if is_nullish given
    then ok entry
    else require (as_string given) >>= λ args.
        check (leb (entry.bytes + utf8_byte_length args) limit)
        >> ok (record entry {
          bytes = entry.bytes + utf8_byte_length args;
          args = append entry.args args;
        })

unfoldable pub apply_function : ℕ → ToolCallState → Value → Outcome Thrown ToolCallState
apply_function limit entry given =
    if is_nullish given
    then ok entry
    else plain_object given >>= λ fn. set_once entry.name (read "name" fn) >>= λ name.
        add_arguments limit (record entry { name = name }) (read "arguments" fn)

-- applyToolCallDelta
unfoldable pub apply_tool_call_delta : OpenAiState → Value → Outcome Thrown OpenAiState
apply_tool_call_delta state raw = plain_object raw >>= λ fields.
    require (safe_integer_from 0 (read "index" fields)) >>= λ index.
    let entry = entry_or_new (Indexed.get index state.tool_calls) in
    check (is_nullish (read "type" fields) || is_text (read "type" fields) "function")
    >> set_once entry.id (read "id" fields)
    >>= λ id.
        apply_function state.max_tool_input_bytes (record entry { id = id })
          (read "function" fields)
        >>= λ later. ok (record state { tool_calls = Indexed.set index later state.tool_calls })

unfoldable pub apply_each : OpenAiState → List Value → Outcome Thrown OpenAiState
apply_each state [] = ok state
apply_each state (call ∷ calls) =
    apply_tool_call_delta state call >>= λ later. apply_each later calls

unfoldable pub apply_tool_calls : OpenAiState → Value → Outcome Thrown OpenAiState
apply_tool_calls state given =
    if is_nullish given
    then ok state
    else require (as_array given) >>= λ calls. apply_each state calls

abbrev has_content : Option String → Bool
has_content none = false
has_content (some content) = not (is_empty content)

abbrev pub content_events : String → List ModelStreamEvent
content_events content = if is_empty content then [] else text_delta content ∷ []

unfoldable pub read_content : Value → Outcome Thrown (List ModelStreamEvent)
read_content given =
    if is_nullish given
    then ok []
    else require (as_string given) >>= λ content. ok (content_events content)

-- handleDelta
unfoldable pub handle_delta : OpenAiState → Fields → Answer
handle_delta state delta =
    check (
      not (
        state.saw_finish_reason
        && (has_content (as_string (read "content" delta))
            || not (is_undefined (read "tool_calls" delta)))))
    >> check (is_nullish (read "role" delta) || is_text (read "role" delta) "assistant")
    >> check (is_nullish (read "refusal" delta))
    >> check (is_nullish (read "function_call" delta))
    >> check (is_nullish (read "reasoning_content" delta) && is_nullish (read "reasoning" delta))
    >> read_content (read "content" delta)
    >>= λ events. apply_tool_calls state (read "tool_calls" delta) >>= λ later. ok (events, later)

-- A member of the batch: its id, its name and its input.
pub record Call : Type 0 where
  pub id : String
  pub name : String
  pub input : Fields

abbrev pub batch_events : List Call → List ModelStreamEvent
batch_events [] = []
batch_events (call ∷ calls) =
    tool_call (string call.id) (string call.name) (plain call.input) ∷ batch_events calls

module _ (json : Json) where
  unfoldable pub input_of : String → Outcome Thrown Fields
  input_of args =
      let trimmed = trim args in
      if is_empty trimmed then ok Fields.end else parse_tool_input_object json trimmed

  -- The loop of emitToolCalls that builds the batch.
  unfoldable pub build_batch : List (ℕ × ToolCallState) → List String → Outcome Thrown (List Call)
  build_batch [] seen_ids = ok []
  build_batch (entry ∷ entries) seen_ids = require entry.1.id >>= λ id.
      require entry.1.name >>= λ name.
      check (not (includes id seen_ids)) >> input_of entry.1.args >>= λ input.
      build_batch entries (id ∷ seen_ids) >>= λ batch.
      ok (record { id = id; name = name; input = input } ∷ batch)

  -- emitToolCalls
  unfoldable pub emit_tool_calls : OpenAiState → Answer
  emit_tool_calls state = build_batch (sort_by_index state.tool_calls) [] >>= λ batch.
      ok (batch_events batch, record state { tools_emitted = true })

  abbrev pub is_none : List (ℕ × ToolCallState) → Bool
  is_none [] = true
  is_none (entry ∷ entries) = false

  -- handleFinishReason
  unfoldable pub handle_finish_reason : OpenAiState → String → Answer
  handle_finish_reason state reason =
      let later = record state { saw_finish_reason = true; finish_reason = some reason } in
      if reason == "stop"
      then check (is_none state.tool_calls) >> ok ([], later)
      else if reason == "tool_calls"
      then emit_tool_calls later
      else err protocol_error

  unfoldable pub apply_choice_delta : OpenAiState → Value → Answer
  apply_choice_delta state given =
      if is_nullish given
      then ok ([], state)
      else plain_object given >>= λ delta. handle_delta state delta

  unfoldable pub finish_choice : OpenAiState → Value → Answer
  finish_choice state given =
      if is_nullish given
      then ok ([], state)
      else require (as_string given) >>= λ reason.
          check (not state.saw_finish_reason) >> handle_finish_reason state reason

  unfoldable pub handle_choice : OpenAiState → Value → Answer
  handle_choice state given = plain_object given >>= λ choice.
      check (is_undefined (read "index" choice) || is_zero (read "index" choice))
      >> apply_choice_delta state (read "delta" choice)
      >>= λ shown. finish_choice shown.1 (read "finish_reason" choice) >>= λ finished.
          ok (shown.0 ++ finished.0, finished.1)

  abbrev only_choice : OpenAiState → List Value → Answer
  only_choice state [] = ok ([], state)
  only_choice state (choice ∷ []) = handle_choice state choice
  only_choice state (choice ∷ next ∷ choices) = err protocol_error

  -- handleChoices
  unfoldable pub handle_choices : OpenAiState → Value → Answer
  handle_choices state given = require (as_array given) >>= λ choices. only_choice state choices

abbrev pub or_else : Option ℕ → Option ℕ → Option ℕ
or_else none old = old
or_else (some new) old = some new

abbrev pub usage_events : Option ℕ → Option ℕ → List ModelStreamEvent
usage_events (some prompt) (some completion) = usage (natural prompt) (natural completion) ∷ []
usage_events (some prompt) none = []
usage_events none completion = []

-- handleUsage
unfoldable pub handle_usage : OpenAiState → Value → Answer
handle_usage state given =
    if is_nullish given
    then ok ([], state)
    else plain_object given >>= λ fields.
        read_token_count (read "prompt_tokens" fields) >>= λ prompt.
        read_token_count (read "completion_tokens" fields) >>= λ completion. ok (
          usage_events prompt completion,
          record state {
            prompt_tokens = or_else prompt state.prompt_tokens;
            completion_tokens = or_else completion state.completion_tokens;
          },
        )

abbrev is_tool_calls : Option String → Bool
is_tool_calls none = false
is_tool_calls (some reason) = reason == "tool_calls"

-- handleDone
unfoldable pub handle_done : OpenAiState → Answer
handle_done state =
    check state.saw_finish_reason
    >> check (not (is_tool_calls state.finish_reason && not state.tools_emitted))
    >> ok (completed ∷ [], record state { terminal = true })

module _ (json : Json) where
  unfoldable pub choices_or_none : OpenAiState → Value → Answer
  choices_or_none state given =
      if is_undefined given then ok ([], state) else handle_choices json state given

  unfoldable pub handle_payload : OpenAiState → Fields → Answer
  handle_payload state payload =
      if not (is_nullish (read "error" payload))
      then ok (
        stream_error_event (map_open_ai_error (read "error" payload)) ∷ [],
        record state { terminal = true },
      )
      else check
          (not (is_undefined (read "choices" payload) && is_undefined (read "usage" payload)))
        >> choices_or_none state (read "choices" payload)
        >>= λ chosen.
            handle_usage chosen.1 (read "usage" payload) >>= λ used. ok (chosen.0 ++ used.0, used.1)

  -- handleFrame
  unfoldable pub handle_frame : OpenAiState → SseEvent → Answer
  handle_frame state frame =
      if trim frame.data_text == "[DONE]"
      then handle_done state
      else parse_json_object_frame json frame.data_text >>= λ payload. handle_payload state payload

  abbrev pub create_state : NormalizedDecodeOptions → OpenAiState
  create_state options = record {
    max_tool_input_bytes = options.max_tool_input_bytes;
    saw_finish_reason = false;
    finish_reason = none;
    tools_emitted = false;
    terminal = false;
    prompt_tokens = none;
    completion_tokens = none;
    tool_calls = [];
  }

  -- openAIChatDecoder
  abbrev pub open_ai_chat_decoder : FrameDecoder OpenAiState
  open_ai_chat_decoder = record {
    create_state = create_state;
    handle_frame = handle_frame;
    is_terminal = λ state. state.terminal;
    finish = λ state. err protocol_error;
  }

  -- decodeOpenAIChatCompletionsStream
  unfoldable pub decode_open_ai_chat_completions_stream :
      Signal
      → TextDecoder
      → (max_frame_bytes max_tool_input_bytes : Value) → Stream (List ℕ)
      → Outcome AdapterErrorCode (Decoding (Unit {0}))
  decode_open_ai_chat_completions_stream signal decoder max_frame_bytes max_tool_input_bytes
        source =
      decode_with open_ai_chat_decoder signal decoder max_frame_bytes max_tool_input_bytes source
