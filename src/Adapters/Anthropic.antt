-- ===== src/Adapters/Anthropic.antt =====
-- packages/model-gateway/src/adapters/anthropic-stream.ts: the decoder of Anthropic Messages frames.
pub mod Ending
use agent_routebench.Prelude.{
  ℕ, ◌+◌, Bool, true, false, not, ◌&&◌, ◌||◌, String, List, [], ◌∷◌, ◌++◌, Option, none, some, ◌==◌,
  leb, map, includes, if◌then◌else◌, Outcome, ok, err,
}
use Prim.Native.String.{◌++◌ as append}
use agent_routebench.Contracts.Value.{
  Value, Fields, plain, string, number, natural, is_undefined, is_text, is_nullish, read, keys,
  safe_integer_from, as_plain_object, as_string,
}
use agent_routebench.Contracts.Events.{
  Stream, ModelStreamEvent, text_delta, tool_call, usage, completed,
}
use agent_routebench.Generator.{Signal}
use agent_routebench.Resilience.Errors.{StreamErrorCode, stream_error_event}
use agent_routebench.Adapters.Sse.{SseEvent, TextDecoder, is_empty}
use agent_routebench.Adapters.Decoding.{Thrown, FrameDecoder, Decoding, decode_with}
use agent_routebench.Adapters.Decoding.Options.{NormalizedDecodeOptions, AdapterErrorCode}
use agent_routebench.Adapters.Steps.{◌>>=◌, ◌>>◌}
use agent_routebench.Adapters.Indexed
use agent_routebench.Adapters.Indexed.{sort_by_index}
use agent_routebench.Adapters.DecodeUtils.{
  Json, protocol_error, require, check, plain_object, parse_json_object_frame, read_token_count,
  is_finite_json_value, parse_tool_input_object, assert_no_cache_tokens, map_structured_error_type,
  utf8_byte_length, full_text, trim,
}

-- A `tool_use` block; its initial input is an object, by its properties.
pub record ToolUse : Type 0 where
  pub id : String
  pub name : String
  pub initial_input : Fields
  pub initial_is_empty : Bool
  pub json : String
  pub bytes : ℕ

pub data BlockState : Type 0 where
  text : BlockState
  tool_use : ToolUse → BlockState

-- PendingToolCall, less its index, which stands before it in the list.
pub record PendingToolCall : Type 0 where
  pub id : String
  pub name : String
  pub input : Fields

pub record AnthropicState : Type 0 where
  pub max_tool_input_bytes : ℕ
  pub started : Bool
  pub stopped : Bool
  pub terminal : Bool
  pub stop_reason : Option String
  pub input_tokens : Option ℕ
  pub output_tokens : Option ℕ
  pub blocks : List (ℕ × BlockState)
  pub tool_ids : List String
  pub pending_tool_calls : List (ℕ × PendingToolCall)

-- The events of a frame, and the state after it.
abbrev pub Answer : Type 0
Answer = Outcome Thrown (List ModelStreamEvent × AnthropicState)

-- readIndex
unfoldable pub read_index : Fields → Outcome Thrown ℕ
read_index payload = require (safe_integer_from 0 (read "index" payload))

abbrev pub or_else : Option ℕ → Option ℕ → Option ℕ
or_else none old = old
or_else (some new) old = some new

-- The usage of a `message_start`.
unfoldable pub start_usage : AnthropicState → Value → Outcome Thrown AnthropicState
start_usage state given =
    if is_undefined given
    then ok state
    else plain_object given >>= λ fields.
        assert_no_cache_tokens fields >> read_token_count (read "input_tokens" fields) >>= λ input.
        read_token_count (read "output_tokens" fields) >>= λ output. ok (record state {
          input_tokens = or_else input state.input_tokens;
          output_tokens = or_else output state.output_tokens;
        })

-- handleMessageStart
unfoldable pub handle_message_start : AnthropicState → Fields → Answer
handle_message_start state payload =
    check (not (state.started || state.stopped))
    >> plain_object (read "message" payload)
    >>= λ message. start_usage (record state { started = true }) (read "usage" message) >>= λ later.
        ok ([], later)

abbrev pub is_free : Option BlockState → Bool
is_free none = true
is_free (some block) = false

abbrev pub is_end : Fields → Bool
is_end Fields.end = true
is_end _ = false

module _ (json : Json) where
  -- A `tool_use` block starts.
  unfoldable pub start_tool_use : AnthropicState → ℕ → Fields → Answer
  start_tool_use state index block = full_text (read "id" block) >>= λ id.
      full_text (read "name" block) >>= λ name.
      check (not (includes id state.tool_ids)) >> plain_object (read "input" block) >>= λ input.
      check (is_finite_json_value (plain input) 0)
      >> check (leb (json.serialized_length (plain input)) state.max_tool_input_bytes)
      >> ok (
        [],
        record state {
          tool_ids = state.tool_ids ++ (id ∷ []);
          blocks =
              Indexed.set index
                (tool_use (record {
                  id = id;
                  name = name;
                  initial_input = input;
                  initial_is_empty = is_end input;
                  json = "";
                  bytes = 0;
                }))
                state.blocks;
        },
      )

  -- handleBlockStart
  unfoldable pub handle_block_start : AnthropicState → Fields → Answer
  handle_block_start state payload =
      check (state.started && not state.stopped) >> read_index payload >>= λ index.
      check (is_free (Indexed.get index state.blocks))
      >> plain_object (read "content_block" payload)
      >>= λ block.
          if is_text (read "type" block) "text"
          then ok ([], record state { blocks = Indexed.set index text state.blocks })
          else if is_text (read "type" block) "tool_use"
          then start_tool_use state index block
          else err protocol_error

  abbrev pub as_text_block : BlockState → Outcome Thrown (Unit {0})
  as_text_block text = ok tt
  as_text_block (tool_use call) = err protocol_error

  abbrev pub as_tool_use : BlockState → Outcome Thrown ToolUse
  as_tool_use text = err protocol_error
  as_tool_use (tool_use call) = ok call

  unfoldable pub add_fragment : AnthropicState → ℕ → ToolUse → String → Answer
  add_fragment state index call partial =
      let bytes = call.bytes + utf8_byte_length partial in
      check (is_empty partial || call.initial_is_empty)
      >> check (leb bytes state.max_tool_input_bytes)
      >> ok (
        [],
        record state {
          blocks =
              Indexed.set index
                (tool_use (record call { bytes = bytes; json = append call.json partial }))
                state.blocks;
        },
      )

  unfoldable pub apply_delta : AnthropicState → ℕ → BlockState → Fields → Answer
  apply_delta state index block delta =
      if is_text (read "type" delta) "text_delta"
      then (as_text_block block >> require (as_string (read "text" delta)) >>= λ shown.
          ok (if is_empty shown then [] else text_delta shown ∷ [], state))
      else if is_text (read "type" delta) "input_json_delta"
      then (as_tool_use block >>= λ call.
          require (as_string (read "partial_json" delta)) >>= λ partial.
          add_fragment state index call partial)
      else err protocol_error

  -- handleBlockDelta
  unfoldable pub handle_block_delta : AnthropicState → Fields → Answer
  handle_block_delta state payload =
      check (state.started && not state.stopped) >> read_index payload >>= λ index.
      require (Indexed.get index state.blocks) >>= λ block.
      plain_object (read "delta" payload) >>= λ delta. apply_delta state index block delta

  abbrev pub input_of : ToolUse → Outcome Thrown Fields
  input_of call =
      let accumulated = trim call.json in
      if is_empty accumulated
      then ok call.initial_input
      else parse_tool_input_object json accumulated

  unfoldable pub stop_block : AnthropicState → ℕ → BlockState → Answer
  stop_block state index text = ok ([], state)
  stop_block state index (tool_use call) = input_of call >>= λ input. ok (
    [],
    record state {
      pending_tool_calls =
          state.pending_tool_calls
          ++ ((index, record { id = call.id; name = call.name; input = input }) ∷ []);
    },
  )

  -- handleBlockStop
  unfoldable pub handle_block_stop : AnthropicState → Fields → Answer
  handle_block_stop state payload =
      check (state.started && not state.stopped) >> read_index payload >>= λ index.
      require (Indexed.get index state.blocks) >>= λ block.
      stop_block (record state { blocks = Indexed.remove index state.blocks }) index block

-- The stop reason of a `message_delta`.
unfoldable pub set_stop_reason : AnthropicState → Value → Outcome Thrown AnthropicState
set_stop_reason state delta =
    if is_undefined delta
    then ok state
    else plain_object delta >>= λ fields.
        if is_nullish (read "stop_reason" fields)
        then ok state
        else require (as_string (read "stop_reason" fields)) >>= λ reason.
            ok (record state { stop_reason = some reason })

unfoldable pub delta_usage : AnthropicState → Value → Outcome Thrown AnthropicState
delta_usage state given =
    if is_undefined given
    then ok state
    else plain_object given >>= λ fields.
        assert_no_cache_tokens fields
        >> read_token_count (read "output_tokens" fields)
        >>= λ output. ok (record state { output_tokens = or_else output state.output_tokens })

-- handleMessageDelta
unfoldable pub handle_message_delta : AnthropicState → Fields → Answer
handle_message_delta state payload =
    check (state.started && not state.stopped)
    >> set_stop_reason state (read "delta" payload)
    >>= λ later. delta_usage later (read "usage" payload) >>= λ last. ok ([], last)

abbrev pub is_supported : Option String → Bool
is_supported none = false
is_supported (some reason) = includes reason ("end_turn" ∷ "tool_use" ∷ [])

abbrev pub call_events : List (ℕ × PendingToolCall) → List ModelStreamEvent
call_events [] = []
call_events (call ∷ calls) =
    tool_call (string call.1.id) (string call.1.name) (plain call.1.input) ∷ call_events calls

abbrev pub usage_events : Option ℕ → Option ℕ → List ModelStreamEvent
usage_events (some input) (some output) = usage (natural input) (natural output) ∷ []
usage_events (some input) none = []
usage_events none output = []

abbrev pub has_no_blocks : List (ℕ × BlockState) → Bool
has_no_blocks [] = true
has_no_blocks (block ∷ blocks) = false

-- handleMessageStop
unfoldable pub handle_message_stop : AnthropicState → Answer
handle_message_stop state =
    check (state.started && not state.stopped)
    >> check (has_no_blocks state.blocks)
    >> check (is_supported state.stop_reason)
    >> ok (
      call_events (sort_by_index state.pending_tool_calls)
          ++ (usage_events state.input_tokens state.output_tokens ++ (completed ∷ [])),
      record state { stopped = true; terminal = true },
    )

abbrev pub type_of_error : Option Fields → Value
type_of_error none = Value.undefined
type_of_error (some fields) = read "type" fields

-- handleError
unfoldable pub handle_error : AnthropicState → Fields → Answer
handle_error state payload = ok (
  stream_error_event (
        map_structured_error_type (type_of_error (as_plain_object (read "error" payload)))
          ("rate_limit_error" ∷ []) ("overloaded_error" ∷ []))
      ∷ [],
  record state { terminal = true },
)

module _ (json : Json) where
  unfoldable pub handle_payload : AnthropicState → String → Fields → Answer
  handle_payload state type payload =
      if type == "ping"
      then ok ([], state)
      else if type == "message_start"
      then handle_message_start state payload
      else if type == "content_block_start"
      then handle_block_start json state payload
      else if type == "content_block_delta"
      then handle_block_delta json state payload
      else if type == "content_block_stop"
      then handle_block_stop json state payload
      else if type == "message_delta"
      then handle_message_delta state payload
      else if type == "message_stop"
      then handle_message_stop state
      else if type == "error"
      then handle_error state payload
      else err protocol_error

  -- handleFrame
  unfoldable pub handle_frame : AnthropicState → SseEvent → Answer
  handle_frame state frame = parse_json_object_frame json frame.data_text >>= λ payload.
      require (as_string (read "type" payload)) >>= λ type. handle_payload state type payload

  abbrev pub create_state : NormalizedDecodeOptions → AnthropicState
  create_state options = record {
    max_tool_input_bytes = options.max_tool_input_bytes;
    started = false;
    stopped = false;
    terminal = false;
    stop_reason = none;
    input_tokens = none;
    output_tokens = none;
    blocks = [];
    tool_ids = [];
    pending_tool_calls = [];
  }

  -- anthropicDecoder
  abbrev pub anthropic_decoder : FrameDecoder AnthropicState
  anthropic_decoder = record {
    create_state = create_state;
    handle_frame = handle_frame;
    is_terminal = λ state. state.terminal;
    finish = λ state. err protocol_error;
  }

  -- decodeAnthropicMessagesStream
  unfoldable pub decode_anthropic_messages_stream :
      Signal
      → TextDecoder
      → (max_frame_bytes max_tool_input_bytes : Value) → Stream (List ℕ)
      → Outcome AdapterErrorCode (Decoding (Unit {0}))
  decode_anthropic_messages_stream signal decoder max_frame_bytes max_tool_input_bytes source =
      decode_with anthropic_decoder signal decoder max_frame_bytes max_tool_input_bytes source
