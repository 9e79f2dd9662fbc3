-- ===== src/Scenarios/Streaming.antt =====
-- Responses of two providers, cut into chunks.
use agent_routebench.Prelude.{
  ℕ, ◌≡◌, refl, true, false, String, List, [], ◌∷◌, ◌++◌, none, some, codes, codes_eq, AfterOk, ◌≤◌,
  if◌then◌else◌, arith,
}
use agent_routebench.Contracts.Value.{undefined, number, natural}
use agent_routebench.Contracts.Events.{values}
use agent_routebench.Generator.Rules.{Seals}
use agent_routebench.Adapters.Sse.{
  TextDecoder, SseFrameParser, new_parser, empty_frame, frames_from, frames_of, join_lines,
  read_lines, end_line, decode_line, consume_line, is_empty, dispatch, starts_with_colon,
  before_colon, after_colon, without_space, set_field,
}
use agent_routebench.Adapters.Sse.Chunks.{frames_of-chunks}
use agent_routebench.Adapters.Sse.Bounds.{kept, frames_from-within}
use agent_routebench.Adapters.Decoding.{decode_frame_stream}
use agent_routebench.Adapters.Decoding.Ending.{is_last, decode_frame_stream-Seals}
use agent_routebench.Adapters.DecodeUtils.{Json}
use agent_routebench.Adapters.Anthropic.{anthropic_decoder, decode_anthropic_messages_stream}
use agent_routebench.Adapters.Anthropic.Ending
use agent_routebench.Adapters.Anthropic.Ending.{decode_anthropic-Seals}
use agent_routebench.Adapters.OpenAi.{
  OpenAiState, emit_tool_calls, decode_open_ai_chat_completions_stream,
}
use agent_routebench.Adapters.OpenAi.Ending.{decode_open_ai-Seals}
use agent_routebench.Adapters.OpenAi.ToolCalls.{IsToolBatch, emit_tool_calls-IsToolBatch}
use agent_routebench.Scenarios.{quiet}

-- A decoder that knows one line, and the blank one.
abbrev greeting : List ℕ
greeting = codes "data: hi"

abbrev small_decoder : TextDecoder
small_decoder = record {
  decode = λ fed line.
      if codes_eq line greeting
      then some "data: hi"
      else if codes_eq line []
      then some ""
      else none;
  flushes = λ fed. true;
}

abbrev in_one : List (List ℕ)
in_one = (greeting ++ (13 ∷ 10 ∷ 10 ∷ [])) ∷ []

abbrev in_pieces : List (List ℕ)
in_pieces = greeting ∷ (13 ∷ []) ∷ [] ∷ (10 ∷ []) ∷ (10 ∷ []) ∷ []

chunks_example :
    frames_of small_decoder 64 new_parser in_one ≡ frames_of small_decoder 64 new_parser in_pieces
chunks_example = frames_of-chunks small_decoder 64 new_parser in_one in_pieces refl

one_event : frames_of small_decoder 64 new_parser in_pieces ≡ record {
  events = record { event = none; data_text = "hi"; id = none; retry = none } ∷ [];
  parser = some (record { pending = []; frame = empty_frame greeting });
}
unfolding frames_of frames_from read_lines end_line decode_line consume_line is_empty dispatch
    starts_with_colon before_colon after_colon without_space set_field join_lines
one_event = refl

abbrev part_way : SseFrameParser
part_way = record { pending = greeting; frame = empty_frame [] }

read_part : (frames_from small_decoder 64 new_parser greeting).parser ≡ some part_way
unfolding frames_from read_lines
read_part = refl

limit_example : kept part_way ≤ 64
limit_example =
    frames_from-within small_decoder 64 new_parser part_way greeting (omega arith) read_part

abbrev two_lines : List String
two_lines = "one" ∷ " two" ∷ []

-- A source whose one frame is no JSON.
abbrev no_json : Json
no_json = record { parse = λ text. none; serialized_length = λ given. 0 }

decoded_example : Seals is_last (
    decode_frame_stream
      (anthropic_decoder no_json)
      quiet
      small_decoder
      (record { max_frame_bytes = 64; max_tool_input_bytes = 64 })
      (values in_pieces))
decoded_example =
    decode_frame_stream-Seals (anthropic_decoder no_json) (Ending.decoder-Lawful no_json) quiet
      small_decoder (record { max_frame_bytes = 64; max_tool_input_bytes = 64 }) (values in_pieces)

anthropic_example : AfterOk (Seals is_last) (
    decode_anthropic_messages_stream no_json quiet small_decoder
      (number (natural 64))
      undefined
      (values in_pieces))
anthropic_example =
    decode_anthropic-Seals no_json quiet small_decoder (number (natural 64)) undefined
      (values in_pieces)

open_ai_example : AfterOk (Seals is_last) (
    decode_open_ai_chat_completions_stream no_json quiet small_decoder
      (number (natural 64))
      undefined
      (values in_pieces))
open_ai_example =
    decode_open_ai-Seals no_json quiet small_decoder (number (natural 64)) undefined
      (values in_pieces)

-- Two tool calls, the second one begun first.
abbrev two_calls : OpenAiState
two_calls = record {
  max_tool_input_bytes = 64;
  saw_finish_reason = true;
  finish_reason = some "tool_calls";
  tools_emitted = false;
  terminal = false;
  prompt_tokens = none;
  completion_tokens = none;
  tool_calls =
      (1, record { id = some "b"; name = some "read"; args = ""; bytes = 0 })
      ∷ (0, record { id = some "a"; name = some "list"; args = " "; bytes = 1 })
      ∷ [];
}

batch_example : AfterOk (IsToolBatch no_json two_calls) (emit_tool_calls no_json two_calls)
batch_example = emit_tool_calls-IsToolBatch no_json two_calls
