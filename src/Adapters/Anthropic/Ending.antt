-- ===== src/Adapters/Anthropic/Ending.antt =====
-- The decoder of Anthropic frames keeps to what the decoding loop relies on.
use agent_routebench.Prelude.{
  ℕ, ◌≡◌, refl, true, false, String, List, [], ◌∷◌, ◌++◌, Option, none, some, ◌==◌, ok, AfterOk,
  ok-AfterOk, AfterOk-mono, if◌then◌else◌, arith, subst, sym,
}
use agent_routebench.Contracts.Value.{Value, Fields, is_undefined, is_text, is_nullish, read}
use agent_routebench.Contracts.Events.{ModelStreamEvent, text_delta, completed}
use agent_routebench.Generator.{Signal}
use agent_routebench.Contracts.Events.{Stream}
use agent_routebench.Generator.Rules.{is_open, is_sealed, Seals}
use agent_routebench.Adapters.Sse.{TextDecoder, is_empty}
use agent_routebench.Adapters.Decoding.Ending.{
  is_last, MarksEnd, IsMarked, Lawful, decode_with-Seals,
}
use agent_routebench.Adapters.Steps.{after-any, after-check, after-known, either, refused}
use agent_routebench.Adapters.Indexed.{sort_by_index}
use agent_routebench.Adapters.DecodeUtils.{Json, protocol_error}
use agent_routebench.Adapters.Anthropic.{
  BlockState, text, tool_use, PendingToolCall, AnthropicState, Answer, start_usage,
  handle_message_start, start_tool_use, handle_block_start, add_fragment, apply_delta,
  handle_block_delta, stop_block, handle_block_stop, set_stop_reason, delta_usage,
  handle_message_delta, call_events, usage_events, handle_message_stop, handle_error,
  handle_payload, handle_frame, anthropic_decoder, decode_anthropic_messages_stream,
}

-- The state goes on, and the events hold no terminal one.
record IsQuiet (answer : List ModelStreamEvent × AnthropicState) : Type 0 where
  going : answer.1.terminal ≡ false
  unsealed : is_open is_last answer.0 ≡ true

abbrev Quiet : Answer → Type 0
Quiet answer = AfterOk IsQuiet answer

abbrev Going : AnthropicState → Type 0
Going state = state.terminal ≡ false

nothing : (state : AnthropicState) → Going state → Quiet (ok ([], state))
nothing state h = ok-AfterOk ([], state) (record { going = h; unsealed = refl })

start_usage-Going :
    (state : AnthropicState) (given : Value) → Going state → AfterOk Going (start_usage state given)
unfolding start_usage
start_usage-Going state given h =
    either (is_undefined given) (ok-AfterOk state h)
      (after-any _ (λ fields. after-any _ (λ input. after-any _ (λ output. ok-AfterOk _ h))))

handle_message_start-Quiet :
    (state : AnthropicState) (payload : Fields)
    → Going state
    → Quiet (handle_message_start state payload)
unfolding handle_message_start
handle_message_start-Quiet state payload h = after-any _ (λ message.
    after-known (start_usage-Going (record state { started = true }) (read "usage" message) h)
      (λ later k. nothing later k))

module _ (json : Json) where
  start_tool_use-Quiet :
      (state : AnthropicState) (index : ℕ) (block : Fields)
      → Going state
      → Quiet (start_tool_use json state index block)
  unfolding start_tool_use
  start_tool_use-Quiet state index block h =
      after-any _ (λ id. after-any _ (λ name. after-any _ (λ input. after-check _ (nothing _ h))))

  handle_block_start-Quiet :
      (state : AnthropicState) (payload : Fields)
      → Going state
      → Quiet (handle_block_start json state payload)
  unfolding handle_block_start
  handle_block_start-Quiet state payload h = after-any _ (λ index. after-any _ (λ block.
      either (is_text (read "type" block) "text") (nothing _ h) (
        either (is_text (read "type" block) "tool_use") (start_tool_use-Quiet state index block h)
          (refused protocol_error))))

  shown-open :
      (shown : String)
      → is_open is_last (if is_empty shown then [] else text_delta shown ∷ []) ≡ true
  shown-open shown = ground arith

  apply_delta-Quiet :
      (state : AnthropicState) (index : ℕ) (block : BlockState) (delta : Fields)
      → Going state
      → Quiet (apply_delta json state index block delta)
  unfolding apply_delta add_fragment
  apply_delta-Quiet state index block delta h =
      either (is_text (read "type" delta) "text_delta")
        (after-any _ (λ shown. ok-AfterOk _ (record { going = h; unsealed = shown-open shown })))
        (either (is_text (read "type" delta) "input_json_delta")
          (after-any _ (λ call. after-any _ (λ partial. after-check _ (nothing _ h))))
          (refused protocol_error))

  handle_block_delta-Quiet :
      (state : AnthropicState) (payload : Fields)
      → Going state
      → Quiet (handle_block_delta json state payload)
  unfolding handle_block_delta
  handle_block_delta-Quiet state payload h = after-any _ (λ index.
      after-any _ (λ block. after-any _ (λ delta. apply_delta-Quiet state index block delta h)))

  stop_block-Quiet :
      (state : AnthropicState) (index : ℕ) (block : BlockState)
      → Going state
      → Quiet (stop_block json state index block)
  unfolding stop_block
  stop_block-Quiet state index text h = nothing state h
  stop_block-Quiet state index (tool_use call) h = after-any _ (λ input. nothing _ h)

  handle_block_stop-Quiet :
      (state : AnthropicState) (payload : Fields)
      → Going state
      → Quiet (handle_block_stop json state payload)
  unfolding handle_block_stop
  handle_block_stop-Quiet state payload h =
      after-any _ (λ index. after-any _ (λ block. stop_block-Quiet _ index block h))

set_stop_reason-Going :
    (state : AnthropicState) (delta : Value)
    → Going state
    → AfterOk Going (set_stop_reason state delta)
unfolding set_stop_reason
set_stop_reason-Going state delta h = either (is_undefined delta) (ok-AfterOk state h) (
    after-any _ (λ fields.
      either (is_nullish (read "stop_reason" fields)) (ok-AfterOk state h)
        (after-any _ (λ reason. ok-AfterOk _ h))))

delta_usage-Going :
    (state : AnthropicState) (given : Value) → Going state → AfterOk Going (delta_usage state given)
unfolding delta_usage
delta_usage-Going state given h =
    either (is_undefined given) (ok-AfterOk state h)
      (after-any _ (λ fields. after-any _ (λ output. ok-AfterOk _ h)))

handle_message_delta-Quiet :
    (state : AnthropicState) (payload : Fields)
    → Going state
    → Quiet (handle_message_delta state payload)
unfolding handle_message_delta
handle_message_delta-Quiet state payload h =
    after-known (after-check _ (set_stop_reason-Going state (read "delta" payload) h))
      (λ later k. after-known (delta_usage-Going later (read "usage" payload) k) nothing)

-- What is marked as it has to be: a quiet answer, and one with its end.
quiet-IsMarked :
    (json : Json) (answer : List ModelStreamEvent × AnthropicState)
    → IsQuiet answer
    → IsMarked (anthropic_decoder json) answer
quiet-IsMarked json answer q = subst (λ b. MarksEnd b answer.0) (sym q.going) q.unsealed

calls-sealed :
    (calls : List (ℕ × PendingToolCall)) (rest : List ModelStreamEvent)
    → is_sealed is_last rest ≡ true
    → is_sealed is_last (call_events calls ++ rest) ≡ true
calls-sealed [] rest h = h
calls-sealed (call ∷ calls) rest h = calls-sealed calls rest h

usage-sealed :
    (input output : Option ℕ)
    → is_sealed is_last (usage_events input output ++ (completed ∷ [])) ≡ true
usage-sealed none output = refl
usage-sealed (some input) none = refl
usage-sealed (some input) (some output) = refl

module _ (json : Json) where
  abbrev Marked : Answer → Type 0
  Marked answer = AfterOk (IsMarked (anthropic_decoder json)) answer

  marked : {answer : Answer} → Quiet answer → Marked answer
  marked {answer} h = AfterOk-mono answer h (quiet-IsMarked json)

  handle_message_stop-Marked : (state : AnthropicState) → Marked (handle_message_stop state)
  unfolding handle_message_stop
  handle_message_stop-Marked state = after-check _ (
      ok-AfterOk _ (
        calls-sealed (sort_by_index state.pending_tool_calls)
          (usage_events state.input_tokens state.output_tokens ++ (completed ∷ []))
          (usage-sealed state.input_tokens state.output_tokens)))

  handle_payload-Marked :
      (state : AnthropicState) (type : String) (payload : Fields)
      → Going state
      → Marked (handle_payload json state type payload)
  unfolding handle_payload handle_error
  handle_payload-Marked state type payload h = either (type == "ping") (marked (nothing state h)) (
      either (type == "message_start") (marked (handle_message_start-Quiet state payload h)) (
        either (type == "content_block_start")
          (marked (handle_block_start-Quiet json state payload h))
          (either (type == "content_block_delta")
            (marked (handle_block_delta-Quiet json state payload h))
            (either (type == "content_block_stop")
              (marked (handle_block_stop-Quiet json state payload h))
              (either (type == "message_delta")
                (marked (handle_message_delta-Quiet state payload h))
                (either (type == "message_stop") (handle_message_stop-Marked state)
                  (either (type == "error") (ok-AfterOk _ refl) (refused protocol_error))))))))

  pub decoder-Lawful : Lawful (anthropic_decoder json)
  unfolding handle_frame
  decoder-Lawful = record {
    fresh = λ options. refl;
    marks = λ state frame h.
        after-any _ (λ payload. after-any _ (λ type. handle_payload-Marked state type payload h));
    finishes = λ state. refused protocol_error;
  }

  -- An Anthropic response decodes to a stream that ends as the contract says: unless the options are
  -- refused before anything is read, the run returns and its events hold exactly one terminal event,
  -- which is the last, whatever the bytes, their chunks, the limits and the signal.
  pub decode_anthropic-Seals :
      (signal : Signal) (decoder : TextDecoder) (max_frame_bytes max_tool_input_bytes : Value)
      (source : Stream (List ℕ))
      → AfterOk (Seals is_last) (
          decode_anthropic_messages_stream json signal decoder max_frame_bytes max_tool_input_bytes
            source)
  unfolding decode_anthropic_messages_stream
  decode_anthropic-Seals signal decoder max_frame_bytes max_tool_input_bytes source =
      decode_with-Seals (anthropic_decoder json) decoder-Lawful signal decoder max_frame_bytes
        max_tool_input_bytes source
