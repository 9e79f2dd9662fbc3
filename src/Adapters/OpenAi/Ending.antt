-- ===== src/Adapters/OpenAi/Ending.antt =====
-- The decoder of OpenAI frames keeps to what the decoding loop relies on.
use agent_routebench.Prelude.{
  ℕ, ◌≡◌, refl, true, false, not, ◌&&◌, ◌||◌, String, List, [], ◌∷◌, ◌++◌, Option, none, some, ◌==◌,
  ok, AfterOk, ok-AfterOk, AfterOk-mono, arith, subst, sym,
}
use agent_routebench.Contracts.Value.{Value, Fields, is_undefined, is_nullish, read}
use agent_routebench.Contracts.Events.{Stream, ModelStreamEvent}
use agent_routebench.Generator.{Signal}
use agent_routebench.Generator.Rules.{is_open, Seals}
use agent_routebench.Adapters.Sse.{TextDecoder}
use agent_routebench.Adapters.Decoding.Ending.{
  is_last, MarksEnd, IsMarked, Lawful, decode_with-Seals,
}
use agent_routebench.Adapters.Steps.{
  ◌>>=◌, ◌>>◌, after-any, after-check, after-known, either, refused,
}
use agent_routebench.Adapters.DecodeUtils.{Json, protocol_error, check, is_zero, trim}
use agent_routebench.Adapters.OpenAi.{
  OpenAiState, Answer, apply_tool_call_delta, apply_each, apply_tool_calls, content_events,
  read_content, handle_delta, Call, batch_events, emit_tool_calls, handle_finish_reason,
  apply_choice_delta, finish_choice, handle_choice, handle_choices, only_choice, usage_events,
  handle_usage, handle_done, choices_or_none, handle_payload, handle_frame, open_ai_chat_decoder,
  decode_open_ai_chat_completions_stream,
}

-- The state goes on, and the events hold no terminal one.
record IsQuiet (answer : List ModelStreamEvent × OpenAiState) : Type 0 where
  going : answer.1.terminal ≡ false
  unsealed : is_open is_last answer.0 ≡ true

abbrev Quiet : Answer → Type 0
Quiet answer = AfterOk IsQuiet answer

abbrev Going : OpenAiState → Type 0
Going state = state.terminal ≡ false

nothing : (state : OpenAiState) → Going state → Quiet (ok ([], state))
nothing state h = ok-AfterOk ([], state) (record { going = h; unsealed = refl })

quiet-append :
    (xs ys : List ModelStreamEvent)
    → is_open is_last xs ≡ true
    → is_open is_last ys ≡ true
    → is_open is_last (xs ++ ys) ≡ true
quiet-append [] ys h k = k
quiet-append (x ∷ xs) ys h k = ground (arith, quiet-append xs ys)

apply_tool_call_delta-Going :
    (state : OpenAiState) (raw : Value)
    → Going state
    → AfterOk Going (apply_tool_call_delta state raw)
unfolding apply_tool_call_delta
apply_tool_call_delta-Going state raw h =
    after-any _
      (λ fields. after-any _ (λ index. after-any _ (λ id. after-any _ (λ later. ok-AfterOk _ h))))

apply_each-Going :
    (state : OpenAiState) (calls : List Value)
    → Going state
    → AfterOk Going (apply_each state calls)
unfolding apply_each
apply_each-Going state [] h = ok-AfterOk state h
apply_each-Going state (call ∷ calls) h =
    after-known (apply_tool_call_delta-Going state call h)
      (λ later k. apply_each-Going later calls k)

apply_tool_calls-Going :
    (state : OpenAiState) (given : Value)
    → Going state
    → AfterOk Going (apply_tool_calls state given)
unfolding apply_tool_calls
apply_tool_calls-Going state given h =
    either (is_nullish given) (ok-AfterOk state h)
      (after-any _ (λ calls. apply_each-Going state calls h))

abbrev Unsealed : List ModelStreamEvent → Type 0
Unsealed events = is_open is_last events ≡ true

content_events-Unsealed : (content : String) → Unsealed (content_events content)
content_events-Unsealed content = ground arith

read_content-Unsealed : (given : Value) → AfterOk Unsealed (read_content given)
unfolding read_content
read_content-Unsealed given =
    either (is_nullish given) (ok-AfterOk [] refl)
      (after-any _ (λ content. ok-AfterOk _ (content_events-Unsealed content)))

handle_delta-Quiet :
    (state : OpenAiState) (delta : Fields) → Going state → Quiet (handle_delta state delta)
unfolding handle_delta
handle_delta-Quiet state delta h =
    after-known (after-check _ (read_content-Unsealed (read "content" delta))) (λ events k.
      after-known (apply_tool_calls-Going state (read "tool_calls" delta) h)
        (λ later g. ok-AfterOk _ (record { going = g; unsealed = k })))

batch_events-Unsealed : (batch : List Call) → Unsealed (batch_events batch)
batch_events-Unsealed [] = refl
batch_events-Unsealed (call ∷ batch) = batch_events-Unsealed batch

usage_events-Unsealed : (prompt completion : Option ℕ) → Unsealed (usage_events prompt completion)
usage_events-Unsealed none completion = refl
usage_events-Unsealed (some prompt) none = refl
usage_events-Unsealed (some prompt) (some completion) = refl

handle_usage-Quiet :
    (state : OpenAiState) (given : Value) → Going state → Quiet (handle_usage state given)
unfolding handle_usage
handle_usage-Quiet state given h = either (is_nullish given) (nothing state h) (
    after-any _ (λ fields. after-any _ (λ prompt. after-any _ (λ completion.
      ok-AfterOk _ (record { going = h; unsealed = usage_events-Unsealed prompt completion })))))

module _ (json : Json) where
  handle_finish_reason-Quiet :
      (state : OpenAiState) (reason : String)
      → Going state
      → Quiet (handle_finish_reason json state reason)
  unfolding handle_finish_reason emit_tool_calls
  handle_finish_reason-Quiet state reason h =
      either (reason == "stop") (after-check _ (nothing _ h)) (
        either (reason == "tool_calls")
          (after-any _
            (λ batch. ok-AfterOk _ (record { going = h; unsealed = batch_events-Unsealed batch })))
          (refused protocol_error))

  apply_choice_delta-Quiet :
      (state : OpenAiState) (given : Value)
      → Going state
      → Quiet (apply_choice_delta json state given)
  unfolding apply_choice_delta
  apply_choice_delta-Quiet state given h =
      either (is_nullish given) (nothing state h)
        (after-any _ (λ delta. handle_delta-Quiet state delta h))

  finish_choice-Quiet :
      (state : OpenAiState) (given : Value) → Going state → Quiet (finish_choice json state given)
  unfolding finish_choice
  finish_choice-Quiet state given h =
      either (is_nullish given) (nothing state h)
        (after-any _ (λ reason. after-check _ (handle_finish_reason-Quiet state reason h)))

  -- Two calls whose events are joined.
  both :
      (state : OpenAiState) (answer : Answer) (next : OpenAiState → Answer)
      → Quiet answer
      → ((later : OpenAiState) → Going later → Quiet (next later))
      → Quiet (answer >>= λ first. next first.1 >>= λ second. ok (first.0 ++ second.0, second.1))
  both state answer next h k = after-known h (λ first q.
      after-known (k first.1 q.going) (λ second r. ok-AfterOk _ (record {
        going = r.going;
        unsealed = quiet-append first.0 second.0 q.unsealed r.unsealed;
      })))

  handle_choice-Quiet :
      (state : OpenAiState) (given : Value) → Going state → Quiet (handle_choice json state given)
  unfolding handle_choice
  handle_choice-Quiet state given h = after-any _ (λ choice.
      both state
        (check (is_undefined (read "index" choice) || is_zero (read "index" choice))
          >> apply_choice_delta json state (read "delta" choice))
        (λ later. finish_choice json later (read "finish_reason" choice))
        (after-check _ (apply_choice_delta-Quiet state (read "delta" choice) h))
        (λ later k. finish_choice-Quiet later (read "finish_reason" choice) k))

  only_choice-Quiet :
      (state : OpenAiState) (choices : List Value)
      → Going state
      → Quiet (only_choice json state choices)
  only_choice-Quiet state [] h = nothing state h
  only_choice-Quiet state (choice ∷ []) h = handle_choice-Quiet state choice h
  only_choice-Quiet state (choice ∷ next ∷ choices) h = refused protocol_error

  choices_or_none-Quiet :
      (state : OpenAiState) (given : Value) → Going state → Quiet (choices_or_none json state given)
  unfolding choices_or_none handle_choices
  choices_or_none-Quiet state given h =
      either (is_undefined given) (nothing state h)
        (after-any _ (λ choices. only_choice-Quiet state choices h))

  abbrev Marked : Answer → Type 0
  Marked answer = AfterOk (IsMarked (open_ai_chat_decoder json)) answer

  quiet-IsMarked :
      (answer : List ModelStreamEvent × OpenAiState)
      → IsQuiet answer
      → IsMarked (open_ai_chat_decoder json) answer
  quiet-IsMarked answer q = subst (λ b. MarksEnd b answer.0) (sym q.going) q.unsealed

  handle_payload-Marked :
      (state : OpenAiState) (payload : Fields)
      → Going state
      → Marked (handle_payload json state payload)
  unfolding handle_payload
  handle_payload-Marked state payload h =
      either (not (is_nullish (read "error" payload))) (ok-AfterOk _ refl) (
        AfterOk-mono _
          (both state
            (check
                (not (is_undefined (read "choices" payload) && is_undefined (read "usage" payload)))
              >> choices_or_none json state (read "choices" payload))
            (λ later. handle_usage later (read "usage" payload))
            (after-check _ (choices_or_none-Quiet state (read "choices" payload) h))
            (λ later k. handle_usage-Quiet later (read "usage" payload) k))
          quiet-IsMarked)

  handle_done-Marked : (state : OpenAiState) → Marked (handle_done state)
  unfolding handle_done
  handle_done-Marked state = after-check _ (ok-AfterOk _ refl)

  pub decoder-Lawful : Lawful (open_ai_chat_decoder json)
  unfolding handle_frame
  decoder-Lawful = record {
    fresh = λ options. refl;
    marks = λ state frame h.
        either (trim frame.data_text == "[DONE]") (handle_done-Marked state)
          (after-any _ (λ payload. handle_payload-Marked state payload h));
    finishes = λ state. refused protocol_error;
  }

  -- An OpenAI response decodes to a stream that ends as the contract says: unless the options are
  -- refused before anything is read, the run returns and its events hold exactly one terminal event,
  -- which is the last, whatever the bytes, their chunks, the limits and the signal.
  pub decode_open_ai-Seals :
      (signal : Signal) (decoder : TextDecoder) (max_frame_bytes max_tool_input_bytes : Value)
      (source : Stream (List ℕ))
      → AfterOk (Seals is_last) (
          decode_open_ai_chat_completions_stream json signal decoder max_frame_bytes
            max_tool_input_bytes source)
  unfolding decode_open_ai_chat_completions_stream
  decode_open_ai-Seals signal decoder max_frame_bytes max_tool_input_bytes source =
      decode_with-Seals (open_ai_chat_decoder json) decoder-Lawful signal decoder max_frame_bytes
        max_tool_input_bytes source
