-- ===== src/Adapters/Decoding.antt =====
-- packages/model-gateway/src/adapters/stream-runtime.ts: the loop that drives a frame decoder over
-- the bytes of a response. An exception of the consumer's own, thrown into the generator, and the
-- release of the source's iterator are left out: neither shows in the events.
pub mod Options
pub mod Ending
use agent_routebench.Prelude.{
  ℕ, Bool, List, [], ◌∷◌, Option, none, some, Outcome, ok, err, if◌then◌else◌,
}
use agent_routebench.Prelude
use agent_routebench.Contracts.Value.{Value}
use agent_routebench.Contracts.Events.{ModelStreamEvent, Stream, value, done, failed}
use agent_routebench.Generator.{Gen, Signal, pure, finish, emit, observe, ◌>>=◌, ◌>>◌}
use agent_routebench.Resilience.Errors.{
  StreamErrorCode, stream_error_event, aborted, provider_protocol_error, gateway_error,
}
use agent_routebench.Adapters.Decoding.Options.{
  NormalizedDecodeOptions, AdapterErrorCode, normalize_decode_options,
}
use agent_routebench.Adapters.Sse
use agent_routebench.Adapters.Sse.{SseEvent, SseFrameParser, TextDecoder, new_parser, frames_from}

-- What a decoder throws: an AdapterStreamError, or anything else.
pub data Thrown : Type 0 where
  adapter_stream_error : StreamErrorCode → Thrown
  other : Thrown

pub record FrameDecoder (S : Type 0) : Type 0 where
  pub create_state : NormalizedDecodeOptions → S
  pub handle_frame : S → SseEvent → Outcome Thrown (List ModelStreamEvent × S)
  pub is_terminal : S → Bool
  pub finish : S → Outcome Thrown (List ModelStreamEvent)

abbrev pub Decoding : Type 0 → Type 0
Decoding A = Gen ModelStreamEvent A

-- `yield streamErrorEvent(code); return`
unfoldable pub fail : {A : Type 0} → StreamErrorCode → Decoding A
fail code = emit (stream_error_event code) >> finish

-- The catch clause.
abbrev pub code_of : Thrown → StreamErrorCode
code_of (adapter_stream_error code) = code
code_of other = gateway_error

abbrev pub caught : {A : Type 0} → Thrown → Decoding A
caught thrown = fail (code_of thrown)

unfoldable pub unless_cancelled : {A : Type 0} → Signal → Decoding A → Decoding A
unless_cancelled signal next =
    observe signal >>= λ cancelled. if cancelled then fail aborted else next

-- The loop over the events of one batch, and what follows it.
unfoldable pub emit_events : {A : Type 0} → Signal → List ModelStreamEvent → Decoding A → Decoding A
emit_events signal [] next = next
emit_events signal (event ∷ events) next =
    unless_cancelled signal (emit event >> emit_events signal events next)

-- nextStep: one reading on entry, and one for whether the abort comes before the source's answer.
-- Without a signal both say no.
unfoldable pub next_step : {A : Type 0} → Signal → Decoding A → Decoding A
next_step signal next = unless_cancelled signal (unless_cancelled signal next)

module _ {S : Type 0} (decoder : FrameDecoder S) (signal : Signal) where
  unfoldable pub after_frame :
      {A : Type 0} → Outcome Thrown (List ModelStreamEvent × S) → (S → Decoding A) → Decoding A
  after_frame (err thrown) next = caught thrown
  after_frame (ok (events, state)) next =
      emit_events signal events (if decoder.is_terminal state then finish else next state)

  -- The rest of the loop over the frames of a chunk, from the place behind a pull.
  unfoldable pub each_frame : {A : Type 0} → List SseEvent → S → (S → Decoding A) → Decoding A
  each_frame [] state last = last state
  each_frame (frame ∷ frames) state last =
      after_frame (decoder.handle_frame state frame)
        (λ later. unless_cancelled signal (each_frame frames later last))

  -- The loop over the frames of `finish`, which are all there before the first reading.
  unfoldable pub each_final_frame : {A : Type 0} → List SseEvent → S → (S → Decoding A) → Decoding A
  each_final_frame [] state last = last state
  each_final_frame (frame ∷ frames) state last =
      unless_cancelled signal (
        after_frame (decoder.handle_frame state frame)
          (λ later. each_final_frame frames later last))

  abbrev pub with_parser :
      {A : Type 0} → Option SseFrameParser → (SseFrameParser → Decoding A) → Decoding A
  with_parser none next = fail provider_protocol_error
  with_parser (some parser) next = next parser

  -- The last events, behind which the generator ends.
  unfoldable pub finish_with : Outcome Thrown (List ModelStreamEvent) → Decoding (Unit {0})
  finish_with (err thrown) = caught thrown
  finish_with (ok events) = emit_events signal events finish

  -- What is left behind the last chunk.
  unfoldable pub drain : Option (List SseEvent) → S → Decoding (Unit {0})
  drain none state = fail provider_protocol_error
  drain (some frames) state =
      each_final_frame frames state
        (λ last. if decoder.is_terminal last then finish else finish_with (decoder.finish last))

  module _ (text : TextDecoder) (limit : ℕ) where
    -- The loop over the chunks, and what follows where the source is done.
    unfoldable pub read_chunks :
        Stream (List ℕ)
        → SseFrameParser
        → S
        → (SseFrameParser → S → Decoding (Unit {0}))
        → Decoding (Unit {0})
    read_chunks done parser state at_end =
        unless_cancelled signal (next_step signal (at_end parser state))
    read_chunks failed parser state at_end =
        unless_cancelled signal (next_step signal (fail gateway_error))
    read_chunks (value chunk chunks) parser state at_end =
        let read = frames_from text limit parser chunk in
        unless_cancelled signal (
          next_step signal (
            unless_cancelled signal (
              each_frame read.events state
                (λ later. with_parser read.parser (λ next. read_chunks chunks next later at_end)))))

  -- decodeFrameStream
  unfoldable pub decode_frame_stream :
      TextDecoder → NormalizedDecodeOptions → Stream (List ℕ) → Decoding (Unit {0})
  decode_frame_stream text options source = unless_cancelled signal (
      read_chunks text options.max_frame_bytes source new_parser (decoder.create_state options)
        (λ parser state.
          unless_cancelled signal (drain (Sse.finish text options.max_frame_bytes parser) state)))

  -- A provider's decode function: the options are checked before anything is read.
  unfoldable pub decode_with :
      TextDecoder
      → (max_frame_bytes max_tool_input_bytes : Value) → Stream (List ℕ)
      → Outcome AdapterErrorCode (Decoding (Unit {0}))
  decode_with text max_frame_bytes max_tool_input_bytes source =
      Prelude.◌>>=◌ (normalize_decode_options max_frame_bytes max_tool_input_bytes)
        (λ options. ok (decode_frame_stream text options source))
