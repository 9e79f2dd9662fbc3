-- ===== src/Adapters/Decoding/Ending.antt =====
-- How a decoded stream ends, for every decoder that marks its last frame.
use agent_routebench.Prelude.{
  ℕ, ◌≡◌, refl, subst, arith, Bool, true, false, List, [], ◌∷◌, Option, none, some, Outcome, ok,
  err, if◌then◌else◌, AfterOk, bind-AfterOk, ok-AfterOk, Bool-cases, inl, inr,
}
use agent_routebench.Contracts.Value.{Value}
use agent_routebench.Adapters.Decoding.Options.{NormalizedDecodeOptions, normalize_decode_options}
use agent_routebench.Contracts.Events.{
  ModelStreamEvent, completed, error, Stream, value, done, failed,
}
use agent_routebench.Generator.{Signal, finish, ◌>>◌}
use agent_routebench.Generator.Rules.{
  is_open, is_sealed, Closes, emit-Closes, Seals, bind-Seals, last-Seals, observe-bind-Seals,
}
use agent_routebench.Resilience.Errors.{
  StreamErrorCode, stream_error_event, aborted, provider_protocol_error, gateway_error,
}
use agent_routebench.Adapters.Sse
use agent_routebench.Adapters.Sse.{SseEvent, SseFrameParser, TextDecoder, new_parser, frames_from}
use agent_routebench.Adapters.Decoding.{
  FrameDecoder, Thrown, Decoding, fail, code_of, unless_cancelled, emit_events, next_step,
  after_frame, each_frame, each_final_frame, with_parser, finish_with, read_chunks, drain,
  decode_frame_stream, decode_with,
}

-- The two terminal events of the contract.
abbrev pub is_last : ModelStreamEvent → Bool
is_last completed = true
is_last (error _ _ _) = true
is_last _ = false

-- The events of a frame: one terminal event at their end if the decoder is terminal then, and none
-- if it is not.
abbrev pub MarksEnd : Bool → List ModelStreamEvent → Type 0
MarksEnd true events = is_sealed is_last events ≡ true
MarksEnd false events = is_open is_last events ≡ true

abbrev pub IsMarked : {S : Type 0} → FrameDecoder S → List ModelStreamEvent × S → Type 0
IsMarked decoder answer = MarksEnd (decoder.is_terminal answer.1) answer.0

-- What the loop relies on in a decoder.
pub record Lawful {S : Type 0} (decoder : FrameDecoder S) : Type 0 where
  pub fresh :
      (options : NormalizedDecodeOptions)
      → decoder.is_terminal (decoder.create_state options) ≡ false
  pub marks :
      (state : S) (frame : SseEvent)
      → decoder.is_terminal state ≡ false
      → AfterOk (IsMarked decoder) (decoder.handle_frame state frame)
  pub finishes :
      (state : S) → AfterOk (λ events. is_sealed is_last events ≡ true) (decoder.finish state)

module _ {A : Type 0} where
  fail-Seals : (code : StreamErrorCode) → Seals is_last (fail {A = A} code)
  unfolding fail
  fail-Seals code = last-Seals (stream_error_event code) refl

  unless_cancelled-Seals :
      (signal : Signal) {next : Decoding A}
      → Seals is_last next
      → Seals is_last (unless_cancelled signal next)
  unfolding unless_cancelled
  unless_cancelled-Seals signal h = observe-bind-Seals signal _ (fail-Seals aborted) h

  next_step-Seals :
      (signal : Signal) {next : Decoding A}
      → Seals is_last next
      → Seals is_last (next_step signal next)
  unfolding next_step
  next_step-Seals signal h = unless_cancelled-Seals signal (unless_cancelled-Seals signal h)

  then-Seals :
      {m : Decoding (Unit {0})} {next : Decoding A}
      → Closes is_last m
      → Seals is_last next
      → Seals is_last (m >> next)
  unfolding ◌>>◌
  then-Seals h k = bind-Seals h (λ _. k)

emit_events-open :
    {A : Type 0} (signal : Signal) (events : List ModelStreamEvent) {next : Decoding A}
    → is_open is_last events ≡ true
    → Seals is_last next
    → Seals is_last (emit_events signal events next)
unfolding emit_events
emit_events-open signal [] h k = k
emit_events-open signal (event ∷ events) h k = elim (Bool-cases (is_last event)) [
  | inl last ↦ absurd (ground arith)
  | inr going ↦
      unless_cancelled-Seals signal
        (then-Seals (emit-Closes event going) (emit_events-open signal events (ground arith) k))
]

-- Events with a terminal one at their end, and the return behind them.
emit_events-sealed :
    {A : Type 0} (signal : Signal) (events : List ModelStreamEvent)
    → is_sealed is_last events ≡ true
    → Seals is_last (emit_events signal events (finish {A = A}))
unfolding emit_events
emit_events-sealed signal [] h = absurd (cc)
emit_events-sealed signal (event ∷ []) h =
    unless_cancelled-Seals signal (last-Seals event (ground arith))
emit_events-sealed signal (event ∷ next ∷ events) h = elim (Bool-cases (is_last event)) [
  | inl last ↦ absurd (ground arith)
  | inr going ↦ unless_cancelled-Seals signal (
      then-Seals (emit-Closes event going)
        (emit_events-sealed signal (next ∷ events) (ground arith)))
]

module _ {S : Type 0} (decoder : FrameDecoder S) (lawful : Lawful decoder) (signal : Signal) where
  abbrev Follows : {A : Type 0} → (S → Decoding A) → Type 0
  Follows next = (state : S) → decoder.is_terminal state ≡ false → Seals is_last (next state)

  after_frame-Seals :
      {A : Type 0} (answer : Outcome Thrown (List ModelStreamEvent × S)) (next : S → Decoding A)
      → AfterOk (IsMarked decoder) answer
      → Follows next
      → Seals is_last (after_frame decoder signal answer next)
  unfolding after_frame
  after_frame-Seals (err thrown) next h k = fail-Seals (code_of thrown)
  after_frame-Seals (ok (events, state)) next h k = by_end (decoder.is_terminal state) refl h.holds
    where
      by_end :
          (b : Bool)
          → decoder.is_terminal state ≡ b
          → MarksEnd (decoder.is_terminal state) events
          → Seals is_last
              (emit_events signal events (if decoder.is_terminal state then finish else next state))
      by_end true e m = rw e (emit_events-sealed signal events (subst (λ b. MarksEnd b events) e m))
      by_end false e m =
          rw e (emit_events-open signal events (subst (λ b. MarksEnd b events) e m) (k state e))

  each_frame-Seals :
      {A : Type 0} (frames : List SseEvent) (state : S) (last : S → Decoding A)
      → decoder.is_terminal state ≡ false
      → Follows last
      → Seals is_last (each_frame decoder signal frames state last)
  unfolding each_frame
  each_frame-Seals [] state last h k = k state h
  each_frame-Seals (frame ∷ frames) state last h k =
      after_frame-Seals (decoder.handle_frame state frame)
        (λ later. unless_cancelled signal (each_frame decoder signal frames later last))
        (lawful.marks state frame h)
        (λ later going. unless_cancelled-Seals signal (each_frame-Seals frames later last going k))

  each_final_frame-Seals :
      {A : Type 0} (frames : List SseEvent) (state : S) (last : S → Decoding A)
      → decoder.is_terminal state ≡ false
      → Follows last
      → Seals is_last (each_final_frame decoder signal frames state last)
  unfolding each_final_frame
  each_final_frame-Seals [] state last h k = k state h
  each_final_frame-Seals (frame ∷ frames) state last h k = unless_cancelled-Seals signal (
      after_frame-Seals (decoder.handle_frame state frame)
        (λ later. each_final_frame decoder signal frames later last) (lawful.marks state frame h)
        (λ later going. each_final_frame-Seals frames later last going k))

  finish_with-Seals :
      (answer : Outcome Thrown (List ModelStreamEvent))
      → AfterOk (λ events. is_sealed is_last events ≡ true) answer
      → Seals is_last (finish_with decoder signal answer)
  unfolding finish_with
  finish_with-Seals (err thrown) h = fail-Seals (code_of thrown)
  finish_with-Seals (ok events) h = emit_events-sealed signal events h.holds

  drain-Seals :
      (frames : Option (List SseEvent)) (state : S)
      → decoder.is_terminal state ≡ false
      → Seals is_last (drain decoder signal frames state)
  unfolding drain
  drain-Seals none state h = fail-Seals provider_protocol_error
  drain-Seals (some frames) state h =
      each_final_frame-Seals frames state
        (λ last.
          if decoder.is_terminal last
          then finish
          else finish_with decoder signal (decoder.finish last))
        h (λ last going. rw going (finish_with-Seals (decoder.finish last) (lawful.finishes last)))

  module _ (text : TextDecoder) (limit : ℕ) where
    read_chunks-Seals :
        (source : Stream (List ℕ)) (parser : SseFrameParser) (state : S)
        (at_end : SseFrameParser → S → Decoding (Unit {0}))
        → decoder.is_terminal state ≡ false
        → ((parser : SseFrameParser) → Follows (at_end parser))
        → Seals is_last (read_chunks decoder signal text limit source parser state at_end)
    unfolding read_chunks
    read_chunks-Seals done parser state at_end h k =
        unless_cancelled-Seals signal (next_step-Seals signal (k parser state h))
    read_chunks-Seals failed parser state at_end h k =
        unless_cancelled-Seals signal (next_step-Seals signal (fail-Seals gateway_error))
    read_chunks-Seals (value chunk chunks) parser state at_end h k =
        let read = frames_from text limit parser chunk in
        unless_cancelled-Seals signal (
          next_step-Seals signal (
            unless_cancelled-Seals signal (
              each_frame-Seals read.events state
                (λ later.
                  with_parser decoder signal read.parser
                    (λ next. read_chunks decoder signal text limit chunks next later at_end))
                h
                (λ later going.
                  onward read.parser
                    (λ next. read_chunks decoder signal text limit chunks next later at_end)
                    (λ next. read_chunks-Seals chunks next later at_end going k)))))
      where
        onward :
            (o : Option SseFrameParser) (go : SseFrameParser → Decoding (Unit {0}))
            → ((next : SseFrameParser) → Seals is_last (go next))
            → Seals is_last (with_parser decoder signal o go)
        onward none go ih = fail-Seals provider_protocol_error
        onward (some next) go ih = ih next

  -- A decoded stream ends as the contract says, whatever the bytes, their chunks and the signal:
  -- the run returns, and its events hold exactly one terminal event (`completed` or an error),
  -- which is the last, for every decoder that ends its terminal frame, and no other, with one.
  pub decode_frame_stream-Seals :
      (text : TextDecoder) (options : NormalizedDecodeOptions) (source : Stream (List ℕ))
      → Seals is_last (decode_frame_stream decoder signal text options source)
  unfolding decode_frame_stream
  decode_frame_stream-Seals text options source =
      let limit = options.max_frame_bytes in
      unless_cancelled-Seals signal (
        read_chunks-Seals text limit source new_parser (decoder.create_state options)
          (λ parser state.
            unless_cancelled signal (drain decoder signal (Sse.finish text limit parser) state))
          (lawful.fresh options)
          (λ parser state going.
            unless_cancelled-Seals signal (drain-Seals (Sse.finish text limit parser) state going)))

  pub decode_with-Seals :
      (text : TextDecoder) (max_frame_bytes max_tool_input_bytes : Value) (source : Stream (List ℕ))
      → AfterOk
          (Seals is_last)
          (decode_with decoder signal text max_frame_bytes max_tool_input_bytes source)
  unfolding decode_with
  decode_with-Seals text max_frame_bytes max_tool_input_bytes source =
      bind-AfterOk (normalize_decode_options max_frame_bytes max_tool_input_bytes)
        (λ options. ok (decode_frame_stream decoder signal text options source))
        (λ options e.
          ok-AfterOk (decode_frame_stream decoder signal text options source)
            (decode_frame_stream-Seals text options source))
