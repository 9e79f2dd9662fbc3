-- ===== src/Adapters/Sse/Bounds.antt =====
-- The limit on a frame: what the parser keeps of an unfinished frame never exceeds maxFrameBytes.
use agent_routebench.Prelude.{
  ℕ, ◌+◌, ◌≤◌, List, [], ◌∷◌, Option, none, some, ◌≡◌, subst, ap, ◌∙◌, sym, length, length-append,
  ltb, nat_eq, String, arith, Bool-cases, inl, inr, ltb→le,
}
use agent_routebench.Adapters.Sse.{
  SseEvent, TextDecoder, Frame, SseFrameParser, Frames, LF, after, go_on, held, set_field,
  consume_line, dispatch, before_colon, without_space, after_colon, count_line, decode_line,
  end_line, frames_from,
}
use agent_routebench.Adapters.Sse.Bytewise.{at, put, put_held, feed_by, feed, feed_all}
use agent_routebench.Adapters.Sse.Chunks.{frames_from-eq}

-- The bytes of the frame under way, and of the line under way.
abbrev pub kept : SseFrameParser → ℕ
kept p = p.frame.bytes + length p.pending

abbrev FitsIn : ℕ → Option SseFrameParser → Type 0
FitsIn limit none = Unit
FitsIn limit (some p) = kept p ≤ limit

set_field-bytes :
    (field value : String) (frame : Frame) → (set_field field value frame).bytes ≡ frame.bytes
unfolding set_field
set_field-bytes field value frame = ground arith

consume_line-bytes :
    (line : String) (frame : Frame) → (consume_line line frame).1.bytes ≤ frame.bytes
unfolding consume_line dispatch
consume_line-bytes line frame =
    ground (arith, set_field-bytes (before_colon line) (without_space (after_colon line)) frame)

module _ (decoder : TextDecoder) (limit : ℕ) where
  decode_line-FitsIn :
      (frame : Frame) (counted : ℕ) (line : List ℕ) (next : Frame → Frames)
      → counted ≤ limit
      → ((later : Frame) → later.bytes ≤ limit → FitsIn limit (next later).parser)
      → FitsIn limit (after (decode_line decoder limit frame counted line) next).parser
  unfolding decode_line
  decode_line-FitsIn frame counted line next h k = read (decoder.decode frame.fed line)
    where
      read :
          (o : Option String)
          → FitsIn limit
              (after
                (elim o [
                  | none ↦ none
                  | some text ↦ some (consume_line text (count_line frame counted line))
                ])
                next).parser
      read none = tt
      read (some text) =
          k (consume_line text (count_line frame counted line)).1
            (omega (arith, h, consume_line-bytes text (count_line frame counted line)))

  end_line-FitsIn :
      (frame : Frame) (line : List ℕ) (terminator : ℕ) (next : Frame → Frames)
      → ((later : Frame) → later.bytes ≤ limit → FitsIn limit (next later).parser)
      → FitsIn limit (after (end_line decoder limit frame line terminator) next).parser
  unfolding end_line
  end_line-FitsIn frame line terminator next k =
      elim (Bool-cases (ltb limit (frame.bytes + (length line + terminator)))) [
        | inl over ↦ rw over tt
        | inr under ↦ rw under (
            decode_line-FitsIn frame (frame.bytes + (length line + terminator)) line next
              (ltb→le limit (frame.bytes + (length line + terminator)) under) k)
      ]

  put-FitsIn :
      (frame : Frame) (line : List ℕ) (byte : ℕ)
      → FitsIn limit (put decoder limit frame line byte).parser
  unfolding put
  put-FitsIn frame line byte = elim (Bool-cases (nat_eq byte LF)) [
    | inl lf ↦
        rw lf (end_line-FitsIn frame line 1 (λ later. at later []) (λ later h. omega (arith, h)))
    | inr other ↦ elim (Bool-cases (ltb limit (frame.bytes + length line + 1))) [
      | inl long ↦ rw (other, long) tt
      | inr short ↦
          rw (other, short)
            (omega (
              arith,
              length-append line (byte ∷ []),
              ltb→le limit (frame.bytes + length line + 1) short,
            ))
    ]
  ]

  put_held-FitsIn :
      (frame : Frame) (line : List ℕ) (byte : ℕ)
      → FitsIn limit (put_held decoder limit frame line byte).parser
  unfolding put_held
  put_held-FitsIn frame line byte = elim (Bool-cases (nat_eq byte LF)) [
    | inl lf ↦
        rw lf (end_line-FitsIn frame line 2 (λ later. at later []) (λ later h. omega (arith, h)))
    | inr other ↦ rw other (
        end_line-FitsIn frame line 1 (λ later. put decoder limit later [] byte)
          (λ later h. put-FitsIn later [] byte))
  ]

  feed_by-FitsIn :
      (p : SseFrameParser) (o : Option (List ℕ)) (byte : ℕ)
      → FitsIn limit (feed_by decoder limit p.frame p.pending o byte).parser
  feed_by-FitsIn p none byte = put-FitsIn p.frame p.pending byte
  feed_by-FitsIn p (some line) byte = put_held-FitsIn p.frame line byte

  feed_all-FitsIn :
      (p : SseFrameParser) (bytes : List ℕ)
      → kept p ≤ limit
      → FitsIn limit (feed_all decoder limit p bytes).parser
  unfolding feed_all
  feed_all-FitsIn p [] h = h
  feed_all-FitsIn p (byte ∷ bytes) h =
      onward (feed decoder limit p byte).events (feed decoder limit p byte).parser
        (feed_by-FitsIn p (held p.pending) byte) (λ later k. feed_all-FitsIn later bytes k)
    where
      onward :
          (events : List SseEvent) (o : Option SseFrameParser)
          → FitsIn limit o
          → ((later : SseFrameParser)
              → kept later ≤ limit
              → FitsIn limit (feed_all decoder limit later bytes).parser)
          → FitsIn limit (go_on events o (λ later. feed_all decoder limit later bytes)).parser
      onward events none k ih = tt
      onward events (some later) k ih = ih later k

  -- The parser never keeps more of a frame than the limit: if the bytes counted for the frame under
  -- way and the buffered bytes of its unfinished line together are at most maxFrameBytes before a
  -- chunk, and the parser does not fail on the chunk, they are afterwards, whatever the chunk's size.
  pub frames_from-within :
      (p later : SseFrameParser) (chunk : List ℕ)
      → kept p ≤ limit
      → (frames_from decoder limit p chunk).parser ≡ some later
      → kept later ≤ limit
  frames_from-within p later chunk h e =
      subst (FitsIn limit) (ap (λ m. m.parser) (sym (frames_from-eq decoder limit p chunk)) ∙ e)
        (feed_all-FitsIn p chunk h)
