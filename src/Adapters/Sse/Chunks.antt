-- ===== src/Adapters/Sse/Chunks.antt =====
-- The parser against the reading byte by byte: how a source cuts its bytes into chunks does not matter.
use agent_routebench.Prelude.{
  ℕ, zero, suc, ◌+◌, ◌≤◌, true, false, List, [], ◌∷◌, ◌++◌, Option, none, some, ◌≡◌, refl, sym,
  subst, ap, ◌∙◌, length, length-append, ltb, nat_eq, append_assoc, append-nil, arith,
  if◌then◌else◌, inl, inr, Bool-cases, ltb→lt, ltb→le,
}
use agent_routebench.Adapters.Sse.{
  TextDecoder, FoundLine, Frame, SseFrameParser, Frames, LF, CR, after, and_then, held, scan,
  prepend, after_return, find_line_end, end_line, hold, resolve_held, read_lines, frames_from,
  frames_of,
}
use agent_routebench.Adapters.Sse.Bytewise.{
  stopped, at, put, put_held, feed_by, feed_all, and_then-after, after-cong, and_then-cong,
  feed_all-append, held-snoc,
}
use agent_routebench.Adapters.Sse.Scanning.{
  scan_read, IsTerminated, prepend-IsTerminated, after_return-IsTerminated, scan-IsTerminated,
  LeavesFewer, scan-LeavesFewer,
}

-- The bytes of a sequence of chunks.
abbrev pub concat : List (List ℕ) → List ℕ
concat [] = []
concat (chunk ∷ chunks) = chunk ++ concat chunks

module _ (decoder : TextDecoder) (limit : ℕ) where
  abbrev parser : Frame → List ℕ → SseFrameParser
  parser frame line = record { pending = line; frame = frame }

  abbrev onward : Frame → List ℕ → List ℕ → Option FoundLine → Frames
  onward frame line bytes none = hold decoder limit (parser frame line) bytes
  onward frame line bytes (some found) =
      after (end_line decoder limit frame (line ++ found.line) found.terminator)
        (λ later. feed_all decoder limit (parser later []) found.rest)

  end_line-long :
      (frame : Frame) (line : List ℕ) (terminator : ℕ)
      → suc limit ≤ frame.bytes + (length line + terminator)
      → end_line decoder limit frame line terminator ≡ none
  unfolding end_line
  end_line-long frame line terminator h = ground arith

  feed-unheld :
      (frame : Frame) (line : List ℕ) (byte : ℕ) (bytes : List ℕ)
      → held line ≡ none
      → feed_all decoder limit (parser frame line) (byte ∷ bytes)
        ≡ and_then (put decoder limit frame line byte) (λ later. feed_all decoder limit later bytes)
  unfolding feed_all
  feed-unheld frame line byte bytes h = rw (ap (λ o. feed_by decoder limit frame line o byte) h)

  -- Once the line is too long already, whatever follows ends in the error.
  onward-long :
      (frame : Frame) (line : List ℕ) (byte : ℕ) (bytes : List ℕ)
      → (o : Option FoundLine) → suc limit ≤ frame.bytes + length line + 1
      → IsTerminated o
      → onward frame line (byte ∷ bytes) o ≡ stopped
  onward-long frame line byte bytes none h t = ground arith
  onward-long frame line byte bytes (some found) h t = rw (
      end_line-long frame (line ++ found.line) found.terminator
        (omega (arith, length-append line found.line, t, h)))

  -- A line that ends at once.
  onward-ended :
      (frame : Frame) (line : List ℕ) (terminator : ℕ) (bytes : List ℕ)
      → and_then
          (after (end_line decoder limit frame line terminator) (λ later. at later []))
          (λ later. feed_all decoder limit later bytes)
        ≡ onward frame line bytes
            (some (record { line = []; terminator = terminator; rest = bytes }))
  onward-ended frame line terminator bytes = rw (append-nil line) (
      and_then-after (end_line decoder limit frame line terminator) (λ later. at later [])
        (λ later. feed_all decoder limit later bytes))

  put-line_feed :
      (frame : Frame) (line : List ℕ) (byte : ℕ)
      → nat_eq byte LF ≡ true
      → put decoder limit frame line byte
        ≡ after (end_line decoder limit frame line 1) (λ later. at later [])
  unfolding put
  put-line_feed frame line byte h = rw h

  put-long :
      (frame : Frame) (line : List ℕ) (byte : ℕ)
      → nat_eq byte LF ≡ false
      → suc limit ≤ frame.bytes + length line + 1
      → put decoder limit frame line byte ≡ stopped
  unfolding put
  put-long frame line byte h k = ground arith

  put-short :
      (frame : Frame) (line : List ℕ) (byte : ℕ)
      → nat_eq byte LF ≡ false
      → frame.bytes + length line + 1 ≤ limit
      → put decoder limit frame line byte ≡ at frame (line ++ (byte ∷ []))
  unfolding put
  put-short frame line byte h k = ground arith

  -- What a partial line holds does not depend on how it grew.
  onward-snoc :
      (frame : Frame) (line : List ℕ) (byte : ℕ) (bytes : List ℕ) (o : Option FoundLine)
      → frame.bytes + length line + 1 ≤ limit
      → onward frame (line ++ (byte ∷ [])) bytes o
        ≡ onward frame line (byte ∷ bytes) (prepend byte o)
  onward-snoc frame line byte [] none h = ground arith
  onward-snoc frame line byte (next ∷ bytes) none h =
      rw (append_assoc line (byte ∷ []) (next ∷ bytes), length-append line (byte ∷ []))
        (ground arith)
  onward-snoc frame line byte bytes (some found) h = rw (append_assoc line (byte ∷ []) found.line)

  put_held-ends :
      (frame : Frame) (line : List ℕ) (byte : ℕ) (bytes : List ℕ)
      → and_then
          (put_held decoder limit frame line byte)
          (λ later. feed_all decoder limit later bytes)
        ≡ onward frame line (CR ∷ byte ∷ bytes) (after_return false (byte ∷ bytes))
  unfolding put_held
  put_held-ends frame line byte bytes = elim (Bool-cases (nat_eq byte LF)) [
    | inl h ↦ rw h (onward-ended frame line 2 bytes)
    | inr h ↦
        rw (h, append-nil line)
          (and_then-after (end_line decoder limit frame line 1)
              (λ later. put decoder limit later [] byte)
              (λ later. feed_all decoder limit later bytes)
            ∙ after-cong (end_line decoder limit frame line 1)
                (λ frame.
                  and_then (put decoder limit frame [] byte)
                    (λ later. feed_all decoder limit later bytes))
                (λ later. feed_all decoder limit (parser later []) (byte ∷ bytes))
                (λ later. sym (feed-unheld later [] byte bytes refl)))
  ]

  abbrev Reads : List ℕ → Type 0
  Reads bytes =
      (frame : Frame) (line : List ℕ)
      → held line ≡ none
      → feed_all decoder limit (parser frame line) bytes
        ≡ onward frame line bytes (find_line_end false bytes)

  -- A byte that ends no line.
  first-other :
      (byte : ℕ) (bytes : List ℕ) (frame : Frame) (line : List ℕ)
      → Reads bytes
      → held line ≡ none
      → nat_eq byte LF ≡ false
      → nat_eq byte CR ≡ false
      → feed_all decoder limit (parser frame line) (byte ∷ bytes)
        ≡ onward frame line (byte ∷ bytes) (prepend byte (scan false true bytes))
  first-other byte bytes frame line reads unheld no_lf no_cr =
      feed-unheld frame line byte bytes unheld
      ∙ elim (Bool-cases (ltb limit (frame.bytes + length line + 1))) [
        | inl long ↦
            rw (put-long frame line byte no_lf (ltb→lt limit (frame.bytes + length line + 1) long))
              (sym (
                onward-long frame line byte bytes (prepend byte (scan false true bytes))
                  (ltb→lt limit (frame.bytes + length line + 1) long)
                  (prepend-IsTerminated byte (scan false true bytes)
                    (scan-IsTerminated true bytes))))
        | inr short ↦
            rw
              (put-short frame line byte no_lf (ltb→le limit (frame.bytes + length line + 1) short))
              (reads frame (line ++ (byte ∷ []))
                  (held-snoc line byte ∙ ap (λ b. if b then some line else none) no_cr)
                ∙ ap (onward frame (line ++ (byte ∷ [])) bytes) (sym (scan_read true bytes))
                ∙ onward-snoc frame line byte bytes (scan false true bytes)
                    (ltb→le limit (frame.bytes + length line + 1) short))
      ]

  first-return :
      (bytes : List ℕ) (frame : Frame) (line : List ℕ)
      → held line ≡ none
      → feed_all decoder limit (parser frame line) (CR ∷ bytes)
        ≡ onward frame line (CR ∷ bytes) (after_return false bytes)
  unfolding feed_all
  first-return bytes frame line unheld =
      feed-unheld frame line CR bytes unheld
      ∙ elim (Bool-cases (ltb limit (frame.bytes + length line + 1))) [
        | inl long ↦
            rw (put-long frame line CR refl (ltb→lt limit (frame.bytes + length line + 1) long)) (
              sym (
                onward-long frame line CR bytes (after_return false bytes)
                  (ltb→lt limit (frame.bytes + length line + 1) long)
                  (after_return-IsTerminated bytes)))
        | inr short ↦
            rw (put-short frame line CR refl (ltb→le limit (frame.bytes + length line + 1) short))
              (return-short bytes frame line (ltb→le limit (frame.bytes + length line + 1) short))
      ]
    where
      return-short :
          (bytes : List ℕ) (frame : Frame) (line : List ℕ)
          → frame.bytes + length line + 1 ≤ limit
          → feed_all decoder limit (parser frame (line ++ (CR ∷ []))) bytes
            ≡ onward frame line (CR ∷ bytes) (after_return false bytes)
      return-short [] frame line short = ground arith
      return-short (next ∷ bytes) frame line short =
          rw (held-snoc line CR) (put_held-ends frame line next bytes)

  first : (bytes : List ℕ) → Reads bytes
  unfolding feed_all
  first [] frame line unheld = refl
  first (byte ∷ bytes) frame line unheld = elim (Bool-cases (nat_eq byte LF)) [
    | inl lf ↦
        feed-unheld frame line byte bytes unheld
        ∙ rw (lf, put-line_feed frame line byte lf) (onward-ended frame line 1 bytes)
    | inr no_lf ↦ elim (Bool-cases (nat_eq byte CR)) [
      | inl cr ↦
          let same : CR ≡ byte = ground arith in
          subst
            (λ b.
              feed_all decoder limit (parser frame line) (b ∷ bytes)
              ≡ onward frame line (b ∷ bytes) (find_line_end false (b ∷ bytes)))
            same (first-return bytes frame line unheld)
      | inr no_cr ↦
          first-other byte bytes frame line (first bytes) unheld no_lf no_cr ∙ rw (no_lf, no_cr)
    ]
  ]

  read_lines-eq :
      (fuel : ℕ) (frame : Frame) (line bytes : List ℕ)
      → length bytes ≤ fuel
      → held line ≡ none
      → read_lines decoder limit fuel (parser frame line) bytes
        ≡ feed_all decoder limit (parser frame line) bytes
  unfolding read_lines feed_all
  read_lines-eq zero frame line [] h unheld = refl
  read_lines-eq zero frame line (byte ∷ bytes) h unheld = absurd (omega (arith, h))
  read_lines-eq (suc fuel) frame line bytes h unheld =
      rest (find_line_end false bytes) (scan-LeavesFewer false bytes)
        (λ frame bytes k. read_lines-eq fuel frame [] bytes k refl)
      ∙ sym (first bytes frame line unheld)
    where
      rest :
          (o : Option FoundLine)
          → LeavesFewer (length bytes) o
          → ((frame : Frame) (bytes : List ℕ)
              → length bytes ≤ fuel
              → read_lines decoder limit fuel (parser frame []) bytes
                ≡ feed_all decoder limit (parser frame []) bytes)
          → elim o [
            | none ↦ hold decoder limit (parser frame line) bytes
            | some found ↦
                after
                  (end_line decoder limit frame (line ++ found.line) found.terminator)
                  (λ later. read_lines decoder limit fuel (parser later []) found.rest)
          ]
            ≡ onward frame line bytes o
      rest none k ih = refl
      rest (some found) k ih =
          after-cong (end_line decoder limit frame (line ++ found.line) found.terminator)
            (λ later. read_lines decoder limit fuel (parser later []) found.rest)
            (λ later. feed_all decoder limit (parser later []) found.rest)
            (λ later. ih later found.rest (omega (arith, h, k)))

  resolve_held-eq :
      (frame : Frame) (pending : List ℕ) (o : Option (List ℕ)) (chunk : List ℕ)
      → held pending ≡ o
      → resolve_held decoder limit (parser frame pending) o chunk
        ≡ feed_all decoder limit (parser frame pending) chunk
  unfolding feed_all put_held
  resolve_held-eq frame pending none chunk e =
      read_lines-eq (length chunk) frame pending chunk (omega arith) e
  resolve_held-eq frame pending (some line) [] e = refl
  resolve_held-eq frame pending (some line) (byte ∷ bytes) e =
      rw e (elim (Bool-cases (nat_eq byte LF)) [
        | inl h ↦ rw h (
            after-cong (end_line decoder limit frame line 2)
              (λ later. read_lines decoder limit (length bytes) (parser later []) bytes)
              (λ later. feed_all decoder limit (parser later []) bytes)
              (λ later. read_lines-eq (length bytes) later [] bytes (omega arith) refl)
            ∙ sym (
                and_then-after (end_line decoder limit frame line 2) (λ later. at later [])
                  (λ later. feed_all decoder limit later bytes)))
        | inr h ↦ rw h (
            after-cong (end_line decoder limit frame line 1)
              (λ later.
                read_lines decoder limit (suc (length bytes)) (parser later []) (byte ∷ bytes))
              (λ later. feed_all decoder limit (parser later []) (byte ∷ bytes))
              (λ later.
                read_lines-eq (suc (length bytes)) later [] (byte ∷ bytes) (omega arith) refl)
            ∙ sym (
                and_then-after (end_line decoder limit frame line 1)
                  (λ later. put decoder limit later [] byte)
                  (λ later. feed_all decoder limit later bytes)))
      ])

  -- A chunk is read as its bytes are, one after another.
  pub frames_from-eq :
      (p : SseFrameParser) (chunk : List ℕ)
      → frames_from decoder limit p chunk ≡ feed_all decoder limit p chunk
  unfolding frames_from
  frames_from-eq p chunk = resolve_held-eq p.frame p.pending (held p.pending) chunk refl

  frames_of-eq :
      (p : SseFrameParser) (chunks : List (List ℕ))
      → frames_of decoder limit p chunks ≡ feed_all decoder limit p (concat chunks)
  unfolding frames_of feed_all
  frames_of-eq p [] = refl
  frames_of-eq p (chunk ∷ chunks) =
      ap (λ m. and_then m (λ later. frames_of decoder limit later chunks)) (frames_from-eq p chunk)
      ∙ and_then-cong (feed_all decoder limit p chunk)
          (λ later. frames_of decoder limit later chunks)
          (λ later. feed_all decoder limit later (concat chunks))
          (λ later. frames_of-eq later chunks)
      ∙ sym (feed_all-append decoder limit p chunk (concat chunks))

  -- However a source cuts its bytes into chunks, the parser yields the same frames, fails at the
  -- same point or is left in the same state: two sequences of chunks with the same bytes, empty
  -- chunks and cuts inside a CRLF pair included, are read alike, from any state of the parser.
  pub frames_of-chunks :
      (p : SseFrameParser) (chunks others : List (List ℕ))
      → concat chunks ≡ concat others
      → frames_of decoder limit p chunks ≡ frames_of decoder limit p others
  frames_of-chunks p chunks others same =
      frames_of-eq p chunks ∙ ap (feed_all decoder limit p) same ∙ sym (frames_of-eq p others)
