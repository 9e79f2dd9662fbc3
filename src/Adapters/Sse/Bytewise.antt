-- ===== src/Adapters/Sse/Bytewise.antt =====
-- A reading of the same format byte by byte, with no chunk in it, and the laws of the parser's
-- results that the comparison needs.
use agent_routebench.Prelude.{
  ℕ, ◌+◌, List, [], ◌∷◌, ◌++◌, Option, none, some, ◌≡◌, refl, length, ltb, nat_eq, append_assoc,
  ◌∙◌, sym, arith, if◌then◌else◌,
}
use agent_routebench.Adapters.Sse.{
  SseEvent, TextDecoder, Frame, SseFrameParser, Frames, LF, CR, after, and_then, go_on, held,
  end_line,
}

abbrev pub stopped : Frames
stopped = record { events = []; parser = none }

abbrev pub at : Frame → List ℕ → Frames
at frame line = record { events = []; parser = some (record { pending = line; frame = frame }) }

module _ (decoder : TextDecoder) (limit : ℕ) where
  -- A byte that follows no held CR: a line feed ends the line, any other byte joins it.
  unfoldable pub put : Frame → List ℕ → ℕ → Frames
  put frame line byte =
      if nat_eq byte LF
      then after (end_line decoder limit frame line 1) (λ later. at later [])
      else if ltb limit (frame.bytes + length line + 1)
      then stopped
      else at frame (line ++ (byte ∷ []))

  -- A byte after a line and a CR: a line feed belongs to the terminator.
  unfoldable pub put_held : Frame → List ℕ → ℕ → Frames
  put_held frame line byte =
      if nat_eq byte LF
      then after (end_line decoder limit frame line 2) (λ later. at later [])
      else after (end_line decoder limit frame line 1) (λ later. put later [] byte)

  abbrev pub feed_by : Frame → List ℕ → Option (List ℕ) → ℕ → Frames
  feed_by frame pending none byte = put frame pending byte
  feed_by frame pending (some line) byte = put_held frame line byte

  abbrev pub feed : SseFrameParser → ℕ → Frames
  feed p byte = feed_by p.frame p.pending (held p.pending) byte

  unfoldable pub feed_all : SseFrameParser → List ℕ → Frames
  feed_all p [] = record { events = []; parser = some p }
  feed_all p (byte ∷ bytes) = and_then (feed p byte) (λ later. feed_all later bytes)

go_on-append :
    (es fs : List SseEvent) (o : Option SseFrameParser) (g : SseFrameParser → Frames)
    → go_on (es ++ fs) o g
      ≡ record { events = es ++ (go_on fs o g).events; parser = (go_on fs o g).parser }
go_on-append es fs none g = refl
go_on-append es fs (some p) g = rw (append_assoc es fs (g p).events)

pub and_then-after :
    (m : Option (List SseEvent × Frame)) (f : Frame → Frames) (g : SseFrameParser → Frames)
    → and_then (after m f) g ≡ after m (λ frame. and_then (f frame) g)
and_then-after none f g = refl
and_then-after (some (es, frame)) f g = go_on-append es (f frame).events (f frame).parser g

pub and_then_assoc :
    (m : Frames) (f g : SseFrameParser → Frames)
    → and_then (and_then m f) g ≡ and_then m (λ p. and_then (f p) g)
and_then_assoc m f g = go_on_assoc m.events m.parser
  where
    go_on_assoc :
        (es : List SseEvent) (o : Option SseFrameParser)
        → and_then (go_on es o f) g ≡ go_on es o (λ p. and_then (f p) g)
    go_on_assoc es none = refl
    go_on_assoc es (some p) = go_on-append es (f p).events (f p).parser g

pub after-cong :
    (m : Option (List SseEvent × Frame)) (f g : Frame → Frames)
    → ((frame : Frame) → f frame ≡ g frame)
    → after m f ≡ after m g
after-cong none f g h = refl
after-cong (some (es, frame)) f g h = rw (h frame)

pub and_then-cong :
    (m : Frames) (f g : SseFrameParser → Frames)
    → ((p : SseFrameParser) → f p ≡ g p)
    → and_then m f ≡ and_then m g
and_then-cong m f g h = go_on-cong m.events m.parser
  where
    go_on-cong : (es : List SseEvent) (o : Option SseFrameParser) → go_on es o f ≡ go_on es o g
    go_on-cong es none = refl
    go_on-cong es (some p) = rw (h p)

-- Feeding one run of bytes after another.
module _ (decoder : TextDecoder) (limit : ℕ) where
  pub feed_all-append :
      (p : SseFrameParser) (xs ys : List ℕ)
      → feed_all decoder limit p (xs ++ ys)
        ≡ and_then (feed_all decoder limit p xs) (λ later. feed_all decoder limit later ys)
  unfolding feed_all
  feed_all-append p [] ys = refl
  feed_all-append p (x ∷ xs) ys =
      and_then-cong (feed decoder limit p x) (λ later. feed_all decoder limit later (xs ++ ys))
        (λ later.
          and_then (feed_all decoder limit later xs) (λ last. feed_all decoder limit last ys))
        (λ later. feed_all-append later xs ys)
      ∙ sym (
          and_then_assoc (feed decoder limit p x) (λ later. feed_all decoder limit later xs)
            (λ last. feed_all decoder limit last ys))

-- A line and one more byte.
pub held-snoc :
    (line : List ℕ) (byte : ℕ)
    → held (line ++ (byte ∷ [])) ≡ (if nat_eq byte CR then some line else none)
held-snoc [] byte = refl
held-snoc (x ∷ []) byte = ground arith
held-snoc (x ∷ y ∷ line) byte = rw (held-snoc (y ∷ line) byte) (ground arith)
