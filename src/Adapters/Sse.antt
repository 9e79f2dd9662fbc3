-- ===== src/Adapters/Sse.antt =====
-- packages/model-gateway/src/adapters/sse.ts: the incremental parser of Server-Sent Events frames.
-- A suffix of a chunk stands for the chunk and the cursor in it. `TextDecoder` belongs to the
-- platform and is a parameter: what `decode(line, { stream: true })` answers is a function of the
-- bytes it was given before and of the line, and so is whether the last `decode()` throws.

pub mod Bytewise
pub mod Fields
mod Scanning
pub mod Bounds
pub mod Chunks
use agent_routebench.Prelude.{
  ℕ, zero, suc, ◌+◌, Bool, true, false, not, ◌&&◌, ◌||◌, String, List, [], ◌∷◌, ◌++◌, Option, none,
  some, ◌==◌, length, all, ltb, nat_eq, has_zero, codes, if◌then◌else◌,
}
use Prim.Native.Char.{code}
use Prim.Native.String.{◌++◌ as append}

-- SseEvent. `retry` is the numeral of which the field is the `Number`.
pub record SseEvent : Type 0 where
  pub event : Option String
  pub data_text : String
  pub id : Option String
  pub retry : Option String

pub record TextDecoder : Type 0 where
  pub decode : List ℕ → List ℕ → Option String
  pub flushes : List ℕ → Bool

abbrev pub LF : ℕ
LF = 10

abbrev pub CR : ℕ
CR = 13

-- FoundLine, with the bytes of the line, the length of its terminator and the bytes after it.
pub record FoundLine : Type 0 where
  pub line : List ℕ
  pub terminator : ℕ
  pub rest : List ℕ

abbrev pub after_return : Bool → List ℕ → Option FoundLine
after_return at_eof (next ∷ rest) =
    if nat_eq next LF
    then some (record { line = []; terminator = 2; rest = rest })
    else some (record { line = []; terminator = 1; rest = next ∷ rest })
after_return at_eof [] =
    if at_eof then some (record { line = []; terminator = 1; rest = [] }) else none

abbrev pub prepend : ℕ → Option FoundLine → Option FoundLine
prepend byte none = none
prepend byte (some found) =
    some (record { line = byte ∷ found.line; terminator = found.terminator; rest = found.rest })

-- The loop of findLineEnd; `read` tells whether it has passed a byte.
abbrev pub scan : Bool → Bool → List ℕ → Option FoundLine
scan at_eof read [] =
    if at_eof && read then some (record { line = []; terminator = 0; rest = [] }) else none
scan at_eof read (byte ∷ bytes) =
    let later = scan at_eof true bytes in
    if nat_eq byte LF
    then some (record { line = []; terminator = 1; rest = bytes })
    else if nat_eq byte CR
    then after_return at_eof bytes
    else prepend byte later

abbrev pub find_line_end : Bool → List ℕ → Option FoundLine
find_line_end at_eof bytes = scan at_eof false bytes

abbrev is_decimal_digit : ℕ → Bool
is_decimal_digit c = ltb 47 c && ltb c 58

abbrev parse_retry : String → Option String
parse_retry value =
    if ltb 0 (length (codes value)) && all is_decimal_digit (codes value) then some value else none

-- The fields of the parser that the frame under way fills, and the bytes its decoder was fed.
pub record Frame : Type 0 where
  pub bytes : ℕ
  pub event : Option String
  pub data_lines : List String
  pub id : Option String
  pub retry : Option String
  pub saw_data : Bool
  pub fed : List ℕ

-- SseFrameParser, less its limit and its decoder.
pub record SseFrameParser : Type 0 where
  pub pending : List ℕ
  pub frame : Frame

abbrev pub empty_frame : List ℕ → Frame
empty_frame fed = record {
  bytes = 0;
  event = none;
  data_lines = [];
  id = none;
  retry = none;
  saw_data = false;
  fed = fed;
}

abbrev pub new_parser : SseFrameParser
new_parser = record { pending = []; frame = empty_frame [] }

-- `data.join("\n")`
unfoldable pub join_lines : List String → String
join_lines [] = ""
join_lines (line ∷ []) = line
join_lines (line ∷ next ∷ lines) = append line (append "\n" (join_lines (next ∷ lines)))

-- #dispatch
unfoldable pub dispatch : Frame → List SseEvent × Frame
dispatch frame =
    let text = join_lines frame.data_lines in
    (
      if frame.saw_data && not (text == "")
          then record { event = frame.event; data_text = text; id = frame.id; retry = frame.retry }
            ∷ []
          else [],
      empty_frame frame.fed,
    )

-- The text before the first colon, and the text after it.
unfoldable pub before_colon : String → String
before_colon String.[] = String.[]
before_colon (String.◌∷◌ letter rest) =
    let field = before_colon rest in
    if nat_eq (code letter) 58 then String.[] else String.◌∷◌ letter field

unfoldable pub after_colon : String → String
after_colon String.[] = String.[]
after_colon (String.◌∷◌ letter rest) =
    let value = after_colon rest in if nat_eq (code letter) 58 then rest else value

unfoldable pub without_space : String → String
without_space String.[] = String.[]
without_space (String.◌∷◌ letter rest) =
    if nat_eq (code letter) 32 then rest else String.◌∷◌ letter rest

unfoldable pub starts_with_colon : String → Bool
starts_with_colon String.[] = false
starts_with_colon (String.◌∷◌ letter rest) = nat_eq (code letter) 58

unfoldable pub is_empty : String → Bool
is_empty String.[] = true
is_empty (String.◌∷◌ letter rest) = false

-- The switch on the field's name.
unfoldable pub set_field : String → String → Frame → Frame
set_field field value frame =
    let f = frame in
    if field == "event"
    then record {
      bytes = f.bytes;
      event = some value;
      data_lines = f.data_lines;
      id = f.id;
      retry = f.retry;
      saw_data = f.saw_data;
      fed = f.fed;
    }
    else if field == "data"
    then record {
      bytes = f.bytes;
      event = f.event;
      data_lines = f.data_lines ++ (value ∷ []);
      id = f.id;
      retry = f.retry;
      saw_data = true;
      fed = f.fed;
    }
    else if field == "id"
    then record {
      bytes = f.bytes;
      event = f.event;
      data_lines = f.data_lines;
      id = if has_zero (codes value) then f.id else some value;
      retry = f.retry;
      saw_data = f.saw_data;
      fed = f.fed;
    }
    else if field == "retry"
    then record {
      bytes = f.bytes;
      event = f.event;
      data_lines = f.data_lines;
      id = f.id;
      retry = parse_retry value;
      saw_data = f.saw_data;
      fed = f.fed;
    }
    else f

-- #consumeLine
unfoldable pub consume_line : String → Frame → List SseEvent × Frame
consume_line line frame =
    if is_empty line
    then dispatch frame
    else if starts_with_colon line
    then ([], frame)
    else ([], set_field (before_colon line) (without_space (after_colon line)) frame)

-- The frames that a call yields; `none` is the AdapterStreamError it then throws, whose code is
-- always provider_protocol_error.
pub record Frames : Type 0 where
  pub events : List SseEvent
  pub parser : Option SseFrameParser

abbrev pub after : Option (List SseEvent × Frame) → (Frame → Frames) → Frames
after none next = record { events = []; parser = none }
after (some (yielded, frame)) next =
    let later = next frame in record { events = yielded ++ later.events; parser = later.parser }

abbrev pub go_on : List SseEvent → Option SseFrameParser → (SseFrameParser → Frames) → Frames
go_on events none next = record { events = events; parser = none }
go_on events (some p) next =
    let later = next p in record { events = events ++ later.events; parser = later.parser }

abbrev pub and_then : Frames → (SseFrameParser → Frames) → Frames
and_then frames next = go_on frames.events frames.parser next

-- The line before a held CR, if the pending bytes end in one.
abbrev pub cons_line : ℕ → Option (List ℕ) → Option (List ℕ)
cons_line byte none = none
cons_line byte (some line) = some (byte ∷ line)

abbrev pub held : List ℕ → Option (List ℕ)
held [] = none
held (byte ∷ []) = if nat_eq byte CR then some [] else none
held (byte ∷ next ∷ bytes) = cons_line byte (held (next ∷ bytes))

abbrev pub count_line : Frame → ℕ → List ℕ → Frame
count_line f counted line = record {
  bytes = counted;
  event = f.event;
  data_lines = f.data_lines;
  id = f.id;
  retry = f.retry;
  saw_data = f.saw_data;
  fed = f.fed ++ line;
}

module _ (decoder : TextDecoder) (limit : ℕ) where
  -- #decodeLine, and the line that it gives.
  unfoldable pub decode_line : Frame → ℕ → List ℕ → Option (List SseEvent × Frame)
  decode_line f counted line = elim (decoder.decode f.fed line) [
    | none ↦ none
    | some text ↦ some (consume_line text (count_line f counted line))
  ]

  -- A complete line is counted, checked, decoded and consumed.
  unfoldable pub end_line : Frame → List ℕ → ℕ → Option (List SseEvent × Frame)
  end_line frame line terminator =
      let counted = frame.bytes + (length line + terminator) in
      if ltb limit counted then none else decode_line frame counted line

  -- The trailing partial line.
  abbrev pub hold : SseFrameParser → List ℕ → Frames
  hold p [] = record { events = []; parser = some p }
  hold p (byte ∷ bytes) =
      if ltb limit (p.frame.bytes + length p.pending + length (byte ∷ bytes))
      then record { events = []; parser = none }
      else record {
        events = [];
        parser = some (record { pending = p.pending ++ (byte ∷ bytes); frame = p.frame });
      }

  -- The while loop of framesFrom, with the number of bytes left as fuel.
  unfoldable pub read_lines : ℕ → SseFrameParser → List ℕ → Frames
  read_lines zero p bytes = hold p bytes
  read_lines (suc fuel) p bytes = elim (find_line_end false bytes) [
    | none ↦ hold p bytes
    | some found ↦
        after (end_line p.frame (p.pending ++ found.line) found.terminator)
          (λ frame. read_lines fuel (record { pending = []; frame = frame }) found.rest)
  ]

  abbrev read_all : Frame → List ℕ → Frames
  read_all frame bytes = read_lines (length bytes) (record { pending = []; frame = frame }) bytes

  abbrev resolve_held : SseFrameParser → Option (List ℕ) → List ℕ → Frames
  resolve_held p none chunk = read_lines (length chunk) p chunk
  resolve_held p (some line) [] = record { events = []; parser = some p }
  resolve_held p (some line) (byte ∷ bytes) =
      if nat_eq byte LF
      then after (end_line p.frame line 2) (λ frame. read_all frame bytes)
      else after (end_line p.frame line 1) (λ frame. read_all frame (byte ∷ bytes))

  -- framesFrom
  unfoldable pub frames_from : SseFrameParser → List ℕ → Frames
  frames_from p chunk = resolve_held p (held p.pending) chunk

  abbrev finish_tail : ℕ → Frame → List ℕ → Frames
  finish_tail zero frame tail = record {
    events = [];
    parser = some (record { pending = []; frame = frame });
  }
  finish_tail (suc fuel) frame tail = elim (find_line_end true tail) [
    | none ↦ record { events = []; parser = some (record { pending = []; frame = frame }) }
    | some found ↦
        after (end_line frame found.line found.terminator)
          (λ later. finish_tail fuel later found.rest)
  ]

  abbrev settle : List SseEvent → Option SseFrameParser → Option (List SseEvent)
  settle events none = none
  settle events (some p) =
      if not (decoder.flushes p.frame.fed)
      then none
      else if p.frame.saw_data || ltb 0 p.frame.bytes
      then none
      else some events

  -- finish: the events, or the error. `found` is never null while bytes are left.
  unfoldable pub finish : SseFrameParser → Option (List SseEvent)
  finish p =
      let tail = finish_tail (length p.pending) p.frame p.pending in settle tail.events tail.parser

  -- The calls of framesFrom, one per chunk.
  unfoldable pub frames_of : SseFrameParser → List (List ℕ) → Frames
  frames_of p [] = record { events = []; parser = some p }
  frames_of p (chunk ∷ chunks) = and_then (frames_from p chunk) (λ later. frames_of later chunks)
