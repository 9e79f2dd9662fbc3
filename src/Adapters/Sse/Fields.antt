-- ===== src/Adapters/Sse/Fields.antt =====
-- The lines of a frame as a server writes them, against what the parser makes of them.
use agent_routebench.Prelude.{true, String, List, [], ◌∷◌, ◌++◌}
use agent_routebench.Adapters.Sse.{SseEvent, Frame, consume_line}

-- The frames that a sequence of lines gives, and the frame under way after them.
abbrev pub consume_lines : List String → Frame → List SseEvent × Frame
consume_lines [] frame = ([], frame)
consume_lines (line ∷ lines) frame =
    let read = consume_line line frame in
    let later = consume_lines lines read.1 in (read.0 ++ later.0, later.1)

-- A label and a value on one line.
abbrev pub labelled : String → String → String
labelled String.[] value = value
labelled (String.◌∷◌ letter rest) value = String.◌∷◌ letter (labelled rest value)

abbrev pub data_lines_of : List String → List String
data_lines_of [] = "" ∷ []
data_lines_of (line ∷ lines) = labelled "data: " line ∷ data_lines_of lines

-- `event: …`, `id: …`, one `data: …` for each line of the payload, and the blank line.
abbrev pub written : String → String → List String → List String
written event id lines = labelled "event: " event ∷ labelled "id: " id ∷ data_lines_of lines

abbrev with_data : Frame → String → Frame
with_data f line = record {
  bytes = f.bytes;
  event = f.event;
  data_lines = f.data_lines ++ (line ∷ []);
  id = f.id;
  retry = f.retry;
  saw_data = true;
  fed = f.fed;
}

abbrev with_lines : Frame → List String → Frame
with_lines frame [] = frame
with_lines frame (line ∷ lines) = with_lines (with_data frame line) lines
