-- ===== src/Memory/Context.antt =====
-- packages/agent-memory/src/context-builder.ts: the messages of a context within a budget of bytes.
-- A message is a value. The size of `JSON.stringify` of messages and `structuredClone`, which is none
-- where it throws, belong to the platform and are parameters, and so is the summarizer.
pub mod Options
pub mod Units
pub mod Budget
pub mod Counting
use agent_routebench.Prelude.{
  ℕ, zero, suc, ◌+◌, ◌-◌, Bool, true, false, not, ◌&&◌, ◌||◌, String, List, [], ◌∷◌, ◌++◌, Option,
  none, some, ltb, leb, nat_eq, length, map, if◌then◌else◌, Outcome, ok, err, ensure, ◌>>=◌, ◌>>◌,
}
use Prim.Native.String.{len, ◌++◌ as append}
use agent_routebench.Contracts.Value.{
  Value, string, array, plain, field, end, from_list, nil, item, property, is_text, as_array,
}
use agent_routebench.Contracts.Validation.{validate_agent_messages}
use agent_routebench.Memory.Context.Options.{
  ContextErrorCode, invalid_messages, context_budget_exceeded, compression_required,
  compression_failed, summary_invalid, summary_too_large, aborted, data_clone_error, Note, Parsed,
  parse_build_options, Clone,
}

-- The blocks of a validated message.
abbrev pub blocks_of : Option (List Value) → List Value
blocks_of none = []
blocks_of (some blocks) = blocks

abbrev pub some_block : String → List Value → Bool
some_block type [] = false
some_block type (block ∷ blocks) = is_text (property "type" block) type || some_block type blocks

abbrev pub has_block : String → Value → Bool
has_block type message = some_block type (blocks_of (as_array (property "content" message)))

abbrev pub is_role : String → Value → Bool
is_role role message = is_text (property "role" message) role

-- HistoryUnit
pub record HistoryUnit : Type 0 where
  pub index : ℕ
  pub messages : List Value
  pub is_protected : Bool

-- The index of the last user message, counted from the given one.
unfoldable pub last_user_index : ℕ → List Value → Option ℕ
last_user_index i [] = none
last_user_index i (message ∷ messages) = elim (last_user_index (suc i) messages) [
  | some later ↦ some later
  | none ↦ if is_role "user" message then some i else none
]

abbrev pub is_from : Option ℕ → ℕ → Bool
is_from none i = false
is_from (some last) i = leb last i

-- The tool messages at the front, and what follows them.
abbrev pub tools_of : List Value → List Value
tools_of [] = []
tools_of (message ∷ messages) =
    let later = tools_of messages in if is_role "tool" message then message ∷ later else []

abbrev pub after_tools : List Value → List Value
after_tools [] = []
after_tools (message ∷ messages) =
    let later = after_tools messages in if is_role "tool" message then later else message ∷ messages

-- The while loop of buildUnits, with the number of messages left as fuel.
unfoldable pub units_from : ℕ → Option ℕ → ℕ → List Value → List HistoryUnit
units_from zero last i messages = []
units_from (suc fuel) last i [] = []
units_from (suc fuel) last i (message ∷ messages) =
    let group = tools_of messages in
    let behind_group = units_from fuel last (suc i + length group) (after_tools messages) in
    let behind_one = units_from fuel last (suc i) messages in
    if has_block "tool_call" message && is_role "assistant" message
    then record {
      index = i;
      messages = message ∷ group;
      is_protected = is_role "system" message || is_from last i;
    }
      ∷ behind_group
    else record {
      index = i;
      messages = message ∷ [];
      is_protected = is_role "system" message || is_from last i || has_block "tool_result" message;
    }
      ∷ behind_one

-- buildUnits
unfoldable pub build_units : List Value → List HistoryUnit
build_units messages = units_from (length messages) (last_user_index 0 messages) 0 messages

-- `flatMap((u) => u.messages)`
abbrev pub flatten : List HistoryUnit → List Value
flatten [] = []
flatten (unit ∷ units) = unit.messages ++ flatten units

abbrev pub filter : (HistoryUnit → Bool) → List HistoryUnit → List HistoryUnit
filter test [] = []
filter test (unit ∷ units) =
    let later = filter test units in if test unit then unit ∷ later else later

abbrev pub has_index : ℕ → List ℕ → Bool
has_index i [] = false
has_index i (j ∷ js) = nat_eq i j || has_index i js

-- Units are told apart by their indices.
abbrev pub is_kept : List ℕ → HistoryUnit → Bool
is_kept kept unit = unit.is_protected || has_index unit.index kept

abbrev pub is_compressible : HistoryUnit → Bool
is_compressible unit = not unit.is_protected

abbrev pub backwards : List HistoryUnit → List HistoryUnit → List HistoryUnit
backwards [] done = done
backwards (unit ∷ units) done = backwards units (unit ∷ done)

abbrev pub text_message : String → Value
text_message text = plain (
    field "role" (string "system") (
      field "content"
        (array (item (plain (field "type" (string "text") (field "text" (string text) end))) nil))
        end))

abbrev pub join_notes : List Note → String
join_notes [] = ""
join_notes (note ∷ []) = append "- [" (append note.kind (append "] " note.content))
join_notes (note ∷ next ∷ notes) =
    append "- [" (
      append note.kind
        (append "] " (append note.content (append "\n" (join_notes (next ∷ notes))))))

-- renderMemoryMessage
unfoldable pub render_memory_message : List Note → Value
render_memory_message notes = text_message (append "[Retrieved memory]\n" (join_notes notes))

abbrev pub memory_messages : List Note → List Value
memory_messages [] = []
memory_messages (note ∷ notes) = render_memory_message (note ∷ notes) ∷ []

abbrev pub summary_message : String → Value
summary_message summary = text_message (append "[Context summary]\n" summary)

-- What the summarizer does first: it answers, throws or rejects, or is overtaken by the abort.
pub data Reply : Type 0 where
  answered : Value → Reply
  failed overtaken : Reply

-- validateSummary
unfoldable pub validate_summary : ℕ → Value → Outcome ContextErrorCode String
validate_summary max_bytes (string text) =
    if leb (len text) 0
    then err summary_invalid
    else if ltb max_bytes (len text)
    then err summary_too_large
    else ok text
validate_summary max_bytes _ = err summary_invalid

-- BuildContextResult
pub record BuildContextResult : Type 0 where
  pub messages : List Value
  pub compressed : Bool
  pub summary_included : Bool
  pub omitted_message_count : ℕ
  pub included_memory_ids : List String
  pub context_bytes : ℕ

abbrev pub Result : Type 0
Result = Outcome ContextErrorCode BuildContextResult

abbrev pub cloned : Option (List Value) → Outcome ContextErrorCode (List Value)
cloned none = err data_clone_error
cloned (some messages) = ok messages

module _ (bytes : List Value → ℕ) (clone : Clone)
    (summarize : Option (List Value → ℕ → Reply)) where
  abbrev pub on_reply : ℕ → Reply → Outcome ContextErrorCode String
  on_reply max_bytes (answered text) = validate_summary max_bytes text
  on_reply max_bytes failed = err compression_failed
  on_reply max_bytes overtaken = err aborted

  abbrev pub ask :
      (List Value → ℕ → Reply) → Option (List Value) → ℕ → ℕ → Outcome ContextErrorCode String
  ask summarizer none count max_bytes = err compression_failed
  ask summarizer (some omitted) count max_bytes = on_reply max_bytes (summarizer omitted count)

  -- runSummarizer
  unfoldable pub run_summarizer :
      Option (List Value → ℕ → Reply) → List Value → ℕ → Outcome ContextErrorCode String
  run_summarizer none omitted max_bytes = err compression_required
  run_summarizer (some summarizer) omitted max_bytes =
      ask summarizer (clone omitted) (length omitted) max_bytes

  -- The loop over the compressible units, from the last to the first: the indices of those kept, and
  -- those left out.
  unfoldable pub select_units :
      ℕ
      → List Value
      → List HistoryUnit
      → List HistoryUnit
      → List ℕ
      → List HistoryUnit
      → List ℕ × List HistoryUnit
  select_units budget memory units [] kept omitted = (kept, omitted)
  select_units budget memory units (unit ∷ rest) kept omitted =
      let with_unit = memory ++ flatten (filter (is_kept (unit.index ∷ kept)) units) in
      if leb (bytes with_unit) budget
      then select_units budget memory units rest (unit.index ∷ kept) omitted
      else select_units budget memory units rest kept (unit ∷ omitted)

  abbrev pub is_none : List HistoryUnit → Bool
  is_none [] = true
  is_none (unit ∷ units) = false

  abbrev pub accepts : List Value → Bool
  accepts messages = elim (validate_agent_messages (array (from_list messages))) [
    | ok ids ↦ true
    | err e ↦ false
  ]

  -- The rest of buildContext behind the selection.
  unfoldable pub compress :
      Parsed → List Value → List HistoryUnit → List ℕ → List HistoryUnit → Result
  compress parsed memory units kept omitted = do
    ensure (not (is_none omitted)) context_budget_exceeded
    summary ← run_summarizer summarize (flatten omitted) parsed.max_summary_bytes
    let final = memory ++ (summary_message summary ∷ flatten (filter (is_kept kept) units))
    ensure (accepts final) invalid_messages
    ensure (leb (bytes final) parsed.max_context_bytes) context_budget_exceeded
    copied ← cloned (clone final)
    ok (record {
      messages = copied;
      compressed = true;
      summary_included = true;
      omitted_message_count = length (flatten omitted);
      included_memory_ids = map (λ note. note.id) parsed.memory_entries;
      context_bytes = bytes final;
    })

  unfoldable pub shrink : Parsed → List Value → List HistoryUnit → Result
  shrink parsed memory units = do
    let overhead = bytes (summary_message "" ∷ [])
    let fixed = flatten (filter (λ unit. unit.is_protected) units)
    ensure (leb (bytes (memory ++ fixed) + overhead) parsed.max_context_bytes)
        context_budget_exceeded
    let loose = filter is_compressible units
    ensure (not (is_none loose)) context_budget_exceeded
    let selected =
        select_units (parsed.max_context_bytes - overhead) memory units (backwards loose []) [] []
    compress parsed memory units selected.0 selected.1

  -- All the messages, where they fit.
  unfoldable pub whole : Parsed → List Value → Result
  whole parsed assembled = cloned (clone assembled) >>= λ copied. ok (record {
    messages = copied;
    compressed = false;
    summary_included = false;
    omitted_message_count = 0;
    included_memory_ids = map (λ note. note.id) parsed.memory_entries;
    context_bytes = bytes assembled;
  })

  unfoldable pub assemble : Parsed → Result
  assemble parsed =
      let memory = memory_messages parsed.memory_entries in
      let assembled = memory ++ parsed.messages in
      if leb (bytes assembled) parsed.max_context_bytes
      then whole parsed assembled
      else shrink parsed memory (build_units parsed.messages)

  -- buildContext; `is_aborted` is what the signal says on entry.
  unfoldable pub build_context : Bool → Value → Result
  build_context is_aborted options = parse_build_options clone options >>= λ parsed.
      ensure (not is_aborted) aborted >> assemble parsed
