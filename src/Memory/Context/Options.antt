-- ===== src/Memory/Context/Options.antt =====
-- packages/agent-memory/src/context-validation.ts: the options of a context, checked. The properties
-- of a class instance are taken to be its own.
use agent_routebench.Prelude.{
  ℕ, Bool, true, false, not, ◌&&◌, String, List, [], ◌∷◌, Option, none, some, ltb, leb, length, all,
  includes, includes_codes, codes, to_lower_case, if◌then◌else◌, Outcome, ok, err, ensure, ◌>>=◌,
  ◌>>◌,
}
use agent_routebench.Contracts.Value.{
  Value, undefined, boolean, callable, number, string, plain, instance_of, natural, negative,
  fraction, keys, read, as_array,
}
use agent_routebench.Contracts.Validation.{validate_agent_messages}
use agent_routebench.Memory.Store.{as_object, matches_id, kinds, is_text_within}

-- CONTEXT_ERROR_CODES, and the exception of `structuredClone`, which is no ContextError.
pub data ContextErrorCode : Type 0 where
  invalid_options invalid_messages invalid_memory context_budget_exceeded compression_required
        compression_failed summary_invalid summary_too_large aborted data_clone_error :
      ContextErrorCode

abbrev pub Clone : Type 0
Clone = List Value → Option (List Value)

-- A memory entry, as far as the context shows it.
pub record Note : Type 0 where
  pub id : String
  pub kind : String
  pub content : String

-- What parseBuildOptions returns, less the summarizer and the signal.
pub record Parsed : Type 0 where
  pub messages : List Value
  pub memory_entries : List Note
  pub max_context_bytes : ℕ
  pub max_summary_bytes : ℕ

-- SENSITIVE_FIELDS
abbrev sensitive_fields : List (List ℕ)
sensitive_fields =
    codes "apikey"
    ∷ codes "api_key"
    ∷ codes "token"
    ∷ codes "authorization"
    ∷ codes "headers"
    ∷ codes "baseurl"
    ∷ codes "base_url"
    ∷ codes "endpoint"
    ∷ codes "secret"
    ∷ codes "credential"
    ∷ codes "password"
    ∷ []

abbrev is_allowed : List String → String → Bool
is_allowed fields key =
    includes key fields && not (includes_codes (to_lower_case (codes key)) sensitive_fields)

-- ALLOWED_OPTION_FIELDS and MEMORY_ALLOWED_FIELDS.
abbrev option_fields : List String
option_fields =
    "messages" ∷ "memoryEntries" ∷ "maxContextBytes" ∷ "maxSummaryBytes" ∷ "summarizer" ∷ "signal"
    ∷ []

abbrev memory_fields : List String
memory_fields = "id" ∷ "scopeId" ∷ "kind" ∷ "content" ∷ "tags" ∷ "createdAt" ∷ "updatedAt" ∷ []

abbrev pub or_fail {ℓ} : {A : Type ℓ} → Option A → ContextErrorCode → Outcome ContextErrorCode A
or_fail none code = err code
or_fail (some a) code = ok a

abbrev pub text_if : (String → Bool) → Value → Option String
text_if test (string text) = if test text then some text else none
text_if test _ = none

abbrev is_finite : Value → Bool
is_finite (number (natural n)) = true
is_finite (number (negative n)) = true
is_finite (number (fraction sign bits)) = true
is_finite _ = false

abbrev is_id : String → Bool
is_id text = matches_id (codes text)

-- The loop over the tags of an entry.
unfoldable pub are_tags : List String → List Value → Bool
are_tags seen [] = true
are_tags seen (value ∷ values) = elim (text_if (is_text_within 128) value) [
  | none ↦ false
  | some tag ↦ not (includes tag seen) && are_tags (tag ∷ seen) values
]

-- assertMemoryEntry
unfoldable pub assert_memory_entry : Value → Outcome ContextErrorCode Note
assert_memory_entry input = do
  fields ← or_fail (as_object input) invalid_memory
  ensure (all (is_allowed memory_fields) (keys fields)) invalid_memory
  id ← or_fail (text_if is_id (read "id" fields)) invalid_memory
  _ ← or_fail (text_if is_id (read "scopeId" fields)) invalid_memory
  kind ← or_fail (text_if (λ text. includes text kinds) (read "kind" fields)) invalid_memory
  content ← or_fail (text_if (is_text_within 16384) (read "content" fields)) invalid_memory
  tags ← or_fail (as_array (read "tags" fields)) invalid_memory
  ensure (leb (length tags) 16) invalid_memory
  ensure (are_tags [] tags) invalid_memory
  ensure (is_finite (read "createdAt" fields) && is_finite (read "updatedAt" fields)) invalid_memory
  ok (record { id = id; kind = kind; content = content })

-- The loop over the memory entries.
unfoldable pub read_entries : List String → List Value → Outcome ContextErrorCode (List Note)
read_entries seen [] = ok []
read_entries seen (value ∷ values) = do
  note ← assert_memory_entry value
  ensure (not (includes note.id seen)) invalid_memory
  notes ← read_entries (note.id ∷ seen) values
  ok (note ∷ notes)

-- `Number.isInteger(value) && value > 0`
abbrev pub positive : Value → Option ℕ
positive (number (natural n)) = if ltb 0 n then some n else none
positive _ = none

abbrev is_function : Value → Bool
is_function callable = true
is_function _ = false

abbrev is_boolean : Value → Bool
is_boolean (boolean b) = true
is_boolean _ = false

-- assertSummarizer; an array has no such method.
abbrev pub is_summarizer : Value → Bool
is_summarizer (plain fields) = is_function (read "summarize" fields)
is_summarizer (instance_of fields) = is_function (read "summarize" fields)
is_summarizer _ = false

-- isAbortSignalLike
abbrev pub is_abort_signal_like : Value → Bool
is_abort_signal_like (plain fields) =
    is_boolean (read "aborted" fields) && is_function (read "addEventListener" fields)
is_abort_signal_like (instance_of fields) =
    is_boolean (read "aborted" fields) && is_function (read "addEventListener" fields)
is_abort_signal_like _ = false

abbrev is_absent_or : (Value → Bool) → Value → Bool
is_absent_or test undefined = true
is_absent_or test given = test given

abbrev positive_or : ℕ → Value → Option ℕ
positive_or fallback undefined = some fallback
positive_or fallback given = positive given

abbrev list_or_none : Value → Option (List Value)
list_or_none undefined = some []
list_or_none given = as_array given

abbrev accepted : Value → Bool
accepted messages = elim (validate_agent_messages messages) [ ok ids ↦ true | err e ↦ false ]

-- parseBuildOptions
unfoldable pub parse_build_options : Clone → Value → Outcome ContextErrorCode Parsed
parse_build_options clone options = do
  raw ← or_fail (as_object options) invalid_options
  ensure (all (is_allowed option_fields) (keys raw)) invalid_options
  messages ← or_fail (as_array (read "messages" raw)) invalid_messages
  ensure (accepted (read "messages" raw)) invalid_messages
  max_context_bytes ← or_fail (positive (read "maxContextBytes" raw)) invalid_options
  max_summary_bytes ← or_fail (positive_or 8192 (read "maxSummaryBytes" raw)) invalid_options
  ensure (is_absent_or is_summarizer (read "summarizer" raw)) invalid_options
  values ← or_fail (list_or_none (read "memoryEntries" raw)) invalid_memory
  memory_entries ← read_entries [] values
  ensure (is_absent_or is_abort_signal_like (read "signal" raw)) invalid_options
  copied ← or_fail (clone messages) data_clone_error
  ok (record {
    messages = copied;
    memory_entries = memory_entries;
    max_context_bytes = max_context_bytes;
    max_summary_bytes = max_summary_bytes;
  })
