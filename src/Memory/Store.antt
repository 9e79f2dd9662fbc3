-- ===== src/Memory/Store.antt =====
-- packages/agent-memory/src/memory-store.ts: the class InMemoryMemoryStore. The clock's answer and
-- the id that the factory gives are arguments of a save; a time is a natural number. The properties
-- of a class instance are taken to be its own.
pub mod Saving
pub mod Invariant
use agent_routebench.Prelude.{
  ℕ, Bool, true, false, not, ◌&&◌, ◌||◌, String, List, [], ◌∷◌, ◌++◌, Option, none, some, ltb, leb,
  length, all, includes, includes_codes, codes, has_zero, to_lower_case, if◌then◌else◌, Outcome, ok,
  err, ensure, ◌>>=◌, ◌>>◌, nat_eq,
}
use Prim.Native.String.{len}
use agent_routebench.Prelude.Maps.{lookup, insert, delete}
use agent_routebench.Contracts.Value.{
  Value, Fields, plain, instance_of, string, number, natural, undefined, is_undefined, keys, read,
  as_array, null, callable,
}

-- MEMORY_ERROR_CODES
pub data MemoryErrorCode : Type 0 where
  invalid_options invalid_entry invalid_query memory_limit_exceeded invalid_memory_id :
      MemoryErrorCode

-- The limits of a store.
pub record Limits : Type 0 where
  pub max_entries : ℕ
  pub max_content_bytes : ℕ
  pub max_tags : ℕ
  pub max_tag_bytes : ℕ

-- normalizeLimit
unfoldable pub normalize_limit : Value → ℕ → ℕ → Outcome MemoryErrorCode ℕ
normalize_limit undefined fallback max = ok fallback
normalize_limit (number (natural n)) fallback max =
    if ltb 0 n && leb n max then ok n else err invalid_options
normalize_limit _ fallback max = err invalid_options

abbrev pub as_object : Value → Option Fields
as_object (plain fields) = some fields
as_object (instance_of fields) = some fields
as_object undefined = none
as_object _ = none

abbrev pub is_function_or_absent : Value → Bool
is_function_or_absent undefined = true
is_function_or_absent null = true
is_function_or_absent callable = true
is_function_or_absent _ = false

unfoldable pub read_limits : Fields → Outcome MemoryErrorCode Limits
read_limits raw = do
  ensure (is_function_or_absent (read "clock" raw) && is_function_or_absent (read "idFactory" raw))
      invalid_options
  entries ← normalize_limit (read "maxEntriesPerScope" raw) 128 4096
  content ← normalize_limit (read "maxContentBytes" raw) 16384 262144
  tags ← normalize_limit (read "maxTagsPerEntry" raw) 16 64
  tag ← normalize_limit (read "maxTagBytes" raw) 128 1024
  ok (record {
    max_entries = entries;
    max_content_bytes = content;
    max_tags = tags;
    max_tag_bytes = tag;
  })

-- The constructor: what it makes of the options, which are `{}` where they are left out.
unfoldable pub construct : Value → Outcome MemoryErrorCode Limits
construct undefined = read_limits Fields.end
construct (plain fields) = read_limits fields
construct (instance_of fields) = read_limits fields
construct _ = err invalid_options

-- MemoryEntry
pub record MemoryEntry : Type 0 where
  pub id : String
  pub scope_id : String
  pub kind : String
  pub content : String
  pub tags : List String
  pub created_at : ℕ
  pub updated_at : ℕ

-- The entries of a scope, by their ids.
abbrev pub Scope : Type 0
Scope = List (String × MemoryEntry)

-- #byScope
abbrev pub Store : Type 0
Store = List (String × Scope)

abbrev is_name_code : ℕ → Bool
is_name_code c = (leb 48 c && leb c 57) || (leb 65 c && leb c 90) || (leb 97 c && leb c 122)

abbrev is_id_code : ℕ → Bool
is_id_code c = is_name_code c || nat_eq c 46 || nat_eq c 95 || nat_eq c 45

-- ID_PATTERN
unfoldable pub matches_id : List ℕ → Bool
matches_id [] = false
matches_id (c ∷ cs) = is_name_code c && all is_id_code cs && leb (length cs) 63

abbrev pub if_matching : String → MemoryErrorCode → Outcome MemoryErrorCode String
if_matching text code = if matches_id (codes text) then ok text else err code

-- assertId, with the text that it leaves asserted. The pattern does not match an empty text.
abbrev pub assert_id : Value → MemoryErrorCode → Outcome MemoryErrorCode String
assert_id (string text) code = if_matching text code
assert_id _ code = err code

-- SENSITIVE_FIELDS and ALLOWED_FIELDS.
abbrev sensitive_fields : List (List ℕ)
sensitive_fields =
    codes "apikey"
    ∷ codes "api_key"
    ∷ codes "token"
    ∷ codes "authorization"
    ∷ codes "headers"
    ∷ codes "password"
    ∷ codes "secret"
    ∷ codes "credential"
    ∷ []

abbrev allowed_fields : List String
allowed_fields = "id" ∷ "scopeId" ∷ "kind" ∷ "content" ∷ "tags" ∷ []

abbrev pub is_field : String → Bool
is_field key =
    not (includes_codes (to_lower_case (codes key)) sensitive_fields) && includes key allowed_fields

-- KINDS
abbrev pub kinds : List String
kinds = "fact" ∷ "preference" ∷ "decision" ∷ "todo" ∷ []

abbrev pub as_kind : Value → Outcome MemoryErrorCode String
as_kind (string kind) = if includes kind kinds then ok kind else err invalid_entry
as_kind _ = err invalid_entry

-- The tests of a text with at most so many bytes, and without a zero character.
abbrev pub is_text_within : ℕ → String → Bool
is_text_within bytes text =
    ltb 0 (length (codes text)) && leb (len text) bytes && not (has_zero (codes text))

abbrev pub as_content : ℕ → Value → Outcome MemoryErrorCode String
as_content bytes (string text) = if is_text_within bytes text then ok text else err invalid_entry
as_content bytes _ = err invalid_entry

-- The loop over the tags.
unfoldable pub read_tags : ℕ → List String → List Value → Outcome MemoryErrorCode (List String)
read_tags bytes seen [] = ok []
read_tags bytes seen (value ∷ values) = do
  tag ← as_content bytes value
  ensure (not (includes tag seen)) invalid_entry
  tags ← read_tags bytes (tag ∷ seen) values
  ok (tag ∷ tags)

abbrev pub or_refuse {ℓ} : {A : Type ℓ} → Option A → Outcome MemoryErrorCode A
or_refuse none = err invalid_entry
or_refuse (some a) = ok a

unfoldable pub tags_of : Limits → Value → Outcome MemoryErrorCode (List String)
tags_of limits given =
    if is_undefined given
    then ok []
    else or_refuse (as_array given) >>= λ values.
        ensure (leb (length values) limits.max_tags) invalid_entry
        >> read_tags limits.max_tag_bytes [] values

abbrev pub entries_of : Option Scope → Scope
entries_of none = []
entries_of (some scope) = scope

abbrev pub is_absent : Option MemoryEntry → Bool
is_absent none = true
is_absent (some entry) = false

abbrev pub created_at_of : Option MemoryEntry → ℕ → ℕ
created_at_of none now = now
created_at_of (some entry) now = entry.created_at

-- What a save writes, once its input has passed.
unfoldable pub write :
    Limits
    → ℕ
    → Store
    → String
    → String
    → String
    → String
    → List String
    → Outcome MemoryErrorCode (MemoryEntry × Store)
write limits now store scope_id id kind content tags =
    let scope = entries_of (lookup scope_id store) in
    let existing = lookup id scope in
    let entry : MemoryEntry = record {
      id = id;
      scope_id = scope_id;
      kind = kind;
      content = content;
      tags = tags;
      created_at = created_at_of existing now;
      updated_at = now;
    } in
    if is_absent existing && leb limits.max_entries (length scope)
    then err memory_limit_exceeded
    else ok (entry, insert scope_id (insert id entry scope) store)

abbrev pub id_or_new : Value → Value → Value
id_or_new given new = if is_undefined given then new else given

-- save, at a time and with the id that the factory would give.
unfoldable pub save :
    Limits → ℕ → Value → Store → Value → Outcome MemoryErrorCode (MemoryEntry × Store)
save limits now new store input = do
  raw ← or_refuse (as_object input)
  ensure (all is_field (keys raw)) invalid_entry
  scope_id ← assert_id (read "scopeId" raw) invalid_entry
  kind ← as_kind (read "kind" raw)
  content ← as_content limits.max_content_bytes (read "content" raw)
  tags ← tags_of limits (read "tags" raw)
  id ← assert_id (id_or_new (read "id" raw) new) invalid_memory_id
  write limits now store scope_id id kind content tags

-- get
unfoldable pub get : Store → String → String → Option MemoryEntry
get store scope_id id = lookup id (entries_of (lookup scope_id store))

abbrev pub delete_in : Option Scope → Store → String → String → Bool × Store
delete_in none store scope_id id = (false, store)
delete_in (some scope) store scope_id id =
    (not (is_absent (lookup id scope)), insert scope_id (delete id scope) store)

-- delete: what it answers, and the store after it.
unfoldable pub delete_entry : Store → String → String → Bool × Store
delete_entry store scope_id id = delete_in (lookup scope_id store) store scope_id id

abbrev pub clear_in : Option Scope → Store → String → ℕ × Store
clear_in none store scope_id = (0, store)
clear_in (some scope) store scope_id = (length scope, insert scope_id [] store)

-- clear
unfoldable pub clear : Store → String → ℕ × Store
clear store scope_id = clear_in (lookup scope_id store) store scope_id
