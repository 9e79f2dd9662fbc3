-- ===== src/Adapters/DecodeUtils.antt =====
-- packages/model-gateway/src/adapters/decode-utils.ts: what both provider decoders read frames with.
-- `JSON` belongs to the platform and is a parameter.
use agent_routebench.Prelude.{
  ℕ, suc, Bool, true, false, ◌&&◌, ◌||◌, String, List, Option, none, some, leb, includes,
  if◌then◌else◌, Outcome, ok, err, ensure,
}
use Prim.Native.Char.{code}
use Prim.Native.String.{len}
use agent_routebench.Registry.Names.{is_space}
use agent_routebench.Contracts.Value.{
  Value, Number, Items, Fields, undefined, null, callable, boolean, number, string, array, plain,
  instance_of, natural, negative, fraction, infinity, nan, nil, item, end, field, read, is_nullish,
  is_undefined, as_plain_object, safe_integer_from,
}
use agent_routebench.Resilience.Errors.{
  StreamErrorCode, provider_protocol_error, upstream_unavailable, rate_limited, gateway_error,
}
use agent_routebench.Adapters.Decoding.{Thrown, adapter_stream_error}
use agent_routebench.Adapters.Steps.{◌>>=◌, ◌>>◌}
use agent_routebench.Adapters.Sse.{is_empty}

-- `JSON.parse`, none where it throws, and the UTF-8 length of what `JSON.stringify` gives.
pub record Json : Type 0 where
  pub parse : String → Option Value
  pub serialized_length : Value → ℕ

-- protocolError
abbrev pub protocol_error : Thrown
protocol_error = adapter_stream_error provider_protocol_error

abbrev pub require {ℓ} : {A : Type ℓ} → Option A → Outcome Thrown A
require none = err protocol_error
require (some a) = ok a

abbrev pub check : Bool → Outcome Thrown (Unit {0})
check test = ensure test protocol_error

-- `isPlainObject(value)` and its use.
abbrev pub plain_object : Value → Outcome Thrown Fields
plain_object given = require (as_plain_object given)

-- parseJsonObjectFrame
unfoldable pub parse_json_object_frame : Json → String → Outcome Thrown Fields
parse_json_object_frame json text = require (json.parse text) >>= plain_object

abbrev pub counted : Option ℕ → Outcome Thrown (Option ℕ)
counted none = err protocol_error
counted (some n) = ok (some n)

-- readTokenCount
unfoldable pub read_token_count : Value → Outcome Thrown (Option ℕ)
read_token_count given = if is_undefined given then ok none else counted (safe_integer_from 0 given)

abbrev is_finite : Number → Bool
is_finite (natural n) = true
is_finite (negative n) = true
is_finite (fraction sign bits) = true
is_finite (infinity sign) = false
is_finite nan = false

-- isFiniteJsonValue, behind the test of the depth, which stands at each call.
unfoldable mutual
  pub is_finite_shape : Value → ℕ → Bool
  is_finite_shape undefined depth = false
  is_finite_shape null depth = true
  is_finite_shape callable depth = false
  is_finite_shape (boolean b) depth = true
  is_finite_shape (number n) depth = is_finite n
  is_finite_shape (string s) depth = true
  is_finite_shape (array vs) depth = every_item vs (suc depth)
  is_finite_shape (plain fs) depth = every_field fs (suc depth)
  is_finite_shape (instance_of fs) depth = false

  pub every_item : Items → ℕ → Bool
  every_item nil depth = true
  every_item (item v vs) depth = leb depth 64 && is_finite_shape v depth && every_item vs depth

  pub every_field : Fields → ℕ → Bool
  every_field end depth = true
  every_field (field k v fs) depth = leb depth 64 && is_finite_shape v depth && every_field fs depth

unfoldable pub is_finite_json_value : Value → ℕ → Bool
is_finite_json_value given depth = leb depth 64 && is_finite_shape given depth

-- parseToolInputObject, with assertFiniteJsonValue.
unfoldable pub parse_tool_input_object : Json → String → Outcome Thrown Fields
parse_tool_input_object json raw = require (json.parse raw) >>= λ parsed.
    plain_object parsed >>= λ fields. check (is_finite_json_value parsed 0) >> ok fields

abbrev pub is_zero : Value → Bool
is_zero (number (natural n)) = leb n 0
is_zero _ = false

abbrev unused : Value → Bool
unused given = is_nullish given || is_zero given

-- assertNoCacheTokens
unfoldable pub assert_no_cache_tokens : Fields → Outcome Thrown (Unit {0})
assert_no_cache_tokens usage =
    check (unused (read "cache_creation_input_tokens" usage))
    >> check (unused (read "cache_read_input_tokens" usage))

-- mapStructuredErrorType
unfoldable pub map_structured_error_type : Value → List String → List String → StreamErrorCode
map_structured_error_type (string type) rate_limited_types unavailable_types =
    if includes type rate_limited_types
    then rate_limited
    else if includes type unavailable_types
    then upstream_unavailable
    else gateway_error
map_structured_error_type _ rate_limited_types unavailable_types = gateway_error

-- utf8ByteLength
abbrev pub utf8_byte_length : String → ℕ
utf8_byte_length text = len text

-- `typeof value === "string" && value.length > 0`
abbrev full : String → Option String
full text = if is_empty text then none else some text

abbrev pub full_text : Value → Outcome Thrown String
full_text (string text) = require (full text)
full_text _ = err protocol_error

-- `trim`
abbrev pub trim_start : String → String
trim_start String.[] = String.[]
trim_start (String.◌∷◌ letter rest) =
    let later = trim_start rest in if is_space (code letter) then later else String.◌∷◌ letter rest

abbrev pub trim_end : String → String
trim_end String.[] = String.[]
trim_end (String.◌∷◌ letter rest) =
    let later = trim_end rest in
    if is_empty later && is_space (code letter) then String.[] else String.◌∷◌ letter later

unfoldable pub trim : String → String
trim text = trim_end (trim_start text)
