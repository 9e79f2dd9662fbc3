-- ===== src/Adapters/Decoding/Options.antt =====
-- The options of a decoded stream, which packages/model-gateway/src/adapters/stream-runtime.ts checks
-- before it reads.
use agent_routebench.Prelude.{ℕ, Option, none, some, Outcome, ok, err, if◌then◌else◌, ◌>>=◌}
use agent_routebench.Contracts.Value.{Value, is_undefined, safe_integer_from}

-- DEFAULT_MAX_FRAME_BYTES and DEFAULT_MAX_TOOL_INPUT_BYTES.
abbrev default_max_frame_bytes : ℕ
default_max_frame_bytes = 1048576

abbrev default_max_tool_input_bytes : ℕ
default_max_tool_input_bytes = 1048576

pub data AdapterErrorCode : Type 0 where
  invalid_adapter_options : AdapterErrorCode

abbrev or_invalid : Option ℕ → Outcome AdapterErrorCode ℕ
or_invalid none = err invalid_adapter_options
or_invalid (some n) = ok n

-- readPositiveSafeInteger; normalizeMaxFrameBytes of the parser is the same test.
unfoldable pub read_positive_safe_integer : Value → ℕ → Outcome AdapterErrorCode ℕ
read_positive_safe_integer given fallback =
    if is_undefined given then ok fallback else or_invalid (safe_integer_from 1 given)

-- NormalizedDecodeOptions, less the signal.
pub record NormalizedDecodeOptions : Type 0 where
  pub max_frame_bytes : ℕ
  pub max_tool_input_bytes : ℕ

-- normalizeDecodeOptions, over the two properties of the options.
unfoldable pub normalize_decode_options :
    Value → Value → Outcome AdapterErrorCode NormalizedDecodeOptions
normalize_decode_options max_frame_bytes max_tool_input_bytes =
    read_positive_safe_integer max_frame_bytes default_max_frame_bytes >>= λ frame.
    read_positive_safe_integer max_tool_input_bytes default_max_tool_input_bytes >>= λ tool.
    ok (record { max_frame_bytes = frame; max_tool_input_bytes = tool })
