-- ===== src/Resilience/Errors.antt =====
-- The stream errors of packages/model-gateway/src/adapters/errors.ts.
use agent_routebench.Prelude.{Bool, true, false, String}
use agent_routebench.Contracts.Value.{string, boolean}
use agent_routebench.Contracts.Events.{ModelStreamEvent, error}

-- STREAM_ERROR_CODES
pub data StreamErrorCode : Type 0 where
  aborted provider_protocol_error upstream_unavailable rate_limited gateway_error : StreamErrorCode

abbrev pub stream_error_code : StreamErrorCode → String
stream_error_code aborted = "aborted"
stream_error_code provider_protocol_error = "provider_protocol_error"
stream_error_code upstream_unavailable = "upstream_unavailable"
stream_error_code rate_limited = "rate_limited"
stream_error_code gateway_error = "gateway_error"

-- streamErrorMessage, over STREAM_ERROR_MESSAGES
abbrev pub stream_error_message : StreamErrorCode → String
stream_error_message aborted = "Request aborted."
stream_error_message provider_protocol_error =
    "The provider stream is outside the supported protocol subset."
stream_error_message upstream_unavailable = "The upstream provider is currently unavailable."
stream_error_message rate_limited = "The upstream provider rate limited this request."
stream_error_message gateway_error = "Model gateway request failed."

abbrev is_retryable : StreamErrorCode → Bool
is_retryable rate_limited = true
is_retryable upstream_unavailable = true
is_retryable _ = false

-- streamErrorEvent
abbrev pub stream_error_event : StreamErrorCode → ModelStreamEvent
stream_error_event code =
    error (string (stream_error_code code)) (string (stream_error_message code))
      (boolean (is_retryable code))
