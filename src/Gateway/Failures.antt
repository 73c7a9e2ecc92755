-- ===== src/Gateway/Failures.antt =====
-- src/gateway/failures.ts: the failures of the gateway and the policy that presents them.
pub mod Policy
pub mod RetryAfter
use ghc_gateway.Base.{
  ℕ, Bool, true, false, ◌&&◌, Option, none, some, Text, text, ltb, leb, if◌then◌else◌,
}
use ghc_gateway.WireJson.Outcome.{WireJsonErrorCode}

pub data GatewayFailureSource : Type 0 where
  request account credential catalog transport parser converter continuation gateway :
      GatewayFailureSource

pub data GatewayFailurePhase : Type 0 where
  decode bind refresh discover connect headers body stream parse convert resume admission deadline
        internal_phase :
      GatewayFailurePhase

pub record GatewayFailureOrigin : Type 0 where
  pub source : GatewayFailureSource
  pub phase : GatewayFailurePhase

-- A `number`, as far as `Number.isInteger(n) && n >= 400` tells numbers apart.
pub data Number : Type 0 where
  natural : ℕ → Number
  negative_or_fraction : Number

pub data StaticGatewayFailureKind : Type 0 where
  invalid_request body_too_large unsupported_media_type unsupported_semantics authentication
        permission model_not_found continuation_conflict continuation_unavailable
        continuation_persistence queue_full queue_timeout upstream_timeout upstream_network
        upstream_stream_error upstream_stream_truncated invalid_upstream_response
        unsupported_upstream_output invalid_tool_arguments invalid_logprobs aborted internal :
      StaticGatewayFailureKind

pub data GatewayFailureKind : Type 0 where
  static : StaticGatewayFailureKind → GatewayFailureKind
  upstream_http : Number → Option Text → GatewayFailureKind

-- The errors that the modelled code throws or wraps; any other is an opaque value.
pub data Cause : Type 0 where
  model_capability_unavailable custom_tools_unsupported : Cause
  wire_json : WireJsonErrorCode → Cause
  contract : StaticGatewayFailureKind → Text → Cause
  other_error : ℕ → Cause

pub record GatewayFailure : Type 0 where
  pub kind : GatewayFailureKind
  pub source : Option GatewayFailureSource
  pub phase : Option GatewayFailurePhase
  pub cause : Option Cause

-- What a `catch` clause or `signal.reason` holds.
pub data Thrown : Type 0 where
  gateway_failure : GatewayFailure → Thrown
  thrown : Cause → Thrown

-- `new GatewayFailureError({ kind })`
abbrev pub bare : StaticGatewayFailureKind → GatewayFailure
bare kind = record { kind = static kind; source = none; phase = none; cause = none }

abbrev pub originated : GatewayFailureKind → GatewayFailureOrigin → Option Cause → GatewayFailure
originated kind origin cause = record {
  kind = kind;
  source = some origin.source;
  phase = some origin.phase;
  cause = cause;
}

pub data GatewayFailureOutcome : Type 0 where
  client_error authentication_error overloaded upstream_error timeout aborted_outcome
        internal_error :
      GatewayFailureOutcome

pub record GatewayFailurePolicy : Type 0 where
  pub status : ℕ
  pub message : Text
  pub outcome : GatewayFailureOutcome

abbrev policy : ℕ → Text → GatewayFailureOutcome → GatewayFailurePolicy
policy status message outcome = record { status = status; message = message; outcome = outcome }

unfoldable pub failure_policy : StaticGatewayFailureKind → GatewayFailurePolicy
failure_policy invalid_request = policy 400 (text "invalid request") client_error
failure_policy body_too_large = policy 413 (text "request body too large") client_error
failure_policy unsupported_media_type = policy 415 (text "unsupported media type") client_error
failure_policy unsupported_semantics = policy 422 (text "unsupported semantics") client_error
failure_policy authentication = policy 401 (text "authentication failed") authentication_error
failure_policy permission = policy 403 (text "permission denied") authentication_error
failure_policy model_not_found = policy 404 (text "model not found") client_error
failure_policy continuation_conflict =
    policy 409 (text "response continuation is incompatible") client_error
failure_policy continuation_unavailable =
    policy 409 (text "response continuation is unavailable") client_error
failure_policy continuation_persistence =
    policy 500 (text "response continuation could not be saved") internal_error
failure_policy queue_full = policy 503 (text "server overloaded") overloaded
failure_policy queue_timeout = policy 503 (text "server overloaded") overloaded
failure_policy upstream_timeout = policy 504 (text "upstream timeout") timeout
failure_policy upstream_network = policy 502 (text "upstream request failed") upstream_error
failure_policy upstream_stream_error = policy 502 (text "upstream request failed") upstream_error
failure_policy upstream_stream_truncated =
    policy 502 (text "upstream request failed") upstream_error
failure_policy invalid_upstream_response =
    policy 502 (text "invalid upstream response") upstream_error
failure_policy unsupported_upstream_output =
    policy 502 (text "upstream response cannot be converted") upstream_error
failure_policy invalid_tool_arguments = policy 502 (text "invalid upstream response") upstream_error
failure_policy invalid_logprobs = policy 502 (text "invalid upstream response") upstream_error
failure_policy aborted = policy 500 (text "internal error") aborted_outcome
failure_policy internal = policy 500 (text "internal error") internal_error

abbrev pub or_else {ℓ} : {A : Type ℓ} → Option A → A → A
or_else none a = a
or_else (some b) a = b

-- The early return changes nothing that the rest would not leave.
unfoldable pub failure_with_origin : GatewayFailure → GatewayFailureOrigin → GatewayFailure
failure_with_origin failure origin = elim failure.source [
  | some source ↦ elim failure.phase [
    | some phase ↦ failure
    | none ↦ record failure { source = some source; phase = some origin.phase }
  ]
  | none ↦ record failure {
    source = some origin.source;
    phase = some (or_else failure.phase origin.phase);
  }
]

pub record AbortSignal : Type 0 where
  pub aborted : Bool
  pub reason : Thrown

reason_failure : Thrown → GatewayFailureOrigin → GatewayFailure
unfolding failure_with_origin
reason_failure (gateway_failure failure) origin = failure_with_origin failure origin
reason_failure (thrown cause) origin = originated (static aborted) origin none

unfoldable pub failure_from_signal : AbortSignal → GatewayFailureOrigin → GatewayFailure
unfolding reason_failure
failure_from_signal signal origin =
    if signal.aborted
    then reason_failure signal.reason origin
    else originated (static internal) origin none

unfoldable pub failure_from_unknown : Thrown → GatewayFailureOrigin → GatewayFailure
unfolding failure_with_origin
failure_from_unknown (gateway_failure failure) origin = failure_with_origin failure origin
failure_from_unknown (thrown cause) origin = originated (static internal) origin (some cause)

unfoldable pub failure_outcome : GatewayFailureKind → GatewayFailureOutcome
unfolding failure_policy
failure_outcome (upstream_http status retry_after) = upstream_error
failure_outcome (static kind) = (failure_policy kind).outcome

http_status : Number → ℕ
http_status (natural n) = if leb 400 n && leb n 599 then n else 502
http_status negative_or_fraction = 502

unfoldable pub default_failure_status : GatewayFailureKind → ℕ
unfolding failure_policy http_status
default_failure_status (upstream_http status retry_after) = http_status status
default_failure_status (static kind) = (failure_policy kind).status

unfoldable pub safe_failure_message : GatewayFailureKind → Text
unfolding failure_policy
safe_failure_message (upstream_http status retry_after) = text "upstream request failed"
safe_failure_message (static kind) = (failure_policy kind).message
