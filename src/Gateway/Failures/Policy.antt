-- ===== src/Gateway/Failures/Policy.antt =====
-- What the policy of src/gateway/failures.ts guarantees about every presented failure.
use ghc_gateway.Base.{
  ℕ, ◌≤◌, Bool, true, false, ◌<◌, ◌≡◌, ◌⊎◌, Option, none, some, arith, if◌then◌else◌,
}
use ghc_gateway.Gateway.Failures.{
  GatewayFailure, GatewayFailureKind, GatewayFailureOrigin, GatewayFailureOutcome, Thrown,
  AbortSignal, static, invalid_request, aborted, internal, or_else, Cause, upstream_http, natural,
  negative_or_fraction, client_error, authentication_error, overloaded, upstream_error, timeout,
  aborted_outcome, internal_error, gateway_failure, thrown, failure_with_origin,
  failure_from_signal, failure_from_unknown, failure_outcome, default_failure_status,
}

-- The statuses that an outcome may be presented with.
abbrev pub Fits : GatewayFailureOutcome → ℕ → Type 0
Fits client_error s = (400 ≤ s) × (s < 500)
Fits authentication_error s = (s ≡ 401) ⊎ (s ≡ 403)
Fits overloaded s = s ≡ 503
Fits upstream_error s = (400 ≤ s) × (s ≤ 599)
Fits timeout s = s ≡ 504
Fits aborted_outcome s = s ≡ 500
Fits internal_error s = s ≡ 500

-- The status of every failure fits the outcome that is recorded for it.
pub status-Fits :
    (kind : GatewayFailureKind) → Fits (failure_outcome kind) (default_failure_status kind)
unfolding failure_outcome default_failure_status
status-Fits (upstream_http (natural n) retry_after) = ground arith
status-Fits (upstream_http negative_or_fraction retry_after) = omega arith
status-Fits (static invalid_request) = omega arith
status-Fits (static _) = ground arith

-- `failure` with what it lacks taken from `origin`, and nothing else changed.
pub record Completed (failure : GatewayFailure) (origin : GatewayFailureOrigin)
    (done : GatewayFailure) : Type 0 where
  pub same_kind : done.kind ≡ failure.kind
  pub same_cause : done.cause ≡ failure.cause
  pub own_source : done.source ≡ some (or_else failure.source origin.source)
  pub own_phase : done.phase ≡ some (or_else failure.phase origin.phase)

pub failure_with_origin-Completed :
    (failure : GatewayFailure) (origin : GatewayFailureOrigin)
    → Completed failure origin (failure_with_origin failure origin)
unfolding failure_with_origin
failure_with_origin-Completed failure origin = ground arith

-- What a reported error comes to: the failure that it carries, or one of the kind `otherwise`.
abbrev pub Reported :
    GatewayFailureKind → Option Cause → GatewayFailureOrigin → Thrown → GatewayFailure → Type 0
Reported otherwise cause origin (gateway_failure failure) done = Completed failure origin done
Reported otherwise cause origin (thrown other) done =
    Completed (record { kind = otherwise; source = none; phase = none; cause = cause }) origin done

abbrev cause_of : Thrown → Option Cause
cause_of (gateway_failure failure) = none
cause_of (thrown cause) = some cause

-- Every caught error is reported with a source and a phase: a gateway failure keeps its kind, its
-- cause and the source and phase it already has; anything else becomes `internal` at the origin and
-- is kept as the cause.
pub failure_from_unknown-Reported :
    (error : Thrown) (origin : GatewayFailureOrigin)
    → Reported (static internal) (cause_of error) origin error (failure_from_unknown error origin)
unfolding failure_from_unknown
failure_from_unknown-Reported (gateway_failure failure) origin =
    failure_with_origin-Completed failure origin
failure_from_unknown-Reported (thrown cause) origin = ground arith

-- An aborted signal reports its reason the same way, with `aborted` for a foreign reason; a signal
-- that is not aborted reports `internal`.
pub failure_from_signal-Reported :
    (signal : AbortSignal) (origin : GatewayFailureOrigin)
    → (if signal.aborted
        then Reported (static aborted) none origin signal.reason (failure_from_signal signal origin)
        else Completed
            (record { kind = static internal; source = none; phase = none; cause = none })
            origin
            (failure_from_signal signal origin))
unfolding failure_from_signal
failure_from_signal-Reported signal origin = go signal.aborted signal.reason
  where
    go :
        (a : Bool) (r : Thrown)
        → (if a
            then Reported
                (static aborted)
                none
                origin
                r
                (failure_from_signal (record { aborted = a; reason = r }) origin)
            else Completed
                (record { kind = static internal; source = none; phase = none; cause = none })
                origin
                (failure_from_signal (record { aborted = a; reason = r }) origin))
    go false r = ground arith
    go true (gateway_failure failure) = failure_with_origin-Completed failure origin
    go true (thrown cause) = ground arith
