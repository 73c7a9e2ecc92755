-- ===== src/Gateway/Tests.antt =====
-- The theorems about src/gateway at concrete inputs.
use ghc_gateway.Base.{
  ◌≤◌, ◌+◌, ◌≡◌, refl, true, false, none, some, List, [], ◌∷◌, text, All, map, length, arith,
}
use ghc_gateway.Gateway.Failures.{
  GatewayFailureOrigin, AbortSignal, gateway_failure, upstream_http, natural, upstream_timeout,
  parser, stream, failure_outcome, default_failure_status, failure_from_signal,
  failure_from_unknown, bare, aborted,
}
use ghc_gateway.Gateway.Failures.Policy.{
  Fits, status-Fits, Completed, failure_from_unknown-Reported, failure_from_signal-Reported,
}
use ghc_gateway.Gateway.Failures.RetryAfter.{safe_retry_after, safe_retry_after-IsSafe, IsSafe}
use ghc_gateway.Gateway.Admission.{
  AdmissionController, AdmissionLimits, Event, acquires, resumes, releases, aborts, times_out,
  rejected, release, resume, on_abort, on_timeout, remove_waiter, acquire, close, step, run,
  fresh_controller,
}
use ghc_gateway.Gateway.Admission.Limits.{
  run-WithinQueue, run-WithinActive, overtaking_exceeds_limit,
}
use ghc_gateway.Gateway.Admission.Waiting.{close-refuses}
use ghc_gateway.Gateway.Admission.Answers.{
  count, joined, times_joined, times_served, times_refused, run-answers,
}

status-Fits_example :
    Fits
      (failure_outcome (upstream_http (natural 429) none))
      (default_failure_status (upstream_http (natural 429) none))
status-Fits_example = status-Fits (upstream_http (natural 429) none)

abbrev origin : GatewayFailureOrigin
origin = record { source = parser; phase = stream }

failure_from_unknown-Reported_example :
    Completed
      (bare upstream_timeout)
      origin
      (failure_from_unknown (gateway_failure (bare upstream_timeout)) origin)
failure_from_unknown-Reported_example =
    failure_from_unknown-Reported (gateway_failure (bare upstream_timeout)) origin

abbrev timed_out : AbortSignal
timed_out = record { aborted = true; reason = gateway_failure (bare upstream_timeout) }

failure_from_signal-Reported_example :
    Completed (bare upstream_timeout) origin (failure_from_signal timed_out origin)
failure_from_signal-Reported_example = failure_from_signal-Reported timed_out origin

-- "120"
safe_retry_after-IsSafe_example : (some (text "120") ≡ some (text "120")) × All IsSafe (text "120")
unfolding safe_retry_after
safe_retry_after-IsSafe_example =
    safe_retry_after-IsSafe (λ t. false) (some (text "120")) (text "120") refl

abbrev one_slot : AdmissionLimits
one_slot = record { active_max = 1; queue_max = 2; queue_ms = 30000 }

-- Two requests arrive; the first releases and the second resumes.
abbrev handover : List Event
handover = acquires false 1 0 0 ∷ acquires false 2 5 6 ∷ releases ∷ resumes 2 ∷ []

run-WithinQueue_example : length (run one_slot fresh_controller handover).waiters ≤ 2
run-WithinQueue_example = run-WithinQueue one_slot handover

run-WithinActive_example :
    let c = run one_slot fresh_controller handover in c.active + length c.granted ≤ 1
unfolding step
run-WithinActive_example =
    run-WithinActive one_slot handover (refl, (refl, (omega arith, (tt, tt))))

abbrev busy : AdmissionController
busy = record { active = 1; closed = false; waiters = 7 ∷ []; granted = [] }

overtaking_exceeds_limit_example :
    (run one_slot busy (releases ∷ acquires false 8 0 0 ∷ resumes 7 ∷ [])).active ≡ 2
overtaking_exceeds_limit_example =
    overtaking_exceeds_limit one_slot busy 7 8 0 0 [] refl (omega arith) refl refl refl

-- Two wait behind one that runs; one of them gives up and the other is served.
abbrev queue_of_two : List Event
queue_of_two =
    acquires false 1 0 0
    ∷ acquires false 2 5 6
    ∷ acquires false 3 5 6
    ∷ aborts 2
    ∷ releases
    ∷ times_out 3
    ∷ resumes 3
    ∷ []

run-answers_example :
    let c = run one_slot fresh_controller queue_of_two in
    count 3 c.waiters
      + count 3 c.granted
      + times_served one_slot 3 fresh_controller queue_of_two
      + times_refused one_slot 3 fresh_controller queue_of_two
    ≡ times_joined one_slot 3 fresh_controller queue_of_two
run-answers_example = run-answers one_slot 3 queue_of_two

waiter-joined : times_joined one_slot 3 fresh_controller queue_of_two ≡ 1
unfolding times_joined joined step acquire release resume on_abort on_timeout remove_waiter
waiter-joined = refl

close-refuses_example :
    let shut = run one_slot (close busy).0 (releases ∷ []) in
    ((close busy).1 ≡ map (λ w. (w, bare aborted)) busy.waiters)
    × (shut.waiters ≡ [])
    × (acquire shut one_slot false 3 0 0 ≡ (shut, rejected (bare aborted)))
close-refuses_example = close-refuses one_slot busy (releases ∷ []) false 3 0 0
