-- ===== src/Gateway/Admission/Waiting.antt =====
-- What becomes of a waiter of src/gateway/admission.ts.
use ghc_gateway.Base.{ℕ, ◌≡◌, refl, Bool, true, none, some, List, [], ◌∷◌, map, arith}
use ghc_gateway.Gateway.Failures.{bare, aborted}
use ghc_gateway.Gateway.Admission.{
  AdmissionController, AdmissionLimits, rejected, Event, acquires, resumes, aborts, times_out,
  delay_fails, releases, closes, acquire, remove_waiter, close, step, run,
}

-- A closed controller with an empty queue.
abbrev pub Shut : AdmissionController → Type 0
Shut c = (c.closed ≡ true) × (c.waiters ≡ [])

step-Shut :
    (limits : AdmissionLimits) (c : AdmissionController) (e : Event)
    → Shut c
    → Shut (step limits c e)
unfolding step remove_waiter
step-Shut limits c (acquires signal_aborted waiter now later) h = ground arith
step-Shut limits c (resumes v) h = ground arith
step-Shut limits c (aborts v) h = ground arith
step-Shut limits c (times_out v) h = ground arith
step-Shut limits c (delay_fails v none) h = ground arith
step-Shut limits c (delay_fails v (some failure)) h = ground arith
step-Shut limits c releases h = ground arith
step-Shut limits c closes h = ground arith

run-Shut :
    (limits : AdmissionLimits) (c : AdmissionController) (es : List Event)
    → Shut c
    → Shut (run limits c es)
unfolding run
run-Shut limits c [] h = h
run-Shut limits c (e ∷ es) h = run-Shut limits (step limits c e) es (step-Shut limits c e h)

-- Closing rejects exactly the waiters that were queued, as aborted, and from then on, after any
-- events, every request is refused as aborted and nothing changes by it.
pub close-refuses :
    (limits : AdmissionLimits) (c : AdmissionController) (es : List Event) (signal_aborted : Bool)
    (waiter now later : ℕ)
    → let shut = run limits (close c).0 es in
      ((close c).1 ≡ map (λ w. (w, bare aborted)) c.waiters)
      × (shut.waiters ≡ [])
      × (acquire shut limits signal_aborted waiter now later ≡ (shut, rejected (bare aborted)))
unfolding close acquire
close-refuses limits c es signal_aborted waiter now later =
    let h = run-Shut limits (close c).0 es (refl, refl) in (refl, h.1, rw h.0)
