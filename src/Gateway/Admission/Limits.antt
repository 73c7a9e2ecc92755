-- ===== src/Gateway/Admission/Limits.antt =====
-- The bounds that src/gateway/admission.ts keeps, and the one that it keeps only if no request is
-- admitted between a release and the waiter that it woke.
use ghc_gateway.Base.{
  ℕ, suc, ◌+◌, ◌≤◌, ◌<◌, ◌≡◌, refl, true, false, none, some, List, [], ◌∷◌, ap, length,
  length-append, arith,
}
use ghc_gateway.Gateway.Admission.{
  AdmissionController, AdmissionLimits, Event, acquires, resumes, aborts, times_out, delay_fails,
  releases, closes, remove_waiter, includes, release, step, run, fresh_controller,
}

pub length-remove_waiter : (w : ℕ) (ws : List ℕ) → length (remove_waiter w ws) ≤ length ws
unfolding remove_waiter
length-remove_waiter w [] = omega arith
length-remove_waiter w (v ∷ ws) = ground (arith, length-remove_waiter w ws)

length-remove_waiter_found :
    (w : ℕ) (ws : List ℕ) → includes ws w ≡ true → suc (length (remove_waiter w ws)) ≡ length ws
unfolding remove_waiter
length-remove_waiter_found w [] h = cc
length-remove_waiter_found w (v ∷ ws) h = ground (arith, length-remove_waiter_found w ws)

abbrev pub WithinQueue : AdmissionLimits → AdmissionController → Type 0
WithinQueue limits c = length c.waiters ≤ limits.queue_max

step-WithinQueue :
    (limits : AdmissionLimits) (c : AdmissionController) (e : Event)
    → WithinQueue limits c
    → WithinQueue limits (step limits c e)
unfolding step
step-WithinQueue limits c (acquires signal_aborted waiter now later) h =
    ground (arith, length-append {0} c.waiters (waiter ∷ []))
step-WithinQueue limits c (resumes waiter) h = ground arith
step-WithinQueue limits c (aborts waiter) h = ground (arith, length-remove_waiter waiter c.waiters)
step-WithinQueue limits c (times_out waiter) h =
    ground (arith, length-remove_waiter waiter c.waiters)
step-WithinQueue limits c (delay_fails waiter none) h =
    ground (arith, length-remove_waiter waiter c.waiters)
step-WithinQueue limits c (delay_fails waiter (some failure)) h =
    ground (arith, length-remove_waiter waiter c.waiters)
step-WithinQueue limits c releases h = ground arith
step-WithinQueue limits c closes h = ground arith

run_from-WithinQueue :
    (limits : AdmissionLimits) (c : AdmissionController) (es : List Event)
    → WithinQueue limits c
    → WithinQueue limits (run limits c es)
unfolding run
run_from-WithinQueue limits c [] h = h
run_from-WithinQueue limits c (e ∷ es) h =
    run_from-WithinQueue limits (step limits c e) es (step-WithinQueue limits c e h)

-- After any history under one configuration, at most `queue_max` requests wait.
pub run-WithinQueue :
    (limits : AdmissionLimits) (es : List Event)
    → length (run limits fresh_controller es).waiters ≤ limits.queue_max
run-WithinQueue limits es = run_from-WithinQueue limits fresh_controller es (omega arith)

-- Slots are released by their holders, and no request arrives between a release and the waiter
-- that it woke.
abbrev pub Calm : AdmissionController → Event → Type 0
Calm c (acquires signal_aborted waiter now later) = c.granted ≡ []
Calm c releases = 0 < c.active
Calm c _ = Unit {0}

abbrev pub AlwaysCalm : AdmissionLimits → AdmissionController → List Event → Type 0
AlwaysCalm limits c [] = Unit {0}
AlwaysCalm limits c (e ∷ es) = Calm c e × AlwaysCalm limits (step limits c e) es

abbrev pub WithinActive : AdmissionLimits → AdmissionController → Type 0
WithinActive limits c = c.active + length c.granted ≤ limits.active_max

step-WithinActive :
    (limits : AdmissionLimits) (c : AdmissionController) (e : Event)
    → Calm c e
    → WithinActive limits c
    → WithinActive limits (step limits c e)
unfolding step
step-WithinActive limits c (acquires signal_aborted waiter now later) calm h =
    ground (arith, ap (length {0}) calm)
step-WithinActive limits c (resumes waiter) calm h =
    ground (arith, length-remove_waiter_found waiter c.granted)
step-WithinActive limits c (aborts waiter) calm h = ground arith
step-WithinActive limits c (times_out waiter) calm h = ground arith
step-WithinActive limits c (delay_fails waiter none) calm h = ground arith
step-WithinActive limits c (delay_fails waiter (some failure)) calm h = ground arith
step-WithinActive limits c releases calm h = release_within c.waiters refl
  where
    release_within : (ws : List ℕ) → c.waiters ≡ ws → WithinActive limits (release c)
    release_within [] e = rw (e, release) (omega arith)
    release_within (w ∷ ws) e =
        rw (e, release) (omega (arith, length-append {0} c.granted (w ∷ [])))
step-WithinActive limits c closes calm h = ground arith

run_from-WithinActive :
    (limits : AdmissionLimits) (c : AdmissionController) (es : List Event)
    → AlwaysCalm limits c es
    → WithinActive limits c
    → WithinActive limits (run limits c es)
unfolding run
run_from-WithinActive limits c [] calm h = h
run_from-WithinActive limits c (e ∷ es) calm h =
    run_from-WithinActive limits (step limits c e) es calm.1 (step-WithinActive limits c e calm.0 h)

-- Under one configuration, if slots are released only by their holders, and no request arrives between a release and the
-- waiter that it woke, then running and woken requests together never exceed `active_max`.
pub run-WithinActive :
    (limits : AdmissionLimits) (es : List Event)
    → AlwaysCalm limits fresh_controller es
    → let c = run limits fresh_controller es in c.active + length c.granted ≤ limits.active_max
run-WithinActive limits es calm =
    run_from-WithinActive limits fresh_controller es calm (omega arith)

-- Without that order the bound fails: from any open controller that runs `active_max` requests while
-- one waits, a release, an arrival and the woken waiter leave `active_max + 1` requests running.
pub overtaking_exceeds_limit :
    (limits : AdmissionLimits) (c : AdmissionController) (w arrival now later : ℕ) (ws : List ℕ)
    → c.closed ≡ false
    → 0 < limits.active_max
    → c.active ≡ limits.active_max
    → c.granted ≡ []
    → c.waiters ≡ w ∷ ws
    → (run limits c (releases ∷ acquires false arrival now later ∷ resumes w ∷ [])).active
      ≡ limits.active_max + 1
unfolding run
overtaking_exceeds_limit limits c w arrival now later ws open_ pos full none_granted queued =
    ground arith
