-- ===== src/Gateway/Admission/Answers.antt =====
-- How the waiters of src/gateway/admission.ts are answered.
use ghc_gateway.Base.{
  ℕ, ◌+◌, ◌≡◌, refl, true, none, some, List, [], ◌∷◌, ◌++◌, map, ltb, ◌==◌, if◌then◌else◌, inl, inr,
  Bool-cases, arith,
}
use ghc_gateway.Gateway.Failures.{GatewayFailure, bare, aborted, queue_timeout}
use ghc_gateway.Gateway.Admission.{
  AdmissionController, AdmissionLimits, fresh_controller, Acquired, slot, rejected, waiting, Event,
  acquires, resumes, aborts, times_out, delay_fails, releases, closes, acquire, remove_waiter,
  includes, resume, release, close, step, run, Rejections, reject_waiter, on_abort, on_timeout,
  on_delay_error,
}

abbrev pub count : ℕ → List ℕ → ℕ
count w [] = 0
count w (v ∷ ws) = (if v == w then 1 else 0) + count w ws

-- The waiters of rejected promises.
abbrev pub names : Rejections → List ℕ
names [] = []
names ((waiter, failure) ∷ rest) = waiter ∷ names rest

abbrev queued : Acquired → ℕ → List ℕ
queued slot waiter = []
queued (rejected failure) waiter = []
queued (waiting ms) waiter = waiter ∷ []

-- The waiter that an event puts into the queue.
unfoldable pub joined : AdmissionLimits → AdmissionController → Event → List ℕ
joined limits c (acquires signal_aborted waiter now later) =
    queued (acquire c limits signal_aborted waiter now later).1 waiter
joined limits c _ = []

-- The waiter whose `acquire` returns with a slot.
unfoldable pub served : AdmissionController → Event → List ℕ
served c (resumes waiter) = if ltb c.active (resume c waiter).active then waiter ∷ [] else []
served c _ = []

-- The waiters whose promise is rejected.
unfoldable pub refused : AdmissionController → Event → Rejections
refused c (aborts waiter) = (on_abort c waiter).1
refused c (times_out waiter) = (on_timeout c waiter).1
refused c (delay_fails waiter failure) = (on_delay_error c waiter failure).1
refused c closes = (close c).1
refused c _ = []

-- How often each happened to a waiter in a history.
unfoldable pub times_joined : AdmissionLimits → ℕ → AdmissionController → List Event → ℕ
times_joined limits w c [] = 0
times_joined limits w c (e ∷ es) =
    count w (joined limits c e) + times_joined limits w (step limits c e) es

unfoldable pub times_served : AdmissionLimits → ℕ → AdmissionController → List Event → ℕ
times_served limits w c [] = 0
times_served limits w c (e ∷ es) = count w (served c e) + times_served limits w (step limits c e) es

unfoldable pub times_refused : AdmissionLimits → ℕ → AdmissionController → List Event → ℕ
times_refused limits w c [] = 0
times_refused limits w c (e ∷ es) =
    count w (names (refused c e)) + times_refused limits w (step limits c e) es

count-append : (w : ℕ) (vs ws : List ℕ) → count w (vs ++ ws) ≡ count w vs + count w ws
count-append w [] ws = omega arith
count-append w (v ∷ vs) ws = omega (arith, count-append w vs ws)

count-remove_waiter :
    (w v : ℕ) (ws : List ℕ)
    → includes ws v ≡ true
    → count w (remove_waiter v ws) + (if v == w then 1 else 0) ≡ count w ws
unfolding remove_waiter
count-remove_waiter w v [] h = cc
count-remove_waiter w v (u ∷ ws) h = ground (arith, count-remove_waiter w v ws)

count-aborted :
    (w : ℕ) (ws : List ℕ) → count w (names (map (λ v. (v, bare aborted)) ws)) ≡ count w ws
count-aborted w [] = refl
count-aborted w (v ∷ ws) = omega (arith, count-aborted w ws)

-- The waiters that are not answered yet.
abbrev open_waits : ℕ → AdmissionController → ℕ
open_waits w c = count w c.waiters + count w c.granted

-- An event answers a waiter, or leaves it waiting, or lets it join.
abbrev Balanced : AdmissionLimits → ℕ → AdmissionController → Event → Type 0
Balanced limits w c e =
    open_waits w (step limits c e) + count w (served c e) + count w (names (refused c e))
    ≡ open_waits w c + count w (joined limits c e)

reject_waiter-balance :
    (w v : ℕ) (failure : GatewayFailure) (c : AdmissionController)
    → open_waits w (reject_waiter c v failure).0 + count w (names (reject_waiter c v failure).1)
      ≡ open_waits w c
unfolding reject_waiter
reject_waiter-balance w v failure c = elim (Bool-cases (includes c.waiters v)) [
  | inl there ↦ rw (there) (omega (arith, count-remove_waiter w v c.waiters there))
  | inr gone ↦ rw (gone) (omega arith)
]

step-Balanced :
    (limits : AdmissionLimits) (w : ℕ) (c : AdmissionController) (e : Event) → Balanced limits w c e
unfolding step joined served refused
step-Balanced limits w c (acquires signal_aborted waiter now later) =
    ground (arith, count-append w c.waiters (waiter ∷ []))
step-Balanced limits w c (resumes v) = ground (arith, count-remove_waiter w v c.granted)
step-Balanced limits w c (aborts v) =
    let known = reject_waiter-balance w v (bare aborted) c in omega arith
step-Balanced limits w c (times_out v) =
    let known = reject_waiter-balance w v (bare queue_timeout) c in omega arith
step-Balanced limits w c (delay_fails v none) =
    let known = reject_waiter-balance w v (bare aborted) c in omega arith
step-Balanced limits w c (delay_fails v (some failure)) =
    let known = reject_waiter-balance w v failure c in omega arith
step-Balanced limits w c releases = by_waiters c.waiters
  where
    by_waiters : (ws : List ℕ) → Balanced limits w (record c { waiters = ws }) releases
    by_waiters [] = unfold release in omega arith
    by_waiters (v ∷ ws) = unfold release in omega (arith, count-append w c.granted (v ∷ []))
step-Balanced limits w c closes = omega (arith, count-aborted w c.waiters)

run_from-balance :
    (limits : AdmissionLimits) (w : ℕ) (c : AdmissionController) (es : List Event)
    → open_waits w (run limits c es) + times_served limits w c es + times_refused limits w c es
      ≡ open_waits w c + times_joined limits w c es
unfolding run times_joined times_served times_refused
run_from-balance limits w c [] = omega arith
run_from-balance limits w c (e ∷ es) =
    let first = step-Balanced limits w c e in
    let rest = run_from-balance limits w (step limits c e) es in omega arith

-- No waiter is lost and none is answered twice: after any history under one configuration, a waiter
-- is still in the queue, or woken and about to resume, or has been given a slot, or has been
-- rejected, once for each time that it joined the queue.
pub run-answers :
    (limits : AdmissionLimits) (w : ℕ) (es : List Event)
    → let c = run limits fresh_controller es in
      count w c.waiters
        + count w c.granted
        + times_served limits w fresh_controller es
        + times_refused limits w fresh_controller es
      ≡ times_joined limits w fresh_controller es
run-answers limits w es = let known = run_from-balance limits w fresh_controller es in omega arith
