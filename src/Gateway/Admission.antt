-- ===== src/Gateway/Admission.antt =====
-- src/gateway/admission.ts: `AdmissionController`, which bounds the requests that run and that wait.
--
-- A waiter is a number that names its promise. JavaScript runs `resolve()` of a waiter at once but
-- the rest of its `acquire`, `this.active += 1`, only in a later microtask: `granted`, which is not a
-- field of the class, holds the waiters between the two. A history has one set of limits, where the
-- class is handed a snapshot with each call.
pub mod Limits
pub mod Waiting
pub mod Answers
use ghc_gateway.Base.{
  ℕ, zero, suc, ◌+◌, ◌-◌, Bool, true, false, ◌||◌, Option, none, some, List, [], ◌∷◌, ◌++◌, map,
  length, any, keep, not, ltb, leb, ◌==◌, if◌then◌else◌,
}
use ghc_gateway.Gateway.Failures.{
  StaticGatewayFailureKind, GatewayFailure, bare, aborted, queue_full, queue_timeout,
}

-- `snapshot.admission` and `snapshot.timeouts.queueMs`
pub record AdmissionLimits : Type 0 where
  pub active_max : ℕ
  pub queue_max : ℕ
  pub queue_ms : ℕ

pub record AdmissionController : Type 0 where
  pub active : ℕ
  pub closed : Bool
  pub waiters : List ℕ
  pub granted : List ℕ

abbrev pub fresh_controller : AdmissionController
fresh_controller = record { active = 0; closed = false; waiters = []; granted = [] }

-- How `acquire` leaves its caller: with a slot, with an error, or waiting under a timer.
pub data Acquired : Type 0 where
  slot : Acquired
  rejected : GatewayFailure → Acquired
  waiting : ℕ → Acquired

-- `waitForSlot`: the deadline is set at `now` and the timer is armed at `later`.
wait_for_slot : AdmissionController → AdmissionLimits → ℕ → ℕ → ℕ → AdmissionController × Acquired
wait_for_slot c limits waiter now later =
    let deadline = now + limits.queue_ms in
    (record c { waiters = c.waiters ++ waiter ∷ [] }, waiting (deadline - later))

unfoldable pub acquire :
    AdmissionController
    → AdmissionLimits
    → (signal_aborted : Bool) (waiter now later : ℕ) → AdmissionController × Acquired
unfolding wait_for_slot
acquire c limits signal_aborted waiter now later =
    if c.closed || signal_aborted
    then (c, rejected (bare aborted))
    else if ltb c.active limits.active_max
    then (record c { active = c.active + 1 }, slot)
    else if leb limits.queue_max (length c.waiters)
    then (c, rejected (bare queue_full))
    else wait_for_slot c limits waiter now later

unfoldable pub remove_waiter : ℕ → List ℕ → List ℕ
remove_waiter waiter [] = []
remove_waiter waiter (w ∷ ws) = if w == waiter then ws else w ∷ remove_waiter waiter ws

abbrev pub includes : List ℕ → ℕ → Bool
includes ws waiter = any (λ w. w == waiter) ws

-- `await this.waitForSlot(…); this.active += 1`, for a waiter that was granted a slot.
unfoldable pub resume : AdmissionController → ℕ → AdmissionController
unfolding remove_waiter
resume c waiter =
    if includes c.granted waiter
    then record c { active = c.active + 1; granted = remove_waiter waiter c.granted }
    else c

-- `Math.max(0, this.active - 1)`, then the oldest waiter is resolved.
unfoldable pub release : AdmissionController → AdmissionController
release c = elim c.waiters [
  | [] ↦ record c { active = c.active - 1 }
  | next ∷ rest ↦ record c {
    active = c.active - 1;
    waiters = rest;
    granted = c.granted ++ next ∷ [];
  }
]

-- A rejected promise: the waiter and its failure.
abbrev pub Rejections : Type 0
Rejections = List (ℕ × GatewayFailure)

-- A waiter that has left the queue is not rejected: the timer's callbacks ask for it, and on an
-- abort its promise is settled already, so that `reject` does nothing.
reject_waiter : AdmissionController → ℕ → GatewayFailure → AdmissionController × Rejections
unfolding remove_waiter
reject_waiter c waiter failure =
    if includes c.waiters waiter
    then (record c { waiters = remove_waiter waiter c.waiters }, (waiter, failure) ∷ [])
    else (c, [])

-- The listener on the caller's signal.
unfoldable pub on_abort : AdmissionController → ℕ → AdmissionController × Rejections
unfolding reject_waiter
on_abort c waiter = reject_waiter c waiter (bare aborted)

-- The timer's delay has passed.
unfoldable pub on_timeout : AdmissionController → ℕ → AdmissionController × Rejections
unfolding reject_waiter
on_timeout c waiter = reject_waiter c waiter (bare queue_timeout)

-- The timer's delay failed, with a gateway failure or with another error.
unfoldable pub on_delay_error :
    AdmissionController → ℕ → Option GatewayFailure → AdmissionController × Rejections
unfolding reject_waiter
on_delay_error c waiter none = reject_waiter c waiter (bare aborted)
on_delay_error c waiter (some failure) = reject_waiter c waiter failure

unfoldable pub close : AdmissionController → AdmissionController × Rejections
close c = (record c { closed = true; waiters = [] }, map (λ w. (w, bare aborted)) c.waiters)

-- One turn of the event loop.
pub data Event : Type 0 where
  acquires : Bool → ℕ → ℕ → ℕ → Event
  resumes aborts times_out : ℕ → Event
  delay_fails : ℕ → Option GatewayFailure → Event
  releases closes : Event

unfoldable pub step : AdmissionLimits → AdmissionController → Event → AdmissionController
unfolding acquire resume release on_abort on_timeout on_delay_error close
step limits c (acquires signal_aborted waiter now later) =
    (acquire c limits signal_aborted waiter now later).0
step limits c (resumes waiter) = resume c waiter
step limits c (aborts waiter) = (on_abort c waiter).0
step limits c (times_out waiter) = (on_timeout c waiter).0
step limits c (delay_fails waiter failure) = (on_delay_error c waiter failure).0
step limits c releases = release c
step limits c closes = (close c).0

unfoldable pub run : AdmissionLimits → AdmissionController → List Event → AdmissionController
unfolding step
run limits c [] = c
run limits c (e ∷ es) = run limits (step limits c e) es
