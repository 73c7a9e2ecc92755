-- ===== src/Copilot/PoolEntry/Closing.antt =====
-- An entry of src/copilot/inference_pool.ts that has been closed.
use ghc_gateway.Base.{
  ℕ, ◌-◌, ◌≤◌, ◌≡◌, refl, ap, ◌∙◌, Bool, true, false, not, ◌&&◌, Option, none, some, List, [], ◌∷◌,
  length, if◌then◌else◌, if-cases, arith,
}
use ghc_gateway.Copilot.PoolEntry.{
  InferencePoolLimits, InferencePoolEntry, is_none, idle, touch, schedule_idle, Acquired,
  aborted_error, closed_error, acquire_slot, remove_lease, holds, give_up, pass_on, release_lease,
  ready_or_pending, Dispatching, refused_closed, get_dispatcher, created, creation_failed, same_one,
  creation_settled, close_awaited, Rejected, close_known, close_dispatcher, close_entry,
  close_finished, force_close, EntryEvent, acquires, gives_up, releases, touches, asks_dispatcher,
  creates, close_finishes, creation_settles, close_awaits, fails, closes, force_closes, step,
  run_entry,
}
use ghc_gateway.Copilot.PoolEntry.Slots.{remove_lease-shorter}

-- Closed, with nobody waiting and at most `most` leases left.
abbrev Shut : ℕ → InferencePoolEntry → Type 0
Shut most e = (e.closed ≡ true) × (e.waiters ≡ []) × (length e.leases ≤ most)

module _ (most : ℕ) where
  if_idle-Shut :
      (e : InferencePoolEntry) (now : ℕ)
      → Shut most e
      → Shut most (if idle e then schedule_idle e now else e)
  unfolding schedule_idle touch
  if_idle-Shut e now h =
      if-cases (Shut most) (idle e) (schedule_idle e now) e
        (λ _.
          if-cases (Shut most) (not (idle e)) (touch e now) _ (λ _. h)
            λ _.
              if-cases (Shut most) e.closed (touch e now)
                (record (touch e now) { idle_timer = true }) (λ _. h) (λ _. h))
        (λ _. h)

  acquire_slot-Shut :
      (limits : InferencePoolLimits) (e : InferencePoolEntry) (signal_aborted : Bool)
      (lease now timeout_ms : ℕ)
      → Shut most e
      → Shut most (acquire_slot limits e signal_aborted lease now timeout_ms).0
  unfolding acquire_slot
  acquire_slot-Shut limits e signal_aborted lease now timeout_ms h =
      if-cases After signal_aborted (e, aborted_error) _ (λ _. h)
        λ _.
          if-cases After e.closed (e, closed_error) _ (λ _. h)
            (λ still_open. let shut = h.0 in ground arith)
    where
      After : InferencePoolEntry × Acquired → Type 0
      After p = Shut most p.0

  give_up-Shut : (e : InferencePoolEntry) (waiter : ℕ) → Shut most e → Shut most (give_up e waiter)
  unfolding give_up
  give_up-Shut e waiter (shut, nobody, few) =
      (shut, ap (remove_lease waiter) nobody ∙ (unfold remove_lease in refl), few)

  pass_on-Shut : (e : InferencePoolEntry) (now : ℕ) → Shut most e → Shut most (pass_on e now)
  unfolding pass_on
  pass_on-Shut e now (shut, nobody, few) = by_waiters e.waiters nobody
    where
      by_waiters :
          (waiters : List ℕ)
          → waiters ≡ []
          → Shut most (pass_on (record e { waiters = waiters }) now)
      by_waiters [] h =
          if_idle-Shut (record e { waiters = []; active = e.active - 1 }) now (shut, refl, few)
      by_waiters (waiter ∷ rest) h = ground arith

  release_lease-Shut :
      (e : InferencePoolEntry) (lease now : ℕ) → Shut most e → Shut most (release_lease e lease now)
  unfolding release_lease
  release_lease-Shut e lease now h =
      if-cases (Shut most) (holds e.leases lease)
        (pass_on (record e { leases = remove_lease lease e.leases; last_used_ms = now }) now) e
        (λ held.
          let shorter = remove_lease-shorter lease e.leases in
          let few = h.2 in
          pass_on-Shut (record e { leases = remove_lease lease e.leases; last_used_ms = now }) now
            (h.0, h.1, omega arith))
        (λ _. h)

  get_dispatcher-Shut :
      (e : InferencePoolEntry) (promise : ℕ) → Shut most e → Shut most (get_dispatcher e promise).0
  unfolding get_dispatcher
  get_dispatcher-Shut e promise h =
      if-cases After e.closed (e, refused_closed) (ready_or_pending e.dispatcher e promise) (λ _. h)
        (λ _. asked e.dispatcher e.dispatcher_promise)
    where
      After : InferencePoolEntry × Dispatching → Type 0
      After p = Shut most p.0

      asked :
          (known pending : Option ℕ)
          → After (ready_or_pending known (record e { dispatcher_promise = pending }) promise)
      asked none none = h
      asked none (some pending) = h
      asked (some dispatcher) pending = h

  close_awaited-Shut :
      (e : InferencePoolEntry) (awaited : Option ℕ)
      → Shut most e
      → Shut most (close_awaited e awaited)
  unfolding close_awaited
  close_awaited-Shut e none h = h
  close_awaited-Shut e (some dispatcher) h =
      if-cases (Shut most) e.force_closed
        (record e { closing_dispatcher_promise = none; dispatcher = none }) _ (λ _. h) (λ _. h)

  close_entry-Shut : (e : InferencePoolEntry) → Shut most e → Shut most (close_entry e).0
  unfolding close_entry close_dispatcher
  close_entry-Shut e h =
      if-cases After e.close_started (e, []) (close_dispatcher (record e { close_started = true }))
        (λ _. h)
        λ _.
          if-cases After (e.closed && is_none e.dispatcher && is_none e.dispatcher_promise)
            (record e { close_started = true }, []) _ (λ _. h)
            (λ _. known _ e.dispatcher (refl, refl, h.2))
    where
      After : InferencePoolEntry × Rejected → Type 0
      After p = Shut most p.0

      known : (f : InferencePoolEntry) (o : Option ℕ) → Shut most f → Shut most (close_known f o)
      known f none k = k
      known f (some dispatcher) k = close_awaited-Shut f (some dispatcher) k

  step-Shut :
      (limits : InferencePoolLimits) (e : InferencePoolEntry) (event : EntryEvent)
      → Shut most e
      → Shut most (step limits e event)
  unfolding step touch created creation_failed creation_settled close_finished force_close
  step-Shut limits e (acquires signal_aborted lease now timeout_ms) h =
      acquire_slot-Shut limits e signal_aborted lease now timeout_ms h
  step-Shut limits e (gives_up waiter) h = give_up-Shut e waiter h
  step-Shut limits e (releases lease now) h = release_lease-Shut e lease now h
  step-Shut limits e (touches now) h = h
  step-Shut limits e (asks_dispatcher promise) h = get_dispatcher-Shut e promise h
  step-Shut limits e (creates dispatcher) h =
      if-cases (Shut most) e.closed (record e { failed_initialization = false }) _ (λ _. h) (λ _. h)
  step-Shut limits e (creation_settles promise now) h =
      if_idle-Shut
        (if same_one e.dispatcher_promise promise
          then record e { dispatcher_promise = none }
          else e)
        now
        (if-cases (Shut most) (same_one e.dispatcher_promise promise)
          (record e { dispatcher_promise = none }) e (λ _. h) (λ _. h))
  step-Shut limits e (close_awaits awaited) h = close_awaited-Shut e awaited h
  step-Shut limits e (close_finishes dispatcher) h =
      if-cases (Shut most) (same_one e.closing_dispatcher dispatcher)
        (record e { closing_dispatcher = none }) e (λ _. h) (λ _. h)
  step-Shut limits e fails h = h
  step-Shut limits e closes h = close_entry-Shut e h
  step-Shut limits e force_closes (shut, nobody, few) = (refl, refl, few)

  run_entry-Shut :
      (limits : InferencePoolLimits) (e : InferencePoolEntry) (events : List EntryEvent)
      → Shut most e
      → Shut most (run_entry limits e events)
  unfolding run_entry
  run_entry-Shut limits e [] h = h
  run_entry-Shut limits e (event ∷ events) h =
      run_entry-Shut limits (step limits e event) events (step-Shut limits e event h)

-- An entry that is closed and where nobody waits stays so, whatever happens to it: it gives out no
-- further lease.
pub run_entry-closed :
    (limits : InferencePoolLimits) (e : InferencePoolEntry) (events : List EntryEvent)
    → e.closed ≡ true
    → e.waiters ≡ []
    → ((run_entry limits e events).closed ≡ true)
      × ((run_entry limits e events).waiters ≡ [])
      × (length (run_entry limits e events).leases ≤ length e.leases)
run_entry-closed limits e events shut nobody =
    run_entry-Shut (length e.leases) limits e events (shut, nobody, omega arith)
