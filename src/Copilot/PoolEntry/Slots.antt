-- ===== src/Copilot/PoolEntry/Slots.antt =====
-- The connections of an entry of src/copilot/inference_pool.ts: who holds them and who waits.
use ghc_gateway.Base.{
  ℕ, suc, ◌+◌, ◌-◌, ◌≤◌, ◌≡◌, refl, sym, ap, ◌∙◌, ◌⊎◌, inl, inr, Bool, true, false, not, ◌&&◌,
  Option, none, some, List, [], ◌∷◌, ◌++◌, length, length-append, max, ltb, leb, if◌then◌else◌,
  if-cases, arith,
}
use ghc_gateway.Copilot.PoolEntry.{
  InferencePoolLimits, InferencePoolEntry, new_entry, is_none, idle, touch, schedule_idle, Acquired,
  leased, aborted_error, closed_error, saturated_error, waits, acquire_slot, remove_lease, holds,
  give_up, pass_on, release_lease, ready_or_pending, Dispatching, refused_closed, get_dispatcher,
  created, creation_failed, same_one, creation_settled, close_awaited, Rejected, close_known,
  close_dispatcher, close_entry, close_finished, force_close, EntryEvent, acquires, gives_up,
  releases, touches, asks_dispatcher, creates, close_finishes, creation_settles, close_awaits,
  fails, closes, force_closes, step, run_entry,
}

-- Every connection that counts as active is leased, the bounds are kept, and nobody waits while a
-- connection is free.
abbrev pub Served : InferencePoolLimits → ℕ → List ℕ → List ℕ → Type 0
Served limits active leases waiters =
    (active ≡ length leases)
    × (active ≤ limits.connections_per_entry)
    × (length waiters ≤ limits.max_waiters_per_entry)
    × ((waiters ≡ []) ⊎ (limits.connections_per_entry ≤ active))

abbrev pub AllServed : InferencePoolLimits → InferencePoolEntry → Type 0
AllServed limits e = Served limits e.active e.leases e.waiters

length-remove_lease :
    (lease : ℕ) (leases : List ℕ)
    → holds leases lease ≡ true
    → suc (length (remove_lease lease leases)) ≡ length leases
unfolding remove_lease
length-remove_lease lease [] h = cc
length-remove_lease lease (l ∷ leases) h = ground (arith, length-remove_lease lease leases)

pub remove_lease-shorter :
    (lease : ℕ) (leases : List ℕ) → length (remove_lease lease leases) ≤ length leases
unfolding remove_lease
remove_lease-shorter lease [] = omega arith
remove_lease-shorter lease (l ∷ leases) = ground (arith, remove_lease-shorter lease leases)

module _ (limits : InferencePoolLimits) where
  schedule_idle-AllServed :
      (e : InferencePoolEntry) (now : ℕ)
      → AllServed limits e
      → AllServed limits (schedule_idle e now)
  unfolding schedule_idle touch
  schedule_idle-AllServed e now h =
      if-cases (AllServed limits) (not (idle e)) (touch e now) _ (λ _. h)
        λ _.
          if-cases (AllServed limits) e.closed (touch e now)
            (record (touch e now) { idle_timer = true }) (λ _. h) (λ _. h)

  if_idle-AllServed :
      (e : InferencePoolEntry) (now : ℕ)
      → AllServed limits e
      → AllServed limits (if idle e then schedule_idle e now else e)
  if_idle-AllServed e now h =
      if-cases (AllServed limits) (idle e) (schedule_idle e now) e
        (λ _. schedule_idle-AllServed e now h) (λ _. h)

  -- A connection is leased while one is free.
  leased-Served :
      (active lease : ℕ) (leases waiters : List ℕ)
      → ltb active limits.connections_per_entry ≡ true
      → Served limits active leases waiters
      → Served limits (active + 1) (leases ++ lease ∷ []) waiters
  leased-Served active lease leases waiters free (counted, few, short, inl nobody) =
      let longer = length-append {0} leases (lease ∷ []) in
      (omega arith, ground arith, short, inl nobody)
  leased-Served active lease leases waiters free (counted, few, short, inr full) = ground arith

  queued-Served :
      (active lease : ℕ) (leases waiters : List ℕ)
      → ltb active limits.connections_per_entry ≡ false
      → leb limits.max_waiters_per_entry (length waiters) ≡ false
      → Served limits active leases waiters
      → Served limits active leases (waiters ++ lease ∷ [])
  queued-Served active lease leases waiters taken room (counted, few, short, _) =
      let longer = length-append {0} waiters (lease ∷ []) in
      (counted, few, ground arith, inr (ground arith))

  acquire_slot-AllServed :
      (e : InferencePoolEntry) (signal_aborted : Bool) (lease now timeout_ms : ℕ)
      → AllServed limits e
      → AllServed limits (acquire_slot limits e signal_aborted lease now timeout_ms).0
  unfolding acquire_slot touch
  acquire_slot-AllServed e signal_aborted lease now timeout_ms h =
      if-cases After signal_aborted (e, aborted_error) _ (λ _. h)
        λ _.
          if-cases After e.closed (e, closed_error) _ (λ _. h)
            λ _.
              if-cases After (ltb e.active limits.connections_per_entry)
                (
                  record (touch e now) { active = e.active + 1; leases = e.leases ++ lease ∷ [] },
                  leased,
                )
                _ (λ free. leased-Served e.active lease e.leases e.waiters free h)
                λ taken.
                  if-cases After (leb limits.max_waiters_per_entry (length e.waiters))
                    (touch e now, saturated_error)
                    (
                      record (touch e now) { waiters = e.waiters ++ lease ∷ [] },
                      waits (max 1 timeout_ms),
                    )
                    (λ _. h) (λ room. queued-Served e.active lease e.leases e.waiters taken room h)
    where
      After : InferencePoolEntry × Acquired → Type 0
      After p = AllServed limits p.0

  give_up-AllServed :
      (e : InferencePoolEntry) (waiter : ℕ)
      → AllServed limits e
      → AllServed limits (give_up e waiter)
  unfolding give_up
  give_up-AllServed e waiter (counted, few, short, waiting) =
      let shorter = remove_lease-shorter waiter e.waiters in
      (counted, few, omega arith, still waiting)
    where
      still :
          (e.waiters ≡ []) ⊎ (limits.connections_per_entry ≤ e.active)
          → (remove_lease waiter e.waiters ≡ []) ⊎ (limits.connections_per_entry ≤ e.active)
      still (inl nobody) = inl (ap (remove_lease waiter) nobody ∙ (unfold remove_lease in refl))
      still (inr full) = inr full

  -- A lease is given back, with the connection still counted, and passed on.
  pass_on-AllServed :
      (e : InferencePoolEntry) (now : ℕ)
      → e.active ≡ suc (length e.leases)
      → e.active ≤ limits.connections_per_entry
      → length e.waiters ≤ limits.max_waiters_per_entry
      → (e.waiters ≡ []) ⊎ (limits.connections_per_entry ≤ e.active)
      → AllServed limits (pass_on e now)
  unfolding pass_on
  pass_on-AllServed e now counted few short waiting = by_waiters e.waiters refl
    where
      passed : List ℕ → InferencePoolEntry
      passed waiters = elim waiters [
        | [] ↦
            (let freed = record e { active = e.active - 1 } in
              if idle freed then schedule_idle freed now else freed)
        | waiter ∷ rest ↦ record e { waiters = rest; leases = e.leases ++ waiter ∷ [] }
      ]

      by_waiters : (waiters : List ℕ) → e.waiters ≡ waiters → AllServed limits (passed waiters)
      by_waiters [] nobody =
          if_idle-AllServed (record e { active = e.active - 1 }) now
            (omega arith, omega arith, short, inl nobody)
      by_waiters (waiter ∷ rest) known =
          let longer = length-append {0} e.leases (waiter ∷ []) in
          let counted_waiters = ap (λ (ws : List ℕ). length ws) known in
          (omega arith, few, omega arith, inr (full waiting))
        where
          full :
              (e.waiters ≡ []) ⊎ (limits.connections_per_entry ≤ e.active)
              → limits.connections_per_entry ≤ e.active
          full (inl nobody) =
              let clash = ap (λ (ws : List ℕ). length ws) (sym nobody ∙ known) in omega arith
          full (inr h) = h

  release_lease-AllServed :
      (e : InferencePoolEntry) (lease now : ℕ)
      → AllServed limits e
      → AllServed limits (release_lease e lease now)
  unfolding release_lease
  release_lease-AllServed e lease now h =
      if-cases (AllServed limits) (holds e.leases lease)
        (pass_on (record e { leases = remove_lease lease e.leases; last_used_ms = now }) now) e
        (λ held.
          let fewer = length-remove_lease lease e.leases held in
          let counted = h.0 in
          pass_on-AllServed (record e { leases = remove_lease lease e.leases; last_used_ms = now })
            now (omega arith) h.1 h.2 h.3)
        (λ _. h)

  get_dispatcher-AllServed :
      (e : InferencePoolEntry) (promise : ℕ)
      → AllServed limits e
      → AllServed limits (get_dispatcher e promise).0
  unfolding get_dispatcher
  get_dispatcher-AllServed e promise h =
      if-cases After e.closed (e, refused_closed) (ready_or_pending e.dispatcher e promise) (λ _. h)
        (λ _. asked e.dispatcher e.dispatcher_promise)
    where
      After : InferencePoolEntry × Dispatching → Type 0
      After p = AllServed limits p.0

      asked :
          (known pending : Option ℕ)
          → After (ready_or_pending known (record e { dispatcher_promise = pending }) promise)
      asked none none = h
      asked none (some pending) = h
      asked (some dispatcher) pending = h

  close_awaited-AllServed :
      (e : InferencePoolEntry) (awaited : Option ℕ)
      → AllServed limits e
      → AllServed limits (close_awaited e awaited)
  unfolding close_awaited
  close_awaited-AllServed e none h = h
  close_awaited-AllServed e (some dispatcher) h =
      if-cases (AllServed limits) e.force_closed
        (record e { closing_dispatcher_promise = none; dispatcher = none }) _ (λ _. h) (λ _. h)

  close_known-AllServed :
      (e : InferencePoolEntry) (known : Option ℕ)
      → AllServed limits e
      → AllServed limits (close_known e known)
  close_known-AllServed e none h = h
  close_known-AllServed e (some dispatcher) h = close_awaited-AllServed e (some dispatcher) h

  close_entry-AllServed :
      (e : InferencePoolEntry) → AllServed limits e → AllServed limits (close_entry e).0
  unfolding close_entry close_dispatcher
  close_entry-AllServed e (counted, few, short, waiting) =
      if-cases After e.close_started (e, []) (close_dispatcher (record e { close_started = true }))
        (λ _. (counted, few, short, waiting))
        λ _.
          if-cases After (e.closed && is_none e.dispatcher && is_none e.dispatcher_promise)
            (record e { close_started = true }, []) _ (λ _. (counted, few, short, waiting))
            (λ _. close_known-AllServed _ e.dispatcher (counted, few, omega arith, inl refl))
    where
      After : InferencePoolEntry × Rejected → Type 0
      After p = AllServed limits p.0

  pub step-AllServed :
      (e : InferencePoolEntry) (event : EntryEvent)
      → AllServed limits e
      → AllServed limits (step limits e event)
  unfolding step touch created creation_failed creation_settled close_finished force_close
  step-AllServed e (acquires signal_aborted lease now timeout_ms) h =
      acquire_slot-AllServed e signal_aborted lease now timeout_ms h
  step-AllServed e (gives_up waiter) h = give_up-AllServed e waiter h
  step-AllServed e (releases lease now) h = release_lease-AllServed e lease now h
  step-AllServed e (touches now) h = h
  step-AllServed e (asks_dispatcher promise) h = get_dispatcher-AllServed e promise h
  step-AllServed e (creates dispatcher) h =
      if-cases (AllServed limits) e.closed (record e { failed_initialization = false }) _ (λ _. h)
        (λ _. h)
  step-AllServed e (creation_settles promise now) h =
      if_idle-AllServed
        (if same_one e.dispatcher_promise promise
          then record e { dispatcher_promise = none }
          else e)
        now
        (if-cases (AllServed limits) (same_one e.dispatcher_promise promise)
          (record e { dispatcher_promise = none }) e (λ _. h) (λ _. h))
  step-AllServed e (close_awaits awaited) h = close_awaited-AllServed e awaited h
  step-AllServed e (close_finishes dispatcher) h =
      if-cases (AllServed limits) (same_one e.closing_dispatcher dispatcher)
        (record e { closing_dispatcher = none }) e (λ _. h) (λ _. h)
  step-AllServed e fails h = h
  step-AllServed e closes h = close_entry-AllServed e h
  step-AllServed e force_closes (counted, few, short, waiting) =
      (counted, few, omega arith, inl refl)

  run_from-AllServed :
      (e : InferencePoolEntry) (events : List EntryEvent)
      → AllServed limits e
      → AllServed limits (run_entry limits e events)
  unfolding run_entry
  run_from-AllServed e [] h = h
  run_from-AllServed e (event ∷ events) h =
      run_from-AllServed (step limits e event) events (step-AllServed e event h)

-- After any calls, releases, aborted or expired waits, and closings in any order, an entry counts
-- exactly the connections that are leased, leases no more than it has and lets no more wait than it
-- may, and nobody waits while a connection is free.
pub run_entry-AllServed :
    (limits : InferencePoolLimits) (now : ℕ) (events : List EntryEvent)
    → AllServed limits (run_entry limits (new_entry now) events)
run_entry-AllServed limits now events =
    run_from-AllServed limits (new_entry now) events (refl, omega arith, omega arith, inl refl)
