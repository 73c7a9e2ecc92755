-- ===== src/Copilot/PoolEntry.antt =====
-- src/copilot/inference_pool.ts: `InferencePoolEntry`, the connections to one origin.
--
-- A lease, a waiter, a dispatcher and the promise of one are numbers. What the code does between two
-- awaits is one operation, and `now` is what `Date.now()` returns in it.
pub mod Slots
pub mod Closing
use ghc_gateway.Base.{
  ℕ, ◌+◌, ◌-◌, Bool, true, false, not, ◌&&◌, Option, none, some, List, [], ◌∷◌, ◌++◌, length, any,
  max, ltb, leb, ◌==◌, if◌then◌else◌,
}

pub record InferencePoolLimits : Type 0 where
  pub max_entries : ℕ
  pub connections_per_entry : ℕ
  pub max_waiters_per_entry : ℕ
  pub idle_timeout_ms : ℕ
  pub max_acquisition_ms : ℕ
  pub shutdown_grace_ms : ℕ

abbrev pub default_inference_pool_limits : InferencePoolLimits
default_inference_pool_limits = record {
  max_entries = 16;
  connections_per_entry = 4;
  max_waiters_per_entry = 16;
  idle_timeout_ms = 30000;
  max_acquisition_ms = 120000;
  shutdown_grace_ms = 2000;
}

-- `leases` holds the leases that were given out and not released yet.
pub record InferencePoolEntry : Type 0 where
  pub dispatcher : Option ℕ
  pub dispatcher_promise : Option ℕ
  pub closing_dispatcher : Option ℕ
  pub closing_dispatcher_promise : Option ℕ
  pub waiters : List ℕ
  pub active : ℕ
  pub leases : List ℕ
  pub closed : Bool
  pub close_started : Bool
  pub force_closed : Bool
  pub failed_initialization : Bool
  pub idle_timer : Bool
  pub last_used_ms : ℕ

abbrev pub new_entry : ℕ → InferencePoolEntry
new_entry now = record {
  dispatcher = none;
  dispatcher_promise = none;
  closing_dispatcher = none;
  closing_dispatcher_promise = none;
  waiters = [];
  active = 0;
  leases = [];
  closed = false;
  close_started = false;
  force_closed = false;
  failed_initialization = false;
  idle_timer = false;
  last_used_ms = now;
}

abbrev pub is_none : {A : Type 0} → Option A → Bool
is_none none = true
is_none (some a) = false

unfoldable pub idle : InferencePoolEntry → Bool
idle e = e.active == 0 && length e.waiters == 0 && is_none e.dispatcher_promise

-- `touch`, which also takes a timer back.
unfoldable pub touch : InferencePoolEntry → ℕ → InferencePoolEntry
touch e now = record e { last_used_ms = now; idle_timer = false }

-- `scheduleIdle`, by way of `onIdle`.
unfoldable pub schedule_idle : InferencePoolEntry → ℕ → InferencePoolEntry
schedule_idle e now =
    if not (idle e)
    then touch e now
    else if e.closed
    then touch e now
    else record (touch e now) { idle_timer = true }

-- How `acquire` leaves its caller; `waits` is a wait of so many milliseconds.
pub data Acquired : Type 0 where
  leased aborted_error closed_error saturated_error : Acquired
  waits : ℕ → Acquired

-- `lease` names the lease, or the waiter that gets it.
unfoldable pub acquire_slot :
    InferencePoolLimits
    → InferencePoolEntry
    → (signal_aborted : Bool) (lease now timeout_ms : ℕ) → InferencePoolEntry × Acquired
acquire_slot limits e signal_aborted lease now timeout_ms =
    if signal_aborted
    then (e, aborted_error)
    else if e.closed
    then (e, closed_error)
    else if ltb e.active limits.connections_per_entry
    then (record (touch e now) { active = e.active + 1; leases = e.leases ++ lease ∷ [] }, leased)
    else if leb limits.max_waiters_per_entry (length e.waiters)
    then (touch e now, saturated_error)
    else (record (touch e now) { waiters = e.waiters ++ lease ∷ [] }, waits (max 1 timeout_ms))

unfoldable pub remove_lease : ℕ → List ℕ → List ℕ
remove_lease lease [] = []
remove_lease lease (l ∷ leases) =
    let rest = remove_lease lease leases in if l == lease then leases else l ∷ rest

abbrev pub holds : List ℕ → ℕ → Bool
holds leases lease = any (λ l. l == lease) leases

-- The waiter's signal is aborted, or its time is over; nothing for a waiter that has left.
unfoldable pub give_up : InferencePoolEntry → ℕ → InferencePoolEntry
give_up e waiter = record e { waiters = remove_lease waiter e.waiters }

-- The lease goes to the oldest waiter, or the connection is free.
unfoldable pub pass_on : InferencePoolEntry → ℕ → InferencePoolEntry
pass_on e now = elim e.waiters [
  | [] ↦
      (let freed = record e { active = e.active - 1 } in
        if idle freed then schedule_idle freed now else freed)
  | waiter ∷ rest ↦ record e { waiters = rest; leases = e.leases ++ waiter ∷ [] }
]

-- The closure of `releaseOnce`, which does something only once.
unfoldable pub release_lease : InferencePoolEntry → ℕ → ℕ → InferencePoolEntry
release_lease e lease now =
    if holds e.leases lease
    then pass_on (record e { leases = remove_lease lease e.leases; last_used_ms = now }) now
    else e

-- `getDispatcher`, up to its await: the promise that is pending, or a new one.
pub data Dispatching : Type 0 where
  refused_closed : Dispatching
  ready pends : ℕ → Dispatching

abbrev pub pending_or_new : Option ℕ → InferencePoolEntry → ℕ → InferencePoolEntry × Dispatching
pending_or_new none e promise = (record e { dispatcher_promise = some promise }, pends promise)
pending_or_new (some pending) e promise = (e, pends pending)

abbrev pub ready_or_pending : Option ℕ → InferencePoolEntry → ℕ → InferencePoolEntry × Dispatching
ready_or_pending none e promise = pending_or_new e.dispatcher_promise e promise
ready_or_pending (some dispatcher) e promise = (e, ready dispatcher)

unfoldable pub get_dispatcher : InferencePoolEntry → ℕ → InferencePoolEntry × Dispatching
get_dispatcher e promise =
    if e.closed then (e, refused_closed) else ready_or_pending e.dispatcher e promise

-- The callbacks of `startDispatcher`: the dispatcher is there, or it failed, and then `finally`.
unfoldable pub created : InferencePoolEntry → ℕ → InferencePoolEntry
created e dispatcher = if e.closed then record e { failed_initialization = false } else record e {
  failed_initialization = false;
  dispatcher = elim e.dispatcher [ none ↦ some dispatcher | some known ↦ some known ];
}

unfoldable pub creation_failed : InferencePoolEntry → InferencePoolEntry
creation_failed e = record e { failed_initialization = true }

abbrev pub same_one : Option ℕ → ℕ → Bool
same_one none promise = false
same_one (some pending) promise = pending == promise

unfoldable pub creation_settled : InferencePoolEntry → ℕ → ℕ → InferencePoolEntry
creation_settled e promise now =
    let done : InferencePoolEntry =
      if same_one e.dispatcher_promise promise then record e { dispatcher_promise = none } else e in
    if idle done then schedule_idle done now else done

-- The waiters that are rejected as closed.
abbrev pub Rejected : Type 0
Rejected = List ℕ

-- The rest of `closeDispatcher` with the dispatcher that it closes, if there is one, up to the await
-- of its `close`.
unfoldable pub close_awaited : InferencePoolEntry → Option ℕ → InferencePoolEntry
close_awaited e none = record e { closing_dispatcher_promise = none; dispatcher = none }
close_awaited e (some dispatcher) =
    if e.force_closed
    then record e { closing_dispatcher_promise = none; dispatcher = none }
    else record e {
      closing_dispatcher_promise = none;
      dispatcher = none;
      closing_dispatcher = some dispatcher;
    }

-- A dispatcher that is there is not awaited.
abbrev pub close_known : InferencePoolEntry → Option ℕ → InferencePoolEntry
close_known e none = e
close_known e (some dispatcher) = close_awaited e (some dispatcher)

-- `closeDispatcher`, up to its first await.
unfoldable pub close_dispatcher : InferencePoolEntry → InferencePoolEntry × Rejected
close_dispatcher e =
    if e.closed && is_none e.dispatcher && is_none e.dispatcher_promise then (e, []) else (
      close_known
          (record e {
            closed = true;
            idle_timer = false;
            waiters = [];
            dispatcher_promise = none;
            closing_dispatcher_promise = e.dispatcher_promise;
          })
          e.dispatcher,
      e.waiters,
    )

-- `close`, which does something only once.
unfoldable pub close_entry : InferencePoolEntry → InferencePoolEntry × Rejected
close_entry e =
    if e.close_started then (e, []) else close_dispatcher (record e { close_started = true })

-- The dispatcher has closed.
unfoldable pub close_finished : InferencePoolEntry → ℕ → InferencePoolEntry
close_finished e dispatcher =
    if same_one e.closing_dispatcher dispatcher then record e { closing_dispatcher = none } else e

-- What `forceClose` destroys: a dispatcher at once, and one that a promise is still to bring.
abbrev pub Destroyed : Type 0
Destroyed = Option ℕ × Option ℕ

abbrev pub first_of : Option ℕ → Option ℕ → Option ℕ
first_of none other = other
first_of (some one) other = some one

unfoldable pub force_close : InferencePoolEntry → InferencePoolEntry × Destroyed × Rejected
force_close e = (
  record e {
    force_closed = true;
    closed = true;
    idle_timer = false;
    waiters = [];
    dispatcher_promise = none;
    closing_dispatcher_promise = none;
    dispatcher = none;
    closing_dispatcher = none;
  },
  (
    first_of e.dispatcher e.closing_dispatcher,
    first_of e.dispatcher_promise e.closing_dispatcher_promise,
  ),
  e.waiters,
)

pub data EntryEvent : Type 0 where
  acquires : (signal_aborted : Bool) (lease now timeout_ms : ℕ) → EntryEvent
  gives_up : ℕ → EntryEvent
  releases : (lease now : ℕ) → EntryEvent
  touches asks_dispatcher creates close_finishes : ℕ → EntryEvent
  creation_settles : (promise now : ℕ) → EntryEvent
  close_awaits : Option ℕ → EntryEvent
  fails closes force_closes : EntryEvent

unfoldable pub step : InferencePoolLimits → InferencePoolEntry → EntryEvent → InferencePoolEntry
step limits e (acquires signal_aborted lease now timeout_ms) =
    (acquire_slot limits e signal_aborted lease now timeout_ms).0
step limits e (gives_up waiter) = give_up e waiter
step limits e (releases lease now) = release_lease e lease now
step limits e (touches now) = touch e now
step limits e (asks_dispatcher promise) = (get_dispatcher e promise).0
step limits e (creates dispatcher) = created e dispatcher
step limits e (creation_settles promise now) = creation_settled e promise now
step limits e (close_awaits awaited) = close_awaited e awaited
step limits e (close_finishes dispatcher) = close_finished e dispatcher
step limits e fails = creation_failed e
step limits e closes = (close_entry e).0
step limits e force_closes = (force_close e).0

unfoldable pub run_entry :
    InferencePoolLimits → InferencePoolEntry → List EntryEvent → InferencePoolEntry
run_entry limits e [] = e
run_entry limits e (event ∷ events) = run_entry limits (step limits e event) events
