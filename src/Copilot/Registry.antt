-- ===== src/Copilot/Registry.antt =====
-- src/copilot/inference_pool.ts: `BoundedInferencePoolRegistry`, which keeps the entries of the
-- origins in use.
--
-- An entry object is a number, and `store` is what it holds. A key is what `profileKey` makes of an
-- origin and a timeout.
pub mod Bounds
pub mod Eviction
use ghc_gateway.Base.{
  ℕ, ◌+◌, Bool, true, false, not, ◌&&◌, ◌||◌, Option, none, some, List, [], ◌∷◌, ◌++◌, map, Text,
  lookup, insert, delete, length, ltb, ◌==◌, if◌then◌else◌,
}
use ghc_gateway.Copilot.PoolEntry.{
  InferencePoolLimits, InferencePoolEntry, new_entry, idle, remove_lease, holds, EntryEvent,
  acquires, releases, touches, closes, force_closes, step,
}

abbrev pub Store : Type 0
Store = ℕ → InferencePoolEntry

pub record BoundedInferencePoolRegistry : Type 0 where
  pub entries : List (Text × ℕ)
  pub draining : List ℕ
  pub shut : Bool
  pub close_begun : Bool
  pub next : ℕ
  pub store : Store

abbrev pub new_registry : BoundedInferencePoolRegistry
new_registry = record {
  entries = [];
  draining = [];
  shut = false;
  close_begun = false;
  next = 0;
  store = λ entry. new_entry 0;
}

-- An operation of an entry.
unfoldable pub at_entry : InferencePoolLimits → Store → ℕ → EntryEvent → Store
at_entry limits store entry event other =
    if other == entry then step limits (store entry) event else store other

-- How a round of the loop of `entryFor` ends: with an entry, with an error, or at the await of an
-- entry that is drained to make room.
pub data Found : Type 0 where
  found drains : ℕ → Found
  aborted_error closed_error saturated_error : Found

-- `draining.add(entry)`
unfoldable pub add_draining : ℕ → List ℕ → List ℕ
add_draining entry draining = if holds draining entry then draining else draining ++ entry ∷ []

-- `beginDraining`, up to its await.
unfoldable pub begin_draining :
    InferencePoolLimits → BoundedInferencePoolRegistry → ℕ → BoundedInferencePoolRegistry
begin_draining limits r entry = record r {
  draining = add_draining entry r.draining;
  store = at_entry limits r.store entry closes;
}

-- The first of the idle entries that were used least recently.
unfoldable pub older_idle : Store → Text × ℕ → Option (Text × ℕ) → Option (Text × ℕ)
older_idle store one none = some one
older_idle store one (some other) =
    if ltb (store (other.1)).last_used_ms (store (one.1)).last_used_ms then some other else some one

unfoldable pub oldest_idle : Store → List (Text × ℕ) → Option (Text × ℕ)
oldest_idle store [] = none
oldest_idle store (one ∷ entries) =
    let rest = oldest_idle store entries in
    if idle (store (one.1)) then older_idle store one rest else rest

unfoldable pub evict :
    InferencePoolLimits
    → BoundedInferencePoolRegistry
    → Option (Text × ℕ)
    → BoundedInferencePoolRegistry × Found
evict limits r none = (r, saturated_error)
evict limits r (some (key, entry)) =
    (begin_draining limits (record r { entries = delete key r.entries }) entry, drains entry)

abbrev pub with_entry : BoundedInferencePoolRegistry → Text → ℕ → BoundedInferencePoolRegistry
with_entry r key now = record r {
  entries = insert key r.next r.entries;
  next = r.next + 1;
  store = λ other. if other == r.next then new_entry now else r.store other;
}

unfoldable pub make_room :
    InferencePoolLimits
    → BoundedInferencePoolRegistry
    → Text
    → ℕ
    → BoundedInferencePoolRegistry × Found
make_room limits r key now =
    if ltb (length r.entries + length r.draining) limits.max_entries
    then (with_entry r key now, found r.next)
    else evict limits r (oldest_idle r.store r.entries)

abbrev pub existing_or :
    InferencePoolLimits
    → BoundedInferencePoolRegistry
    → Option ℕ
    → Text
    → ℕ
    → BoundedInferencePoolRegistry × Found
existing_or limits r none key now = make_room limits r key now
existing_or limits r (some entry) key now =
    (record r { store = at_entry limits r.store entry (touches now) }, found entry)

-- One round of the loop of `entryFor`.
unfoldable pub entry_for :
    InferencePoolLimits
    → BoundedInferencePoolRegistry
    → (key : Text) (signal_aborted : Bool) (now : ℕ) → BoundedInferencePoolRegistry × Found
entry_for limits r key signal_aborted now =
    if signal_aborted
    then (r, aborted_error)
    else if r.shut
    then (r, closed_error)
    else existing_or limits r (lookup key r.entries) key now

-- The close of an entry that is drained was fulfilled, or its destruction has ended.
unfoldable pub drained : BoundedInferencePoolRegistry → ℕ → BoundedInferencePoolRegistry
drained r entry = record r { draining = remove_lease entry r.draining }

-- It failed, or took too long.
unfoldable pub drain_failed :
    InferencePoolLimits → BoundedInferencePoolRegistry → ℕ → BoundedInferencePoolRegistry
drain_failed limits r entry = record r { store = at_entry limits r.store entry force_closes }

abbrev pub is_entry : Option ℕ → ℕ → Bool
is_entry none entry = false
is_entry (some other) entry = other == entry

-- The `catch` of `acquire`.
unfoldable pub acquire_failed :
    InferencePoolLimits
    → BoundedInferencePoolRegistry
    → (key : Text) (entry lease now : ℕ) → BoundedInferencePoolRegistry
acquire_failed limits r key entry lease now =
    let released : BoundedInferencePoolRegistry = record r {
      store = at_entry limits r.store entry (releases lease now);
    } in
    if (released.store entry).failed_initialization && is_entry (lookup key r.entries) entry
    then record released { entries = delete key r.entries }
    else released

-- The callback of `scheduleIdleEviction`.
unfoldable pub idle_expired :
    InferencePoolLimits → BoundedInferencePoolRegistry → Text → ℕ → BoundedInferencePoolRegistry
idle_expired limits r key entry =
    if r.shut || not (is_entry (lookup key r.entries) entry) || not (idle (r.store entry))
    then r
    else begin_draining limits (record r { entries = delete key r.entries }) entry

-- Every entry, those in use first.
abbrev pub all_entries : BoundedInferencePoolRegistry → List ℕ
all_entries r = map (λ entry. entry.1) r.entries ++ r.draining

unfoldable pub add_all : List ℕ → List ℕ → List ℕ
add_all [] draining = draining
add_all (entry ∷ entries) draining = add_all entries (add_draining entry draining)

unfoldable pub each_entry : InferencePoolLimits → EntryEvent → List ℕ → Store → Store
each_entry limits event [] store = store
each_entry limits event (entry ∷ entries) store =
    each_entry limits event entries (at_entry limits store entry event)

abbrev pub is_empty_list : {A : Type 0} → List A → Bool
is_empty_list [] = true
is_empty_list (x ∷ xs) = false

-- `closeEntries`, up to its await.
unfoldable pub close_entries :
    InferencePoolLimits → BoundedInferencePoolRegistry → BoundedInferencePoolRegistry
close_entries limits r =
    if r.shut && is_empty_list r.entries && is_empty_list r.draining then r else record r {
      shut = true;
      entries = [];
      draining = add_all (map (λ entry. entry.1) r.entries) r.draining;
      store = each_entry limits closes (all_entries r) r.store;
    }

-- `close`, which does something only once.
unfoldable pub close_registry :
    InferencePoolLimits → BoundedInferencePoolRegistry → BoundedInferencePoolRegistry
close_registry limits r =
    if r.close_begun then r else close_entries limits (record r { close_begun = true })

-- The rest of `closeEntries`, for the entries that it closes: all have closed, or time was up.
unfoldable pub closing_ended :
    InferencePoolLimits
    → BoundedInferencePoolRegistry
    → (completed : Bool) → List ℕ
    → BoundedInferencePoolRegistry
closing_ended limits r completed entries =
    if completed
    then record r { draining = [] }
    else record r { draining = []; store = each_entry limits force_closes entries r.store }

-- `forceClose`
unfoldable pub force_close_all :
    InferencePoolLimits → BoundedInferencePoolRegistry → BoundedInferencePoolRegistry
force_close_all limits r = record r {
  shut = true;
  entries = [];
  draining = [];
  store = each_entry limits force_closes (all_entries r) r.store;
}

pub data RegistryEvent : Type 0 where
  looks_up : (key : Text) (signal_aborted : Bool) (now : ℕ) → RegistryEvent
  at_one : ℕ → EntryEvent → RegistryEvent
  drains_ended drains_failed : ℕ → RegistryEvent
  acquires_failed : Text → (entry lease now : ℕ) → RegistryEvent
  idles : Text → ℕ → RegistryEvent
  closings_ended : Bool → List ℕ → RegistryEvent
  closes_all forces_all : RegistryEvent

unfoldable pub registry_step :
    InferencePoolLimits
    → BoundedInferencePoolRegistry
    → RegistryEvent
    → BoundedInferencePoolRegistry
registry_step limits r (looks_up key signal_aborted now) =
    (entry_for limits r key signal_aborted now).0
registry_step limits r (at_one entry event) = record r {
  store = at_entry limits r.store entry event;
}
registry_step limits r (drains_ended entry) = drained r entry
registry_step limits r (drains_failed entry) = drain_failed limits r entry
registry_step limits r (acquires_failed key entry lease now) =
    acquire_failed limits r key entry lease now
registry_step limits r (idles key entry) = idle_expired limits r key entry
registry_step limits r (closings_ended completed entries) = closing_ended limits r completed entries
registry_step limits r closes_all = close_registry limits r
registry_step limits r forces_all = force_close_all limits r

unfoldable pub run_registry :
    InferencePoolLimits
    → BoundedInferencePoolRegistry
    → List RegistryEvent
    → BoundedInferencePoolRegistry
run_registry limits r [] = r
run_registry limits r (event ∷ events) = run_registry limits (registry_step limits r event) events
