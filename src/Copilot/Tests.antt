-- ===== src/Copilot/Tests.antt =====
-- The connection pool of src/copilot/inference_pool.ts at concrete inputs.
use ghc_gateway.Base.{
  ◌≡◌, ◌≤◌, refl, true, false, List, [], ◌∷◌, length, arith, text, lookup, insert, same_text,
}
use ghc_gateway.Copilot.PoolEntry.{
  InferencePoolLimits, InferencePoolEntry, default_inference_pool_limits, new_entry, EntryEvent,
  acquires, gives_up, releases, asks_dispatcher, creates, creation_settles, acquire_slot, run_entry,
  closed_error, idle, step, release_lease, remove_lease, pass_on, touch, creation_settled, created,
  give_up, get_dispatcher,
}
use ghc_gateway.Copilot.PoolEntry.Slots.{AllServed, run_entry-AllServed}
use ghc_gateway.Copilot.PoolEntry.Closing.{run_entry-closed}
use ghc_gateway.Copilot.Registry.{
  BoundedInferencePoolRegistry, RegistryEvent, looks_up, at_one, idles, closes_all, new_registry,
  run_registry, entry_for, make_room, oldest_idle, older_idle,
}
use ghc_gateway.Copilot.Registry.Bounds.{Bounded, run_registry-Bounded}
use ghc_gateway.Copilot.Registry.Eviction.{eviction-refuses}

abbrev one_of_each : InferencePoolLimits
one_of_each = record default_inference_pool_limits {
  max_entries = 1;
  connections_per_entry = 1;
  max_waiters_per_entry = 2;
}

abbrev busy_day : List EntryEvent
busy_day =
    acquires false 1 10 500
    ∷ asks_dispatcher 7
    ∷ acquires false 2 11 500
    ∷ acquires false 3 12 500
    ∷ acquires false 4 13 500
    ∷ gives_up 2
    ∷ releases 1 20
    ∷ releases 1 21
    ∷ creates 70
    ∷ creation_settles 7 22
    ∷ []

-- The second release does nothing, and the lease has gone to the waiter that was left.
busy_day-leases : (run_entry one_of_each (new_entry 0) busy_day).leases ≡ 3 ∷ []
unfolding run_entry step acquire_slot release_lease remove_lease pass_on touch creation_settled idle
    created give_up get_dispatcher
busy_day-leases = refl

run_entry-AllServed_example : AllServed one_of_each (run_entry one_of_each (new_entry 0) busy_day)
run_entry-AllServed_example = run_entry-AllServed one_of_each 0 busy_day

abbrev shut_entry : InferencePoolEntry
shut_entry = record (new_entry 0) {
  closed = true;
  close_started = true;
  active = 1;
  leases = 1 ∷ [];
}

run_entry-closed_example :
    ((run_entry one_of_each shut_entry busy_day).closed ≡ true)
    × ((run_entry one_of_each shut_entry busy_day).waiters ≡ [])
    × (length (run_entry one_of_each shut_entry busy_day).leases ≤ 1)
run_entry-closed_example = run_entry-closed one_of_each shut_entry busy_day refl refl

abbrev visits : List RegistryEvent
visits =
    looks_up (text "a") false 1
    ∷ at_one 0 (acquires false 1 2 500)
    ∷ looks_up (text "b") false 3
    ∷ at_one 0 (releases 1 4)
    ∷ looks_up (text "b") false 5
    ∷ idles (text "a") 0
    ∷ closes_all
    ∷ []

run_registry-Bounded_example : Bounded one_of_each (run_registry one_of_each new_registry visits)
run_registry-Bounded_example = run_registry-Bounded one_of_each visits

abbrev one_entry : BoundedInferencePoolRegistry
one_entry = record new_registry { entries = (text "a", 0) ∷ []; next = 1 }

one_entry-found :
    (entry_for one_of_each new_registry (text "a") false 0).0.entries ≡ one_entry.entries
unfolding entry_for make_room lookup insert
one_entry-found = refl

eviction-refuses_example :
    (acquire_slot one_of_each
      ((entry_for one_of_each one_entry (text "b") false 1).0.store 0)
      false
      1
      2
      500).1
    ≡ closed_error
eviction-refuses_example =
    eviction-refuses one_of_each one_entry (text "a") (text "b") 0 1 1 2 500 refl
      (unfold lookup same_text in refl) (omega arith) (unfold oldest_idle older_idle idle in refl)
      refl
