-- ===== src/Copilot/Registry/Bounds.antt =====
-- How many entries src/copilot/inference_pool.ts keeps, and how they serve.
use ghc_gateway.Base.{
  ℕ, suc, ◌+◌, ◌≤◌, ◌≡◌, refl, inl, Bool, true, false, not, ◌&&◌, ◌||◌, Option, none, some, List,
  [], ◌∷◌, map, Text, same_text, same_text_self, lookup, insert, delete, length, length-append, ltb,
  ◌==◌, if◌then◌else◌, if-cases, arith,
}
use ghc_gateway.Copilot.PoolEntry.{
  InferencePoolLimits, new_entry, idle, EntryEvent, releases, touches, closes, force_closes, step,
}
use ghc_gateway.Copilot.PoolEntry.Slots.{AllServed, step-AllServed, remove_lease-shorter}
use ghc_gateway.Copilot.Registry.{
  Store, BoundedInferencePoolRegistry, new_registry, at_entry, Found, found, aborted_error,
  closed_error, add_draining, begin_draining, older_idle, oldest_idle, evict, with_entry, make_room,
  existing_or, entry_for, drained, drain_failed, is_entry, acquire_failed, idle_expired,
  all_entries, add_all, each_entry, is_empty_list, close_entries, close_registry, closing_ended,
  force_close_all, RegistryEvent, looks_up, at_one, drains_ended, drains_failed, acquires_failed,
  idles, closings_ended, closes_all, forces_all, registry_step, run_registry,
}

length-insert :
    (key : Text) (entry : ℕ) (entries : List (Text × ℕ))
    → length (insert key entry entries) ≤ suc (length entries)
unfolding insert
length-insert key entry [] = omega arith
length-insert key entry ((k, e) ∷ entries) = ground (arith, length-insert key entry entries)

length-delete :
    (key : Text) (entries : List (Text × ℕ)) → length (delete key entries) ≤ length entries
unfolding delete
length-delete key [] = omega arith
length-delete key ((k, e) ∷ entries) = ground (arith, length-delete key entries)

length-add_draining :
    (entry : ℕ) (draining : List ℕ) → length (add_draining entry draining) ≤ suc (length draining)
unfolding add_draining
length-add_draining entry draining = ground (arith, length-append {0} draining (entry ∷ []))

length-add_all :
    (entries draining : List ℕ)
    → length (add_all entries draining) ≤ length entries + length draining
unfolding add_all
length-add_all [] draining = omega arith
length-add_all (entry ∷ entries) draining = omega (
  arith,
  length-add_draining entry draining,
  length-add_all entries (add_draining entry draining),
)

length-map : (entries : List (Text × ℕ)) → length (map (λ entry. entry.1) entries) ≡ length entries
length-map [] = refl
length-map (entry ∷ entries) = omega (arith, length-map entries)

-- To delete the key leaves one entry less.
abbrev Shortens : List (Text × ℕ) → Option (Text × ℕ) → Type 0
Shortens entries none = Unit {0}
Shortens entries (some (key, entry)) = suc (length (delete key entries)) ≤ length entries

Shortens-first :
    (key : Text) (entry : ℕ) (entries : List (Text × ℕ))
    → Shortens ((key, entry) ∷ entries) (some (key, entry))
unfolding delete
Shortens-first key entry entries = ground (arith, same_text_self key)

Shortens-later :
    (one : Text × ℕ) (entries : List (Text × ℕ)) (o : Option (Text × ℕ))
    → Shortens entries o
    → Shortens (one ∷ entries) o
unfolding delete
Shortens-later one entries none h = tt
Shortens-later (k, e) entries (some (key, entry)) h = ground arith

older_idle-Shortens :
    (store : Store) (one : Text × ℕ) (entries : List (Text × ℕ)) (o : Option (Text × ℕ))
    → Shortens (one ∷ entries) o
    → Shortens (one ∷ entries) (older_idle store one o)
unfolding older_idle
older_idle-Shortens store one entries none h = Shortens-first (one.0) (one.1) entries
older_idle-Shortens store one entries (some other) h =
    if-cases (Shortens (one ∷ entries))
      (ltb (store (other.1)).last_used_ms (store (one.1)).last_used_ms) (some other) (some one)
      (λ _. h) (λ _. Shortens-first (one.0) (one.1) entries)

oldest_idle-Shortens :
    (store : Store) (entries : List (Text × ℕ)) → Shortens entries (oldest_idle store entries)
unfolding oldest_idle
oldest_idle-Shortens store [] = tt
oldest_idle-Shortens store (one ∷ entries) =
    let rest =
      Shortens-later one entries (oldest_idle store entries) (oldest_idle-Shortens store entries) in
    if-cases (Shortens (one ∷ entries)) (idle (store (one.1)))
      (older_idle store one (oldest_idle store entries)) (oldest_idle store entries)
      (λ _. older_idle-Shortens store one entries (oldest_idle store entries) rest) (λ _. rest)

found-Shortens :
    (key : Text) (entry : ℕ) (entries : List (Text × ℕ))
    → is_entry (lookup key entries) entry ≡ true
    → Shortens entries (some (key, entry))
unfolding lookup delete
found-Shortens key entry [] h = ground arith
found-Shortens key entry ((k, e) ∷ entries) h =
    if-cases (λ o. is_entry o entry ≡ true → Shortens ((k, e) ∷ entries) (some (key, entry)))
      (same_text k key) (some e) (lookup key entries) (λ same _. ground arith)
      (λ other there. let less = found-Shortens key entry entries there in ground arith) h

module _ (limits : InferencePoolLimits) where
  -- The entries in use and those that are drained are within the limit, and each serves as it should.
  abbrev pub Bounded : BoundedInferencePoolRegistry → Type 0
  Bounded r =
      (length r.entries + length r.draining ≤ limits.max_entries)
      × ((entry : ℕ) → AllServed limits (r.store entry))

  at_entry-AllServed :
      (store : Store) (entry : ℕ) (event : EntryEvent)
      → ((other : ℕ) → AllServed limits (store other))
      → (other : ℕ) → AllServed limits (at_entry limits store entry event other)
  unfolding at_entry
  at_entry-AllServed store entry event h other =
      if-cases (AllServed limits) (other == entry) (step limits (store entry) event) (store other)
        (λ _. step-AllServed limits (store entry) event (h entry)) (λ _. h other)

  each_entry-AllServed :
      (event : EntryEvent) (entries : List ℕ) (store : Store)
      → ((other : ℕ) → AllServed limits (store other))
      → (other : ℕ) → AllServed limits (each_entry limits event entries store other)
  unfolding each_entry
  each_entry-AllServed event [] store h = h
  each_entry-AllServed event (entry ∷ entries) store h =
      each_entry-AllServed event entries (at_entry limits store entry event)
        (at_entry-AllServed store entry event h)

  -- An entry moves from those in use to those that are drained.
  begin_draining-Bounded :
      (r : BoundedInferencePoolRegistry) (key : Text) (entry : ℕ)
      → Shortens r.entries (some (key, entry))
      → Bounded r
      → Bounded (begin_draining limits (record r { entries = delete key r.entries }) entry)
  unfolding begin_draining
  begin_draining-Bounded r key entry less (few, served) = (
    omega (arith, length-add_draining entry r.draining),
    at_entry-AllServed r.store entry closes served,
  )

  evict-Bounded :
      (r : BoundedInferencePoolRegistry) (o : Option (Text × ℕ))
      → Shortens r.entries o
      → Bounded r
      → Bounded (evict limits r o).0
  unfolding evict
  evict-Bounded r none less h = h
  evict-Bounded r (some (key, entry)) less h = begin_draining-Bounded r key entry less h

  make_room-Bounded :
      (r : BoundedInferencePoolRegistry) (key : Text) (now : ℕ)
      → Bounded r
      → Bounded (make_room limits r key now).0
  unfolding make_room
  make_room-Bounded r key now (few, served) =
      if-cases After (ltb (length r.entries + length r.draining) limits.max_entries)
        (with_entry r key now, found r.next) (evict limits r (oldest_idle r.store r.entries))
        (λ room. (fits room, new_or_known))
        (λ _.
          evict-Bounded r (oldest_idle r.store r.entries) (oldest_idle-Shortens r.store r.entries)
            (few, served))
    where
      After : BoundedInferencePoolRegistry × Found → Type 0
      After p = Bounded p.0

      fits :
          ltb (length r.entries + length r.draining) limits.max_entries ≡ true
          → length (insert key r.next r.entries) + length r.draining ≤ limits.max_entries
      fits room = ground (arith, length-insert key r.next r.entries)

      new_or_known :
          (other : ℕ) → AllServed limits (if other == r.next then new_entry now else r.store other)
      new_or_known other =
          if-cases (AllServed limits) (other == r.next) (new_entry now) (r.store other)
            (λ _. (refl, omega arith, omega arith, inl refl)) (λ _. served other)

  entry_for-Bounded :
      (r : BoundedInferencePoolRegistry) (key : Text) (signal_aborted : Bool) (now : ℕ)
      → Bounded r
      → Bounded (entry_for limits r key signal_aborted now).0
  unfolding entry_for
  entry_for-Bounded r key signal_aborted now h =
      if-cases After signal_aborted (r, aborted_error) _ (λ _. h)
        λ _.
          if-cases After r.shut (r, closed_error)
            (existing_or limits r (lookup key r.entries) key now) (λ _. h)
            (λ _. existing (lookup key r.entries))
    where
      After : BoundedInferencePoolRegistry × Found → Type 0
      After p = Bounded p.0

      existing : (o : Option ℕ) → After (existing_or limits r o key now)
      existing none = make_room-Bounded r key now h
      existing (some entry) = (h.0, at_entry-AllServed r.store entry (touches now) h.1)

  acquire_failed-Bounded :
      (r : BoundedInferencePoolRegistry) (key : Text) (entry lease now : ℕ)
      → Bounded r
      → Bounded (acquire_failed limits r key entry lease now)
  unfolding acquire_failed
  acquire_failed-Bounded r key entry lease now (few, served) =
      let released : BoundedInferencePoolRegistry = record r {
        store = at_entry limits r.store entry (releases lease now);
      } in
      let still = at_entry-AllServed r.store entry (releases lease now) served in
      if-cases Bounded
        ((released.store entry).failed_initialization && is_entry (lookup key r.entries) entry)
        (record released { entries = delete key r.entries }) released
        (λ _. (omega (arith, length-delete key r.entries), still)) (λ _. (few, still))

  idle_expired-Bounded :
      (r : BoundedInferencePoolRegistry) (key : Text) (entry : ℕ)
      → Bounded r
      → Bounded (idle_expired limits r key entry)
  unfolding idle_expired
  idle_expired-Bounded r key entry h =
      if-cases Bounded
        (r.shut || not (is_entry (lookup key r.entries) entry) || not (idle (r.store entry))) r
        (begin_draining limits (record r { entries = delete key r.entries }) entry) (λ _. h)
        (λ goes.
          begin_draining-Bounded r key entry (found-Shortens key entry r.entries (there goes)) h)
    where
      there :
          (r.shut || not (is_entry (lookup key r.entries) entry) || not (idle (r.store entry)))
            ≡ false
          → is_entry (lookup key r.entries) entry ≡ true
      there goes = ground arith

  close_entries-Bounded :
      (r : BoundedInferencePoolRegistry) → Bounded r → Bounded (close_entries limits r)
  unfolding close_entries
  close_entries-Bounded r (few, served) =
      if-cases Bounded (r.shut && is_empty_list r.entries && is_empty_list r.draining) r _
        (λ _. (few, served))
        (λ _. (
          omega (
            arith,
            length-map r.entries,
            length-add_all (map (λ entry. entry.1) r.entries) r.draining,
          ),
          each_entry-AllServed closes (all_entries r) r.store served,
        ))

  closing_ended-Bounded :
      (r : BoundedInferencePoolRegistry) (completed : Bool) (entries : List ℕ)
      → Bounded r
      → Bounded (closing_ended limits r completed entries)
  unfolding closing_ended
  closing_ended-Bounded r true entries (few, served) = (omega arith, served)
  closing_ended-Bounded r false entries (few, served) =
      (omega arith, each_entry-AllServed force_closes entries r.store served)

  registry_step-Bounded :
      (r : BoundedInferencePoolRegistry) (event : RegistryEvent)
      → Bounded r
      → Bounded (registry_step limits r event)
  unfolding registry_step drained drain_failed force_close_all close_registry
  registry_step-Bounded r (looks_up key signal_aborted now) h =
      entry_for-Bounded r key signal_aborted now h
  registry_step-Bounded r (at_one entry event) h = (h.0, at_entry-AllServed r.store entry event h.1)
  registry_step-Bounded r (drains_ended entry) (few, served) =
      (omega (arith, remove_lease-shorter entry r.draining), served)
  registry_step-Bounded r (drains_failed entry) h =
      (h.0, at_entry-AllServed r.store entry force_closes h.1)
  registry_step-Bounded r (acquires_failed key entry lease now) h =
      acquire_failed-Bounded r key entry lease now h
  registry_step-Bounded r (idles key entry) h = idle_expired-Bounded r key entry h
  registry_step-Bounded r (closings_ended completed entries) h =
      closing_ended-Bounded r completed entries h
  registry_step-Bounded r closes_all h =
      if-cases Bounded r.close_begun r (close_entries limits (record r { close_begun = true }))
        (λ _. h) (λ _. close_entries-Bounded (record r { close_begun = true }) h)
  registry_step-Bounded r forces_all (few, served) =
      (omega arith, each_entry-AllServed force_closes (all_entries r) r.store served)

  run_from-Bounded :
      (r : BoundedInferencePoolRegistry) (events : List RegistryEvent)
      → Bounded r
      → Bounded (run_registry limits r events)
  unfolding run_registry
  run_from-Bounded r [] h = h
  run_from-Bounded r (event ∷ events) h =
      run_from-Bounded (registry_step limits r event) events (registry_step-Bounded r event h)

-- After any lookups, calls on single entries, evictions and closings in any order, the registry keeps
-- no more entries than its limit, those that are drained included, and in every entry the
-- connections are counted as they are leased and bounded, and nobody waits while one is free.
pub run_registry-Bounded :
    (limits : InferencePoolLimits) (events : List RegistryEvent)
    → Bounded limits (run_registry limits new_registry events)
run_registry-Bounded limits events =
    run_from-Bounded limits new_registry events
      (omega arith, λ entry. (refl, omega arith, omega arith, inl refl))
