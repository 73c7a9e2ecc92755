-- ===== src/Copilot/Registry/Eviction.antt =====
-- An entry of src/copilot/inference_pool.ts that is evicted for another origin.
use ghc_gateway.Base.{
  ℕ, ◌+◌, ◌≤◌, ◌≡◌, refl, ap, ◌∙◌, true, false, ◌&&◌, Option, none, some, [], Text, lookup, length,
  ltb, ◌==◌, if◌then◌else◌, if-cases, arith,
}
use ghc_gateway.Copilot.PoolEntry.{
  InferencePoolLimits, InferencePoolEntry, is_none, close_known, close_awaited, close_dispatcher,
  close_entry, Rejected, acquire_slot, closed_error, step,
}
use ghc_gateway.Copilot.Registry.{
  BoundedInferencePoolRegistry, Found, at_entry, begin_draining, oldest_idle, evict, make_room,
  existing_or, entry_for, with_entry, found,
}

close_awaited-closed :
    (e : InferencePoolEntry) (o : Option ℕ) → e.closed ≡ true → (close_known e o).closed ≡ true
unfolding close_awaited
close_awaited-closed e none h = h
close_awaited-closed e (some dispatcher) h =
    if-cases (λ f. f.closed ≡ true) e.force_closed
      (record e { closing_dispatcher_promise = none; dispatcher = none }) _ (λ _. h) (λ _. h)

close_dispatcher-closed : (e : InferencePoolEntry) → (close_dispatcher e).0.closed ≡ true
unfolding close_dispatcher
close_dispatcher-closed e =
    if-cases After (e.closed && is_none e.dispatcher && is_none e.dispatcher_promise) (e, []) _
      (λ both. ground arith) (λ _. close_awaited-closed _ e.dispatcher refl)
  where
    After : InferencePoolEntry × Rejected → Type 0
    After p = p.0.closed ≡ true

close_entry-closed :
    (e : InferencePoolEntry) → e.close_started ≡ false → (close_entry e).0.closed ≡ true
unfolding close_entry
close_entry-closed e fresh =
    ap
      (λ b.
        (if◌then◌else◌ {A = InferencePoolEntry × Rejected} b (e, [])
          (close_dispatcher (record e { close_started = true }))).0.closed)
      fresh
    ∙ close_dispatcher-closed (record e { close_started = true })

closed-refuses :
    (limits : InferencePoolLimits) (e : InferencePoolEntry) (lease now timeout_ms : ℕ)
    → e.closed ≡ true
    → (acquire_slot limits e false lease now timeout_ms).1 ≡ closed_error
unfolding acquire_slot
closed-refuses limits e lease now timeout_ms h = rw (h) refl

-- Where the registry is full and an entry is the idle one that was used least recently, a lookup for
-- another key closes it, and who was handed that entry before and acquires a connection of it next
-- is refused.
pub eviction-refuses :
    (limits : InferencePoolLimits) (r : BoundedInferencePoolRegistry) (key other : Text)
    (entry lease now later timeout_ms : ℕ)
    → r.shut ≡ false
    → lookup other r.entries ≡ none
    → limits.max_entries ≤ length r.entries + length r.draining
    → oldest_idle r.store r.entries ≡ some (key, entry)
    → (r.store entry).close_started ≡ false
    → (acquire_slot limits
        ((entry_for limits r other false now).0.store entry)
        false
        lease
        later
        timeout_ms).1
      ≡ closed_error
unfolding entry_for make_room evict begin_draining at_entry step
eviction-refuses limits r key other entry lease now later timeout_ms open_still absent full idle_one
      fresh =
    closed-refuses limits _ lease later timeout_ms (
      ap (λ (p : BoundedInferencePoolRegistry × Found). ((p.0).store entry).closed) found_so
      ∙ shut_now)
  where
    found_so : entry_for limits r other false now ≡ evict limits r (some (key, entry))
    found_so =
        ap
          (λ b.
            if b
            then (r, Found.closed_error)
            else existing_or limits r (lookup other r.entries) other now)
          open_still
        ∙ ap (λ o. existing_or limits r o other now) absent
        ∙ ap
            (λ b.
              if b
              then (with_entry r other now, found r.next)
              else evict limits r (oldest_idle r.store r.entries))
            at_limit
        ∙ ap (evict limits r) idle_one
      where
        at_limit : ltb (length r.entries + length r.draining) limits.max_entries ≡ false
        at_limit = ground arith

    shut_now : (((evict limits r (some (key, entry))).0).store entry).closed ≡ true
    shut_now =
        ap (λ b. (if b then (close_entry (r.store entry)).0 else r.store entry).closed) itself
        ∙ close_entry-closed (r.store entry) fresh
      where
        itself : (entry == entry) ≡ true
        itself = ground arith
