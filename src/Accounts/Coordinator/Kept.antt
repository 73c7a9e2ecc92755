-- ===== src/Accounts/Coordinator/Kept.antt =====
-- What the operations of src/accounts/account_coordinator.ts keep.
use ghc_gateway.Base.{
  ℕ, ◌≡◌, refl, ap, ◌⊎◌, inl, inr, Bool, true, false, ◌&&◌, Option, none, some, List, [], ◌∷◌, ◌++◌,
  Text, same_text, lookup, insert, delete, length, ◌==◌, if◌then◌else◌, Bool-cases, if-cases, All,
  arith,
}
use ghc_gateway.Accounts.Lane.{CoordinationLane, fresh_lane, pending, run, settle, abort}
use ghc_gateway.Accounts.Lane.Laws.{
  Busy, Idle, Holds, run-Busy, settle-kept, abort-Busy, pending-Busy, pending-Idle,
}
use ghc_gateway.Accounts.Coordinator.{
  Lanes, AccountCoordinator, fresh_coordinator, is_idle, nothing_pending, changed, put_lifecycle,
  put_generation, with_lifecycle, with_credential_generation, lane_or_new, stop, drain, close,
  if_lifecycle, if_generation, in_lane, Entered, closed_error, abort_error, taken, Event,
  enters_lifecycle, enters_generation, settles_lifecycle, aborts_lifecycle, drains, closes,
  settles_generation, aborts_generation, stops, step, run_events, generation_pending, inspect,
}

-- Every lane of the map has a work under way.
abbrev pub AllBusy : Lanes → Type 0
AllBusy lanes = All (λ entry. Busy (entry.1)) lanes

-- A lane is idle or runs one work, no idle lane is kept for an account, and `drain` waits only while
-- something is pending.
abbrev pub WellFormed : AccountCoordinator → Type 0
WellFormed c =
    (Busy c.lifecycle ⊎ Idle c.lifecycle)
    × AllBusy c.generations
    × ((is_idle c ≡ false) ⊎ (c.drain_waiters ≡ []))

delete-AllBusy : (account : Text) (lanes : Lanes) → AllBusy lanes → AllBusy (delete account lanes)
unfolding delete
delete-AllBusy account [] h = h
delete-AllBusy account ((key, lane) ∷ lanes) h = elim (Bool-cases (same_text key account)) [
  | inl e ↦ rw (e) h.1
  | inr e ↦ rw (e) (h.0, delete-AllBusy account lanes h.1)
]

insert-AllBusy :
    (account : Text) (new : CoordinationLane) (lanes : Lanes)
    → Busy new
    → AllBusy lanes
    → AllBusy (insert account new lanes)
unfolding insert
insert-AllBusy account new [] k h = (k, tt)
insert-AllBusy account new ((key, lane) ∷ lanes) k h = elim (Bool-cases (same_text key account)) [
  | inl e ↦ rw (e) (k, h.1)
  | inr e ↦ rw (e) (h.0, insert-AllBusy account new lanes k h.1)
]

-- The lane at an account, or the one that is made for it.
found-Busy : (account : Text) (lanes : Lanes) → AllBusy lanes → Holds Busy (lookup account lanes)
unfolding lookup
found-Busy account [] h = tt
found-Busy account ((key, lane) ∷ lanes) h = elim (Bool-cases (same_text key account)) [
  | inl e ↦ rw (e) h.0
  | inr e ↦ rw (e) (found-Busy account lanes h.1)
]

pub changed-WellFormed :
    (c : AccountCoordinator)
    → Busy c.lifecycle ⊎ Idle c.lifecycle
    → AllBusy c.generations
    → WellFormed (changed c)
unfolding changed
changed-WellFormed c h k =
    if-cases WellFormed (is_idle c)
      (record c { drain_waiters = []; drained = c.drained ++ c.drain_waiters }) c
      (λ e. (h, k, inr refl)) (λ e. (h, k, inl e))

put_lifecycle-WellFormed :
    (c : AccountCoordinator) (lane : CoordinationLane)
    → Busy lane ⊎ Idle lane
    → WellFormed c
    → WellFormed (put_lifecycle c lane)
unfolding put_lifecycle
put_lifecycle-WellFormed c lane h (_, k, _) = changed-WellFormed (record c { lifecycle = lane }) h k

next_lanes-AllBusy :
    (account : Text) (lane : CoordinationLane) (lanes : Lanes)
    → Busy lane ⊎ Idle lane
    → AllBusy lanes
    → AllBusy (if pending lane == 0 then delete account lanes else insert account lane lanes)
next_lanes-AllBusy account lane lanes (inl busy) k =
    rw (pending-Busy lane busy) (insert-AllBusy account lane lanes busy k)
next_lanes-AllBusy account lane lanes (inr idle) k =
    rw (pending-Idle lane idle) (delete-AllBusy account lanes k)

put_generation-WellFormed :
    (c : AccountCoordinator) (account : Text) (lane : CoordinationLane)
    → Busy lane ⊎ Idle lane
    → WellFormed c
    → WellFormed (put_generation c account lane)
unfolding put_generation
put_generation-WellFormed c account lane h (l, k, _) =
    changed-WellFormed
      (record c {
        generations =
            if pending lane == 0
            then delete account c.generations
            else insert account lane c.generations;
      })
      l (next_lanes-AllBusy account lane c.generations h k)

if_lifecycle-WellFormed :
    (c : AccountCoordinator) (o : Option CoordinationLane)
    → Holds (λ lane. Busy lane ⊎ Idle lane) o
    → WellFormed c
    → WellFormed (if_lifecycle c o)
if_lifecycle-WellFormed c none h w = w
if_lifecycle-WellFormed c (some lane) h w = put_lifecycle-WellFormed c lane h w

if_generation-WellFormed :
    (c : AccountCoordinator) (account : Text) (o : Option CoordinationLane)
    → Holds (λ lane. Busy lane ⊎ Idle lane) o
    → WellFormed c
    → WellFormed (if_generation c account o)
if_generation-WellFormed c account none h w = w
if_generation-WellFormed c account (some lane) h w = put_generation-WellFormed c account lane h w

pub stop-WellFormed : (c : AccountCoordinator) → WellFormed c → WellFormed (stop c)
unfolding stop
stop-WellFormed c w =
    if-cases WellFormed c.stopped c (changed (record c { stopped = true })) (λ e. w)
      (λ e. changed-WellFormed (record c { stopped = true }) w.0 w.1)

pub drain-WellFormed :
    (c : AccountCoordinator) (waiter : ℕ) → WellFormed c → WellFormed (drain c waiter)
unfolding drain
drain-WellFormed c waiter w =
    if-cases WellFormed (is_idle c) (record c { drained = c.drained ++ waiter ∷ [] })
      (record c { drain_waiters = c.drain_waiters ++ waiter ∷ [] }) (λ e. w)
      (λ e. (w.0, w.1, inl e))

weakened : (o : Option CoordinationLane) → Holds Busy o → Holds (λ lane. Busy lane ⊎ Idle lane) o
weakened none h = tt
weakened (some lane) h = inl h

run_at-Busy :
    (o : Option CoordinationLane) (work : ℕ) → Holds Busy o → Busy (run (lane_or_new o) work)
run_at-Busy none work h = run-Busy fresh_lane work (inr (refl, refl, refl))
run_at-Busy (some lane) work h = run-Busy lane work (inl h)

settle_at-kept :
    (o : Option CoordinationLane) (work : ℕ)
    → Holds Busy o
    → Holds (λ lane. Busy lane ⊎ Idle lane) (in_lane o (λ lane. settle lane work))
settle_at-kept none work h = tt
settle_at-kept (some lane) work h = settle-kept lane work (inl h)

abort_at-Busy :
    (o : Option CoordinationLane) (work : ℕ)
    → Holds Busy o
    → Holds (λ lane. Busy lane ⊎ Idle lane) (in_lane o (λ lane. abort lane work))
abort_at-Busy none work h = tt
abort_at-Busy (some lane) work h = weakened (abort lane work) (abort-Busy lane work (inl h))

-- A call that is refused, or that takes its work.
entered-WellFormed :
    (c d : AccountCoordinator) (signal_aborted : Bool)
    → WellFormed c
    → WellFormed d
    → WellFormed
        (if◌then◌else◌ {A = AccountCoordinator × Entered} c.stopped
          (c, closed_error)
          (if signal_aborted then (c, abort_error) else (d, taken))).0
entered-WellFormed c d signal_aborted w v =
    if-cases (λ (p : AccountCoordinator × Entered). WellFormed p.0) c.stopped (c, closed_error)
      (if signal_aborted then (c, abort_error) else (d, taken)) (λ e. w)
      λ e.
        if-cases (λ (p : AccountCoordinator × Entered). WellFormed p.0) signal_aborted
          (c, abort_error) (d, taken) (λ f. w) (λ f. v)

pub step-WellFormed :
    (c : AccountCoordinator) (event : Event) → WellFormed c → WellFormed (step c event)
unfolding step with_lifecycle with_credential_generation close
step-WellFormed c (enters_lifecycle signal_aborted work) w =
    entered-WellFormed c (put_lifecycle c (run c.lifecycle work)) signal_aborted w
      (put_lifecycle-WellFormed c (run c.lifecycle work) (inl (run-Busy c.lifecycle work w.0)) w)
step-WellFormed c (enters_generation account signal_aborted work) w =
    entered-WellFormed c
      (put_generation c account (run (lane_or_new (lookup account c.generations)) work))
      signal_aborted w
      (put_generation-WellFormed c account (run (lane_or_new (lookup account c.generations)) work)
        (inl
          (run_at-Busy (lookup account c.generations) work (found-Busy account c.generations w.1)))
        w)
step-WellFormed c (settles_lifecycle work) w =
    if_lifecycle-WellFormed c (settle c.lifecycle work) (settle-kept c.lifecycle work w.0) w
step-WellFormed c (aborts_lifecycle work) w =
    if_lifecycle-WellFormed c (abort c.lifecycle work)
      (weakened (abort c.lifecycle work) (abort-Busy c.lifecycle work w.0)) w
step-WellFormed c (settles_generation account work) w =
    if_generation-WellFormed c account
      (in_lane (lookup account c.generations) (λ lane. settle lane work))
      (settle_at-kept (lookup account c.generations) work (found-Busy account c.generations w.1)) w
step-WellFormed c (aborts_generation account work) w =
    if_generation-WellFormed c account
      (in_lane (lookup account c.generations) (λ lane. abort lane work))
      (abort_at-Busy (lookup account c.generations) work (found-Busy account c.generations w.1)) w
step-WellFormed c stops w = stop-WellFormed c w
step-WellFormed c (drains waiter) w = drain-WellFormed c waiter w
step-WellFormed c (closes waiter) w = drain-WellFormed (stop c) waiter (stop-WellFormed c w)

run_from-WellFormed :
    (c : AccountCoordinator) (events : List Event) → WellFormed c → WellFormed (run_events c events)
unfolding run_events
run_from-WellFormed c [] w = w
run_from-WellFormed c (event ∷ events) w =
    run_from-WellFormed (step c event) events (step-WellFormed c event w)

-- After any calls, settled works and aborted signals in any order, a lane either runs exactly one
-- work, or is inactive with none under way and none waiting; every lane that is kept for an account
-- runs a work; and a caller of `drain` waits only while something is pending.
pub run_events-WellFormed : (events : List Event) → WellFormed (run_events fresh_coordinator events)
run_events-WellFormed events =
    run_from-WellFormed fresh_coordinator events (inr (refl, refl, refl), tt, inr refl)

pub generation_pending-AllBusy :
    (lanes : Lanes) → AllBusy lanes → (generation_pending lanes == 0) ≡ (length lanes == 0)
unfolding generation_pending
generation_pending-AllBusy [] h = refl
generation_pending-AllBusy ((key, lane) ∷ lanes) h = ground (arith, pending-Busy lane h.0)

-- After any history, what `inspect` says of idleness is what `drain` and `close` wait for.
pub inspect-idle :
    (events : List Event)
    → (inspect (run_events fresh_coordinator events)).idle
      ≡ is_idle (run_events fresh_coordinator events)
unfolding inspect nothing_pending
inspect-idle events =
    let c = run_events fresh_coordinator events in
    ap (λ b. pending c.lifecycle == 0 && b)
      (generation_pending-AllBusy c.generations (run_events-WellFormed events).1)
