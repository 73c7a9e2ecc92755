-- ===== src/Accounts/Coordinator.antt =====
-- src/accounts/account_coordinator.ts: `AccountCoordinator`, one lane for the lifecycle and one for
-- each account whose credentials are renewed.
--
-- A lane leaves the map with nothing pending, so a lane outside the map has no work left, and the
-- lane that the code holds is the one in the map. The `catch` of `withCredentialGeneration` deletes
-- a lane that has nothing pending and is still in the map; there is none.
pub mod Kept
pub mod Draining
use ghc_gateway.Base.{
  ℕ, ◌+◌, Bool, true, false, ◌&&◌, Option, none, some, List, [], ◌∷◌, ◌++◌, Text, same_text, lookup,
  insert, delete, length, ◌==◌, if◌then◌else◌,
}
use ghc_gateway.Accounts.Lane.{CoordinationLane, fresh_lane, pending, run, settle, abort}

abbrev pub Lanes : Type 0
Lanes = List (Text × CoordinationLane)

-- `drained` holds the promises of `drain` that were resolved.
pub record AccountCoordinator : Type 0 where
  pub stopped : Bool
  pub lifecycle : CoordinationLane
  pub generations : Lanes
  pub drain_waiters : List ℕ
  pub drained : List ℕ

abbrev pub fresh_coordinator : AccountCoordinator
fresh_coordinator = record {
  stopped = false;
  lifecycle = fresh_lane;
  generations = [];
  drain_waiters = [];
  drained = [];
}

-- How a call leaves its caller: refused as closed or as aborted, or with work that was taken.
pub data Entered : Type 0 where
  closed_error abort_error taken : Entered

unfoldable pub nothing_pending : CoordinationLane → Lanes → Bool
nothing_pending lifecycle generations = pending lifecycle == 0 && length generations == 0

-- `isIdle`
abbrev pub is_idle : AccountCoordinator → Bool
is_idle c = nothing_pending c.lifecycle c.generations

unfoldable pub changed : AccountCoordinator → AccountCoordinator
changed c =
    if is_idle c then record c { drain_waiters = []; drained = c.drained ++ c.drain_waiters } else c

-- The lane of the lifecycle has changed.
unfoldable pub put_lifecycle : AccountCoordinator → CoordinationLane → AccountCoordinator
put_lifecycle c lane = changed (record c { lifecycle = lane })

-- `generationChanged`
unfoldable pub put_generation : AccountCoordinator → Text → CoordinationLane → AccountCoordinator
put_generation c account lane = changed (record c {
  generations =
      if pending lane == 0 then delete account c.generations else insert account lane c.generations;
})

unfoldable pub with_lifecycle : AccountCoordinator → Bool → ℕ → AccountCoordinator × Entered
with_lifecycle c signal_aborted work =
    if c.stopped
    then (c, closed_error)
    else if signal_aborted
    then (c, abort_error)
    else (put_lifecycle c (run c.lifecycle work), taken)

abbrev pub lane_or_new : Option CoordinationLane → CoordinationLane
lane_or_new none = fresh_lane
lane_or_new (some lane) = lane

unfoldable pub with_credential_generation :
    AccountCoordinator → Text → Bool → ℕ → AccountCoordinator × Entered
with_credential_generation c account signal_aborted work =
    if c.stopped
    then (c, closed_error)
    else if signal_aborted
    then (c, abort_error)
    else (put_generation c account (run (lane_or_new (lookup account c.generations)) work), taken)

unfoldable pub stop : AccountCoordinator → AccountCoordinator
stop c = if c.stopped then c else changed (record c { stopped = true })

-- The promise is resolved at once where nothing is pending.
unfoldable pub drain : AccountCoordinator → ℕ → AccountCoordinator
drain c waiter =
    if is_idle c
    then record c { drained = c.drained ++ waiter ∷ [] }
    else record c { drain_waiters = c.drain_waiters ++ waiter ∷ [] }

unfoldable pub close : AccountCoordinator → ℕ → AccountCoordinator
close c waiter = drain (stop c) waiter

-- What becomes of a lane, if anything does.
abbrev pub if_lifecycle : AccountCoordinator → Option CoordinationLane → AccountCoordinator
if_lifecycle c none = c
if_lifecycle c (some lane) = put_lifecycle c lane

abbrev pub if_generation : AccountCoordinator → Text → Option CoordinationLane → AccountCoordinator
if_generation c account none = c
if_generation c account (some lane) = put_generation c account lane

abbrev pub in_lane :
    Option CoordinationLane → (CoordinationLane → Option CoordinationLane) → Option CoordinationLane
in_lane none f = none
in_lane (some lane) f = f lane

pub data Event : Type 0 where
  enters_lifecycle : Bool → ℕ → Event
  enters_generation : Text → Bool → ℕ → Event
  settles_lifecycle aborts_lifecycle drains closes : ℕ → Event
  settles_generation aborts_generation : Text → ℕ → Event
  stops : Event

unfoldable pub step : AccountCoordinator → Event → AccountCoordinator
step c (enters_lifecycle signal_aborted work) = (with_lifecycle c signal_aborted work).0
step c (enters_generation account signal_aborted work) =
    (with_credential_generation c account signal_aborted work).0
step c (settles_lifecycle work) = if_lifecycle c (settle c.lifecycle work)
step c (aborts_lifecycle work) = if_lifecycle c (abort c.lifecycle work)
step c (settles_generation account work) =
    if_generation c account (in_lane (lookup account c.generations) (λ lane. settle lane work))
step c (aborts_generation account work) =
    if_generation c account (in_lane (lookup account c.generations) (λ lane. abort lane work))
step c stops = stop c
step c (drains waiter) = drain c waiter
step c (closes waiter) = close c waiter

unfoldable pub run_events : AccountCoordinator → List Event → AccountCoordinator
run_events c [] = c
run_events c (event ∷ events) = run_events (step c event) events

unfoldable pub generation_pending : Lanes → ℕ
generation_pending [] = 0
generation_pending ((key, lane) ∷ lanes) = pending lane + generation_pending lanes

-- `AccountCoordinatorInspection`
pub record Inspection : Type 0 where
  pub is_stopped : Bool
  pub idle : Bool
  pub lifecycle_pending : ℕ
  pub generation_keys : ℕ
  pub generations_pending : ℕ

unfoldable pub inspect : AccountCoordinator → Inspection
inspect c = record {
  is_stopped = c.stopped;
  idle = pending c.lifecycle == 0 && generation_pending c.generations == 0;
  lifecycle_pending = pending c.lifecycle;
  generation_keys = length c.generations;
  generations_pending = generation_pending c.generations;
}
