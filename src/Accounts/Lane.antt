-- ===== src/Accounts/Lane.antt =====
-- src/accounts/account_coordinator.ts: `CoordinationLane`, which runs one piece of work at a time.
--
-- A piece of work is a number that names its node in the queue. What the code does between two
-- awaits is one operation.
pub mod Laws
pub mod Order
pub mod Finishing
use ghc_gateway.Base.{
  ℕ, ◌+◌, Bool, true, false, Option, none, some, List, [], ◌∷◌, ◌++◌, length, any, ◌==◌,
  if◌then◌else◌,
}

-- `admitted` holds the nodes whose `admit` is under way, and `started` all that were ever admitted,
-- in order.
pub record CoordinationLane : Type 0 where
  pub active : Bool
  pub queue : List ℕ
  pub admitted : List ℕ
  pub started : List ℕ

abbrev pub fresh_lane : CoordinationLane
fresh_lane = record { active = false; queue = []; admitted = []; started = [] }

unfoldable pub pending : CoordinationLane → ℕ
pending lane = length lane.queue + (if lane.active then 1 else 0)

abbrev pub includes : List ℕ → ℕ → Bool
includes works work = any (λ w. w == work) works

-- `queue.splice(queue.indexOf(work), 1)`
unfoldable pub remove_work : ℕ → List ℕ → List ℕ
remove_work work [] = []
remove_work work (w ∷ works) =
    let rest = remove_work work works in if w == work then works else w ∷ rest

-- `admit`, up to the `await` of the work.
unfoldable pub admit : CoordinationLane → ℕ → CoordinationLane
admit lane work = record lane {
  admitted = lane.admitted ++ work ∷ [];
  started = lane.started ++ work ∷ [];
}

-- `run`, for a signal that has not been aborted.
unfoldable pub run : CoordinationLane → ℕ → CoordinationLane
run lane work =
    if lane.active
    then record lane { queue = lane.queue ++ work ∷ [] }
    else admit (record lane { active = true }) work

-- The `finally` of `admit`.
unfoldable pub proceed : CoordinationLane → CoordinationLane
proceed lane = elim lane.queue [
  | [] ↦ record lane { active = false }
  | next ∷ rest ↦ admit (record lane { active = true; queue = rest }) next
]

-- The promise of an admitted work is settled; none where it is not under way.
unfoldable pub settle : CoordinationLane → ℕ → Option CoordinationLane
settle lane work =
    if includes lane.admitted work
    then some (proceed (record lane { admitted = remove_work work lane.admitted }))
    else none

-- The listener on the signal of a queued work; none where it does nothing.
unfoldable pub abort : CoordinationLane → ℕ → Option CoordinationLane
abort lane work =
    if includes lane.queue work
    then some (record lane { queue = remove_work work lane.queue })
    else none

-- The calls on a lane and what becomes of their works.
pub data LaneEvent : Type 0 where
  runs settles aborts : ℕ → LaneEvent

abbrev pub or_same : Option CoordinationLane → CoordinationLane → CoordinationLane
or_same none lane = lane
or_same (some next) lane = next

unfoldable pub step : CoordinationLane → LaneEvent → CoordinationLane
unfolding run settle abort
step lane (runs work) = run lane work
step lane (settles work) = or_same (settle lane work) lane
step lane (aborts work) = or_same (abort lane work) lane

unfoldable pub run_lane : CoordinationLane → List LaneEvent → CoordinationLane
unfolding step
run_lane lane [] = lane
run_lane lane (event ∷ events) = run_lane (step lane event) events
