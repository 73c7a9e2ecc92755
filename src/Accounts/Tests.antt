-- ===== src/Accounts/Tests.antt =====
-- The coordinator of src/accounts/account_coordinator.ts at concrete inputs.
use ghc_gateway.Base.{◌≡◌, refl, true, false, List, [], ◌∷◌, text}
use ghc_gateway.Accounts.Lane.{
  LaneEvent, runs, settles, aborts, run_lane, fresh_lane, pending, run, settle, abort, proceed,
  admit, remove_work,
}
use ghc_gateway.Accounts.Lane.Laws.{Idle}
use ghc_gateway.Accounts.Lane.Order.{Sublist, in_turn, calls, run_lane-in_order, run_lane-all}
use ghc_gateway.Accounts.Lane.Finishing.{settle_times, run_lane-comes_to_rest}
use ghc_gateway.Accounts.Coordinator.{
  Event, enters_lifecycle, enters_generation, settles_lifecycle, aborts_generation, drains,
  fresh_coordinator, run_events, is_idle, inspect, close,
}
use ghc_gateway.Accounts.Coordinator.Kept.{WellFormed, run_events-WellFormed, inspect-idle}
use ghc_gateway.Accounts.Coordinator.Draining.{settle_all, total_pending, close-drains}
use ghc_gateway.Accounts.Lane.{includes}

abbrev turns : List LaneEvent
turns = runs 1 ∷ runs 2 ∷ runs 3 ∷ aborts 2 ∷ settles 1 ∷ []

abbrev served : List LaneEvent
served = runs 1 ∷ runs 2 ∷ settles 1 ∷ runs 3 ∷ []

abbrev history : List Event
history =
    enters_lifecycle false 1
    ∷ enters_generation (text "a") false 2
    ∷ enters_generation (text "a") false 3
    ∷ drains 7
    ∷ aborts_generation (text "a") 3
    ∷ settles_lifecycle 1
    ∷ []

turns-in_turn : in_turn (run_lane fresh_lane turns) ≡ 1 ∷ 3 ∷ []
unfolding run_lane run settle abort proceed admit remove_work
turns-in_turn = refl

run_lane-in_order_example : Sublist (in_turn (run_lane fresh_lane turns)) (calls turns)
run_lane-in_order_example = run_lane-in_order turns

run_lane-all_example : in_turn (run_lane fresh_lane served) ≡ calls served
run_lane-all_example = run_lane-all served refl

run_lane-comes_to_rest_example :
    Idle (settle_times (pending (run_lane fresh_lane turns)) (run_lane fresh_lane turns))
    × ((settle_times (pending (run_lane fresh_lane turns)) (run_lane fresh_lane turns)).started
        ≡ in_turn (run_lane fresh_lane turns))
run_lane-comes_to_rest_example = run_lane-comes_to_rest turns

run_events-WellFormed_example : WellFormed (run_events fresh_coordinator history)
run_events-WellFormed_example = run_events-WellFormed history

inspect-idle_example :
    (inspect (run_events fresh_coordinator history)).idle
    ≡ is_idle (run_events fresh_coordinator history)
inspect-idle_example = inspect-idle history

close-drains_example :
    (is_idle (
        settle_all
          (total_pending (close (run_events fresh_coordinator history) 8))
          (close (run_events fresh_coordinator history) 8))
      ≡ true)
    × (includes
          (settle_all
            (total_pending (close (run_events fresh_coordinator history) 8))
            (close (run_events fresh_coordinator history) 8)).drained
          8
        ≡ true)
close-drains_example = close-drains history 8
