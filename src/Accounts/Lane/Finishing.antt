-- ===== src/Accounts/Lane/Finishing.antt =====
-- A lane of src/accounts/account_coordinator.ts that gets no more calls.
use ghc_gateway.Base.{
  ℕ, zero, suc, ◌+◌, ◌≡◌, refl, sym, ap, subst, ◌∙◌, inl, inr, Bool, true, false, Option, none,
  some, if◌then◌else◌, List, [], ◌∷◌, ◌++◌, append-nil, length, ◌==◌, arith,
}
use ghc_gateway.Accounts.Lane.{
  CoordinationLane, fresh_lane, pending, includes, remove_work, admit, proceed, settle, LaneEvent,
  or_same, run_lane,
}
use ghc_gateway.Accounts.Lane.Laws.{Busy, Idle, proceed-kept, pending-Busy, pending-Idle}
use ghc_gateway.Accounts.Lane.Order.{in_turn, Steady, proceed-in_turn, run_from-Steady}

-- The work that is under way is settled.
abbrev pub settle_next : CoordinationLane → CoordinationLane
settle_next lane = elim lane.admitted [ [] ↦ lane | work ∷ works ↦ or_same (settle lane work) lane ]

abbrev pub settle_times : ℕ → CoordinationLane → CoordinationLane
settle_times zero lane = lane
settle_times (suc n) lane = settle_times n (settle_next lane)

-- The lane once its work has been settled.
abbrev pub settled : CoordinationLane → CoordinationLane
settled lane = proceed (record lane { admitted = [] })

pub settle-settled :
    (lane : CoordinationLane) (work : ℕ)
    → lane.admitted ≡ work ∷ []
    → settle lane work ≡ some (settled lane)
unfolding settle remove_work
settle-settled lane work h =
    subst (λ works. taken works ≡ some (settled lane)) (sym h) (alone (work == work) (ground arith))
  where
    taken : List ℕ → Option CoordinationLane
    taken works =
        if includes works work
        then some (proceed (record lane { admitted = remove_work work works }))
        else none

    alone :
        (b : Bool)
        → b ≡ true
        → (if (if b then true else false)
            then some (proceed (record lane { admitted = if b then [] else work ∷ [] }))
            else none)
          ≡ some (settled lane)
    alone true e = refl
    alone false e = ground arith

pub pending-settled :
    (lane : CoordinationLane) → lane.active ≡ true → suc (pending (settled lane)) ≡ pending lane
unfolding proceed admit pending
pending-settled lane on = rw (on) (cases lane.queue)
  where
    cases :
        (queue : List ℕ)
        → suc (pending (settled (record lane { queue = queue }))) ≡ length queue + 1
    cases [] = refl
    cases (next ∷ rest) = omega arith

the_one : (works : List ℕ) → length works ≡ 1 → (work : ℕ) × (works ≡ work ∷ [])
the_one [] h = ground arith
the_one (work ∷ []) h = (work, refl)
the_one (work ∷ other ∷ works) h = ground arith

-- The work that a busy lane has under way.
pub under_way : (lane : CoordinationLane) → Busy lane → (work : ℕ) × (lane.admitted ≡ work ∷ [])
under_way lane (on, one) = the_one lane.admitted one

settle_next-settled : (lane : CoordinationLane) → Busy lane → settle_next lane ≡ settled lane
settle_next-settled lane h =
    let (work, e) = under_way lane h in
    subst (λ works. elim works [ [] ↦ lane | w ∷ ws ↦ or_same (settle lane w) lane ] ≡ settled lane)
      (sym e) (ap (λ o. or_same o lane) (settle-settled lane work e))

comes_to_rest :
    (n : ℕ) (lane : CoordinationLane)
    → Steady lane
    → pending lane ≡ n
    → Idle (settle_times n lane) × ((settle_times n lane).started ≡ in_turn lane)
comes_to_rest zero lane (inl busy) h = let some_left = pending-Busy lane busy in ground arith
comes_to_rest zero lane (inr (off, none_in, empty)) h = (
  (off, none_in, empty),
  sym (append-nil lane.started) ∙ ap (λ works. lane.started ++ works) (sym empty),
)
comes_to_rest (suc n) lane (inr idle) h = let none_left = pending-Idle lane idle in ground arith
comes_to_rest (suc n) lane (inl busy) h =
    let less = pending-settled lane busy.0 in
    let fewer : pending (settled lane) ≡ n = omega arith in
    let (rest, all) =
      comes_to_rest n (settled lane) (proceed-kept (record lane { admitted = [] }) refl) fewer in
    let moved = settle_next-settled lane busy in
    (
      subst (λ l. Idle (settle_times n l)) (sym moved) rest,
      ap (λ l. (settle_times n l).started) moved
          ∙ all
          ∙ proceed-in_turn (record lane { admitted = [] }),
    )

-- Whatever a lane has been through, once the works under way have been settled `pending` times it is
-- inactive with no work left, and has begun all that waited, in order.
pub run_lane-comes_to_rest :
    (events : List LaneEvent)
    → Idle (settle_times (pending (run_lane fresh_lane events)) (run_lane fresh_lane events))
      × ((settle_times (pending (run_lane fresh_lane events)) (run_lane fresh_lane events)).started
          ≡ in_turn (run_lane fresh_lane events))
run_lane-comes_to_rest events =
    let lane = run_lane fresh_lane events in
    comes_to_rest (pending lane) lane (run_from-Steady fresh_lane events (inr (refl, refl, refl)))
      refl
