-- ===== src/Accounts/Lane/Order.antt =====
-- The order in which a lane of src/accounts/account_coordinator.ts runs its works.
use ghc_gateway.Base.{
  ℕ, ◌≡◌, refl, sym, ap, subst, ◌∙◌, ◌⊎◌, inl, inr, Bool, true, false, Option, none, some, List, [],
  ◌∷◌, ◌++◌, append-nil, append_assoc, ◌==◌, if-cases, arith,
}
use ghc_gateway.Accounts.Lane.{
  CoordinationLane, fresh_lane, includes, remove_work, admit, run, proceed, settle, abort,
  LaneEvent, runs, settles, aborts, or_same, step, run_lane,
}
use ghc_gateway.Accounts.Lane.Laws.{Busy, Idle, Holds, run-Busy, settle-kept, abort-Busy}

-- The works that were begun and those that wait, in this order.
abbrev pub in_turn : CoordinationLane → List ℕ
in_turn lane = lane.started ++ lane.queue

-- The works that a sequence of calls hands to the lane.
abbrev pub calls : List LaneEvent → List ℕ
calls [] = []
calls (runs work ∷ events) = work ∷ calls events
calls (settles work ∷ events) = calls events
calls (aborts work ∷ events) = calls events

-- Some entries left out, the others in their order.
pub data Sublist : List ℕ → List ℕ → Type 0 where
  nothing : Sublist [] []
  keeps : {w : ℕ} {xs ys : List ℕ} → Sublist xs ys → Sublist (w ∷ xs) (w ∷ ys)
  leaves_out : {w : ℕ} {xs ys : List ℕ} → Sublist xs ys → Sublist xs (w ∷ ys)

Sublist_self : (xs : List ℕ) → Sublist xs xs
Sublist_self [] = nothing
Sublist_self (x ∷ xs) = keeps (Sublist_self xs)

Sublist_trans : (xs ys zs : List ℕ) → Sublist xs ys → Sublist ys zs → Sublist xs zs
Sublist_trans xs ys zs h nothing = h
Sublist_trans xs ys zs h (leaves_out k) = leaves_out (Sublist_trans xs _ _ h k)
Sublist_trans _ _ _ (keeps h) (keeps k) = keeps (Sublist_trans _ _ _ h k)
Sublist_trans xs _ _ (leaves_out h) (keeps k) = leaves_out (Sublist_trans xs _ _ h k)

Sublist-append : (xs ys zs : List ℕ) → Sublist xs ys → Sublist (xs ++ zs) (ys ++ zs)
Sublist-append _ _ zs nothing = Sublist_self zs
Sublist-append _ _ zs (keeps h) = keeps (Sublist-append _ _ zs h)
Sublist-append xs _ zs (leaves_out h) = leaves_out (Sublist-append xs _ zs h)

Sublist-before : (xs ys zs : List ℕ) → Sublist ys zs → Sublist (xs ++ ys) (xs ++ zs)
Sublist-before [] ys zs h = h
Sublist-before (x ∷ xs) ys zs h = keeps (Sublist-before xs ys zs h)

remove_work-Sublist : (work : ℕ) (works : List ℕ) → Sublist (remove_work work works) works
unfolding remove_work
remove_work-Sublist work [] = nothing
remove_work-Sublist work (w ∷ works) =
    if-cases (λ xs. Sublist xs (w ∷ works)) (w == work) works (w ∷ remove_work work works)
      (λ e. leaves_out (Sublist_self works)) (λ e. keeps (remove_work-Sublist work works))

-- A lane that takes its works in turn, with the calls that come after it.
run-in_turn :
    (lane : CoordinationLane) (work : ℕ)
    → Busy lane ⊎ Idle lane
    → in_turn (run lane work) ≡ in_turn lane ++ work ∷ []
unfolding run admit
run-in_turn lane work (inl (on, one)) =
    simp (on) (sym (append_assoc lane.started lane.queue (work ∷ [])))
run-in_turn lane work (inr (off, none_in, empty)) = simp (off, empty, append-nil) refl

pub proceed-in_turn : (lane : CoordinationLane) → in_turn (proceed lane) ≡ in_turn lane
unfolding proceed admit
proceed-in_turn lane = cases lane.queue
  where
    cases :
        (queue : List ℕ)
        → in_turn (proceed (record lane { queue = queue }))
          ≡ in_turn (record lane { queue = queue })
    cases [] = refl
    cases (next ∷ rest) = append_assoc lane.started (next ∷ []) rest

abbrev pub Steady : CoordinationLane → Type 0
Steady lane = Busy lane ⊎ Idle lane

step-Steady : (lane : CoordinationLane) (event : LaneEvent) → Steady lane → Steady (step lane event)
unfolding step
step-Steady lane (runs work) h = inl (run-Busy lane work h)
step-Steady lane (settles work) h = same (settle lane work) (settle-kept lane work h)
  where
    same : (o : Option CoordinationLane) → Holds Steady o → Steady (or_same o lane)
    same none k = h
    same (some next) k = k
step-Steady lane (aborts work) h = same (abort lane work) (abort-Busy lane work h)
  where
    same : (o : Option CoordinationLane) → Holds Busy o → Steady (or_same o lane)
    same none k = h
    same (some next) k = inl k

pub run_from-Steady :
    (lane : CoordinationLane) (events : List LaneEvent)
    → Steady lane
    → Steady (run_lane lane events)
unfolding run_lane
run_from-Steady lane [] h = h
run_from-Steady lane (event ∷ events) h =
    run_from-Steady (step lane event) events (step-Steady lane event h)

settle-in_turn :
    (lane : CoordinationLane) (work : ℕ) → in_turn (or_same (settle lane work) lane) ≡ in_turn lane
unfolding settle
settle-in_turn lane work =
    if-cases (λ o. in_turn (or_same o lane) ≡ in_turn lane) (includes lane.admitted work)
      (some (proceed (record lane { admitted = remove_work work lane.admitted }))) none
      (λ e. proceed-in_turn (record lane { admitted = remove_work work lane.admitted })) (λ e. refl)

abort-in_turn :
    (lane : CoordinationLane) (work : ℕ)
    → Sublist (in_turn (or_same (abort lane work) lane)) (in_turn lane)
unfolding abort
abort-in_turn lane work =
    if-cases (λ o. Sublist (in_turn (or_same o lane)) (in_turn lane)) (includes lane.queue work)
      (some (record lane { queue = remove_work work lane.queue })) none
      (λ e.
        Sublist-before lane.started (remove_work work lane.queue) lane.queue
          (remove_work-Sublist work lane.queue))
      (λ e. Sublist_self (in_turn lane))

from_here :
    (lane : CoordinationLane) (events : List LaneEvent)
    → Steady lane
    → Sublist (in_turn (run_lane lane events)) (in_turn lane ++ calls events)
unfolding run_lane step
from_here lane [] h = rw (append-nil (in_turn lane)) (Sublist_self (in_turn lane))
from_here lane (runs work ∷ events) h =
    subst (λ works. Sublist (in_turn (run_lane (run lane work) events)) works)
      (ap (λ works. works ++ calls events) (run-in_turn lane work h)
        ∙ append_assoc (in_turn lane) (work ∷ []) (calls events))
      (from_here (run lane work) events (step-Steady lane (runs work) h))
from_here lane (settles work ∷ events) h =
    subst (λ works. Sublist (in_turn (run_lane (step lane (settles work)) events)) works)
      (ap (λ works. works ++ calls events) (settle-in_turn lane work))
      (from_here (step lane (settles work)) events (step-Steady lane (settles work) h))
from_here lane (aborts work ∷ events) h =
    Sublist_trans _ _ _
      (from_here (step lane (aborts work)) events (step-Steady lane (aborts work) h))
      (Sublist-append _ _ (calls events) (abort-in_turn lane work))

-- No signal of a waiting work is aborted.
abbrev pub no_aborts : List LaneEvent → Bool
no_aborts [] = true
no_aborts (runs work ∷ events) = no_aborts events
no_aborts (settles work ∷ events) = no_aborts events
no_aborts (aborts work ∷ events) = false

all_from_here :
    (lane : CoordinationLane) (events : List LaneEvent)
    → Steady lane
    → no_aborts events ≡ true
    → in_turn (run_lane lane events) ≡ in_turn lane ++ calls events
unfolding run_lane step
all_from_here lane [] h k = sym (append-nil (in_turn lane))
all_from_here lane (runs work ∷ events) h k =
    all_from_here (run lane work) events (step-Steady lane (runs work) h) k
    ∙ ap (λ works. works ++ calls events) (run-in_turn lane work h)
    ∙ append_assoc (in_turn lane) (work ∷ []) (calls events)
all_from_here lane (settles work ∷ events) h k =
    all_from_here (step lane (settles work)) events (step-Steady lane (settles work) h) k
    ∙ ap (λ works. works ++ calls events) (settle-in_turn lane work)
all_from_here lane (aborts work ∷ events) h k = ground arith

-- The works that a lane has begun, followed by those that wait, are works that it was given, in the
-- order of the calls.
pub run_lane-in_order :
    (events : List LaneEvent) → Sublist (in_turn (run_lane fresh_lane events)) (calls events)
run_lane-in_order events = from_here fresh_lane events (inr (refl, refl, refl))

-- Where no waiting work is aborted, the works that a lane has begun, followed by those that wait,
-- are all that it was given, in the order of the calls.
pub run_lane-all :
    (events : List LaneEvent)
    → no_aborts events ≡ true
    → in_turn (run_lane fresh_lane events) ≡ calls events
run_lane-all events h = all_from_here fresh_lane events (inr (refl, refl, refl)) h
