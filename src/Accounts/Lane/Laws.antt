-- ===== src/Accounts/Lane/Laws.antt =====
-- The works under way on a lane of src/accounts/account_coordinator.ts.
use ghc_gateway.Base.{
  ℕ, suc, ◌≡◌, refl, ap, ◌⊎◌, inl, inr, Bool, true, false, Option, none, some, List, [], ◌∷◌, ◌++◌,
  length, ◌==◌, if◌then◌else◌, arith,
}
use ghc_gateway.Accounts.Lane.{
  CoordinationLane, pending, includes, remove_work, admit, run, proceed, settle, abort,
}

-- One work is under way.
abbrev pub Busy : CoordinationLane → Type 0
Busy lane = (lane.active ≡ true) × (length lane.admitted ≡ 1)

-- No work is under way, and none waits.
abbrev pub Idle : CoordinationLane → Type 0
Idle lane = (lane.active ≡ false) × (lane.admitted ≡ []) × (lane.queue ≡ [])

pub length-remove_work :
    (work : ℕ) (works : List ℕ)
    → includes works work ≡ true
    → suc (length (remove_work work works)) ≡ length works
unfolding remove_work
length-remove_work work [] h = cc
length-remove_work work (w ∷ works) h = ground (arith, length-remove_work work works)

no_entries : (works : List ℕ) → length works ≡ 0 → works ≡ []
no_entries [] h = refl
no_entries (w ∷ works) h = ground arith

pub run-Busy : (lane : CoordinationLane) (work : ℕ) → Busy lane ⊎ Idle lane → Busy (run lane work)
unfolding run admit
run-Busy lane work (inl (on, one)) = simp (on) (refl, one)
run-Busy lane work (inr (off, none_in, empty)) =
    simp (off) (refl, ap (λ works. length (works ++ work ∷ [])) none_in)

pub proceed-kept :
    (lane : CoordinationLane) → lane.admitted ≡ [] → Busy (proceed lane) ⊎ Idle (proceed lane)
unfolding proceed admit
proceed-kept lane h = cases lane.queue
  where
    cases :
        (queue : List ℕ)
        → Busy (proceed (record lane { queue = queue }))
          ⊎ Idle (proceed (record lane { queue = queue }))
    cases [] = inr (refl, h, refl)
    cases (next ∷ rest) = inl (refl, ap (λ works. length (works ++ next ∷ [])) h)

-- The predicate holds of what there is.
abbrev pub Holds : {A : Type 0} → (A → Type 0) → Option A → Type 0
Holds P none = Unit {0}
Holds P (some a) = P a

guarded-Holds :
    {A : Type 0} (P : A → Type 0) (b : Bool) (a : A)
    → (b ≡ true → P a)
    → Holds P (if b then some a else none)
guarded-Holds P true a h = h refl
guarded-Holds P false a h = tt

-- A lane where a work is under way was busy, and is empty once that work is taken off.
emptied :
    (lane : CoordinationLane) (work : ℕ)
    → Busy lane ⊎ Idle lane
    → includes lane.admitted work ≡ true
    → remove_work work lane.admitted ≡ []
emptied lane work (inl (on, one)) there =
    let shorter = length-remove_work work lane.admitted there in
    no_entries (remove_work work lane.admitted) (omega arith)
emptied lane work (inr (off, none_in, empty)) there =
    let absent : includes lane.admitted work ≡ false = ap (λ works. includes works work) none_in in
    cc

pub settle-kept :
    (lane : CoordinationLane) (work : ℕ)
    → Busy lane ⊎ Idle lane
    → Holds (λ next. Busy next ⊎ Idle next) (settle lane work)
unfolding settle
settle-kept lane work h =
    guarded-Holds (λ next. Busy next ⊎ Idle next) (includes lane.admitted work)
      (proceed (record lane { admitted = remove_work work lane.admitted }))
      λ there.
        proceed-kept (record lane { admitted = remove_work work lane.admitted })
          (emptied lane work h there)

pub abort-Busy :
    (lane : CoordinationLane) (work : ℕ) → Busy lane ⊎ Idle lane → Holds Busy (abort lane work)
unfolding abort
abort-Busy lane work h =
    guarded-Holds Busy (includes lane.queue work)
      (record lane { queue = remove_work work lane.queue }) (busy h)
  where
    busy :
        Busy lane ⊎ Idle lane
        → includes lane.queue work ≡ true
        → Busy (record lane { queue = remove_work work lane.queue })
    busy (inl known) there = known
    busy (inr (off, none_in, empty)) there =
        let absent : includes lane.queue work ≡ false = ap (λ works. includes works work) empty in
        cc

-- A busy lane has something pending, and an idle one has nothing.
pub pending-Busy : (lane : CoordinationLane) → Busy lane → (pending lane == 0) ≡ false
unfolding pending
pending-Busy lane (on, one) = rw (on) (ground arith)

pub pending-Idle : (lane : CoordinationLane) → Idle lane → pending lane ≡ 0
unfolding pending
pending-Idle lane (off, none_in, empty) = rw (off, empty) refl
