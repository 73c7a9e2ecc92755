-- ===== src/Accounts/Coordinator/Draining.antt =====
-- What `close` of src/accounts/account_coordinator.ts waits for.
use ghc_gateway.Base.{
  ℕ, zero, suc, ◌+◌, ◌≡◌, refl, sym, ap, subst, ◌∙◌, ◌⊎◌, inl, inr, true, false, some, List, [],
  ◌∷◌, ◌++◌, Text, same_text_self, lookup, insert, delete, ◌==◌, if◌then◌else◌, if-cases, arith,
}
use ghc_gateway.Accounts.Lane.{CoordinationLane, pending, includes, settle}
use ghc_gateway.Accounts.Lane.Laws.{Busy, Idle, pending-Idle}
use ghc_gateway.Accounts.Lane.Finishing.{settled, settle-settled, pending-settled, under_way}
use ghc_gateway.Accounts.Coordinator.{
  Lanes, AccountCoordinator, fresh_coordinator, is_idle, nothing_pending, changed, put_lifecycle,
  put_generation, stop, drain, close, if_lifecycle, if_generation, in_lane, Event,
  settles_lifecycle, settles_generation, closes, step, run_events, generation_pending,
}
use ghc_gateway.Accounts.Coordinator.Kept.{
  WellFormed, AllBusy, generation_pending-AllBusy, step-WellFormed, run_events-WellFormed,
}

-- The work under way on the first lane of an account is settled.
abbrev pub settle_generation : AccountCoordinator → Lanes → AccountCoordinator
settle_generation c [] = c
settle_generation c ((key, lane) ∷ lanes) = elim lane.admitted [
  | [] ↦ c
  | work ∷ works ↦ step c (settles_generation key work)
]

-- One work that is under way is settled: the lifecycle's, or else one of the first account.
abbrev pub settle_one : AccountCoordinator → AccountCoordinator
settle_one c = elim c.lifecycle.admitted [
  | [] ↦ settle_generation c c.generations
  | work ∷ works ↦ step c (settles_lifecycle work)
]

abbrev pub settle_all : ℕ → AccountCoordinator → AccountCoordinator
settle_all zero c = c
settle_all (suc n) c = settle_all n (settle_one c)

abbrev pub total_pending : AccountCoordinator → ℕ
total_pending c = pending c.lifecycle + generation_pending c.generations

-- The caller of `drain` waits, or its promise is resolved.
abbrev Watched : ℕ → AccountCoordinator → Type 0
Watched waiter c = (includes c.drain_waiters waiter ≡ true) ⊎ (includes c.drained waiter ≡ true)

includes-append_left :
    (xs ys : List ℕ) (w : ℕ) → includes xs w ≡ true → includes (xs ++ ys) w ≡ true
includes-append_left [] ys w h = ground arith
includes-append_left (x ∷ xs) ys w h = ground (arith, includes-append_left xs ys w)

includes-append_right :
    (xs ys : List ℕ) (w : ℕ) → includes ys w ≡ true → includes (xs ++ ys) w ≡ true
includes-append_right [] ys w h = h
includes-append_right (x ∷ xs) ys w h = ground (arith, includes-append_right xs ys w h)

changed-Watched :
    (waiter : ℕ) (c : AccountCoordinator) → Watched waiter c → Watched waiter (changed c)
unfolding changed
changed-Watched waiter c h =
    if-cases (Watched waiter) (is_idle c)
      (record c { drain_waiters = []; drained = c.drained ++ c.drain_waiters }) c
      (λ e. inr (moved h)) (λ e. h)
  where
    moved : Watched waiter c → includes (c.drained ++ c.drain_waiters) waiter ≡ true
    moved (inl waits) = includes-append_right c.drained c.drain_waiters waiter waits
    moved (inr done) = includes-append_left c.drained c.drain_waiters waiter done

drain-Watched : (waiter : ℕ) (c : AccountCoordinator) → Watched waiter (drain c waiter)
unfolding drain
drain-Watched waiter c =
    if-cases (Watched waiter) (is_idle c) (record c { drained = c.drained ++ waiter ∷ [] })
      (record c { drain_waiters = c.drain_waiters ++ waiter ∷ [] })
      (λ e. inr (includes-append_right c.drained (waiter ∷ []) waiter (ground arith)))
      (λ e. inl (includes-append_right c.drain_waiters (waiter ∷ []) waiter (ground arith)))

changed-lanes :
    (c : AccountCoordinator)
    → ((changed c).lifecycle ≡ c.lifecycle) × ((changed c).generations ≡ c.generations)
unfolding changed
changed-lanes c =
    if-cases (λ d. (d.lifecycle ≡ c.lifecycle) × (d.generations ≡ c.generations)) (is_idle c)
      (record c { drain_waiters = []; drained = c.drained ++ c.drain_waiters }) c
      (λ e. (refl, refl)) (λ e. (refl, refl))

total_pending-changed : (c : AccountCoordinator) → total_pending (changed c) ≡ total_pending c
total_pending-changed c =
    let (lifecycle, generations) = changed-lanes c in
    ap (λ lane. pending lane + generation_pending (changed c).generations) lifecycle
    ∙ ap (λ lanes. pending c.lifecycle + generation_pending lanes) generations

-- One work less is pending, and nobody's wait is forgotten.
abbrev Lowered : AccountCoordinator → AccountCoordinator → Type 0
Lowered c d =
    (suc (total_pending d) ≡ total_pending c)
    × WellFormed d
    × ((waiter : ℕ) → Watched waiter c → Watched waiter d)

changed-Lowered :
    (c d : AccountCoordinator)
    → suc (total_pending d) ≡ total_pending c
    → WellFormed (changed d)
    → ((waiter : ℕ) → Watched waiter c → Watched waiter d)
    → Lowered c (changed d)
changed-Lowered c d h w k = (
  ap suc (total_pending-changed d) ∙ h,
  w,
  λ waiter known. changed-Watched waiter d (k waiter known),
)

settles_lifecycle-Lowered :
    (c : AccountCoordinator) (work : ℕ)
    → WellFormed c
    → c.lifecycle.active ≡ true
    → c.lifecycle.admitted ≡ work ∷ []
    → Lowered c (step c (settles_lifecycle work))
settles_lifecycle-Lowered c work w on e =
    let d : AccountCoordinator = record c { lifecycle = settled c.lifecycle } in
    let same : step c (settles_lifecycle work) ≡ changed d =
      unfold step put_lifecycle in ap (if_lifecycle c) (settle-settled c.lifecycle work e) in
    let fewer = pending-settled c.lifecycle on in
    subst (Lowered c) (sym same) (
      changed-Lowered c d (omega arith)
        (subst WellFormed same (step-WellFormed c (settles_lifecycle work) w))
        (λ waiter known. known))

-- The lanes once the first of them has been settled.
first_settled :
    (key : Text) (lane new : CoordinationLane) (lanes : Lanes)
    → generation_pending (
        if pending new == 0
        then delete key ((key, lane) ∷ lanes)
        else insert key new ((key, lane) ∷ lanes))
      ≡ pending new + generation_pending lanes
unfolding delete insert generation_pending
first_settled key lane new lanes = ground (arith, same_text_self key)

settles_generation-Lowered :
    (c : AccountCoordinator) (key : Text) (lane : CoordinationLane) (lanes : Lanes) (work : ℕ)
    → WellFormed c
    → c.generations ≡ (key, lane) ∷ lanes
    → lane.active ≡ true
    → lane.admitted ≡ work ∷ []
    → Lowered c (step c (settles_generation key work))
settles_generation-Lowered c key lane lanes work w all on e =
    let next : Lanes =
      if pending (settled lane) == 0
      then delete key c.generations
      else insert key (settled lane) c.generations in
    let d : AccountCoordinator = record c { generations = next } in
    let found : lookup key c.generations ≡ some lane =
      ap (lookup key) all ∙ (unfold lookup in rw (same_text_self) refl) in
    let same : step c (settles_generation key work) ≡ changed d =
      unfold step put_generation in
      ap (λ o. if_generation c key (in_lane o (λ l. settle l work))) found
      ∙ ap (if_generation c key) (settle-settled lane work e) in
    let total : generation_pending next ≡ pending (settled lane) + generation_pending lanes =
      ap
        (λ entries. generation_pending (
          if pending (settled lane) == 0
          then delete key entries
          else insert key (settled lane) entries))
        all
      ∙ first_settled key lane (settled lane) lanes in
    let before : generation_pending c.generations ≡ pending lane + generation_pending lanes =
      ap generation_pending all ∙ (unfold generation_pending in refl) in
    let fewer = pending-settled lane on in
    subst (Lowered c) (sym same) (
      changed-Lowered c d (omega arith)
        (subst WellFormed same (step-WellFormed c (settles_generation key work) w))
        (λ waiter known. known))

settle_generation-Lowered :
    (c : AccountCoordinator) (lanes : Lanes) (n : ℕ)
    → WellFormed c
    → AllBusy lanes
    → c.generations ≡ lanes
    → generation_pending lanes ≡ suc n
    → Lowered c (settle_generation c lanes)
settle_generation-Lowered c [] n w h all some_left =
    let empty : generation_pending [] ≡ 0 = unfold generation_pending in refl in ground arith
settle_generation-Lowered c ((key, lane) ∷ lanes) n w h all some_left =
    let (work, e) = under_way lane h.0 in
    subst
      (λ works.
        Lowered c (elim works [ [] ↦ c | first ∷ rest ↦ step c (settles_generation key first) ]))
      (sym e) (settles_generation-Lowered c key lane lanes work w all h.0.0 e)

settle_one-Lowered :
    (c : AccountCoordinator) (n : ℕ)
    → WellFormed c
    → total_pending c ≡ suc n
    → Lowered c (settle_one c)
settle_one-Lowered c n w some_left = cases w.0
  where
    by_works : List ℕ → AccountCoordinator
    by_works works = elim works [
      | [] ↦ settle_generation c c.generations
      | work ∷ rest ↦ step c (settles_lifecycle work)
    ]

    cases : Busy c.lifecycle ⊎ Idle c.lifecycle → Lowered c (settle_one c)
    cases (inl busy) =
        let (work, e) = under_way c.lifecycle busy in
        subst (λ works. Lowered c (by_works works)) (sym e)
          (settles_lifecycle-Lowered c work w busy.0 e)
    cases (inr (off, none_in, empty)) =
        let nothing = pending-Idle c.lifecycle (off, none_in, empty) in
        subst (λ works. Lowered c (by_works works)) (sym none_in)
          (settle_generation-Lowered c c.generations n w w.1 refl (omega arith))

-- With nothing pending, the promise of everyone who waited is resolved.
at_rest :
    (c : AccountCoordinator) (waiter : ℕ)
    → WellFormed c
    → total_pending c ≡ 0
    → Watched waiter c
    → (is_idle c ≡ true) × (includes c.drained waiter ≡ true)
unfolding nothing_pending
at_rest c waiter w none_left known = (idle, resolved w.2 known)
  where
    idle : is_idle c ≡ true
    idle =
        let same = generation_pending-AllBusy c.generations w.1 in
        let lifecycle : pending c.lifecycle ≡ 0 = omega arith in
        let generations : generation_pending c.generations ≡ 0 = omega arith in ground arith

    resolved :
        (is_idle c ≡ false) ⊎ (c.drain_waiters ≡ [])
        → Watched waiter c
        → includes c.drained waiter ≡ true
    resolved busy (inr done) = done
    resolved (inl busy) (inl waits) = let at_ease = idle in cc
    resolved (inr nobody) (inl waits) =
        let absent : includes c.drain_waiters waiter ≡ false =
          ap (λ works. includes works waiter) nobody in
        cc

settle_all-rests :
    (n : ℕ) (c : AccountCoordinator) (waiter : ℕ)
    → WellFormed c
    → total_pending c ≡ n
    → Watched waiter c
    → (is_idle (settle_all n c) ≡ true) × (includes (settle_all n c).drained waiter ≡ true)
settle_all-rests zero c waiter w h known = at_rest c waiter w h known
settle_all-rests (suc n) c waiter w h known =
    let (fewer, kept, still) = settle_one-Lowered c n w h in
    settle_all-rests n (settle_one c) waiter kept (omega arith) (still waiter known)

-- Whatever the coordinator has been through, once `close` has been called and each of the works that
-- are then pending is settled, one after the other, the coordinator is idle and the promise of `close` is
-- resolved.
pub close-drains :
    (events : List Event) (waiter : ℕ)
    → let closing = close (run_events fresh_coordinator events) waiter in
      (is_idle (settle_all (total_pending closing) closing) ≡ true)
      × (includes (settle_all (total_pending closing) closing).drained waiter ≡ true)
unfolding close step
close-drains events waiter =
    let c = run_events fresh_coordinator events in
    settle_all-rests (total_pending (close c waiter)) (close c waiter) waiter
      (step-WellFormed c (closes waiter) (run_events-WellFormed events)) refl
      (drain-Watched waiter (stop c))
