-- ===== src/Conversion/Planner/Plans.antt =====
-- What src/protocols/conversion/planner.ts plans.
use ghc_gateway.Base.{
  ℕ, ◌≤◌, ◌≡◌, refl, sym, ap, subst, ◌∙◌, ◌⊎◌, inl, inr, Bool, true, false, ◌||◌, Option, none,
  some, List, [], ◌∷◌, All, leb, Bool-cases, Option-cases, if◌then◌else◌, arith,
}
use ghc_gateway.Gateway.Failures.{Thrown, Cause}
use ghc_gateway.Conversion.Routing.{
  InferenceProtocol, chat, messages, responses, same_protocol, has_protocol, protocol_targets,
  protocol_targets-supported, same_protocol-eq,
}
use ghc_gateway.Conversion.Planner.{
  RequestCodecs, ConversionPlanningInput, ProtocolExecutionPlan, native, converted, Planned,
  plans_native_execution, is_unsupported, insert_by_rank, sort_by_rank, reasoning_target_rank,
  assert_native_custom_tool_support, observe_native_plan, caught, plan_for, attempted, after_decode,
  try_candidates, candidates, order_candidates, convert_request, plan_protocol_execution,
}

has_protocol-insert :
    (rank : InferenceProtocol → ℕ) (p : InferenceProtocol) (qs : List InferenceProtocol)
    (t : InferenceProtocol)
    → has_protocol (insert_by_rank rank p qs) t ≡ (same_protocol p t || has_protocol qs t)
unfolding insert_by_rank has_protocol
has_protocol-insert rank p [] t = ground arith
has_protocol-insert rank p (q ∷ qs) t = ground (arith, has_protocol-insert rank p qs t)

-- Sorting loses no candidate and adds none.
has_protocol-sort :
    (rank : InferenceProtocol → ℕ) (ps : List InferenceProtocol) (t : InferenceProtocol)
    → has_protocol (sort_by_rank rank ps) t ≡ has_protocol ps t
unfolding sort_by_rank has_protocol
has_protocol-sort rank [] t = refl
has_protocol-sort rank (p ∷ ps) t =
    ground (arith, has_protocol-insert rank p (sort_by_rank rank ps) t, has_protocol-sort rank ps t)

abbrev Falling : (InferenceProtocol → ℕ) → List InferenceProtocol → Type 0
Falling rank [] = Unit {0}
Falling rank (p ∷ ps) = All (λ q. rank q ≤ rank p) ps × Falling rank ps

All-insert :
    (rank : InferenceProtocol → ℕ) (bound : ℕ) (p : InferenceProtocol) (qs : List InferenceProtocol)
    → rank p ≤ bound
    → All (λ q. rank q ≤ bound) qs
    → All (λ q. rank q ≤ bound) (insert_by_rank rank p qs)
unfolding insert_by_rank
All-insert rank bound p [] h hs = (h, tt)
All-insert rank bound p (q ∷ qs) h hs = ground (arith, All-insert rank bound p qs h hs.1)

All-raise :
    (rank : InferenceProtocol → ℕ) (low high : ℕ) (qs : List InferenceProtocol)
    → low ≤ high
    → All (λ q. rank q ≤ low) qs
    → All (λ q. rank q ≤ high) qs
All-raise rank low high [] h hs = tt
All-raise rank low high (q ∷ qs) h hs = (omega arith, All-raise rank low high qs h hs.1)

insert-Falling :
    (rank : InferenceProtocol → ℕ) (p : InferenceProtocol) (qs : List InferenceProtocol)
    → Falling rank qs
    → Falling rank (insert_by_rank rank p qs)
unfolding insert_by_rank
insert-Falling rank p [] f = (tt, tt)
insert-Falling rank p (q ∷ qs) f = elim (Bool-cases (leb (rank q) (rank p))) [
  | inl le ↦ rw le ((ground arith, All-raise rank (rank q) (rank p) qs (ground arith) f.0), f)
  | inr gt ↦ rw gt (All-insert rank (rank q) p qs (ground arith) f.0, insert-Falling rank p qs f.1)
]

-- The candidates are tried by falling rank.
pub sort-Falling :
    (rank : InferenceProtocol → ℕ) (ps : List InferenceProtocol)
    → Falling rank (sort_by_rank rank ps)
unfolding sort_by_rank
sort-Falling rank [] = tt
sort-Falling rank (p ∷ ps) = insert-Falling rank p (sort_by_rank rank ps) (sort-Falling rank ps)

abbrev pub Respects : Option InferenceProtocol → InferenceProtocol → Type 0
Respects none target = Unit {0}
Respects (some forced) target = same_protocol forced target ≡ true

targets_supported :
    (source target : InferenceProtocol) (protocols : List InferenceProtocol)
    → has_protocol (protocol_targets source protocols) target ≡ true
    → has_protocol protocols target ≡ true
targets_supported source target protocols h =
    ground
      (arith, protocol_targets-supported source target protocols, same_protocol-eq source target)

has_single : (p t : InferenceProtocol) → has_protocol (p ∷ []) t ≡ same_protocol p t
unfolding has_protocol
has_single p t = ground arith

forced_suits :
    (protocols : List InferenceProtocol) (forced t : InferenceProtocol)
    → has_protocol (if has_protocol protocols forced then forced ∷ [] else []) t ≡ true
    → (has_protocol protocols t ≡ true) × (same_protocol forced t ≡ true)
forced_suits protocols forced t g = elim (Bool-cases (has_protocol protocols forced)) [
  | inl yes_ ↦
      let same : same_protocol forced t ≡ true = sym (has_single forced t) ∙ (rw yes_ at g) in
      (subst (λ q. has_protocol protocols q ≡ true) (same_protocol-eq forced t same) yes_, same)
  | inr no_ ↦ absurd (has_nothing t (rw no_ at g))
]
  where
    has_nothing : (q : InferenceProtocol) → has_protocol [] q ≡ true → ⊥
    has_nothing q h = unfold has_protocol in cc

native_source :
    (protocols : List InferenceProtocol) (source : InferenceProtocol)
    (forced : Option InferenceProtocol)
    → plans_native_execution (some protocols) source forced ≡ true
    → (has_protocol protocols source ≡ true) × Respects forced source
unfolding plans_native_execution
native_source protocols source none h = (h, tt)
native_source protocols source (some forced) h = ground arith

-- A supported candidate that is not the source of a native plan differs from the source.
not_source :
    (protocols : List InferenceProtocol) (source target : InferenceProtocol)
    (forced : Option InferenceProtocol)
    → plans_native_execution (some protocols) source forced ≡ false
    → has_protocol protocols target ≡ true
    → Respects forced target
    → same_protocol target source ≡ false
unfolding plans_native_execution
not_source protocols source target none n h r = elim (Bool-cases (same_protocol target source)) [
  | inl same ↦ absurd (
      clash (subst (λ q. has_protocol protocols q ≡ true) (same_protocol-eq target source same) h)
        n)
  | inr other ↦ other
]
  where
    clash : {b : Bool} → b ≡ true → b ≡ false → ⊥
    clash h g = cc
not_source protocols source target (some forced) n h r =
    elim (Bool-cases (same_protocol target source)) [
      | inl same ↦
          absurd (ground (arith, same_protocol-eq target source, same_protocol-eq forced target))
      | inr other ↦ other
    ]

same_protocol_self : (p : InferenceProtocol) → same_protocol p p ≡ true
unfolding same_protocol
same_protocol_self chat = refl
same_protocol_self messages = refl
same_protocol_self responses = refl

All-has :
    (P : InferenceProtocol → Type 0) (targets : List InferenceProtocol)
    → ((t : InferenceProtocol) → has_protocol targets t ≡ true → P t)
    → All P targets
unfolding has_protocol
All-has P [] h = tt
All-has P (t ∷ targets) h =
    (h t (rw (same_protocol_self t)), All-has P targets (λ u m. h u (weaken (same_protocol t u) m)))
  where
    weaken : (b : Bool) {c : Bool} → c ≡ true → (if b then true else c) ≡ true
    weaken true h = refl
    weaken false h = h

module _ (codecs : RequestCodecs) (input : ConversionPlanningInput codecs.CarrierRecords)
    (protocols : List InferenceProtocol) where
  open codecs use {Semantic, Encoded, reasoning, decode, encode}

  candidates_suit :
      (target : InferenceProtocol)
      → has_protocol (candidates codecs input protocols) target ≡ true
      → (has_protocol protocols target ≡ true) × Respects input.forced_target target
  unfolding candidates
  candidates_suit target h = elim (Option-cases input.forced_target) [
    | inl none_ ↦ rw none_ (targets_supported input.source target protocols (rw none_ at h), tt)
    | inr (forced, some_) ↦ rw some_ (forced_suits protocols forced target (rw some_ at h))
  ]

  -- What a plan may be: for the input's source; native only where the source is supported; converted
  -- only to another protocol that is supported, by a request that the codecs made of the body; and
  -- to the forced target, if there is one.
  abbrev pub Suitable : Planned codecs → Type 0
  Suitable (inl (native source stream)) =
      (source ≡ input.source)
      × (stream ≡ input.stream)
      × (has_protocol protocols source ≡ true)
      × Respects input.forced_target source
  Suitable (inl (converted source target stream model request)) =
      (source ≡ input.source)
      × (stream ≡ input.stream)
      × (model ≡ input.resolved_model)
      × (same_protocol target source ≡ false)
      × (has_protocol protocols target ≡ true)
      × Respects input.forced_target target
      × ((decoded : Semantic) × (decode source input.body input.carrier_records ≡ inl decoded)
          × (encode target decoded model input.capability ≡ inl request))
  Suitable (inr failure) = Unit {0}

  native-Suitable :
      plans_native_execution (some protocols) input.source input.forced_target ≡ true
      → Suitable (observe_native_plan codecs input)
  unfolding plans_native_execution observe_native_plan
  native-Suitable h = elim (Option-cases (assert_native_custom_tool_support codecs input)) [
    | inl fine ↦
        rw (fine, Suitable)
          (
            refl,
            refl,
            (native_source protocols input.source input.forced_target h).0,
            (native_source protocols input.source input.forced_target h).1,
          )
    | inr (failure, refused) ↦ rw (refused, Suitable) tt
  ]

  -- One candidate, if the rest of the loop suits.
  attempted-Suitable :
      (decoded : Semantic) (target : InferenceProtocol) (next : Cause → Planned codecs)
      (made : Encoded ⊎ Thrown)
      → decode input.source input.body input.carrier_records ≡ inl decoded
      → encode target decoded input.resolved_model input.capability ≡ made
      → same_protocol target input.source ≡ false
      → (has_protocol protocols target ≡ true) × Respects input.forced_target target
      → ((cause : Cause) → Suitable (next cause))
      → Suitable (attempted codecs input target next made)
  unfolding attempted
  attempted-Suitable decoded target next (inl request) d e other fit rest =
      (refl, refl, refl, other, fit.0, fit.1, (decoded, d, e))
  attempted-Suitable decoded target next (inr error) d e other fit rest =
      elim (Option-cases (is_unsupported error)) [
        | inl fatal ↦ rw (fatal, Suitable) tt
        | inr (cause, soft) ↦ rw (soft, Suitable) (rest cause)
      ]

  loop-Suitable :
      (decoded : Semantic) (last : Option Cause) (targets : List InferenceProtocol)
      → plans_native_execution (some protocols) input.source input.forced_target ≡ false
      → decode input.source input.body input.carrier_records ≡ inl decoded
      → All (λ t. (has_protocol protocols t ≡ true) × Respects input.forced_target t) targets
      → Suitable (try_candidates codecs input decoded last targets)
  unfolding try_candidates
  loop-Suitable decoded last [] n d h = tt
  loop-Suitable decoded last (target ∷ targets) n d h =
      let other = not_source protocols input.source target input.forced_target n h.0.0 h.0.1 in
      rw (other, Suitable)
        (attempted-Suitable decoded target
          (λ cause. try_candidates codecs input decoded (some cause) targets)
          (encode target decoded input.resolved_model input.capability) d refl other h.0
          (λ cause. loop-Suitable decoded (some cause) targets n d h.1))

  order_has :
      (decoded : Semantic) (targets : List InferenceProtocol) (t : InferenceProtocol)
      → has_protocol (order_candidates codecs input.capability decoded targets) t
        ≡ has_protocol targets t
  unfolding order_candidates
  order_has decoded targets t = elim (Option-cases (reasoning decoded)) [
    | inl absent ↦ rw (absent, order_candidates)
    | inr (effort, present) ↦
        rw (present, order_candidates)
          (has_protocol-sort (λ target. reasoning_target_rank input.capability target effort)
            targets t)
  ]

  abbrev Fits : InferenceProtocol → Type 0
  Fits t = (has_protocol protocols t ≡ true) × Respects input.forced_target t

  decoded-Suitable :
      (targets : List InferenceProtocol) (body : Semantic ⊎ Thrown)
      → decode input.source input.body input.carrier_records ≡ body
      → plans_native_execution (some protocols) input.source input.forced_target ≡ false
      → ((t : InferenceProtocol) → has_protocol targets t ≡ true → Fits t)
      → Suitable (after_decode codecs input targets body)
  unfolding after_decode
  decoded-Suitable targets (inr error) d n h = tt
  decoded-Suitable targets (inl decoded) d n h =
      let ordered = order_candidates codecs input.capability decoded targets in
      loop-Suitable decoded none ordered n d
        (All-has Fits ordered (λ t m. h t (sym (order_has decoded targets t) ∙ m)))

  convert-Suitable :
      (targets : List InferenceProtocol)
      → plans_native_execution (some protocols) input.source input.forced_target ≡ false
      → ((t : InferenceProtocol) → has_protocol targets t ≡ true → Fits t)
      → Suitable (convert_request codecs input targets)
  unfolding convert_request
  convert-Suitable [] n h = tt
  convert-Suitable (target ∷ targets) n h =
      decoded-Suitable (target ∷ targets) (decode input.source input.body input.carrier_records)
        refl n h

  -- Every plan serves the input's own protocol and stream mode. It is native only where the model
  -- supports the source; otherwise it goes to another supported protocol, with a request that the
  -- codecs made of the decoded body. A forced target is always kept to.
  pub plan-Suitable :
      input.capability.protocols ≡ some protocols → Suitable (plan_protocol_execution codecs input)
  unfolding plan_protocol_execution
  plan-Suitable known = subst (λ p. Suitable (plan_for codecs input p)) (sym known) suits
    where
      suits : Suitable (plan_for codecs input (some protocols))
      suits =
          unfold plan_for in
          elim (Bool-cases
            (plans_native_execution (some protocols) input.source input.forced_target)) [
              | inl yes_ ↦ rw (yes_, Suitable) (native-Suitable yes_)
              | inr no_ ↦
                  rw (no_, Suitable)
                    (convert-Suitable (candidates codecs input protocols) no_ candidates_suit)
            ]

  -- The encoder refuses only for unsupported semantics.
  abbrev pub Soft : Semantic → Type 0
  Soft decoded =
      (t : InferenceProtocol) (error : Thrown)
      → encode t decoded input.resolved_model input.capability ≡ inr error
      → (cause : Cause) × (is_unsupported error ≡ some cause)

  attempted-finds :
      (decoded : Semantic) (target : InferenceProtocol) (next : Cause → Planned codecs)
      (made : Encoded ⊎ Thrown)
      → encode target decoded input.resolved_model input.capability ≡ made
      → Soft decoded
      → ((cause : Cause) → (plan : ProtocolExecutionPlan codecs) × (next cause ≡ inl plan))
      → (plan : ProtocolExecutionPlan codecs) × (attempted codecs input target next made ≡ inl plan)
  unfolding attempted
  attempted-finds decoded target next (inl request) e soft rest =
      (converted input.source target input.stream input.resolved_model request, refl)
  attempted-finds decoded target next (inr error) e soft rest =
      let (cause, unsupported) = soft target error e in
      let (plan, found) = rest cause in (plan, rw (unsupported, caught) found)

  loop-finds :
      (decoded : Semantic) (last : Option Cause) (targets : List InferenceProtocol)
      (good : InferenceProtocol) (request : Encoded)
      → plans_native_execution (some protocols) input.source input.forced_target ≡ false
      → All Fits targets
      → Soft decoded
      → has_protocol targets good ≡ true
      → encode good decoded input.resolved_model input.capability ≡ inl request
      → (plan : ProtocolExecutionPlan codecs) × (try_candidates codecs input decoded last targets
          ≡ inl plan)
  unfolding try_candidates has_protocol
  loop-finds decoded last [] good request n fits soft h e = cc
  loop-finds decoded last (target ∷ targets) good request n fits soft h e =
      let other =
        not_source protocols input.source target input.forced_target n fits.0.0 fits.0.1 in
      elim (Bool-cases (same_protocol target good)) [
        | inl same ↦
            let made : encode target decoded input.resolved_model input.capability ≡ inl request =
              rw (same_protocol-eq target good same) e in
            (
              converted input.source target input.stream input.resolved_model request,
              rw (other, made, attempted),
            )
        | inr differs ↦
            let (plan, found) =
              attempted-finds decoded target
                (λ cause. try_candidates codecs input decoded (some cause) targets)
                (encode target decoded input.resolved_model input.capability) refl soft
                (λ cause.
                  loop-finds decoded (some cause) targets good request n fits.1 soft
                    (rw differs at h) e) in
            (plan, rw other found)
      ]

  convert_finds :
      (decoded : Semantic) (targets : List InferenceProtocol) (good : InferenceProtocol)
      (request : Encoded)
      → plans_native_execution (some protocols) input.source input.forced_target ≡ false
      → decode input.source input.body input.carrier_records ≡ inl decoded
      → ((t : InferenceProtocol) → has_protocol targets t ≡ true → Fits t)
      → Soft decoded
      → has_protocol targets good ≡ true
      → encode good decoded input.resolved_model input.capability ≡ inl request
      → (plan : ProtocolExecutionPlan codecs) × (convert_request codecs input targets ≡ inl plan)
  convert_finds decoded [] good request n d fits soft m e = absurd (unfold has_protocol in cc)
  convert_finds decoded (target ∷ targets) good request n d fits soft m e =
      let ordered = order_candidates codecs input.capability decoded (target ∷ targets) in
      let has = order_has decoded (target ∷ targets) in
      let (plan, found) =
        loop-finds decoded none ordered good request n
          (All-has Fits ordered (λ t k. fits t (sym (has t) ∙ k))) soft (has good ∙ m) e in
      (plan, unfold convert_request after_decode in rw (d, after_decode) found)

  plan-converts :
      input.capability.protocols ≡ some protocols
      → plans_native_execution (some protocols) input.source input.forced_target ≡ false
      → plan_protocol_execution codecs input
        ≡ convert_request codecs input (candidates codecs input protocols)
  unfolding plan_protocol_execution
  plan-converts known n = ap (plan_for codecs input) known ∙ unfold plan_for in rw n

  -- A conversion that exists is found: where no native plan applies, the body decodes, the encoder
  -- refuses only for unsupported semantics, and one candidate's encoder accepts, there is a plan.
  pub plan-finds :
      (decoded : Semantic) (good : InferenceProtocol) (request : Encoded)
      → input.capability.protocols ≡ some protocols
      → plans_native_execution (some protocols) input.source input.forced_target ≡ false
      → decode input.source input.body input.carrier_records ≡ inl decoded
      → Soft decoded
      → has_protocol (candidates codecs input protocols) good ≡ true
      → encode good decoded input.resolved_model input.capability ≡ inl request
      → (plan : ProtocolExecutionPlan codecs) × (plan_protocol_execution codecs input ≡ inl plan)
  plan-finds decoded good request known n d soft h e =
      let (plan, found) =
        convert_finds decoded (candidates codecs input protocols) good request n d candidates_suit
          soft h e in
      (plan, plan-converts known n ∙ found)
