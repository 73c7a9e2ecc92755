-- ===== src/Conversion/Planner.antt =====
-- src/protocols/conversion/planner.ts: a request is served natively, converted, or refused.
--
-- The codecs of request/*.ts are the parameter `RequestCodecs`; the diagnostics that the planner
-- records on its way are left out.
pub mod Plans
use ghc_gateway.Base.{
  ℕ, ◌≤◌, ◌≡◌, refl, ◌⊎◌, inl, inr, Bool, true, false, not, ◌&&◌, ◌||◌, Option, none, some, List,
  [], ◌∷◌, Text, text, same_text, trim, to_lower_case, any, leb, if◌then◌else◌,
}
use ghc_gateway.WireJson.Syntax.{
  WireJson, Items, Members, null, boolean, string, number, array, object, member_values, item_list,
}
use ghc_gateway.Gateway.Failures.{
  GatewayFailure, Thrown, gateway_failure, thrown, Cause, model_capability_unavailable,
  custom_tools_unsupported, wire_json, contract, other_error, StaticGatewayFailureKind, static,
  unsupported_semantics, internal, converter, convert,
}
use ghc_gateway.Conversion.Routing.{
  InferenceProtocol, chat, messages, responses, same_protocol, has_protocol, protocol_targets,
}

pub data SupportedReasoningEffort : Type 0 where
  no_effort minimal low medium high xhigh max : SupportedReasoningEffort

unfoldable pub same_effort : SupportedReasoningEffort → SupportedReasoningEffort → Bool
same_effort no_effort no_effort = true
same_effort minimal minimal = true
same_effort low low = true
same_effort medium medium = true
same_effort high high = true
same_effort xhigh xhigh = true
same_effort max max = true
same_effort _ _ = false

-- What the planner reads of the model's capability snapshot.
pub record Capability : Type 0 where
  pub protocols : Option (List InferenceProtocol)
  pub vendor : Text
  pub reasoning_levels : List SupportedReasoningEffort
  pub reasoning_protocols : List InferenceProtocol

-- An absent effort is asked for by `none`.
unfoldable pub supports_model_reasoning :
    Capability → InferenceProtocol → Option SupportedReasoningEffort → Bool
unfolding same_effort
supports_model_reasoning capability protocol none =
    has_protocol capability.reasoning_protocols protocol
supports_model_reasoning capability protocol (some effort) =
    has_protocol capability.reasoning_protocols protocol
    && any (λ level. same_effort level effort) capability.reasoning_levels

pub data ModelReasoningEffortResolution : Type 0 where
  exact coarsened : SupportedReasoningEffort → ModelReasoningEffortResolution
  unsupported : ModelReasoningEffortResolution

coarsen : Capability → InferenceProtocol → SupportedReasoningEffort → ModelReasoningEffortResolution
unfolding supports_model_reasoning
coarsen capability protocol effort =
    if same_effort effort max && supports_model_reasoning capability protocol (some xhigh)
    then coarsened xhigh
    else unsupported

unfoldable pub resolve_model_reasoning_effort :
    Capability
    → InferenceProtocol
    → Option SupportedReasoningEffort
    → ModelReasoningEffortResolution
unfolding coarsen
resolve_model_reasoning_effort capability protocol none = unsupported
resolve_model_reasoning_effort capability protocol (some effort) =
    if supports_model_reasoning capability protocol (some effort)
    then exact effort
    else coarsen capability protocol effort

unfoldable pub supports_responses_custom_tools : Text → Bool
supports_responses_custom_tools vendor = not (same_text (to_lower_case (trim vendor)) (text "xai"))

-- `decoded.reasoning` may be absent, and its effort too.
pub record RequestCodecs : Type 1 where
  pub Semantic : Type 0
  pub Encoded : Type 0
  pub CarrierRecords : Type 0
  pub reasoning : Semantic → Option (Option SupportedReasoningEffort)
  pub decode : InferenceProtocol → Members → Option CarrierRecords → Semantic ⊎ Thrown
  pub encode : InferenceProtocol → Semantic → Text → Capability → Encoded ⊎ Thrown

pub record ConversionPlanningInput (CarrierRecords : Type 0) : Type 0 where
  pub source : InferenceProtocol
  pub forced_target : Option InferenceProtocol
  pub capability : Capability
  pub resolved_model : Text
  pub stream : Bool
  pub body : Members
  pub carrier_records : Option CarrierRecords

unfoldable pub plans_native_execution :
    Option (List InferenceProtocol) → InferenceProtocol → Option InferenceProtocol → Bool
plans_native_execution none source forced = false
plans_native_execution (some protocols) source none = has_protocol protocols source
plans_native_execution (some protocols) source (some forced) =
    has_protocol protocols source && same_protocol forced source

type_is_custom : WireJson → Bool
type_is_custom (string t) = same_text t (text "custom")
type_is_custom _ = false

is_custom_tool : WireJson → Bool
unfolding type_is_custom member_values
is_custom_tool (object tool) = any type_is_custom (member_values tool (text "type"))
is_custom_tool _ = false

lists_custom_tool : WireJson → Bool
unfolding is_custom_tool item_list
lists_custom_tool (array tools) = any is_custom_tool (item_list tools)
lists_custom_tool _ = false

unfoldable pub declares_custom_tool : Members → Bool
unfolding lists_custom_tool
declares_custom_tool body = any lists_custom_tool (member_values body (text "tools"))

abbrev pub converter_failure : StaticGatewayFailureKind → Option Cause → GatewayFailure
converter_failure kind cause = record {
  kind = static kind;
  source = some converter;
  phase = some convert;
  cause = cause;
}

unfoldable pub contract_failure : Thrown → GatewayFailure
contract_failure (gateway_failure failure) = failure
contract_failure (thrown (contract kind rule_id)) =
    converter_failure kind (some (contract kind rule_id))
contract_failure (thrown other) = converter_failure internal (some other)

unfoldable pub unsupported_failure : GatewayFailure
unsupported_failure = converter_failure unsupported_semantics none

-- `error instanceof ConversionContractError && error.kind === "unsupported_semantics"`
unfoldable pub is_unsupported : Thrown → Option Cause
is_unsupported (thrown (contract unsupported_semantics rule_id)) =
    some (contract unsupported_semantics rule_id)
is_unsupported _ = none

unfoldable pub reasoning_target_rank :
    Capability → InferenceProtocol → Option SupportedReasoningEffort → ℕ
unfolding resolve_model_reasoning_effort
reasoning_target_rank capability target effort =
    elim (resolve_model_reasoning_effort capability target effort) [
      | exact _ ↦ 2
      | coarsened _ ↦ 1
      | unsupported ↦ 0
    ]

-- A stable sort by falling rank, as `sort((left, right) => rank(right) - rank(left))`.
insert_by_rank :
    (InferenceProtocol → ℕ) → InferenceProtocol → List InferenceProtocol → List InferenceProtocol
insert_by_rank rank p [] = p ∷ []
insert_by_rank rank p (q ∷ qs) =
    if leb (rank q) (rank p) then p ∷ q ∷ qs else q ∷ insert_by_rank rank p qs

unfoldable pub sort_by_rank :
    (InferenceProtocol → ℕ) → List InferenceProtocol → List InferenceProtocol
unfolding insert_by_rank
sort_by_rank rank [] = []
sort_by_rank rank (p ∷ ps) = insert_by_rank rank p (sort_by_rank rank ps)

module _ (codecs : RequestCodecs) where
  open codecs use {Semantic, Encoded, CarrierRecords, reasoning, decode, encode}

  pub data ProtocolExecutionPlan : Type 0 where
    native : InferenceProtocol → Bool → ProtocolExecutionPlan
    converted :
        InferenceProtocol → InferenceProtocol → Bool → Text → Encoded → ProtocolExecutionPlan

  abbrev pub Planned : Type 0
  Planned = ProtocolExecutionPlan ⊎ GatewayFailure

  unfoldable pub assert_native_custom_tool_support :
      ConversionPlanningInput CarrierRecords → Option GatewayFailure
  unfolding declares_custom_tool supports_responses_custom_tools
  assert_native_custom_tool_support input =
      if not (same_protocol input.source responses)
        || supports_responses_custom_tools input.capability.vendor
      then none
      else if not (declares_custom_tool input.body)
      then none
      else some (converter_failure unsupported_semantics (some custom_tools_unsupported))

  unfoldable pub observe_native_plan : ConversionPlanningInput CarrierRecords → Planned
  observe_native_plan input = elim (assert_native_custom_tool_support input) [
    | none ↦ inl (native input.source input.stream)
    | some failure ↦ inr failure
  ]

  -- The `catch` clause, and the `try` block's end, for one candidate; `next` goes on with the loop.
  unfoldable pub caught : (Cause → Planned) → Thrown → Option Cause → Planned
  unfolding contract_failure
  caught next error none = inr (contract_failure error)
  caught next error (some cause) = next cause

  unfoldable pub attempted :
      ConversionPlanningInput CarrierRecords
      → InferenceProtocol
      → (Cause → Planned)
      → Encoded ⊎ Thrown
      → Planned
  unfolding caught is_unsupported
  attempted input target next (inl request) =
      inl (converted input.source target input.stream input.resolved_model request)
  attempted input target next (inr error) = caught next error (is_unsupported error)

  -- The loop over the ordered candidates, with `lastUnsupported`.
  unfoldable pub try_candidates :
      ConversionPlanningInput CarrierRecords
      → Semantic
      → Option Cause
      → List InferenceProtocol
      → Planned
  unfolding attempted
  try_candidates input decoded last [] = inr (converter_failure unsupported_semantics last)
  try_candidates input decoded last (target ∷ targets) =
      if same_protocol target input.source
      then observe_native_plan input
      else attempted input target (λ cause. try_candidates input decoded (some cause) targets)
          (encode target decoded input.resolved_model input.capability)

  unfoldable pub candidates :
      ConversionPlanningInput CarrierRecords → List InferenceProtocol → List InferenceProtocol
  candidates input protocols = elim input.forced_target [
    | none ↦ protocol_targets input.source protocols
    | some forced ↦ if has_protocol protocols forced then forced ∷ [] else []
  ]

  unfoldable pub order_candidates :
      Capability → Semantic → List InferenceProtocol → List InferenceProtocol
  order_candidates capability decoded targets = elim (reasoning decoded) [
    | none ↦ targets
    | some effort ↦ sort_by_rank (λ target. reasoning_target_rank capability target effort) targets
  ]

  -- The body decoded, and the candidates tried in their order.
  unfoldable pub after_decode :
      ConversionPlanningInput CarrierRecords → List InferenceProtocol → Semantic ⊎ Thrown → Planned
  unfolding contract_failure
  after_decode input targets (inr error) = inr (contract_failure error)
  after_decode input targets (inl decoded) =
      try_candidates input decoded none (order_candidates input.capability decoded targets)

  unfoldable pub convert_request :
      ConversionPlanningInput CarrierRecords → List InferenceProtocol → Planned
  unfolding unsupported_failure after_decode
  convert_request input [] = inr unsupported_failure
  convert_request input (target ∷ targets) =
      after_decode input (target ∷ targets) (decode input.source input.body input.carrier_records)

  -- `planProtocolExecution` once the protocols are read.
  unfoldable pub plan_for :
      ConversionPlanningInput CarrierRecords → Option (List InferenceProtocol) → Planned
  unfolding convert_request candidates observe_native_plan
  plan_for input none = inr (record {
    kind = static unsupported_semantics;
    source = none;
    phase = none;
    cause = some model_capability_unavailable;
  })
  plan_for input (some protocols) =
      if plans_native_execution (some protocols) input.source input.forced_target
      then observe_native_plan input
      else convert_request input (candidates input protocols)

  unfoldable pub plan_protocol_execution : ConversionPlanningInput CarrierRecords → Planned
  plan_protocol_execution input = plan_for input input.capability.protocols

  unfoldable pub prepare_converted_request :
      InferenceProtocol → InferenceProtocol → Members → Text → Capability → Encoded ⊎ GatewayFailure
  unfolding contract_failure
  prepare_converted_request source target body resolved_model capability =
      elim (decode source body none) [
        | inr error ↦ inr (contract_failure error)
        | inl decoded ↦ elim (encode target decoded resolved_model capability) [
          | inl request ↦ inl request
          | inr error ↦ inr (contract_failure error)
        ]
      ]
