-- ===== src/Conversion/Tests.antt =====
-- The theorems about src/protocols/conversion at concrete inputs.
use ghc_gateway.Base.{◌≡◌, refl, sym, ap, ◌⊎◌, inl, inr, true, none, some, [], ◌∷◌, Text, text}
use ghc_gateway.WireJson.Syntax.{Members, no_members}
use ghc_gateway.Gateway.Failures.{Thrown, Cause, thrown, contract, unsupported_semantics}
use ghc_gateway.Conversion.Routing.{
  InferenceProtocol, chat, messages, responses, has_protocol, protocol_targets,
  protocol_targets-supported,
}
use ghc_gateway.Conversion.Planner.{
  Capability, RequestCodecs, ConversionPlanningInput, ProtocolExecutionPlan,
  plan_protocol_execution, plans_native_execution, candidates, is_unsupported, high, is_unsupported,
}
use ghc_gateway.Conversion.Planner.Plans.{plan-Suitable, plan-finds, Suitable}

protocol_targets-supported_example :
    has_protocol (protocol_targets chat (messages ∷ [])) messages ≡ true
unfolding has_protocol
protocol_targets-supported_example = protocol_targets-supported chat messages (messages ∷ [])

-- Codecs that carry the body over, except that nothing is encoded for `responses`.
encode_any : InferenceProtocol → Members → Text → Capability → Members ⊎ Thrown
encode_any responses body model capability =
    inr (thrown (contract unsupported_semantics (text "REQ-TARGET")))
encode_any _ body model capability = inl body

abbrev plain_codecs : RequestCodecs
plain_codecs = record {
  Semantic = Members;
  Encoded = Members;
  CarrierRecords = Unit {0};
  reasoning = λ body. some (some high);
  decode = λ source body records. inl body;
  encode = encode_any;
}

abbrev request : ConversionPlanningInput (Unit {0})
request = record {
  source = messages;
  forced_target = none;
  capability = record {
    protocols = some (chat ∷ responses ∷ []);
    vendor = text "openai";
    reasoning_levels = [];
    reasoning_protocols = [];
  };
  resolved_model = text "gpt";
  stream = true;
  body = no_members;
  carrier_records = none;
}

plan-Suitable_example :
    Suitable plain_codecs request
      (chat ∷ responses ∷ [])
      (plan_protocol_execution plain_codecs request)
plan-Suitable_example = plan-Suitable plain_codecs request (chat ∷ responses ∷ []) refl

refuses_softly :
    (t : InferenceProtocol) (error : Thrown)
    → encode_any t no_members request.resolved_model request.capability ≡ inr error
    → (cause : Cause) × (is_unsupported error ≡ some cause)
unfolding encode_any is_unsupported
refuses_softly chat error h = cc
refuses_softly messages error h = cc
refuses_softly responses error h =
    let cause = contract unsupported_semantics (text "REQ-TARGET") in
    (
      cause,
      ap (λ (x : Members ⊎ Thrown). elim x [ inl _ ↦ none | inr e ↦ is_unsupported e ]) (sym h),
    )

plan-finds_example :
    (plan : ProtocolExecutionPlan plain_codecs) × (plan_protocol_execution plain_codecs request
      ≡ inl plan)
unfolding encode_any plans_native_execution has_protocol candidates protocol_targets is_unsupported
plan-finds_example =
    plan-finds plain_codecs request (chat ∷ responses ∷ []) no_members chat no_members refl refl
      refl refuses_softly refl refl
