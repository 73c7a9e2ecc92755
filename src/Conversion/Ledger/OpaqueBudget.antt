-- ===== src/Conversion/Ledger/OpaqueBudget.antt =====
-- The methods on opaque reasoning states of src/protocols/conversion/ledger.ts within the byte budget.
use ghc_gateway.Base.{
  ℕ, ◌+◌, ◌-◌, ◌≤◌, ◌≡◌, true, false, List, [], ◌∷◌, Text, text, same_text, ltb, if◌then◌else◌,
  Bool-cases, inl, inr, arith, any,
}
use ghc_gateway.Gateway.Failures.{gateway_failure}
use ghc_gateway.WireJson.Syntax.{WireJson, Members, no_members, member, object, member_values}
use ghc_gateway.WireJson.Outcome.{Outcome, raised, out_of_fuel}
use ghc_gateway.WireJson.Canonical.{canonicalize_wire_json}
use ghc_gateway.Conversion.Ledger.{
  SemanticItemLedger, OpaqueReasoningState, responses_item, messages_block, chat_state, ok, throws,
  return, stream_failure,
}
use ghc_gateway.Conversion.Ledger.Reasoning.{
  lift_outcome, opaque_value, opaque_bytes, opaque_state_byte_length, charge, reserve_opaque_state,
  rebind_opaque_state, normalized_response_opaque_item, same_canonical, same_opaque_state,
  some_same, prolongs, member_extends, members_extend, extends_chat_opaque_state,
}
use ghc_gateway.Conversion.Ledger.Budget.{EndsWithin, Sound, bind-Sound, if-Sound}

module _ (limit : ℕ) where
  -- A method that only looks.
  pub return-Sound : {A : Type 0} (a : A) → Sound limit (return a)
  return-Sound a s w = w

  lift-Sound : {A : Type 0} (o : Outcome A) → Sound limit (lift_outcome o)
  lift-Sound (Outcome.ok a) s w = w
  lift-Sound (raised code) s w = tt
  lift-Sound out_of_fuel s w = tt

  charge-Sound : (count : ℕ) → Sound limit (charge count)
  unfolding charge
  charge-Sound count s w = charged (s.used_bytes + count)
    where
      fits_limit : (used : ℕ) → ltb s.max_bytes used ≡ false → used ≤ limit
      fits_limit used fits = let known = w.0 in ground arith

      charged :
          (used : ℕ)
          → EndsWithin limit (
            record s { used_bytes = used },
            if ltb s.max_bytes used then throws (gateway_failure stream_failure) else ok tt,
          )
      charged used = elim (Bool-cases (ltb s.max_bytes used)) [
        | inl over ↦ rw (over, EndsWithin) tt
        | inr fits ↦ rw (fits, EndsWithin) (w.0, fits_limit used fits)
      ]

  byte_length-Sound : (state : OpaqueReasoningState) → Sound limit (opaque_state_byte_length state)
  unfolding opaque_state_byte_length opaque_bytes
  byte_length-Sound state =
      bind-Sound limit (opaque_bytes (opaque_value state)) _
        (lift-Sound (canonicalize_wire_json (object (opaque_value state)))) (λ _ s w. w)

  pub reserve_opaque_state-Sound :
      (state : OpaqueReasoningState) → Sound limit (reserve_opaque_state state)
  unfolding reserve_opaque_state
  reserve_opaque_state-Sound state =
      bind-Sound limit (opaque_state_byte_length state) charge (byte_length-Sound state)
        charge-Sound

  pub rebind_opaque_state-Sound :
      (previous next : OpaqueReasoningState) → Sound limit (rebind_opaque_state previous next)
  unfolding rebind_opaque_state
  rebind_opaque_state-Sound previous next =
      bind-Sound limit (opaque_state_byte_length previous) _ (byte_length-Sound previous)
        λ count s w. reserve_opaque_state-Sound next _ (w.0, below s count w.1)
    where
      below :
          (s : SemanticItemLedger) (count : ℕ) → s.used_bytes ≤ limit → s.used_bytes - count ≤ limit
      below s count h = omega arith

  same_canonical-Sound : (left right : WireJson) → Sound limit (same_canonical left right)
  unfolding same_canonical
  same_canonical-Sound left right =
      bind-Sound limit (lift_outcome (canonicalize_wire_json left)) _
        (lift-Sound (canonicalize_wire_json left))
        λ _.
          bind-Sound limit (lift_outcome (canonicalize_wire_json right)) _
            (lift-Sound (canonicalize_wire_json right)) (λ _ s w. w)

  pub same_opaque_state-Sound :
      (left right : OpaqueReasoningState) → Sound limit (same_opaque_state left right)
  unfolding same_opaque_state
  same_opaque_state-Sound (responses_item left) (responses_item right) =
      same_canonical-Sound (object (normalized_response_opaque_item left))
        (object (normalized_response_opaque_item right))
  same_opaque_state-Sound (messages_block left) (messages_block right) =
      same_canonical-Sound (object left) (object right)
  same_opaque_state-Sound (chat_state left) (chat_state right) =
      same_canonical-Sound (object left) (object right)
  same_opaque_state-Sound (responses_item left) (messages_block right) = return-Sound false
  same_opaque_state-Sound (responses_item left) (chat_state right) = return-Sound false
  same_opaque_state-Sound (messages_block left) (responses_item right) = return-Sound false
  same_opaque_state-Sound (messages_block left) (chat_state right) = return-Sound false
  same_opaque_state-Sound (chat_state left) (responses_item right) = return-Sound false
  same_opaque_state-Sound (chat_state left) (messages_block right) = return-Sound false

  some_same-Sound :
      (value : WireJson) (candidates : List WireJson) → Sound limit (some_same value candidates)
  unfolding some_same
  some_same-Sound value [] = return-Sound false
  some_same-Sound value (candidate ∷ candidates) =
      bind-Sound limit (same_canonical value candidate) _ (same_canonical-Sound value candidate)
        λ same.
          if-Sound limit same (return true) (some_same value candidates) (return-Sound true)
            (some_same-Sound value candidates)

  member_extends-Sound :
      (key : Text) (value : WireJson) (candidates : List WireJson)
      → Sound limit (member_extends key value candidates)
  unfolding member_extends
  member_extends-Sound key value [] = return-Sound false
  member_extends-Sound key value (candidate ∷ candidates) =
      if-Sound limit (same_text key (text "reasoning_content"))
        (return (any (prolongs value) (candidate ∷ candidates)))
        (some_same value (candidate ∷ candidates)) (λ s w. w)
        (some_same-Sound value (candidate ∷ candidates))

  members_extend-Sound :
      (members incoming : Members) → Sound limit (members_extend members incoming)
  unfolding members_extend
  members_extend-Sound no_members incoming = return-Sound true
  members_extend-Sound (member key value rest) incoming =
      bind-Sound limit (member_extends key value (member_values incoming key)) _
        (member_extends-Sound key value (member_values incoming key))
        λ accepted.
          if-Sound limit accepted (members_extend rest incoming) (return false)
            (members_extend-Sound rest incoming) (return-Sound false)

  pub extends-Sound :
      (left right : OpaqueReasoningState) → Sound limit (extends_chat_opaque_state left right)
  unfolding extends_chat_opaque_state
  extends-Sound (chat_state left) (chat_state right) = members_extend-Sound left right
  extends-Sound (chat_state left) (responses_item right) = return-Sound false
  extends-Sound (chat_state left) (messages_block right) = return-Sound false
  extends-Sound (responses_item left) right = return-Sound false
  extends-Sound (messages_block left) right = return-Sound false
