-- ===== src/Conversion/Ledger/Reasoning.antt =====
-- Reasoning items of src/protocols/conversion/ledger.ts.
use ghc_gateway.Base.{
  ℕ, ◌+◌, ◌-◌, Bool, true, false, ◌&&◌, ◌||◌, Option, none, some, List, [], ◌∷◌, ◌++◌, Text, text,
  same_text, starts_with, lookup, insert, length, any, ltb, ◌==◌, if◌then◌else◌,
}
use ghc_gateway.WireJson.Syntax.{
  WireJson, Members, no_members, member, string, object, member_values,
}
use ghc_gateway.WireJson.Outcome.{Outcome, Bytes, raised, out_of_fuel}
use ghc_gateway.WireJson.Canonical.{canonicalize_wire_json}
use ghc_gateway.Gateway.Failures.{thrown, wire_json, other_error, gateway_failure}
use ghc_gateway.Conversion.Ledger.{
  SemanticItemLedger, reasoning_entry, ReasoningPresentation, summary, content,
  MessagesReasoningState, thinking, redacted_thinking, OpaqueReasoningState, responses_item,
  messages_block, chat_state, ReasoningState, ReasoningPartState, ok, throws, Method, found_or,
  ◌>>=◌, ◌>>◌, return, modify, invalid, reserve, stream_failure,
}

abbrev pub put_reasoning : Text → ReasoningState → SemanticItemLedger → SemanticItemLedger
put_reasoning key state s = record s { reasoning = insert key state s.reasoning }

abbrev pub put_reasoning_part : Text → ReasoningPartState → SemanticItemLedger → SemanticItemLedger
put_reasoning_part key part s = record s { reasoning_parts = insert key part s.reasoning_parts }

-- What a call of `canonicalizeWireJson` comes to in a method; the last case does not arise.
abbrev pub lift_outcome : {A : Type 0} → Outcome A → Method A
lift_outcome (Outcome.ok a) = return a
lift_outcome (raised code) = λ s. (s, throws (thrown (wire_json code)))
lift_outcome out_of_fuel = λ s. (s, throws (thrown (other_error 0)))

unfoldable pub opaque_value : OpaqueReasoningState → Members
opaque_value (responses_item item) = item
opaque_value (messages_block block) = block
opaque_value (chat_state state) = state

-- `canonicalizeWireJson(value)` for the value of an opaque state.
unfoldable pub opaque_bytes : Members → Method Bytes
opaque_bytes members = lift_outcome (canonicalize_wire_json (object members))

-- `opaqueStateByteLength`
unfoldable pub opaque_state_byte_length : OpaqueReasoningState → Method ℕ
opaque_state_byte_length state = do bytes ← opaque_bytes (opaque_value state); return (length bytes)

-- `this.usedBytes += count`, and the check.
unfoldable pub charge : ℕ → Method (Unit {0})
charge count s =
    let used = s.used_bytes + count in
    (
      record s { used_bytes = used },
      if ltb s.max_bytes used then throws (gateway_failure stream_failure) else ok tt,
    )

unfoldable pub reserve_opaque_state : OpaqueReasoningState → Method (Unit {0})
reserve_opaque_state state = do count ← opaque_state_byte_length state; charge count

-- The subtraction is exact: what is taken off was charged when the state was bound.
unfoldable pub rebind_opaque_state : OpaqueReasoningState → OpaqueReasoningState → Method (Unit {0})
rebind_opaque_state previous next = do
  count ← opaque_state_byte_length previous
  modify (λ s. record s { used_bytes = s.used_bytes - count })
  reserve_opaque_state next

unfoldable pub same_messages_state : MessagesReasoningState → MessagesReasoningState → Bool
same_messages_state (thinking thought signature) (thinking other_thought other_signature) =
    same_text thought other_thought && same_text signature other_signature
same_messages_state (redacted_thinking redacted) (redacted_thinking other) =
    same_text redacted other
same_messages_state (thinking thought signature) (redacted_thinking redacted) = false
same_messages_state (redacted_thinking redacted) (thinking thought signature) = false

-- `normalizedResponseOpaqueItem`
unfoldable pub normalized_response_opaque_item : Members → Members
normalized_response_opaque_item no_members = no_members
normalized_response_opaque_item (member key value rest) =
    let kept = normalized_response_opaque_item rest in
    if same_text key (text "id") || same_text key (text "status")
    then kept
    else member key value kept

-- `sameWireJsonBytes(canonicalizeWireJson(left), canonicalizeWireJson(right))`
unfoldable pub same_canonical : WireJson → WireJson → Method Bool
same_canonical left right = do
  left_bytes ← lift_outcome (canonicalize_wire_json left)
  right_bytes ← lift_outcome (canonicalize_wire_json right)
  return (same_text left_bytes right_bytes)

unfoldable pub same_opaque_state : OpaqueReasoningState → OpaqueReasoningState → Method Bool
same_opaque_state (responses_item left) (responses_item right) =
    same_canonical (object (normalized_response_opaque_item left))
      (object (normalized_response_opaque_item right))
same_opaque_state (messages_block left) (messages_block right) =
    same_canonical (object left) (object right)
same_opaque_state (chat_state left) (chat_state right) = same_canonical (object left) (object right)
same_opaque_state _ _ = return false

-- `candidates.some(…)`, which stops at the first that is accepted.
unfoldable pub some_same : WireJson → List WireJson → Method Bool
some_same value [] = return false
some_same value (candidate ∷ candidates) = do
  same ← same_canonical value candidate
  if same then return true else some_same value candidates

unfoldable pub prolongs : WireJson → WireJson → Bool
prolongs (string old) (string new) = starts_with new old
prolongs _ _ = false

-- One round of the loop of `extendsChatOpaqueState`: whether the member is kept.
unfoldable pub member_extends : Text → WireJson → List WireJson → Method Bool
member_extends key value [] = return false
member_extends key value (candidate ∷ candidates) =
    if same_text key (text "reasoning_content")
    then return (any (prolongs value) (candidate ∷ candidates))
    else some_same value (candidate ∷ candidates)

unfoldable pub members_extend : Members → Members → Method Bool
members_extend no_members incoming = return true
members_extend (member key value rest) incoming = do
  accepted ← member_extends key value (member_values incoming key)
  if accepted then members_extend rest incoming else return false

unfoldable pub extends_chat_opaque_state : OpaqueReasoningState → OpaqueReasoningState → Method Bool
extends_chat_opaque_state (chat_state existing) (chat_state incoming) =
    members_extend existing incoming
extends_chat_opaque_state _ _ = return false

abbrev pub is_responses_item : OpaqueReasoningState → Bool
is_responses_item (responses_item item) = true
is_responses_item _ = false

unfoldable pub reserve_messages_state : MessagesReasoningState → Method (Unit {0})
reserve_messages_state (thinking thought signature) = do reserve thought; reserve signature
reserve_messages_state (redacted_thinking redacted) = reserve redacted

-- `if (value !== undefined) …`
abbrev pub when_some : {V : Type 0} → Option V → (V → Method (Unit {0})) → Method (Unit {0})
when_some value f = found_or value (return tt) f

-- A reasoning item that is not there yet: its parts are charged, and it joins the order.
unfoldable pub new_reasoning :
    Text
    → Option Text
    → Option MessagesReasoningState
    → Option OpaqueReasoningState
    → Method ReasoningState
new_reasoning key item_id messages_state opaque_state = do
  reserve key
  when_some item_id reserve
  when_some messages_state reserve_messages_state
  when_some opaque_state reserve_opaque_state
  let state : ReasoningState = record {
    reasoning_id = item_id;
    reasoning_part_keys = [];
    status = none;
    reasoning_frozen = false;
    messages_state = messages_state;
    opaque_state = opaque_state;
  }
  modify (put_reasoning key state)
  modify (λ s. record s { order = s.order ++ (reasoning_entry, key) ∷ [] })
  return state

abbrev pub same_option_text : Option Text → Option Text → Bool
same_option_text none none = true
same_option_text (some left) (some right) = same_text left right
same_option_text _ _ = false

-- The check and the charge of the messages state that an item is given.
unfoldable pub bind_messages_state :
    Option MessagesReasoningState → MessagesReasoningState → Method (Unit {0})
bind_messages_state none next = reserve_messages_state next
bind_messages_state (some previous) next =
    if same_messages_state previous next then return tt else invalid

-- The branches for an item that is there.
unfoldable pub known_reasoning :
    Text → Option Text → Option MessagesReasoningState → ReasoningState → Method ReasoningState
known_reasoning key item_id none state =
    if same_option_text state.reasoning_id item_id then return state else invalid
known_reasoning key item_id (some next) state =
    if same_option_text state.reasoning_id item_id
    then (do
      bind_messages_state state.messages_state next
      let bound = record state { messages_state = some next }
      modify (put_reasoning key bound)
      return bound)
    else invalid

-- An opaque state that differs from the one that is bound.
unfoldable pub change_opaque_state :
    Bool → OpaqueReasoningState → OpaqueReasoningState → Method (Unit {0})
change_opaque_state frozen previous next =
    if frozen && is_responses_item next
    then reserve_opaque_state next
    else if frozen
    then (do
      extends ← extends_chat_opaque_state previous next
      if extends then rebind_opaque_state previous next else invalid)
    else invalid

unfoldable pub charge_opaque_state :
    Bool → Option OpaqueReasoningState → OpaqueReasoningState → Method (Unit {0})
charge_opaque_state frozen none next = reserve_opaque_state next
charge_opaque_state frozen (some previous) next = do
  same ← same_opaque_state previous next
  if same then return tt else change_opaque_state frozen previous next

-- The last block of `reasoningState`.
unfoldable pub bind_opaque_state :
    Text → Option OpaqueReasoningState → ReasoningState → Method ReasoningState
bind_opaque_state key none state = return state
bind_opaque_state key (some next) state = do
  charge_opaque_state state.reasoning_frozen state.opaque_state next
  let bound = record state { opaque_state = some next }
  modify (put_reasoning key bound)
  return bound

unfoldable pub find_reasoning :
    Text
    → Option Text
    → Option MessagesReasoningState
    → Option OpaqueReasoningState
    → Method ReasoningState
find_reasoning key item_id messages_state opaque_state s =
    found_or (lookup key s.reasoning) (new_reasoning key item_id messages_state opaque_state)
      (known_reasoning key item_id messages_state) s

unfoldable pub reasoning_state :
    Text
    → Option Text
    → Option MessagesReasoningState
    → Option OpaqueReasoningState
    → Method ReasoningState
reasoning_state key item_id messages_state opaque_state = do
  state ← find_reasoning key item_id messages_state opaque_state
  bind_opaque_state key opaque_state state

unfoldable pub start_reasoning :
    Text
    → Option Text
    → Option MessagesReasoningState
    → Option OpaqueReasoningState
    → Method (Unit {0})
start_reasoning key item_id messages_state opaque_state = do
  state ← reasoning_state key item_id messages_state opaque_state
  return tt

-- The argument of `appendReasoning`, without its delta.
pub record ReasoningPartInput : Type 0 where
  pub key : Text
  pub part_key : Text
  pub input_id : Option Text
  pub input_presentation : ReasoningPresentation
  pub part_index : ℕ

abbrev pub same_presentation : ReasoningPresentation → ReasoningPresentation → Bool
same_presentation summary summary = true
same_presentation content content = true
same_presentation _ _ = false

abbrev pub new_part_state : ReasoningPartInput → ReasoningPartState
new_part_state input = record {
  item_key = input.key;
  presentation = input.input_presentation;
  index = input.part_index;
  reasoning_text = [];
  reasoning_part_frozen = false;
}

unfoldable pub new_reasoning_part : ReasoningPartInput → ReasoningState → Method ReasoningPartState
new_reasoning_part input state = do
  if same_text input.part_key input.key then return tt else reserve input.part_key
  modify (put_reasoning_part input.part_key (new_part_state input))
  modify (
      put_reasoning input.key
        (record state { reasoning_part_keys = state.reasoning_part_keys ++ input.part_key ∷ [] }))
  return (new_part_state input)

unfoldable pub known_reasoning_part :
    ReasoningPartInput → ReasoningPartState → Method ReasoningPartState
known_reasoning_part input part =
    if same_text part.item_key input.key
      && same_presentation part.presentation input.input_presentation
      && part.index == input.part_index
    then return part
    else invalid

unfoldable pub find_reasoning_part : ReasoningPartInput → ReasoningState → Method ReasoningPartState
find_reasoning_part input state s =
    found_or (lookup input.part_key s.reasoning_parts) (new_reasoning_part input state)
      (known_reasoning_part input) s

unfoldable pub reasoning_part : ReasoningPartInput → Method ReasoningPartState
reasoning_part input = do
  state ← reasoning_state input.key input.input_id none none
  if state.reasoning_frozen then invalid else find_reasoning_part input state

unfoldable pub append_reasoning : ReasoningPartInput → Text → Method (Unit {0})
append_reasoning input delta = do
  reserve delta
  part ← reasoning_part input
  if part.reasoning_part_frozen
      then invalid
      else modify (
          put_reasoning_part input.part_key
            (record part { reasoning_text = part.reasoning_text ++ delta }))

unfoldable pub reasoning_value : Text → SemanticItemLedger → Text
reasoning_value part_key s = elim (lookup part_key s.reasoning_parts) [
  | none ↦ []
  | some part ↦ part.reasoning_text
]
