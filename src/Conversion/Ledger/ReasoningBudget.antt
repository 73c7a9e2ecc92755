-- ===== src/Conversion/Ledger/ReasoningBudget.antt =====
-- The reasoning methods of src/protocols/conversion/ledger.ts within the byte budget.
use ghc_gateway.Base.{
  ℕ, Bool, ◌&&◌, Option, none, some, List, [], ◌∷◌, ◌++◌, Text, same_text, lookup, ◌==◌,
  if◌then◌else◌, Option-cases, inl, inr,
}
use ghc_gateway.Conversion.Ledger.{
  SemanticItemLedger, EntryKind, ReasoningStatus, MessagesReasoningState, thinking,
  redacted_thinking, OpaqueReasoningState, ReasoningState, ReasoningPartState, Method, return,
  modify, invalid, reserve,
}
use ghc_gateway.Conversion.Ledger.Reasoning.{
  put_reasoning, put_reasoning_part, reserve_opaque_state, rebind_opaque_state, same_messages_state,
  same_opaque_state, extends_chat_opaque_state, is_responses_item, reserve_messages_state,
  when_some, same_presentation, new_reasoning, same_option_text, bind_messages_state,
  known_reasoning, change_opaque_state, charge_opaque_state, bind_opaque_state, find_reasoning,
  reasoning_state, start_reasoning, ReasoningPartInput, new_reasoning_part, known_reasoning_part,
  find_reasoning_part, reasoning_part, append_reasoning,
}
use ghc_gateway.Conversion.Ledger.ReasoningItems.{
  ReasoningItem, item_of, parts_at, reasoning_item, freeze_reasoning_part, freeze_reasoning_parts,
  has_status, finished_state, finish_known, finish_reasoning, is_open, finish_entries,
  finish_open_reasoning,
}
use ghc_gateway.Conversion.Ledger.Budget.{
  Within, Sound, bind-Sound, found_or-Sound, if-Sound, invalid-Sound, reserve-Sound,
}
use ghc_gateway.Conversion.Ledger.OpaqueBudget.{
  return-Sound, reserve_opaque_state-Sound, rebind_opaque_state-Sound, same_opaque_state-Sound,
  extends-Sound,
}

module _ (limit : ℕ) where
  reserve_messages_state-Sound :
      (state : MessagesReasoningState) → Sound limit (reserve_messages_state state)
  unfolding reserve_messages_state
  reserve_messages_state-Sound (thinking thought signature) =
      bind-Sound limit (reserve thought) _ (reserve-Sound limit thought)
        (λ _. reserve-Sound limit signature)
  reserve_messages_state-Sound (redacted_thinking redacted) = reserve-Sound limit redacted

  when_some-Sound :
      {V : Type 0} (value : Option V) (f : V → Method (Unit {0}))
      → ((v : V) → Sound limit (f v))
      → Sound limit (when_some value f)
  when_some-Sound value f h = found_or-Sound limit value (return tt) f (λ s w. w) h

  new_reasoning-Sound :
      (key : Text) (item_id : Option Text) (messages_state : Option MessagesReasoningState)
      (opaque_state : Option OpaqueReasoningState)
      → Sound limit (new_reasoning key item_id messages_state opaque_state)
  unfolding new_reasoning
  new_reasoning-Sound key item_id messages_state opaque_state =
      bind-Sound limit (reserve key) _ (reserve-Sound limit key) λ _.
        bind-Sound limit (when_some item_id reserve) _
          (when_some-Sound item_id reserve (reserve-Sound limit))
          λ _.
            bind-Sound limit (when_some messages_state reserve_messages_state) _
              (when_some-Sound messages_state reserve_messages_state reserve_messages_state-Sound)
              λ _.
                bind-Sound limit (when_some opaque_state reserve_opaque_state) _
                  (when_some-Sound opaque_state reserve_opaque_state
                    (reserve_opaque_state-Sound limit))
                  (λ _ s w. w)

  bind_messages_state-Sound :
      (known : Option MessagesReasoningState) (next : MessagesReasoningState)
      → Sound limit (bind_messages_state known next)
  unfolding bind_messages_state
  bind_messages_state-Sound none next = reserve_messages_state-Sound next
  bind_messages_state-Sound (some previous) next =
      if-Sound limit (same_messages_state previous next) (return tt) invalid (λ s w. w)
        (invalid-Sound limit (Unit {0}))

  known_reasoning-Sound :
      (key : Text) (item_id : Option Text) (messages_state : Option MessagesReasoningState)
      (state : ReasoningState)
      → Sound limit (known_reasoning key item_id messages_state state)
  unfolding known_reasoning
  known_reasoning-Sound key item_id none state =
      if-Sound limit (same_option_text state.reasoning_id item_id) (return state) invalid
        (return-Sound limit state) (invalid-Sound limit ReasoningState)
  known_reasoning-Sound key item_id (some next) state =
      if-Sound limit (same_option_text state.reasoning_id item_id) _ invalid
        (bind-Sound limit (bind_messages_state state.messages_state next) _
          (bind_messages_state-Sound state.messages_state next) (λ _ s w. w))
        (invalid-Sound limit ReasoningState)

  change_opaque_state-Sound :
      (frozen : Bool) (previous next : OpaqueReasoningState)
      → Sound limit (change_opaque_state frozen previous next)
  unfolding change_opaque_state
  change_opaque_state-Sound frozen previous next =
      if-Sound limit (frozen && is_responses_item next) (reserve_opaque_state next) _
        (reserve_opaque_state-Sound limit next)
        (if-Sound limit frozen _ invalid
          (bind-Sound limit (extends_chat_opaque_state previous next) _
            (extends-Sound limit previous next)
            λ extends.
              if-Sound limit extends (rebind_opaque_state previous next) invalid
                (rebind_opaque_state-Sound limit previous next) (invalid-Sound limit (Unit {0})))
          (invalid-Sound limit (Unit {0})))

  charge_opaque_state-Sound :
      (frozen : Bool) (known : Option OpaqueReasoningState) (next : OpaqueReasoningState)
      → Sound limit (charge_opaque_state frozen known next)
  unfolding charge_opaque_state
  charge_opaque_state-Sound frozen none next = reserve_opaque_state-Sound limit next
  charge_opaque_state-Sound frozen (some previous) next =
      bind-Sound limit (same_opaque_state previous next) _
        (same_opaque_state-Sound limit previous next)
        λ same.
          if-Sound limit same (return tt) (change_opaque_state frozen previous next) (λ s w. w)
            (change_opaque_state-Sound frozen previous next)

  bind_opaque_state-Sound :
      (key : Text) (next : Option OpaqueReasoningState) (state : ReasoningState)
      → Sound limit (bind_opaque_state key next state)
  unfolding bind_opaque_state
  bind_opaque_state-Sound key none state = return-Sound limit state
  bind_opaque_state-Sound key (some next) state =
      bind-Sound limit (charge_opaque_state state.reasoning_frozen state.opaque_state next) _
        (charge_opaque_state-Sound state.reasoning_frozen state.opaque_state next) (λ _ s w. w)

  find_reasoning-Sound :
      (key : Text) (item_id : Option Text) (messages_state : Option MessagesReasoningState)
      (opaque_state : Option OpaqueReasoningState)
      → Sound limit (find_reasoning key item_id messages_state opaque_state)
  unfolding find_reasoning
  find_reasoning-Sound key item_id messages_state opaque_state s w =
      found_or-Sound limit (lookup key s.reasoning)
        (new_reasoning key item_id messages_state opaque_state)
        (known_reasoning key item_id messages_state)
        (new_reasoning-Sound key item_id messages_state opaque_state)
        (known_reasoning-Sound key item_id messages_state) s w

  reasoning_state-Sound :
      (key : Text) (item_id : Option Text) (messages_state : Option MessagesReasoningState)
      (opaque_state : Option OpaqueReasoningState)
      → Sound limit (reasoning_state key item_id messages_state opaque_state)
  unfolding reasoning_state
  reasoning_state-Sound key item_id messages_state opaque_state =
      bind-Sound limit (find_reasoning key item_id messages_state opaque_state) _
        (find_reasoning-Sound key item_id messages_state opaque_state)
        (bind_opaque_state-Sound key opaque_state)

  pub start_reasoning-Sound :
      (key : Text) (item_id : Option Text) (messages_state : Option MessagesReasoningState)
      (opaque_state : Option OpaqueReasoningState)
      → Sound limit (start_reasoning key item_id messages_state opaque_state)
  unfolding start_reasoning
  start_reasoning-Sound key item_id messages_state opaque_state =
      bind-Sound limit (reasoning_state key item_id messages_state opaque_state) _
        (reasoning_state-Sound key item_id messages_state opaque_state) (λ _ s w. w)

  new_reasoning_part-Sound :
      (input : ReasoningPartInput) (state : ReasoningState)
      → Sound limit (new_reasoning_part input state)
  unfolding new_reasoning_part
  new_reasoning_part-Sound input state =
      bind-Sound limit
        (if same_text input.part_key input.key then return tt else reserve input.part_key) _
        (if-Sound limit (same_text input.part_key input.key) (return tt) (reserve input.part_key)
          (λ s w. w) (reserve-Sound limit input.part_key))
        (λ _ s w. w)

  known_reasoning_part-Sound :
      (input : ReasoningPartInput) (part : ReasoningPartState)
      → Sound limit (known_reasoning_part input part)
  unfolding known_reasoning_part
  known_reasoning_part-Sound input part =
      if-Sound limit
        (same_text part.item_key input.key
          && same_presentation part.presentation input.input_presentation
          && part.index == input.part_index)
        (return part) invalid (return-Sound limit part) (invalid-Sound limit ReasoningPartState)

  find_reasoning_part-Sound :
      (input : ReasoningPartInput) (state : ReasoningState)
      → Sound limit (find_reasoning_part input state)
  unfolding find_reasoning_part
  find_reasoning_part-Sound input state s w =
      found_or-Sound limit (lookup input.part_key s.reasoning_parts)
        (new_reasoning_part input state) (known_reasoning_part input)
        (new_reasoning_part-Sound input state) (known_reasoning_part-Sound input) s w

  reasoning_part-Sound : (input : ReasoningPartInput) → Sound limit (reasoning_part input)
  unfolding reasoning_part
  reasoning_part-Sound input =
      bind-Sound limit (reasoning_state input.key input.input_id none none) _
        (reasoning_state-Sound input.key input.input_id none none)
        λ state.
          if-Sound limit state.reasoning_frozen invalid (find_reasoning_part input state)
            (invalid-Sound limit ReasoningPartState) (find_reasoning_part-Sound input state)

  pub append_reasoning-Sound :
      (input : ReasoningPartInput) (delta : Text) → Sound limit (append_reasoning input delta)
  unfolding append_reasoning
  append_reasoning-Sound input delta =
      bind-Sound limit (reserve delta) _ (reserve-Sound limit delta) λ _.
        bind-Sound limit (reasoning_part input) _ (reasoning_part-Sound input) λ part.
          if-Sound limit part.reasoning_part_frozen invalid
            (modify (
              put_reasoning_part input.part_key
                (record part { reasoning_text = part.reasoning_text ++ delta })))
            (invalid-Sound limit (Unit {0})) (λ s w. w)

  freeze_reasoning_part-Within :
      (key : Text) (s : SemanticItemLedger)
      → Within limit s
      → Within limit (freeze_reasoning_part key s)
  freeze_reasoning_part-Within key s w = elim (Option-cases (lookup key s.reasoning_parts)) [
    | inl none_e ↦ rw (none_e, freeze_reasoning_part) w
    | inr (part, e) ↦ rw (e, freeze_reasoning_part) w
  ]

  freeze_reasoning_parts-Within :
      (keys : List Text) (s : SemanticItemLedger)
      → Within limit s
      → Within limit (freeze_reasoning_parts keys s)
  unfolding freeze_reasoning_parts
  freeze_reasoning_parts-Within [] s w = w
  freeze_reasoning_parts-Within (key ∷ keys) s w =
      freeze_reasoning_parts-Within keys (freeze_reasoning_part key s)
        (freeze_reasoning_part-Within key s w)

  reasoning_item-Sound :
      (key : Text) (state : ReasoningState) → Sound limit (reasoning_item key state)
  unfolding reasoning_item
  reasoning_item-Sound key state s w =
      found_or-Sound limit (parts_at s.reasoning_parts state.reasoning_part_keys) invalid
        (λ parts. return (item_of key state parts)) (invalid-Sound limit ReasoningItem)
        (λ parts t u. u) s w

  finish_known-Sound :
      (key : Text) (status : ReasoningStatus) (state : ReasoningState)
      → Sound limit (finish_known key status state)
  unfolding finish_known
  finish_known-Sound key status state =
      if-Sound limit state.reasoning_frozen
        (if has_status state.status status then reasoning_item key state else invalid) _
        (if-Sound limit (has_status state.status status) (reasoning_item key state) invalid
          (reasoning_item-Sound key state) (invalid-Sound limit ReasoningItem))
        λ s w. reasoning_item-Sound key (finished_state state status) _ (
          freeze_reasoning_parts-Within state.reasoning_part_keys
            (put_reasoning key (finished_state state status) s) w)

  pub finish_reasoning-Sound :
      (key : Text) (status : ReasoningStatus) → Sound limit (finish_reasoning key status)
  unfolding finish_reasoning
  finish_reasoning-Sound key status s w =
      found_or-Sound limit (lookup key s.reasoning) invalid (finish_known key status)
        (invalid-Sound limit ReasoningItem) (finish_known-Sound key status) s w

  finish_entries-Sound :
      (status : ReasoningStatus) (entries : List (EntryKind × Text))
      → Sound limit (finish_entries status entries)
  unfolding finish_entries
  finish_entries-Sound status [] s w = w
  finish_entries-Sound status ((kind, key) ∷ entries) s w =
      if-Sound limit (is_open kind key s) _ (finish_entries status entries)
        (bind-Sound limit (finish_reasoning key status) _ (finish_reasoning-Sound key status)
          λ item.
            bind-Sound limit (finish_entries status entries) _ (finish_entries-Sound status entries)
              (λ _ t u. u))
        (finish_entries-Sound status entries) s w

  pub finish_open_reasoning-Sound :
      (status : ReasoningStatus) → Sound limit (finish_open_reasoning status)
  unfolding finish_open_reasoning
  finish_open_reasoning-Sound status s = finish_entries-Sound status s.order s
