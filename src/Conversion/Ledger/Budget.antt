-- ===== src/Conversion/Ledger/Budget.antt =====
-- The byte budget of src/protocols/conversion/ledger.ts.
use ghc_gateway.Base.{
  ℕ, ◌+◌, ◌≤◌, ◌≡◌, Bool, true, false, ◌&&◌, ◌||◌, Option, none, some, List, [], ◌∷◌, ◌++◌, Text,
  same_text, lookup, ltb, if◌then◌else◌, starts_with, Option-cases, Bool-cases, inl, inr, arith,
  length,
}
use ghc_gateway.Gateway.Failures.{gateway_failure}
use ghc_gateway.Conversion.Ledger.Encoding.{utf8_length}
use ghc_gateway.Conversion.Ledger.{
  SemanticItemLedger, ToolState, MessageState, MessagePartState, Result, ok, throws, Method,
  proceed, found_or, stream_failure, ◌>>=◌, return, modify, invalid, reserve,
}
use ghc_gateway.Conversion.Ledger.Messages.{
  new_message, message, new_part, message_part, check_open, observe_text, append_text,
  observe_refusal, append_refusal, finish_content, freeze_part, freeze_parts, finish_message,
  put_part, put_message,
}
use ghc_gateway.Conversion.Ledger.Tools.{
  raise, argument_error, validate_arguments, reserve_optional, charge_tool, start_tool, tool_at,
  append_tool_arguments, finish_again, take_snapshot, finish_tool, finish_tools, finish_open_tools,
  drop, has_tool, has_call, is_empty,
}

-- A budget of `limit` bytes.
module _ (limit : ℕ) where
  abbrev pub Within : SemanticItemLedger → Type 0
  Within s = (s.max_bytes ≡ limit) × (s.used_bytes ≤ limit)

  -- If the method returned, the ledger is within its budget.
  abbrev pub EndsWithin : {A : Type 0} → SemanticItemLedger × Result A → Type 0
  EndsWithin (s, ok a) = Within s
  EndsWithin (s, throws e) = Unit {0}

  -- A method that keeps within the budget whenever it returns.
  abbrev pub Sound : {A : Type 0} → Method A → Type 0
  Sound m = (s : SemanticItemLedger) → Within s → EndsWithin (m s)

  module _ {A B : Type 0} where
    proceed-EndsWithin :
        (p : SemanticItemLedger × Result A) (f : A → Method B)
        → EndsWithin p
        → ((a : A) → Sound (f a))
        → EndsWithin (proceed p f)
    proceed-EndsWithin (s, ok a) f h k = k a s h
    proceed-EndsWithin (s, throws e) f h k = tt

    pub bind-Sound :
        (m : Method A) (f : A → Method B) → Sound m → ((a : A) → Sound (f a)) → Sound (m >>= f)
    bind-Sound m f h k s w = proceed-EndsWithin (m s) f (h s w) k

  pub found_or-Sound :
      {V B : Type 0} (o : Option V) (m : Method B) (f : V → Method B)
      → Sound m
      → ((v : V) → Sound (f v))
      → Sound (found_or o m f)
  found_or-Sound none m f h k = h
  found_or-Sound (some v) m f h k = k v

  pub if-Sound :
      {A : Type 0} (b : Bool) (m n : Method A) → Sound m → Sound n → Sound (if b then m else n)
  if-Sound true m n h k = h
  if-Sound false m n h k = k

  pub invalid-Sound : (A : Type 0) → Sound (invalid {A = A})
  unfolding invalid
  invalid-Sound A s w = tt

  pub reserve-Sound : (value : Text) → Sound (reserve value)
  unfolding reserve
  reserve-Sound value s w = charged (s.used_bytes + utf8_length value)
    where
      fits_limit : (used : ℕ) → ltb s.max_bytes used ≡ false → used ≤ limit
      fits_limit used fits = let known = w.0 in ground arith

      charged :
          (used : ℕ)
          → EndsWithin (
            record s { used_bytes = used },
            if ltb s.max_bytes used then throws (gateway_failure stream_failure) else ok tt,
          )
      charged used = elim (Bool-cases (ltb s.max_bytes used)) [
        | inl over ↦ rw (over, EndsWithin) tt
        | inr fits ↦ rw (fits, EndsWithin) (w.0, fits_limit used fits)
      ]

  new_message-Sound : (key : Text) → Sound (new_message key)
  unfolding new_message
  new_message-Sound key = bind-Sound (reserve key) _ (reserve-Sound key) (λ _ s w. w)

  pub message-Sound : (key : Text) → Sound (message key)
  unfolding message
  message-Sound key s w =
      found_or-Sound (lookup key s.messages) (new_message key) return (new_message-Sound key)
        (λ v t u. u) s w

  new_part-Sound : (key group_key : Text) → Sound (new_part key group_key)
  unfolding new_part
  new_part-Sound key group_key =
      bind-Sound (if same_text key group_key then return tt else reserve key) _
        (if-Sound (same_text key group_key) (return tt) (reserve key) (λ s w. w)
          (reserve-Sound key))
        λ _ s w. bind-Sound (message group_key) _ (message-Sound group_key) (λ _ t u. u) _ w

  message_part-Sound : (key group_key : Text) → Sound (message_part key group_key)
  unfolding message_part
  message_part-Sound key group_key s w =
      found_or-Sound (lookup key s.message_parts) (new_part key group_key) _
        (new_part-Sound key group_key)
        (λ part.
          if-Sound (same_text part.group_key group_key) (return part) invalid (λ t u. u)
            (invalid-Sound MessagePartState))
        s w

  check_open-Sound : (key : Text) (group : MessageState) → Sound (check_open key group)
  unfolding check_open
  check_open-Sound key group s w =
      found_or-Sound (lookup key s.message_parts) (if group.frozen then invalid else return tt) _
        (if-Sound group.frozen invalid (return tt) (invalid-Sound (Unit {0})) (λ t u. u))
        (λ part t u. u) s w

  pub observe_text-Sound : (key order_key : Text) → Sound (observe_text key order_key)
  unfolding observe_text
  observe_text-Sound key order_key =
      bind-Sound (message order_key) _ (message-Sound order_key) λ group.
        bind-Sound (check_open key group) _ (check_open-Sound key group) λ _.
          bind-Sound (message_part key order_key) _ (message_part-Sound key order_key) (λ _ t u. u)

  pub observe_refusal-Sound : (key order_key : Text) → Sound (observe_refusal key order_key)
  unfolding observe_refusal
  observe_refusal-Sound key order_key =
      bind-Sound (message order_key) _ (message-Sound order_key) λ group.
        bind-Sound (check_open key group) _ (check_open-Sound key group) λ _.
          bind-Sound (message_part key order_key) _ (message_part-Sound key order_key) (λ _ t u. u)

  -- The end of an append: the delta is added unless the part is frozen.
  added-Sound :
      (key : Text) (change : MessagePartState → MessagePartState) (part : MessagePartState)
      → Sound (if part.part_frozen then invalid else modify (put_part key (change part)))
  added-Sound key change part =
      if-Sound part.part_frozen invalid (modify (put_part key (change part)))
        (invalid-Sound (Unit {0})) (λ s w. w)

  pub append_text-Sound : (key delta order_key : Text) → Sound (append_text key delta order_key)
  unfolding append_text
  append_text-Sound key delta order_key = bind-Sound (reserve delta) _ (reserve-Sound delta) λ _.
      bind-Sound (observe_text key order_key) _ (observe_text-Sound key order_key) λ _.
        bind-Sound (message_part key order_key) _ (message_part-Sound key order_key)
          (added-Sound key (λ part. record part { text_value = part.text_value ++ delta }))

  pub append_refusal-Sound :
      (key delta order_key : Text) → Sound (append_refusal key delta order_key)
  unfolding append_refusal
  append_refusal-Sound key delta order_key = bind-Sound (reserve delta) _ (reserve-Sound delta) λ _.
      bind-Sound (observe_refusal key order_key) _ (observe_refusal-Sound key order_key) λ _.
        bind-Sound (message_part key order_key) _ (message_part-Sound key order_key)
          (added-Sound key (λ part. record part { refusal_value = part.refusal_value ++ delta }))

  pub finish_content-Sound : (key : Text) → Sound (finish_content key)
  unfolding finish_content
  finish_content-Sound key s w =
      found_or-Sound (lookup key s.message_parts) invalid _ (invalid-Sound (Unit {0}))
        (λ part t u. u) s w

  freeze_part-Within : (s : SemanticItemLedger) (key : Text) → Within s → Within (freeze_part s key)
  unfolding freeze_part
  freeze_part-Within s key w = elim (Option-cases (lookup key s.message_parts)) [
    | inl none_e ↦ rw (none_e, freeze_part) w
    | inr (part, e) ↦ rw (e, freeze_part) w
  ]

  freeze_parts-Within :
      (keys : List Text) (s : SemanticItemLedger) → Within s → Within (freeze_parts keys s)
  unfolding freeze_parts
  freeze_parts-Within [] s w = w
  freeze_parts-Within (key ∷ keys) s w =
      freeze_parts-Within keys (freeze_part s key) (freeze_part-Within s key w)

  pub finish_message-Sound : (key : Text) → Sound (finish_message key)
  unfolding finish_message
  finish_message-Sound key = bind-Sound (message key) _ (message-Sound key) (λ group s w.
      freeze_parts-Within group.part_keys (put_message key (record group { frozen = true }) s) w)

  validate-Sound : (value : Text) → Sound (validate_arguments value)
  unfolding validate_arguments
  validate-Sound value =
      found_or-Sound (argument_error value) (return tt) raise (λ s w. w) (λ error s w. tt)

  validate_if-Sound :
      (b : Bool) (value : Text) → Sound (if b then validate_arguments value else return tt)
  validate_if-Sound b value =
      if-Sound b (validate_arguments value) (return tt) (validate-Sound value) (λ s w. w)

  charge_tool-Sound :
      (key : Text) (item_id : Option Text) (call_id name : Text)
      → Sound (charge_tool key item_id call_id name)
  unfolding charge_tool
  charge_tool-Sound key item_id call_id name = bind-Sound (reserve key) _ (reserve-Sound key) λ _.
      bind-Sound (reserve_optional item_id) _ (optional item_id)
        λ _. bind-Sound (reserve call_id) _ (reserve-Sound call_id) (λ _. reserve-Sound name)
    where
      optional : (o : Option Text) → Sound (reserve_optional o)
      optional none = unfold reserve_optional in λ s w. w
      optional (some value) = unfold reserve_optional in reserve-Sound value

  pub start_tool-Sound :
      (key : Text) (item_id : Option Text) (call_id name : Text)
      → Sound (start_tool key item_id call_id name)
  unfolding start_tool
  start_tool-Sound key item_id call_id name s w =
      if-Sound (has_tool key s || has_call call_id s || is_empty call_id || is_empty name) invalid _
        (invalid-Sound (Unit {0}))
        (bind-Sound (charge_tool key item_id call_id name) _
          (charge_tool-Sound key item_id call_id name) (λ _ t u. u))
        s w

  tool_at-Sound : (key : Text) → Sound (tool_at key)
  unfolding tool_at
  tool_at-Sound key s w =
      found_or-Sound (lookup key s.tools) invalid return (invalid-Sound ToolState) (λ tool t u. u) s
        w

  pub append_tool_arguments-Sound : (key delta : Text) → Sound (append_tool_arguments key delta)
  unfolding append_tool_arguments
  append_tool_arguments-Sound key delta = bind-Sound (tool_at key) _ (tool_at-Sound key) λ tool.
      if-Sound tool.done invalid _ (invalid-Sound (Unit {0}))
        (bind-Sound (reserve delta) _ (reserve-Sound delta) (λ _ t u. u))

  take_snapshot-Sound :
      (key : Text) (tool : ToolState) (snapshot : Option Text)
      → Sound (take_snapshot key tool snapshot)
  unfolding take_snapshot
  take_snapshot-Sound key tool none = λ s w. w
  take_snapshot-Sound key tool (some value) =
      if-Sound (starts_with value tool.arguments_json) _ invalid
        (bind-Sound (reserve (drop (length tool.arguments_json) value)) _
          (reserve-Sound (drop (length tool.arguments_json) value)) (λ _ t u. u))
        (invalid-Sound (ToolState × Text))

  finish_again-Sound :
      (tool : ToolState) (snapshot : Option Text) (validates : Bool)
      → Sound (finish_again tool snapshot validates)
  unfolding finish_again
  finish_again-Sound tool snapshot validates =
      if-Sound (elim snapshot [ none ↦ true | some value ↦ same_text value tool.arguments_json ]) _
        invalid
        (bind-Sound (if validates then validate_arguments tool.arguments_json else return tt) _
          (validate_if-Sound validates tool.arguments_json) (λ _ t u. u))
        (invalid-Sound Text)

  pub finish_tool-Sound :
      (key : Text) (snapshot : Option Text) (completed validate_completed : Bool)
      → Sound (finish_tool key snapshot completed validate_completed)
  unfolding finish_tool
  finish_tool-Sound key snapshot completed validate_completed =
      bind-Sound (tool_at key) _ (tool_at-Sound key) λ tool.
        if-Sound tool.done (finish_again tool snapshot (completed && validate_completed)) _
          (finish_again-Sound tool snapshot (completed && validate_completed))
          (bind-Sound (take_snapshot key tool snapshot) _ (take_snapshot-Sound key tool snapshot)
            λ taken.
              bind-Sound
                (if completed && validate_completed
                  then validate_arguments (taken.0).arguments_json
                  else return tt)
                _ (validate_if-Sound (completed && validate_completed) (taken.0).arguments_json)
                (λ _ t u. u))

  finish_tools-Sound :
      (validates : Text → Bool) (tools : List (Text × ToolState))
      → Sound (finish_tools validates tools)
  unfolding finish_tools
  finish_tools-Sound validates [] = λ s w. w
  finish_tools-Sound validates ((key, tool) ∷ tools) =
      bind-Sound (if validates tool.name then validate_arguments tool.arguments_json else return tt)
        _ (validate_if-Sound (validates tool.name) tool.arguments_json)
        (λ _ s w. finish_tools-Sound validates tools _ w)

  pub finish_open_tools-Sound : (validates : Text → Bool) → Sound (finish_open_tools validates)
  unfolding finish_open_tools
  finish_open_tools-Sound validates s = finish_tools-Sound validates s.tools s
