-- ===== src/Conversion/Ledger/Messages.antt =====
-- Text and refusals of src/protocols/conversion/ledger.ts.
use ghc_gateway.Base.{
  Bool, true, false, not, none, some, List, [], ◌∷◌, ◌++◌, Text, same_text, lookup, insert,
  if◌then◌else◌,
}
use ghc_gateway.Conversion.Ledger.{
  SemanticItemLedger, MessageState, MessagePartState, message_entry, Method, found_or, ◌>>=◌, ◌>>◌,
  return, modify, invalid, reserve,
}

abbrev pub open_message : MessageState
open_message = record { part_keys = []; frozen = false }

abbrev pub open_part : Text → MessagePartState
open_part group_key = record {
  group_key = group_key;
  text_value = [];
  refusal_value = [];
  text_seen = false;
  refusal_seen = false;
  part_frozen = false;
}

abbrev pub put_message : Text → MessageState → SemanticItemLedger → SemanticItemLedger
put_message key message s = record s { messages = insert key message s.messages }

abbrev pub put_part : Text → MessagePartState → SemanticItemLedger → SemanticItemLedger
put_part key part s = record s { message_parts = insert key part s.message_parts }

-- A new message is charged its key and joins the order.
unfoldable pub new_message : Text → Method MessageState
new_message key = do
  reserve key
  modify (put_message key open_message)
  modify (λ s. record s { order = s.order ++ (message_entry, key) ∷ [] })
  return open_message

unfoldable pub message : Text → Method MessageState
message key s = found_or (lookup key s.messages) (new_message key) return s

-- A new part is charged its key unless that is its group's.
unfoldable pub new_part : Text → Text → Method MessagePartState
new_part key group_key = do
  if same_text key group_key then return tt else reserve key
  modify (put_part key (open_part group_key))
  group ← message group_key
  modify (put_message group_key (record group { part_keys = group.part_keys ++ key ∷ [] }))
  return (open_part group_key)

unfoldable pub message_part : Text → Text → Method MessagePartState
message_part key group_key s =
    found_or (lookup key s.message_parts) (new_part key group_key)
      (λ part. if same_text part.group_key group_key then return part else invalid) s

unfoldable pub start_message : Text → Method (Unit {0})
start_message key = do found ← message key; return tt

-- `message.frozen && !this.messageParts.has(key)`
unfoldable pub check_open : Text → MessageState → Method (Unit {0})
check_open key group s =
    found_or (lookup key s.message_parts) (if group.frozen then invalid else return tt)
      (λ part. return tt) s

unfoldable pub observe_text : Text → Text → Method Bool
observe_text key order_key = do
  group ← message order_key
  check_open key group
  part ← message_part key order_key
  modify (put_part key (record part { text_seen = true }))
  return (not part.text_seen)

unfoldable pub append_text : Text → Text → Text → Method (Unit {0})
append_text key delta order_key = do
  reserve delta
  first ← observe_text key order_key
  part ← message_part key order_key
  if part.part_frozen
      then invalid
      else modify (put_part key (record part { text_value = part.text_value ++ delta }))

unfoldable pub observe_refusal : Text → Text → Method Bool
observe_refusal key order_key = do
  group ← message order_key
  check_open key group
  part ← message_part key order_key
  modify (put_part key (record part { refusal_seen = true }))
  return (not part.refusal_seen)

unfoldable pub append_refusal : Text → Text → Text → Method (Unit {0})
append_refusal key delta order_key = do
  reserve delta
  first ← observe_refusal key order_key
  part ← message_part key order_key
  if part.part_frozen
      then invalid
      else modify (put_part key (record part { refusal_value = part.refusal_value ++ delta }))

unfoldable pub finish_content : Text → Method (Unit {0})
finish_content key s =
    found_or (lookup key s.message_parts) invalid
      (λ part. modify (put_part key (record part { part_frozen = true }))) s

unfoldable pub freeze_part : SemanticItemLedger → Text → SemanticItemLedger
freeze_part s key = elim (lookup key s.message_parts) [
  | none ↦ s
  | some part ↦ put_part key (record part { part_frozen = true }) s
]

-- The loop of `finishMessage` over the part keys.
unfoldable pub freeze_parts : List Text → SemanticItemLedger → SemanticItemLedger
unfolding freeze_part
freeze_parts [] s = s
freeze_parts (key ∷ keys) s = freeze_parts keys (freeze_part s key)

unfoldable pub finish_message : Text → Method (Unit {0})
finish_message key = do
  group ← message key
  modify (put_message key (record group { frozen = true }))
  modify (freeze_parts group.part_keys)

-- `textValue` and `refusalValue`
unfoldable pub text_value_at : Text → SemanticItemLedger → Text
text_value_at key s = elim (lookup key s.message_parts) [ none ↦ [] | some part ↦ part.text_value ]

unfoldable pub refusal_value_at : Text → SemanticItemLedger → Text
refusal_value_at key s = elim (lookup key s.message_parts) [
  | none ↦ []
  | some part ↦ part.refusal_value
]
