-- ===== src/Conversion/Ledger/ReasoningItems.antt =====
-- The reasoning items that src/protocols/conversion/ledger.ts hands out.
use ghc_gateway.Base.{
  ℕ, Bool, true, false, Option, none, some, List, [], ◌∷◌, Text, lookup, leb, if◌then◌else◌,
}
use ghc_gateway.Conversion.Ledger.{
  SemanticItemLedger, EntryKind, reasoning_entry, message_entry, tool_entry, ReasoningPresentation,
  summary, content, ReasoningStatus, completed, incomplete, in_progress, MessagesReasoningState,
  OpaqueReasoningState, ReasoningState, ReasoningPartState, Method, found_or, ◌>>=◌, ◌>>◌, return,
  modify, invalid,
}
use ghc_gateway.Conversion.Ledger.Reasoning.{put_reasoning, put_reasoning_part}

pub record ReasoningPart : Type 0 where
  pub key : Text
  pub presentation : ReasoningPresentation
  pub index : ℕ
  pub part_text : Text

-- `SemanticReasoningItem`; it has an opaque state exactly where `hasOpaqueState` is true.
pub record ReasoningItem : Type 0 where
  pub key : Text
  pub item_id : Option Text
  pub parts : List ReasoningPart
  pub item_status : Option ReasoningStatus
  pub item_messages_state : Option MessagesReasoningState
  pub item_opaque_state : Option OpaqueReasoningState

abbrev pub part_of : Text → ReasoningPartState → ReasoningPart
part_of key part = record {
  key = key;
  presentation = part.presentation;
  index = part.index;
  part_text = part.reasoning_text;
}

-- `compareReasoningParts(left, right) <= 0`
unfoldable pub part_precedes : ReasoningPart → ReasoningPart → Bool
part_precedes left right = elim left.presentation [
  | summary ↦ elim right.presentation [ summary ↦ leb left.index right.index | content ↦ true ]
  | content ↦ elim right.presentation [ summary ↦ false | content ↦ leb left.index right.index ]
]

-- The place of a part that stood before the sorted ones: the sort is stable.
unfoldable pub place_part : ReasoningPart → List ReasoningPart → List ReasoningPart
place_part part [] = part ∷ []
place_part part (next ∷ parts) =
    let rest = place_part part parts in
    if part_precedes part next then part ∷ next ∷ parts else next ∷ rest

-- `.sort(compareReasoningParts)`
unfoldable pub sort_parts : List ReasoningPart → List ReasoningPart
sort_parts [] = []
sort_parts (part ∷ parts) = place_part part (sort_parts parts)

-- The parts behind the keys, or none where a key has no part.
unfoldable pub parts_at : List (Text × ReasoningPartState) → List Text → Option (List ReasoningPart)
parts_at states [] = some []
parts_at states (key ∷ keys) = elim (lookup key states) [
  | none ↦ none
  | some part ↦ elim (parts_at states keys) [
    | none ↦ none
    | some parts ↦ some (part_of key part ∷ parts)
  ]
]

abbrev pub item_of : Text → ReasoningState → List ReasoningPart → ReasoningItem
item_of key state parts = record {
  key = key;
  item_id = state.reasoning_id;
  parts = sort_parts parts;
  item_status = state.status;
  item_messages_state = state.messages_state;
  item_opaque_state = state.opaque_state;
}

unfoldable pub reasoning_item : Text → ReasoningState → Method ReasoningItem
reasoning_item key state s =
    found_or (parts_at s.reasoning_parts state.reasoning_part_keys) invalid
      (λ parts. return (item_of key state parts)) s

abbrev pub freeze_reasoning_part : Text → SemanticItemLedger → SemanticItemLedger
freeze_reasoning_part key s = elim (lookup key s.reasoning_parts) [
  | none ↦ s
  | some part ↦ put_reasoning_part key (record part { reasoning_part_frozen = true }) s
]

-- The loop of `finishReasoning` over the part keys.
unfoldable pub freeze_reasoning_parts : List Text → SemanticItemLedger → SemanticItemLedger
freeze_reasoning_parts [] s = s
freeze_reasoning_parts (key ∷ keys) s = freeze_reasoning_parts keys (freeze_reasoning_part key s)

abbrev pub same_status : ReasoningStatus → ReasoningStatus → Bool
same_status completed completed = true
same_status incomplete incomplete = true
same_status in_progress in_progress = true
same_status _ _ = false

abbrev pub has_status : Option ReasoningStatus → ReasoningStatus → Bool
has_status none status = false
has_status (some known) status = same_status known status

abbrev pub finished_state : ReasoningState → ReasoningStatus → ReasoningState
finished_state state status = record state { reasoning_frozen = true; status = some status }

-- The branches of `finishReasoning` for an item that is there.
unfoldable pub finish_known : Text → ReasoningStatus → ReasoningState → Method ReasoningItem
finish_known key status state =
    if state.reasoning_frozen
    then (if has_status state.status status then reasoning_item key state else invalid)
    else (do
      modify (put_reasoning key (finished_state state status))
      modify (freeze_reasoning_parts state.reasoning_part_keys)
      reasoning_item key (finished_state state status))

unfoldable pub finish_reasoning : Text → ReasoningStatus → Method ReasoningItem
finish_reasoning key status s =
    found_or (lookup key s.reasoning) invalid (finish_known key status) s

-- Whether the loop of `finishOpenReasoning` passes over an entry.
unfoldable pub is_open : EntryKind → Text → SemanticItemLedger → Bool
is_open message_entry key s = false
is_open tool_entry key s = false
is_open reasoning_entry key s = elim (lookup key s.reasoning) [
  | none ↦ false
  | some state ↦ if state.reasoning_frozen then false else true
]

-- The loop of `finishOpenReasoning` over the order.
unfoldable pub finish_entries :
    ReasoningStatus → List (EntryKind × Text) → Method (List ReasoningItem)
finish_entries status [] s = return [] s
finish_entries status ((kind, key) ∷ entries) s =
    (if is_open kind key s
        then (do
          item ← finish_reasoning key status
          items ← finish_entries status entries
          return (item ∷ items))
        else finish_entries status entries)
      s

unfoldable pub finish_open_reasoning : ReasoningStatus → Method (List ReasoningItem)
finish_open_reasoning status s = finish_entries status s.order s
