-- ===== src/Conversion/Ledger/ReasoningTests.antt =====
-- The reasoning items of src/protocols/conversion/ledger.ts at concrete inputs.
use ghc_gateway.Base.{
  ◌≡◌, refl, true, false, none, some, [], ◌∷◌, text, same_text, lookup, insert, if◌then◌else◌,
}
use ghc_gateway.Gateway.Failures.{gateway_failure}
use ghc_gateway.Conversion.Ledger.{
  SemanticItemLedger, ReasoningPartState, summary, content, completed, incomplete, ok, throws,
  empty_ledger, stream_failure,
}
use ghc_gateway.Conversion.Ledger.ReasoningItems.{
  ReasoningItem, finish_reasoning, finish_known, freeze_reasoning_parts, reasoning_item, parts_at,
  sort_parts, place_part, part_precedes, same_status,
}
use ghc_gateway.Conversion.Ledger.ReasoningFinished.{InOrder, finish_reasoning-freezes}

abbrev thought : ReasoningPartState
thought = record {
  item_key = text "r";
  presentation = content;
  index = 0;
  reasoning_text = text "so";
  reasoning_part_frozen = false;
}

abbrev outline : ReasoningPartState
outline = record thought { presentation = summary; index = 1 }

abbrev thinking_ledger : SemanticItemLedger
thinking_ledger = record (empty_ledger 64) {
  reasoning =
      (
        text "r",
        record {
          reasoning_id = none;
          reasoning_part_keys = text "c" ∷ text "s" ∷ [];
          status = none;
          reasoning_frozen = false;
          messages_state = none;
          opaque_state = none;
        },
      )
      ∷ [];
  reasoning_parts = (text "c", thought) ∷ (text "s", outline) ∷ [];
}

abbrev thought_out : SemanticItemLedger
thought_out = record (empty_ledger 64) {
  reasoning =
      (
        text "r",
        record {
          reasoning_id = none;
          reasoning_part_keys = text "c" ∷ text "s" ∷ [];
          status = some completed;
          reasoning_frozen = true;
          messages_state = none;
          opaque_state = none;
        },
      )
      ∷ [];
  reasoning_parts =
      (text "c", record thought { reasoning_part_frozen = true })
      ∷ (text "s", record outline { reasoning_part_frozen = true })
      ∷ [];
}

abbrev thoughts : ReasoningItem
thoughts = record {
  key = text "r";
  item_id = none;
  parts =
      record { key = text "s"; presentation = summary; index = 1; part_text = text "so" }
      ∷ record { key = text "c"; presentation = content; index = 0; part_text = text "so" }
      ∷ [];
  item_status = some completed;
  item_messages_state = none;
  item_opaque_state = none;
}

thinking-thoughts :
    finish_reasoning (text "r") completed thinking_ledger ≡ (thought_out, ok thoughts)
unfolding finish_reasoning finish_known freeze_reasoning_parts reasoning_item parts_at sort_parts
    place_part part_precedes lookup insert same_text
thinking-thoughts = refl

finish_reasoning-freezes_example :
    (thoughts.item_status ≡ some completed)
    × InOrder thoughts.parts
    × (finish_reasoning (text "r") incomplete thought_out ≡ (
        if same_status completed incomplete
        then (thought_out, ok thoughts)
        else (thought_out, throws (gateway_failure stream_failure))))
finish_reasoning-freezes_example =
    finish_reasoning-freezes (text "r") completed incomplete thinking_ledger thought_out thoughts
      thinking-thoughts
