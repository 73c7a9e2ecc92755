-- ===== src/Conversion/Ledger/Tests.antt =====
-- The theorems about src/protocols/conversion/ledger.ts at concrete inputs.
use ghc_gateway.Base.{
  ◌≡◌, ◌≤◌, refl, true, false, none, List, [], ◌∷◌, ◌++◌, Text, text, same_text, lookup, insert,
}
use ghc_gateway.Conversion.Ledger.{
  SemanticItemLedger, ToolState, MessagePartState, message_entry, tool_entry, ok, empty_ledger,
  reserve,
}
use ghc_gateway.Conversion.Ledger.Encoding.{utf8_length, encode_utf8}
use ghc_gateway.Conversion.Ledger.Messages.{
  append_text, append_refusal, observe_text, observe_refusal, message, new_message, check_open,
  message_part, new_part, text_value_at, refusal_value_at,
}
use ghc_gateway.Conversion.Ledger.Tools.{
  start_tool, charge_tool, reserve_optional, append_tool_arguments, tool_at, finish_tool,
  take_snapshot,
}
use ghc_gateway.WireJson.Strings.{code_points, is_high, is_low, from_code_point}
use ghc_gateway.WireJson.Utf8.{is_surrogate, utf8_code_point}
use ghc_gateway.Conversion.Ledger.Runs.{
  LedgerCall, perform, run_calls, appends_text, appends_refusal, starts_tool,
  appends_tool_arguments, finishes_tool, run_calls-within,
}
use ghc_gateway.Conversion.Ledger.Tools.{drop, validate_arguments, argument_error, judge_arguments}
use ghc_gateway.Conversion.Ledger.Finishing.{finish_tool-completes}
use ghc_gateway.WireJson.Syntax.{is_wire_json_object}
use ghc_gateway.WireJson.Strings.{parse_string, parse_units}
use ghc_gateway.WireJson.Numbers.{parse_number}
use ghc_gateway.WireJson.Parser.{parse_wire_json, expect_ascii, skip_whitespace}
use ghc_gateway.Base.{Bool, starts_with, some}
use ghc_gateway.Conversion.Ledger.Texts.{append_text-appends}

abbrev calls : List LedgerCall
calls =
    appends_text (text "m/0") (text "Hi") (text "m")
    ∷ appends_refusal (text "m/0") (text "No") (text "m")
    ∷ starts_tool (text "t") none (text "call") (text "run")
    ∷ appends_tool_arguments (text "t") (text "{}")
    ∷ finishes_tool (text "t") none true false
    ∷ []

abbrev part : Text → MessagePartState
part value = record {
  group_key = text "m";
  text_value = value;
  refusal_value = text "No";
  text_seen = true;
  refusal_seen = true;
  part_frozen = false;
}

abbrev collected : SemanticItemLedger
collected = record (empty_ledger 64) {
  used_bytes = 18;
  tools =
      (
        text "t",
        record {
          item_id = none;
          call_id = text "call";
          name = text "run";
          arguments_json = text "{}";
          done = true;
        },
      )
      ∷ [];
  call_ids = text "call" ∷ [];
  messages = (text "m", record { part_keys = text "m/0" ∷ []; frozen = false }) ∷ [];
  message_parts = (text "m/0", part (text "Hi")) ∷ [];
  order = (message_entry, text "m") ∷ (tool_entry, text "t") ∷ [];
}

calls-collected : run_calls calls (empty_ledger 64) ≡ (collected, ok tt)
unfolding run_calls perform append_refusal observe_refusal start_tool charge_tool reserve_optional
    append_tool_arguments tool_at finish_tool take_snapshot reserve utf8_length encode_utf8
    code_points is_high is_low from_code_point is_surrogate utf8_code_point observe_text message
    lookup new_message check_open message_part new_part same_text insert append_text
calls-collected = refl

run_calls-within_example : collected.used_bytes ≤ 64
run_calls-within_example = run_calls-within 64 calls collected calls-collected

abbrev greeted : SemanticItemLedger
greeted = record (empty_ledger 64) {
  used_bytes = 19;
  tools =
      (
        text "t",
        record {
          item_id = none;
          call_id = text "call";
          name = text "run";
          arguments_json = text "{}";
          done = true;
        },
      )
      ∷ [];
  call_ids = text "call" ∷ [];
  messages = (text "m", record { part_keys = text "m/0" ∷ []; frozen = false }) ∷ [];
  message_parts = (text "m/0", part (text "Hi!")) ∷ [];
  order = (message_entry, text "m") ∷ (tool_entry, text "t") ∷ [];
}

collected-greeted : append_text (text "m/0") (text "!") (text "m") collected ≡ (greeted, ok tt)
unfolding reserve utf8_length encode_utf8 code_points is_high is_low from_code_point is_surrogate
    utf8_code_point observe_text message lookup new_message check_open message_part new_part
    same_text insert append_text
collected-greeted = refl

append_text-appends_example :
    (text_value_at (text "m/0") greeted ≡ text_value_at (text "m/0") collected ++ text "!")
    × ((j : Text)
        → same_text (text "m/0") j ≡ false
        → text_value_at j greeted ≡ text_value_at j collected)
    × ((j : Text) → refusal_value_at j greeted ≡ refusal_value_at j collected)
append_text-appends_example =
    append_text-appends (text "m/0") (text "!") (text "m") collected greeted collected-greeted

abbrev tool_state : Text → Bool → ToolState
tool_state arguments done = record {
  item_id = none;
  call_id = text "call";
  name = text "run";
  arguments_json = arguments;
  done = done;
}

abbrev half_way : SemanticItemLedger
half_way = record (empty_ledger 64) { tools = (text "t", tool_state (text "{") false) ∷ [] }

abbrev whole : SemanticItemLedger
whole = record (empty_ledger 64) {
  used_bytes = 1;
  tools = (text "t", tool_state (text "{}") true) ∷ [];
}

half_way-whole :
    finish_tool (text "t") (some (text "{}")) true true half_way ≡ (whole, ok (text "}"))
unfolding finish_tool tool_at take_snapshot starts_with drop reserve utf8_length encode_utf8
    code_points is_high is_low from_code_point is_surrogate utf8_code_point lookup insert same_text
    validate_arguments argument_error judge_arguments is_wire_json_object parse_wire_json
    expect_ascii skip_whitespace parse_string parse_number parse_units
half_way-whole = refl

finish_tool-completes_example :
    (tool : ToolState) × (lookup (text "t") whole.tools ≡ some tool)
    × (tool.done ≡ true)
    × (argument_error tool.arguments_json ≡ none)
finish_tool-completes_example =
    finish_tool-completes (text "t") (some (text "{}")) half_way whole (text "}") half_way-whole
