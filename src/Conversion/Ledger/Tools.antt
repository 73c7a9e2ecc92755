-- ===== src/Conversion/Ledger/Tools.antt =====
-- Tool calls of src/protocols/conversion/ledger.ts.
use ghc_gateway.Base.{
  ℕ, zero, suc, Bool, true, false, ◌&&◌, ◌||◌, Option, none, some, List, [], ◌∷◌, ◌++◌, Text,
  same_text, starts_with, lookup, insert, length, any, if◌then◌else◌, max, map, keep,
}
use ghc_gateway.WireJson.Syntax.{WireJson, is_wire_json_object}
use ghc_gateway.WireJson.Outcome.{Outcome, raised, out_of_fuel}
use ghc_gateway.WireJson.Parser.{parse_wire_json}
use ghc_gateway.Gateway.Failures.{
  Thrown, gateway_failure, static, invalid_tool_arguments, converter, stream, Cause, wire_json,
  other_error,
}
use ghc_gateway.Conversion.Ledger.Encoding.{encode_utf8}
use ghc_gateway.Conversion.Ledger.{
  SemanticItemLedger, ToolState, EntryKind, message_entry, reasoning_entry, tool_entry, throws,
  Method, found_or, ◌>>=◌, ◌>>◌, return, modify, invalid, reserve, stream_failure,
}

unfoldable pub argument_failure : Cause → Thrown
argument_failure cause = gateway_failure (record {
  kind = static invalid_tool_arguments;
  source = some converter;
  phase = some stream;
  cause = some cause;
})

-- The parse of the arguments, judged: `none` where they are a JSON object. The last case, which has
-- no counterpart in the source, does not arise.
unfoldable pub judge_arguments : Outcome WireJson → Option Thrown
unfolding argument_failure is_wire_json_object
judge_arguments (Outcome.ok value) =
    if is_wire_json_object value then none else some (gateway_failure stream_failure)
judge_arguments (raised code) = some (argument_failure (wire_json code))
judge_arguments out_of_fuel = some (argument_failure (other_error 0))

unfoldable pub argument_error : Text → Option Thrown
unfolding judge_arguments
argument_error value =
    let bytes = encode_utf8 value in
    judge_arguments
      (parse_wire_json bytes (record { max_bytes = max 1 (length bytes); max_depth = 32 }))

abbrev pub raise : {A : Type 0} → Thrown → Method A
raise error s = (s, throws error)

unfoldable pub validate_arguments : Text → Method (Unit {0})
validate_arguments value = found_or (argument_error value) (return tt) raise

abbrev pub is_empty : Text → Bool
is_empty [] = true
is_empty (c ∷ rest) = false

abbrev pub has_tool : Text → SemanticItemLedger → Bool
has_tool key s = elim (lookup key s.tools) [ none ↦ false | some tool ↦ true ]

abbrev pub has_call : Text → SemanticItemLedger → Bool
has_call call_id s = any (λ other. same_text other call_id) s.call_ids

unfoldable pub reserve_optional : Option Text → Method (Unit {0})
reserve_optional none = return tt
reserve_optional (some value) = reserve value

abbrev pub put_tool : Text → ToolState → SemanticItemLedger → SemanticItemLedger
put_tool key tool s = record s { tools = insert key tool s.tools }

unfoldable pub charge_tool : Text → Option Text → Text → Text → Method (Unit {0})
charge_tool key item_id call_id name = do
  reserve key
  reserve_optional item_id
  reserve call_id
  reserve name

unfoldable pub start_tool : Text → Option Text → Text → Text → Method (Unit {0})
start_tool key item_id call_id name s =
    (if has_tool key s || has_call call_id s || is_empty call_id || is_empty name
        then invalid
        else do
          charge_tool key item_id call_id name
          modify (λ t. record t { call_ids = t.call_ids ++ call_id ∷ [] })
          modify (
              put_tool key (record {
                item_id = item_id;
                call_id = call_id;
                name = name;
                arguments_json = [];
                done = false;
              }))
          modify (λ t. record t { order = t.order ++ (tool_entry, key) ∷ [] }))
      s

-- `tool(key)`
unfoldable pub tool_at : Text → Method ToolState
tool_at key s = found_or (lookup key s.tools) invalid return s

unfoldable pub append_tool_arguments : Text → Text → Method (Unit {0})
append_tool_arguments key delta = do
  tool ← tool_at key
  if tool.done then invalid else do
    reserve delta
    modify (put_tool key (record tool { arguments_json = tool.arguments_json ++ delta }))

unfoldable pub drop : ℕ → Text → Text
drop zero t = t
drop (suc n) [] = []
drop (suc n) (c ∷ t) = drop n t

-- A tool that is done takes the same snapshot again, and no other.
unfoldable pub finish_again : ToolState → Option Text → Bool → Method Text
finish_again tool snapshot validates =
    let same : Bool = elim snapshot [
      | none ↦ true
      | some value ↦ same_text value tool.arguments_json
    ] in
    if same
    then (do if validates then validate_arguments tool.arguments_json else return tt; return [])
    else invalid

-- The arguments after a snapshot, and what the snapshot adds.
unfoldable pub take_snapshot : Text → ToolState → Option Text → Method (ToolState × Text)
take_snapshot key tool none = return (tool, [])
take_snapshot key tool (some value) =
    if starts_with value tool.arguments_json
    then (do
      reserve (drop (length tool.arguments_json) value)
      modify (put_tool key (record tool { arguments_json = value }))
      return (record tool { arguments_json = value }, drop (length tool.arguments_json) value))
    else invalid

unfoldable pub finish_tool :
    Text → Option Text → (completed validate_completed : Bool) → Method Text
finish_tool key snapshot completed validate_completed = do
  tool ← tool_at key
  if tool.done then finish_again tool snapshot (completed && validate_completed) else do
    taken ← take_snapshot key tool snapshot
    if completed && validate_completed
        then validate_arguments (taken.0).arguments_json
        else return tt
    modify (put_tool key (record (taken.0) { done = true }))
    return taken.1

-- The loop of `finishOpenTools` over the tools in their order.
unfoldable pub finish_tools : (Text → Bool) → List (Text × ToolState) → Method (Unit {0})
finish_tools validates [] = return tt
finish_tools validates ((key, tool) ∷ tools) = do
  if validates tool.name then validate_arguments tool.arguments_json else return tt
  modify (put_tool key (record tool { done = true }))
  finish_tools validates tools

unfoldable pub finish_open_tools : (Text → Bool) → Method (Unit {0})
finish_open_tools validates s = finish_tools validates s.tools s

unfoldable pub is_tool : EntryKind × Text → Bool
is_tool (tool_entry, key) = true
is_tool (message_entry, key) = false
is_tool (reasoning_entry, key) = false

unfoldable pub tool_keys : SemanticItemLedger → List Text
unfolding is_tool
tool_keys s = map (λ entry. entry.1) (keep is_tool s.order)
