-- ===== src/Conversion/Ledger/Runs.antt =====
-- Sequences of calls on a ledger of src/protocols/conversion/ledger.ts.
use ghc_gateway.Base.{◌≡◌, ◌≤◌, refl, subst, arith, Bool, Option, List, [], ◌∷◌, Text, ℕ}
use ghc_gateway.Conversion.Ledger.{
  SemanticItemLedger, ReasoningStatus, MessagesReasoningState, OpaqueReasoningState, ok, Method,
  ◌>>=◌, ◌>>◌, return, empty_ledger,
}
use ghc_gateway.Conversion.Ledger.Messages.{
  message, start_message, observe_text, append_text, observe_refusal, append_refusal,
  finish_content, finish_message,
}
use ghc_gateway.Conversion.Ledger.Tools.{
  start_tool, append_tool_arguments, finish_tool, finish_open_tools,
}
use ghc_gateway.Conversion.Ledger.Reasoning.{ReasoningPartInput, start_reasoning, append_reasoning}
use ghc_gateway.Conversion.Ledger.ReasoningItems.{finish_reasoning, finish_open_reasoning}
use ghc_gateway.Conversion.Ledger.ReasoningBudget.{
  start_reasoning-Sound, append_reasoning-Sound, finish_reasoning-Sound,
  finish_open_reasoning-Sound,
}
use ghc_gateway.Conversion.Ledger.Budget.{
  EndsWithin, Sound, bind-Sound, message-Sound, observe_text-Sound, observe_refusal-Sound,
  append_text-Sound, append_refusal-Sound, finish_content-Sound, finish_message-Sound,
  start_tool-Sound, append_tool_arguments-Sound, finish_tool-Sound, finish_open_tools-Sound,
}

-- One call of a method that changes the ledger, with its arguments.
pub data LedgerCall : Type 0 where
  starts_message finishes_content finishes_message : Text → LedgerCall
  observes_text observes_refusal : Text → Text → LedgerCall
  appends_text appends_refusal : Text → Text → Text → LedgerCall
  starts_tool : Text → Option Text → Text → Text → LedgerCall
  appends_tool_arguments : Text → Text → LedgerCall
  finishes_tool : Text → Option Text → Bool → Bool → LedgerCall
  finishes_open_tools : (Text → Bool) → LedgerCall
  starts_reasoning :
      Text → Option Text → Option MessagesReasoningState → Option OpaqueReasoningState → LedgerCall
  appends_reasoning : ReasoningPartInput → Text → LedgerCall
  finishes_reasoning : Text → ReasoningStatus → LedgerCall
  finishes_open_reasoning : ReasoningStatus → LedgerCall

unfoldable pub perform : LedgerCall → Method (Unit {0})
perform (starts_message key) = start_message key
perform (finishes_content key) = finish_content key
perform (finishes_message key) = finish_message key
perform (observes_text key order_key) = do first ← observe_text key order_key; return tt
perform (observes_refusal key order_key) = do first ← observe_refusal key order_key; return tt
perform (appends_text key delta order_key) = append_text key delta order_key
perform (appends_refusal key delta order_key) = append_refusal key delta order_key
perform (starts_tool key item_id call_id name) = start_tool key item_id call_id name
perform (appends_tool_arguments key delta) = append_tool_arguments key delta
perform (finishes_tool key snapshot completed validate_completed) = do
  suffix ← finish_tool key snapshot completed validate_completed
  return tt
perform (finishes_open_tools validates) = finish_open_tools validates
perform (starts_reasoning key item_id messages_state opaque_state) =
    start_reasoning key item_id messages_state opaque_state
perform (appends_reasoning input delta) = append_reasoning input delta
perform (finishes_reasoning key status) = do item ← finish_reasoning key status; return tt
perform (finishes_open_reasoning status) = do items ← finish_open_reasoning status; return tt

-- The calls in order, up to the first that throws.
unfoldable pub run_calls : List LedgerCall → Method (Unit {0})
unfolding perform
run_calls [] = return tt
run_calls (call ∷ calls) = do perform call; run_calls calls

module _ (limit : ℕ) where
  start_message-Sound : (key : Text) → Sound limit (start_message key)
  unfolding start_message
  start_message-Sound key = bind-Sound limit (message key) _ (message-Sound limit key) (λ _ s w. w)

  perform-Sound : (call : LedgerCall) → Sound limit (perform call)
  unfolding perform
  perform-Sound (starts_message key) = start_message-Sound key
  perform-Sound (finishes_content key) = finish_content-Sound limit key
  perform-Sound (finishes_message key) = finish_message-Sound limit key
  perform-Sound (observes_text key order_key) =
      bind-Sound limit (observe_text key order_key) _ (observe_text-Sound limit key order_key)
        (λ _ s w. w)
  perform-Sound (observes_refusal key order_key) =
      bind-Sound limit (observe_refusal key order_key) _ (observe_refusal-Sound limit key order_key)
        (λ _ s w. w)
  perform-Sound (appends_text key delta order_key) = append_text-Sound limit key delta order_key
  perform-Sound (appends_refusal key delta order_key) =
      append_refusal-Sound limit key delta order_key
  perform-Sound (starts_tool key item_id call_id name) =
      start_tool-Sound limit key item_id call_id name
  perform-Sound (appends_tool_arguments key delta) = append_tool_arguments-Sound limit key delta
  perform-Sound (finishes_tool key snapshot completed validate_completed) =
      bind-Sound limit (finish_tool key snapshot completed validate_completed) _
        (finish_tool-Sound limit key snapshot completed validate_completed) (λ _ s w. w)
  perform-Sound (finishes_open_tools validates) = finish_open_tools-Sound limit validates
  perform-Sound (starts_reasoning key item_id messages_state opaque_state) =
      start_reasoning-Sound limit key item_id messages_state opaque_state
  perform-Sound (appends_reasoning input delta) = append_reasoning-Sound limit input delta
  perform-Sound (finishes_reasoning key status) =
      bind-Sound limit (finish_reasoning key status) _ (finish_reasoning-Sound limit key status)
        (λ _ s w. w)
  perform-Sound (finishes_open_reasoning status) =
      bind-Sound limit (finish_open_reasoning status) _ (finish_open_reasoning-Sound limit status)
        (λ _ s w. w)

  run_calls-Sound : (calls : List LedgerCall) → Sound limit (run_calls calls)
  unfolding run_calls
  run_calls-Sound [] = λ s w. w
  run_calls-Sound (call ∷ calls) =
      bind-Sound limit (perform call) _ (perform-Sound call) (λ _. run_calls-Sound calls)

-- A sequence of calls on a new ledger that all return, in any order and with any arguments, has
-- charged no more bytes than the ledger's limit.
pub run_calls-within :
    (limit : ℕ) (calls : List LedgerCall) (s : SemanticItemLedger)
    → run_calls calls (empty_ledger limit) ≡ (s, ok tt)
    → s.used_bytes ≤ limit
run_calls-within limit calls s e =
    let ended : EndsWithin limit (s, ok tt) =
      subst (EndsWithin limit) e
        (run_calls-Sound limit calls (empty_ledger limit) (refl, ground arith)) in
    ended.1
