-- ===== src/Conversion/Ledger/Finishing.antt =====
-- What a tool call is once src/protocols/conversion/ledger.ts has finished it.
use ghc_gateway.Base.{
  ◌≡◌, refl, ap, ◌∙◌, subst, true, Option, none, some, [], Text, same_text, lookup,
  lookup-insert_self,
}
use ghc_gateway.Conversion.Ledger.{
  SemanticItemLedger, ToolState, Result, ok, throws, ◌>>◌, return, invalid,
}
use ghc_gateway.Conversion.Ledger.Tools.{
  raise, argument_error, validate_arguments, tool_at, finish_again, take_snapshot, finish_tool,
}
use ghc_gateway.Conversion.Ledger.Texts.{Ends, proceed-Ends, found_or-Ends, if-Ends}

-- The tool at the key is done, and its arguments are a JSON object.
abbrev Completed : Text → SemanticItemLedger → Type 0
Completed key t =
    (tool : ToolState) × (lookup key t.tools ≡ some tool)
    × (tool.done ≡ true)
    × (argument_error tool.arguments_json ≡ none)

tool_at-Ends :
    (key : Text) (s : SemanticItemLedger)
    → Ends (λ t tool. lookup key t.tools ≡ some tool) (tool_at key s)
unfolding tool_at invalid
tool_at-Ends key s =
    found_or-Ends (λ t tool. lookup key t.tools ≡ some tool) (lookup key s.tools) invalid return s
      (λ e. tt) (λ tool e. e)

validate-Ends :
    (value : Text) (s : SemanticItemLedger)
    → Ends (λ t u. (t.tools ≡ s.tools) × (argument_error value ≡ none)) (validate_arguments value s)
unfolding validate_arguments
validate-Ends value s =
    found_or-Ends (λ t u. (t.tools ≡ s.tools) × (argument_error value ≡ none))
      (argument_error value) (return tt) raise s (λ e. (refl, e)) (λ error e. tt)

finish_again-Completed :
    (key : Text) (tool : ToolState) (snapshot : Option Text) (s : SemanticItemLedger)
    → lookup key s.tools ≡ some tool
    → tool.done ≡ true
    → Ends (λ t suffix. Completed key t) (finish_again tool snapshot true s)
unfolding finish_again invalid
finish_again-Completed key tool snapshot s found done =
    if-Ends R (elim snapshot [ none ↦ true | some value ↦ same_text value tool.arguments_json ])
      (validate_arguments tool.arguments_json >> return []) invalid s
      (λ same.
        proceed-Ends (λ t u. (t.tools ≡ s.tools) × (argument_error tool.arguments_json ≡ none)) R
          (validate_arguments tool.arguments_json s) _ (validate-Ends tool.arguments_json s)
          λ t u (kept, valid). (tool, ap (lookup key) kept ∙ found, done, valid))
      (λ other. tt)
  where
    R : SemanticItemLedger → Text → Type 0
    R t suffix = Completed key t

take_snapshot-Ends :
    (key : Text) (tool : ToolState) (snapshot : Option Text) (s : SemanticItemLedger)
    → Ends (λ t taken. Unit {0}) (take_snapshot key tool snapshot s)
take_snapshot-Ends key tool snapshot s = any_end (take_snapshot key tool snapshot s)
  where
    any_end : (p : SemanticItemLedger × Result (ToolState × Text)) → Ends (λ t taken. Unit {0}) p
    any_end (t, ok a) = tt
    any_end (t, throws e) = tt

finish_tool-Ends :
    (key : Text) (snapshot : Option Text) (s : SemanticItemLedger)
    → Ends (λ t suffix. Completed key t) (finish_tool key snapshot true true s)
unfolding finish_tool
finish_tool-Ends key snapshot s =
    proceed-Ends (λ t tool. lookup key t.tools ≡ some tool) R (tool_at key s) _ (tool_at-Ends key s)
      λ t tool found.
        if-Ends R tool.done (finish_again tool snapshot true) _ t
          (λ done. finish_again-Completed key tool snapshot t found done)
          λ still_open.
            proceed-Ends (λ u taken. Unit {0}) R (take_snapshot key tool snapshot t) _
              (take_snapshot-Ends key tool snapshot t)
              λ u taken h.
                proceed-Ends
                  (λ v w. (v.tools ≡ u.tools) × (argument_error (taken.0).arguments_json ≡ none)) R
                  (validate_arguments (taken.0).arguments_json u) _
                  (validate-Ends (taken.0).arguments_json u)
                  λ v w (kept, valid). (
                    record (taken.0) { done = true },
                    lookup-insert_self key (record (taken.0) { done = true }) v.tools,
                    refl,
                    valid,
                  )
  where
    R : SemanticItemLedger → Text → Type 0
    R t suffix = Completed key t

-- A call of `finish_tool` that completes a tool, validates its arguments and returns leaves the tool
-- done, with arguments that are a JSON object.
pub finish_tool-completes :
    (key : Text) (snapshot : Option Text) (s t : SemanticItemLedger) (suffix : Text)
    → finish_tool key snapshot true true s ≡ (t, ok suffix)
    → (tool : ToolState) × (lookup key t.tools ≡ some tool)
      × (tool.done ≡ true)
      × (argument_error tool.arguments_json ≡ none)
finish_tool-completes key snapshot s t suffix e =
    subst (Ends (λ t suffix. Completed key t)) e (finish_tool-Ends key snapshot s)
