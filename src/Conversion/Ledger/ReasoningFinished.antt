-- ===== src/Conversion/Ledger/ReasoningFinished.antt =====
-- What a reasoning item is once src/protocols/conversion/ledger.ts has finished it.
use ghc_gateway.Base.{
  ◌≡◌, refl, ap, ◌∙◌, subst, Bool, true, false, Option, none, some, List, [], ◌∷◌, Text, lookup,
  lookup-insert_self, leb, if◌then◌else◌, Option-cases, Bool-cases, inl, inr, arith,
}
use ghc_gateway.Gateway.Failures.{gateway_failure}
use ghc_gateway.Conversion.Ledger.{
  SemanticItemLedger, ReasoningStatus, completed, incomplete, in_progress, ReasoningPresentation,
  summary, content, ReasoningState, ok, throws, return, invalid, found_or, stream_failure,
}
use ghc_gateway.Conversion.Ledger.Texts.{Ends, found_or-Ends, if-Ends}
use ghc_gateway.Conversion.Ledger.Reasoning.{put_reasoning}
use ghc_gateway.Conversion.Ledger.ReasoningItems.{
  ReasoningPart, ReasoningItem, item_of, part_precedes, place_part, sort_parts, parts_at,
  reasoning_item, freeze_reasoning_part, freeze_reasoning_parts, same_status, has_status,
  finished_state, finish_known, finish_reasoning,
}

-- The head does not come after what follows it.
abbrev Leads : ReasoningPart → List ReasoningPart → Type 0
Leads part [] = Unit {0}
Leads part (next ∷ parts) = part_precedes part next ≡ true

-- Summaries first, each presentation by its index.
abbrev pub InOrder : List ReasoningPart → Type 0
InOrder [] = Unit {0}
InOrder (part ∷ parts) = Leads part parts × InOrder parts

other_way :
    (left right : ReasoningPart)
    → part_precedes left right ≡ false
    → part_precedes right left ≡ true
unfolding part_precedes
other_way left right h = cases left.presentation right.presentation h
  where
    cases :
        (p q : ReasoningPresentation)
        → (elim p [
          | summary ↦ elim q [ summary ↦ leb left.index right.index | content ↦ true ]
          | content ↦ elim q [ summary ↦ false | content ↦ leb left.index right.index ]
        ])
          ≡ false
        → (elim q [
          | summary ↦ elim p [ summary ↦ leb right.index left.index | content ↦ true ]
          | content ↦ elim p [ summary ↦ false | content ↦ leb right.index left.index ]
        ])
          ≡ true
    cases summary summary e = ground arith
    cases summary content e = ground arith
    cases content summary e = refl
    cases content content e = ground arith

place_part-Leads :
    (head part : ReasoningPart) (parts : List ReasoningPart)
    → part_precedes head part ≡ true
    → Leads head parts
    → Leads head (place_part part parts)
unfolding place_part
place_part-Leads head part [] h k = h
place_part-Leads head part (next ∷ parts) h k = elim (Bool-cases (part_precedes part next)) [
  | inl e ↦ rw (e) h
  | inr e ↦ rw (e) k
]

place_part-InOrder :
    (part : ReasoningPart) (parts : List ReasoningPart)
    → InOrder parts
    → InOrder (place_part part parts)
unfolding place_part
place_part-InOrder part [] h = (tt, tt)
place_part-InOrder part (next ∷ parts) h = elim (Bool-cases (part_precedes part next)) [
  | inl e ↦ rw (e) (e, h)
  | inr e ↦ rw (e) (
    place_part-Leads next part parts (other_way part next e) h.0,
    place_part-InOrder part parts h.1,
  )
]

sort_parts-InOrder : (parts : List ReasoningPart) → InOrder (sort_parts parts)
unfolding sort_parts
sort_parts-InOrder [] = tt
sort_parts-InOrder (part ∷ parts) =
    place_part-InOrder part (sort_parts parts) (sort_parts-InOrder parts)

-- The item at the key is frozen with the status, and is handed out as `item`.
abbrev Finished : Text → ReasoningStatus → SemanticItemLedger → ReasoningItem → Type 0
Finished key status t item =
    (state : ReasoningState) × (lookup key t.reasoning ≡ some state)
    × (state.reasoning_frozen ≡ true)
    × (state.status ≡ some status)
    × (reasoning_item key state t ≡ (t, ok item))
    × (item.item_status ≡ some status)
    × InOrder item.parts

same_status-≡ : (s t : ReasoningStatus) → same_status s t ≡ true → s ≡ t
same_status-≡ completed completed e = refl
same_status-≡ incomplete incomplete e = refl
same_status-≡ in_progress in_progress e = refl
same_status-≡ completed incomplete e = ground arith
same_status-≡ completed in_progress e = ground arith
same_status-≡ incomplete completed e = ground arith
same_status-≡ incomplete in_progress e = ground arith
same_status-≡ in_progress completed e = ground arith
same_status-≡ in_progress incomplete e = ground arith

has_status-≡ :
    (o : Option ReasoningStatus) (status : ReasoningStatus)
    → has_status o status ≡ true
    → o ≡ some status
has_status-≡ none status e = ground arith
has_status-≡ (some known) status e = ap some (same_status-≡ known status e)

reasoning_item-Finished :
    (key : Text) (status : ReasoningStatus) (state : ReasoningState) (s : SemanticItemLedger)
    → lookup key s.reasoning ≡ some state
    → state.reasoning_frozen ≡ true
    → state.status ≡ some status
    → Ends (Finished key status) (reasoning_item key state s)
unfolding reasoning_item invalid
reasoning_item-Finished key status state s found frozen known =
    found_or-Ends (Finished key status) (parts_at s.reasoning_parts state.reasoning_part_keys)
      invalid (λ parts. return (item_of key state parts)) s (λ e. tt)
      λ parts e. (
        state,
        found,
        frozen,
        known,
        ap (λ o. found_or o invalid (λ parts. return (item_of key state parts)) s) e,
        known,
        sort_parts-InOrder parts,
      )

freeze_reasoning_part-reasoning :
    (key : Text) (s : SemanticItemLedger) → (freeze_reasoning_part key s).reasoning ≡ s.reasoning
freeze_reasoning_part-reasoning key s = elim (Option-cases (lookup key s.reasoning_parts)) [
  | inl none_e ↦ rw (none_e, freeze_reasoning_part) refl
  | inr (part, e) ↦ rw (e, freeze_reasoning_part) refl
]

freeze_reasoning_parts-reasoning :
    (keys : List Text) (s : SemanticItemLedger)
    → (freeze_reasoning_parts keys s).reasoning ≡ s.reasoning
unfolding freeze_reasoning_parts
freeze_reasoning_parts-reasoning [] s = refl
freeze_reasoning_parts-reasoning (key ∷ keys) s =
    freeze_reasoning_parts-reasoning keys (freeze_reasoning_part key s)
    ∙ freeze_reasoning_part-reasoning key s

finish_known-Finished :
    (key : Text) (status : ReasoningStatus) (state : ReasoningState) (s : SemanticItemLedger)
    → lookup key s.reasoning ≡ some state
    → Ends (Finished key status) (finish_known key status state s)
unfolding finish_known invalid
finish_known-Finished key status state s found =
    if-Ends (Finished key status) state.reasoning_frozen
      (if has_status state.status status then reasoning_item key state else invalid) _ s
      (λ frozen.
        if-Ends (Finished key status) (has_status state.status status) (reasoning_item key state)
          invalid s
          (λ same.
            reasoning_item-Finished key status state s found frozen
              (has_status-≡ state.status status same))
          (λ other. tt))
      λ still_open.
        reasoning_item-Finished key status (finished_state state status) _
          (ap (lookup key) (
              freeze_reasoning_parts-reasoning state.reasoning_part_keys
                (put_reasoning key (finished_state state status) s))
            ∙ lookup-insert_self key (finished_state state status) s.reasoning)
          refl refl

finish_reasoning-Ends :
    (key : Text) (status : ReasoningStatus) (s : SemanticItemLedger)
    → Ends (Finished key status) (finish_reasoning key status s)
unfolding finish_reasoning invalid
finish_reasoning-Ends key status s =
    found_or-Ends (Finished key status) (lookup key s.reasoning) invalid (finish_known key status) s
      (λ e. tt) (λ state e. finish_known-Finished key status state s e)

again :
    (key : Text) (status other : ReasoningStatus) (t : SemanticItemLedger) (item : ReasoningItem)
    → Finished key status t item
    → finish_reasoning key other t ≡ (
        if same_status status other
        then (t, ok item)
        else (t, throws (gateway_failure stream_failure)))
unfolding finish_reasoning finish_known invalid
again key status other t item (state, found, frozen, known, handed, _, _) =
    simp (found, frozen, known) (same (same_status status other))
  where
    same :
        (b : Bool)
        → (if b then reasoning_item key state else invalid) t
          ≡ (if b then (t, ok item) else (t, throws (gateway_failure stream_failure)))
    same true = handed
    same false = refl

-- A call of `finish_reasoning` that returns hands out an item with the status it was given, whose
-- parts are in order, summaries first and each presentation by its index. A second call with the
-- same status returns the same item, one with another status is refused, and neither changes the
-- ledger.
pub finish_reasoning-freezes :
    (key : Text) (status other : ReasoningStatus) (s t : SemanticItemLedger) (item : ReasoningItem)
    → finish_reasoning key status s ≡ (t, ok item)
    → (item.item_status ≡ some status)
      × InOrder item.parts
      × (finish_reasoning key other t ≡ (
          if same_status status other
          then (t, ok item)
          else (t, throws (gateway_failure stream_failure))))
finish_reasoning-freezes key status other s t item e =
    let (state, found, frozen, known, handed, kept, ordered) =
      subst (Ends (Finished key status)) e (finish_reasoning-Ends key status s) in
    (
      kept,
      ordered,
      again key status other t item (state, found, frozen, known, handed, kept, ordered),
    )
