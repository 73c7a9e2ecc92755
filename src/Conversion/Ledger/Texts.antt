-- ===== src/Conversion/Ledger/Texts.antt =====
-- What an append of src/protocols/conversion/ledger.ts does to the collected texts and refusals.
use ghc_gateway.Base.{
  ◌+◌, ◌≡◌, refl, sym, ap, subst, ◌∙◌, Bool, true, false, Option, none, some, List, [], ◌++◌, Text,
  same_text, same_text_iff, lookup, insert, lookup-insert, lookup-insert_self, ltb, if◌then◌else◌,
  Option-cases, Bool-cases, inl, inr,
}
use ghc_gateway.Gateway.Failures.{gateway_failure}
use ghc_gateway.Conversion.Ledger.Encoding.{utf8_length}
use ghc_gateway.Conversion.Ledger.{
  SemanticItemLedger, MessageState, MessagePartState, Result, ok, throws, Method, proceed, found_or,
  return, invalid, reserve, stream_failure,
}
use ghc_gateway.Conversion.Ledger.Messages.{
  open_part, new_message, message, new_part, message_part, check_open, observe_text, append_text,
  put_part, text_value_at, refusal_value_at,
}

abbrev Parts : Type 0
Parts = List (Text × MessagePartState)

abbrev text_of : Option MessagePartState → Text
text_of none = []
text_of (some part) = part.text_value

abbrev refusal_of : Option MessagePartState → Text
refusal_of none = []
refusal_of (some part) = part.refusal_value

-- No text and no refusal has changed.
abbrev SameTexts : Parts → Parts → Type 0
SameTexts P Q =
    (j : Text)
    → (text_of (lookup j Q) ≡ text_of (lookup j P))
      × (refusal_of (lookup j Q) ≡ refusal_of (lookup j P))

-- What holds if the method returned.
abbrev pub Ends :
    {A : Type 0} → (SemanticItemLedger → A → Type 0) → SemanticItemLedger × Result A → Type 0
Ends P (s, ok a) = P s a
Ends P (s, throws e) = Unit {0}

pub proceed-Ends :
    {A B : Type 0} (P : SemanticItemLedger → A → Type 0) (Q : SemanticItemLedger → B → Type 0)
    (p : SemanticItemLedger × Result A) (f : A → Method B)
    → Ends P p
    → ((s : SemanticItemLedger) (a : A) → P s a → Ends Q (f a s))
    → Ends Q (proceed p f)
proceed-Ends P Q (s, ok a) f h k = k s a h
proceed-Ends P Q (s, throws e) f h k = tt

pub found_or-Ends :
    {V B : Type 0} (Q : SemanticItemLedger → B → Type 0) (o : Option V) (m : Method B)
    (f : V → Method B) (s : SemanticItemLedger)
    → (o ≡ none → Ends Q (m s))
    → ((v : V) → o ≡ some v → Ends Q (f v s))
    → Ends Q (found_or o m f s)
found_or-Ends Q none m f s h k = h refl
found_or-Ends Q (some v) m f s h k = k v refl

pub if-Ends :
    {A : Type 0} (Q : SemanticItemLedger → A → Type 0) (b : Bool) (m n : Method A)
    (s : SemanticItemLedger)
    → (b ≡ true → Ends Q (m s))
    → (b ≡ false → Ends Q (n s))
    → Ends Q ((if b then m else n) s)
if-Ends Q true m n s h k = h refl
if-Ends Q false m n s h k = k refl

-- The parts are those of `s`.
abbrev Untouched : {A : Type 0} → SemanticItemLedger → SemanticItemLedger → A → Type 0
Untouched s t a = t.message_parts ≡ s.message_parts

reserve-Untouched : (v : Text) (s : SemanticItemLedger) → Ends (Untouched s) (reserve v s)
unfolding reserve
reserve-Untouched v s = judged (ltb s.max_bytes (s.used_bytes + utf8_length v))
  where
    judged :
        (over : Bool)
        → Ends (Untouched s) (
          record s { used_bytes = s.used_bytes + utf8_length v },
          if over then throws (gateway_failure stream_failure) else ok tt,
        )
    judged true = tt
    judged false = refl

message-Untouched : (key : Text) (s : SemanticItemLedger) → Ends (Untouched s) (message key s)
unfolding message new_message
message-Untouched key s =
    found_or-Ends (Untouched s) (lookup key s.messages) (new_message key) return s
      (λ _.
        proceed-Ends (Untouched s) (Untouched s) (reserve key s) _ (reserve-Untouched key s)
          (λ t a h. h))
      (λ v e. refl)

check_open-Untouched :
    (key : Text) (group : MessageState) (s : SemanticItemLedger)
    → Ends (Untouched s) (check_open key group s)
unfolding check_open invalid
check_open-Untouched key group s =
    found_or-Ends (Untouched s) (lookup key s.message_parts) _ _ s
      (λ _. if-Ends (Untouched s) group.frozen invalid (return tt) s (λ _. tt) (λ _. refl))
      (λ v e. refl)

module _ (key : Text) (P : Parts) where
  -- An entry replaced by one with the same text and refusal, or a new empty one.
  insert-SameTexts :
      (new : MessagePartState)
      → new.text_value ≡ text_of (lookup key P)
      → new.refusal_value ≡ refusal_of (lookup key P)
      → SameTexts P (insert key new P)
  insert-SameTexts new t r j = elim (Bool-cases (same_text key j)) [
    | inl same ↦
        let e = (same_text_iff key j).0 same in
        subst
          (λ i.
            (text_of (lookup i (insert key new P)) ≡ text_of (lookup i P))
            × (refusal_of (lookup i (insert key new P)) ≡ refusal_of (lookup i P)))
          e
          (
            ap text_of (lookup-insert_self key new P) ∙ t,
            ap refusal_of (lookup-insert_self key new P) ∙ r,
          )
    | inr other ↦
        let kept : lookup j (insert key new P) ≡ lookup j P =
          lookup-insert key j new P ∙ rw other in
        (ap text_of kept, ap refusal_of kept)
  ]

-- The part that is returned stands in the map, and no text has changed.
abbrev Holds : Text → Parts → SemanticItemLedger → MessagePartState → Type 0
Holds key P t part = (lookup key t.message_parts ≡ some part) × SameTexts P t.message_parts

same_refl : (P : Parts) → SameTexts P P
same_refl P j = (refl, refl)

new_part-Holds :
    (key group_key : Text) (s : SemanticItemLedger)
    → lookup key s.message_parts ≡ none
    → Ends (Holds key s.message_parts) (new_part key group_key s)
unfolding new_part
new_part-Holds key group_key s absent =
    proceed-Ends (Untouched s) (Holds key s.message_parts)
      ((if same_text key group_key then return tt else reserve key) s) _
      (if-Ends (Untouched s) (same_text key group_key) (return tt) (reserve key) s (λ _. refl)
        (λ _. reserve-Untouched key s))
      λ t _ same.
        let placed = put_part key (open_part group_key) t in
        proceed-Ends (Untouched placed) (Holds key s.message_parts) (message group_key placed) _
          (message-Untouched group_key placed)
          λ u group kept.
            let parts : u.message_parts ≡ insert key (open_part group_key) s.message_parts =
              kept ∙ ap (insert key (open_part group_key)) same in
            (
              ap (lookup key) parts ∙ lookup-insert_self key (open_part group_key) s.message_parts,
              subst (SameTexts s.message_parts) (sym parts) (
                  insert-SameTexts key s.message_parts (open_part group_key)
                    (sym (ap text_of absent)) (sym (ap refusal_of absent))),
            )

message_part-Holds :
    (key group_key : Text) (s : SemanticItemLedger)
    → Ends (Holds key s.message_parts) (message_part key group_key s)
unfolding message_part invalid
message_part-Holds key group_key s =
    found_or-Ends (Holds key s.message_parts) (lookup key s.message_parts) (new_part key group_key)
      _ s (new_part-Holds key group_key s)
      λ part present.
        if-Ends (Holds key s.message_parts) (same_text part.group_key group_key) (return part)
          invalid s (λ _. (present, same_refl s.message_parts)) (λ _. tt)

-- After `observe_text`: no text has changed.
observe_text-SameTexts :
    (key order_key : Text) (s : SemanticItemLedger)
    → Ends (λ t _. SameTexts s.message_parts t.message_parts) (observe_text key order_key s)
unfolding observe_text
observe_text-SameTexts key order_key s =
    proceed-Ends (Untouched s) R (message order_key s) _ (message-Untouched order_key s)
      λ t group kept.
        proceed-Ends (Untouched t) R (check_open key group t) _ (check_open-Untouched key group t)
          λ u _ kept_too.
            proceed-Ends (Holds key u.message_parts) R (message_part key order_key u) _
              (message_part-Holds key order_key u)
              λ v part held.
                let same : u.message_parts ≡ s.message_parts = kept_too ∙ kept in
                let new : MessagePartState = record part { text_seen = true } in
                subst (λ P. SameTexts P (insert key new v.message_parts)) same
                  (λ j.
                    let put =
                      insert-SameTexts key v.message_parts new (sym (ap text_of held.0))
                        (sym (ap refusal_of held.0)) j in
                    (put.0 ∙ (held.1 j).0, put.1 ∙ (held.1 j).1))
  where
    R : SemanticItemLedger → Bool → Type 0
    R t first = SameTexts s.message_parts t.message_parts

-- The text at `key` is longer by `delta`; other texts and all refusals stand.
abbrev Appended : Text → Text → Parts → Parts → Type 0
Appended key delta P Q =
    (text_of (lookup key Q) ≡ text_of (lookup key P) ++ delta)
    × ((j : Text) → same_text key j ≡ false → text_of (lookup j Q) ≡ text_of (lookup j P))
    × ((j : Text) → refusal_of (lookup j Q) ≡ refusal_of (lookup j P))

put-Appended :
    (key delta : Text) (P : Parts) (part : MessagePartState)
    → lookup key P ≡ some part
    → Appended key delta P (insert key (record part { text_value = part.text_value ++ delta }) P)
put-Appended key delta P part held = (
  ap text_of (lookup-insert_self key new P) ∙ ap (λ o. text_of o ++ delta) (sym held),
  (λ j other. ap text_of (kept j other)),
  λ j. elim (Bool-cases (same_text key j)) [
    | inl same ↦
        subst (λ i. refusal_of (lookup i (insert key new P)) ≡ refusal_of (lookup i P))
          ((same_text_iff key j).0 same)
          (ap refusal_of (lookup-insert_self key new P) ∙ ap refusal_of (sym held))
    | inr other ↦ ap refusal_of (kept j other)
  ],
)
  where
    new : MessagePartState
    new = record part { text_value = part.text_value ++ delta }

    kept : (j : Text) → same_text key j ≡ false → lookup j (insert key new P) ≡ lookup j P
    kept j other = lookup-insert key j new P ∙ rw other

Appended-after :
    (key delta : Text) (P Q R : Parts)
    → SameTexts P Q
    → Appended key delta Q R
    → Appended key delta P R
Appended-after key delta P Q R same (here, beside, refusals) = (
  here ∙ ap (λ t. t ++ delta) (same key).0,
  (λ j other. beside j other ∙ (same j).0),
  λ j. refusals j ∙ (same j).1,
)

append_text-Appended :
    (key delta order_key : Text) (s : SemanticItemLedger)
    → Ends
        (λ t _. Appended key delta s.message_parts t.message_parts)
        (append_text key delta order_key s)
unfolding append_text invalid
append_text-Appended key delta order_key s =
    proceed-Ends (Untouched s) R (reserve delta s) _ (reserve-Untouched delta s) λ t _ kept.
      proceed-Ends (λ u _. SameTexts t.message_parts u.message_parts) R
        (observe_text key order_key t) _ (observe_text-SameTexts key order_key t)
        λ u _ seen.
          proceed-Ends (Holds key u.message_parts) R (message_part key order_key u) _
            (message_part-Holds key order_key u)
            λ v part held.
              if-Ends R part.part_frozen invalid _ v (λ _. tt)
                λ _.
                  subst
                    (λ P. Appended key delta P (
                      insert key (record part { text_value = part.text_value ++ delta })
                        v.message_parts))
                    kept
                    (Appended-after key delta t.message_parts v.message_parts _
                      (λ j. ((held.1 j).0 ∙ (seen j).0, (held.1 j).1 ∙ (seen j).1))
                      (put-Appended key delta v.message_parts part held.0))
  where
    R : SemanticItemLedger → Unit {0} → Type 0
    R t done = Appended key delta s.message_parts t.message_parts

text_value_at_lem :
    (j : Text) (s : SemanticItemLedger) → text_value_at j s ≡ text_of (lookup j s.message_parts)
unfolding text_value_at
text_value_at_lem j s = elim (Option-cases (lookup j s.message_parts)) [
  | inl e ↦ rw (e, text_value_at) refl
  | inr (part, e) ↦ rw (e, text_value_at) refl
]

refusal_value_at_lem :
    (j : Text) (s : SemanticItemLedger)
    → refusal_value_at j s ≡ refusal_of (lookup j s.message_parts)
unfolding refusal_value_at
refusal_value_at_lem j s = elim (Option-cases (lookup j s.message_parts)) [
  | inl e ↦ rw (e, refusal_value_at) refl
  | inr (part, e) ↦ rw (e, refusal_value_at) refl
]

-- A call of `append_text` that returns has added the delta to the text of its key, and has changed
-- neither the text of another key nor any refusal.
pub append_text-appends :
    (key delta order_key : Text) (s t : SemanticItemLedger)
    → append_text key delta order_key s ≡ (t, ok tt)
    → (text_value_at key t ≡ text_value_at key s ++ delta)
      × ((j : Text) → same_text key j ≡ false → text_value_at j t ≡ text_value_at j s)
      × ((j : Text) → refusal_value_at j t ≡ refusal_value_at j s)
append_text-appends key delta order_key s t e =
    let ended : Appended key delta s.message_parts t.message_parts =
      subst (Ends (λ u _. Appended key delta s.message_parts u.message_parts)) e
        (append_text-Appended key delta order_key s) in
    (
      text_value_at_lem key t ∙ ended.0 ∙ ap (λ v. v ++ delta) (sym (text_value_at_lem key s)),
      (λ j other. text_value_at_lem j t ∙ ended.1 j other ∙ sym (text_value_at_lem j s)),
      λ j. refusal_value_at_lem j t ∙ ended.2 j ∙ sym (refusal_value_at_lem j s),
    )
