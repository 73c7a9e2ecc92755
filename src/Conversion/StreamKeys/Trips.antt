-- ===== src/Conversion/StreamKeys/Trips.antt =====
-- Reading back the keys of src/protocols/conversion/stream_keys.ts.
use ghc_gateway.Base.{
  ℕ, zero, suc, ◌+◌, ◌/◌, ◌%◌, ◌<◌, ◌≡◌, refl, sym, ap, ◌∙◌, Bool, true, false, none, some, [], ◌∷◌,
  ◌++◌, Text, text, All, same_text, decimal_value, ◌==◌, if◌then◌else◌, Bool-cases, inl, inr, arith,
  append-nil,
}
use ghc_gateway.Conversion.StreamKeys.{
  decimal_digits, decimal, ResponseContentKind, text_kind, refusal_kind, kind_text,
  response_tool_key, response_message_key, response_reasoning_key, response_message_part_key,
  is_digit, digit_run, after_literal, read_after, number_of, is_item_suffix, index_before,
  response_output_index, kind_of, position, position_after, position_before,
  response_message_part_position,
}

-- A number's digits, read back behind what was read before them.
decimal_value-digits :
    (fuel n : ℕ) (acc : Text)
    → n < fuel
    → decimal_value 0 (decimal_digits fuel n acc) ≡ decimal_value n acc
unfolding decimal_digits decimal_value
decimal_value-digits zero n acc h = elim h [ ]
decimal_value-digits (suc fuel) n acc h = elim (Bool-cases (n / 10 == 0)) [
  | inl last ↦ rw last (ap (λ m. decimal_value m acc) (ground arith))
  | inr more ↦ rw more (
      decimal_value-digits fuel (n / 10) ((0x30 + n % 10) ∷ acc) (ground arith)
      ∙ ap (λ m. decimal_value m acc) (omega arith))
]

abbrev Digits : Text → Type 0
Digits digits = All (λ c. is_digit c ≡ true) digits

decimal_digits-Digits : (fuel n : ℕ) (acc : Text) → Digits acc → Digits (decimal_digits fuel n acc)
unfolding decimal_digits is_digit
decimal_digits-Digits zero n acc h = h
decimal_digits-Digits (suc fuel) n acc h = elim (Bool-cases (n / 10 == 0)) [
  | inl last ↦ rw last (ground arith, h)
  | inr more ↦
      rw more (decimal_digits-Digits fuel (n / 10) ((0x30 + n % 10) ∷ acc) (ground arith, h))
]

abbrev Filled : Text → Type 0
Filled [] = ⊥
Filled (c ∷ digits) = Unit

decimal_digits-Filled : (fuel n : ℕ) (acc : Text) → Filled acc → Filled (decimal_digits fuel n acc)
unfolding decimal_digits
decimal_digits-Filled zero n acc h = h
decimal_digits-Filled (suc fuel) n acc h = elim (Bool-cases (n / 10 == 0)) [
  | inl last ↦ rw last tt
  | inr more ↦ rw more (decimal_digits-Filled fuel (n / 10) ((0x30 + n % 10) ∷ acc) tt)
]

decimal-Digits : (n : ℕ) → Digits (decimal n)
unfolding decimal
decimal-Digits n = decimal_digits-Digits (suc n) n [] tt

decimal-Filled : (n : ℕ) → Filled (decimal n)
unfolding decimal decimal_digits
decimal-Filled n = elim (Bool-cases (n / 10 == 0)) [
  | inl last ↦ rw last tt
  | inr more ↦ rw more (decimal_digits-Filled n (n / 10) ((0x30 + n % 10) ∷ []) tt)
]

number_of-decimal : (n : ℕ) → number_of (decimal n) ≡ some n
number_of-decimal n = filled (decimal n) (decimal-Filled n) ∙ ap some read
  where
    filled : (digits : Text) → Filled digits → number_of digits ≡ some (decimal_value 0 digits)
    filled [] h = absurd h
    filled (c ∷ digits) h = refl

    read : decimal_value 0 (decimal n) ≡ n
    read = unfold decimal decimal_value in decimal_value-digits (suc n) n [] (omega arith)

-- The text does not go on with a digit.
abbrev Stops : Text → Type 0
Stops [] = Unit
Stops (c ∷ rest) = is_digit c ≡ false

digit_run-append :
    (digits rest : Text) → Digits digits → Stops rest → digit_run (digits ++ rest) ≡ (digits, rest)
unfolding digit_run
digit_run-append [] [] h s = refl
digit_run-append [] (c ∷ rest) h s = rw s refl
digit_run-append (c ∷ digits) rest h s = rw (h.0, digit_run-append digits rest h.1 s) refl

after_literal-append : (literal rest : Text) → after_literal literal (literal ++ rest) ≡ some rest
unfolding after_literal
after_literal-append [] rest = refl
after_literal-append (c ∷ literal) rest = ground (arith, after_literal-append literal rest)

-- An item's key is read back to its index, whichever suffix it has.
item_key-reads :
    (n : ℕ) (suffix : Text)
    → is_item_suffix suffix ≡ true
    → Stops suffix
    → response_output_index (text "responses:" ++ (decimal n ++ suffix)) ≡ some n
unfolding response_output_index
item_key-reads n suffix h s =
    ap (λ o. read_after o (λ rest. index_before (digit_run rest)))
      (after_literal-append (text "responses:") (decimal n ++ suffix))
    ∙ ap index_before (digit_run-append (decimal n) suffix (decimal-Digits n) s)
    ∙ ap (λ (b : Bool). if b then number_of (decimal n) else none) h
    ∙ number_of-decimal n

position_literal :
    (output part : ℕ) (suffix : Text)
    → Stops suffix
    → response_message_part_position
        (text "responses:" ++ (decimal output ++ (text ":" ++ (decimal part ++ suffix))))
      ≡ position (some output) (some part) (kind_of suffix)
unfolding response_message_part_position
position_literal output part suffix s =
    ap (λ o. read_after o (λ rest. position_before (digit_run rest)))
      (after_literal-append (text "responses:")
        (decimal output ++ (text ":" ++ (decimal part ++ suffix))))
    ∙ ap position_before (
        digit_run-append (decimal output) (text ":" ++ (decimal part ++ suffix))
          (decimal-Digits output) (unfold is_digit in refl))
    ∙ ap (λ o. read_after o (λ rest. position_after (number_of (decimal output)) (digit_run rest)))
        (after_literal-append (text ":") (decimal part ++ suffix))
    ∙ ap (position_after (number_of (decimal output)))
        (digit_run-append (decimal part) suffix (decimal-Digits part) s)
    ∙ ap (λ o. position o (number_of (decimal part)) (kind_of suffix)) (number_of-decimal output)
    ∙ ap (λ o. position (some output) o (kind_of suffix)) (number_of-decimal part)

-- A part's suffix begins with a digit, and an item's with a letter.
suffix_apart :
    (digits rest : Text)
    → Digits digits
    → Filled digits
    → is_item_suffix (text ":" ++ (digits ++ rest)) ≡ false
unfolding is_item_suffix same_text is_digit
suffix_apart [] rest h f = absurd f
suffix_apart (c ∷ digits) rest h f = ground (arith, h.0)

part_key-is_no_item :
    (output part : ℕ) (suffix : Text)
    → response_output_index
        (text "responses:" ++ (decimal output ++ (text ":" ++ (decimal part ++ suffix))))
      ≡ none
unfolding response_output_index
part_key-is_no_item output part suffix =
    let rest : Text = text ":" ++ (decimal part ++ suffix) in
    ap (λ o. read_after o (λ r. index_before (digit_run r)))
      (after_literal-append (text "responses:") (decimal output ++ rest))
    ∙ ap index_before
        (digit_run-append (decimal output) rest (decimal-Digits output) (unfold is_digit in refl))
    ∙ ap (λ (b : Bool). if b then number_of (decimal output) else none)
        (suffix_apart (decimal part) suffix (decimal-Digits part) (decimal-Filled part))

-- The index of every item key, and the position of every message part's key, is read back from the
-- key; and no message part's key is taken for an item's.
pub stream_keys-read :
    (output part : ℕ) (kind : ResponseContentKind)
    → (response_output_index (response_tool_key output) ≡ some output)
      × (response_output_index (response_message_key output) ≡ some output)
      × (response_output_index (response_reasoning_key output) ≡ some output)
      × (response_message_part_position (response_message_part_key output part kind)
          ≡ some (record { output_index = output; content_index = part; kind = kind }))
      × (response_output_index (response_message_part_key output part kind) ≡ none)
stream_keys-read output part kind = (
  (unfold response_tool_key in
      ap (λ t. response_output_index (text "responses:" ++ t)) (sym (append-nil (decimal output)))
      ∙ item_key-reads output [] (unfold is_item_suffix same_text in refl) tt),
  (unfold response_message_key in
      item_key-reads output (text ":message") (unfold is_item_suffix same_text in refl)
        (unfold is_digit in refl)),
  (unfold response_reasoning_key in
      item_key-reads output (text ":reasoning") (unfold is_item_suffix same_text in refl)
        (unfold is_digit in refl)),
  part_key kind,
  (unfold response_message_part_key in
      part_key-is_no_item output part (text ":" ++ kind_text kind)),
)
  where
    part_key :
        (k : ResponseContentKind)
        → response_message_part_position (response_message_part_key output part k)
          ≡ some (record { output_index = output; content_index = part; kind = k })
    part_key text_kind =
        unfold response_message_part_key in
        position_literal output part (text ":text") (unfold is_digit in refl)
        ∙ (unfold same_text in refl)
    part_key refusal_kind =
        unfold response_message_part_key in
        position_literal output part (text ":refusal") (unfold is_digit in refl)
        ∙ (unfold same_text in refl)
