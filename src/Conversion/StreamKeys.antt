-- ===== src/Conversion/StreamKeys.antt =====
-- src/protocols/conversion/stream_keys.ts: the keys by which a stream's items and parts are told
-- apart. An index is a natural number.
pub mod Trips
pub mod Tests
use ghc_gateway.Base.{
  ℕ, zero, suc, ◌+◌, ◌*◌, ◌/◌, ◌%◌, Bool, true, false, ◌&&◌, Option, none, some, List, [], ◌∷◌,
  ◌++◌, Text, text, same_text, is_decimal, decimal_value, ltb, leb, ◌==◌, if◌then◌else◌,
}

-- The loop of `${number}`, from the last digit on, with fuel.
unfoldable pub decimal_digits : ℕ → ℕ → Text → Text
decimal_digits zero n digits = digits
decimal_digits (suc fuel) n digits =
    let more = decimal_digits fuel (n / 10) ((0x30 + n % 10) ∷ digits) in
    if n / 10 == 0 then (0x30 + n % 10) ∷ digits else more

-- `${number}`, for an index: each round but the last divides it by ten.
unfoldable pub decimal : ℕ → Text
unfolding decimal_digits
decimal n = decimal_digits (suc n) n []

pub data ResponseContentKind : Type 0 where
  text_kind refusal_kind : ResponseContentKind

pub data ResponseReasoningPresentation : Type 0 where
  summary content : ResponseReasoningPresentation

abbrev pub kind_text : ResponseContentKind → Text
kind_text text_kind = text "text"
kind_text refusal_kind = text "refusal"

abbrev pub presentation_text : ResponseReasoningPresentation → Text
presentation_text summary = text "summary"
presentation_text content = text "content"

unfoldable pub response_tool_key : ℕ → Text
response_tool_key output_index = text "responses:" ++ decimal output_index

unfoldable pub response_message_key : ℕ → Text
response_message_key output_index = text "responses:" ++ (decimal output_index ++ text ":message")

unfoldable pub response_reasoning_key : ℕ → Text
response_reasoning_key output_index =
    text "responses:" ++ (decimal output_index ++ text ":reasoning")

unfoldable pub response_message_part_key : ℕ → ℕ → ResponseContentKind → Text
response_message_part_key output_index content_index kind =
    text "responses:"
    ++ (decimal output_index
        ++ (text ":" ++ (decimal content_index ++ (text ":" ++ kind_text kind))))

-- `\d`
unfoldable pub is_digit : ℕ → Bool
is_digit c = leb 0x30 c && leb c 0x39

-- The longest run of digits, and what follows it.
unfoldable pub digit_run : Text → Text × Text
digit_run [] = ([], [])
digit_run (c ∷ rest) =
    let (digits, after) = digit_run rest in
    if is_digit c then (c ∷ digits, after) else ([], c ∷ rest)

-- What follows a literal, if the text starts with it.
unfoldable pub after_literal : Text → Text → Option Text
after_literal [] rest = some rest
after_literal (c ∷ literal) [] = none
after_literal (c ∷ literal) (d ∷ rest) = if c == d then after_literal literal rest else none

-- What is read of the rest, if there is one.
abbrev pub read_after : {A : Type 0} → Option Text → (Text → Option A) → Option A
read_after none read = none
read_after (some rest) read = read rest

abbrev pub number_of : Text → Option ℕ
number_of [] = none
number_of (c ∷ digits) = some (decimal_value 0 (c ∷ digits))

-- `(?::(?:message|reasoning))?$`
unfoldable pub is_item_suffix : Text → Bool
is_item_suffix rest =
    if same_text rest []
    then true
    else if same_text rest (text ":message")
    then true
    else same_text rest (text ":reasoning")

abbrev pub index_before : Text × Text → Option ℕ
index_before (digits, rest) = if is_item_suffix rest then number_of digits else none

-- `/^responses:(\d+)(?::(?:message|reasoning))?$/u`
unfoldable pub response_output_index : Text → Option ℕ
response_output_index key =
    read_after (after_literal (text "responses:") key) (λ rest. index_before (digit_run rest))

pub record PartPosition : Type 0 where
  pub output_index : ℕ
  pub content_index : ℕ
  pub kind : ResponseContentKind

abbrev pub kind_of : Text → Option ResponseContentKind
kind_of rest =
    if same_text rest (text ":text")
    then some text_kind
    else if same_text rest (text ":refusal")
    then some refusal_kind
    else none

abbrev pub position : Option ℕ → Option ℕ → Option ResponseContentKind → Option PartPosition
position (some output) (some part) (some kind) =
    some (record { output_index = output; content_index = part; kind = kind })
position _ _ _ = none

abbrev pub position_after : Option ℕ → Text × Text → Option PartPosition
position_after output (digits, rest) = position output (number_of digits) (kind_of rest)

abbrev pub position_before : Text × Text → Option PartPosition
position_before (digits, rest) =
    read_after (after_literal (text ":") rest)
      (λ part. position_after (number_of digits) (digit_run part))

-- `/^responses:(\d+):(\d+):(text|refusal)$/u`
unfoldable pub response_message_part_position : Text → Option PartPosition
response_message_part_position key =
    read_after (after_literal (text "responses:") key) (λ rest. position_before (digit_run rest))

-- `none` where it throws.
unfoldable pub response_reasoning_part_key : Text → ResponseReasoningPresentation → ℕ → Option Text
response_reasoning_part_key item_key presentation part_index =
    elim (response_output_index item_key) [
      | none ↦ none
      | some output_index ↦
          (if same_text item_key (response_reasoning_key output_index)
            then some (
                item_key
                ++ (text ":"
                    ++ (presentation_text presentation ++ (text ":" ++ decimal part_index))))
            else none)
    ]
