-- ===== src/WireJson/Characters.antt =====
-- What the writer of src/serialization/wire_json.ts writes for a character is read back as it.
use ghc_gateway.Base.{
  ℕ, suc, ◌+◌, ◌*◌, ◌/◌, ◌%◌, ◌≤◌, ◌<◌, ◌≡◌, false, some, [], ◌∷◌, ◌++◌, Text, arith,
}
use ghc_gateway.WireJson.Outcome.{ok, Bytes}
use ghc_gateway.WireJson.Utf8.{consume_utf8_code_point, utf8_code_point, is_surrogate}
use ghc_gateway.WireJson.Strings.{
  hex_nibble, parse_hex_code_unit, parse_escape, from_code_point, parse_units, escape_code_unit,
  hex_digit, write_code_point,
}

-- A point that stands in a string: below 0x110000, alone or in a pair.
abbrev pub IsPoint : ℕ → Type 0
IsPoint point = point < 0x110000

module _ (p : ℕ) (rest : Bytes) where
  utf8_one : p < 0x80 → consume_utf8_code_point (utf8_code_point p ++ rest) ≡ ok (p, rest)
  unfolding consume_utf8_code_point utf8_code_point
  utf8_one h = ground arith

  utf8_two :
      0x80 ≤ p → p < 0x800 → consume_utf8_code_point (utf8_code_point p ++ rest) ≡ ok (p, rest)
  unfolding consume_utf8_code_point utf8_code_point
  utf8_two low high = ground arith

  utf8_three :
      0x800 ≤ p
      → p < 0x10000
      → is_surrogate p ≡ false
      → consume_utf8_code_point (utf8_code_point p ++ rest) ≡ ok (p, rest)
  unfolding consume_utf8_code_point utf8_code_point
  utf8_three low high proper = ground arith

  utf8_four :
      0x10000 ≤ p
      → p < 0x110000
      → consume_utf8_code_point (utf8_code_point p ++ rest) ≡ ok (p, rest)
  unfolding consume_utf8_code_point utf8_code_point
  utf8_four low high = ground arith

  pub consume-utf8 :
      IsPoint p
      → is_surrogate p ≡ false
      → consume_utf8_code_point (utf8_code_point p ++ rest) ≡ ok (p, rest)
  consume-utf8 h proper = ground (arith, utf8_one, utf8_two, utf8_three, utf8_four)

-- Any bytes that the writer's cases do not escape take the last branch of the loop.
parse_multibyte :
    (fuel p : ℕ) (acc : Text) (rest : Bytes)
    → 0x80 ≤ p
    → IsPoint p
    → is_surrogate p ≡ false
    → parse_units (suc fuel) acc (utf8_code_point p ++ rest)
      ≡ parse_units fuel (acc ++ from_code_point p) rest
unfolding parse_units utf8_code_point
parse_multibyte fuel p acc rest low h proper = ground (arith, consume-utf8 p rest h proper)

hex_nibble-hex_digit : (n : ℕ) → n < 16 → hex_nibble (hex_digit n) ≡ some n
unfolding hex_nibble hex_digit
hex_nibble-hex_digit n h = ground arith

-- Four digits are read back as the number that they spell.
parse_hex_code_unit_digits :
    (a b c d : ℕ) (rest : Bytes)
    → a < 16
    → b < 16
    → c < 16
    → d < 16
    → parse_hex_code_unit (hex_digit a ∷ hex_digit b ∷ hex_digit c ∷ hex_digit d ∷ rest)
      ≡ ok ((((0 * 16 + a) * 16 + b) * 16 + c) * 16 + d, rest)
unfolding parse_hex_code_unit
parse_hex_code_unit_digits a b c d rest ha hb hc hd = ground (
  arith,
  hex_nibble-hex_digit a ha,
  hex_nibble-hex_digit b hb,
  hex_nibble-hex_digit c hc,
  hex_nibble-hex_digit d hd,
)

hex_value :
    (p : ℕ)
    → p < 0x10000
    → (((0 * 16 + p / 4096 % 16) * 16 + p / 256 % 16) * 16 + p / 16 % 16) * 16 + p % 16 ≡ p
hex_value p h = omega arith

parse_escape_code_unit :
    (p : ℕ) (rest : Bytes) → p < 0x10000 → parse_escape (escape_code_unit p ++ rest) ≡ ok (p, rest)
unfolding parse_escape escape_code_unit
parse_escape_code_unit p rest h =
    rw
      (parse_hex_code_unit_digits (p / 4096 % 16) (p / 256 % 16) (p / 16 % 16) (p % 16) rest
        (omega arith) (omega arith) (omega arith) (omega arith))
      (rw (hex_value p h))

parse_escaped :
    (fuel p : ℕ) (acc : Text) (rest : Bytes)
    → p < 0x10000
    → parse_units (suc fuel) acc (escape_code_unit p ++ rest)
      ≡ parse_units fuel (acc ++ p ∷ []) rest
unfolding parse_units escape_code_unit
parse_escaped fuel p acc rest h = rw (parse_escape_code_unit p rest h)

utf8_code_point_ascii : (p : ℕ) → p < 0x80 → utf8_code_point p ≡ p ∷ []
unfolding utf8_code_point
utf8_code_point_ascii p h = ground arith

from_code_point_bmp : (p : ℕ) → p < 0x10000 → from_code_point p ≡ p ∷ []
unfolding from_code_point
from_code_point_bmp p h = ground arith

-- One round of the loop reads what the writer wrote for one character.
pub parse_units-write_code_point :
    (fuel p : ℕ) (acc : Text) (rest : Bytes)
    → IsPoint p
    → parse_units (suc fuel) acc (write_code_point p ++ rest)
      ≡ parse_units fuel (acc ++ from_code_point p) rest
unfolding parse_units parse_escape write_code_point is_surrogate
parse_units-write_code_point fuel p acc rest h = ground (
  arith,
  parse_escaped fuel p acc rest,
  parse_multibyte fuel p acc rest,
  utf8_code_point_ascii p,
  from_code_point_bmp p,
)
