-- ===== src/WireJson/Strings.antt =====
-- JSON strings in src/serialization/wire_json.ts: `parseString` and `writeJsonString`.
use ghc_gateway.Base.{
  ℕ, zero, suc, ◌+◌, ◌-◌, ◌*◌, ◌/◌, ◌%◌, Bool, ◌&&◌, ◌||◌, Option, none, some, List, [], ◌∷◌, ◌++◌,
  Text, length, ltb, leb, ◌==◌, if◌then◌else◌,
}
use ghc_gateway.WireJson.Outcome.{
  ok, raised, out_of_fuel, bind, Bytes, Reader, pure, raise, ◌>>=◌, ◌>>◌, malformed_json,
}
use ghc_gateway.WireJson.Utf8.{
  need_byte, consume_byte, consume_utf8_code_point, utf8_code_point, is_surrogate,
}

unfoldable pub hex_nibble : ℕ → Option ℕ
hex_nibble byte =
    if leb 0x30 byte && leb byte 0x39
    then some (byte - 0x30)
    else if leb 0x41 byte && leb byte 0x46
    then some (byte - 0x41 + 10)
    else if leb 0x61 byte && leb byte 0x66
    then some (byte - 0x61 + 10)
    else none

-- The loop of `parseHexCodeUnit` with the rounds left; `(value << 4) | nibble`.
unfoldable pub hex_digits : ℕ → ℕ → Reader ℕ
unfolding need_byte
hex_digits zero value = pure value
hex_digits (suc rounds) value = do
  byte ← need_byte malformed_json
  elim (hex_nibble byte) [
    | none ↦ raise malformed_json
    | some nibble ↦ hex_digits rounds (value * 16 + nibble)
  ]

unfoldable pub parse_hex_code_unit : Reader ℕ
unfolding hex_digits
parse_hex_code_unit = hex_digits 4 0

unfoldable pub escaped_unit : ℕ → Reader ℕ
unfolding parse_hex_code_unit
escaped_unit marker =
    if marker == 0x22
    then pure 0x22
    else if marker == 0x5c
    then pure 0x5c
    else if marker == 0x2f
    then pure 0x2f
    else if marker == 0x62
    then pure 0x08
    else if marker == 0x66
    then pure 0x0c
    else if marker == 0x6e
    then pure 0x0a
    else if marker == 0x72
    then pure 0x0d
    else if marker == 0x74
    then pure 0x09
    else if marker == 0x75
    then parse_hex_code_unit
    else raise malformed_json

-- Each escape stands for one code unit.
unfoldable pub parse_escape : Reader ℕ
unfolding consume_byte escaped_unit
parse_escape = do consume_byte; marker ← need_byte malformed_json; escaped_unit marker

-- `String.fromCodePoint`
unfoldable pub from_code_point : ℕ → Text
from_code_point point =
    if ltb point 0x10000
    then point ∷ []
    else (0xd800 + (point - 0x10000) / 1024) ∷ (0xdc00 + (point - 0x10000) % 1024) ∷ []

-- The loop of `parseString`, one character a round, with fuel.
unfoldable pub parse_units : ℕ → Text → Reader Text
parse_units zero result bytes = out_of_fuel
parse_units (suc fuel) result [] = raised malformed_json
parse_units (suc fuel) result (byte ∷ rest) =
    let escape =
      bind (parse_escape (byte ∷ rest))
        λ (unit, after). parse_units fuel (result ++ unit ∷ []) after in
    let plain = parse_units fuel (result ++ byte ∷ []) rest in
    let multibyte =
      bind (consume_utf8_code_point (byte ∷ rest))
        λ (point, after). parse_units fuel (result ++ from_code_point point) after in
    if byte == 0x22
    then ok (result, rest)
    else if byte == 0x5c
    then escape
    else if ltb byte 0x20
    then raised malformed_json
    else if ltb byte 0x80
    then plain
    else multibyte

-- A round consumes a byte, so the bytes left bound the rounds.
unfoldable pub parse_string : Reader Text
unfolding consume_byte
parse_string = do consume_byte; λ bytes. parse_units (suc (length bytes)) [] bytes

unfoldable pub is_high : ℕ → Bool
is_high unit = leb 0xd800 unit && leb unit 0xdbff

unfoldable pub is_low : ℕ → Bool
is_low unit = leb 0xdc00 unit && leb unit 0xdfff

-- `for (const character of value)`: a surrogate pair is one character, a lone surrogate another.
unfoldable pub code_points : Text → List ℕ
code_points [] = []
code_points (unit ∷ []) = unit ∷ []
code_points (unit ∷ next ∷ rest) =
    let pair = (0x10000 + (unit - 0xd800) * 1024 + (next - 0xdc00)) ∷ code_points rest in
    let single = unit ∷ code_points (next ∷ rest) in
    if is_high unit && is_low next then pair else single

-- A digit of `codePoint.toString(16)`.
unfoldable pub hex_digit : ℕ → ℕ
hex_digit nibble = if ltb nibble 10 then 0x30 + nibble else 0x61 + (nibble - 10)

-- `\u` and four digits, for a point below 0x10000
unfoldable pub escape_code_unit : ℕ → Bytes
escape_code_unit point =
    0x5c
    ∷ 0x75
    ∷ hex_digit (point / 4096 % 16)
    ∷ hex_digit (point / 256 % 16)
    ∷ hex_digit (point / 16 % 16)
    ∷ hex_digit (point % 16)
    ∷ []

unfoldable pub write_code_point : ℕ → Bytes
write_code_point point =
    if point == 0x22
    then 0x5c ∷ 0x22 ∷ []
    else if point == 0x5c
    then 0x5c ∷ 0x5c ∷ []
    else if point == 0x08
    then 0x5c ∷ 0x62 ∷ []
    else if point == 0x09
    then 0x5c ∷ 0x74 ∷ []
    else if point == 0x0a
    then 0x5c ∷ 0x6e ∷ []
    else if point == 0x0c
    then 0x5c ∷ 0x66 ∷ []
    else if point == 0x0d
    then 0x5c ∷ 0x72 ∷ []
    else if ltb point 0x20 || is_surrogate point
    then escape_code_unit point
    else utf8_code_point point

unfoldable pub write_code_points : List ℕ → Bytes
write_code_points [] = []
write_code_points (point ∷ points) = write_code_point point ++ write_code_points points

-- The throw for a character without a code point, which does not exist, is left out.
unfoldable pub write_json_string : Text → Bytes
write_json_string value = 0x22 ∷ (write_code_points (code_points value) ++ 0x22 ∷ [])
