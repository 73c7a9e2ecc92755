-- ===== src/WireJson/Numbers.antt =====
-- JSON numbers in src/serialization/wire_json.ts: `parseNumber`, and the pattern of the writer.
use ghc_gateway.Base.{
  ℕ, zero, suc, ◌+◌, ◌-◌, Bool, true, false, ◌&&◌, ◌||◌, [], ◌∷◌, Text, length, ltb, leb, ◌==◌,
  if◌then◌else◌,
}
use ghc_gateway.WireJson.Outcome.{
  ok, raised, bind, Bytes, Reader, pure, raise, ◌>>=◌, ◌>>◌, malformed_json,
}

abbrev pub is_digit : ℕ → Bool
is_digit byte = leb 0x30 byte && leb byte 0x39

-- The loop of `consumeDigits`.
unfoldable pub count_digits : ℕ → Bytes → ℕ × Bytes
count_digits count [] = (count, [])
count_digits count (byte ∷ rest) =
    let more = count_digits (count + 1) rest in if is_digit byte then more else (count, byte ∷ rest)

unfoldable pub consume_digits : Reader Bool
unfolding count_digits
consume_digits bytes = let (count, rest) = count_digits 0 bytes in ok (ltb 0 count, rest)

-- `if (!this.consumeDigits()) throw`
unfoldable pub need_digits : Reader (Unit {0})
unfolding consume_digits
need_digits = do some_digits ← consume_digits; if some_digits then pure tt else raise malformed_json

-- `if (this.peekByte() === byte) this.consumeByte()`
unfoldable pub skip_byte : ℕ → Reader (Unit {0})
skip_byte wanted [] = ok (tt, [])
skip_byte wanted (byte ∷ rest) = if byte == wanted then ok (tt, rest) else ok (tt, byte ∷ rest)

unfoldable pub scan_integer : Reader (Unit {0})
unfolding consume_digits
scan_integer [] = raised malformed_json
scan_integer (first ∷ rest) =
    if first == 0x30
    then ok (tt, rest)
    else if leb 0x31 first && leb first 0x39
    then bind (consume_digits rest) (λ (_, after). ok (tt, after))
    else raised malformed_json

unfoldable pub scan_fraction : Reader (Unit {0})
unfolding need_digits
scan_fraction [] = ok (tt, [])
scan_fraction (byte ∷ rest) = if byte == 0x2e then need_digits rest else ok (tt, byte ∷ rest)

unfoldable pub scan_sign : Reader (Unit {0})
scan_sign [] = ok (tt, [])
scan_sign (byte ∷ rest) =
    if byte == 0x2b || byte == 0x2d then ok (tt, rest) else ok (tt, byte ∷ rest)

unfoldable pub scan_exponent : Reader (Unit {0})
unfolding need_digits scan_sign
scan_exponent [] = ok (tt, [])
scan_exponent (byte ∷ rest) =
    if byte == 0x65 || byte == 0x45
    then bind (scan_sign rest) (λ (_, after). need_digits after)
    else ok (tt, byte ∷ rest)

unfoldable pub scan_number : Reader (Unit {0})
unfolding skip_byte scan_integer scan_fraction scan_exponent
scan_number = do skip_byte 0x2d; scan_integer; scan_fraction; scan_exponent

unfoldable pub take : ℕ → Bytes → Bytes
take zero bytes = []
take (suc n) [] = []
take (suc n) (byte ∷ rest) = byte ∷ take n rest

-- `asciiSlice(bytes, start, pos)`: what stands between two positions.
unfoldable pub ascii_slice : Bytes → Bytes → Text
unfolding take
ascii_slice start rest = take (length start - length rest) start

unfoldable pub parse_number : Reader Text
unfolding scan_number ascii_slice
parse_number bytes = bind (scan_number bytes) λ (_, rest). ok (ascii_slice bytes rest, rest)

-- The places of a match of `/^-?(?:0|[1-9]\d*)(?:\.\d+)?(?:[eE][+-]?\d+)?$/u`.
pub data Place : Type 0 where
  before minus leading_zero integer point fraction exponent signed exponent_digits : Place
  nowhere : Place

unfoldable pub at_start : ℕ → Place
at_start c =
    if c == 0x30 then leading_zero else if leb 0x31 c && leb c 0x39 then integer else nowhere

unfoldable pub at_tail : ℕ → Place
at_tail c = if c == 0x65 || c == 0x45 then exponent else nowhere

unfoldable pub advance : Place → ℕ → Place
unfolding at_start at_tail
advance before c = if c == 0x2d then minus else at_start c
advance minus c = at_start c
advance leading_zero c = if c == 0x2e then point else at_tail c
advance integer c = if is_digit c then integer else if c == 0x2e then point else at_tail c
advance point c = if is_digit c then fraction else nowhere
advance fraction c = if is_digit c then fraction else at_tail c
advance exponent c =
    if c == 0x2b || c == 0x2d then signed else if is_digit c then exponent_digits else nowhere
advance signed c = if is_digit c then exponent_digits else nowhere
advance exponent_digits c = if is_digit c then exponent_digits else nowhere
advance nowhere c = nowhere

unfoldable pub accepting : Place → Bool
accepting leading_zero = true
accepting integer = true
accepting fraction = true
accepting exponent_digits = true
accepting _ = false

unfoldable pub matches_from : Place → Text → Bool
unfolding advance accepting
matches_from place [] = accepting place
matches_from place (c ∷ rest) = matches_from (advance place c) rest

-- `JSON_NUMBER_LEXEME.test(lexeme)`
unfoldable pub is_number_lexeme : Text → Bool
unfolding matches_from
is_number_lexeme lexeme = matches_from before lexeme
