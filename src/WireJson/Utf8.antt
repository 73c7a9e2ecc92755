-- ===== src/WireJson/Utf8.antt =====
-- The byte-level part of the parser and of the writer in src/serialization/wire_json.ts.
use ghc_gateway.Base.{
  ℕ, ◌+◌, ◌*◌, ◌/◌, ◌%◌, Bool, false, ◌&&◌, ◌||◌, Option, none, some, [], ◌∷◌, ltb, leb, ◌==◌,
  if◌then◌else◌,
}
use ghc_gateway.WireJson.Outcome.{
  ok, raised, bind, Bytes, Reader, pure, raise, ◌>>=◌, WireJsonErrorCode, invalid_utf8,
  malformed_json,
}

unfoldable pub peek_byte : Bytes → Option ℕ
peek_byte [] = none
peek_byte (byte ∷ rest) = some byte

unfoldable pub need_byte : WireJsonErrorCode → Reader ℕ
need_byte code [] = raised code
need_byte code (byte ∷ rest) = ok (byte, rest)

unfoldable pub consume_byte : Reader ℕ
unfolding need_byte
consume_byte = need_byte malformed_json

-- The next byte, where it is `byte`: what `this.peekByte() === byte` asks.
unfoldable pub peeks : ℕ → Bytes → Bool
peeks wanted [] = false
peeks wanted (byte ∷ rest) = byte == wanted

-- `(byte & 0xc0) !== 0x80` looks at bits 6 and 7.
unfoldable pub need_continuation : Reader ℕ
unfolding need_byte
need_continuation = do
  byte ← need_byte invalid_utf8
  if byte / 64 % 4 == 2 then pure byte else raise invalid_utf8

-- `((b0 & 0x1f) << 6) | (b1 & 0x3f)`, the fields being disjoint
unfoldable pub two_bytes : ℕ → Reader ℕ
unfolding need_continuation
two_bytes b0 = do
  b1 ← need_continuation
  let point = b0 % 32 * 64 + b1 % 64
  if ltb point 0x80 then raise invalid_utf8 else pure point

unfoldable pub is_surrogate : ℕ → Bool
is_surrogate point = leb 0xd800 point && leb point 0xdfff

unfoldable pub three_bytes : ℕ → Reader ℕ
unfolding need_continuation is_surrogate
three_bytes b0 = do
  b1 ← need_continuation
  b2 ← need_continuation
  let point = b0 % 16 * 4096 + b1 % 64 * 64 + b2 % 64
  if ltb point 0x800 || is_surrogate point then raise invalid_utf8 else pure point

unfoldable pub four_bytes : ℕ → Reader ℕ
unfolding need_continuation
four_bytes b0 = do
  b1 ← need_continuation
  b2 ← need_continuation
  b3 ← need_continuation
  let point = b0 % 8 * 262144 + b1 % 64 * 4096 + b2 % 64 * 64 + b3 % 64
  if ltb point 0x10000 || ltb 0x10ffff point then raise invalid_utf8 else pure point

unfoldable pub consume_utf8_code_point : Reader ℕ
unfolding need_byte two_bytes three_bytes four_bytes
consume_utf8_code_point = do
  b0 ← need_byte invalid_utf8
  if ltb b0 0x80
      then pure b0
      else if ltb b0 0xc2 || ltb 0xf4 b0
      then raise invalid_utf8
      else if ltb b0 0xe0
      then two_bytes b0
      else if ltb b0 0xf0
      then three_bytes b0
      else four_bytes b0

-- Always raises: a broken UTF-8 sequence at the position wins over the malformed JSON.
unfoldable pub unexpected {ℓ} : {A : Type ℓ} → Reader A
unfolding consume_utf8_code_point
unexpected [] = raised malformed_json
unexpected (byte ∷ rest) =
    if leb 0x80 byte
    then (bind (consume_utf8_code_point (byte ∷ rest)) λ _. raised malformed_json)
    else raised malformed_json

-- `0xc0 | (codePoint >> 6)` and so on: the marker's bits are clear in the shifted point.
unfoldable pub utf8_code_point : ℕ → Bytes
utf8_code_point point =
    if ltb point 0x80
    then point ∷ []
    else if ltb point 0x800
    then (192 + point / 64) ∷ (128 + point % 64) ∷ []
    else if ltb point 0x10000
    then (224 + point / 4096) ∷ (128 + point / 64 % 64) ∷ (128 + point % 64) ∷ []
    else (240 + point / 262144)
      ∷ (128 + point / 4096 % 64)
      ∷ (128 + point / 64 % 64)
      ∷ (128 + point % 64)
      ∷ []
