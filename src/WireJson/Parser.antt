-- ===== src/WireJson/Parser.antt =====
-- The parser of src/serialization/wire_json.ts. `Reader` passes the bytes from `pos` on.
use ghc_gateway.Base.{
  ℕ, zero, suc, ◌+◌, ◌*◌, Bool, true, false, ◌||◌, [], ◌∷◌, Text, text, length, ltb, ◌==◌,
  if◌then◌else◌,
}
use ghc_gateway.WireJson.Syntax.{
  WireJson, Items, Members, null, boolean, string, number, array, object, no_items, item,
  no_members, member,
}
use ghc_gateway.WireJson.Outcome.{
  Outcome, ok, raised, out_of_fuel, bind, Bytes, Reader, pure, ◌>>=◌, ◌>>◌, byte_limit, depth_limit,
  malformed_json,
}
use ghc_gateway.WireJson.Utf8.{consume_byte, peeks, unexpected}
use ghc_gateway.WireJson.Strings.{parse_string}
use ghc_gateway.WireJson.Numbers.{parse_number, is_digit}

pub record WireJsonParseLimits : Type 0 where
  pub max_bytes : ℕ
  pub max_depth : ℕ

unfoldable pub is_space : ℕ → Bool
is_space byte = byte == 0x20 || byte == 0x09 || byte == 0x0a || byte == 0x0d

unfoldable pub skip_whitespace : Reader (Unit {0})
unfolding is_space
skip_whitespace [] = ok (tt, [])
skip_whitespace (byte ∷ rest) =
    let more = skip_whitespace rest in if is_space byte then more else ok (tt, byte ∷ rest)

-- A byte at 0x80 or above is read as UTF-8 first, which may raise instead.
unfoldable pub expect_ascii : Text → Reader (Unit {0})
unfolding unexpected
expect_ascii [] bytes = ok (tt, bytes)
expect_ascii (expected ∷ more) [] = raised malformed_json
expect_ascii (expected ∷ more) (actual ∷ rest) =
    let next = expect_ascii more rest in
    if actual == expected then next else unexpected (actual ∷ rest)

-- `parseArray` and `parseObject` up to their loops, which are `items` and `members`.
unfoldable pub parse_array : Reader Items → Reader WireJson
unfolding consume_byte peeks
parse_array items = do
  consume_byte
  skip_whitespace
  λ bytes.
      if peeks 0x5d bytes
      then (do consume_byte; pure (array no_items)) bytes
      else (do found ← items; pure (array found)) bytes

unfoldable pub parse_object : Reader Members → Reader WireJson
unfolding consume_byte peeks
parse_object members = do
  consume_byte
  skip_whitespace
  λ bytes.
      if peeks 0x7d bytes
      then (do consume_byte; pure (object no_members)) bytes
      else (do found ← members; pure (object found)) bytes

-- `parseValue` at its first byte.
unfoldable pub parse_token : ℕ → ℕ → Reader Items → Reader Members → Reader WireJson
unfolding parse_array parse_object
parse_token max_depth depth items members [] = raised malformed_json
parse_token max_depth depth items members (byte ∷ rest) =
    let here = byte ∷ rest in
    if byte == 0x7b || byte == 0x5b
    then (if ltb max_depth depth
        then raised depth_limit
        else if byte == 0x7b
        then parse_object members here
        else parse_array items here)
    else if byte == 0x22
    then (do found ← parse_string; pure (string found)) here
    else if byte == 0x74
    then (do expect_ascii (text "true"); pure (boolean true)) here
    else if byte == 0x66
    then (do expect_ascii (text "false"); pure (boolean false)) here
    else if byte == 0x6e
    then (do expect_ascii (text "null"); pure null) here
    else if byte == 0x2d || is_digit byte
    then (do found ← parse_number; pure (number found)) here
    else unexpected here

-- Each call costs a unit of fuel; `parse_document` gives enough.
unfoldable mutual
  unfolding parse_token peeks consume_byte

  pub parse_value : ℕ → ℕ → ℕ → Reader WireJson
  parse_value zero max_depth depth bytes = out_of_fuel
  parse_value (suc fuel) max_depth depth bytes =
      (do
        skip_whitespace
        parse_token max_depth depth (parse_items fuel max_depth depth)
            (parse_members fuel max_depth depth))
        bytes

  -- A round of the loop in `parseArray`, and the rounds after it.
  pub parse_items : ℕ → ℕ → ℕ → Reader Items
  parse_items zero max_depth depth bytes = out_of_fuel
  parse_items (suc fuel) max_depth depth bytes =
      (do
        value ← parse_value fuel max_depth (depth + 1)
        skip_whitespace
        λ after.
            let more =
              (do consume_byte; found ← parse_items fuel max_depth depth; pure (item value found))
                after in
            if peeks 0x2c after
            then more
            else if peeks 0x5d after
            then (do consume_byte; pure (item value no_items)) after
            else unexpected after)
        bytes

  -- A round of the loop in `parseObject`, and the rounds after it.
  pub parse_members : ℕ → ℕ → ℕ → Reader Members
  parse_members zero max_depth depth bytes = out_of_fuel
  parse_members (suc fuel) max_depth depth bytes =
      (do
        skip_whitespace
        λ here.
            let keyed =
              (do
                key ← parse_string
                skip_whitespace
                λ colon.
                    let valued =
                      (do
                        consume_byte
                        value ← parse_value fuel max_depth (depth + 1)
                        skip_whitespace
                        λ after.
                            let more =
                              (do
                                consume_byte
                                found ← parse_members fuel max_depth depth
                                pure (member key value found))
                                after in
                            if peeks 0x2c after
                            then more
                            else if peeks 0x7d after
                            then (do consume_byte; pure (member key value no_members)) after
                            else unexpected after)
                        colon in
                    if peeks 0x3a colon then valued else unexpected colon)
                here in
            if peeks 0x22 here then keyed else unexpected here)
        bytes

unfoldable pub finish_document : WireJson → Bytes → Outcome WireJson
unfolding unexpected
finish_document value [] = ok value
finish_document value (byte ∷ rest) =
    bind (unexpected {A = WireJson} (byte ∷ rest)) λ (never, after). ok never

unfoldable pub parse_document : ℕ → Bytes → Outcome WireJson
unfolding parse_value skip_whitespace finish_document
parse_document max_depth bytes =
    let read = (do
      skip_whitespace
      value ← parse_value (suc (2 * length bytes)) max_depth 1
      skip_whitespace
      pure value) in
    bind (read bytes) λ (value, rest). finish_document value rest

unfoldable pub parse_wire_json : Bytes → WireJsonParseLimits → Outcome WireJson
unfolding parse_document
parse_wire_json bytes limits =
    if ltb limits.max_bytes (length bytes)
    then raised byte_limit
    else parse_document limits.max_depth bytes
