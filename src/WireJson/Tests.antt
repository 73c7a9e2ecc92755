-- ===== src/WireJson/Tests.antt =====
-- Runs of the parser and of the writer on small documents.
use ghc_gateway.Base.{◌⊎◌, ◌↔◌, ◌++◌, arith, ◌≡◌, refl, [], ◌∷◌, text}
use ghc_gateway.WireJson.Syntax.{
  WireJson, null, string, number, array, object, no_items, item, no_members, member,
}
use ghc_gateway.WireJson.Outcome.{
  WireJsonErrorCode, Bytes, ok, raised, depth_limit, malformed_json, invalid_utf8,
}
use ghc_gateway.WireJson.Utf8.{consume_utf8_code_point, utf8_code_point, is_surrogate}
use ghc_gateway.WireJson.Strings.{
  write_json_string, write_code_points, write_code_point, code_points, is_high, is_low,
  parse_string, parse_units, parse_escape, hex_nibble, from_code_point,
}
use ghc_gateway.WireJson.Numbers.{parse_number, is_number_lexeme}
use ghc_gateway.WireJson.Parser.{parse_wire_json, expect_ascii, skip_whitespace}
use ghc_gateway.WireJson.Writer.{serialize_wire_json}
use ghc_gateway.WireJson.RoundTrip.{IsWire, nesting, parse-serialize}
use ghc_gateway.WireJson.Parsed.{parsed-serializes}
use ghc_gateway.Base.{length}
use ghc_gateway.WireJson.Termination.Values.{parse_wire_json-terminates}
use ghc_gateway.WireJson.Canonical.{canonicalize_wire_json}
use ghc_gateway.WireJson.Canonical.Alike.{Alike}
use ghc_gateway.WireJson.Canonical.Digest.{canonicalize_wire_json_iff}

-- [null, {"a": -1.5e3}, "é"]
abbrev sample : WireJson
sample = array (item null (item inner (item (string (0xe9 ∷ [])) no_items)))
  where
    inner : WireJson
    inner = object (member (text "a") (number (text "-1.5e3")) no_members)

parse_spaced :
    parse_wire_json
      (text "[ null,{\"a\" :-1.5e3 } , \"\\u00E9\"] ")
      (record { max_bytes = 100; max_depth = 2 })
    ≡ ok sample
unfolding parse_wire_json expect_ascii skip_whitespace parse_string parse_number parse_units
    parse_escape hex_nibble consume_utf8_code_point from_code_point
parse_spaced = refl

parse_too_deep :
    parse_wire_json (text "[[]]") (record { max_bytes = 100; max_depth = 1 }) ≡ raised depth_limit
unfolding parse_wire_json expect_ascii skip_whitespace parse_string parse_number parse_units
    parse_escape hex_nibble consume_utf8_code_point from_code_point
parse_too_deep = refl

parse_trailing_comma :
    parse_wire_json (text "[1,]") (record { max_bytes = 100; max_depth = 4 })
    ≡ raised malformed_json
unfolding parse_wire_json expect_ascii skip_whitespace parse_string parse_number parse_units
    parse_escape hex_nibble consume_utf8_code_point from_code_point
parse_trailing_comma = refl

parse_bad_utf8 :
    parse_wire_json (0xc0 ∷ []) (record { max_bytes = 100; max_depth = 4 }) ≡ raised invalid_utf8
unfolding parse_wire_json expect_ascii skip_whitespace parse_string parse_number parse_units
    parse_escape hex_nibble consume_utf8_code_point from_code_point
parse_bad_utf8 = refl

sample_bytes :
    serialize_wire_json sample ≡ ok (text "[null,{\"a\":-1.5e3},\"" ++ 0xc3 ∷ 0xa9 ∷ text "\"]")
unfolding serialize_wire_json write_json_string write_code_points write_code_point code_points
    utf8_code_point is_surrogate is_high is_low
sample_bytes = refl

sample-IsWire : IsWire sample
unfolding IsWire is_number_lexeme
sample-IsWire = (tt, ((omega arith, refl, tt), (omega arith, tt)))

parse-serialize_example :
    parse_wire_json
      (text "[null,{\"a\":-1.5e3},\"" ++ 0xc3 ∷ 0xa9 ∷ text "\"]")
      (record { max_bytes = 100; max_depth = 2 })
    ≡ ok sample
unfolding nesting
parse-serialize_example =
    parse-serialize sample (text "[null,{\"a\":-1.5e3},\"" ++ 0xc3 ∷ 0xa9 ∷ text "\"]")
      (record { max_bytes = 100; max_depth = 2 }) sample-IsWire (omega arith) sample_bytes
      (omega arith)

parsed-serializes_example :
    (b : Bytes) × (serialize_wire_json sample ≡ ok b)
    × (parse_wire_json b (record { max_bytes = length b; max_depth = nesting sample }) ≡ ok sample)
parsed-serializes_example =
    parsed-serializes (text "[ null,{\"a\" :-1.5e3 } , \"\\u00E9\"] ")
      (record { max_bytes = 100; max_depth = 2 }) sample parse_spaced

parse_wire_json-terminates_example :
    ((value : WireJson) × (parse_wire_json (text "[1,]") (record { max_bytes = 100; max_depth = 4 })
        ≡ ok value))
    ⊎ ((code : WireJsonErrorCode) × (parse_wire_json
            (text "[1,]")
            (record { max_bytes = 100; max_depth = 4 })
          ≡ raised code))
parse_wire_json-terminates_example =
    parse_wire_json-terminates (text "[1,]") (record { max_bytes = 100; max_depth = 4 })

-- {"b": 1, "a": null} and {"a": null, "b": 1}
abbrev b_first : WireJson
b_first = object (member (text "b") (number (text "1")) (member (text "a") null no_members))

abbrev a_first : WireJson
a_first = object (member (text "a") null (member (text "b") (number (text "1")) no_members))

b_first-IsWire : IsWire b_first
unfolding IsWire is_number_lexeme
b_first-IsWire = ((omega arith, tt), refl, ((omega arith, tt), tt, tt))

a_first-IsWire : IsWire a_first
unfolding IsWire is_number_lexeme
a_first-IsWire = ((omega arith, tt), tt, ((omega arith, tt), refl, tt))

canonicalize_wire_json_iff_example :
    (canonicalize_wire_json b_first ≡ canonicalize_wire_json a_first) ↔ Alike b_first a_first
canonicalize_wire_json_iff_example =
    canonicalize_wire_json_iff b_first a_first b_first-IsWire a_first-IsWire
