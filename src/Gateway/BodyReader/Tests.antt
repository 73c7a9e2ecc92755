-- ===== src/Gateway/BodyReader/Tests.antt =====
-- The theorem about src/gateway/body_reader.ts at a concrete request.
use ghc_gateway.Base.{
  ◌≡◌, ◌≤◌, refl, true, none, some, [], ◌∷◌, text, length, trim, to_lower_case, same_text,
  is_decimal, decimal_value,
}
use ghc_gateway.WireJson.Syntax.{object, no_members, is_wire_json_object}
use ghc_gateway.WireJson.Outcome.{Outcome, Bytes}
use ghc_gateway.WireJson.Strings.{parse_string, parse_units}
use ghc_gateway.WireJson.Numbers.{parse_number}
use ghc_gateway.WireJson.Parser.{parse_wire_json, expect_ascii, skip_whitespace}
use ghc_gateway.Gateway.BodyReader.{
  Headers, RequestBody, streamed, bytes, nothing, accepted, assert_json_media_type,
  assert_identity_encoding, read_wire_json_object_body, judge_body, judge_content_type,
  parse_content_type, split, includes_unit, read_parameters, read_parameter, unquote,
  drop_last_quote, is_other_charset, read_limited_bytes, check_declared, read_body, read_chunks,
  parse_body,
}
use ghc_gateway.Gateway.BodyReader.Accepted.{
  received, awaited_of, read_wire_json_object_body-accepted,
}

abbrev headers : Headers
headers = record {
  content_type = some (text "Application/JSON; charset=\"UTF-8\"");
  content_encoding = none;
  content_length = some (text "2");
}

abbrev body : RequestBody
body = streamed (bytes (0x7b ∷ []) ∷ nothing ∷ bytes (0x7d ∷ []) ∷ [])

body_lem : read_wire_json_object_body 100 headers body ≡ accepted (object no_members)
unfolding read_wire_json_object_body assert_json_media_type assert_identity_encoding
    parse_content_type judge_content_type split includes_unit read_parameters read_parameter unquote
    drop_last_quote trim to_lower_case same_text is_other_charset read_limited_bytes check_declared
    is_decimal decimal_value read_body read_chunks parse_body judge_body parse_wire_json
    expect_ascii skip_whitespace parse_string parse_number parse_units is_wire_json_object
body_lem = refl

read_wire_json_object_body-accepted_example :
    (assert_json_media_type headers.content_type ≡ accepted tt)
    × (assert_identity_encoding headers.content_encoding ≡ accepted tt)
    × ((all : Bytes) × (received (awaited_of body) ≡ some all)
        × (length all ≤ 100)
        × (parse_wire_json all (record { max_bytes = 100; max_depth = 64 })
            ≡ Outcome.ok (object no_members))
        × (is_wire_json_object (object no_members) ≡ true))
read_wire_json_object_body-accepted_example =
    read_wire_json_object_body-accepted 100 headers body (object no_members) body_lem
