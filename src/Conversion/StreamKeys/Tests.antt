-- ===== src/Conversion/StreamKeys/Tests.antt =====
-- The keys of src/protocols/conversion/stream_keys.ts at concrete inputs.
use ghc_gateway.Base.{◌≡◌, refl, some, none, text}
use ghc_gateway.Conversion.StreamKeys.{
  text_kind, response_tool_key, response_message_key, response_reasoning_key,
  response_message_part_key, response_output_index, response_message_part_position, decimal,
  decimal_digits,
}
use ghc_gateway.Conversion.StreamKeys.Trips.{stream_keys-read}

part_key-written : response_message_part_key 12 0 text_kind ≡ text "responses:12:0:text"
unfolding response_message_part_key decimal decimal_digits
part_key-written = refl

stream_keys-read_example :
    (response_output_index (response_tool_key 12) ≡ some 12)
    × (response_output_index (response_message_key 12) ≡ some 12)
    × (response_output_index (response_reasoning_key 12) ≡ some 12)
    × (response_message_part_position (response_message_part_key 12 3 text_kind)
        ≡ some (record { output_index = 12; content_index = 3; kind = text_kind }))
    × (response_output_index (response_message_part_key 12 3 text_kind) ≡ none)
stream_keys-read_example = stream_keys-read 12 3 text_kind
