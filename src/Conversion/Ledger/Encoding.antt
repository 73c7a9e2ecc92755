-- ===== src/Conversion/Ledger/Encoding.antt =====
-- What `new TextEncoder().encode(value)` yields: UTF-8, a lone surrogate as U+FFFD.
use ghc_gateway.Base.{ℕ, List, [], ◌∷◌, ◌++◌, Text, length, if◌then◌else◌}
use ghc_gateway.WireJson.Outcome.{Bytes}
use ghc_gateway.WireJson.Utf8.{utf8_code_point, is_surrogate}
use ghc_gateway.WireJson.Strings.{code_points}

encode_point : ℕ → Bytes
encode_point point = if is_surrogate point then 0xef ∷ 0xbf ∷ 0xbd ∷ [] else utf8_code_point point

encode_points : List ℕ → Bytes
unfolding encode_point
encode_points [] = []
encode_points (point ∷ points) = encode_point point ++ encode_points points

unfoldable pub encode_utf8 : Text → Bytes
unfolding encode_points
encode_utf8 value = encode_points (code_points value)

-- `encode(value).byteLength`
unfoldable pub utf8_length : Text → ℕ
unfolding encode_utf8
utf8_length value = length (encode_utf8 value)
