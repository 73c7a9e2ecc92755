-- ===== src/Conversion/Sse/Tests.antt =====
-- The theorems about src/protocols/conversion/sse.ts at concrete inputs.
use ghc_gateway.Base.{◌≡◌, refl, ◌⊎◌, ◌∷◌, [], ◌++◌, List, Text, text, map, same_text}
use ghc_gateway.Conversion.Sse.{decode_sse_records, decoded, event_too_large, join}
use ghc_gateway.Conversion.Sse.Lines.{read_all}
use ghc_gateway.Conversion.Sse.Lines.Whole.{decode_sse_records-whole}

-- An event cut between a carriage return and its line feed.
abbrev pieces : List Text
pieces = (text "data: a" ++ 0x0d ∷ []) ∷ (0x0a ∷ text "data: b") ∷ (0x0a ∷ 0x0a ∷ []) ∷ []

decode_sse_records-whole_example :
    (decode_sse_records 1000 (map decoded pieces) (decoded []) ≡ read_all (join pieces ++ []))
    ⊎ ((decode_sse_records 1000 (map decoded pieces) (decoded [])).1 ≡ event_too_large)
unfolding same_text
decode_sse_records-whole_example =
    decode_sse_records-whole 1000 pieces [] (refl, (refl, (refl, tt)))
