-- ===== src/Gateway/BodyReader.antt =====
-- src/gateway/body_reader.ts: the request body as a JSON object. A header is what `headers.get`
-- returns; the body is the sequence of results of its reader.
pub mod Accepted
pub mod Tests
use ghc_gateway.Base.{
  ℕ, ◌+◌, ◌*◌, ◌-◌, Bool, true, false, not, ◌&&◌, ◌||◌, Option, none, some, List, [], ◌∷◌, ◌++◌,
  Text, text, same_text, starts_with, trim, to_lower_case, is_decimal, decimal_value, any, map,
  keep, length, ltb, leb, ◌==◌, if◌then◌else◌,
}
use ghc_gateway.WireJson.Syntax.{WireJson, is_wire_json_object}
use ghc_gateway.WireJson.Outcome.{
  Outcome, Bytes, raised, out_of_fuel, WireJsonErrorCode, byte_limit,
}
use ghc_gateway.WireJson.Parser.{parse_wire_json}
use ghc_gateway.Gateway.Failures.{
  GatewayFailure, Thrown, gateway_failure, bare, static, StaticGatewayFailureKind, invalid_request,
  body_too_large, unsupported_media_type, aborted, Cause, wire_json, other_error,
}

pub data Body {ℓ} (A : Type ℓ) : Type ℓ where
  accepted : A → Body A
  refused : Thrown → Body A

infixl 1 ◌>>=◌ ◌>>◌
abbrev pub ◌>>=◌ {ℓ κ} : {A : Type ℓ} {B : Type κ} → Body A → (A → Body B) → Body B
accepted a >>= f = f a
refused error >>= f = refused error

abbrev pub ◌>>◌ {ℓ κ} : {A : Type ℓ} {B : Type κ} → Body A → Body B → Body B
m >> k = m >>= λ _. k

abbrev pub refuse {ℓ} : {A : Type ℓ} → StaticGatewayFailureKind → Body A
refuse kind = refused (gateway_failure (bare kind))

-- `text.split(separator)`, for one code unit: the part before the first one, and the parts after.
unfoldable pub split : ℕ → Text → Text × List Text
split separator [] = ([], [])
split separator (c ∷ value) =
    let (first, rest) = split separator value in
    if c == separator then ([], first ∷ rest) else (c ∷ first, rest)

unfoldable pub includes_unit : ℕ → Text → Bool
includes_unit wanted value = any (λ c. c == wanted) value

abbrev is_empty : Text → Bool
is_empty value = same_text value []

-- `value.startsWith("\"") && value.endsWith("\"") && value.length >= 2`, and then the slice.
unfoldable pub drop_last_quote : Text → Option Text
drop_last_quote [] = none
drop_last_quote (c ∷ []) = if c == 0x22 then some [] else none
drop_last_quote (c ∷ d ∷ value) = elim (drop_last_quote (d ∷ value)) [
  | none ↦ none
  | some inner ↦ some (c ∷ inner)
]

unfoldable pub unquote : Text → Text
unfolding drop_last_quote
unquote [] = []
unquote (c ∷ value) =
    if c == 0x22
    then (elim (drop_last_quote value) [ none ↦ c ∷ value | some inner ↦ inner ])
    else c ∷ value

-- `charset` after one parameter, or `none` where `parseContentType` gives up.
unfoldable pub read_parameter : Text → Option Text → Option (Option Text)
unfolding split unquote
read_parameter parameter charset =
    let (name, values) = split 0x3d parameter in
    elim values [
      | [] ↦ none
      | v ∷ vs ↦
          if is_empty name
          then none
          else if same_text (to_lower_case (trim name)) (text "charset")
          then some (some (to_lower_case (unquote (trim (after_equals v vs)))))
          else some charset
    ]
  where
    -- What follows the first equals sign, whole.
    after_equals : Text → List Text → Text
    after_equals v [] = v
    after_equals v (w ∷ ws) = v ++ 0x3d ∷ after_equals w ws

unfoldable pub read_parameters : List Text → Option Text → Option (Option Text)
unfolding read_parameter
read_parameters [] charset = some charset
read_parameters (parameter ∷ parameters) charset = elim (read_parameter parameter charset) [
  | none ↦ none
  | some next ↦ read_parameters parameters next
]

pub record ContentType : Type 0 where
  pub media_type : Text
  pub charset : Option Text

unfoldable pub parse_content_type : Text → Option ContentType
unfolding split read_parameters
parse_content_type raw =
    let (first, rest) = split 0x3b raw in
    let media = to_lower_case (trim first) in
    if is_empty media then none else elim (read_parameters (map trim rest) none) [
      | none ↦ none
      | some charset ↦ some (record { media_type = media; charset = charset })
    ]

-- `parsed.charset !== undefined && parsed.charset !== UTF8`
unfoldable pub is_other_charset : Option Text → Bool
is_other_charset none = false
is_other_charset (some charset) = not (same_text charset (text "utf-8"))

unfoldable pub judge_content_type : Option ContentType → Body (Unit {0})
unfolding is_other_charset
judge_content_type none = refuse unsupported_media_type
judge_content_type (some parsed) =
    if not (same_text parsed.media_type (text "application/json"))
      || is_other_charset parsed.charset
    then refuse unsupported_media_type
    else accepted tt

unfoldable pub assert_json_media_type : Option Text → Body (Unit {0})
unfolding includes_unit parse_content_type judge_content_type
assert_json_media_type none = refuse unsupported_media_type
assert_json_media_type (some raw) =
    if includes_unit 0x2c raw
    then refuse unsupported_media_type
    else judge_content_type (parse_content_type raw)

-- The non-empty codings that `content-encoding` names.
unfoldable pub content_codings : Text → List Text
unfolding split
content_codings raw =
    let (first, rest) = split 0x2c raw in
    keep (λ value. not (is_empty value)) (map (λ value. to_lower_case (trim value)) (first ∷ rest))

unfoldable pub is_identity : List Text → Bool
is_identity (value ∷ []) = same_text value (text "identity")
is_identity _ = false

unfoldable pub assert_identity_encoding : Option Text → Body (Unit {0})
unfolding content_codings is_identity
assert_identity_encoding none = accepted tt
assert_identity_encoding (some raw) =
    if is_identity (content_codings raw) then accepted tt else refuse unsupported_media_type

-- What awaiting the body comes to: some bytes, an abort, or another rejection.
pub data Awaited : Type 0 where
  bytes : Bytes → Awaited
  nothing abort : Awaited
  fails : Thrown → Awaited

-- The loop over the reader: the total and the chunks so far; `done` is the end of the list.
unfoldable pub read_chunks : ℕ → List Awaited → ℕ → Bytes → Body Bytes
read_chunks max_bytes [] total read = accepted read
read_chunks max_bytes (nothing ∷ more) total read = read_chunks max_bytes more total read
read_chunks max_bytes (abort ∷ more) total read = refuse aborted
read_chunks max_bytes (fails error ∷ more) total read = refused error
read_chunks max_bytes (bytes value ∷ more) total read =
    let sum = total + length value in
    let later = read_chunks max_bytes more sum (read ++ value) in
    if ltb max_bytes sum then refuse body_too_large else later

pub record Headers : Type 0 where
  pub content_type : Option Text
  pub content_encoding : Option Text
  pub content_length : Option Text

-- `request.arrayBuffer()` where the request has no body stream, or the results of its reader.
pub data RequestBody : Type 0 where
  buffered : Awaited → RequestBody
  streamed : List Awaited → RequestBody

unfoldable pub check_declared : ℕ → Option Text → Body (Unit {0})
check_declared max_bytes none = accepted tt
check_declared max_bytes (some declared) =
    if is_decimal declared && ltb max_bytes (decimal_value 0 declared)
    then refuse body_too_large
    else accepted tt

-- The branch on `request.body`.
unfoldable pub read_body : ℕ → RequestBody → Body Bytes
unfolding read_chunks
read_body max_bytes (streamed chunks) = read_chunks max_bytes chunks 0 []
read_body max_bytes (buffered awaited) = read_chunks max_bytes (awaited ∷ []) 0 []

unfoldable pub read_limited_bytes : ℕ → Headers → RequestBody → Body Bytes
read_limited_bytes max_bytes headers body = do
  check_declared max_bytes headers.content_length
  read_body max_bytes body

-- `new GatewayFailureError({ kind, cause: error })`
unfoldable pub parse_failure : StaticGatewayFailureKind → Cause → Thrown
parse_failure kind cause =
    gateway_failure (record { kind = static kind; source = none; phase = none; cause = some cause })

-- What the parse comes to, judged. `out_of_fuel` does not arise.
unfoldable pub judge_body : Outcome WireJson → Body WireJson
unfolding parse_failure
judge_body (Outcome.ok value) =
    if is_wire_json_object value then accepted value else refuse invalid_request
judge_body (raised byte_limit) = refused (parse_failure body_too_large (wire_json byte_limit))
judge_body (raised code) = refused (parse_failure invalid_request (wire_json code))
judge_body out_of_fuel = refused (parse_failure invalid_request (other_error 0))

unfoldable pub parse_body : ℕ → Bytes → Body WireJson
parse_body max_bytes [] = refuse invalid_request
parse_body max_bytes (byte ∷ rest) =
    judge_body (parse_wire_json (byte ∷ rest) (record { max_bytes = max_bytes; max_depth = 64 }))

unfoldable pub read_wire_json_object_body : ℕ → Headers → RequestBody → Body WireJson
read_wire_json_object_body max_bytes headers body = do
  assert_json_media_type headers.content_type
  assert_identity_encoding headers.content_encoding
  read ← read_limited_bytes max_bytes headers body
  parse_body max_bytes read
