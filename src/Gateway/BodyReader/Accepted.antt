-- ===== src/Gateway/BodyReader/Accepted.antt =====
-- What src/gateway/body_reader.ts has read when it returns.
use ghc_gateway.Base.{
  ℕ, ◌+◌, ◌≡◌, ◌≤◌, refl, sym, ap, ◌∙◌, subst, arith, Bool, true, false, Option, none, some, List,
  [], ◌∷◌, ◌++◌, length, length-append, append_assoc, append-nil, ltb, if◌then◌else◌,
}
use ghc_gateway.WireJson.Syntax.{WireJson, is_wire_json_object}
use ghc_gateway.WireJson.Outcome.{
  Outcome, Bytes, raised, out_of_fuel, byte_limit, depth_limit, invalid_utf8, malformed_json,
  serialization_failure,
}
use ghc_gateway.WireJson.Parser.{parse_wire_json}
use ghc_gateway.Gateway.Failures.{body_too_large, invalid_request}
use ghc_gateway.Gateway.BodyReader.{
  Body, accepted, refused, refuse, ◌>>=◌, Awaited, bytes, nothing, abort, fails, Headers,
  RequestBody, buffered, streamed, read_chunks, read_body, read_limited_bytes, check_declared,
  judge_body, parse_body, assert_json_media_type, assert_identity_encoding,
  read_wire_json_object_body,
}

-- All that was awaited, in order, if nothing failed.
pub received : List Awaited → Option Bytes
received [] = some []
received (nothing ∷ more) = received more
received (abort ∷ more) = none
received (fails error ∷ more) = none
received (bytes value ∷ more) = elim (received more) [
  | none ↦ none
  | some rest ↦ some (value ++ rest)
]

abbrev pub awaited_of : RequestBody → List Awaited
awaited_of (buffered awaited) = awaited ∷ []
awaited_of (streamed chunks) = chunks

bind_accepted :
    {A B : Type 0} (p : Body A) (f : A → Body B) (b : B)
    → (p >>= f) ≡ accepted b
    → (a : A) × (p ≡ accepted a) × (f a ≡ accepted b)
bind_accepted (accepted a) f b e = (a, refl, e)
bind_accepted (refused x) f b e = ground (arith, e)

accepted_inj : {A : Type 0} {a b : A} → accepted a ≡ accepted b → a ≡ b
accepted_inj {a = a} e = ap (λ p. elim p [ accepted c ↦ c | refused x ↦ a ]) e

read_chunks-received :
    (limit : ℕ) (chunks : List Awaited) (total : ℕ) (read all : Bytes)
    → total ≡ length read
    → total ≤ limit
    → read_chunks limit chunks total read ≡ accepted all
    → (rest : Bytes) × (received chunks ≡ some rest) × (all ≡ read ++ rest) × (length all ≤ limit)
unfolding read_chunks received
read_chunks-received limit [] total read all t h e =
    let same = accepted_inj e in
    ([], refl, sym same ∙ sym (append-nil read), subst (λ v. length v ≤ limit) same (ground arith))
read_chunks-received limit (nothing ∷ more) total read all t h e =
    read_chunks-received limit more total read all t h e
read_chunks-received limit (abort ∷ more) total read all t h e = ground (arith, e)
read_chunks-received limit (fails error ∷ more) total read all t h e = ground (arith, e)
read_chunks-received limit (bytes value ∷ more) total read all t h e =
    judged (ltb limit (total + length value)) refl e (λ fits.
      read_chunks-received limit more (total + length value) (read ++ value) all
        (ap (λ n. n + length value) t ∙ sym (length-append read value)) fits)
  where
    later : Body Bytes
    later = read_chunks limit more (total + length value) (read ++ value)

    Goal : Type 0
    Goal =
        (rest : Bytes) × (received (bytes value ∷ more) ≡ some rest)
        × (all ≡ read ++ rest)
        × (length all ≤ limit)

    judged :
        (over : Bool)
        → ltb limit (total + length value) ≡ over
        → (if over then refuse body_too_large else later) ≡ accepted all
        → (total + length value ≤ limit
            → later ≡ accepted all
            → (rest : Bytes) × (received more ≡ some rest)
              × (all ≡ (read ++ value) ++ rest)
              × (length all ≤ limit))
        → Goal
    judged true o f k = ground (arith, f)
    judged false o f k =
        let (rest, got, whole, small) = k (ground (arith, o)) f in
        (value ++ rest, rw got refl, whole ∙ append_assoc read value rest, small)

judge_body-accepted :
    (outcome : Outcome WireJson) (value : WireJson)
    → judge_body outcome ≡ accepted value
    → (outcome ≡ Outcome.ok value) × (is_wire_json_object value ≡ true)
unfolding judge_body
judge_body-accepted (Outcome.ok v) value e = judged (is_wire_json_object v) refl e
  where
    judged :
        (object : Bool)
        → is_wire_json_object v ≡ object
        → (if object then accepted v else refuse invalid_request) ≡ accepted value
        → (Outcome.ok v ≡ Outcome.ok value) × (is_wire_json_object value ≡ true)
    judged true o f = (
      ap Outcome.ok (accepted_inj f),
      subst (λ w. is_wire_json_object w ≡ true) (accepted_inj f) o,
    )
    judged false o f = ground (arith, f)
judge_body-accepted (raised byte_limit) value e = ground (arith, e)
judge_body-accepted (raised depth_limit) value e = ground (arith, e)
judge_body-accepted (raised invalid_utf8) value e = ground (arith, e)
judge_body-accepted (raised malformed_json) value e = ground (arith, e)
judge_body-accepted (raised serialization_failure) value e = ground (arith, e)
judge_body-accepted out_of_fuel value e = ground (arith, e)

parse_body-accepted :
    (limit : ℕ) (read : Bytes) (value : WireJson)
    → parse_body limit read ≡ accepted value
    → (parse_wire_json read (record { max_bytes = limit; max_depth = 64 }) ≡ Outcome.ok value)
      × (is_wire_json_object value ≡ true)
unfolding parse_body
parse_body-accepted limit [] value e = ground (arith, e)
parse_body-accepted limit (byte ∷ rest) value e = judge_body-accepted _ value e

read_body-received :
    (limit : ℕ) (body : RequestBody) (all : Bytes)
    → read_body limit body ≡ accepted all
    → (received (awaited_of body) ≡ some all) × (length all ≤ limit)
unfolding read_body
read_body-received limit (streamed chunks) all e =
    let (rest, got, whole, small) =
      read_chunks-received limit chunks 0 [] all refl (ground arith) e in
    (got ∙ ap some (sym whole), small)
read_body-received limit (buffered awaited) all e =
    let (rest, got, whole, small) =
      read_chunks-received limit (awaited ∷ []) 0 [] all refl (ground arith) e in
    (got ∙ ap some (sym whole), small)

-- A body that is accepted came under a JSON media type and no coding but identity; all of it was
-- received, it has no more bytes than the limit, and the value is the JSON object that the parser
-- reads from exactly those bytes.
pub read_wire_json_object_body-accepted :
    (limit : ℕ) (headers : Headers) (body : RequestBody) (value : WireJson)
    → read_wire_json_object_body limit headers body ≡ accepted value
    → (assert_json_media_type headers.content_type ≡ accepted tt)
      × (assert_identity_encoding headers.content_encoding ≡ accepted tt)
      × ((all : Bytes) × (received (awaited_of body) ≡ some all)
          × (length all ≤ limit)
          × (parse_wire_json all (record { max_bytes = limit; max_depth = 64 }) ≡ Outcome.ok value)
          × (is_wire_json_object value ≡ true))
unfolding read_wire_json_object_body read_limited_bytes
read_wire_json_object_body-accepted limit headers body value e =
    let (u, media, e1) = bind_accepted (assert_json_media_type headers.content_type) _ value e in
    let (v, coding, e2) =
      bind_accepted (assert_identity_encoding headers.content_encoding) _ value e1 in
    let (all, read, e3) = bind_accepted (read_limited_bytes limit headers body) _ value e2 in
    let (w, declared, e4) =
      bind_accepted (check_declared limit headers.content_length) _ all read in
    let (got, small) = read_body-received limit body all e4 in
    let (parsed, object) = parse_body-accepted limit all value e3 in
    (media, coding, (all, got, small, parsed, object))
