-- ===== src/WireJson/Parsed.antt =====
-- What the parser of src/serialization/wire_json.ts returns, and its writer.
use ghc_gateway.Base.{
  ℕ, zero, suc, ◌+◌, ◌*◌, ◌≡◌, subst, Bool, true, false, ◌||◌, [], ◌∷◌, text, length, ltb, ◌==◌,
  if-cases, if◌then◌else◌, arith,
}
use ghc_gateway.WireJson.Syntax.{
  WireJson, Items, Members, null, boolean, string, number, array, object, no_items, item,
  no_members, member,
}
use ghc_gateway.WireJson.Outcome.{
  Outcome, ok, raised, out_of_fuel, bind, Bytes, Reader, pure, ◌>>◌, malformed_json, depth_limit,
  byte_limit,
}
use ghc_gateway.WireJson.Utf8.{peeks, consume_byte, unexpected, consume_utf8_code_point}
use ghc_gateway.WireJson.Numbers.{is_digit, is_number_lexeme, parse_number}
use ghc_gateway.WireJson.Parser.{
  WireJsonParseLimits, skip_whitespace, expect_ascii, parse_array, parse_object, parse_token,
  parse_value, parse_items, parse_members, finish_document, parse_document, parse_wire_json,
}
use ghc_gateway.WireJson.Writer.{serialize_wire_json}
use ghc_gateway.WireJson.RoundTrip.{
  IsWire, IsWireItems, IsWireMembers, nesting, parse-serialize, serialize-total,
}
use ghc_gateway.WireJson.NumberSound.{Returns, parse_number-Returns}
use ghc_gateway.WireJson.StringSound.{
  Yields, bind-Returns, then-Yields, skip-Yields, pure-Yields, parse_string-Yields,
}

-- A reader that chooses by its input.
choice-Yields :
    {A : Type 0} {P : A → Type 0} (test : Bytes → Bool) {m n : Reader A}
    → Yields P m
    → Yields P n
    → Yields P (λ bytes. if test bytes then m bytes else n bytes)
choice-Yields {P = P} test {m} {n} h k = record {
  run = λ bytes.
      if-cases (Returns P) (test bytes) (m bytes) (n bytes) (λ _. h.run bytes) (λ _. k.run bytes);
}

-- `unexpected` returns nothing.
unexpected-Yields : {A : Type 0} {P : A → Type 0} → Yields P (unexpected {A = A})
unexpected-Yields {A} {P} = record { run = raises }
  where
    never :
        (o : Outcome (ℕ × Bytes)) → Returns P (bind {B = A × Bytes} o (λ _. raised malformed_json))
    never (ok a) = tt
    never (raised code) = tt
    never out_of_fuel = tt

    raises : (bytes : Bytes) → Returns P (unexpected {A = A} bytes)
    raises [] = unfold unexpected in tt
    raises (byte ∷ rest) =
        unfold unexpected in
        if-cases (Returns P) _
          (bind (consume_utf8_code_point (byte ∷ rest)) (λ _. raised malformed_json))
          (raised malformed_json) (λ _. never (consume_utf8_code_point (byte ∷ rest))) (λ _. tt)

array-Yields : {items : Reader Items} → Yields IsWireItems items → Yields IsWire (parse_array items)
unfolding parse_array IsWire
array-Yields h = skip-Yields consume_byte λ _. skip-Yields skip_whitespace λ _.
    choice-Yields (peeks 0x5d) (skip-Yields consume_byte (λ _. pure-Yields (array no_items) tt))
      (then-Yields h (λ found w. pure-Yields (array found) w))

object-Yields :
    {members : Reader Members} → Yields IsWireMembers members → Yields IsWire (parse_object members)
unfolding parse_object IsWire
object-Yields h = skip-Yields consume_byte λ _. skip-Yields skip_whitespace λ _.
    choice-Yields (peeks 0x7d) (skip-Yields consume_byte (λ _. pure-Yields (object no_members) tt))
      (then-Yields h (λ found w. pure-Yields (object found) w))

literal-Yields :
    (value : WireJson) (m : Reader (Unit {0})) → IsWire value → Yields IsWire (m >> pure value)
literal-Yields value m w = skip-Yields m (λ _. pure-Yields value w)

parse_token-Yields :
    (max_depth depth : ℕ) {items : Reader Items} {members : Reader Members}
    → Yields IsWireItems items
    → Yields IsWireMembers members
    → Yields IsWire (parse_token max_depth depth items members)
unfolding parse_token IsWire
parse_token-Yields max_depth depth {items} {members} hi hm = record { run = token }
  where
    token : (bytes : Bytes) → Returns IsWire (parse_token max_depth depth items members bytes)
    token [] = tt
    token (byte ∷ rest) =
        let here : Bytes = byte ∷ rest in
        if-cases (Returns IsWire) (byte == 0x7b || byte == 0x5b) _ _
          (λ _.
            if-cases (Returns IsWire) (ltb max_depth depth) (raised depth_limit) _ (λ _. tt)
              λ _.
                if-cases (Returns IsWire) (byte == 0x7b) (parse_object members here)
                  (parse_array items here) (λ _. (object-Yields hm).run here)
                  (λ _. (array-Yields hi).run here))
          λ _.
            if-cases (Returns IsWire) (byte == 0x22) _ _
              (λ _.
                (then-Yields parse_string-Yields (λ found w. pure-Yields (string found) w)).run
                  here)
              λ _.
                if-cases (Returns IsWire) (byte == 0x74) _ _
                  (λ _. (literal-Yields (boolean true) (expect_ascii (text "true")) tt).run here)
                  λ _.
                    if-cases (Returns IsWire) (byte == 0x66) _ _
                      (λ _.
                        (literal-Yields (boolean false) (expect_ascii (text "false")) tt).run here)
                      λ _.
                        if-cases (Returns IsWire) (byte == 0x6e) _ _
                          (λ _. (literal-Yields null (expect_ascii (text "null")) tt).run here)
                          λ _.
                            if-cases (Returns IsWire) (byte == 0x2d || is_digit byte) _
                              (unexpected here)
                              (λ _.
                                bind-Returns (λ lexeme. is_number_lexeme lexeme ≡ true) IsWire
                                  (parse_number here) (λ found. pure (number found))
                                  (parse_number-Returns here)
                                  (λ found w. pure-Yields (number found) w))
                              (λ _. unexpected-Yields.run here)

-- What follows a value in a list: the comma and the rest, or the bracket.
closing-Yields :
    {A : Type 0} {P : A → Type 0} (comma bracket : ℕ) {m : Reader A} (last : A)
    → Yields P m
    → P last
    → Yields P (λ after.
      if peeks comma after
      then (consume_byte >> m) after
      else if peeks bracket after
      then (consume_byte >> pure last) after
      else unexpected after)
closing-Yields comma bracket last h p =
    choice-Yields (peeks comma) (skip-Yields consume_byte (λ _. h)) (
      choice-Yields (peeks bracket) (skip-Yields consume_byte (λ _. pure-Yields last p))
        unexpected-Yields)

mutual
  unfolding parse_value parse_items parse_members IsWire

  parse_value-Yields : (fuel max_depth depth : ℕ) → Yields IsWire (parse_value fuel max_depth depth)
  parse_value-Yields zero max_depth depth = record { run = λ bytes. tt }
  parse_value-Yields (suc fuel) max_depth depth = skip-Yields skip_whitespace λ _.
      parse_token-Yields max_depth depth (parse_items-Yields fuel max_depth depth)
        (parse_members-Yields fuel max_depth depth)

  parse_items-Yields :
      (fuel max_depth depth : ℕ) → Yields IsWireItems (parse_items fuel max_depth depth)
  parse_items-Yields zero max_depth depth = record { run = λ bytes. tt }
  parse_items-Yields (suc fuel) max_depth depth =
      then-Yields (parse_value-Yields fuel max_depth (depth + 1)) λ value w.
        skip-Yields skip_whitespace λ _.
          closing-Yields 0x2c 0x5d (item value no_items)
            (then-Yields (parse_items-Yields fuel max_depth depth)
              (λ found f. pure-Yields (item value found) (w, f)))
            (w, tt)

  parse_members-Yields :
      (fuel max_depth depth : ℕ) → Yields IsWireMembers (parse_members fuel max_depth depth)
  parse_members-Yields zero max_depth depth = record { run = λ bytes. tt }
  parse_members-Yields (suc fuel) max_depth depth = skip-Yields skip_whitespace λ _.
      choice-Yields (peeks 0x22)
        (then-Yields parse_string-Yields λ key k. skip-Yields skip_whitespace λ _.
          choice-Yields (peeks 0x3a)
            (skip-Yields consume_byte λ _.
              then-Yields (parse_value-Yields fuel max_depth (depth + 1)) λ value w.
                skip-Yields skip_whitespace λ _.
                  closing-Yields 0x2c 0x7d (member key value no_members)
                    (then-Yields (parse_members-Yields fuel max_depth depth)
                      (λ found f. pure-Yields (member key value found) (k, w, f)))
                    (k, w, tt))
            unexpected-Yields)
        unexpected-Yields

-- What holds of the document, if it is returned.
abbrev Accepted : Outcome WireJson → Type 0
Accepted (ok value) = IsWire value
Accepted (raised code) = Unit {0}
Accepted out_of_fuel = Unit {0}

finish_document-Accepted :
    (value : WireJson) (rest : Bytes) → IsWire value → Accepted (finish_document value rest)
unfolding finish_document
finish_document-Accepted value [] w = w
finish_document-Accepted value (byte ∷ rest) w =
    finished (unexpected {A = WireJson} (byte ∷ rest)) (unexpected-Yields.run (byte ∷ rest))
  where
    finished :
        (o : Outcome (WireJson × Bytes))
        → Returns IsWire o
        → Accepted (bind o (λ (never, after). ok never))
    finished (ok (never, after)) h = h
    finished (raised code) h = tt
    finished out_of_fuel h = tt

parse_document-Accepted :
    (max_depth : ℕ) (bytes : Bytes) → Accepted (parse_document max_depth bytes)
unfolding parse_document
parse_document-Accepted max_depth bytes = document _ (
    (skip-Yields skip_whitespace λ _.
        then-Yields (parse_value-Yields (suc (2 * length bytes)) max_depth 1)
          λ value w. skip-Yields skip_whitespace (λ _. pure-Yields value w)).run
      bytes)
  where
    document :
        (o : Outcome (WireJson × Bytes))
        → Returns IsWire o
        → Accepted (bind o (λ (value, rest). finish_document value rest))
    document (ok (value, rest)) h = finish_document-Accepted value rest h
    document (raised code) h = tt
    document out_of_fuel h = tt

parse_wire_json-Accepted :
    (bytes : Bytes) (limits : WireJsonParseLimits) → Accepted (parse_wire_json bytes limits)
unfolding parse_wire_json
parse_wire_json-Accepted bytes limits =
    if-cases Accepted (ltb limits.max_bytes (length bytes)) (raised byte_limit)
      (parse_document limits.max_depth bytes) (λ _. tt)
      (λ _. parse_document-Accepted limits.max_depth bytes)

-- What the parser returned for any input can be written, and parsing what was written, under limits
-- that just allow for its length and for the depth of the value, gives the same value again.
pub parsed-serializes :
    (bytes : Bytes) (limits : WireJsonParseLimits) (v : WireJson)
    → parse_wire_json bytes limits ≡ ok v
    → (b : Bytes) × (serialize_wire_json v ≡ ok b)
      × (parse_wire_json b (record { max_bytes = length b; max_depth = nesting v }) ≡ ok v)
parsed-serializes bytes limits v parsed =
    let w : IsWire v = subst Accepted parsed (parse_wire_json-Accepted bytes limits) in
    let (b, written) = serialize-total v w in
    (
      b,
      written,
      parse-serialize v b (record { max_bytes = length b; max_depth = nesting v }) w (omega arith)
          written (omega arith),
    )
