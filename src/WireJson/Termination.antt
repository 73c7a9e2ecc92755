-- ===== src/WireJson/Termination.antt =====
-- The fuel of the parser of src/serialization/wire_json.ts: how many bytes each reader leaves.
pub mod Values
use ghc_gateway.Base.{
  ℕ, zero, suc, ◌+◌, ◌*◌, ◌-◌, ◌/◌, ◌%◌, ◌≤◌, ◌<◌, ◌≡◌, ◌≢◌, refl, Bool, true, false, ◌||◌, ◌&&◌,
  Option, none, some, inl, inr, List, [], ◌∷◌, ◌++◌, Text, text, length, ltb, leb, ◌==◌,
  if◌then◌else◌, Bool-cases, Option-cases, arith,
}
use ghc_gateway.WireJson.Syntax.{
  WireJson, Items, Members, null, boolean, string, number, array, object, no_items, item,
  no_members, member,
}
use ghc_gateway.WireJson.Outcome.{
  Outcome, ok, raised, out_of_fuel, bind, Bytes, Reader, pure, raise, ◌>>=◌, ◌>>◌,
  WireJsonErrorCode, malformed_json, invalid_utf8,
}
use ghc_gateway.WireJson.Utf8.{
  need_byte, consume_byte, need_continuation, is_surrogate, consume_utf8_code_point, two_bytes,
  three_bytes, four_bytes, unexpected, peeks,
}
use ghc_gateway.WireJson.Strings.{
  hex_nibble, hex_digits, parse_hex_code_unit, escaped_unit, parse_escape, from_code_point,
  parse_units, parse_string,
}
use ghc_gateway.WireJson.Numbers.{
  is_digit, count_digits, consume_digits, need_digits, skip_byte, scan_integer, scan_fraction,
  scan_sign, scan_exponent, scan_number, parse_number, ascii_slice,
}
use ghc_gateway.WireJson.Parser.{
  WireJsonParseLimits, skip_whitespace, is_space, expect_ascii, parse_array, parse_object,
  parse_token, parse_value, parse_items, parse_members, finish_document, parse_document,
  parse_wire_json,
}

-- The reader came to an end, with fewer than `n` bytes left if it returned.
abbrev Below : {A : Type 0} → ℕ → Outcome (A × Bytes) → Type 0
Below n (ok (a, rest)) = length rest < n
Below n (raised code) = Unit
Below n out_of_fuel = ⊥

-- Given at most `k` bytes the reader comes to an end, and leaves no more than it was given.
record Shrinks {A : Type 0} (k : ℕ) (m : Reader A) : Type 0 where
  run : (bytes : Bytes) → length bytes ≤ k → Below (suc (length bytes)) (m bytes)

-- It leaves fewer.
record Eats {A : Type 0} (k : ℕ) (m : Reader A) : Type 0 where
  run : (bytes : Bytes) → length bytes ≤ k → Below (length bytes) (m bytes)

bind-Below :
    {A B : Type 0} (k m : ℕ) (o : Outcome (A × Bytes)) (f : A → Reader B)
    → Below k o
    → ((a : A) (rest : Bytes) → length rest < k → Below m (f a rest))
    → Below m (bind o (λ (a, rest). f a rest))
bind-Below k m (ok (a, rest)) f h g = g a rest h
bind-Below k m (raised code) f h g = tt
bind-Below k m out_of_fuel f h g = elim h [ ]

weaken-Below : {A : Type 0} (k m : ℕ) (o : Outcome (A × Bytes)) → k ≤ m → Below k o → Below m o
weaken-Below k m (ok (a, rest)) le h = omega arith
weaken-Below k m (raised code) le h = tt
weaken-Below k m out_of_fuel le h = h

if-Below :
    {A : Type 0} (k : ℕ) (b : Bool) (o p : Outcome (A × Bytes))
    → Below k o
    → Below k p
    → Below k (if b then o else p)
if-Below k true o p h g = h
if-Below k false o p h g = g

Eats-Shrinks : {A : Type 0} {k : ℕ} {m : Reader A} → Eats k m → Shrinks k m
Eats-Shrinks {m = m} h = record {
  run = λ bytes le.
      weaken-Below (length bytes) (suc (length bytes)) (m bytes) (omega arith) (h.run bytes le);
}

pure-Shrinks : {A : Type 0} {k : ℕ} {a : A} → Shrinks k (pure a)
pure-Shrinks = record { run = λ bytes le. omega arith }

raise-Eats : {A : Type 0} {k : ℕ} {code : WireJsonErrorCode} → Eats k (raise {A = A} code)
raise-Eats = record { run = λ bytes le. tt }

module _ {A B : Type 0} {k : ℕ} {m : Reader A} {f : A → Reader B} where
  -- A byte is eaten first, so what follows has one byte less.
  eats_then : Eats k m → (0 < k → (a : A) → Shrinks (k - 1) (f a)) → Eats k (m >>= f)
  eats_then h g = record {
    run = λ bytes le.
        bind-Below (length bytes) (length bytes) (m bytes) f (h.run bytes le) λ a rest lt.
          weaken-Below (suc (length rest)) (length bytes) (f a rest) (omega arith)
            ((g (omega arith) a).run rest (omega arith));
  }

  then_eats : Shrinks k m → ((a : A) → Eats k (f a)) → Eats k (m >>= f)
  then_eats h g = record {
    run = λ bytes le.
        bind-Below (suc (length bytes)) (length bytes) (m bytes) f (h.run bytes le) λ a rest lt.
          weaken-Below (length rest) (length bytes) (f a rest) (omega arith)
            ((g a).run rest (omega arith));
  }

  then-Shrinks : Shrinks k m → ((a : A) → Shrinks k (f a)) → Shrinks k (m >>= f)
  then-Shrinks h g = record {
    run = λ bytes le.
        bind-Below (suc (length bytes)) (suc (length bytes)) (m bytes) f (h.run bytes le)
          λ a rest lt.
            weaken-Below (suc (length rest)) (suc (length bytes)) (f a rest) (omega arith)
              ((g a).run rest (omega arith));
  }

if-Shrinks :
    {A : Type 0} {k : ℕ} (b : Bool) {m n : Reader A}
    → Shrinks k m
    → Shrinks k n
    → Shrinks k (if b then m else n)
if-Shrinks true h g = h
if-Shrinks false h g = g

-- A branch on the bytes themselves.
peek-Shrinks :
    {A : Type 0} {k : ℕ} (test : Bytes → Bool) {m n : Reader A}
    → Shrinks k m
    → Shrinks k n
    → Shrinks k (λ bytes. if test bytes then m bytes else n bytes)
peek-Shrinks test {m} {n} h g = record {
  run = λ bytes le.
      if-Below (suc (length bytes)) (test bytes) (m bytes) (n bytes) (h.run bytes le)
        (g.run bytes le);
}

need_byte-Eats : {k : ℕ} (code : WireJsonErrorCode) → Eats k (need_byte code)
need_byte-Eats {k} code = record { run = ended }
  where
    ended : (bytes : Bytes) → length bytes ≤ k → Below (length bytes) (need_byte code bytes)
    ended [] le = unfold need_byte in tt
    ended (byte ∷ rest) le = unfold need_byte in omega arith

consume_byte-Eats : {k : ℕ} → Eats k consume_byte
unfolding consume_byte
consume_byte-Eats = need_byte-Eats malformed_json

ruleset endings = (
  Eats-Shrinks, pure-Shrinks, raise-Eats, need_byte-Eats, consume_byte-Eats, then-Shrinks,
  if-Shrinks,
)

need_continuation-Eats : {k : ℕ} → Eats k need_continuation
unfolding need_continuation
need_continuation-Eats =
    eats_then (need_byte-Eats invalid_utf8)
      (λ _ byte. if-Shrinks _ pure-Shrinks (Eats-Shrinks raise-Eats))

two_bytes-Shrinks : {k : ℕ} (b0 : ℕ) → Shrinks k (two_bytes b0)
unfolding two_bytes
two_bytes-Shrinks b0 = search (endings, need_continuation-Eats) depth 14

three_bytes-Shrinks : {k : ℕ} (b0 : ℕ) → Shrinks k (three_bytes b0)
unfolding three_bytes
three_bytes-Shrinks b0 = search (endings, need_continuation-Eats) depth 14

four_bytes-Shrinks : {k : ℕ} (b0 : ℕ) → Shrinks k (four_bytes b0)
unfolding four_bytes
four_bytes-Shrinks b0 = search (endings, need_continuation-Eats) depth 14

consume_utf8_code_point-Eats : {k : ℕ} → Eats k consume_utf8_code_point
unfolding consume_utf8_code_point
consume_utf8_code_point-Eats = eats_then (need_byte-Eats invalid_utf8) λ _ b0.
    if-Shrinks _ pure-Shrinks (
      if-Shrinks _ (Eats-Shrinks raise-Eats) (
        if-Shrinks _ (two_bytes-Shrinks b0)
          (if-Shrinks _ (three_bytes-Shrinks b0) (four_bytes-Shrinks b0))))

unexpected-Eats : {A : Type 0} {k : ℕ} → Eats k (unexpected {A = A})
unexpected-Eats {A} {k} = record { run = ended }
  where
    ended : (bytes : Bytes) → length bytes ≤ k → Below (length bytes) (unexpected {A = A} bytes)
    ended [] le = unfold unexpected in tt
    ended (byte ∷ rest) le =
        unfold unexpected in
        if-Below (suc (length rest)) (leb 0x80 byte) _ (raised malformed_json)
          (bind-Below (suc (length rest)) (suc (length rest))
            (consume_utf8_code_point (byte ∷ rest)) (λ a. raise malformed_json)
            ((consume_utf8_code_point-Eats {k = k}).run (byte ∷ rest) le) (λ a after lt. tt))
          tt

hex_digits-Shrinks : {k : ℕ} (rounds value : ℕ) → Shrinks k (hex_digits rounds value)
unfolding hex_digits
hex_digits-Shrinks zero value = pure-Shrinks
hex_digits-Shrinks {k} (suc rounds) value =
    then-Shrinks (Eats-Shrinks (need_byte-Eats malformed_json))
      (λ byte. judged (hex_nibble byte) (λ next. hex_digits-Shrinks rounds next))
  where
    judged :
        (nibble : Option ℕ)
        → ((next : ℕ) → Shrinks k (hex_digits rounds next))
        → Shrinks {A = ℕ} k (elim nibble as (λ n. Reader ℕ) [
          | none ↦ raise malformed_json
          | some n ↦ hex_digits rounds (value * 16 + n)
        ])
    judged none h = Eats-Shrinks raise-Eats
    judged (some n) h = h (value * 16 + n)

escaped_unit-Shrinks : {k : ℕ} (marker : ℕ) → Shrinks k (escaped_unit marker)
unfolding escaped_unit parse_hex_code_unit
escaped_unit-Shrinks marker = search (endings, hex_digits-Shrinks) depth 14

parse_escape-Eats : {k : ℕ} → Eats k parse_escape
unfolding parse_escape
parse_escape-Eats =
    eats_then consume_byte-Eats
      (λ _ byte. then-Shrinks (Eats-Shrinks (need_byte-Eats malformed_json)) escaped_unit-Shrinks)

parse_units-Below :
    (fuel : ℕ) (result : Text) (bytes : Bytes)
    → length bytes < fuel
    → Below (suc (length bytes)) (parse_units fuel result bytes)
unfolding parse_units
parse_units-Below zero result bytes h = absurd (omega arith)
parse_units-Below (suc fuel) result [] h = tt
parse_units-Below (suc fuel) result (byte ∷ rest) h =
    let n = suc (suc (length rest)) in
    if-Below n (byte == 0x22) (ok (result, rest)) _ (omega arith) (
      if-Below n (byte == 0x5c) _ _
        (bind-Below (suc (length rest)) n (parse_escape (byte ∷ rest))
          (λ unit after. parse_units fuel (result ++ unit ∷ []) after)
          ((parse_escape-Eats {k = suc (length rest)}).run (byte ∷ rest) (omega arith))
          (λ unit after lt.
            weaken-Below (suc (length after)) n (parse_units fuel (result ++ unit ∷ []) after)
              (omega arith) (parse_units-Below fuel (result ++ unit ∷ []) after (omega arith))))
        (if-Below n (ltb byte 0x20) (raised malformed_json) _ tt (
          if-Below n (ltb byte 0x80) _ _
            (weaken-Below (suc (length rest)) n (parse_units fuel (result ++ byte ∷ []) rest)
              (omega arith) (parse_units-Below fuel (result ++ byte ∷ []) rest (omega arith)))
            (bind-Below (suc (length rest)) n (consume_utf8_code_point (byte ∷ rest))
              (λ point after. parse_units fuel (result ++ from_code_point point) after)
              ((consume_utf8_code_point-Eats {k = suc (length rest)}).run (byte ∷ rest)
                (omega arith))
              (λ point after lt.
                weaken-Below (suc (length after)) n
                  (parse_units fuel (result ++ from_code_point point) after) (omega arith)
                  (parse_units-Below fuel (result ++ from_code_point point) after
                    (omega arith)))))))

parse_string-Eats : {k : ℕ} → Eats k parse_string
unfolding parse_string
parse_string-Eats = eats_then consume_byte-Eats (λ _ byte. record {
  run = λ bytes le. parse_units-Below (suc (length bytes)) [] bytes (omega arith);
})
