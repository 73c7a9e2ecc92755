-- ===== src/WireJson/StringSound.antt =====
-- The code units that `parseString` of src/serialization/wire_json.ts returns.
use ghc_gateway.Base.{
  ℕ, zero, suc, ◌+◌, ◌-◌, ◌*◌, ◌/◌, ◌%◌, ◌<◌, ◌≡◌, refl, Bool, true, false, ◌||◌, Option, none,
  some, [], ◌∷◌, ◌++◌, Text, length, ltb, ◌==◌, All, if-cases, if◌then◌else◌, arith,
}
use ghc_gateway.WireJson.Outcome.{
  Outcome, ok, raised, out_of_fuel, bind, Bytes, Reader, pure, raise, ◌>>=◌, WireJsonErrorCode,
  malformed_json, invalid_utf8,
}
use ghc_gateway.WireJson.Utf8.{
  need_byte, consume_byte, need_continuation, two_bytes, three_bytes, four_bytes, is_surrogate,
  consume_utf8_code_point,
}
use ghc_gateway.WireJson.Strings.{
  hex_nibble, hex_digits, parse_hex_code_unit, escaped_unit, parse_escape, from_code_point,
  parse_units, parse_string,
}
use ghc_gateway.WireJson.StringTrip.{IsUnit}
use ghc_gateway.WireJson.NumberSound.{Returns}

-- `P` holds of whatever the reader returns.
pub record Yields {A : Type 0} (P : A → Type 0) (m : Reader A) : Type 0 where
  pub run : (bytes : Bytes) → Returns P (m bytes)

abbrev pub Anything : {A : Type 0} → A → Type 0
Anything a = Unit {0}

pub bind-Returns :
    {A B : Type 0} (P : A → Type 0) (Q : B → Type 0) (o : Outcome (A × Bytes)) (f : A → Reader B)
    → Returns P o
    → ((a : A) → P a → Yields Q (f a))
    → Returns Q (bind o (λ (a, rest). f a rest))
bind-Returns P Q (ok (a, rest)) f h k = (k a h).run rest
bind-Returns P Q (raised code) f h k = tt
bind-Returns P Q out_of_fuel f h k = tt

pub then-Yields :
    {A B : Type 0} {P : A → Type 0} {Q : B → Type 0} {m : Reader A} {f : A → Reader B}
    → Yields P m
    → ((a : A) → P a → Yields Q (f a))
    → Yields Q (m >>= f)
then-Yields {P = P} {Q} {m} {f} h k = record {
  run = λ bytes. bind-Returns P Q (m bytes) f (h.run bytes) k;
}

Anything-Returns : {A : Type 0} (o : Outcome (A × Bytes)) → Returns Anything o
Anything-Returns (ok (a, rest)) = tt
Anything-Returns (raised code) = tt
Anything-Returns out_of_fuel = tt

-- Nothing is asked of what the first reader returns.
pub skip-Yields :
    {A B : Type 0} {Q : B → Type 0} (m : Reader A) {f : A → Reader B}
    → ((a : A) → Yields Q (f a))
    → Yields Q (m >>= f)
skip-Yields m k = then-Yields (record { run = λ bytes. Anything-Returns (m bytes) }) (λ a _. k a)

pub pure-Yields : {A : Type 0} {P : A → Type 0} (a : A) → P a → Yields P (pure a)
pure-Yields a h = record { run = λ bytes. h }

pub raise-Yields : {A : Type 0} {P : A → Type 0} (code : WireJsonErrorCode) → Yields P (raise code)
raise-Yields code = record { run = λ bytes. tt }

pub if-Yields :
    {A : Type 0} {P : A → Type 0} (b : Bool) {m n : Reader A}
    → (b ≡ true → Yields P m)
    → (b ≡ false → Yields P n)
    → Yields P (if b then m else n)
if-Yields {P = P} b {m} {n} h k = if-cases (Yields P) b m n h k

abbrev IsPoint : ℕ → Type 0
IsPoint point = point < 0x110000

from_code_point-IsUnit : (point : ℕ) → IsPoint point → All IsUnit (from_code_point point)
unfolding from_code_point
from_code_point-IsUnit point h =
    if-cases (All IsUnit) (ltb point 0x10000) (point ∷ [])
      ((0xd800 + (point - 0x10000) / 1024) ∷ (0xdc00 + (point - 0x10000) % 1024) ∷ [])
      (λ small. (ground arith, tt)) (λ large. (omega arith, (omega arith, tt)))

two_bytes-Yields : (b0 : ℕ) → Yields IsPoint (two_bytes b0)
unfolding two_bytes
two_bytes-Yields b0 = skip-Yields need_continuation λ b1.
    if-Yields (ltb (b0 % 32 * 64 + b1 % 64) 0x80) (λ _. raise-Yields invalid_utf8)
      (λ _. pure-Yields (b0 % 32 * 64 + b1 % 64) (omega arith))

three_bytes-Yields : (b0 : ℕ) → Yields IsPoint (three_bytes b0)
unfolding three_bytes
three_bytes-Yields b0 = skip-Yields need_continuation λ b1. skip-Yields need_continuation λ b2.
    let point = b0 % 16 * 4096 + b1 % 64 * 64 + b2 % 64 in
    if-Yields (ltb point 0x800 || is_surrogate point) (λ _. raise-Yields invalid_utf8)
      (λ _. pure-Yields point (omega arith))

four_bytes-Yields : (b0 : ℕ) → Yields IsPoint (four_bytes b0)
unfolding four_bytes
four_bytes-Yields b0 = skip-Yields need_continuation λ b1. skip-Yields need_continuation λ b2.
    skip-Yields need_continuation λ b3.
      let point = b0 % 8 * 262144 + b1 % 64 * 4096 + b2 % 64 * 64 + b3 % 64 in
      if-Yields (ltb point 0x10000 || ltb 0x10ffff point) (λ _. raise-Yields invalid_utf8)
        (λ within. pure-Yields point (in_range point within))
  where
    in_range : (point : ℕ) → (ltb point 0x10000 || ltb 0x10ffff point) ≡ false → IsPoint point
    in_range point within = ground arith

code-IsPoint-Yields : Yields IsPoint consume_utf8_code_point
unfolding consume_utf8_code_point
code-IsPoint-Yields = skip-Yields (need_byte invalid_utf8) λ b0.
    if-Yields (ltb b0 0x80) (λ ascii. pure-Yields b0 (ground arith))
      λ _.
        if-Yields (ltb b0 0xc2 || ltb 0xf4 b0) (λ _. raise-Yields invalid_utf8)
          λ _.
            if-Yields (ltb b0 0xe0) (λ _. two_bytes-Yields b0)
              λ _. if-Yields (ltb b0 0xf0) (λ _. three_bytes-Yields b0) (λ _. four_bytes-Yields b0)

hex_nibble-small : (byte nibble : ℕ) → hex_nibble byte ≡ some nibble → nibble < 16
unfolding hex_nibble
hex_nibble-small byte nibble h = ground arith

-- What a value below the bound can grow to in so many digits.
abbrev grown : ℕ → ℕ → ℕ
grown zero bound = bound
grown (suc rounds) bound = grown rounds (bound * 16)

hex_digits-Yields :
    (rounds value bound : ℕ)
    → value < bound
    → Yields (λ unit. unit < grown rounds bound) (hex_digits rounds value)
unfolding hex_digits
hex_digits-Yields zero value bound h = pure-Yields value h
hex_digits-Yields (suc rounds) value bound h = skip-Yields (need_byte malformed_json) λ byte.
    next byte
      (λ nibble small. hex_digits-Yields rounds (value * 16 + nibble) (bound * 16) (omega arith))
      (hex_nibble byte) refl
  where
    next :
        (byte : ℕ)
        → ((nibble : ℕ)
            → nibble < 16
            → Yields
                (λ unit. unit < grown rounds (bound * 16))
                (hex_digits rounds (value * 16 + nibble)))
        → (o : Option ℕ) → hex_nibble byte ≡ o
        → Yields
            (λ unit. unit < grown rounds (bound * 16))
            (elim o [
              | none ↦ raise malformed_json
              | some nibble ↦ hex_digits rounds (value * 16 + nibble)
            ])
    next byte k none e = raise-Yields malformed_json
    next byte k (some nibble) e = k nibble (hex_nibble-small byte nibble e)

escaped_unit-Yields : (marker : ℕ) → Yields IsUnit (escaped_unit marker)
unfolding escaped_unit parse_hex_code_unit
escaped_unit-Yields marker =
    if-Yields (marker == 0x22) (λ _. pure-Yields 0x22 (omega arith))
      λ _.
        if-Yields (marker == 0x5c) (λ _. pure-Yields 0x5c (omega arith))
          λ _.
            if-Yields (marker == 0x2f) (λ _. pure-Yields 0x2f (omega arith))
              λ _.
                if-Yields (marker == 0x62) (λ _. pure-Yields 0x08 (omega arith))
                  λ _.
                    if-Yields (marker == 0x66) (λ _. pure-Yields 0x0c (omega arith))
                      λ _.
                        if-Yields (marker == 0x6e) (λ _. pure-Yields 0x0a (omega arith))
                          λ _.
                            if-Yields (marker == 0x72) (λ _. pure-Yields 0x0d (omega arith))
                              λ _.
                                if-Yields (marker == 0x74) (λ _. pure-Yields 0x09 (omega arith))
                                  λ _.
                                    if-Yields (marker == 0x75)
                                      (λ _. hex_digits-Yields 4 0 1 (omega arith))
                                      (λ _. raise-Yields malformed_json)

parse_escape-Yields : Yields IsUnit parse_escape
unfolding parse_escape
parse_escape-Yields =
    skip-Yields consume_byte (λ _. skip-Yields (need_byte malformed_json) escaped_unit-Yields)

All-append : (s t : Text) → All IsUnit s → All IsUnit t → All IsUnit (s ++ t)
All-append [] t h g = g
All-append (unit ∷ s) t h g = (h.0, All-append s t h.1 g)

parse_units-Returns :
    (fuel : ℕ) (result : Text) (bytes : Bytes)
    → All IsUnit result
    → Returns (All IsUnit) (parse_units fuel result bytes)
unfolding parse_units
parse_units-Returns zero result bytes h = tt
parse_units-Returns (suc fuel) result [] h = tt
parse_units-Returns (suc fuel) result (byte ∷ rest) h =
    if-cases (Returns (All IsUnit)) (byte == 0x22) (ok (result, rest)) _ (λ _. h)
      λ _.
        if-cases (Returns (All IsUnit)) (byte == 0x5c) _ _
          (λ _.
            bind-Returns IsUnit (All IsUnit) (parse_escape (byte ∷ rest))
              (λ unit. parse_units fuel (result ++ unit ∷ []))
              (parse_escape-Yields.run (byte ∷ rest))
              (λ unit u. record {
                run = λ after.
                    parse_units-Returns fuel (result ++ unit ∷ []) after
                      (All-append result (unit ∷ []) h (u, tt));
              }))
          λ _.
            if-cases (Returns (All IsUnit)) (ltb byte 0x20) (raised malformed_json) _ (λ _. tt)
              λ _.
                if-cases (Returns (All IsUnit)) (ltb byte 0x80)
                  (parse_units fuel (result ++ byte ∷ []) rest) _
                  (λ ascii.
                    parse_units-Returns fuel (result ++ byte ∷ []) rest
                      (All-append result (byte ∷ []) h (ground arith, tt)))
                  λ _.
                    bind-Returns IsPoint (All IsUnit) (consume_utf8_code_point (byte ∷ rest))
                      (λ point. parse_units fuel (result ++ from_code_point point))
                      (code-IsPoint-Yields.run (byte ∷ rest))
                      (λ point p. record {
                        run = λ after.
                            parse_units-Returns fuel (result ++ from_code_point point) after (
                              All-append result (from_code_point point) h
                                (from_code_point-IsUnit point p));
                      })

pub parse_string-Yields : Yields (All IsUnit) parse_string
unfolding parse_string
parse_string-Yields =
    skip-Yields consume_byte
      λ _. record { run = λ bytes. parse_units-Returns (suc (length bytes)) [] bytes tt }
