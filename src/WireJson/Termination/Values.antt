-- ===== src/WireJson/Termination/Values.antt =====
-- The fuel of `parseValue` and its loops in src/serialization/wire_json.ts.
use ghc_gateway.Base.{
  ℕ, zero, suc, ◌+◌, ◌*◌, ◌-◌, ◌≤◌, ◌<◌, ◌≡◌, ◌⊎◌, refl, Bool, true, false, ◌||◌, ◌&&◌, inl, inr,
  [], ◌∷◌, Text, text, length, ltb, leb, ◌==◌, if◌then◌else◌, arith,
}
use ghc_gateway.WireJson.Syntax.{
  WireJson, Items, Members, null, boolean, string, number, no_items, item, no_members, member,
}
use ghc_gateway.WireJson.Outcome.{
  Outcome, ok, raised, out_of_fuel, bind, Bytes, Reader, pure, ◌>>=◌, ◌>>◌, WireJsonErrorCode,
  malformed_json, depth_limit, byte_limit,
}
use ghc_gateway.WireJson.Utf8.{consume_byte, unexpected, peeks}
use ghc_gateway.WireJson.Numbers.{
  is_digit, count_digits, consume_digits, need_digits, skip_byte, scan_integer, scan_fraction,
  scan_sign, scan_exponent, scan_number, parse_number, ascii_slice,
}
use ghc_gateway.WireJson.Parser.{
  WireJsonParseLimits, skip_whitespace, is_space, expect_ascii, parse_array, parse_object,
  parse_token, parse_value, parse_items, parse_members, finish_document, parse_document,
  parse_wire_json,
}
use ghc_gateway.WireJson.Termination.{
  Below, Shrinks, Eats, bind-Below, weaken-Below, if-Below, Eats-Shrinks, pure-Shrinks, raise-Eats,
  eats_then, then_eats, then-Shrinks, if-Shrinks, peek-Shrinks, consume_byte-Eats,
  parse_string-Eats, unexpected-Eats,
}

count_digits-le : (count : ℕ) (bytes : Bytes) → length (count_digits count bytes).1 ≤ length bytes
unfolding count_digits
count_digits-le count [] = omega arith
count_digits-le count (byte ∷ rest) = ground (arith, count_digits-le (count + 1) rest)

consume_digits-Shrinks : {k : ℕ} → Shrinks k consume_digits
unfolding consume_digits
consume_digits-Shrinks = record { run = λ bytes le. omega (arith, count_digits-le 0 bytes) }

need_digits-Shrinks : {k : ℕ} → Shrinks k need_digits
unfolding need_digits
need_digits-Shrinks =
    then-Shrinks consume_digits-Shrinks
      (λ found. if-Shrinks found pure-Shrinks (Eats-Shrinks (raise-Eats {code = malformed_json})))

skip_byte-Shrinks : {k : ℕ} (wanted : ℕ) → Shrinks k (skip_byte wanted)
skip_byte-Shrinks {k} wanted = record { run = ended }
  where
    ended : (bytes : Bytes) → length bytes ≤ k → Below (suc (length bytes)) (skip_byte wanted bytes)
    ended [] le = unfold skip_byte in omega arith
    ended (byte ∷ rest) le =
        unfold skip_byte in
        if-Below (suc (suc (length rest))) (byte == wanted) (ok (tt, rest)) (ok (tt, byte ∷ rest))
          (omega arith) (omega arith)

-- A branch on the first byte, of which the rest is read by `m`.
after_byte :
    (test : Bool) (byte : ℕ) (rest : Bytes) (m : Reader (Unit {0})) (o : Outcome (Unit {0} × Bytes))
    → Shrinks (length rest) m
    → Below (suc (suc (length rest))) o
    → Below (suc (suc (length rest))) (if test then m rest else o)
after_byte test byte rest m o h g =
    if-Below (suc (suc (length rest))) test (m rest) o
      (weaken-Below (suc (length rest)) (suc (suc (length rest))) (m rest) (omega arith)
        (h.run rest (omega arith)))
      g

scan_integer-Eats : {k : ℕ} → Eats k scan_integer
unfolding scan_integer
scan_integer-Eats {k} = record { run = ended }
  where
    ended : (bytes : Bytes) → length bytes ≤ k → Below (length bytes) (scan_integer bytes)
    ended [] le = tt
    ended (first ∷ rest) le =
        if-Below (suc (length rest)) (first == 0x30) (ok (tt, rest)) _ (omega arith) (
          if-Below (suc (length rest)) (leb 0x31 first && leb first 0x39) _ (raised malformed_json)
            (bind-Below (suc (length rest)) (suc (length rest)) (consume_digits rest)
              (λ found after. ok (tt, after))
              ((consume_digits-Shrinks {k = length rest}).run rest (omega arith))
              (λ found after lt. lt))
            tt)

scan_fraction-Shrinks : {k : ℕ} → Shrinks k scan_fraction
scan_fraction-Shrinks {k} = record { run = ended }
  where
    ended : (bytes : Bytes) → length bytes ≤ k → Below (suc (length bytes)) (scan_fraction bytes)
    ended [] le = unfold scan_fraction in omega arith
    ended (byte ∷ rest) le =
        unfold scan_fraction in
        after_byte (byte == 0x2e) byte rest need_digits (ok (tt, byte ∷ rest)) need_digits-Shrinks
          (omega arith)

scan_sign-Shrinks : {k : ℕ} → Shrinks k scan_sign
scan_sign-Shrinks {k} = record { run = ended }
  where
    ended : (bytes : Bytes) → length bytes ≤ k → Below (suc (length bytes)) (scan_sign bytes)
    ended [] le = unfold scan_sign in omega arith
    ended (byte ∷ rest) le =
        unfold scan_sign in
        after_byte (byte == 0x2b || byte == 0x2d) byte rest (pure tt) (ok (tt, byte ∷ rest))
          pure-Shrinks (omega arith)

scan_exponent-Shrinks : {k : ℕ} → Shrinks k scan_exponent
scan_exponent-Shrinks {k} = record { run = ended }
  where
    ended : (bytes : Bytes) → length bytes ≤ k → Below (suc (length bytes)) (scan_exponent bytes)
    ended [] le = unfold scan_exponent in omega arith
    ended (byte ∷ rest) le =
        unfold scan_exponent in
        after_byte (byte == 0x65 || byte == 0x45) byte rest (scan_sign >> need_digits)
          (ok (tt, byte ∷ rest)) (then-Shrinks scan_sign-Shrinks (λ _. need_digits-Shrinks))
          (omega arith)

scan_number-Eats : {k : ℕ} → Eats k scan_number
unfolding scan_number
scan_number-Eats = then_eats (skip_byte-Shrinks 0x2d) λ _.
    eats_then scan_integer-Eats
      (λ _ _. then-Shrinks scan_fraction-Shrinks (λ _. scan_exponent-Shrinks))

parse_number-Eats : {k : ℕ} → Eats k parse_number
unfolding parse_number
parse_number-Eats {k} = record {
  run = λ bytes le.
      bind-Below (length bytes) (length bytes) (scan_number bytes)
        (λ found rest. ok (ascii_slice bytes rest, rest)) ((scan_number-Eats {k = k}).run bytes le)
        (λ found rest lt. lt);
}

skip_whitespace-Below : (bytes : Bytes) → Below (suc (length bytes)) (skip_whitespace bytes)
unfolding skip_whitespace
skip_whitespace-Below [] = omega arith
skip_whitespace-Below (byte ∷ rest) =
    if-Below (suc (suc (length rest))) (is_space byte) (skip_whitespace rest) (ok (tt, byte ∷ rest))
      (weaken-Below (suc (length rest)) (suc (suc (length rest))) (skip_whitespace rest)
        (omega arith) (skip_whitespace-Below rest))
      (omega arith)

skip_whitespace-Shrinks : {k : ℕ} → Shrinks k skip_whitespace
skip_whitespace-Shrinks = record { run = λ bytes le. skip_whitespace-Below bytes }

expect_ascii-Shrinks : {k : ℕ} (expected : Text) → Shrinks k (expect_ascii expected)
unfolding expect_ascii
expect_ascii-Shrinks [] = pure-Shrinks
expect_ascii-Shrinks {k} (c ∷ more) = record {
  run = ended (λ j. expect_ascii-Shrinks {k = j} more);
}
  where
    ended :
        ((j : ℕ) → Shrinks j (expect_ascii more))
        → (bytes : Bytes) → length bytes ≤ k
        → Below (suc (length bytes)) (expect_ascii (c ∷ more) bytes)
    ended h [] le = tt
    ended h (actual ∷ rest) le =
        if-Below (suc (suc (length rest))) (actual == c) (expect_ascii more rest)
          (unexpected (actual ∷ rest))
          (weaken-Below (suc (length rest)) (suc (suc (length rest))) (expect_ascii more rest)
            (omega arith) ((h (length rest)).run rest (omega arith)))
          (weaken-Below (suc (length rest)) (suc (suc (length rest))) (unexpected (actual ∷ rest))
            (omega arith) ((unexpected-Eats {k = k}).run (actual ∷ rest) le))

-- Where the loops come to an end below the depth of the value, so does `parseValue` at a byte.
parse_array-Eats :
    {k : ℕ} {items : Reader Items} → (0 < k → Shrinks (k - 1) items) → Eats k (parse_array items)
unfolding parse_array
parse_array-Eats h = eats_then consume_byte-Eats λ pos _. then-Shrinks skip_whitespace-Shrinks λ _.
    peek-Shrinks (peeks 0x5d) (then-Shrinks (Eats-Shrinks consume_byte-Eats) (λ _. pure-Shrinks))
      (then-Shrinks (h pos) (λ found. pure-Shrinks))

parse_object-Eats :
    {k : ℕ} {members : Reader Members}
    → (0 < k → Shrinks (k - 1) members)
    → Eats k (parse_object members)
unfolding parse_object
parse_object-Eats h = eats_then consume_byte-Eats λ pos _. then-Shrinks skip_whitespace-Shrinks λ _.
    peek-Shrinks (peeks 0x7d) (then-Shrinks (Eats-Shrinks consume_byte-Eats) (λ _. pure-Shrinks))
      (then-Shrinks (h pos) (λ found. pure-Shrinks))

-- A literal of the source, which is not empty, is matched byte by byte.
expect_ascii-Eats : {k : ℕ} (c : ℕ) (more : Text) → Eats k (expect_ascii (c ∷ more))
unfolding expect_ascii
expect_ascii-Eats {k} c more = record { run = ended }
  where
    ended :
        (bytes : Bytes) → length bytes ≤ k → Below (length bytes) (expect_ascii (c ∷ more) bytes)
    ended [] le = tt
    ended (actual ∷ rest) le =
        if-Below (suc (length rest)) (actual == c) (expect_ascii more rest)
          (unexpected (actual ∷ rest))
          ((expect_ascii-Shrinks {k = length rest} more).run rest (omega arith))
          ((unexpected-Eats {k = k}).run (actual ∷ rest) le)

eats_pure :
    {A B : Type 0} {k : ℕ} {m : Reader A} (f : A → B) → Eats k m → Eats k (m >>= λ a. pure (f a))
eats_pure f h = eats_then h (λ _ a. pure-Shrinks)

literal : {k : ℕ} (value : WireJson) {m : Reader (Unit {0})} → Eats k m → Eats k (m >> pure value)
literal value h = eats_then h (λ _ _. pure-Shrinks)

parse_token-Eats :
    {k : ℕ} (max_depth depth : ℕ) {items : Reader Items} {members : Reader Members}
    → (0 < k → Shrinks (k - 1) items)
    → (0 < k → Shrinks (k - 1) members)
    → Eats k (parse_token max_depth depth items members)
unfolding parse_token
parse_token-Eats {k} max_depth depth {items} {members} hi hm = record { run = ended }
  where
    ended :
        (bytes : Bytes)
        → length bytes ≤ k
        → Below (length bytes) (parse_token max_depth depth items members bytes)
    ended [] le = tt
    ended (byte ∷ rest) le =
        let n : ℕ = suc (length rest) in
        let here : Bytes = byte ∷ rest in
        if-Below n (byte == 0x7b || byte == 0x5b) _ _
          (if-Below n (ltb max_depth depth) (raised depth_limit) _ tt (
            if-Below n (byte == 0x7b) (parse_object members here) (parse_array items here)
              ((parse_object-Eats hm).run here le) ((parse_array-Eats hi).run here le)))
          (if-Below n (byte == 0x22) _ _ ((eats_pure {k = k} string parse_string-Eats).run here le)
            (if-Below n (byte == 0x74) _ _
              ((literal {k = k} (boolean true) (expect_ascii-Eats 0x74 (text "rue"))).run here le)
              (if-Below n (byte == 0x66) _ _
                ((literal {k = k} (boolean false) (expect_ascii-Eats 0x66 (text "alse"))).run here
                  le)
                (if-Below n (byte == 0x6e) _ _
                  ((literal {k = k} null (expect_ascii-Eats 0x6e (text "ull"))).run here le)
                  (if-Below n (byte == 0x2d || is_digit byte) _ _
                    ((eats_pure {k = k} number parse_number-Eats).run here le)
                    ((unexpected-Eats {k = k}).run here le))))))

-- What follows a value in a list: the comma and the rest, or the bracket.
closing-Shrinks :
    {A : Type 0} {k : ℕ} (comma bracket : ℕ) {m : Reader A} (last : A)
    → (0 < k → Shrinks (k - 1) m)
    → Shrinks k (λ after.
      if peeks comma after
      then (consume_byte >> m) after
      else if peeks bracket after
      then (consume_byte >> pure last) after
      else unexpected after)
closing-Shrinks comma bracket last h =
    peek-Shrinks (peeks comma) (Eats-Shrinks (eats_then consume_byte-Eats (λ pos _. h pos))) (
      peek-Shrinks (peeks bracket)
        (Eats-Shrinks (eats_then consume_byte-Eats (λ _ _. pure-Shrinks)))
        (Eats-Shrinks unexpected-Eats))

peek-Eats :
    {A : Type 0} {k : ℕ} (test : Bytes → Bool) {m n : Reader A}
    → Eats k m
    → Eats k n
    → Eats k (λ bytes. if test bytes then m bytes else n bytes)
peek-Eats test {m} {n} h g = record {
  run = λ bytes le.
      if-Below (length bytes) (test bytes) (m bytes) (n bytes) (h.run bytes le) (g.run bytes le);
}

mutual
  unfolding parse_value parse_items parse_members

  -- A value needs twice the bytes that it is given, and a list of values a unit more.
  parse_value-Eats :
      (fuel k max_depth depth : ℕ) → 2 * k < fuel → Eats k (parse_value fuel max_depth depth)
  parse_value-Eats zero k max_depth depth h = absurd (omega arith)
  parse_value-Eats (suc fuel) k max_depth depth h = then_eats skip_whitespace-Shrinks λ _.
      parse_token-Eats max_depth depth
        (λ pos. Eats-Shrinks (parse_items-Eats fuel (k - 1) max_depth depth (omega arith)))
        (λ pos. Eats-Shrinks (parse_members-Eats fuel (k - 1) max_depth depth (omega arith)))

  parse_items-Eats :
      (fuel k max_depth depth : ℕ) → 2 * k + 1 < fuel → Eats k (parse_items fuel max_depth depth)
  parse_items-Eats zero k max_depth depth h = absurd (omega arith)
  parse_items-Eats (suc fuel) k max_depth depth h =
      eats_then (parse_value-Eats fuel k max_depth (depth + 1) (omega arith)) λ pos value.
        then-Shrinks skip_whitespace-Shrinks λ _.
          closing-Shrinks 0x2c 0x5d (item value no_items) (λ more.
            then-Shrinks
              (Eats-Shrinks (parse_items-Eats fuel (k - 1 - 1) max_depth depth (omega arith)))
              (λ found. pure-Shrinks))

  parse_members-Eats :
      (fuel k max_depth depth : ℕ) → 2 * k + 1 < fuel → Eats k (parse_members fuel max_depth depth)
  parse_members-Eats zero k max_depth depth h = absurd (omega arith)
  parse_members-Eats (suc fuel) k max_depth depth h = then_eats skip_whitespace-Shrinks λ _.
      peek-Eats (peeks 0x22)
        (eats_then parse_string-Eats λ pos key. then-Shrinks skip_whitespace-Shrinks λ _.
          peek-Shrinks (peeks 0x3a)
            (Eats-Shrinks (
              eats_then consume_byte-Eats λ colon _.
                then-Shrinks
                  (Eats-Shrinks
                    (parse_value-Eats fuel (k - 1 - 1) max_depth (depth + 1) (omega arith)))
                  λ value. then-Shrinks skip_whitespace-Shrinks λ _.
                    closing-Shrinks 0x2c 0x7d (member key value no_members) λ more.
                      then-Shrinks
                        (Eats-Shrinks
                          (parse_members-Eats fuel (k - 1 - 1 - 1) max_depth depth (omega arith)))
                        (λ found. pure-Shrinks)))
            (Eats-Shrinks unexpected-Eats))
        unexpected-Eats

-- An outcome that is a value or an error of the parser.
abbrev Ended : {A : Type 0} → Outcome A → Type 0
Ended (ok a) = Unit {0}
Ended (raised code) = Unit {0}
Ended out_of_fuel = ⊥

bind-Ended :
    {A B : Type 0} (n : ℕ) (o : Outcome (A × Bytes)) (f : A → Bytes → Outcome B)
    → Below n o
    → ((a : A) (rest : Bytes) → Ended (f a rest))
    → Ended (bind o (λ (a, rest). f a rest))
bind-Ended n (ok (a, rest)) f h g = g a rest
bind-Ended n (raised code) f h g = tt
bind-Ended n out_of_fuel f h g = h

finish_document-Ended : (value : WireJson) (bytes : Bytes) → Ended (finish_document value bytes)
unfolding finish_document
finish_document-Ended value [] = tt
finish_document-Ended value (byte ∷ rest) =
    bind-Ended (suc (length rest)) (unexpected {A = WireJson} (byte ∷ rest))
      (λ never after. ok never)
      ((unexpected-Eats {k = suc (length rest)}).run (byte ∷ rest) (omega arith))
      (λ never after. tt)

parse_document-Ended : (max_depth : ℕ) (bytes : Bytes) → Ended (parse_document max_depth bytes)
unfolding parse_document
parse_document-Ended max_depth bytes =
    bind-Ended (suc (length bytes)) _ finish_document
      ((then-Shrinks {k = length bytes} skip_whitespace-Shrinks (λ _.
          then-Shrinks
            (Eats-Shrinks
              (parse_value-Eats (suc (2 * length bytes)) (length bytes) max_depth 1 (omega arith)))
            (λ value. then-Shrinks skip_whitespace-Shrinks (λ _. pure-Shrinks)))).run
        bytes (omega arith))
      finish_document-Ended

Ended-cases :
    {A : Type 0} (o : Outcome A)
    → Ended o
    → ((a : A) × (o ≡ ok a)) ⊎ ((code : WireJsonErrorCode) × (o ≡ raised code))
Ended-cases (ok a) h = inl (a, refl)
Ended-cases (raised code) h = inr (code, refl)
Ended-cases out_of_fuel h = absurd h

-- The parser comes to an end on every input and under any limits: it returns a value, or it raises
-- an error.
pub parse_wire_json-terminates :
    (bytes : Bytes) (limits : WireJsonParseLimits)
    → ((value : WireJson) × (parse_wire_json bytes limits ≡ ok value))
      ⊎ ((code : WireJsonErrorCode) × (parse_wire_json bytes limits ≡ raised code))
unfolding parse_wire_json
parse_wire_json-terminates bytes limits = Ended-cases _ ended
  where
    limited :
        (over : Bool)
        → Ended (if over then raised byte_limit else parse_document limits.max_depth bytes)
    limited true = tt
    limited false = parse_document-Ended limits.max_depth bytes

    ended : Ended (
        if ltb limits.max_bytes (length bytes)
        then raised byte_limit
        else parse_document limits.max_depth bytes)
    ended = limited (ltb limits.max_bytes (length bytes))
