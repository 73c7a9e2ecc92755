-- ===== src/WireJson/NumberSound.antt =====
-- What `parseNumber` of src/serialization/wire_json.ts slices out of its input.
use ghc_gateway.Base.{
  ℕ, ◌+◌, ◌≡◌, refl, sym, ap, ◌∙◌, subst, ◌⊎◌, inl, inr, true, false, ◌&&◌, ◌||◌, [], ◌∷◌, ◌++◌,
  append_assoc, Text, length, ltb, leb, ◌==◌, All, if-cases, if◌then◌else◌, arith,
}
use ghc_gateway.WireJson.Outcome.{
  Outcome, ok, raised, out_of_fuel, bind, Bytes, Reader, pure, raise, malformed_json,
}
use ghc_gateway.WireJson.Numbers.{
  is_digit, count_digits, consume_digits, need_digits, skip_byte, scan_integer, scan_fraction,
  scan_sign, scan_exponent, scan_number, ascii_slice, parse_number, Place, before, minus,
  leading_zero, integer, point, fraction, exponent, signed, exponent_digits, at_start, at_tail,
  advance, accepting, matches_from, is_number_lexeme,
}
use ghc_gateway.WireJson.NumberTrip.{slice_whole}

-- The place where a match stands after a text.
abbrev arrive : Place → Text → Place
arrive place [] = place
arrive place (c ∷ l) = arrive (advance place c) l

arrive-append : (place : Place) (l m : Text) → arrive place (l ++ m) ≡ arrive (arrive place l) m
arrive-append place [] m = refl
arrive-append place (c ∷ l) m = arrive-append (advance place c) l m

matches-arrive : (place : Place) (l : Text) → matches_from place l ≡ accepting (arrive place l)
unfolding matches_from
matches-arrive place [] = refl
matches-arrive place (c ∷ l) = matches-arrive (advance place c) l

-- If the reader returned, what it consumed leads from the place to one where `Q` holds.
abbrev Leads : {A : Type 0} → (Place → Type 0) → Place → Bytes → Outcome (A × Bytes) → Type 0
Leads Q place bytes (ok (a, rest)) = (used : Text) × (bytes ≡ used ++ rest) × Q (arrive place used)
Leads Q place bytes (raised code) = Unit {0}
Leads Q place bytes out_of_fuel = Unit {0}

after-Leads :
    {B : Type 0} (Q : Place → Type 0) (place : Place) (bytes used rest : Bytes)
    (o : Outcome (B × Bytes))
    → bytes ≡ used ++ rest
    → Leads Q (arrive place used) rest o
    → Leads Q place bytes o
after-Leads Q place bytes used rest (ok (b, more)) split (later, after, g) = (
  used ++ later,
  split ∙ ap (λ t. used ++ t) after ∙ sym (append_assoc used later more),
  subst Q (sym (arrive-append place used later)) g,
)
after-Leads Q place bytes used rest (raised code) split g = tt
after-Leads Q place bytes used rest out_of_fuel split g = tt

weaken-Leads :
    {A : Type 0} (P Q : Place → Type 0) (place : Place) (bytes : Bytes) (o : Outcome (A × Bytes))
    → ((q : Place) → P q → Q q)
    → Leads P place bytes o
    → Leads Q place bytes o
weaken-Leads P Q place bytes (ok (a, rest)) k (used, split, h) =
    (used, split, k (arrive place used) h)
weaken-Leads P Q place bytes (raised code) k h = tt
weaken-Leads P Q place bytes out_of_fuel k h = tt

bind-Leads :
    {A B : Type 0} (P Q : Place → Type 0) (place : Place) (bytes : Bytes) (o : Outcome (A × Bytes))
    (f : A → Reader B)
    → Leads P place bytes o
    → ((a : A) (rest : Bytes) (next : Place) → P next → Leads Q next rest (f a rest))
    → Leads Q place bytes (bind o (λ (a, rest). f a rest))
bind-Leads P Q place bytes (ok (a, rest)) f (used, split, h) k =
    after-Leads Q place bytes used rest (f a rest) split (k a rest (arrive place used) h)
bind-Leads P Q place bytes (raised code) f h k = tt
bind-Leads P Q place bytes out_of_fuel f h k = tt

abbrev IsDigit : ℕ → Type 0
IsDigit c = is_digit c ≡ true

-- The digits that are counted.
abbrev Counted : ℕ → Bytes → ℕ × Bytes → Type 0
Counted n bytes (m, rest) =
    (used : Text) × (bytes ≡ used ++ rest) × (m ≡ n + length used) × All IsDigit used

count_digits-Counted : (n : ℕ) (bytes : Bytes) → Counted n bytes (count_digits n bytes)
unfolding count_digits
count_digits-Counted n [] = ([], refl, omega arith, tt)
count_digits-Counted n (c ∷ rest) =
    if-cases (Counted n (c ∷ rest)) (is_digit c) (count_digits (n + 1) rest) (n, c ∷ rest)
      (λ digit.
        let (used, split, counted, digits) = count_digits-Counted (n + 1) rest in
        (c ∷ used, ap (λ t. c ∷ t) split, omega arith, (digit, digits)))
      (λ other. ([], refl, omega arith, tt))

-- A place that digits lead back to.
abbrev Loops : Place → Type 0
Loops place = (c : ℕ) → IsDigit c → advance place c ≡ place

arrive-Loops : (place : Place) → Loops place → (l : Text) → All IsDigit l → arrive place l ≡ place
arrive-Loops place loops [] h = refl
arrive-Loops place loops (c ∷ l) h =
    ap (λ p. arrive p l) (loops c h.0) ∙ arrive-Loops place loops l h.1

consume_digits-Leads :
    (place : Place)
    → Loops place
    → (bytes : Bytes) → Leads (λ q. q ≡ place) place bytes (consume_digits bytes)
unfolding consume_digits
consume_digits-Leads place loops bytes =
    let (used, split, counted, digits) = count_digits-Counted 0 bytes in
    (used, split, arrive-Loops place loops used digits)

need_digits-Leads :
    (place next : Place)
    → ((c : ℕ) → IsDigit c → advance place c ≡ next)
    → Loops next
    → (bytes : Bytes) → Leads (λ q. q ≡ next) place bytes (need_digits bytes)
unfolding need_digits consume_digits
need_digits-Leads place next enters loops bytes =
    needed (count_digits 0 bytes) (count_digits-Counted 0 bytes)
  where
    needed :
        (p : ℕ × Bytes)
        → Counted 0 bytes p
        → Leads
            (λ q. q ≡ next)
            place
            bytes
            (if◌then◌else◌ {A = Reader (Unit {0})}
              (ltb 0 (p.0))
              (pure tt)
              (raise malformed_json)
              (p.1))
    needed (m, rest) (used, split, counted, digits) =
        if-cases (λ (r : Reader (Unit {0})). Leads (λ q. q ≡ next) place bytes (r rest)) (ltb 0 m)
          (pure tt) (raise malformed_json)
          (λ some_digit. (used, split, entered used counted digits some_digit)) (λ _. tt)
      where
        entered :
            (used : Text)
            → m ≡ 0 + length used
            → All IsDigit used
            → ltb 0 m ≡ true
            → arrive place used ≡ next
        entered [] counted digits some_digit = ground arith
        entered (c ∷ used) counted digits some_digit =
            ap (λ p. arrive p used) (enters c digits.0) ∙ arrive-Loops next loops used digits.1

-- A reader that consumes nothing, or one byte.
stays-Leads :
    (Q : Place → Type 0) (place : Place) (bytes : Bytes)
    → Q place
    → Leads {A = Unit {0}} Q place bytes (ok (tt, bytes))
stays-Leads Q place bytes h = ([], refl, h)

moves-Leads :
    {A : Type 0} (Q : Place → Type 0) (place : Place) (byte : ℕ) (rest : Bytes)
    (o : Outcome (A × Bytes))
    → Leads Q (advance place byte) rest o
    → Leads Q place (byte ∷ rest) o
moves-Leads Q place byte rest o h = after-Leads Q place (byte ∷ rest) (byte ∷ []) rest o refl h

exponent-Loops : Loops exponent_digits
unfolding advance
exponent-Loops c h = rw h

fraction-Loops : Loops fraction
unfolding advance
fraction-Loops c h = rw h

integer-Loops : Loops integer
unfolding advance
integer-Loops c h = rw h

abbrev AtStart : Place → Type 0
AtStart q = (q ≡ before) ⊎ (q ≡ minus)

abbrev AtInteger : Place → Type 0
AtInteger q = (q ≡ leading_zero) ⊎ (q ≡ integer)

abbrev AtTail : Place → Type 0
AtTail q = AtInteger q ⊎ (q ≡ fraction)

abbrev AtExponent : Place → Type 0
AtExponent q = (q ≡ exponent) ⊎ (q ≡ signed)

abbrev AtEnd : Place → Type 0
AtEnd q = accepting q ≡ true

minus-Leads : (bytes : Bytes) → Leads AtStart before bytes (skip_byte 0x2d bytes)
unfolding skip_byte advance
minus-Leads [] = stays-Leads AtStart before [] (inl refl)
minus-Leads (byte ∷ rest) =
    if-cases (Leads AtStart before (byte ∷ rest)) (byte == 0x2d) (ok (tt, rest))
      (ok (tt, byte ∷ rest)) (λ sign. (byte ∷ [], refl, inr (rw (sign) refl)))
      (λ _. stays-Leads AtStart before (byte ∷ rest) (inl refl))

-- The first digit, after a sign or without.
zero-starts :
    (place : Place) (c : ℕ) → AtStart place → (c == 0x30) ≡ true → advance place c ≡ leading_zero
unfolding advance at_start
zero-starts place c (inl e) h = rw (e) (ground arith)
zero-starts place c (inr e) h = rw (e) (ground arith)

digit-starts :
    (place : Place) (c : ℕ)
    → AtStart place
    → (c == 0x30) ≡ false
    → (leb 0x31 c && leb c 0x39) ≡ true
    → advance place c ≡ integer
unfolding advance at_start
digit-starts place c (inl e) other h = rw (e) (ground arith)
digit-starts place c (inr e) other h = rw (e) (ground arith)

integer-Leads :
    (place : Place) (bytes : Bytes)
    → AtStart place
    → Leads AtInteger place bytes (scan_integer bytes)
unfolding scan_integer
integer-Leads place [] h = tt
integer-Leads place (first ∷ rest) h =
    if-cases (Leads AtInteger place (first ∷ rest)) (first == 0x30) (ok (tt, rest)) _
      (λ zero_first. (first ∷ [], refl, inl (zero-starts place first h zero_first)))
      λ other.
        if-cases (Leads AtInteger place (first ∷ rest)) (leb 0x31 first && leb first 0x39)
          (bind (consume_digits rest) (λ (_, after). ok (tt, after))) (raised malformed_json)
          (λ digit.
            moves-Leads AtInteger place first rest
              (bind (consume_digits rest) (λ (_, after). ok (tt, after)))
              (bind-Leads (λ q. q ≡ integer) AtInteger (advance place first) rest
                (consume_digits rest) (λ found after. ok (tt, after))
                (subst (λ q. Leads (λ r. r ≡ integer) q rest (consume_digits rest))
                  (sym (digit-starts place first h other digit))
                  (consume_digits-Leads integer integer-Loops rest))
                (λ found after next e. stays-Leads AtInteger next after (inr e))))
          (λ _. tt)

point-enters :
    (place : Place) (c : ℕ) → AtInteger place → (c == 0x2e) ≡ true → advance place c ≡ point
unfolding advance
point-enters place c (inl e) h = rw (e) (ground arith)
point-enters place c (inr e) h = rw (e) (ground arith)

fraction_enters : (c : ℕ) → IsDigit c → advance point c ≡ fraction
unfolding advance
fraction_enters c h = rw h

fraction-Leads :
    (place : Place) (bytes : Bytes)
    → AtInteger place
    → Leads AtTail place bytes (scan_fraction bytes)
unfolding scan_fraction
fraction-Leads place [] h = stays-Leads AtTail place [] (inl h)
fraction-Leads place (byte ∷ rest) h =
    if-cases (Leads AtTail place (byte ∷ rest)) (byte == 0x2e) (need_digits rest)
      (ok (tt, byte ∷ rest))
      (λ dot. moves-Leads AtTail place byte rest (need_digits rest) (
        subst (λ q. Leads AtTail q rest (need_digits rest)) (sym (point-enters place byte h dot))
          (weaken-Leads (λ q. q ≡ fraction) AtTail point rest (need_digits rest) (λ q e. inr e)
            (need_digits-Leads point fraction fraction_enters fraction-Loops rest))))
      (λ _. stays-Leads AtTail place (byte ∷ rest) (inl h))

exponent-enters :
    (place : Place) (c : ℕ)
    → AtTail place
    → (c == 0x65 || c == 0x45) ≡ true
    → advance place c ≡ exponent
unfolding advance at_tail
exponent-enters place c (inl (inl e)) h = rw (e) (ground arith)
exponent-enters place c (inl (inr e)) h = rw (e) (ground arith)
exponent-enters place c (inr e) h = rw (e) (ground arith)

sign-Leads : (bytes : Bytes) → Leads AtExponent exponent bytes (scan_sign bytes)
unfolding scan_sign advance
sign-Leads [] = stays-Leads AtExponent exponent [] (inl refl)
sign-Leads (byte ∷ rest) =
    if-cases (Leads AtExponent exponent (byte ∷ rest)) (byte == 0x2b || byte == 0x2d)
      (ok (tt, rest)) (ok (tt, byte ∷ rest)) (λ sign. (byte ∷ [], refl, inr (rw (sign) refl)))
      (λ _. stays-Leads AtExponent exponent (byte ∷ rest) (inl refl))

exponent_digits-enter :
    (place : Place) → AtExponent place → (c : ℕ) → IsDigit c → advance place c ≡ exponent_digits
unfolding advance
exponent_digits-enter place (inl e) c h = rw (e) (ground arith)
exponent_digits-enter place (inr e) c h = rw (e) (ground arith)

tail-accepts : (place : Place) → AtTail place → AtEnd place
unfolding accepting
tail-accepts place (inl (inl e)) = rw (e) refl
tail-accepts place (inl (inr e)) = rw (e) refl
tail-accepts place (inr e) = rw (e) refl

exponent-accepts : (place : Place) → place ≡ exponent_digits → AtEnd place
unfolding accepting
exponent-accepts place e = rw (e) refl

exponent-Leads :
    (place : Place) (bytes : Bytes) → AtTail place → Leads AtEnd place bytes (scan_exponent bytes)
unfolding scan_exponent
exponent-Leads place [] h = stays-Leads AtEnd place [] (tail-accepts place h)
exponent-Leads place (byte ∷ rest) h =
    if-cases (Leads AtEnd place (byte ∷ rest)) (byte == 0x65 || byte == 0x45)
      (bind (scan_sign rest) (λ (_, after). need_digits after)) (ok (tt, byte ∷ rest))
      (λ marked.
        moves-Leads AtEnd place byte rest (bind (scan_sign rest) (λ (_, after). need_digits after))
          (subst (λ q. Leads AtEnd q rest (bind (scan_sign rest) (λ (_, after). need_digits after)))
            (sym (exponent-enters place byte h marked))
            (bind-Leads AtExponent AtEnd exponent rest (scan_sign rest)
              (λ sign after. need_digits after) (sign-Leads rest)
              (λ sign after next e.
                weaken-Leads (λ q. q ≡ exponent_digits) AtEnd next after (need_digits after)
                  exponent-accepts
                  (need_digits-Leads next exponent_digits (exponent_digits-enter next e)
                    exponent-Loops after)))))
      (λ _. stays-Leads AtEnd place (byte ∷ rest) (tail-accepts place h))

number-Leads : (bytes : Bytes) → Leads AtEnd before bytes (scan_number bytes)
unfolding scan_number
number-Leads bytes =
    bind-Leads AtStart AtEnd before bytes (skip_byte 0x2d bytes) _ (minus-Leads bytes)
      λ _ after_sign start s.
        bind-Leads AtInteger AtEnd start after_sign (scan_integer after_sign) _
          (integer-Leads start after_sign s)
          λ _ after_integer whole i.
            bind-Leads AtTail AtEnd whole after_integer (scan_fraction after_integer)
              (λ _. scan_exponent) (fraction-Leads whole after_integer i)
              (λ _ after_fraction tail f. exponent-Leads tail after_fraction f)

-- If the reader returned, `P` holds of what it returned.
abbrev pub Returns : {A : Type 0} → (A → Type 0) → Outcome (A × Bytes) → Type 0
Returns P (ok (a, rest)) = P a
Returns P (raised code) = Unit {0}
Returns P out_of_fuel = Unit {0}

-- What is sliced out matches the writer's pattern.
pub parse_number-Returns :
    (bytes : Bytes) → Returns (λ lexeme. is_number_lexeme lexeme ≡ true) (parse_number bytes)
unfolding parse_number is_number_lexeme
parse_number-Returns bytes = sliced (scan_number bytes) (number-Leads bytes)
  where
    sliced :
        (o : Outcome (Unit {0} × Bytes))
        → Leads AtEnd before bytes o
        → Returns
            (λ lexeme. is_number_lexeme lexeme ≡ true)
            (bind o (λ (_, rest). ok (ascii_slice bytes rest, rest)))
    sliced (ok (_, rest)) (used, split, h) =
        ap is_number_lexeme (ap (λ b. ascii_slice b rest) split ∙ slice_whole used rest)
        ∙ matches-arrive before used
        ∙ h
    sliced (raised code) h = tt
    sliced out_of_fuel h = tt
