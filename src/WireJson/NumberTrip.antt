-- ===== src/WireJson/NumberTrip.antt =====
-- A lexeme that matches the writer's pattern is scanned whole by `parseNumber` of
-- src/serialization/wire_json.ts.
use ghc_gateway.Base.{
  ℕ, ◌+◌, ◌-◌, ◌≡◌, refl, ap, ◌∙◌, inl, inr, true, false, ◌&&◌, ◌||◌, [], ◌∷◌, ◌++◌, Text, length,
  length-append, leb, ◌==◌, Bool-cases, if◌then◌else◌, arith,
}
use ghc_gateway.WireJson.Outcome.{ok, bind, Bytes}
use ghc_gateway.WireJson.Numbers.{
  is_digit, count_digits, consume_digits, need_digits, scan_integer, scan_fraction, scan_sign,
  scan_exponent, scan_number, take, ascii_slice, parse_number, Place, minus, leading_zero, integer,
  point, fraction, exponent, signed, exponent_digits, nowhere, at_start, at_tail, advance,
  matches_from, is_number_lexeme,
}

-- What follows a written value: the end of the input, a comma or a closing bracket.
abbrev pub Follows : Bytes → Type 0
Follows [] = Unit
Follows (byte ∷ rest) = ((byte == 0x2c || byte == 0x5d || byte == 0x7d) ≡ true)

pub nowhere-rejects : (l : Text) → matches_from nowhere l ≡ false
unfolding matches_from
nowhere-rejects [] = refl
nowhere-rejects (c ∷ l) = nowhere-rejects l

abbrev NotDigit : Bytes → Type 0
NotDigit [] = Unit
NotDigit (c ∷ rest) = is_digit c ≡ false

-- The digits at the front are consumed, and what is left matches at the same place.
abbrev Run : Place → Bytes → ℕ → Text → Type 0
Run place rest n l =
    (m : ℕ) × (tail : Text) × (count_digits n (l ++ rest) ≡ (n + m, tail ++ rest))
    × (matches_from place tail ≡ true)
    × NotDigit tail

module _ (rest : Bytes) (f : Follows rest) where
  count_digits-Follows : (n : ℕ) → count_digits n rest ≡ (n, rest)
  count_digits-Follows = go rest f
    where
      go : (r : Bytes) → Follows r → (n : ℕ) → count_digits n r ≡ (n, r)
      go [] g n = unfold count_digits in refl
      go (c ∷ r) g n = unfold count_digits in ground arith

  Run-digits :
      (place : Place)
      → ((c : ℕ) → is_digit c ≡ true → advance place c ≡ place)
      → (l : Text) (n : ℕ) → matches_from place l ≡ true
      → Run place rest n l
  unfolding matches_from count_digits
  Run-digits place loops [] n h = (0, [], ground (arith, count_digits-Follows n), h, tt)
  Run-digits place loops (c ∷ l) n h = elim (Bool-cases (is_digit c)) [
    | inl digit ↦
        let (m, tail, counted, matched, stopped) =
          Run-digits place loops l (n + 1) (rw (loops c digit) at h) in
        (m + 1, tail, rw digit (rw counted (ground arith)), matched, stopped)
    | inr other ↦ (0, c ∷ l, ground arith, h, other)
  ]

  -- At least one digit, and what is left.
  NeedsRun : Place → Text → Type 0
  NeedsRun place l =
      (tail : Text) × (need_digits (l ++ rest) ≡ ok (tt, tail ++ rest))
      × (matches_from place tail ≡ true)
      × NotDigit tail

  need_run :
      (place : Place)
      → ((c : ℕ) → is_digit c ≡ true → advance place c ≡ place)
      → (c : ℕ) (l : Text) → is_digit c ≡ true
      → matches_from place l ≡ true
      → NeedsRun place (c ∷ l)
  unfolding NeedsRun need_digits count_digits
  need_run place loops c l digit h =
      let (m, tail, counted, matched, stopped) = Run-digits place loops l 1 h in
      (tail, rw digit (rw counted (ground arith)), matched, stopped)

  loops_exponent : (c : ℕ) → is_digit c ≡ true → advance exponent_digits c ≡ exponent_digits
  unfolding advance
  loops_exponent c h = rw h

  loops_fraction : (c : ℕ) → is_digit c ≡ true → advance fraction c ≡ fraction
  unfolding advance
  loops_fraction c h = rw h

  loops_integer : (c : ℕ) → is_digit c ≡ true → advance integer c ≡ integer
  unfolding advance
  loops_integer c h = rw h

  -- The digits of an exponent end the lexeme.
  exponent_ends : (l : Text) → matches_from exponent_digits l ≡ true → NotDigit l → l ≡ []
  unfolding matches_from
  exponent_ends [] h s = refl
  exponent_ends (c ∷ l) h s = ground (arith, nowhere-rejects l)

  exponent_run :
      (c : ℕ) (l : Text)
      → is_digit c ≡ true
      → matches_from exponent_digits l ≡ true
      → need_digits (c ∷ (l ++ rest)) ≡ ok (tt, rest)
  unfolding NeedsRun
  exponent_run c l digit h =
      let (tail, needed, matched, stopped) = need_run exponent_digits loops_exponent c l digit h in
      needed ∙ ap (λ t. ok (tt, t ++ rest)) (exponent_ends tail matched stopped)

  signed_scans : (l : Text) → matches_from signed l ≡ true → need_digits (l ++ rest) ≡ ok (tt, rest)
  unfolding matches_from
  signed_scans [] h = cc
  signed_scans (c ∷ l) h = elim (Bool-cases (is_digit c)) [
    | inl digit ↦ exponent_run c l digit (rw digit at h)
    | inr other ↦ ground (arith, nowhere-rejects l)
  ]

  exponent_scans :
      (l : Text)
      → matches_from exponent l ≡ true
      → bind (scan_sign (l ++ rest)) (λ (_, after). need_digits after) ≡ ok (tt, rest)
  unfolding matches_from scan_sign
  exponent_scans [] h = cc
  exponent_scans (c ∷ l) h = elim (Bool-cases (c == 0x2b || c == 0x2d)) [
    | inl sign ↦ rw sign (signed_scans l (rw sign at h))
    | inr plain ↦ elim (Bool-cases (is_digit c)) [
      | inl digit ↦ rw plain (exponent_run c l digit (rw (plain, digit) at h))
      | inr other ↦ ground (arith, nowhere-rejects l)
    ]
  ]

  -- An optional exponent, and the end.
  tail_scans :
      (c : ℕ) (l : Text)
      → matches_from (at_tail c) l ≡ true
      → scan_exponent (c ∷ (l ++ rest)) ≡ ok (tt, rest)
  unfolding at_tail scan_exponent
  tail_scans c l h = elim (Bool-cases (c == 0x65 || c == 0x45)) [
    | inl e ↦ rw e (exponent_scans l (rw e at h))
    | inr other ↦ ground (arith, nowhere-rejects l)
  ]

  exponent_absent : scan_exponent rest ≡ ok (tt, rest)
  exponent_absent = go rest f
    where
      go : (r : Bytes) → Follows r → scan_exponent r ≡ ok (tt, r)
      go [] g = unfold scan_exponent in refl
      go (c ∷ r) g = unfold scan_exponent in ground arith

  fraction_absent : scan_fraction rest ≡ ok (tt, rest)
  fraction_absent = go rest f
    where
      go : (r : Bytes) → Follows r → scan_fraction r ≡ ok (tt, r)
      go [] g = unfold scan_fraction in refl
      go (c ∷ r) g = unfold scan_fraction in ground arith

  fraction_scans :
      (l : Text)
      → matches_from fraction l ≡ true
      → NotDigit l
      → scan_exponent (l ++ rest) ≡ ok (tt, rest)
  unfolding matches_from
  fraction_scans [] h s = exponent_absent
  fraction_scans (c ∷ l) h s = tail_scans c l (rw s at h)

  point_scans :
      (l : Text)
      → matches_from point l ≡ true
      → bind (need_digits (l ++ rest)) (λ (_, after). scan_exponent after) ≡ ok (tt, rest)
  unfolding matches_from NeedsRun
  point_scans [] h = cc
  point_scans (c ∷ l) h = elim (Bool-cases (is_digit c)) [
    | inl digit ↦
        let (tail, needed, matched, stopped) =
          need_run fraction loops_fraction c l digit (rw digit at h) in
        rw needed (fraction_scans tail matched stopped)
    | inr other ↦ ground (arith, nowhere-rejects l)
  ]

  -- What follows the integer part.
  Rest : Text → Type 0
  Rest l = bind (scan_fraction (l ++ rest)) (λ (_, after). scan_exponent after) ≡ ok (tt, rest)

  after_integer :
      (c : ℕ) (l : Text)
      → matches_from (if c == 0x2e then point else at_tail c) l ≡ true
      → Rest (c ∷ l)
  unfolding Rest scan_fraction
  after_integer c l h = elim (Bool-cases (c == 0x2e)) [
    | inl dot ↦ rw dot (point_scans l (rw dot at h))
    | inr other ↦ rw other (tail_scans c l (rw other at h))
  ]

  ends : Rest []
  unfolding Rest
  ends = rw fraction_absent exponent_absent

  zero_scans : (l : Text) → matches_from leading_zero l ≡ true → Rest l
  unfolding matches_from
  zero_scans [] h = ends
  zero_scans (c ∷ l) h = after_integer c l h

  integer_scans : (l : Text) → matches_from integer l ≡ true → NotDigit l → Rest l
  unfolding matches_from
  integer_scans [] h s = ends
  integer_scans (c ∷ l) h s = after_integer c l (rw s at h)

  -- From the first digit on.
  Whole : Bytes → Type 0
  Whole bytes =
      bind (scan_integer bytes)
        (λ (_, after). bind (scan_fraction after) (λ (_, more). scan_exponent more))
      ≡ ok (tt, rest)

  start_scans : (c : ℕ) (l : Text) → matches_from (at_start c) l ≡ true → Whole (c ∷ (l ++ rest))
  unfolding Whole Rest scan_integer at_start
  start_scans c l h = elim (Bool-cases (c == 0x30)) [
    | inl z ↦ rw z (zero_scans l (rw z at h))
    | inr nz ↦ elim (Bool-cases (leb 0x31 c && leb c 0x39)) [
      | inl digit ↦
          let (m, tail, counted, matched, stopped) =
            Run-digits integer loops_integer l 0 (rw (nz, digit) at h) in
          rw (nz, digit, consume_digits, counted) (integer_scans tail matched stopped)
      | inr other ↦ ground (arith, nowhere-rejects l)
    ]
  ]

  minus_scans : (l : Text) → matches_from minus l ≡ true → Whole (l ++ rest)
  unfolding matches_from
  minus_scans [] h = cc
  minus_scans (c ∷ l) h = start_scans c l h

  pub scan_number-lexeme :
      (l : Text) → is_number_lexeme l ≡ true → scan_number (l ++ rest) ≡ ok (tt, rest)
  unfolding is_number_lexeme scan_number Whole
  scan_number-lexeme [] h = cc
  scan_number-lexeme (c ∷ l) h = elim (Bool-cases (c == 0x2d)) [
    | inl sign ↦ rw sign (minus_scans l (rw sign at h))
    | inr plain ↦ rw plain (start_scans c l (rw plain at h))
  ]

take-append : (l rest : Bytes) → take (length l) (l ++ rest) ≡ l
unfolding take
take-append [] rest = refl
take-append (c ∷ l) rest = rw (take-append l rest)

pub slice_whole : (l rest : Bytes) → ascii_slice (l ++ rest) rest ≡ l
unfolding ascii_slice
slice_whole l rest =
    rw (length-append l rest, sub_self (length l) (length rest)) (take-append l rest)
  where
    sub_self : (m n : ℕ) → m + n - n ≡ m
    sub_self m n = omega arith

-- The parser reads back any lexeme that the writer accepts.
pub parse_number-lexeme :
    (l rest : Bytes)
    → Follows rest
    → is_number_lexeme l ≡ true
    → parse_number (l ++ rest) ≡ ok (l, rest)
unfolding parse_number
parse_number-lexeme l rest f h = rw (scan_number-lexeme rest f l h, slice_whole l rest)
