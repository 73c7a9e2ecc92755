-- ===== src/Gateway/Failures/RetryAfter.antt =====
-- `safeRetryAfter` of src/gateway/failures.ts: which `Retry-After` values are passed on.
use ghc_gateway.Base.{
  ℕ, zero, suc, ◌≤◌, ◌<◌, ◌≡◌, refl, inl, inr, Bool, true, false, ◌&&◌, Option, none, some, List,
  [], ◌∷◌, Text, text, subst, ap, ◌⊎◌, ◌∙◌, Option-cases, All, leb, ◌==◌, if◌then◌else◌, arith,
}

is_digit : ℕ → Bool
is_digit c = leb 0x30 c && leb c 0x39

all_digits : Text → Bool
unfolding is_digit
all_digits [] = true
all_digits (c ∷ rest) = is_digit c && all_digits rest

-- `/^\d+$/`
unfoldable pub is_seconds : Text → Bool
unfolding all_digits
is_seconds [] = false
is_seconds (c ∷ rest) = all_digits (c ∷ rest)

-- What a part of a pattern leaves of a text that it matches the front of.
abbrev Pattern : Type 0
Pattern = Text → Option Text

infixl 1 ◌then_match◌
abbrev ◌then_match◌ : Option Text → Pattern → Option Text
none then_match p = none
(some rest) then_match p = p rest

literal : Text → Pattern
literal [] s = some s
literal (c ∷ more) [] = none
literal (c ∷ more) (d ∷ rest) = if c == d then literal more rest else none

digits : ℕ → Pattern
unfolding is_digit
digits zero s = some s
digits (suc n) [] = none
digits (suc n) (c ∷ rest) = if is_digit c then digits n rest else none

first_some : Option Text → Option Text → Option Text
first_some none other = other
first_some (some rest) other = some rest

one_of : List Text → Pattern
unfolding literal first_some
one_of [] s = none
one_of (word ∷ words) s = first_some (literal word s) (one_of words s)

abbrev days : List Text
days = text "Mon" ∷ text "Tue" ∷ text "Wed" ∷ text "Thu" ∷ text "Fri" ∷ text "Sat" ∷ text "Sun" ∷ []

abbrev months : List Text
months =
    text "Jan"
    ∷ text "Feb"
    ∷ text "Mar"
    ∷ text "Apr"
    ∷ text "May"
    ∷ text "Jun"
    ∷ text "Jul"
    ∷ text "Aug"
    ∷ text "Sep"
    ∷ text "Oct"
    ∷ text "Nov"
    ∷ text "Dec"
    ∷ []

is_end : Option Text → Bool
is_end (some []) = true
is_end _ = false

-- `/^(?:Mon|…), \d{2} (?:Jan|…) \d{4} \d{2}:\d{2}:\d{2} GMT$/`
unfoldable pub is_http_date : Text → Bool
unfolding one_of digits literal is_end
is_http_date s = is_end (
    one_of days s
    then_match literal (text ", ")
    then_match digits 2
    then_match literal (text " ")
    then_match one_of months
    then_match literal (text " ")
    then_match digits 4
    then_match literal (text " ")
    then_match digits 2
    then_match literal (text ":")
    then_match digits 2
    then_match literal (text ":")
    then_match digits 2
    then_match literal (text " GMT"))

-- `date_parses` is `!Number.isNaN(Date.parse(value))`.
module _ (date_parses : Text → Bool) where
  unfoldable pub safe_retry_after : Option Text → Option Text
  unfolding is_seconds is_http_date
  safe_retry_after none = none
  safe_retry_after (some []) = none
  safe_retry_after (some (c ∷ rest)) =
      let value = c ∷ rest in
      if is_seconds value
      then some value
      else if is_http_date value && date_parses value
      then some value
      else none

-- Printable ASCII: no control character, so no line break.
abbrev pub IsSafe : ℕ → Type 0
IsSafe c = (0x20 ≤ c) × (c < 0x7f)

-- If a part matches, what it matched is safe as soon as what it leaves is.
abbrev KeepsSafe : Pattern → Type 0
KeepsSafe p = (s rest : Text) → p s ≡ some rest → All IsSafe rest → All IsSafe s

literal-KeepsSafe : (w : Text) → All IsSafe w → KeepsSafe (literal w)
unfolding literal
literal-KeepsSafe [] safe s rest h r = subst (All IsSafe) (ground arith) r
literal-KeepsSafe (c ∷ w) safe [] rest h r = tt
literal-KeepsSafe (c ∷ w) safe (d ∷ s) rest h r = ground (arith, literal-KeepsSafe w safe.1 s rest)

digits-KeepsSafe : (n : ℕ) → KeepsSafe (digits n)
unfolding digits
digits-KeepsSafe zero s rest h r = subst (All IsSafe) (ground arith) r
digits-KeepsSafe (suc n) [] rest h r = tt
digits-KeepsSafe (suc n) (c ∷ s) rest h r = ground (arith, digits-KeepsSafe n s rest)

one_of-KeepsSafe : (words : List Text) → All (All IsSafe) words → KeepsSafe (one_of words)
unfolding one_of first_some
one_of-KeepsSafe [] safe s rest h r = cc
one_of-KeepsSafe (word ∷ words) safe s rest h r = elim (Option-cases (literal word s)) [
  | inl missed ↦ one_of-KeepsSafe words safe.1 s rest (rw missed at h) r
  | inr (left, hit) ↦ literal-KeepsSafe word safe.0 s rest (hit ∙ (rw hit at h)) r
]

-- Peels the last part off a chain.
chain :
    (s : Text) (m : Option Text) (p : Pattern)
    → KeepsSafe p
    → ((rest : Text) → m ≡ some rest → All IsSafe rest → All IsSafe s)
    → (rest : Text) → (m then_match p) ≡ some rest
    → All IsSafe rest
    → All IsSafe s
chain s none p keeps before rest h r = cc
chain s (some left) p keeps before rest h r = before left refl (keeps left rest h r)

is_end-some : (m : Option Text) → is_end m ≡ true → m ≡ some []
unfolding is_end
is_end-some none h = cc
is_end-some (some []) h = refl
is_end-some (some (c ∷ rest)) h = cc

is_http_date-IsSafe : (s : Text) → is_http_date s ≡ true → All IsSafe s
unfolding is_http_date
is_http_date-IsSafe s h =
    let two = digits-KeepsSafe 2 in
    let space = literal-KeepsSafe (text " ") (omega arith) in
    let colon = literal-KeepsSafe (text ":") (omega arith) in
    chain s _ (literal (text " GMT")) (literal-KeepsSafe (text " GMT") (omega arith))
      (chain s _ (digits 2) two (
        chain s _ (literal (text ":")) colon (
          chain s _ (digits 2) two (
            chain s _ (literal (text ":")) colon (
              chain s _ (digits 2) two (
                chain s _ (literal (text " ")) space (
                  chain s _ (digits 4) (digits-KeepsSafe 4) (
                    chain s _ (literal (text " ")) space (
                      chain s _ (one_of months) (one_of-KeepsSafe months (omega arith)) (
                        chain s _ (literal (text " ")) space (
                          chain s _ (digits 2) two (
                            chain s _ (literal (text ", "))
                              (literal-KeepsSafe (text ", ") (omega arith))
                              (one_of-KeepsSafe days (omega arith) s)))))))))))))
      [] (is_end-some _ h) tt

is_seconds-IsSafe : (s : Text) → is_seconds s ≡ true → All IsSafe s
unfolding is_seconds
is_seconds-IsSafe [] h = tt
is_seconds-IsSafe (c ∷ rest) h = go (c ∷ rest) h
  where
    go : (t : Text) → all_digits t ≡ true → All IsSafe t
    go [] g = tt
    go (d ∷ t) g = ground (arith, go t)

passed_on :
    (seconds date parses : Bool) (value passed : Text)
    → (if seconds then some value else if date && parses then some value else none) ≡ some passed
    → (value ≡ passed) × ((seconds ≡ true) ⊎ (date ≡ true))
passed_on true date parses value passed h = (cc, inl refl)
passed_on false true true value passed h = (cc, inr refl)
passed_on false true false value passed h = cc
passed_on false false parses value passed h = cc

-- A `Retry-After` value is passed on only as it came, and only if it consists of printable ASCII
-- characters, whatever dates the runtime can parse: it cannot break a response's header.
pub safe_retry_after-IsSafe :
    (date_parses : Text → Bool) (value : Option Text) (passed : Text)
    → safe_retry_after date_parses value ≡ some passed
    → (value ≡ some passed) × All IsSafe passed
unfolding safe_retry_after
safe_retry_after-IsSafe date_parses none passed h = cc
safe_retry_after-IsSafe date_parses (some []) passed h = cc
safe_retry_after-IsSafe date_parses (some (c ∷ rest)) passed h =
    let value = c ∷ rest in
    let (same, reason) =
      passed_on (is_seconds value) (is_http_date value) (date_parses value) value passed h in
    let safe : All IsSafe value = elim reason [
      | inl seconds ↦ is_seconds-IsSafe value seconds
      | inr date ↦ is_http_date-IsSafe value date
    ] in
    (ap some same, subst (All IsSafe) same safe)
