-- ===== src/WireJson/RoundTrip.antt =====
-- Parsing in src/serialization/wire_json.ts undoes writing.
use ghc_gateway.Base.{
  ℕ, zero, suc, ◌+◌, ◌*◌, ◌≤◌, ◌<◌, ◌≡◌, refl, ◌∙◌, sym, inl, inr, Bool, true, false, ◌||◌, [], ◌∷◌,
  ◌++◌, Text, text, length, length-append, All, ltb, ◌==◌, Bool-cases, subst, arith, append_assoc,
  append-nil, max,
}
use ghc_gateway.WireJson.Syntax.{
  WireJson, Items, Members, null, boolean, string, number, array, object, no_items, item,
  no_members, member,
}
use ghc_gateway.WireJson.Outcome.{Outcome, ok, bind, Bytes}
use ghc_gateway.WireJson.Utf8.{peeks}
use ghc_gateway.WireJson.Strings.{write_json_string}
use ghc_gateway.WireJson.Numbers.{is_digit, is_number_lexeme, parse_number}
use ghc_gateway.WireJson.Parser.{
  WireJsonParseLimits, skip_whitespace, is_space, expect_ascii, parse_value, parse_items,
  parse_members, finish_document, parse_document, parse_wire_json,
}
use ghc_gateway.WireJson.Writer.{
  write_number_lexeme, comma, write_value, write_items, write_members, serialize_wire_json,
}
use ghc_gateway.WireJson.StringTrip.{IsUnit, parse_string-write_json_string}
use ghc_gateway.WireJson.NumberTrip.{Follows, nowhere-rejects, parse_number-lexeme}

-- Every string and key consists of 16-bit units, and every number's lexeme is one of JSON.
abbrev IsText : Text → Type 0
IsText t = All IsUnit t

unfoldable mutual
  pub IsWire : WireJson → Type 0
  IsWire null = Unit
  IsWire (boolean b) = Unit
  IsWire (string t) = IsText t
  IsWire (number l) = is_number_lexeme l ≡ true
  IsWire (array items) = IsWireItems items
  IsWire (object members) = IsWireMembers members

  pub IsWireItems : Items → Type 0
  IsWireItems no_items = Unit
  IsWireItems (item value rest) = IsWire value × IsWireItems rest

  pub IsWireMembers : Members → Type 0
  IsWireMembers no_members = Unit
  IsWireMembers (member key value rest) = IsText key × IsWire value × IsWireMembers rest

-- How deep arrays and objects nest.
unfoldable mutual
  pub nesting : WireJson → ℕ
  nesting null = 0
  nesting (boolean b) = 0
  nesting (string t) = 0
  nesting (number l) = 0
  nesting (array items) = suc (nesting_items items)
  nesting (object members) = suc (nesting_members members)

  pub nesting_items : Items → ℕ
  nesting_items no_items = 0
  nesting_items (item value rest) = max (nesting value) (nesting_items rest)

  pub nesting_members : Members → ℕ
  nesting_members no_members = 0
  nesting_members (member key value rest) = max (nesting value) (nesting_members rest)

-- A written value begins with a byte that is neither a space nor a closing bracket.
abbrev Begins : Bytes → Type 0
Begins [] = ⊥
Begins (b ∷ rest) = (is_space b ≡ false) × ((b == 0x5d) ≡ false) × ((b == 0x7d) ≡ false)

-- What the writer puts before `k`, for a value that it accepts.
mutual
  unfolding write_json_string

  render : WireJson → Bytes → Bytes
  render null k = text "null" ++ k
  render (boolean true) k = text "true" ++ k
  render (boolean false) k = text "false" ++ k
  render (string t) k = write_json_string t ++ k
  render (number l) k = l ++ k
  render (array items) k = 0x5b ∷ render_items true items (0x5d ∷ k)
  render (object members) k = 0x7b ∷ render_members true members (0x7d ∷ k)

  render_items : Bool → Items → Bytes → Bytes
  render_items first no_items k = k
  render_items first (item value rest) k = comma first ++ render value (render_items false rest k)

  render_members : Bool → Members → Bytes → Bytes
  render_members first no_members k = k
  render_members first (member key value rest) k =
      comma first ++ (write_json_string key ++ 0x3a ∷ render value (render_members false rest k))

-- A value that meets `IsWire` is written, as `render` says.
abbrev Writes : Outcome Bytes → (Bytes → Bytes) → Type 0
Writes written rendered = (b : Bytes) × (written ≡ ok b) × ((k : Bytes) → rendered k ≡ b ++ k)

mutual
  unfolding IsWire write_value render write_number_lexeme

  value-Writes : (v : WireJson) → IsWire v → Writes (write_value v) (render v)
  value-Writes null w = (text "null", refl, λ k. refl)
  value-Writes (boolean true) w = (text "true", refl, λ k. refl)
  value-Writes (boolean false) w = (text "false", refl, λ k. refl)
  value-Writes (string t) w = (write_json_string t, refl, λ k. refl)
  value-Writes (number l) w = (l, rw w, λ k. refl)
  value-Writes (array items) w =
      let (b, written, rendered) = items-Writes true items w in
      (0x5b ∷ (b ++ 0x5d ∷ []), rw written, λ k. rw (rendered (0x5d ∷ k), append_assoc b))
  value-Writes (object members) w =
      let (b, written, rendered) = members-Writes true members w in
      (0x7b ∷ (b ++ 0x7d ∷ []), rw written, λ k. rw (rendered (0x7d ∷ k), append_assoc b))

  items-Writes :
      (first : Bool) (items : Items)
      → IsWireItems items
      → Writes (write_items first items) (render_items first items)
  items-Writes first no_items w = ([], refl, λ k. refl)
  items-Writes first (item value rest) w =
      let (b, written, rendered) = value-Writes value w.0 in
      let (c, more_written, more_rendered) = items-Writes false rest w.1 in
      (
        comma first ++ (b ++ c),
        rw (written, more_written),
        λ k. rw (rendered (render_items false rest k), more_rendered k) (simp append_assoc),
      )

  members-Writes :
      (first : Bool) (members : Members)
      → IsWireMembers members
      → Writes (write_members first members) (render_members first members)
  members-Writes first no_members w = ([], refl, λ k. refl)
  members-Writes first (member key value rest) w =
      let (b, written, rendered) = value-Writes value w.1 in
      let (c, more_written, more_rendered) = members-Writes false rest w.2 in
      (
        comma first ++ (write_json_string key ++ 0x3a ∷ (b ++ c)),
        rw (written, more_written),
        λ k. rw (rendered (render_members false rest k), more_rendered k) (simp append_assoc),
      )

number-Begins : (l k : Text) → is_number_lexeme l ≡ true → Begins (l ++ k)
unfolding is_number_lexeme is_space
number-Begins [] k h = cc
number-Begins (c ∷ l) k h = elim (Bool-cases (c == 0x2d || is_digit c)) [
  | inl start ↦ ground arith
  | inr other ↦ absurd (ground (arith, nowhere-rejects l))
]

render-Begins : (v : WireJson) (k : Bytes) → IsWire v → Begins (render v k)
unfolding render IsWire is_space
render-Begins null k w = (refl, refl, refl)
render-Begins (boolean true) k w = (refl, refl, refl)
render-Begins (boolean false) k w = (refl, refl, refl)
render-Begins (string t) k w = (refl, refl, refl)
render-Begins (number l) k w = number-Begins l k w
render-Begins (array items) k w = (refl, refl, refl)
render-Begins (object fields) k w = (refl, refl, refl)

string_pos : (t : Text) → 0 < length (write_json_string t)
unfolding write_json_string
string_pos t = omega arith

number-length : (l : Text) → is_number_lexeme l ≡ true → 0 < length l
unfolding is_number_lexeme
number-length [] h = cc
number-length (c ∷ l) h = omega arith

mutual
  unfolding render IsWire

  length-render : (v : WireJson) (k : Bytes) → IsWire v → length k < length (render v k)
  length-render null k w = omega arith
  length-render (boolean true) k w = omega arith
  length-render (boolean false) k w = omega arith
  length-render (string t) k w = omega (arith, length-append (write_json_string t) k, string_pos t)
  length-render (number l) k w = omega (arith, length-append l k, number-length l w)
  length-render (array items) k w = omega (arith, length-render_items true items (0x5d ∷ k) w)
  length-render (object fields) k w = omega (arith, length-render_members true fields (0x7d ∷ k) w)

  length-render_items :
      (first : Bool) (items : Items) (k : Bytes)
      → IsWireItems items
      → length k ≤ length (render_items first items k)
  length-render_items first no_items k w = omega arith
  length-render_items first (item value rest) k w = omega (
    arith,
    length-append (comma first) (render value (render_items false rest k)),
    length-render value (render_items false rest k) w.0,
    length-render_items false rest k w.1,
  )

  length-render_members :
      (first : Bool) (members : Members) (k : Bytes)
      → IsWireMembers members
      → length k ≤ length (render_members first members k)
  length-render_members first no_members k w = omega arith
  length-render_members first (member key value rest) k w =
      let after = 0x3a ∷ render value (render_members false rest k) in
      omega (
        arith,
        length-append (comma first) (write_json_string key ++ after),
        length-append (write_json_string key) after,
        length-render value (render_members false rest k) w.1,
        length-render_members false rest k w.2,
      )

skip-Begins : (bytes : Bytes) → Begins bytes → skip_whitespace bytes ≡ ok (tt, bytes)
unfolding skip_whitespace
skip-Begins [] b = absurd b
skip-Begins (c ∷ bytes) b = rw b.0

skip-Follows : (rest : Bytes) → Follows rest → skip_whitespace rest ≡ ok (tt, rest)
unfolding skip_whitespace
skip-Follows [] f = refl
skip-Follows (c ∷ rest) f = ground arith

ltb-false : (a b : ℕ) → a ≤ b → ltb b a ≡ false
ltb-false a b h = ground arith

string_token :
    (t : Text) (k : Bytes) (f max_depth depth : ℕ)
    → IsText t
    → parse_value (suc f) max_depth depth (write_json_string t ++ k) ≡ ok (string t, k)
unfolding parse_value skip_whitespace write_json_string
string_token t k f max_depth depth w = rw (parse_string-write_json_string t k w)

number_first :
    (l : Text)
    → is_number_lexeme l ≡ true
    → (c : ℕ) × (rest : Text) × (l ≡ c ∷ rest) × ((c == 0x2d || is_digit c) ≡ true)
unfolding is_number_lexeme
number_first [] h = cc
number_first (c ∷ l) h = elim (Bool-cases (c == 0x2d || is_digit c)) [
  | inl start ↦ (c, l, refl, start)
  | inr other ↦ absurd (ground (arith, nowhere-rejects l))
]

number_dispatch :
    (c : ℕ) (rest : Bytes) (f max_depth depth : ℕ)
    → (c == 0x2d || is_digit c) ≡ true
    → parse_value (suc f) max_depth depth (c ∷ rest)
      ≡ bind (parse_number (c ∷ rest)) (λ (found, after). ok (number found, after))
unfolding parse_value skip_whitespace
number_dispatch c rest f max_depth depth h = ground arith

number_token :
    (l : Text) (k : Bytes) (f max_depth depth : ℕ)
    → is_number_lexeme l ≡ true
    → Follows k
    → parse_value (suc f) max_depth depth (l ++ k) ≡ ok (number l, k)
number_token l k f max_depth depth h fo =
    let (c, rest, e, start) = number_first l h in
    subst
      (λ t.
        parse_value (suc f) max_depth depth (t ++ k)
        ≡ bind (parse_number (t ++ k)) (λ (found, after). ok (number found, after)))
      (sym e) (number_dispatch c (rest ++ k) f max_depth depth start)
    ∙ rw (parse_number-lexeme l k fo h)

items-Follows : (rest : Items) (k : Bytes) → Follows (render_items false rest (0x5d ∷ k))
unfolding render
items-Follows no_items k = refl
items-Follows (item value rest) k = refl

members-Follows : (rest : Members) (k : Bytes) → Follows (render_members false rest (0x7d ∷ k))
unfolding render
members-Follows no_members k = refl
members-Follows (member key value rest) k = refl

peeks_not_bracket : (bytes : Bytes) → Begins bytes → peeks 0x5d bytes ≡ false
unfolding peeks
peeks_not_bracket [] b = absurd b
peeks_not_bracket (c ∷ rest) b = b.1

-- The parser on what is rendered, with fuel for the input.
mutual
  unfolding IsWire nesting render parse_value expect_ascii skip_whitespace

  value-reads :
      (v : WireJson) (k : Bytes) (f max_depth depth : ℕ)
      → IsWire v
      → nesting v + depth ≤ suc max_depth
      → Follows k
      → 2 * length (render v k) < f
      → parse_value f max_depth depth (render v k) ≡ ok (v, k)
  value-reads v k zero max_depth depth w n fo fu = absurd (omega arith)
  value-reads null k (suc f) max_depth depth w n fo fu = refl
  value-reads (boolean true) k (suc f) max_depth depth w n fo fu = refl
  value-reads (boolean false) k (suc f) max_depth depth w n fo fu = refl
  value-reads (string t) k (suc f) max_depth depth w n fo fu = string_token t k f max_depth depth w
  value-reads (number l) k (suc f) max_depth depth w n fo fu =
      number_token l k f max_depth depth w fo
  value-reads (array no_items) k (suc f) max_depth depth w n fo fu =
      rw (ltb-false depth max_depth (omega arith))
  value-reads (array (item value rest)) k (suc f) max_depth depth w n fo fu =
      let after = render_items false rest (0x5d ∷ k) in
      let begins = render-Begins value after w.0 in
      rw (ltb-false depth max_depth (omega arith), skip-Begins (render value after) begins)
        (rw (peeks_not_bracket (render value after) begins)
          (rw (items-reads value rest k f max_depth depth w.0 w.1 (omega arith) (omega arith))))
  value-reads (object no_members) k (suc f) max_depth depth w n fo fu =
      rw (ltb-false depth max_depth (omega arith))
  value-reads (object (member key value rest)) k (suc f) max_depth depth w n fo fu =
      rw (ltb-false depth max_depth (omega arith)) (
        rw (
          members-reads key value rest k f max_depth depth w.0 w.1 w.2 (omega arith) (omega arith)))

  items-reads :
      (value : WireJson) (rest : Items) (k : Bytes) (f max_depth depth : ℕ)
      → IsWire value
      → IsWireItems rest
      → max (nesting value) (nesting_items rest) + depth ≤ max_depth
      → suc (2 * length (render value (render_items false rest (0x5d ∷ k)))) < f
      → parse_items f max_depth depth (render value (render_items false rest (0x5d ∷ k)))
        ≡ ok (item value rest, k)
  items-reads value rest k zero max_depth depth w ws n fu = absurd (omega arith)
  items-reads value no_items k (suc f) max_depth depth w ws n fu =
      rw (value-reads value (0x5d ∷ k) f max_depth (depth + 1) w (omega arith) refl (omega arith))
  items-reads value (item next rest) k (suc f) max_depth depth w ws n fu =
      let after = render_items false (item next rest) (0x5d ∷ k) in
      rw (value-reads value after f max_depth (depth + 1) w (omega arith) refl (omega arith)) (
        rw (
          items-reads next rest k f max_depth depth ws.0 ws.1 (omega arith)
            (omega (arith, length-render value after w))))

  members-reads :
      (key : Text) (value : WireJson) (rest : Members) (k : Bytes) (f max_depth depth : ℕ)
      → IsText key
      → IsWire value
      → IsWireMembers rest
      → max (nesting value) (nesting_members rest) + depth ≤ max_depth
      → suc (2 * length (render_members true (member key value rest) (0x7d ∷ k))) < f
      → parse_members f max_depth depth (render_members true (member key value rest) (0x7d ∷ k))
        ≡ ok (member key value rest, k)
  members-reads key value rest k zero max_depth depth t w ws n fu = absurd (omega arith)
  members-reads key value no_members k (suc f) max_depth depth t w ws n fu =
      let after = 0x7d ∷ k in
      rw (parse_string-write_json_string key (0x3a ∷ render value after) t) (
        rw (
          value-reads value after f max_depth (depth + 1) w (omega arith) refl
            (omega (arith, length-append (write_json_string key) (0x3a ∷ render value after)))))
  members-reads key value (member name next rest) k (suc f) max_depth depth t w ws n fu =
      let after = render_members false (member name next rest) (0x7d ∷ k) in
      let bound = length-append (write_json_string key) (0x3a ∷ render value after) in
      rw (parse_string-write_json_string key (0x3a ∷ render value after) t) (
        rw
          (value-reads value after f max_depth (depth + 1) w (omega arith) refl
            (omega (arith, bound)))
          (rw (
            members-reads name next rest k f max_depth depth ws.0 ws.1 ws.2 (omega arith)
              (omega (arith, bound, length-render value after w)))))

document_reads :
    (v : WireJson) (b : Bytes) (max_depth : ℕ)
    → IsWire v
    → nesting v ≤ max_depth
    → render v [] ≡ b
    → parse_document max_depth b ≡ ok v
unfolding parse_document finish_document
document_reads v b max_depth w n e = rw (← e) (
    rw (skip-Begins (render v []) (render-Begins v [] w)) (
      rw
        (value-reads v [] (suc (2 * length (render v []))) max_depth 1 w (omega arith) tt
          (omega arith))
        (unfold skip_whitespace in refl)))

-- What a value is serialized to is parsed back to that value, under limits that it keeps: strings
-- of 16-bit units, JSON number lexemes, nesting within `max_depth` and bytes within `max_bytes`.
pub parse-serialize :
    (v : WireJson) (b : Bytes) (limits : WireJsonParseLimits)
    → IsWire v
    → nesting v ≤ limits.max_depth
    → serialize_wire_json v ≡ ok b
    → length b ≤ limits.max_bytes
    → parse_wire_json b limits ≡ ok v
unfolding parse_wire_json serialize_wire_json
parse-serialize v b limits w n s l =
    let (c, written, rendered) = value-Writes v w in
    rw (ltb-false (length b) limits.max_bytes l)
      (document_reads v b limits.max_depth w n (rendered [] ∙ append-nil c ∙ cc))

-- Such a value is always serialized: the writer does not refuse it.
pub serialize-total : (v : WireJson) → IsWire v → (b : Bytes) × (serialize_wire_json v ≡ ok b)
unfolding serialize_wire_json
serialize-total v w = let (b, written, rendered) = value-Writes v w in (b, written)
