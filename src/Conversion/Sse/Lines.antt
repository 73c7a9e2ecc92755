-- ===== src/Conversion/Sse/Lines.antt =====
-- src/protocols/conversion/sse.ts against a reading of the whole text, one code unit at a time.
pub mod Whole
use ghc_gateway.Base.{
  ℕ, ◌+◌, ◌≡◌, refl, sym, ap, ◌∙◌, subst, ◌⊎◌, inl, inr, arith, Bool, true, false, not, ◌&&◌, ◌||◌,
  Option, none, some, List, [], ◌∷◌, ◌++◌, Text, append-nil, append_assoc, map, All, text,
  same_text, length, ltb, leb, ◌==◌, if◌then◌else◌, Bool-cases,
}
use ghc_gateway.Conversion.Ledger.Encoding.{utf8_length}
use ghc_gateway.Conversion.Sse.{
  SseRecord, FragmentAccumulator, no_fragments, join, append, peek, parse_record_lines,
  DecoderState, fresh, Decoder, ◌>>◌, push_record, finish_line, is_break, reserve, take_content,
  end_line, scan, consume_pending, consume, Fed, decoded, Ending, event_too_large, end_of_stream,
  settle, close_stream, finish_stream, next_chunk, feed, decode_sse_records,
}

join-append : (xs ys : List Text) → join (xs ++ ys) ≡ join xs ++ join ys
unfolding join
join-append [] ys = refl
join-append (x ∷ xs) ys =
    ap (λ t. x ++ t) (join-append xs ys) ∙ sym (append_assoc x (join xs) (join ys))

join_one : (t : Text) → join (t ∷ []) ≡ t
unfolding join
join_one t = append-nil t

-- The accumulator holds what was appended, in order.
peek-append :
    (value : Text) (line : FragmentAccumulator) → peek (append value line) ≡ peek line ++ value
unfolding peek append
peek-append [] line = sym (append-nil (join (line.chunks ++ line.fragments)))
peek-append (c ∷ value) line = split (leb 1024 (length (line.fragments ++ (c ∷ value) ∷ [])))
  where
    v : Text
    v = c ∷ value

    whole :
        join (line.chunks ++ (line.fragments ++ v ∷ [])) ≡ join (line.chunks ++ line.fragments) ++ v
    whole =
        ap join (sym (append_assoc line.chunks line.fragments (v ∷ [])))
        ∙ join-append (line.chunks ++ line.fragments) (v ∷ [])
        ∙ ap (λ t. join (line.chunks ++ line.fragments) ++ t) (join_one v)

    packed :
        join ((line.chunks ++ join (line.fragments ++ v ∷ []) ∷ []) ++ [])
        ≡ join (line.chunks ++ (line.fragments ++ v ∷ []))
    packed =
        ap join (append-nil (line.chunks ++ join (line.fragments ++ v ∷ []) ∷ []))
        ∙ join-append line.chunks (join (line.fragments ++ v ∷ []) ∷ [])
        ∙ ap (λ t. join line.chunks ++ t) (join_one (join (line.fragments ++ v ∷ [])))
        ∙ sym (join-append line.chunks (line.fragments ++ v ∷ []))

    split :
        (full : Bool)
        → peek (
            if full
            then record {
              chunks = line.chunks ++ join (line.fragments ++ v ∷ []) ∷ [];
              fragments = [];
            }
            else record line { fragments = line.fragments ++ v ∷ [] })
          ≡ join (line.chunks ++ line.fragments) ++ v
    split true = packed ∙ whole
    split false = whole

-- What a reader of the whole text has so far: the current line, the lines of the current record,
-- and the records.
pub record Reading : Type 0 where
  pub current : Text
  pub above : List Text
  pub records : List SseRecord

close : Reading → Reading
close r = elim r.current [
  | [] ↦ record {
    current = [];
    above = [];
    records = push_record (parse_record_lines r.above) r.records;
  }
  | c ∷ value ↦ record r { current = []; above = r.above ++ (c ∷ value) ∷ [] }
]

abbrev adds : Text → Reading → Reading
adds value r = record r { current = r.current ++ value }

-- A line feed after a carriage return is part of that line's end.
unfoldable step : Bool → ℕ → Reading → Bool × Reading
step after_cr c r =
    if after_cr && c == 0x0a
    then (false, r)
    else if c == 0x0d
    then (true, close r)
    else if c == 0x0a
    then (false, close r)
    else (false, adds (c ∷ []) r)

unfoldable steps : Text → Bool × Reading → Bool × Reading
steps [] (after_cr, r) = (after_cr, r)
steps (c ∷ value) (after_cr, r) = steps value (step after_cr c r)

-- The records of a text, and whether something is left after them.
pub read_all : Text → List SseRecord × Ending
unfolding steps
read_all value =
    let (after_cr, r) = steps value (false, record { current = []; above = []; records = [] }) in
    (r.records, end_of_stream r.above r.current)

steps-append : (v w : Text) (q : Bool × Reading) → steps (v ++ w) q ≡ steps w (steps v q)
unfolding steps
steps-append [] w q = refl
steps-append (c ∷ v) w (after_cr, r) = steps-append v w (step after_cr c r)

step_cr : (c : ℕ) (r : Reading) → (c == 0x0d) ≡ true → step false c r ≡ (true, close r)
unfolding step
step_cr c r e = rw e refl

step_lf :
    (c : ℕ) (r : Reading)
    → (c == 0x0d) ≡ false
    → (c == 0x0a) ≡ true
    → step false c r ≡ (false, close r)
unfolding step
step_lf c r e f = rw (e, f) refl

step_other :
    (c : ℕ) (r : Reading)
    → (c == 0x0d) ≡ false
    → (c == 0x0a) ≡ false
    → step false c r ≡ (false, adds (c ∷ []) r)
unfolding step
step_other c r e f = rw (e, f) refl

step_swallow : (c : ℕ) (r : Reading) → (c == 0x0a) ≡ true → step true c r ≡ (false, r)
unfolding step
step_swallow c r e = rw e refl

step_after : (c : ℕ) (r : Reading) → (c == 0x0a) ≡ false → step true c r ≡ step false c r
unfolding step
step_after c r e = rw e refl

abbrev Yields : (DecoderState → Type 0) → Option DecoderState → Type 0
Yields P none = Unit
Yields P (some t) = P t

push_record-append :
    (o : Option SseRecord) (xs ys : List SseRecord)
    → xs ++ push_record o ys ≡ push_record o (xs ++ ys)
push_record-append none xs ys = refl
push_record-append (some parsed) xs ys = sym (append_assoc xs ys (parsed ∷ []))

-- The reader's view of a decoder that has yielded the records `y`.
module _ (y : List SseRecord) (limit : ℕ) where
  base : DecoderState → Reading
  base s = record { current = peek s.line; above = s.record_lines; records = y ++ s.ready }

  shape : DecoderState → Bool × Reading
  unfolding base
  shape s = if s.pending_cr then (true, close (base s)) else (false, base s)

  -- The decoder keeps its flag and does to the reading what `f` does.
  abbrev Turns : Decoder → (Reading → Reading) → Type 0
  Turns m f =
      (s : DecoderState) → Yields (λ t. (t.pending_cr ≡ s.pending_cr) × (base t ≡ f (base s))) (m s)

  -- From a state without a pending carriage return, the decoder does what `f` does.
  abbrev Reads : Decoder → (Reading → Bool × Reading) → Type 0
  Reads m f = (s : DecoderState) → s.pending_cr ≡ false → Yields (λ t. shape t ≡ f (base s)) (m s)

  finish_line-base : (s : DecoderState) → base (finish_line s) ≡ close (base s)
  unfolding base close finish_line
  finish_line-base s = judged (peek s.line) refl
    where
      judged : (current : Text) → peek s.line ≡ current → base (finish_line s) ≡ close (base s)
      judged [] e =
          rw (e, finish_line)
            (ap (λ records. record { current = []; above = []; records = records })
              (push_record-append (parse_record_lines s.record_lines) y s.ready))
      judged (c ∷ value) e = rw (e, finish_line) refl

  reserve-Turns : (value : Text) → Turns (reserve limit value) (λ r. r)
  unfolding reserve base
  reserve-Turns value s = judged (ltb limit (s.record_bytes + utf8_length value))
    where
      judged :
          (over : Bool)
          → Yields
              (λ t. (t.pending_cr ≡ s.pending_cr) × (base t ≡ base s))
              (if over
                then none
                else some (record s { record_bytes = s.record_bytes + utf8_length value }))
      judged true = tt
      judged false = (refl, refl)

  take_content-Turns : (content : Text) → Turns (take_content limit content) (adds content)
  unfolding take_content base
  take_content-Turns content s =
      held (reserve limit content (record s { line = append content s.line }))
        (reserve-Turns content (record s { line = append content s.line }))
    where
      held :
          (o : Option DecoderState)
          → Yields
              (λ t.
                (t.pending_cr ≡ s.pending_cr)
                × (base t ≡ base (record s { line = append content s.line })))
              o
          → Yields (λ t. (t.pending_cr ≡ s.pending_cr) × (base t ≡ adds content (base s))) o
      held none h = tt
      held (some t) (flag, same) = (
        flag,
        same ∙ ap (λ current. record (base s) { current = current }) (peek-append content s.line),
      )

  then-Turns :
      (m k : Decoder) (f g : Reading → Reading)
      → Turns m f
      → Turns k g
      → Turns (m >> k) (λ r. g (f r))
  then-Turns m k f g h i s = first (m s) (h s)
    where
      second :
          (t : DecoderState)
          → (t.pending_cr ≡ s.pending_cr) × (base t ≡ f (base s))
          → (o : Option DecoderState)
          → Yields (λ u. (u.pending_cr ≡ t.pending_cr) × (base u ≡ g (base t))) o
          → Yields (λ u. (u.pending_cr ≡ s.pending_cr) × (base u ≡ g (f (base s)))) o
      second t (flag, same) none j = tt
      second t (flag, same) (some u) (flags, again) = (flags ∙ flag, again ∙ ap g same)

      first :
          (o : Option DecoderState)
          → Yields (λ t. (t.pending_cr ≡ s.pending_cr) × (base t ≡ f (base s))) o
          → Yields
              (λ u. (u.pending_cr ≡ s.pending_cr) × (base u ≡ g (f (base s))))
              (elim o [ none ↦ none | some t ↦ k t ])
      first none j = tt
      first (some t) j = second t j (k t) (i t)

  end_line-Turns : (separator : Text) → Turns (end_line limit separator) close
  unfolding end_line finish_line
  end_line-Turns separator =
      then-Turns (reserve limit separator) (λ s. some (finish_line s)) (λ r. r) close
        (reserve-Turns separator) (λ s. (kept s, finish_line-base s))
    where
      kept : (s : DecoderState) → (finish_line s).pending_cr ≡ s.pending_cr
      kept s = judged (peek s.line) refl
        where
          judged :
              (current : Text) → peek s.line ≡ current → (finish_line s).pending_cr ≡ s.pending_cr
          judged [] e = rw (e, finish_line) refl
          judged (c ∷ value) e = rw (e, finish_line) refl

  then-Reads :
      (m k : Decoder) (f : Reading → Reading) (g : Reading → Bool × Reading)
      → Turns m f
      → Reads k g
      → Reads (m >> k) (λ r. g (f r))
  then-Reads m k f g h i s plain = first (m s) (h s)
    where
      second :
          (t : DecoderState)
          → base t ≡ f (base s)
          → (o : Option DecoderState) → Yields (λ u. shape u ≡ g (base t)) o
          → Yields (λ u. shape u ≡ g (f (base s))) o
      second t same none j = tt
      second t same (some u) j = j ∙ ap g same

      first :
          (o : Option DecoderState)
          → Yields (λ t. (t.pending_cr ≡ s.pending_cr) × (base t ≡ f (base s))) o
          → Yields (λ u. shape u ≡ g (f (base s))) (elim o [ none ↦ none | some t ↦ k t ])
      first none j = tt
      first (some t) (flag, same) = second t same (k t) (i t (flag ∙ plain))

  Turns-Reads : (m : Decoder) (f : Reading → Reading) → Turns m f → Reads m (λ r. (false, f r))
  unfolding shape
  Turns-Reads m f h s plain = judged (m s) (h s)
    where
      judged :
          (o : Option DecoderState)
          → Yields (λ t. (t.pending_cr ≡ s.pending_cr) × (base t ≡ f (base s))) o
          → Yields (λ t. shape t ≡ (false, f (base s))) o
      judged none h = tt
      judged (some t) (flag, same) = rw (flag ∙ plain) (ap (λ r. (false, r)) same)

  same-Reads :
      (m : Decoder) (f g : Reading → Bool × Reading)
      → ((r : Reading) → f r ≡ g r)
      → Reads m f
      → Reads m g
  same-Reads m f g e h s plain = judged (m s) (h s plain)
    where
      judged :
          (o : Option DecoderState)
          → Yields (λ t. shape t ≡ f (base s)) o
          → Yields (λ t. shape t ≡ g (base s)) o
      judged none h = tt
      judged (some t) h = h ∙ e (base s)

  if-Reads :
      (b : Bool) (m k : Decoder) (f : Reading → Bool × Reading)
      → (b ≡ true → Reads m f)
      → (b ≡ false → Reads k f)
      → Reads (if b then m else k) f
  if-Reads true m k f h i = h refl
  if-Reads false m k f h i = i refl

  adds_nothing : (r : Reading) → adds [] r ≡ r
  adds_nothing r = ap (λ current. record r { current = current }) (append-nil r.current)

  -- A carriage return that ends the value.
  raised-Reads :
      Reads
        ((λ s. some (record s { pending_cr = true })) >> take_content limit [])
        (λ r. (true, close r))
  unfolding shape
  raised-Reads s plain =
      judged (take_content limit [] (record s { pending_cr = true }))
        (take_content-Turns [] (record s { pending_cr = true }))
    where
      judged :
          (o : Option DecoderState)
          → Yields
              (λ t.
                (t.pending_cr ≡ true) × (base t ≡ adds [] (base (record s { pending_cr = true }))))
              o
          → Yields (λ t. shape t ≡ (true, close (base s))) o
      judged none h = tt
      judged (some t) (flag, same) =
          rw flag (ap (λ r. (true, close r)) (same ∙ adds_nothing (base s)))
