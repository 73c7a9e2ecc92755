-- ===== src/Conversion/Sse/Lines/Whole.antt =====
-- Chunks of src/protocols/conversion/sse.ts decoded one by one, against their text read as a whole.
use ghc_gateway.Base.{
  ℕ, ◌≡◌, refl, sym, ap, ◌∙◌, subst, ◌⊎◌, inl, inr, arith, Bool, true, false, ◌&&◌, Option, none,
  some, List, [], ◌∷◌, ◌++◌, Text, append-nil, append_assoc, map, All, same_text, ◌==◌,
  if◌then◌else◌, Bool-cases,
}
use ghc_gateway.Conversion.Sse.{
  SseRecord, join, peek, DecoderState, fresh, Decoder, ◌>>◌, is_break, take_content, end_line, scan,
  consume_pending, consume, decoded, Ending, event_too_large, end_of_stream, settle, close_stream,
  finish_stream, next_chunk, feed, decode_sse_records,
}
use ghc_gateway.Conversion.Sse.Lines.{
  Reading, close, adds, step, steps, read_all, steps-append, step_cr, step_lf, step_other,
  step_swallow, step_after, Yields, base, shape, Reads, take_content-Turns, then-Turns,
  end_line-Turns, then-Reads, Turns-Reads, same-Reads, if-Reads, adds_nothing, raised-Reads,
}

and_true : (a b : Bool) → (a && b) ≡ true → (a ≡ true) × (b ≡ true)
and_true true b e = (refl, e)
and_true false b e = (e, elim (Bool-cases b) [ inl t ↦ t | inr f ↦ ground (arith, e) ])

break_cases : (c : ℕ) → is_break c ≡ false → ((c == 0x0d) ≡ false) × ((c == 0x0a) ≡ false)
unfolding is_break
break_cases c e = ground (arith, e)

-- What a break that is not a carriage return with its line feed does.
break_step :
    (c d : ℕ) (r : Reading)
    → ((c == 0x0d) && (d == 0x0a)) ≡ false
    → is_break c ≡ true
    → step (step false c r).0 d (step false c r).1 ≡ step false d (close r)
unfolding is_break
break_step c d r apart e = elim (Bool-cases (c == 0x0d)) [
  | inl cr ↦ ap (λ q. step q.0 d q.1) (step_cr c r cr) ∙ step_after d (close r) (second cr)
  | inr other ↦ ap (λ q. step q.0 d q.1) (step_lf c r other (feed_of other))
]
  where
    second : (c == 0x0d) ≡ true → (d == 0x0a) ≡ false
    second cr = ground (arith, cr, apart)

    feed_of : (c == 0x0d) ≡ false → (c == 0x0a) ≡ true
    feed_of other = ground (arith, other, e)

module _ (y : List SseRecord) (limit : ℕ) where
  -- After the end of a line, the rest is read from an empty line.
  after_line :
      (content separator rest : Text) (tail : Decoder)
      → Reads y limit tail (λ r. steps rest (false, adds [] r))
      → Reads y limit
          (take_content limit content >> end_line limit separator >> tail)
          (λ r. steps rest (false, close (adds content r)))
  after_line content separator rest tail h =
      then-Reads y limit (take_content limit content >> end_line limit separator) tail
        (λ r. close (adds content r)) (λ r. steps rest (false, r))
        (then-Turns y limit (take_content limit content) (end_line limit separator) (adds content)
          close (take_content-Turns y limit content) (end_line-Turns y limit separator))
        (same-Reads y limit tail (λ r. steps rest (false, adds [] r)) (λ r. steps rest (false, r))
          (λ r. ap (λ q. steps rest (false, q)) (adds_nothing y limit r)) h)

  -- `>>` groups to the left.
  raise_after :
      (content : Text)
      → Reads y limit
          (take_content limit content
            >> (λ s. some (record s { pending_cr = true }))
            >> take_content limit [])
          (λ r. (true, close (adds content r)))
  raise_after content s plain = judged (take_content limit content s) (
      then-Reads y limit (take_content limit content)
        ((λ t. some (record t { pending_cr = true })) >> take_content limit []) (adds content)
        (λ r. (true, close r)) (take_content-Turns y limit content) (raised-Reads y limit) s plain)
    where
      judged :
          (o : Option DecoderState)
          → Yields
              (λ t. shape y limit t ≡ (true, close (adds content (base y limit s))))
              (((λ t. o) >> ((λ t. some (record t { pending_cr = true })) >> take_content limit []))
                s)
          → Yields
              (λ t. shape y limit t ≡ (true, close (adds content (base y limit s))))
              (((λ t. o) >> (λ t. some (record t { pending_cr = true })) >> take_content limit [])
                s)
      judged none h = h
      judged (some t) h = h

  scan-Reads :
      (content rest : Text)
      → Reads y limit (scan limit content rest) (λ r. steps rest (false, adds content r))
  unfolding scan steps
  scan-Reads content [] =
      Turns-Reads y limit (take_content limit content) (adds content)
        (take_content-Turns y limit content)
  scan-Reads content (c ∷ []) =
      if-Reads y limit (c == 0x0d)
        (take_content limit content
          >> (λ s. some (record s { pending_cr = true }))
          >> take_content limit [])
        (if c == 0x0a
          then take_content limit content >> end_line limit (c ∷ []) >> take_content limit []
          else take_content limit (content ++ c ∷ []))
        goal
        (λ cr.
          same-Reads y limit _ (λ r. (true, close (adds content r))) goal
            (λ r. sym (step_cr c (adds content r) cr)) (raise_after content))
        λ other.
          if-Reads y limit (c == 0x0a) _ _ goal
            (λ lf.
              same-Reads y limit _ (λ r. steps [] (false, close (adds content r))) goal
                (λ r. sym (step_lf c (adds content r) other lf))
                (after_line content (c ∷ []) [] (take_content limit []) (scan-Reads [] [])))
            λ plain.
              same-Reads y limit _ (λ r. (false, adds (content ++ c ∷ []) r)) goal
                (λ r. added r ∙ sym (step_other c (adds content r) other plain))
                (Turns-Reads y limit (take_content limit (content ++ c ∷ []))
                  (adds (content ++ c ∷ [])) (take_content-Turns y limit (content ++ c ∷ [])))
    where
      goal : Reading → Bool × Reading
      goal r = steps (c ∷ []) (false, adds content r)

      extended : Reading → Bool × Reading
      extended r = (false, adds (c ∷ []) (adds content r))

      added : (r : Reading) → steps [] (false, adds (content ++ c ∷ []) r) ≡ extended r
      added r =
          ap (λ current. (false, record r { current = current }))
            (sym (append_assoc r.current content (c ∷ [])))
  scan-Reads content (c ∷ d ∷ rest) =
      if-Reads y limit ((c == 0x0d) && (d == 0x0a)) _ _ goal
        (λ crlf.
          let (cr, lf) = and_true (c == 0x0d) (d == 0x0a) crlf in
          same-Reads y limit _ (λ r. steps rest (false, close (adds content r))) goal
            (λ r. sym (
              ap (λ q. steps (d ∷ rest) q) (step_cr c (adds content r) cr)
              ∙ ap (steps rest) (step_swallow d (close (adds content r)) lf)))
            (after_line content (0x0d ∷ 0x0a ∷ []) rest (scan limit [] rest) (scan-Reads [] rest)))
        λ apart.
          if-Reads y limit (is_break c) _ _ goal
            (λ ends.
              same-Reads y limit _ (λ r. steps (d ∷ rest) (false, close (adds content r))) goal
                (λ r. sym (ap (steps rest) (break_step c d (adds content r) apart ends)))
                (after_line content (c ∷ []) (d ∷ rest) (scan limit [] (d ∷ rest))
                  (scan-Reads [] (d ∷ rest))))
            λ plain.
              let (other, still) = break_cases c plain in
              same-Reads y limit _ (λ r. steps (d ∷ rest) (false, adds (content ++ c ∷ []) r)) goal
                (λ r.
                  ap (λ current. steps (d ∷ rest) (false, record r { current = current }))
                    (sym (append_assoc r.current content (c ∷ [])))
                  ∙ sym (ap (λ q. steps (d ∷ rest) q) (step_other c (adds content r) other still)))
                (scan-Reads (content ++ c ∷ []) (d ∷ rest))
    where
      goal : Reading → Bool × Reading
      goal r = steps (c ∷ d ∷ rest) (false, adds content r)

  -- A value after a pending carriage return.
  consume_pending-Reads :
      (c : ℕ) (value : Text)
      → Reads y limit (consume_pending limit (c ∷ value)) (λ r. steps (c ∷ value) (true, close r))
  unfolding consume_pending steps
  consume_pending-Reads c value =
      if-Reads y limit (c == 0x0a) _ _ goal
        (λ lf.
          same-Reads y limit _ (λ r. steps value (false, adds [] (close r))) goal
            (λ r.
              ap (λ q. steps value (false, q)) (adds_nothing y limit (close r))
              ∙ sym (ap (steps value) (step_swallow c (close r) lf)))
            (then-Reads y limit (end_line limit (0x0d ∷ 0x0a ∷ [])) (scan limit [] value) close
              (λ r. steps value (false, adds [] r)) (end_line-Turns y limit (0x0d ∷ 0x0a ∷ []))
              (scan-Reads [] value)))
        λ other.
          same-Reads y limit _ (λ r. steps (c ∷ value) (false, adds [] (close r))) goal
            (λ r.
              ap (λ q. steps (c ∷ value) (false, q)) (adds_nothing y limit (close r))
              ∙ sym (ap (steps value) (step_after c (close r) other)))
            (then-Reads y limit (end_line limit (0x0d ∷ [])) (scan limit [] (c ∷ value)) close
              (λ r. steps (c ∷ value) (false, adds [] r)) (end_line-Turns y limit (0x0d ∷ []))
              (scan-Reads [] (c ∷ value)))
    where
      goal : Reading → Bool × Reading
      goal r = steps (c ∷ value) (true, close r)

  -- A chunk that is not empty is read from where the chunk before it ended.
  consume-shape :
      (c : ℕ) (value : Text) (s : DecoderState)
      → Yields
          (λ t. shape y limit t ≡ steps (c ∷ value) (shape y limit s))
          (consume limit (c ∷ value) s)
  unfolding consume shape
  consume-shape c value s = judged s.pending_cr refl
    where
      lowered : DecoderState
      lowered = record s { pending_cr = false }

      judged :
          (pending : Bool)
          → s.pending_cr ≡ pending
          → Yields
              (λ t.
                shape y limit t
                ≡ steps
                    (c ∷ value)
                    (if pending then (true, close (base y limit s)) else (false, base y limit s)))
              ((if pending
                then consume_pending limit (c ∷ value) lowered
                else scan limit [] (c ∷ value) s))
      judged true e = consume_pending-Reads c value lowered refl
      judged false e =
          same-Reads y limit (scan limit [] (c ∷ value)) (λ r. steps (c ∷ value) (false, adds [] r))
            (λ r. steps (c ∷ value) (false, r))
            (λ r. ap (λ q. steps (c ∷ value) (false, q)) (adds_nothing y limit r))
            (scan-Reads [] (c ∷ value)) s e

  shape-reading :
      (s : DecoderState)
      → (if s.pending_cr then close (base y limit s) else base y limit s) ≡ (shape y limit s).1
  unfolding shape
  shape-reading s = elim (Bool-cases s.pending_cr) [ inl e ↦ rw e refl | inr e ↦ rw e refl ]

  nothing_Reads :
      (s : DecoderState)
      → Yields (λ t. (shape y limit t).1 ≡ (shape y limit s).1) (consume limit [] s)
  unfolding consume consume_pending scan shape
  nothing_Reads s =
      subst (λ r. Yields (λ t. (shape y limit t).1 ≡ r) (consume limit [] s)) seen
        (judged s.pending_cr refl)
    where
      lowered : DecoderState
      lowered = record s { pending_cr = false }

      at : Bool → Reading
      at pending = if pending then close (base y limit s) else base y limit s

      seen : at s.pending_cr ≡ (shape y limit s).1
      seen = shape-reading s

      closed :
          (o : Option DecoderState)
          → Yields
              (λ t. (t.pending_cr ≡ false) × (base y limit t ≡ adds [] (close (base y limit s))))
              o
          → Yields (λ t. (shape y limit t).1 ≡ close (base y limit s)) o
      closed none h = tt
      closed (some t) (flag, same) = rw flag (same ∙ adds_nothing y limit (close (base y limit s)))

      kept :
          (o : Option DecoderState)
          → Yields
              (λ t. (t.pending_cr ≡ s.pending_cr) × (base y limit t ≡ adds [] (base y limit s)))
              o
          → s.pending_cr ≡ false
          → Yields (λ t. (shape y limit t).1 ≡ base y limit s) o
      kept none h e = tt
      kept (some t) (flag, same) e = rw (flag ∙ e) (same ∙ adds_nothing y limit (base y limit s))

      judged :
          (pending : Bool)
          → s.pending_cr ≡ pending
          → Yields
              (λ t. (shape y limit t).1 ≡ at pending)
              ((if pending then consume_pending limit [] lowered else scan limit [] [] s))
      judged true e = closed ((end_line limit (0x0d ∷ []) >> take_content limit []) lowered) (
          then-Turns y limit (end_line limit (0x0d ∷ [])) (take_content limit []) close (adds [])
            (end_line-Turns y limit (0x0d ∷ [])) (take_content-Turns y limit []) lowered)
      judged false e = kept (take_content limit [] s) (take_content-Turns y limit [] s) e

  consume_last :
      (value : Text) (s : DecoderState)
      → Yields
          (λ t. (shape y limit t).1 ≡ (steps value (shape y limit s)).1)
          (consume limit value s)
  consume_last [] s = unfold steps in nothing_Reads s
  consume_last (c ∷ value) s = judged (consume limit (c ∷ value) s) (consume-shape c value s)
    where
      judged :
          (o : Option DecoderState)
          → Yields (λ t. shape y limit t ≡ steps (c ∷ value) (shape y limit s)) o
          → Yields (λ t. (shape y limit t).1 ≡ (steps (c ∷ value) (shape y limit s)).1) o
      judged none h = tt
      judged (some t) h = ap (λ q. q.1) h

  settle-base :
      (s : DecoderState) → Yields (λ t. base y limit t ≡ (shape y limit s).1) (settle limit s)
  unfolding settle shape
  settle-base s =
      subst (λ r. Yields (λ t. base y limit t ≡ r) (settle limit s)) seen (judged s.pending_cr)
    where
      lowered : DecoderState
      lowered = record s { pending_cr = false }

      at : Bool → Reading
      at pending = if pending then close (base y limit s) else base y limit s

      seen : at s.pending_cr ≡ (shape y limit s).1
      seen = shape-reading s

      closed :
          (o : Option DecoderState)
          → Yields (λ t. (t.pending_cr ≡ false) × (base y limit t ≡ close (base y limit s))) o
          → Yields (λ t. base y limit t ≡ close (base y limit s)) o
      closed none h = tt
      closed (some t) (flag, same) = same

      judged :
          (pending : Bool)
          → Yields
              (λ t. base y limit t ≡ at pending)
              (if pending then end_line limit (0x0d ∷ []) lowered else some s)
      judged true =
          closed (end_line limit (0x0d ∷ []) lowered) (end_line-Turns y limit (0x0d ∷ []) lowered)
      judged false = refl

-- The records and the ending are those of a reading, or an event is too large.
abbrev Reports : Reading → List SseRecord × Ending → Type 0
Reports r (records, ending) =
    ((records ≡ r.records) × (ending ≡ end_of_stream r.above r.current))
    ⊎ (ending ≡ event_too_large)

finish_stream-Reports :
    (limit : ℕ) (last : Text) (y : List SseRecord) (s : DecoderState)
    → Reports (steps last (shape y limit s)).1 (finish_stream limit (decoded last) y s)
unfolding finish_stream
finish_stream-Reports limit last y s = first (consume limit last s) (consume_last y limit last s)
  where
    r : Reading
    r = (steps last (shape y limit s)).1

    second :
        (o : Option DecoderState)
        → Yields (λ u. base y limit u ≡ r) o
        → Reports r (close_stream limit y o)
    second none h = inr refl
    second (some u) h = inl (
      (unfold base in ap (λ q. q.records) h),
      (unfold base in ap (λ q. end_of_stream q.above q.current) h),
    )

    joined :
        (t : DecoderState)
        → (shape y limit t).1 ≡ r
        → (o : Option DecoderState) → Yields (λ u. base y limit u ≡ (shape y limit t).1) o
        → Yields (λ u. base y limit u ≡ r) o
    joined t e none h = tt
    joined t e (some u) h = h ∙ e

    first :
        (o : Option DecoderState)
        → Yields (λ t. (shape y limit t).1 ≡ r) o
        → Reports r (close_stream limit y (((λ t. o) >> settle limit) s))
    first none h = inr refl
    first (some t) h = second (settle limit t) (joined t h (settle limit t) (settle-base y limit t))

-- Records that are yielded are counted as yielded.
shape_yielded :
    (y : List SseRecord) (limit : ℕ) (s : DecoderState)
    → shape (y ++ s.ready) limit (record s { ready = [] }) ≡ shape y limit s
unfolding shape base
shape_yielded y limit s =
    ap
      (λ records.
        if s.pending_cr
        then (true, close (record (base y limit s) { records = records }))
        else (false, record (base y limit s) { records = records }))
      (append-nil (y ++ s.ready))

feed-Reports :
    (limit : ℕ) (chunks : List Text) (last : Text) (y : List SseRecord) (s : DecoderState)
    → All (λ chunk. same_text chunk [] ≡ false) chunks
    → Reports
        (steps (join chunks ++ last) (shape y limit s)).1
        (feed limit (map decoded chunks) (decoded last) y s)
unfolding feed join same_text
feed-Reports limit [] last y s filled = finish_stream-Reports limit last y s
feed-Reports limit ([] ∷ chunks) last y s (empty, filled) = ground (arith, empty)
feed-Reports limit ((c ∷ value) ∷ chunks) last y s (nonempty, filled) =
    next (consume limit (c ∷ value) s) (consume-shape y limit c value s)
      (λ t. feed-Reports limit chunks last (y ++ t.ready) (record t { ready = [] }) filled)
  where
    r : Reading
    r = (steps ((c ∷ value) ++ join chunks ++ last) (shape y limit s)).1

    next :
        (o : Option DecoderState)
        → Yields (λ t. shape y limit t ≡ steps (c ∷ value) (shape y limit s)) o
        → ((t : DecoderState)
            → Reports
                (steps
                  (join chunks ++ last)
                  (shape (y ++ t.ready) limit (record t { ready = [] }))).1
                (feed limit
                  (map decoded chunks)
                  (decoded last)
                  (y ++ t.ready)
                  (record t { ready = [] })))
        → Reports r (next_chunk limit y o (feed limit (map decoded chunks) (decoded last)))
    next none h more = inr refl
    next (some t) h more =
        subst
          (λ q. Reports q (
            feed limit (map decoded chunks) (decoded last) (y ++ t.ready)
              (record t { ready = [] })))
          (ap (λ q. (steps (join chunks ++ last) q).1) (shape_yielded y limit t ∙ h)
            ∙ ap (λ q. q.1)
                (sym (steps-append (c ∷ value) (join chunks ++ last) (shape y limit s))
                  ∙ ap (λ v. steps v (shape y limit s))
                      (sym (append_assoc (c ∷ value) (join chunks) last))))
          (more t)

-- Where no decoded chunk is empty, the decoder yields the records of the text that the chunks make
-- up and ends as that text ends, wherever the text was cut, or else it ends because an event is too
-- large.
pub decode_sse_records-whole :
    (limit : ℕ) (chunks : List Text) (last : Text)
    → All (λ chunk. same_text chunk [] ≡ false) chunks
    → (decode_sse_records limit (map decoded chunks) (decoded last)
        ≡ read_all (join chunks ++ last))
      ⊎ ((decode_sse_records limit (map decoded chunks) (decoded last)).1 ≡ event_too_large)
unfolding decode_sse_records read_all shape base peek
decode_sse_records-whole limit chunks last filled =
    whole (feed limit (map decoded chunks) (decoded last) [] fresh)
      (feed-Reports limit chunks last [] fresh filled)
  where
    r : Reading
    r = (steps (join chunks ++ last) (shape [] limit fresh)).1

    seen : List SseRecord × Ending
    seen = (r.records, end_of_stream r.above r.current)

    whole : (p : List SseRecord × Ending) → Reports r p → (p ≡ seen) ⊎ (p.1 ≡ event_too_large)
    whole (records, ending) (inl (e, f)) =
        inl (ap (λ v. (v, ending)) e ∙ ap (λ v. (r.records, v)) f)
    whole (records, ending) (inr large) = inr large
