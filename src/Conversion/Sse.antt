-- ===== src/Conversion/Sse.antt =====
-- src/protocols/conversion/sse.ts: the decoder of server-sent events. What `TextDecoder` makes of the
-- chunks, and what the source of chunks throws, are inputs; `measureEvent` runs what it is given.
pub mod Lines
pub mod Tests
use ghc_gateway.Base.{
  ℕ, ◌+◌, ◌≡◌, refl, Bool, true, false, not, ◌&&◌, ◌||◌, Option, none, some, List, [], ◌∷◌, ◌++◌,
  Text, text, same_text, starts_with, trim, any, length, ltb, leb, ◌==◌, if◌then◌else◌,
}
use ghc_gateway.Gateway.Failures.{Thrown}
use ghc_gateway.Conversion.Ledger.Encoding.{utf8_length}

pub record SseRecord : Type 0 where
  pub event_name : Option Text
  pub data_text : Text

-- `FragmentAccumulator`
pub record FragmentAccumulator : Type 0 where
  pub chunks : List Text
  pub fragments : List Text

-- `texts.join("")`
unfoldable pub join : List Text → Text
join [] = []
join (t ∷ ts) = t ++ join ts

abbrev pub no_fragments : FragmentAccumulator
no_fragments = record { chunks = []; fragments = [] }

unfoldable pub append : Text → FragmentAccumulator → FragmentAccumulator
append [] line = line
append (c ∷ value) line =
    let fragments = line.fragments ++ (c ∷ value) ∷ [] in
    if leb 1024 (length fragments)
    then record { chunks = line.chunks ++ join fragments ∷ []; fragments = [] }
    else record line { fragments = fragments }

unfoldable pub peek : FragmentAccumulator → Text
unfolding join
peek line = join (line.chunks ++ line.fragments)

-- `text.join("\n")`
unfoldable pub join_lines : List Text → Text
join_lines [] = []
join_lines (t ∷ []) = t
join_lines (t ∷ u ∷ ts) = t ++ 0x0a ∷ join_lines (u ∷ ts)

-- A line at its first colon; without one the whole line is the name.
unfoldable pub split_field : Text → Text × Text
split_field [] = ([], [])
split_field (c ∷ line) =
    let (name, value) = split_field line in if c == 0x3a then ([], line) else (c ∷ name, value)

-- `value.replace(/^ /u, "")`
unfoldable pub drop_space : Text → Text
drop_space [] = []
drop_space (c ∷ value) = if c == 0x20 then value else c ∷ value

-- One round of the loop of `parseRecordLines` on the event name and the data so far.
unfoldable pub read_field : Text → Option Text × List Text → Option Text × List Text
unfolding split_field drop_space
read_field [] (event_name, values) = (event_name, values)
read_field (c ∷ line) (event_name, values) =
    let (name, value) = split_field (c ∷ line) in
    if c == 0x3a
    then (event_name, values)
    else if same_text name (text "event")
    then (some (drop_space value), values)
    else if same_text name (text "data")
    then (event_name, values ++ drop_space value ∷ [])
    else (event_name, values)

unfoldable pub read_fields : List Text → Option Text × List Text → Option Text × List Text
unfolding read_field
read_fields [] fields = fields
read_fields (line ∷ lines) fields = read_fields lines (read_field line fields)

unfoldable pub record_of : Option Text × List Text → Option SseRecord
unfolding join_lines
record_of (event_name, []) = none
record_of (event_name, d ∷ ds) =
    some (record { event_name = event_name; data_text = join_lines (d ∷ ds) })

unfoldable pub parse_record_lines : List Text → Option SseRecord
unfolding read_fields record_of
parse_record_lines lines = record_of (read_fields lines (none, []))

-- The variables of the generator.
pub record DecoderState : Type 0 where
  pub line : FragmentAccumulator
  pub record_lines : List Text
  pub record_bytes : ℕ
  pub pending_cr : Bool
  pub ready : List SseRecord

abbrev pub fresh : DecoderState
fresh = record {
  line = no_fragments;
  record_lines = [];
  record_bytes = 0;
  pending_cr = false;
  ready = [];
}

-- `none` once the event is too large.
abbrev pub Decoder : Type 0
Decoder = DecoderState → Option DecoderState

infixl 2 ◌>>◌
abbrev pub ◌>>◌ : Decoder → Decoder → Decoder
(m >> k) s = elim (m s) [ none ↦ none | some t ↦ k t ]

abbrev pub push_record : Option SseRecord → List SseRecord → List SseRecord
push_record none ready = ready
push_record (some parsed) ready = ready ++ parsed ∷ []

-- `finishLine`
unfoldable pub finish_line : DecoderState → DecoderState
unfolding peek parse_record_lines
finish_line s = elim (peek s.line) [
  | [] ↦ record s {
    line = no_fragments;
    record_lines = [];
    record_bytes = 0;
    ready = push_record (parse_record_lines s.record_lines) s.ready;
  }
  | c ∷ value ↦ record s { line = no_fragments; record_lines = s.record_lines ++ (c ∷ value) ∷ [] }
]

unfoldable pub is_break : ℕ → Bool
is_break c = c == 0x0a || c == 0x0d

module _ (event_limit_bytes : ℕ) where
  unfoldable pub reserve : Text → Decoder
  reserve value s =
      let bytes = s.record_bytes + utf8_length value in
      if ltb event_limit_bytes bytes then none else some (record s { record_bytes = bytes })

  -- `line.append(content); reserve(content)`
  unfoldable pub take_content : Text → Decoder
  take_content content s = reserve content (record s { line = append content s.line })

  -- `reserve(separator); finishLine()`
  unfoldable pub end_line : Text → Decoder
  end_line separator = reserve separator >> λ s. some (finish_line s)

  -- The loop of `consume` from `index`, with `value.slice(start, index)` and the rest of the value.
  unfoldable pub scan : Text → Text → Decoder
  scan content [] = take_content content
  scan content (c ∷ []) =
      if c == 0x0d
      then (take_content content >> (λ s. some (record s { pending_cr = true })) >> take_content [])
      else if c == 0x0a
      then take_content content >> end_line (c ∷ []) >> take_content []
      else take_content (content ++ c ∷ [])
  scan content (c ∷ d ∷ rest) =
      if c == 0x0d && d == 0x0a
      then take_content content >> end_line (0x0d ∷ 0x0a ∷ []) >> scan [] rest
      else if is_break c
      then take_content content >> end_line (c ∷ []) >> scan [] (d ∷ rest)
      else scan (content ++ c ∷ []) (d ∷ rest)

  abbrev lower_pending : DecoderState → DecoderState
  lower_pending s = record s { pending_cr = false }

  -- `consume` where a carriage return ended the value before.
  unfoldable pub consume_pending : Text → Decoder
  consume_pending [] = end_line (0x0d ∷ []) >> scan [] []
  consume_pending (c ∷ value) =
      if c == 0x0a
      then end_line (0x0d ∷ 0x0a ∷ []) >> scan [] value
      else end_line (0x0d ∷ []) >> scan [] (c ∷ value)

  unfoldable pub consume : Text → Decoder
  consume value s =
      if s.pending_cr then consume_pending value (lower_pending s) else scan [] value s

-- What the loop over the bytes meets: a decoded chunk, a `TypeError`, which is how the decoder refuses
-- a chunk, or another error of the source of chunks.
pub data Fed : Type 0 where
  decoded : Text → Fed
  undecodable : Fed
  rejects : Thrown → Fed

pub data Ending : Type 0 where
  finished event_too_large invalid_utf8 upstream_stream_truncated : Ending
  rethrown : Thrown → Ending

abbrev is_blank : Text → Bool
is_blank value = same_text (trim value) []

-- The check at the end, on the lines of the record and the line that are left.
unfoldable pub end_of_stream : List Text → Text → Ending
end_of_stream lines line =
    if any (λ value. not (is_blank value)) lines || not (is_blank line)
    then upstream_stream_truncated
    else finished

module _ (event_limit_bytes : ℕ) where
  -- `if (pendingCr) { … }` at the end of the stream
  unfoldable pub settle : Decoder
  settle s =
      if s.pending_cr
      then end_line event_limit_bytes (0x0d ∷ []) (record s { pending_cr = false })
      else some s

  abbrev pub close_stream : List SseRecord → Option DecoderState → List SseRecord × Ending
  close_stream yielded none = (yielded, event_too_large)
  close_stream yielded (some s) = (yielded ++ s.ready, end_of_stream s.record_lines (peek s.line))

  -- The end of the stream, given what `decoder.decode()` returns.
  unfoldable pub finish_stream : Fed → List SseRecord → DecoderState → List SseRecord × Ending
  unfolding settle
  finish_stream (decoded value) yielded s =
      close_stream yielded ((consume event_limit_bytes value >> settle) s)
  finish_stream undecodable yielded s = (yielded, invalid_utf8)
  finish_stream (rejects error) yielded s = (yielded, rethrown error)

  abbrev pub next_chunk :
      List SseRecord
      → Option DecoderState
      → (List SseRecord → DecoderState → List SseRecord × Ending)
      → List SseRecord × Ending
  next_chunk yielded none more = (yielded, event_too_large)
  next_chunk yielded (some s) more = more (yielded ++ s.ready) (record s { ready = [] })

  -- The records that were yielded, and how the generator ends.
  unfoldable pub feed : List Fed → Fed → List SseRecord → DecoderState → List SseRecord × Ending
  unfolding finish_stream
  feed [] last yielded s = finish_stream last yielded s
  feed (decoded value ∷ chunks) last yielded s =
      next_chunk yielded (consume event_limit_bytes value s) (feed chunks last)
  feed (undecodable ∷ chunks) last yielded s = (yielded, invalid_utf8)
  feed (rejects error ∷ chunks) last yielded s = (yielded, rethrown error)

  unfoldable pub decode_sse_records : List Fed → Fed → List SseRecord × Ending
  unfolding feed
  decode_sse_records chunks last = feed chunks last [] fresh
