-- ===== src/JsonStream.antt =====
-- JsonStringFieldStreamer (src/examples/shared/json_stream.py): one string field of a streamed JSON
-- object, decoded chunk by chunk.
pub mod Search
pub mod Total
pub mod Extend
pub mod Chunks
pub mod RoundTrip
mod Tests
use nemotron_voice_agent.Base.{
  ℕ, zero, suc, ◌+◌, ◌-◌, ◌*◌, Bool, true, false, ◌&&◌, ◌||◌, not, Option, none, some, List, [],
  ◌∷◌, ◌++◌, Text, codes, starts_with, strip, lstrip, is_empty, length, drop, leb, ◌==◌,
  if◌then◌else◌,
}

pub data Phase : Type 0 where
  search colon quote in_string : Phase

pub record Streamer : Type 0 where
  pub needle : Text
  pub phase : Phase
  pub buffer : Text
  pub escaped : Bool
  pub unicode_remaining : ℕ
  pub unicode_buffer : Text
  pub done : Bool

-- `f'"{field_name}"'` is the needle.
abbrev pub streamer : Text → Streamer
streamer field_name = record {
  needle = b'"' ∷ (field_name ++ b'"' ∷ []);
  phase = search;
  buffer = [];
  escaped = false;
  unicode_remaining = 0;
  unicode_buffer = [];
  done = false;
}

-- `buffer[idx + len(needle):]` for `idx = buffer.find(needle)`
unfoldable pub after_needle : Text → Text → Option Text
after_needle n [] = if starts_with [] n then some [] else none
after_needle n (c ∷ s) =
    let rest = after_needle n s in
    if starts_with (c ∷ s) n then some (drop (length n) (c ∷ s)) else rest

-- `buffer[-n:]` for a positive `n`
abbrev pub last_chars : ℕ → Text → Text
last_chars n s = drop (length s - n) s

-- A round of the loop of `_advance_to_string`: it goes on, or returns.
pub data Round : Type 0 where
  again : Streamer → Round
  out : Text → Streamer → Round

-- The part of the round for the phase "quote", on the stripped buffer.
abbrev pub at_quote : Streamer → Text → Round
at_quote s [] = out [] (record s { phase = quote; buffer = [] })
at_quote s (c ∷ r) =
    if c == b'"'
    then out r (record s { phase = in_string; buffer = [] })
    else again (record s { phase = search; buffer = c ∷ r })

abbrev pub at_colon : Streamer → Text → Round
at_colon s [] = out [] (record s { phase = colon; buffer = [] })
at_colon s (c ∷ r) =
    if c == b':' then at_quote s (lstrip r) else again (record s { phase = search; buffer = c ∷ r })

abbrev pub at_search : Streamer → Option Text → Round
at_search s none =
    out [] (record s { phase = search; buffer = last_chars (length s.needle) s.buffer })
at_search s (some rest) = at_colon s (lstrip rest)

unfoldable pub round_at : Phase → Streamer → Round
round_at search s = at_search s (after_needle s.needle s.buffer)
round_at colon s = at_colon s (lstrip s.buffer)
round_at quote s = at_quote s (lstrip s.buffer)
round_at in_string s = again s

-- The loop, on fuel.
unfoldable pub advance : ℕ → Streamer → Option (Text × Streamer)
unfolding round_at
advance zero s = none
advance (suc fuel) s = elim (round_at s.phase s) [
  | out text s' ↦ some (text, s')
  | again s' ↦ advance fuel s'
]

-- Hexadecimal digits.
unfoldable hex_digit : ℕ → Option ℕ
hex_digit c =
    if leb b'0' c && leb c b'9'
    then some (c - b'0')
    else if leb b'a' c && leb c b'f'
    then some (c - 87)
    else if leb b'A' c && leb c b'F'
    then some (c - 55)
    else none

-- Digits with single underscores between them; `after_digit` tells that the last character was a digit.
unfoldable hex_digits : ℕ → Bool → Text → Option ℕ
unfolding hex_digit
hex_digits n after_digit [] = if after_digit then some n else none
hex_digits n after_digit (c ∷ s) =
    let skip = hex_digits n false s in
    if c == b'_'
    then (if after_digit then skip else none)
    else elim (hex_digit c) [ none ↦ none | some d ↦ hex_digits (n * 16 + d) true s ]

abbrev skip_underscore : Text → Text
skip_underscore [] = []
skip_underscore (c ∷ s) = if c == b'_' then s else c ∷ s

-- An optional prefix "0x", after which an underscore may stand.
unfoldable hex_unsigned : Text → Option ℕ
unfolding hex_digits starts_with
hex_unsigned s =
    if starts_with s (codes "0x") || starts_with s (codes "0X")
    then hex_digits 0 false (skip_underscore (drop 2 s))
    else hex_digits 0 false s

-- `chr(n)` of a negated number: only of zero.
abbrev negated : Option ℕ → Option ℕ
negated (some zero) = some 0
negated _ = none

abbrev hex_signed : Text → Option ℕ
hex_signed [] = none
hex_signed (c ∷ r) =
    if c == b'+'
    then hex_unsigned r
    else if c == b'-'
    then negated (hex_unsigned r)
    else hex_unsigned (c ∷ r)

-- `chr(int(s, 16))`, where `none` is ValueError; the digits outside of ASCII are left out.
unfoldable chr_int : Text → Option ℕ
unfolding hex_unsigned strip
chr_int s = hex_signed (strip s)

-- `_JSON_ESCAPES.get(ch, ch)`
unfoldable pub json_escape : ℕ → ℕ
json_escape c =
    if c == b'b'
    then 8
    else if c == b'f'
    then 12
    else if c == b'n'
    then 10
    else if c == b'r'
    then 13
    else if c == b't'
    then 9
    else c

-- The decoded characters of a finished `\u` escape.
unfoldable pub unicode_out : Text → Text
unfolding chr_int
unicode_out digits = elim (chr_int digits) [ some c ↦ c ∷ [] | none ↦ b'\\' ∷ b'u' ∷ digits ]

-- A character of a `\u` escape, with the number of those that are left.
unfoldable pub take_unicode : Streamer → ℕ → ℕ → Text × Streamer
unfolding unicode_out
take_unicode s ch zero = (
  unicode_out (s.unicode_buffer ++ ch ∷ []),
  record s { unicode_remaining = 0; unicode_buffer = [] },
)
take_unicode s ch (suc n) =
    ([], record s { unicode_remaining = suc n; unicode_buffer = s.unicode_buffer ++ ch ∷ [] })

unfoldable pub take_plain : Streamer → ℕ → Text × Streamer
unfolding json_escape
take_plain s ch =
    if s.escaped
    then (if ch == b'u'
        then ([], record s { escaped = false; unicode_remaining = 4; unicode_buffer = [] })
        else (json_escape ch ∷ [], record s { escaped = false }))
    else if ch == b'\\'
    then ([], record s { escaped = true })
    else if ch == b'"'
    then ([], record s { done = true })
    else (ch ∷ [], s)

-- What one character appends to the output, and the state after it.
unfoldable pub take_at : ℕ → Streamer → ℕ → Text × Streamer
unfolding take_unicode take_plain
take_at zero s ch = take_plain s ch
take_at (suc n) s ch = take_unicode s ch n

unfoldable pub take_char : Streamer → ℕ → Text × Streamer
unfolding take_at
take_char s ch = take_at s.unicode_remaining s ch

-- The loop of `_consume_string_chars`, which breaks at the closing quote.
unfoldable pub consume : Streamer → Text → Text × Streamer
unfolding take_char
consume s [] = ([], s)
consume s (ch ∷ text) =
    let (o, s') = take_char s ch in
    elim s'.done [ true ↦ (o, s') | false ↦ let (rest, s'') = consume s' text in (o ++ rest, s'') ]

abbrev pub is_in_string : Phase → Bool
is_in_string in_string = true
is_in_string _ = false

-- The text that is decoded once the string has begun.
abbrev pub emit : Text × Streamer → Text × Streamer
emit (text, s) = if is_in_string s.phase then consume s text else ([], s)

abbrev pub emitted : Option (Text × Streamer) → Option (Text × Streamer)
emitted none = none
emitted (some r) = some (emit r)

-- A round consumes text or ends the loop, so that two rounds more than the buffer has characters do.
unfoldable pub feed : Streamer → Text → Option (Text × Streamer)
unfolding advance consume
feed s text =
    if s.done || is_empty text
    then some ([], s)
    else if is_in_string s.phase
    then some (consume s text)
    else emitted (advance (length (s.buffer ++ text) + 2) (record s { buffer = s.buffer ++ text }))

-- The output of what follows, after the output so far.
abbrev pub after_output : Text → Text × Streamer → Text × Streamer
after_output o (text, s) = (o ++ text, s)

abbrev pub prepended : Text → Option (Text × Streamer) → Option (Text × Streamer)
prepended o none = none
prepended o (some r) = some (after_output o r)

-- The chunks of a stream, with the output of all.
unfoldable pub feed_all : Streamer → List Text → Option (Text × Streamer)
unfolding feed
feed_all s [] = some ([], s)
feed_all s (chunk ∷ chunks) = elim (feed s chunk) [
  | none ↦ none
  | some (o, s') ↦ prepended o (feed_all s' chunks)
]
