-- ===== src/JsonStream/Tests.antt =====
-- Runs of the field streamer at concrete chunks (src/examples/shared/json_stream.py).
use mathlib.Core.List.{flatten}
use nemotron_voice_agent.Base.{
  ◌≡◌, refl, Option, none, some, List, [], ◌∷◌, Text, codes, true, arith, lstrip, is_space,
  starts_with,
}
use nemotron_voice_agent.JsonStream.{Streamer, streamer, in_string, after_needle, feed_all}
use nemotron_voice_agent.JsonStream.Total.{feed_all-total}
use nemotron_voice_agent.JsonStream.Chunks.{feed_all-flatten}
use nemotron_voice_agent.JsonStream.RoundTrip.{feed_all-encode}

abbrev chunks : List Text
chunks = codes "{\"rep" ∷ codes "ly\" : \"a\\" ∷ codes "nb\", \"" ∷ []

abbrev other_chunks : List Text
other_chunks = codes "{\"reply\" : \"a\\nb\"" ∷ codes ", \"" ∷ []

abbrev finished : Streamer
finished = record (streamer (codes "reply")) { phase = in_string; done = true }

abbrev output : Option (Text × Streamer) → Text
output none = []
output (some (text, s)) = text

chunks_run : feed_all (streamer (codes "reply")) chunks ≡ some (97 ∷ 10 ∷ 98 ∷ [], finished)
unfolding feed_all after_needle starts_with lstrip is_space
chunks_run = refl

-- The escapes of one character above U+FFFF come out as two lone surrogates.
surrogates_run :
    output (feed_all (streamer (codes "reply")) (codes "{\"reply\": \"\\ud83d\\ude00\"}" ∷ []))
    ≡ 0xd83d ∷ 0xde00 ∷ []
unfolding feed_all after_needle starts_with lstrip is_space
surrogates_run = refl

-- A field of a nested object is taken for the top-level one.
nested_run :
    output (
      feed_all
        (streamer (codes "reply"))
        (codes "{\"x\": {\"reply\": \"in\"}, \"reply\": \"out\"}" ∷ []))
    ≡ codes "in"
unfolding feed_all after_needle starts_with lstrip is_space
nested_run = refl

feed_all-total_example :
    (r : Text × Streamer) × (feed_all (streamer (codes "reply")) chunks ≡ some r)
feed_all-total_example = feed_all-total (streamer (codes "reply")) chunks (omega arith)

feed_all-flatten_example :
    feed_all (streamer (codes "reply")) chunks ≡ feed_all (streamer (codes "reply")) other_chunks
feed_all-flatten_example =
    feed_all-flatten (streamer (codes "reply")) chunks other_chunks (omega arith) same_text
  where
    same_text : flatten chunks ≡ flatten other_chunks
    same_text = unfold flatten in refl

feed_all-encode_example :
    feed_all (streamer (codes "reply")) chunks ≡ some (97 ∷ 10 ∷ 98 ∷ [], finished)
unfolding flatten lstrip is_space
feed_all-encode_example =
    feed_all-encode (codes "reply") (codes "{") (codes " ") (codes " ") (97 ∷ 10 ∷ 98 ∷ [])
      (codes ", \"") chunks (refl, tt) refl refl refl
