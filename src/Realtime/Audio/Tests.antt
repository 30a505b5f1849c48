-- ===== src/Realtime/Audio/Tests.antt =====
-- A client that asks for telephone audio (src/realtime/audio.py).
use nemotron_voice_agent.Base.{text_eq, refl, codes}
use nemotron_voice_agent.Json.{obj, int, str, Fields, field, end, lookup}
use nemotron_voice_agent.Realtime.Audio.Rates.{HasFormat}

abbrev telephone : Fields
telephone = field (codes "type") (str (codes "audio/pcm")) (field (codes "rate") (int 8000) end)

abbrev inputs : Fields
inputs = field (codes "format") (obj telephone) end

abbrev sides : Fields
sides = field (codes "input") (obj inputs) end

abbrev patch : Fields
patch = field (codes "audio") (obj sides) end

patch-HasFormat : HasFormat (codes "input") patch telephone
unfolding lookup text_eq
patch-HasFormat = record {
  audio = sides;
  block = inputs;
  has_audio = refl;
  has_block = refl;
  has_format = refl;
}
