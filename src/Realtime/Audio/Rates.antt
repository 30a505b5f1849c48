-- ===== src/Realtime/Audio/Rates.antt =====
-- What the rates of a session can be (src/realtime/audio.py).
use nemotron_voice_agent.Base.{
  ℕ, ◌≡◌, refl, true, some, Text, codes, arith, Option-cases, inl, inr, and_left, and_right,
  Bool-cases,
}
use nemotron_voice_agent.Json.{Json, null, obj, int, str, Fields, lookup, or_null}
use nemotron_voice_agent.Realtime.Audio.{
  is_supported_rate, extract_client_pcm_rate, extract_client_output_pcm_rate,
  extract_client_input_format_type, side_format, format_rate, rate_or_default,
  validate_format_object, validate_session_audio_config, validate_audio, validate_side, rate_field,
  validate_rate, validate_format_type, format_type,
}

rate_field-supported :
    (v : Json) (d : ℕ)
    → is_supported_rate d ≡ true
    → is_supported_rate (rate_or_default (rate_field v) d) ≡ true
unfolding rate_field rate_or_default
rate_field-supported null d h = h
rate_field-supported (int n) d h = elim (Bool-cases (is_supported_rate n)) [
  | inl e ↦ rw e e
  | inr e ↦ rw e h
]
rate_field-supported _ d h = h

format_rate-supported :
    (v : Json) (d : ℕ)
    → is_supported_rate d ≡ true
    → is_supported_rate (rate_or_default (format_rate v) d) ≡ true
unfolding format_rate rate_or_default
format_rate-supported (obj f) d h = rate_field-supported (or_null (lookup f (codes "rate"))) d h
format_rate-supported _ d h = h

input-supported : (view : Fields) → is_supported_rate (extract_client_pcm_rate view) ≡ true
unfolding extract_client_pcm_rate
input-supported view = elim (Option-cases (side_format (codes "input") view)) [
  | inl e ↦ rw e refl
  | inr (format, e) ↦ rw e (format_rate-supported format 24000 refl)
]

output-supported : (view : Fields) → is_supported_rate (extract_client_output_pcm_rate view) ≡ true
unfolding extract_client_output_pcm_rate
output-supported view = elim (Option-cases (side_format (codes "output") view)) [
  | inl e ↦ rw e refl
  | inr (format, e) ↦
      rw e (format_rate-supported format (extract_client_pcm_rate view) (input-supported view))
]

-- Whatever the session view holds, both resamplers run at a supported rate.
extract-is_supported_rate :
    (view : Fields)
    → (is_supported_rate (extract_client_pcm_rate view) ≡ true)
      × (is_supported_rate (extract_client_output_pcm_rate view) ≡ true)
extract-is_supported_rate view = (input-supported view, output-supported view)

-- The path `audio.<side>.format` of a view.
pub record HasFormat (side : Text) (view f : Fields) : Type 0 where
  pub audio : Fields
  pub block : Fields
  pub has_audio : lookup view (codes "audio") ≡ some (obj audio)
  pub has_block : lookup audio side ≡ some (obj block)
  pub has_format : lookup block (codes "format") ≡ some (obj f)

side_format_lem :
    (side : Text) (view f : Fields) → HasFormat side view f → side_format side view ≡ some (obj f)
unfolding side_format
side_format_lem side view f h = rw h.has_audio (rw h.has_block (rw h.has_format refl))

valid_format :
    (patch f : Fields)
    → HasFormat (codes "input") patch f
    → validate_session_audio_config patch ≡ true
    → validate_format_object (obj f) ≡ true
unfolding validate_session_audio_config
valid_format patch f h v =
    let audio_ok : validate_audio (or_null (lookup patch (codes "audio"))) ≡ true = ground arith in
    let sides : validate_audio (obj h.audio) ≡ true = rw h.has_audio at audio_ok in
    let side : validate_side (or_null (lookup h.audio (codes "input"))) ≡ true = ground arith in
    let block : validate_side (obj h.block) ≡ true = rw h.has_block at side in
    rw h.has_format at block

pcm_type : (v : Json) → validate_format_type v ≡ true → format_type v ≡ codes "audio/pcm"
unfolding format_type validate_format_type
pcm_type (str t) h = ground arith
pcm_type _ h = cc

-- An explicit input rate that the validator lets through is the rate that the uplink then uses, and
-- the format is read as PCM.
extract-validate :
    (patch f : Fields) (n : ℕ)
    → HasFormat (codes "input") patch f
    → lookup f (codes "rate") ≡ some (int n)
    → validate_session_audio_config patch ≡ true
    → (extract_client_pcm_rate patch ≡ n)
      × (extract_client_input_format_type patch ≡ codes "audio/pcm")
unfolding extract_client_pcm_rate extract_client_input_format_type validate_format_object
extract-validate patch f n h r v =
    let valid : validate_format_object (obj f) ≡ true = valid_format patch f h v in
    let rate_ok : validate_rate (or_null (some (int n))) ≡ true = rw r at (
      and_right (validate_format_type (or_null (lookup f (codes "type"))))
        (validate_rate (or_null (lookup f (codes "rate")))) valid) in
    (
      rw (side_format_lem (codes "input") patch f h) (rw r (rw rate_ok refl)),
      rw (side_format_lem (codes "input") patch f h)
          (pcm_type (or_null (lookup f (codes "type"))) (and_left _ _ valid)),
    )
