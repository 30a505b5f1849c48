-- ===== src/Realtime/Audio.antt =====
-- src/realtime/audio.py: the PCM rates and formats of a session. A validator is `true` where the source
-- returns and `false` where it raises `ValueError`.
pub mod Rates
mod Tests
use nemotron_voice_agent.Base.{
  ℕ, ◌*◌, Bool, true, false, ◌&&◌, ◌||◌, Option, none, some, List, [], ◌∷◌, Text, codes, text_in,
  is_empty, ◌==◌, if◌then◌else◌,
}
use nemotron_voice_agent.Json.{Json, null, int, str, obj, Fields, lookup, or_null}

abbrev pub pipeline_pcm_rate : ℕ
pipeline_pcm_rate = 16000

abbrev pub default_client_pcm_rate : ℕ
default_client_pcm_rate = 24000

abbrev pub max_pending_input_bytes : ℕ
max_pending_input_bytes = pipeline_pcm_rate * 2 * 60

abbrev pub is_supported_rate : ℕ → Bool
is_supported_rate n = n == 8000 || (n == 16000 || (n == 24000 || n == 48000))

unfoldable is_supported_format : Text → Bool
is_supported_format t = text_in t (codes "audio/pcm" ∷ codes "pcm16" ∷ [])

-- `None` where the source raises.
unfoldable require_supported_pcm_rate : Json → Option ℕ
require_supported_pcm_rate (int n) = if is_supported_rate n then some n else none
require_supported_pcm_rate _ = none

unfoldable pub normalize_pcm_rate : ℕ → ℕ → ℕ
normalize_pcm_rate rate default = if is_supported_rate rate then rate else default

-- `"rate" in fmt and fmt.get("rate") is not None`
validate_rate : Json → Bool
unfolding require_supported_pcm_rate
validate_rate null = true
validate_rate (int n) = is_supported_rate n
validate_rate _ = false

validate_format_type : Json → Bool
validate_format_type (str t) = is_supported_format t
validate_format_type _ = false

unfoldable pub validate_format_object : Json → Bool
unfolding validate_rate validate_format_type is_supported_format
validate_format_object (str t) = is_supported_format t
validate_format_object (obj f) =
    validate_format_type (or_null (lookup f (codes "type")))
    && validate_rate (or_null (lookup f (codes "rate")))
validate_format_object _ = false

-- A value under an optional key: a missing one and `None` are passed over.
validate_optional_format : Json → Bool
unfolding validate_format_object
validate_optional_format null = true
validate_optional_format v = validate_format_object v

validate_side : Json → Bool
unfolding validate_optional_format
validate_side null = true
validate_side (obj block) = validate_optional_format (or_null (lookup block (codes "format")))
validate_side _ = false

validate_audio : Json → Bool
unfolding validate_side
validate_audio null = true
validate_audio (obj audio) =
    validate_side (or_null (lookup audio (codes "input")))
    && validate_side (or_null (lookup audio (codes "output")))
validate_audio _ = false

unfoldable pub validate_session_audio_config : Fields → Bool
unfolding validate_optional_format validate_audio
validate_session_audio_config patch =
    validate_optional_format (or_null (lookup patch (codes "input_audio_format")))
    && (validate_optional_format (or_null (lookup patch (codes "output_audio_format")))
        && validate_audio (or_null (lookup patch (codes "audio"))))

-- `_format_rate`: no rate, a rate, or a `ValueError`.
pub data FormatRate : Type 0 where
  absent invalid : FormatRate
  rate : ℕ → FormatRate

rate_or_invalid : Option ℕ → FormatRate
rate_or_invalid none = invalid
rate_or_invalid (some n) = rate n

rate_field : Json → FormatRate
unfolding rate_or_invalid require_supported_pcm_rate
rate_field null = absent
rate_field v = rate_or_invalid (require_supported_pcm_rate v)

unfoldable pub format_rate : Json → FormatRate
unfolding rate_field
format_rate (obj f) = rate_field (or_null (lookup f (codes "rate")))
format_rate _ = absent

-- `value.get(key)` if the value is a dictionary, `none` if it is not
abbrev get_in : Json → Text → Option Json
get_in (obj f) key = some (or_null (lookup f key))
get_in _ key = none

abbrev then_get : Option Json → Text → Option Json
then_get none key = none
then_get (some v) key = get_in v key

-- The value of `audio.<side>.format`, `none` where a step is no dictionary.
unfoldable pub side_format : Text → Fields → Option Json
side_format side view =
    then_get (get_in (or_null (lookup view (codes "audio"))) side) (codes "format")

rate_or_default : FormatRate → ℕ → ℕ
rate_or_default (rate n) default = n
rate_or_default _ default = default

abbrev rate_of_side : Option Json → FormatRate
rate_of_side none = absent
rate_of_side (some format) = format_rate format

unfoldable pub extract_client_pcm_rate : Fields → ℕ
unfolding side_format rate_or_default format_rate
extract_client_pcm_rate view =
    rate_or_default (rate_of_side (side_format (codes "input") view)) default_client_pcm_rate

output_rate : Option Json → ℕ → ℕ
unfolding rate_or_default format_rate
output_rate none input = default_client_pcm_rate
output_rate (some format) input = rate_or_default (format_rate format) input

-- Where the view has no output block the default is returned, and not the input's rate.
unfoldable pub extract_client_output_pcm_rate : Fields → ℕ
unfolding extract_client_pcm_rate output_rate
extract_client_output_pcm_rate view =
    output_rate (side_format (codes "output") view) (extract_client_pcm_rate view)

format_type : Json → Text
unfolding is_supported_format
format_type (str t) = if is_empty t || is_supported_format t then codes "audio/pcm" else t
format_type _ = codes "audio/pcm"

format_type_of : Option Json → Text
unfolding format_type
format_type_of (some (obj f)) = format_type (or_null (lookup f (codes "type")))
format_type_of _ = codes "audio/pcm"

unfoldable pub extract_client_input_format_type : Fields → Text
unfolding side_format format_type_of
extract_client_input_format_type view = format_type_of (side_format (codes "input") view)
