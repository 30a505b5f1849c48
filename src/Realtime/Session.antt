-- ===== src/Realtime/Session.antt =====
-- src/realtime/session.py: merging a client's patch into the session view, and the part of a patch
-- that may change a running session.
pub mod Merge
pub mod Paths
pub mod Live
mod Tests
use nemotron_voice_agent.Base.{
  ℕ, Bool, true, false, not, ◌&&◌, ◌||◌, Option, none, some, List, [], ◌∷◌, ◌++◌, Text, codes,
  text_in, text_eq, is_empty, is_some, ◌==◌, if◌then◌else◌,
}
use nemotron_voice_agent.Json.{
  Json, null, boolean, int, negative, float, str, arr, obj, Items, nil, cons, Fields, end, field,
  lookup, assign, or_null, has, size, same, keep, is_end,
}

-- The second argument is `out.get(key)`: two dictionaries are merged, anything else replaces.
unfoldable mutual
  pub merge_value : Json → Option Json → Json
  merge_value (obj p) (some (obj b)) = obj (merge_session_patch p b)
  merge_value v _ = v

  pub merge_session_patch : Fields → Fields → Fields
  merge_session_patch end out = out
  merge_session_patch (field k v rest) out =
      merge_session_patch rest (assign out k (merge_value v (lookup out k)))

-- `_LIVE_SESSION_KEYS` and the three sets below it.
unfoldable pub is_live_key : Text → Bool
is_live_key k = text_in k (
    codes "type"
    ∷ codes "model"
    ∷ codes "voice"
    ∷ codes "turn_detection"
    ∷ codes "input_audio_transcription"
    ∷ codes "audio"
    ∷ codes "input_audio_format"
    ∷ codes "output_audio_format"
    ∷ [])

unfoldable is_live_audio_key : Text → Bool
is_live_audio_key k = text_in k (codes "input" ∷ codes "output" ∷ [])

unfoldable pub is_live_input_key : Text → Bool
is_live_input_key k =
    text_in k (codes "format" ∷ codes "turn_detection" ∷ codes "transcription" ∷ [])

unfoldable pub is_live_output_key : Text → Bool
is_live_output_key k = text_in k (codes "format" ∷ codes "voice" ∷ [])

-- `isinstance(block, dict)` and the keys kept, put under `key` if there are any
unfoldable pub put_kept : (Text → Bool) → Text → Json → Fields → Fields
put_kept p key (obj block) out =
    let kept = keep p block in if is_end kept then out else assign out key (obj kept)
put_kept p key _ out = out

live_audio : Fields → Fields
unfolding put_kept is_live_input_key is_live_output_key
live_audio audio =
    let inp =
      put_kept (λ k. is_live_input_key k && not (text_eq k (codes "turn_detection")))
        (codes "input") (or_null (lookup audio (codes "input"))) end in
    put_kept is_live_output_key (codes "output") (or_null (lookup audio (codes "output"))) inp

put_audio : Json → Fields → Fields
unfolding live_audio
put_audio (obj audio) out =
    let audio_out = live_audio audio in
    if is_end audio_out then out else assign out (codes "audio") (obj audio_out)
put_audio _ out = out

unfoldable pub live_session_patch : Fields → Fields
unfolding put_audio is_live_key
live_session_patch patch = put_audio (or_null (lookup patch (codes "audio"))) (
    keep (λ k. is_live_key k && not (text_in k (codes "audio" ∷ codes "turn_detection" ∷ [])))
      patch)

-- `_turn_detection(view)`
nested_turn_detection : Json → Option Json
nested_turn_detection (obj f) = lookup f (codes "turn_detection")
nested_turn_detection _ = none

unfoldable pub audio_input : Json → Json
audio_input (obj audio) = or_null (lookup audio (codes "input"))
audio_input _ = null

or_top : Option Json → Fields → Json
or_top (some v) view = v
or_top none view = or_null (lookup view (codes "turn_detection"))

unfoldable pub turn_detection_of : Fields → Json
unfolding nested_turn_detection audio_input or_top
turn_detection_of view =
    or_top (nested_turn_detection (audio_input (or_null (lookup view (codes "audio"))))) view

-- `"turn_detection" in f and not _jsonish_equal(f.get("turn_detection"), current)`
turn_detection_changed : Option Json → Json → Bool
unfolding same
turn_detection_changed none current = false
turn_detection_changed (some v) current = not (same v (some current))

-- The keys of `session.nvidia` that a client may name are an argument: they come from the slots of the
-- service catalog.
module _ (nvidia_keys : List Text) where
  bad_nvidia : Fields → Fields → List Text
  unfolding same
  bad_nvidia end current = []
  bad_nvidia (field k v rest) current =
      let others = bad_nvidia rest current in
      if text_in k nvidia_keys && not (same v (lookup current k))
      then (codes "nvidia." ++ k) ∷ others
      else others

  bad_key : Text → Json → Option Json → List Text
  unfolding same
  bad_key k v current = if same v current then [] else k ∷ []

  -- `dict(current.get("nvidia") or {})`
  nvidia_of : Option Json → Fields
  nvidia_of (some (obj f)) = f
  nvidia_of _ = end

  bad_nvidia_value : Json → Option Json → List Text
  unfolding bad_nvidia nvidia_of
  bad_nvidia_value (obj f) current = bad_nvidia f (nvidia_of current)
  bad_nvidia_value _ current = codes "nvidia" ∷ []

  bad_fields : Fields → Fields → List Text
  unfolding bad_key bad_nvidia_value is_live_key
  bad_fields end current = []
  bad_fields (field k v rest) current =
      let others = bad_fields rest current in
      if is_live_key k
      then others
      else if text_eq k (codes "nvidia")
      then bad_nvidia_value v (lookup current k) ++ others
      else bad_key k v (lookup current k) ++ others

  -- The keys that `p` does not accept, under a prefix.
  bad_keys : Text → (Text → Bool) → Fields → List Text
  bad_keys prefix p end = []
  bad_keys prefix p (field k v rest) =
      let others = bad_keys prefix p rest in if p k then others else (prefix ++ k) ∷ others

  bad_input : Json → Json → List Text
  unfolding bad_keys is_live_input_key turn_detection_changed
  bad_input (obj inp) current =
      bad_keys (codes "audio.input.") is_live_input_key inp
      ++ (if turn_detection_changed (lookup inp (codes "turn_detection")) current
          then codes "audio.input.turn_detection" ∷ []
          else [])
  bad_input _ current = []

  bad_output : Json → List Text
  unfolding bad_keys is_live_output_key
  bad_output (obj out) = bad_keys (codes "audio.output.") is_live_output_key out
  bad_output _ = []

  bad_audio : Json → Json → List Text
  unfolding bad_keys is_live_audio_key bad_input bad_output
  bad_audio (obj audio) current =
      bad_keys (codes "audio.") is_live_audio_key audio
      ++ (bad_input (or_null (lookup audio (codes "input"))) current
          ++ bad_output (or_null (lookup audio (codes "output"))))
  bad_audio _ current = []

  -- Duplicates are left in: callers ask only whether there are any, and show them.
  unfoldable pub unsupported_live_session_fields : Fields → Fields → List Text
  unfolding turn_detection_of turn_detection_changed bad_fields bad_audio
  unsupported_live_session_fields patch current =
      let now = turn_detection_of current in
      (if turn_detection_changed (lookup patch (codes "turn_detection")) now
        then codes "turn_detection" ∷ []
        else [])
      ++ (bad_fields patch current ++ bad_audio (or_null (lookup patch (codes "audio"))) now)

  -- `nvidia_public_view`: the allowed keys and the server's own `server_tools`.
  unfoldable pub nvidia_public_view : Fields → Fields
  nvidia_public_view = keep (λ k. text_in k (codes "server_tools" ∷ nvidia_keys))

-- `validate_input_transcription`: `true` where it returns, `false` where it raises.
is_str_or_null : Json → Bool
is_str_or_null null = true
is_str_or_null (str t) = true
is_str_or_null _ = false

valid_selector : Json → Bool
unfolding is_str_or_null
valid_selector null = true
valid_selector (obj f) = is_str_or_null (or_null (lookup f (codes "model")))
valid_selector _ = false

field_or_null : Json → Text → Json
field_or_null (obj f) k = or_null (lookup f k)
field_or_null _ k = null

or_else_top : Json → Fields → Json
or_else_top null patch = or_null (lookup patch (codes "input_audio_transcription"))
or_else_top v patch = v

unfoldable pub validate_input_transcription : Fields → Bool
unfolding valid_selector or_else_top field_or_null audio_input
validate_input_transcription patch = valid_selector (
    or_else_top
      (field_or_null (audio_input (or_null (lookup patch (codes "audio")))) (codes "transcription"))
      patch)

-- `{"type": "server_vad"}`, with no other key
is_server_vad_type : Json → Bool
is_server_vad_type (str t) = text_eq t (codes "server_vad")
is_server_vad_type _ = false

only_type : Fields → Bool
only_type end = true
only_type (field k v rest) = text_eq k (codes "type") && only_type rest

unfoldable valid_turn_detection : Option Json → Bool
unfolding is_server_vad_type only_type
valid_turn_detection none = true
valid_turn_detection (some (obj f)) =
    is_server_vad_type (or_null (lookup f (codes "type"))) && only_type f
valid_turn_detection (some _) = false

unfoldable pub validate_server_vad : Fields → Bool
unfolding valid_turn_detection nested_turn_detection audio_input
validate_server_vad patch =
    valid_turn_detection (lookup patch (codes "turn_detection"))
    && valid_turn_detection
        (nested_turn_detection (audio_input (or_null (lookup patch (codes "audio")))))
