-- ===== src/Realtime/Serializer/Voices.antt =====
-- The patches of a session.update (src/realtime/serializer.py): legacy format keys and the voice.
use nemotron_voice_agent.Base.{
  Bool, true, false, not, ◌||◌, Option, some, [], ◌∷◌, Text, codes, text_in, is_some, strip,
  if◌then◌else◌,
}
use nemotron_voice_agent.Json.{Json, null, str, obj, Fields, end, lookup, assign, or_null, keep}

-- `dict(value or {})` where the value is a dictionary or missing
abbrev pub dict_of : Option Json → Fields
dict_of (some (obj f)) = f
dict_of _ = end

-- `if key in patch: block["format"] = patch.pop(key)`, for one side
unfoldable pub move_format : Text → Text → Fields → Fields → Fields
move_format key side patch audio =
    if is_some (lookup patch key)
    then assign audio side
        (obj (assign (dict_of (lookup audio side)) (codes "format") (or_null (lookup patch key))))
    else audio

unfoldable pub fold_formats : Fields → Fields
unfolding move_format
fold_formats patch =
    let inp = codes "input_audio_format" in
    let out = codes "output_audio_format" in
    let audio =
      move_format out (codes "output") patch
        (move_format inp (codes "input") patch (dict_of (lookup patch (codes "audio")))) in
    if is_some (lookup patch inp) || is_some (lookup patch out)
    then assign (keep (λ k. not (text_in k (inp ∷ out ∷ []))) patch) (codes "audio") (obj audio)
    else patch

unfoldable pub stripped_voice : Json → Text → Text
unfolding strip
stripped_voice (str t) other = strip t
stripped_voice _ other = other

unfoldable pub field_of : Json → Text → Json
field_of (obj f) k = or_null (lookup f k)
field_of _ k = null

-- The voice of a patch: that of `audio.output`, if it is a text, or else the one at the top.
unfoldable pub patch_voice : Fields → Text
unfolding stripped_voice field_of
patch_voice patch =
    stripped_voice
      (field_of (field_of (or_null (lookup patch (codes "audio"))) (codes "output"))
        (codes "voice"))
      (stripped_voice (or_null (lookup patch (codes "voice"))) [])

-- `if isinstance(patch.get("voice"), str): patch["voice"] = voice`, and in `audio.output`
unfoldable pub is_text : Json → Bool
is_text (str t) = true
is_text _ = false

unfoldable pub set_output_voice : Text → Json → Fields → Fields
set_output_voice voice (obj audio) patch =
    let output = dict_of (lookup audio (codes "output")) in
    if is_some (lookup output (codes "voice"))
    then assign patch (codes "audio")
        (obj (assign audio (codes "output") (obj (assign output (codes "voice") (str voice)))))
    else patch
set_output_voice voice _ patch = patch

unfoldable pub set_patch_voice : Text → Fields → Fields
unfolding is_text set_output_voice
set_patch_voice voice patch =
    let top =
      if is_text (or_null (lookup patch (codes "voice")))
      then assign patch (codes "voice") (str voice)
      else patch in
    set_output_voice voice (or_null (lookup top (codes "audio"))) top

unfoldable pub set_view_voice : Text → Fields → Fields
set_view_voice voice view =
    let audio = dict_of (lookup view (codes "audio")) in
    let output = assign (dict_of (lookup audio (codes "output"))) (codes "voice") (str voice) in
    assign (assign view (codes "audio") (obj (assign audio (codes "output") (obj output))))
      (codes "voice") (str voice)
