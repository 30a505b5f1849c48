-- ===== src/Realtime/Session/Live.antt =====
-- The live part of a patch (src/realtime/session.py): it leaves turn detection alone.
use nemotron_voice_agent.Base.{
  ◌≡◌, refl, ap, ◌∙◌, Bool, false, not, ◌&&◌, [], ◌∷◌, Option, none, some, Text, codes, text_eq,
  text_in, arith, Bool-cases, inl, inr, text_eq_iff,
}
use nemotron_voice_agent.Json.{
  Json, null, obj, Fields, end, field, lookup, assign, or_null, lookup-assign, lookup-keep, keep,
  is_end,
}
use nemotron_voice_agent.Realtime.Session.{
  merge_value, merge_session_patch, live_session_patch, live_audio, put_audio, put_kept,
  turn_detection_of, nested_turn_detection, audio_input, or_top, is_live_key, is_live_input_key,
  is_live_output_key,
}
use nemotron_voice_agent.Realtime.Session.Merge.{
  HasDistinctKeys, merged_at, lookup-merge_session_patch,
}

abbrev td : Text
td = codes "turn_detection"

-- No input block, or one without turn detection.
abbrev CleanInput : Option Json → Type 0
CleanInput none = Unit
CleanInput (some (obj g)) = (lookup g td ≡ none) × HasDistinctKeys g
CleanInput (some _) = ⊥

abbrev CleanAudio : Option Json → Type 0
CleanAudio none = Unit
CleanAudio (some (obj f)) = HasDistinctKeys f × CleanInput (lookup f (codes "input"))
CleanAudio (some _) = ⊥

merge_input :
    (g : Fields) (old : Option Json)
    → lookup g td ≡ none
    → HasDistinctKeys g
    → nested_turn_detection (merge_value (obj g) old) ≡ nested_turn_detection (or_null old)
unfolding merge_value nested_turn_detection
merge_input g none n d = n
merge_input g (some (obj b)) n d = lookup-merge_session_patch g b td d ∙ rw n refl
merge_input g (some _) n d = n

merged_input :
    (new old : Option Json)
    → CleanInput new
    → nested_turn_detection (or_null (merged_at new old)) ≡ nested_turn_detection (or_null old)
merged_input none old c = refl
merged_input (some (obj g)) old c = merge_input g old c.0 c.1
merged_input (some null) old c = absurd c
merged_input (some _) old c = absurd c

clean_nested : (new : Option Json) → CleanInput new → nested_turn_detection (or_null new) ≡ none
unfolding nested_turn_detection
clean_nested none c = refl
clean_nested (some (obj g)) c = c.0
clean_nested (some null) c = absurd c
clean_nested (some _) c = absurd c

merge_audio :
    (f : Fields) (old : Option Json)
    → HasDistinctKeys f
    → CleanInput (lookup f (codes "input"))
    → nested_turn_detection (audio_input (merge_value (obj f) old))
      ≡ nested_turn_detection (audio_input (or_null old))
unfolding merge_value audio_input nested_turn_detection
merge_audio f none d c = clean_nested (lookup f (codes "input")) c
merge_audio f (some (obj b)) d c =
    rw (lookup-merge_session_patch f b (codes "input") d)
      (merged_input (lookup f (codes "input")) (lookup b (codes "input")) c)
merge_audio f (some _) d c = clean_nested (lookup f (codes "input")) c

merged_audio :
    (new old : Option Json)
    → CleanAudio new
    → nested_turn_detection (audio_input (or_null (merged_at new old)))
      ≡ nested_turn_detection (audio_input (or_null old))
merged_audio none old c = refl
merged_audio (some (obj f)) old c = merge_audio f old c.0 c.1
merged_audio (some null) old c = absurd c
merged_audio (some _) old c = absurd c

or_top_same : (o : Option Json) (f g : Fields) → lookup f td ≡ lookup g td → or_top o f ≡ or_top o g
unfolding or_top
or_top_same none f g e = ap or_null e
or_top_same (some v) f g e = refl

merge_clean :
    (patch view : Fields)
    → HasDistinctKeys patch
    → lookup patch td ≡ none
    → CleanAudio (lookup patch (codes "audio"))
    → turn_detection_of (merge_session_patch patch view) ≡ turn_detection_of view
unfolding turn_detection_of
merge_clean patch view d n c =
    let top : lookup (merge_session_patch patch view) td ≡ lookup view td =
      lookup-merge_session_patch patch view td d ∙ rw n refl in
    let nested = merged_audio (lookup patch (codes "audio")) (lookup view (codes "audio")) c in
    rw (lookup-merge_session_patch patch view (codes "audio") d) (
      rw nested (
        or_top_same (nested_turn_detection (audio_input (or_null (lookup view (codes "audio")))))
          (merge_session_patch patch view) view top))

keep-HasDistinctKeys :
    (p : Text → Bool) (f : Fields) → HasDistinctKeys f → HasDistinctKeys (keep p f)
unfolding keep
keep-HasDistinctKeys p end d = d
keep-HasDistinctKeys p (field k v rest) d = elim (Bool-cases (p k)) [
  | inl e ↦ rw e (lookup-keep p rest k ∙ rw e d.0, keep-HasDistinctKeys p rest d.1)
  | inr e ↦ rw e (keep-HasDistinctKeys p rest d.1)
]

assign-HasDistinctKeys :
    (f : Fields) (k : Text) (v : Json) → HasDistinctKeys f → HasDistinctKeys (assign f k v)
unfolding assign lookup
assign-HasDistinctKeys end k v d = (refl, tt)
assign-HasDistinctKeys (field j w rest) k v d = elim (Bool-cases (text_eq j k)) [
  | inl e ↦ rw e d
  | inr e ↦
      rw e (lookup-assign rest k j v ∙ rw (flip j k e) d.0, assign-HasDistinctKeys rest k v d.1)
]
  where
    flip : (j k : Text) → text_eq j k ≡ false → text_eq k j ≡ false
    flip j k e = ground (arith, text_eq_iff j k, text_eq_iff k j)

-- The input block of a patch, if it has one, has no key twice.
abbrev InputHasDistinctKeys : Json → Type 0
InputHasDistinctKeys (obj g) = HasDistinctKeys g
InputHasDistinctKeys _ = Unit

abbrev kept_input : Text → Bool
kept_input k = is_live_input_key k && not (text_eq k td)

put_input-clean :
    (v : Json)
    → InputHasDistinctKeys v
    → let out = put_kept kept_input (codes "input") v end in
      HasDistinctKeys out × CleanInput (lookup out (codes "input"))
unfolding put_kept assign lookup text_eq text_in is_live_input_key
put_input-clean (obj g) d = elim (Bool-cases (is_end (keep kept_input g))) [
  | inl e ↦ rw e (tt, tt)
  | inr e ↦ rw e ((refl, tt), (lookup-keep kept_input g td, keep-HasDistinctKeys kept_input g d))
]
put_input-clean null d = (tt, tt)
put_input-clean _ d = (tt, tt)

put_output-clean :
    (v : Json) (out : Fields)
    → HasDistinctKeys out
    → CleanInput (lookup out (codes "input"))
    → let out' = put_kept is_live_output_key (codes "output") v out in
      HasDistinctKeys out' × CleanInput (lookup out' (codes "input"))
unfolding put_kept text_eq
put_output-clean (obj g) out d c = elim (Bool-cases (is_end (keep is_live_output_key g))) [
  | inl e ↦ rw e (d, c)
  | inr e ↦ rw e (
    assign-HasDistinctKeys out (codes "output") (obj (keep is_live_output_key g)) d,
    rw (lookup-assign out (codes "output") (codes "input") (obj (keep is_live_output_key g))) c,
  )
]
put_output-clean null out d c = (d, c)
put_output-clean _ out d c = (d, c)

live_audio-clean :
    (audio : Fields)
    → InputHasDistinctKeys (or_null (lookup audio (codes "input")))
    → HasDistinctKeys (live_audio audio) × CleanInput (lookup (live_audio audio) (codes "input"))
unfolding live_audio
live_audio-clean audio d =
    let inp = put_input-clean (or_null (lookup audio (codes "input"))) d in
    put_output-clean (or_null (lookup audio (codes "output"))) _ inp.0 inp.1

put_audio-clean :
    (v : Json) (out : Fields)
    → InputHasDistinctKeys (audio_input v)
    → HasDistinctKeys out
    → lookup out td ≡ none
    → lookup out (codes "audio") ≡ none
    → let out' = put_audio v out in
      HasDistinctKeys out' × (lookup out' td ≡ none) × CleanAudio (lookup out' (codes "audio"))
unfolding put_audio text_eq audio_input
put_audio-clean (obj audio) out i d n a = elim (Bool-cases (is_end (live_audio audio))) [
  | inl e ↦ rw e (d, n, rw a tt)
  | inr e ↦ rw e (
    assign-HasDistinctKeys out (codes "audio") (obj (live_audio audio)) d,
    lookup-assign out (codes "audio") td (obj (live_audio audio)) ∙ n,
    rw (lookup-assign out (codes "audio") (codes "audio") (obj (live_audio audio)))
        (live_audio-clean audio i),
  )
]
put_audio-clean null out i d n a = (d, n, rw a tt)
put_audio-clean _ out i d n a = (d, n, rw a tt)

-- Whatever patch without repeated keys a client sends after the handoff, and whatever the session view holds, merging the live part
-- of the patch leaves the turn detection of the session as it was.
turn_detection-live :
    (patch view : Fields)
    → HasDistinctKeys patch
    → InputHasDistinctKeys (audio_input (or_null (lookup patch (codes "audio"))))
    → turn_detection_of (merge_session_patch (live_session_patch patch) view)
      ≡ turn_detection_of view
unfolding live_session_patch text_in text_eq
turn_detection-live patch view d i =
    let p : Text → Bool =
      λ k. is_live_key k && not (text_in k (codes "audio" ∷ codes "turn_detection" ∷ [])) in
    let clean =
      put_audio-clean (or_null (lookup patch (codes "audio"))) (keep p patch) i
        (keep-HasDistinctKeys p patch d) (lookup-keep p patch td)
        (lookup-keep p patch (codes "audio")) in
    merge_clean _ view clean.0 clean.1 clean.2
