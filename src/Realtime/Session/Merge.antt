-- ===== src/Realtime/Session/Merge.antt =====
-- What a merged session view holds (src/realtime/session.py, `merge_session_patch`).
use nemotron_voice_agent.Base.{
  ◌≡◌, refl, sym, ap, ◌∙◌, Option, none, some, Text, text_eq, text_eq_sound, Bool-cases, inl, inr,
}
use nemotron_voice_agent.Json.{Json, Fields, end, field, lookup, assign, lookup-assign}
use nemotron_voice_agent.Realtime.Session.{merge_value, merge_session_patch}

-- No key stands twice, as in every Python dictionary.
abbrev pub HasDistinctKeys : Fields → Type 0
HasDistinctKeys end = Unit
HasDistinctKeys (field k v rest) = (lookup rest k ≡ none) × HasDistinctKeys rest

-- The value of a key after a merge: the patch's value put over the view's, or the view's.
abbrev pub merged_at : Option Json → Option Json → Option Json
merged_at none old = old
merged_at (some v) old = some (merge_value v old)

-- Of a patch without repeated keys each key is merged on its own.
pub lookup-merge_session_patch :
    (patch view : Fields) (k : Text)
    → HasDistinctKeys patch
    → lookup (merge_session_patch patch view) k ≡ merged_at (lookup patch k) (lookup view k)
unfolding lookup merge_session_patch
lookup-merge_session_patch end view k d = refl
lookup-merge_session_patch (field j v rest) view k d =
    let next =
      lookup-merge_session_patch rest (assign view j (merge_value v (lookup view j))) k d.1 in
    let written = lookup-assign view j k (merge_value v (lookup view j)) in
    elim (Bool-cases (text_eq j k)) [
      | inl e ↦
          let eq = text_eq_sound j k e in
          next
          ∙ (rw (ap (lookup rest) (sym eq) ∙ d.0)
              (rw written (rw e (ap (λ x. some (merge_value v (lookup view x))) eq))))
      | inr e ↦ next ∙ (rw written (rw e refl))
    ]
