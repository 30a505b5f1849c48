-- ===== src/Realtime/Session/Paths.antt =====
-- What a merged session view holds at any depth (src/realtime/session.py, `merge_session_patch`).
use nemotron_voice_agent.Base.{
  ◌≡◌, refl, ap, ◌∙◌, Option, none, some, List, [], ◌∷◌, Text, text_eq, arith, subst, sym,
  Bool-cases, inl, inr,
}
use nemotron_voice_agent.Json.{
  Json, null, boolean, int, negative, float, str, arr, obj, Fields, end, field, lookup, or_null,
}
use nemotron_voice_agent.Realtime.Session.{merge_value, merge_session_patch}
use nemotron_voice_agent.Realtime.Session.Merge.{
  HasDistinctKeys, merged_at, lookup-merge_session_patch,
}

-- What stands at a path of keys: nothing, a dictionary, or a value that is none.
pub data Shown : Type 0 where
  missing dictionary : Shown
  leaf : Json → Shown

unfoldable pub shown_at : Option Json → List Text → Shown
shown_at none ks = missing
shown_at (some (obj f)) [] = dictionary
shown_at (some (obj f)) (k ∷ ks) = shown_at (lookup f k) ks
shown_at (some v) [] = leaf v
shown_at (some v) (k ∷ ks) = missing

-- What a patch should show over an older value. As long as both are dictionaries the path is followed in
-- both; where the patch names nothing the older value shows, and anything else of the patch hides it.
unfoldable pub overlaid : Option Json → Option Json → List Text → Shown
unfolding shown_at
overlaid none old ks = shown_at old ks
overlaid (some (obj p)) (some (obj b)) [] = dictionary
overlaid (some (obj p)) (some (obj b)) (k ∷ ks) = overlaid (lookup p k) (lookup b k) ks
overlaid (some v) old ks = shown_at (some v) ks

-- No key stands twice in a dictionary, nor in one that it holds.
unfoldable mutual
  pub IsPlain : Json → Type 0
  IsPlain (obj f) = ArePlain f
  IsPlain _ = Unit

  pub ArePlain : Fields → Type 0
  ArePlain end = Unit
  ArePlain (field k v rest) = (lookup rest k ≡ none) × IsPlain v × ArePlain rest

ArePlain-HasDistinctKeys : (f : Fields) → ArePlain f → HasDistinctKeys f
unfolding ArePlain
ArePlain-HasDistinctKeys end a = tt
ArePlain-HasDistinctKeys (field k v rest) a = (a.0, ArePlain-HasDistinctKeys rest a.2)

lookup-IsPlain : (f : Fields) (k : Text) (v : Json) → ArePlain f → lookup f k ≡ some v → IsPlain v
unfolding ArePlain lookup
lookup-IsPlain end k v a e = ground arith
lookup-IsPlain (field j w rest) k v a e = elim (Bool-cases (text_eq j k)) [
  | inl q ↦
      let here : lookup (field j w rest) k ≡ some w = rw q refl in
      subst IsPlain (ap or_null (sym here ∙ e)) a.1
  | inr q ↦
      let further : lookup (field j w rest) k ≡ lookup rest k = rw q refl in
      lookup-IsPlain rest k v a.2 (sym further ∙ e)
]

-- One key further, whether the patch names it or not.
shown_at-merged_at :
    (new old : Option Json) (path : List Text)
    → ((v : Json)
        → new ≡ some v
        → shown_at (some (merge_value v old)) path ≡ overlaid (some v) old path)
    → shown_at (merged_at new old) path ≡ overlaid new old path
unfolding overlaid
shown_at-merged_at none old path h = refl
shown_at-merged_at (some v) old path h = h v refl

shown_at-merge_value :
    (v : Json) (old : Option Json) (path : List Text)
    → IsPlain v
    → shown_at (some (merge_value v old)) path ≡ overlaid (some v) old path
unfolding shown_at overlaid merge_value IsPlain
shown_at-merge_value (obj p) (some (obj b)) [] a = refl
shown_at-merge_value (obj p) (some (obj b)) (k ∷ path) a =
    ap (λ o. shown_at o path) (lookup-merge_session_patch p b k (ArePlain-HasDistinctKeys p a))
    ∙ shown_at-merged_at (lookup p k) (lookup b k) path
        (λ v e. shown_at-merge_value v (lookup b k) path (lookup-IsPlain p k v a e))
shown_at-merge_value (obj p) none path a = refl
shown_at-merge_value (obj p) (some null) path a = refl
shown_at-merge_value (obj p) (some (boolean b)) path a = refl
shown_at-merge_value (obj p) (some (int n)) path a = refl
shown_at-merge_value (obj p) (some (negative n)) path a = refl
shown_at-merge_value (obj p) (some (float n)) path a = refl
shown_at-merge_value (obj p) (some (str t)) path a = refl
shown_at-merge_value (obj p) (some (arr xs)) path a = refl
shown_at-merge_value null old path a = refl
shown_at-merge_value (boolean b) old path a = refl
shown_at-merge_value (int n) old path a = refl
shown_at-merge_value (negative n) old path a = refl
shown_at-merge_value (float n) old path a = refl
shown_at-merge_value (str t) old path a = refl
shown_at-merge_value (arr xs) old path a = refl

-- For a patch without repeated keys and for every path of keys: the merged view shows what the patch shows
-- over the view, siblings of a nested key included.
pub shown_at-merge_session_patch :
    (patch view : Fields) (path : List Text)
    → ArePlain patch
    → shown_at (some (obj (merge_session_patch patch view))) path
      ≡ overlaid (some (obj patch)) (some (obj view)) path
unfolding merge_value IsPlain
shown_at-merge_session_patch patch view path a =
    shown_at-merge_value (obj patch) (some (obj view)) path a
