-- ===== src/Realtime/Session/Tests.antt =====
-- Merges of a patch that asks for another voice and for another turn detection (src/realtime/session.py).
use nemotron_voice_agent.Base.{text_eq, ◌≡◌, refl, some, List, [], ◌∷◌, Text, codes}
use nemotron_voice_agent.Json.{obj, str, Fields, field, end, lookup, assign}
use nemotron_voice_agent.Realtime.Session.{merge_session_patch}
use nemotron_voice_agent.Realtime.Session.Paths.{
  leaf, shown_at, overlaid, ArePlain, shown_at-merge_session_patch,
}

abbrev patch : Fields
patch = field (codes "voice") (str (codes "aria")) (
    field (codes "turn_detection") (str (codes "none")) (
      field (codes "audio")
        (obj (
          field (codes "input") (obj (field (codes "turn_detection") (str (codes "none")) end))
            end))
        end))

abbrev view : Fields
view = field (codes "voice") (str (codes "leo")) (
    field (codes "audio")
      (obj (
        field (codes "input") (obj (field (codes "noise_reduction") (str (codes "near_field")) end))
          (field (codes "output") (obj (field (codes "voice") (str (codes "leo")) end)) end)))
      end)

-- The noise reduction beside the turn detection that the patch sets.
abbrev sibling : List Text
sibling = codes "audio" ∷ codes "input" ∷ codes "noise_reduction" ∷ []

sibling_stays :
    shown_at (some (obj (merge_session_patch patch view))) sibling ≡ leaf (str (codes "near_field"))
unfolding shown_at merge_session_patch lookup assign text_eq
sibling_stays = refl

patch-ArePlain : ArePlain patch
unfolding ArePlain lookup text_eq
patch-ArePlain = (refl, tt, (refl, tt, (refl, (refl, (refl, tt, tt), tt), tt)))

shown_at-merge_session_patch_example :
    shown_at (some (obj (merge_session_patch patch view))) sibling
    ≡ overlaid (some (obj patch)) (some (obj view)) sibling
shown_at-merge_session_patch_example =
    shown_at-merge_session_patch patch view sibling patch-ArePlain
