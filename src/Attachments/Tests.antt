-- ===== src/Attachments/Tests.antt =====
-- Calls of two sessions (src/attachment_store.py).
use nemotron_voice_agent.Base.{◌≡◌, refl, List, [], ◌∷◌, Text, codes, strip, lower, text_eq}
use nemotron_voice_agent.Base.Dict
use nemotron_voice_agent.Attachments.{
  Attachment, Upload, no_attachments, done, store_attachment, attachment_of,
}
use nemotron_voice_agent.Attachments.Sessions.{
  Op, register, request, upload, remove, clear, run, view, run-view,
}
use nemotron_voice_agent.Attachments.Contents.{HasLogs, run-HasLogs}

abbrev hex : Text
hex = codes "0123456789abcdef"

abbrev other_hex : Text
other_hex = codes "fedcba9876543210"

abbrev photo : Upload
photo = record {
  session_id = codes " s1 ";
  kind = codes "Image";
  name = codes "cat.png";
  content_type = [];
  payload = 137 ∷ 80 ∷ [];
  source = codes "capture";
}

abbrev stored : Attachment
stored = record {
  id = hex;
  session_id = codes "s1";
  sequence = 1;
  kind = codes "image";
  name = codes "cat.png";
  content_type = codes "image/*";
  payload = 137 ∷ 80 ∷ [];
  created_at = codes "now";
  source = codes "capture";
}

photo-stored : (store_attachment hex (codes "now") photo no_attachments).1.0 ≡ done stored
unfolding store_attachment attachment_of strip text_eq lower
photo-stored = refl

abbrev calls : List Op
calls =
    register (codes "s1") 7
    ∷ upload hex (codes "now") photo
    ∷ request hex (codes "s1")
    ∷ remove (codes "s1") hex
    ∷ clear (codes "s1")
    ∷ []

run-view_example : view (run no_attachments calls) (codes "s2") ≡ view no_attachments (codes "s2")
unfolding strip text_eq
run-view_example =
    run-view no_attachments calls (codes "s2") (refl, (refl, (refl, (refl, (refl, tt)))))

empty-HasLogs : HasLogs no_attachments
unfolding Dict.get
empty-HasLogs = record { logs = λ key. tt }

run-HasLogs_example : HasLogs (run no_attachments calls)
run-HasLogs_example = run-HasLogs no_attachments calls empty-HasLogs
