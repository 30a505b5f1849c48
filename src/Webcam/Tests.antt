-- ===== src/Webcam/Tests.antt =====
-- Two snapshots, one of them refused (src/webcam_frame_store.py).
use nemotron_voice_agent.Base.{◌≡◌, refl, List, [], ◌∷◌, Text, codes}
use nemotron_voice_agent.Base.Dict
use nemotron_voice_agent.Attachments.{list_at}
use nemotron_voice_agent.Webcam.{Snapshot, no_frames, frame_ring_limit, keep_last}
use nemotron_voice_agent.Webcam.Ring.{store_all, accepted, frames-store_all}

abbrev session : Text
session = codes "s1"

abbrev snapshot_of : Text → Snapshot
snapshot_of content_type = record {
  hex = codes "0123456789abcdef";
  now = 1000000;
  session_id = codes " s1 ";
  name = [];
  content_type = content_type;
  payload = 255 ∷ 216 ∷ [];
}

abbrev snapshots : List Snapshot
snapshots = snapshot_of [] ∷ snapshot_of (codes "text/plain") ∷ snapshot_of (codes "image/png") ∷ []

frames-store_all_example :
    list_at (store_all snapshots no_frames).frames session
    ≡ keep_last frame_ring_limit (accepted session 1 snapshots)
unfolding keep_last Dict.get
frames-store_all_example = frames-store_all snapshots no_frames session [] refl
