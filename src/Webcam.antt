-- ===== src/Webcam.antt =====
-- src/webcam_frame_store.py: the last snapshots of a session's webcam. The dictionaries of the module are one
-- record and every function holds the lock while it touches them. A time is the number of microseconds that
-- the ISO text stands for; the field `data` is named `payload`.
pub mod Ring
pub mod Recent
mod Tests
use nemotron_voice_agent.Base.{
  ℕ, ◌+◌, ◌-◌, Bool, true, false, not, ◌||◌, ◌&&◌, Option, none, some, List, [], ◌∷◌, ◌++◌, Text,
  codes, is_empty, strip, lower, starts_with, last, filter, length, drop, ltb, leb, ◌==◌,
  if◌then◌else◌,
}
use nemotron_voice_agent.Base.Dict
use nemotron_voice_agent.Base.Dict.{Dict}
use nemotron_voice_agent.Attachments.{list_at, add_to, or_text, remove_first}

pub record WebcamFrame : Type 0 where
  pub id : Text
  pub session_id : Text
  pub sequence : ℕ
  pub name : Text
  pub content_type : Text
  pub payload : List ℕ
  pub created_at : ℕ

pub record FrameStore : Type 0 where
  pub next_sequence : ℕ
  pub frames : Dict (List WebcamFrame)
  pub frame_listeners : Dict (List ℕ)

abbrev pub no_frames : FrameStore
no_frames = record { next_sequence = 1; frames = []; frame_listeners = [] }

abbrev frame_max_bytes : ℕ
frame_max_bytes = 5000000

abbrev pub frame_ring_limit : ℕ
frame_ring_limit = 64

-- The keyword arguments of `store_webcam_frame`, with the uuid and the time that the call draws.
pub record Snapshot : Type 0 where
  pub hex : Text
  pub now : ℕ
  pub session_id : Text
  pub name : Text
  pub content_type : Text
  pub payload : List ℕ

pub data FrameRefusal : Type 0 where
  no_frame_session not_image no_frame_data frame_too_large : FrameRefusal

pub data FrameResult : Type 0 where
  frame_refused : FrameRefusal → FrameResult
  frame_stored : WebcamFrame → FrameResult

unfoldable pub frame_of : ℕ → Snapshot → WebcamFrame
frame_of n u = record {
  id = u.hex;
  session_id = strip u.session_id;
  sequence = n;
  name = or_text (strip u.name) (codes "webcam-frame.jpg");
  content_type = or_text (lower (strip u.content_type)) (codes "image/jpeg");
  payload = u.payload;
  created_at = u.now;
}

-- `del xs[:-n]`, and `xs[-n:]`, where 0 < n
unfoldable pub keep_last {ℓ} : {A : Type ℓ} → ℕ → List A → List A
keep_last n xs = drop (length xs - n) xs

-- The check that fails, if one does.
unfoldable pub frame_refusal : WebcamFrame → Option FrameRefusal
unfolding starts_with
frame_refusal f =
    if is_empty f.session_id
    then some no_frame_session
    else if not (starts_with f.content_type (codes "image/"))
    then some not_image
    else if is_empty f.payload
    then some no_frame_data
    else if ltb frame_max_bytes (length f.payload)
    then some frame_too_large
    else none

unfoldable pub store_if :
    Option FrameRefusal → WebcamFrame → FrameStore → FrameStore × (FrameResult × List ℕ)
unfolding keep_last
store_if (some r) f s = (s, (frame_refused r, []))
store_if none f s = (
  record s {
    next_sequence = s.next_sequence + 1;
    frames =
        Dict.put s.frames f.session_id
          (keep_last frame_ring_limit (list_at s.frames f.session_id ++ f ∷ []));
  },
  (frame_stored f, list_at s.frame_listeners f.session_id),
)

unfoldable pub store_webcam_frame : Snapshot → FrameStore → FrameStore × (FrameResult × List ℕ)
unfolding frame_of store_if frame_refusal
store_webcam_frame u s = let f = frame_of s.next_sequence u in store_if (frame_refusal f) f s

unfoldable pub latest_webcam_frame : Text → FrameStore → Option WebcamFrame
latest_webcam_frame session_id s = last (list_at s.frames (strip session_id))

-- `max_seconds` in microseconds: 0 stands for a value that is not finite or not positive, which filters
-- nothing. Where the cutoff would lie before the first date, the source filters nothing either.
unfoldable pub within_window : Option ℕ → Option WebcamFrame → List WebcamFrame → List WebcamFrame
within_window (some window) (some newest) fs =
    if window == 0 then fs else filter (λ f. leb newest.created_at (f.created_at + window)) fs
within_window _ _ fs = fs

unfoldable pub at_most : Option ℕ → List WebcamFrame → List WebcamFrame
unfolding keep_last
at_most none fs = fs
at_most (some n) fs = if n == 0 then fs else keep_last n fs

unfoldable pub recent_webcam_frames : Text → Option ℕ → Option ℕ → FrameStore → List WebcamFrame
unfolding within_window at_most
recent_webcam_frames session_id window count s =
    let key = strip session_id in
    let fs = list_at s.frames key in
    if is_empty key then [] else at_most count (within_window window (last fs) fs)

unfoldable register_frame_listener : Text → ℕ → FrameStore → FrameStore
unfolding add_to
register_frame_listener session_id listener s =
    let key = strip session_id in
    if is_empty key then s else record s { frame_listeners = add_to s.frame_listeners key listener }

unfoldable clear_session_webcam_frames : Text → FrameStore → FrameStore
clear_session_webcam_frames session_id s =
    let key = strip session_id in
    record s { frames = Dict.pop s.frames key; frame_listeners = Dict.pop s.frame_listeners key }

unfoldable pub clear_session_webcam_frame_data : Text → FrameStore → FrameStore
clear_session_webcam_frame_data session_id s = record s {
  frames = Dict.pop s.frames (strip session_id);
}

unfoldable unregister_frame_listener : Text → ℕ → FrameStore → FrameStore
unregister_frame_listener session_id listener s =
    let key = strip session_id in
    let rest = remove_first listener (list_at s.frame_listeners key) in
    if is_empty key || is_empty (list_at s.frame_listeners key)
    then s
    else if is_empty rest
    then record s { frame_listeners = Dict.pop s.frame_listeners key }
    else record s { frame_listeners = Dict.put s.frame_listeners key rest }
