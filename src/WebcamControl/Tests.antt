-- ===== src/WebcamControl/Tests.antt =====
-- Runs of the webcam controller on concrete events (webcam_controller.py).
use nemotron_voice_agent.Base.{
  ◌≡◌, refl, true, false, none, List, [], ◌∷◌, codes, text_eq, strip, lower, last,
}
use nemotron_voice_agent.Base.Dict
use nemotron_voice_agent.Webcam.{Snapshot, no_frames, latest_webcam_frame, store_webcam_frame}
use nemotron_voice_agent.WebcamControl.Dark.{current_visual_status-off}
use nemotron_voice_agent.WebcamControl.Keeps.{IsFresh}
use nemotron_voice_agent.WebcamControl.Fresh.{handle_summary_response-sent_in}
use nemotron_voice_agent.WebcamControl.Stuck.{camera_run-overtaken}
use nemotron_voice_agent.WebcamControl.{
  Controller, CameraEvent, loop_started, toggled, frame_uploaded, frame_noticed, woken, requested,
  returned, answered, webcam_controller, camera_off_state, apply_webcam_state,
  current_visual_status, handle_summary_response, is_noop_observation, camera_run,
}

abbrev snapshot : Snapshot
snapshot = record {
  hex = codes "ab";
  now = 5;
  session_id = codes "s1";
  name = [];
  content_type = codes "image/png";
  payload = 1 ∷ [];
}

abbrev new_session : Controller
new_session = webcam_controller (codes "s1") no_frames

new_session-IsFresh : IsFresh new_session
new_session-IsFresh = record { bounded = tt; under_way = tt }

abbrev to_the_request : List CameraEvent
to_the_request = loop_started ∷ toggled true ∷ frame_uploaded snapshot ∷ woken ∷ []

abbrev to_the_job : List CameraEvent
to_the_job =
    loop_started
    ∷ toggled true
    ∷ frame_uploaded snapshot
    ∷ woken
    ∷ requested (codes "j1") refl
    ∷ returned
    ∷ []

noop : is_noop_observation (codes " No notable change.") ≡ true
unfolding is_noop_observation text_eq lower strip
noop = refl

seen :
    current_visual_status
      (camera_run (camera_run new_session to_the_job) (answered 0 (codes "a cat") [] ∷ []))
    ≡ codes "a cat"
unfolding camera_run current_visual_status text_eq strip lower last Dict.get Dict.put
    latest_webcam_frame store_webcam_frame
seen = refl

-- The answer to a job that was sent before the camera was switched off and on is dropped.
dropped :
    current_visual_status (
      camera_run
        (camera_run new_session to_the_job)
        (toggled false ∷ toggled true ∷ answered 0 (codes "a cat") [] ∷ []))
    ≡ codes "the camera just turned on; the live view is loading"
unfolding camera_run current_visual_status text_eq strip lower last Dict.get Dict.put
    latest_webcam_frame store_webcam_frame
dropped = refl

handle_summary_response-sent_in_example : 1 ≡ (camera_run new_session to_the_job).epoch
unfolding camera_run handle_summary_response text_eq strip lower last Dict.get Dict.put
    latest_webcam_frame store_webcam_frame
handle_summary_response-sent_in_example =
    handle_summary_response-sent_in new_session to_the_job 0
      (record { job_id = codes "j1"; sent_in = 1 }) (codes "a cat") [] new_session-IsFresh
      (tt, (tt, (tt, (tt, (tt, (tt, tt)))))) refl refl

abbrev on_then_off : Controller
on_then_off = apply_webcam_state false (camera_run new_session to_the_request)

abbrev after_off : List CameraEvent
after_off = frame_uploaded snapshot ∷ frame_noticed ∷ woken ∷ []

current_visual_status-off_example :
    let later = camera_run on_then_off after_off in
    (current_visual_status later ≡ camera_off_state)
    × ((later.updates ≡ on_then_off.updates)
        × (later.last_dispatched_sequence ≡ on_then_off.last_dispatched_sequence))
unfolding camera_run text_eq strip lower last Dict.get Dict.put latest_webcam_frame
    store_webcam_frame
current_visual_status-off_example =
    current_visual_status-off (camera_run new_session to_the_request) after_off refl
      (tt, (tt, (tt, tt)))

camera_run-overtaken_example :
    let later = camera_run (camera_run new_session to_the_request) (
      requested (codes "j1") refl
      ∷ answered 0 (codes "a cat") []
      ∷ returned
      ∷ frame_uploaded snapshot
      ∷ woken
      ∷ []) in
    (later.jobs ≡ []) × (later.dispatching ≡ none)
unfolding camera_run text_eq strip lower last Dict.get Dict.put latest_webcam_frame
    store_webcam_frame
camera_run-overtaken_example =
    camera_run-overtaken (camera_run new_session to_the_request) 1 (codes "j1") refl (codes "a cat")
      [] (frame_uploaded snapshot ∷ woken ∷ []) refl refl (tt, (tt, tt))
