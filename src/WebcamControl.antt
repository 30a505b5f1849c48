-- ===== src/WebcamControl.antt =====
-- WebcamController (src/examples/omni_assistant_subagents/subagents/transport/webcam_controller.py) with
-- its place on the board of the subagents (subagent_state_board.py beside it) and the store of the frames.
-- The loop is cut at the await of the job request; a wait for the next frame may end at any time, since it
-- has a timeout. The payload of a job and the frame and the gestures that a response carries along are
-- left out.
pub mod Dark
mod Keeps
mod Loop
pub mod Fresh
pub mod Stuck
mod Tests
use nemotron_voice_agent.Base.{
  ℕ, suc, zero, ◌+◌, Bool, true, false, not, ◌||◌, ◌&&◌, Option, none, some, List, [], ◌∷◌, ◌++◌,
  Text, codes, strip, lower, text_eq, is_empty, is_some, ◌==◌, if◌then◌else◌, ◌≡◌,
}
use mathlib.Core.List.{reverse}
use nemotron_voice_agent.Webcam.{
  WebcamFrame, FrameStore, Snapshot, store_webcam_frame, latest_webcam_frame,
  clear_session_webcam_frame_data,
}
use nemotron_voice_agent.Thinking.{nth, without}

abbrev pub camera_off_state : Text
camera_off_state = codes "the camera is OFF right now — there is nothing visible live"

abbrev pub camera_on_state : Text
camera_on_state = codes "the camera just turned on; the live view is loading"

abbrev noop_observation : Text
noop_observation = codes "no notable change"

-- `lstrip(".")`; `rstrip` is that of the reversed text.
unfoldable lstrip_dots : Text → Text
lstrip_dots [] = []
lstrip_dots (c ∷ t) = let rest = lstrip_dots t in if c == b'.' then rest else c ∷ t

unfoldable pub is_noop_observation : Text → Bool
unfolding lstrip_dots
is_noop_observation t =
    text_eq (lower (strip (reverse (lstrip_dots (reverse (strip t)))))) noop_observation

pub record BoardEntry : Type 0 where
  pub text : Text
  pub trusted : Bool

-- What is queued for the client: an observation with its focus, or whether to upload frames.
pub data ClientUpdate : Type 0 where
  agent_update : Text → Text → ClientUpdate
  upload_control : Bool → ClientUpdate

-- A job for the WebcamAgent, with the epoch in which the loop sent it.
pub record Job : Type 0 where
  pub job_id : Text
  pub sent_in : ℕ

-- The await of `_request_job`: the epoch, and the id once the job is under way.
pub data Dispatch : Type 0 where
  sending : ℕ → Dispatch
  sent : ℕ → Text → Dispatch

-- The attributes of the controller, `summary_epoch` being none for -1; then its entry on the board, the
-- frame store, what was queued for the client, the tasks, and the jobs that are under way.
pub record Controller : Type 0 where
  pub session_id : Text
  pub summary_task_id : Text
  pub last_dispatched_sequence : ℕ
  pub latest_observation : Text
  pub board_state : Text
  pub enabled : Bool
  pub explicitly_disabled : Bool
  pub epoch : ℕ
  pub summary_epoch : Option ℕ
  pub findings : Option BoardEntry
  pub store : FrameStore
  pub updates : List ClientUpdate
  pub control_waits : Bool
  pub is_looping : Bool
  pub dispatching : Option Dispatch
  pub jobs : List Job

abbrev pub webcam_controller : Text → FrameStore → Controller
webcam_controller session_id store = record {
  session_id = session_id;
  summary_task_id = [];
  last_dispatched_sequence = 0;
  latest_observation = [];
  board_state = [];
  enabled = false;
  explicitly_disabled = false;
  epoch = 0;
  summary_epoch = none;
  findings = none;
  store = store;
  updates = [];
  control_waits = false;
  is_looping = false;
  dispatching = none;
  jobs = [];
}

unfoldable pub set_findings : Text → Bool → Controller → Controller
set_findings text trusted c = record c {
  findings = some (record { text = strip text; trusted = trusted });
}

unfoldable pub set_board_state : Text → Controller → Controller
unfolding set_findings
set_board_state t c =
    if text_eq t c.board_state
    then c
    else set_findings t (text_eq t camera_off_state || text_eq t camera_on_state)
        (record c { board_state = t })

unfoldable pub start_summary_loop : Controller → Controller
unfolding set_board_state
start_summary_loop c =
    if c.is_looping then c else set_board_state camera_off_state (record c { is_looping = true })

unfoldable pub stop_summary_loop : Controller → Controller
stop_summary_loop c = record c {
  is_looping = false;
  control_waits = false;
  dispatching = none;
  summary_task_id = [];
}

unfoldable pub emit_upload_control : Bool → Controller → Controller
emit_upload_control active c = record c { updates = c.updates ++ upload_control active ∷ [] }

-- `apply_webcam_state` with a Boolean.
unfoldable pub apply_webcam_state : Bool → Controller → Controller
unfolding set_board_state emit_upload_control
apply_webcam_state true c =
    if c.enabled
    then c
    else emit_upload_control true (
        set_board_state camera_on_state
          (record c { enabled = true; epoch = c.epoch + 1; explicitly_disabled = false }))
apply_webcam_state false c =
    if not c.enabled
    then c
    else emit_upload_control false (
        set_board_state camera_off_state (record c {
          enabled = false;
          epoch = c.epoch + 1;
          explicitly_disabled = true;
          control_waits = false;
          store = clear_session_webcam_frame_data c.session_id c.store;
          latest_observation = [];
        }))

unfoldable is_observation : Text → Bool
is_observation state =
    not (is_empty state || text_eq state camera_off_state || text_eq state camera_on_state)

unfoldable pub current_visual_status : Controller → Text
unfolding is_observation
current_visual_status c =
    let state = strip c.board_state in
    if not c.enabled
    then camera_off_state
    else if is_observation state
    then state
    else camera_on_state

abbrev pub is_epoch : Option ℕ → ℕ → Bool
is_epoch none n = false
is_epoch (some e) n = e == n

abbrev pub forget_job : Text → Controller → Controller
forget_job task_id c =
    if text_eq c.summary_task_id task_id then record c { summary_task_id = [] } else c

-- An observation that is taken.
unfoldable pub publish : Text → Text → Controller → Controller
unfolding set_board_state is_noop_observation
publish observation focus c =
    let seen = record c { latest_observation = observation } in
    let on_board =
      if is_noop_observation observation then seen else set_board_state observation seen in
    record on_board { updates = on_board.updates ++ agent_update observation focus ∷ [] }

-- Whether the response to a job is taken.
unfoldable pub is_accepted : Text → Controller → Bool
is_accepted observation c =
    c.enabled && is_epoch c.summary_epoch c.epoch && not (is_empty (strip observation))

unfoldable pub handle_summary_response : Text → Text → Text → Controller → Controller × Bool
unfolding publish is_accepted
handle_summary_response task_id observation focus c =
    let c' = forget_job task_id c in
    if is_accepted observation c'
    then (publish (strip observation) (strip focus) c', true)
    else (c', false)

unfoldable pub notify_frame_uploaded : Controller → Controller
unfolding set_board_state
notify_frame_uploaded c =
    if c.enabled || c.explicitly_disabled
    then c
    else record (set_board_state camera_on_state
        (record c { enabled = true; epoch = c.epoch + 1 })) { control_waits = true }

-- The task `_start_continuous_uploads` that a frame started.
unfoldable pub start_continuous_uploads : Controller → Controller
unfolding emit_upload_control
start_continuous_uploads c =
    if c.control_waits then emit_upload_control true (record c { control_waits = false }) else c

-- The frame that a round of the loop sends, if it sends one.
unfoldable pub fresh_frame : Controller → Option WebcamFrame → Option WebcamFrame
fresh_frame c none = none
fresh_frame c (some f) = if f.sequence == c.last_dispatched_sequence then none else some f

unfoldable pub start_dispatch : Option WebcamFrame → Controller → Controller
start_dispatch none c = c
start_dispatch (some f) c = record c {
  last_dispatched_sequence = f.sequence;
  dispatching = some (sending c.epoch);
}

-- A round of the loop up to its await; there is none while the loop awaits.
unfoldable pub loop_round : Controller → Controller
unfolding fresh_frame start_dispatch
loop_round c =
    if not c.is_looping
      || is_some c.dispatching
      || not (is_empty c.summary_task_id)
      || not c.enabled
    then c
    else start_dispatch (fresh_frame c (latest_webcam_frame c.session_id c.store)) c

-- The job is under way, with the loop still at its await.
unfoldable pub job_requested : Text → Option Dispatch → Controller → Controller
job_requested id (some (sending e)) c = record c {
  dispatching = some (sent e id);
  jobs = record { job_id = id; sent_in = e } ∷ c.jobs;
}
job_requested id _ c = c

-- The await ends with the id of the job.
unfoldable pub request_returned : Option Dispatch → Controller → Controller
request_returned (some (sent e id)) c = record c {
  summary_task_id = id;
  summary_epoch = some e;
  dispatching = none;
}
request_returned _ c = c

-- The request raises, and there is no job.
unfoldable pub request_failed : Option Dispatch → Controller → Controller
request_failed (some (sending e)) c = record c { summary_task_id = []; dispatching = none }
request_failed _ c = c

-- What can happen next. A job that is answered is named by its place among those under way.
pub data CameraEvent : Type 0 where
  loop_started loop_stopped : CameraEvent
  toggled : Bool → CameraEvent
  frame_uploaded : Snapshot → CameraEvent
  frame_noticed control_started woken : CameraEvent
  requested : (id : Text) → is_empty id ≡ false → CameraEvent
  returned failed : CameraEvent
  answered : ℕ → Text → Text → CameraEvent

unfoldable pub answer_job : Option Job → Text → Text → Controller → Controller
unfolding handle_summary_response
answer_job none observation focus c = c
answer_job (some j) observation focus c = (handle_summary_response j.job_id observation focus c).0

unfoldable pub camera_step : Controller → CameraEvent → Controller
unfolding start_summary_loop stop_summary_loop apply_webcam_state notify_frame_uploaded
    start_continuous_uploads loop_round job_requested request_returned request_failed answer_job nth
    without
camera_step c loop_started = start_summary_loop c
camera_step c loop_stopped = stop_summary_loop c
camera_step c (toggled b) = apply_webcam_state b c
camera_step c (frame_uploaded u) = record c { store = (store_webcam_frame u c.store).0 }
camera_step c frame_noticed = notify_frame_uploaded c
camera_step c control_started = start_continuous_uploads c
camera_step c woken = loop_round c
camera_step c (requested id named) = job_requested id c.dispatching c
camera_step c returned = request_returned c.dispatching c
camera_step c failed = request_failed c.dispatching c
camera_step c (answered n observation focus) =
    answer_job (nth n c.jobs) observation focus (record c { jobs = without n c.jobs })

unfoldable pub camera_run : Controller → List CameraEvent → Controller
unfolding camera_step
camera_run c [] = c
camera_run c (e ∷ es) = camera_run (camera_step c e) es
