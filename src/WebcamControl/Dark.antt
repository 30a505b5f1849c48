-- ===== src/WebcamControl/Dark.antt =====
-- The camera that was switched off (webcam_controller.py): nothing is seen or sent until it is switched on.
use nemotron_voice_agent.Base.{
  ◌≡◌, refl, sym, ap, ◌∙◌, subst, true, false, Option, none, some, List, [], ◌∷◌, Text, text_eq,
  text_eq_sound, text_eq_refl, arith, All, Bool-cases, inl, inr, if◌then◌else◌,
}
use nemotron_voice_agent.Thinking.{nth, without}
use nemotron_voice_agent.WebcamControl.{
  Controller, Job, Dispatch, sending, sent, CameraEvent, loop_started, loop_stopped, toggled,
  frame_uploaded, frame_noticed, control_started, woken, requested, returned, failed, answered,
  camera_off_state, set_board_state, set_findings, start_summary_loop, stop_summary_loop,
  emit_upload_control, apply_webcam_state, current_visual_status, forget_job, is_accepted,
  handle_summary_response, notify_frame_uploaded, start_continuous_uploads, loop_round,
  job_requested, request_returned, request_failed, answer_job, camera_step, camera_run,
}

record IsDark (c : Controller) : Type 0 where
  pub off : c.enabled ≡ false
  pub explicit : c.explicitly_disabled ≡ true
  pub shown : c.board_state ≡ camera_off_state
  pub silent : c.control_waits ≡ false

-- What an event leaves as it is.
abbrev Stays : Controller → Controller → Type 0
Stays c c' =
    IsDark c'
    × ((c'.updates ≡ c.updates) × (c'.last_dispatched_sequence ≡ c.last_dispatched_sequence))

abbrev NotSwitchedOn : CameraEvent → Type 0
NotSwitchedOn (toggled true) = ⊥
NotSwitchedOn _ = Unit

-- A change that keeps what is dark.
same_as :
    (c c' : Controller)
    → IsDark c
    → c'.enabled ≡ c.enabled
    → c'.explicitly_disabled ≡ c.explicitly_disabled
    → c'.board_state ≡ c.board_state
    → c'.control_waits ≡ false
    → IsDark c'
same_as c c' h e x b s = record {
  off = e ∙ h.off;
  explicit = x ∙ h.explicit;
  shown = b ∙ h.shown;
  silent = s;
}

unchanged : (c c' : Controller) → IsDark c → c' ≡ c → Stays c c'
unchanged c c' h e = subst (λ d. Stays c d) (sym e) (h, (refl, refl))

-- The board shows the camera off already.
set_board_state-shown :
    (c : Controller) → c.board_state ≡ camera_off_state → set_board_state camera_off_state c ≡ c
unfolding set_board_state
set_board_state-shown c h =
    rw (ap (text_eq camera_off_state) h ∙ text_eq_refl camera_off_state) refl

loop_started-Stays : (c : Controller) → IsDark c → Stays c (start_summary_loop c)
unfolding start_summary_loop
loop_started-Stays c h =
    let on = record c { is_looping = true } in
    let started = set_board_state-shown on h.shown in
    elim (Bool-cases c.is_looping) [
      | inl e ↦
          subst (λ b. Stays c (if b then c else set_board_state camera_off_state on)) (sym e)
            (h, (refl, refl))
      | inr e ↦
          subst (λ b. Stays c (if b then c else set_board_state camera_off_state on)) (sym e)
            (subst (λ c'. Stays c c') (sym started)
              (same_as c on h refl refl refl h.silent, (refl, refl)))
    ]

forget_job-Stays : (id : Text) (c : Controller) → IsDark c → Stays c (forget_job id c)
forget_job-Stays id c h = elim (Bool-cases (text_eq c.summary_task_id id)) [
  | inl e ↦ rw e (same_as c _ h refl refl refl h.silent, (refl, refl))
  | inr e ↦ rw e (h, (refl, refl))
]

handle-Stays :
    (id observation focus : Text) (c : Controller)
    → IsDark c
    → Stays c (handle_summary_response id observation focus c).0
unfolding handle_summary_response is_accepted
handle-Stays id observation focus c h = let f = forget_job-Stays id c h in rw (f.0.off) f

job_requested-Stays :
    (id : Text) (d : Option Dispatch) (c : Controller) → IsDark c → Stays c (job_requested id d c)
unfolding job_requested
job_requested-Stays id none c h = (h, (refl, refl))
job_requested-Stays id (some (sending e)) c h =
    (same_as c _ h refl refl refl h.silent, (refl, refl))
job_requested-Stays id (some (sent e i)) c h = (h, (refl, refl))

request_returned-Stays :
    (d : Option Dispatch) (c : Controller) → IsDark c → Stays c (request_returned d c)
unfolding request_returned
request_returned-Stays none c h = (h, (refl, refl))
request_returned-Stays (some (sending e)) c h = (h, (refl, refl))
request_returned-Stays (some (sent e i)) c h = (same_as c _ h refl refl refl h.silent, (refl, refl))

request_failed-Stays :
    (d : Option Dispatch) (c : Controller) → IsDark c → Stays c (request_failed d c)
unfolding request_failed
request_failed-Stays none c h = (h, (refl, refl))
request_failed-Stays (some (sending e)) c h = (same_as c _ h refl refl refl h.silent, (refl, refl))
request_failed-Stays (some (sent e i)) c h = (h, (refl, refl))

answer_job-Stays :
    (j : Option Job) (observation focus : Text) (c : Controller)
    → IsDark c
    → Stays c (answer_job j observation focus c)
unfolding answer_job
answer_job-Stays none observation focus c h = (h, (refl, refl))
answer_job-Stays (some j) observation focus c h = handle-Stays j.job_id observation focus c h

loop_round-dark : (c : Controller) → IsDark c → loop_round c ≡ c
unfolding loop_round
loop_round-dark c h = elim (Bool-cases c.is_looping) [ inl e ↦ ground arith | inr e ↦ ground arith ]

camera_step-Stays :
    (c : Controller) (e : CameraEvent) → NotSwitchedOn e → IsDark c → Stays c (camera_step c e)
unfolding camera_step apply_webcam_state notify_frame_uploaded start_continuous_uploads
    stop_summary_loop
camera_step-Stays c loop_started n h = loop_started-Stays c h
camera_step-Stays c loop_stopped n h = (same_as c _ h refl refl refl refl, (refl, refl))
camera_step-Stays c (toggled true) n h = absurd n
camera_step-Stays c (toggled false) n h = unchanged c _ h (simp h.off)
camera_step-Stays c (frame_uploaded u) n h = (same_as c _ h refl refl refl h.silent, (refl, refl))
camera_step-Stays c frame_noticed n h = unchanged c _ h (simp (h.off, h.explicit))
camera_step-Stays c control_started n h = unchanged c _ h (simp h.silent)
camera_step-Stays c woken n h = unchanged c _ h (loop_round-dark c h)
camera_step-Stays c (requested id named) n h = job_requested-Stays id c.dispatching c h
camera_step-Stays c returned n h = request_returned-Stays c.dispatching c h
camera_step-Stays c failed n h = request_failed-Stays c.dispatching c h
camera_step-Stays c (answered k observation focus) n h =
    answer_job-Stays (nth k c.jobs) observation focus (record c { jobs = without k c.jobs })
      (same_as c _ h refl refl refl h.silent)

camera_run-Stays :
    (c : Controller) (es : List CameraEvent)
    → All NotSwitchedOn es
    → IsDark c
    → Stays c (camera_run c es)
unfolding camera_run
camera_run-Stays c [] n h = (h, (refl, refl))
camera_run-Stays c (e ∷ es) n h =
    let first = camera_step-Stays c e n.0 h in
    let rest = camera_run-Stays (camera_step c e) es n.1 first.0 in
    (rest.0, (rest.1.0 ∙ first.1.0, rest.1.1 ∙ first.1.1))

switched_off-IsDark : (c : Controller) → c.enabled ≡ true → IsDark (apply_webcam_state false c)
unfolding apply_webcam_state emit_upload_control set_board_state set_findings
switched_off-IsDark c e = elim (Bool-cases (text_eq camera_off_state c.board_state)) [
  | inl q ↦ rw e (
      rw q
        (record { off = refl; explicit = refl; shown = sym (text_eq_sound _ _ q); silent = refl }))
  | inr q ↦ rw e (rw q (record { off = refl; explicit = refl; shown = refl; silent = refl }))
]

-- From the moment an enabled camera is switched off, until it is switched on again, and whatever else
-- happens, the visual status says that it is off, nothing more is queued for the client, and no further
-- frame is sent to the agent.
pub current_visual_status-off :
    (c : Controller) (es : List CameraEvent)
    → c.enabled ≡ true
    → All NotSwitchedOn es
    → let off = apply_webcam_state false c in
      let later = camera_run off es in
      (current_visual_status later ≡ camera_off_state)
      × ((later.updates ≡ off.updates)
          × (later.last_dispatched_sequence ≡ off.last_dispatched_sequence))
unfolding current_visual_status
current_visual_status-off c es e n =
    let s = camera_run-Stays (apply_webcam_state false c) es n (switched_off-IsDark c e) in
    (rw s.0.off refl, s.1)
