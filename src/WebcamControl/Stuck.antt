-- ===== src/WebcamControl/Stuck.antt =====
-- An answer that overtakes the return of its request (webcam_controller.py): the loop keeps the id of a job
-- that is over.
use nemotron_voice_agent.Base.{
  ℕ, ◌≡◌, refl, sym, ap, ◌∙◌, subst, false, Option, none, some, List, [], ◌∷◌, Text, text_eq,
  is_empty, strip, arith, All, Bool-cases, inl, inr,
}
use nemotron_voice_agent.Thinking.{nth, without}
use nemotron_voice_agent.WebcamControl.Keeps.{
  GoesOn, Keeps, loop_started-Keeps, toggled-Keeps, noticed-Keeps, uploads-Keeps, grown, self-Keeps,
}
use nemotron_voice_agent.WebcamControl.Fresh.{publish-Keeps}
use nemotron_voice_agent.WebcamControl.{
  Controller, Job, Dispatch, sending, sent, CameraEvent, loop_started, loop_stopped, toggled,
  frame_uploaded, frame_noticed, control_started, woken, requested, returned, failed, answered,
  forget_job, is_accepted, handle_summary_response, loop_round, job_requested, request_returned,
  request_failed, answer_job, camera_step, camera_run,
}

-- No job is under way, yet the loop remembers one.
record IsStuck (c : Controller) : Type 0 where
  pub no_job : c.jobs ≡ []
  pub no_dispatch : c.dispatching ≡ none
  pub remembered : is_empty c.summary_task_id ≡ false

IsStuck-Keeps : (c c' : Controller) → Keeps c c' → IsStuck c → IsStuck c'
IsStuck-Keeps c c' k h = record {
  no_job = k.same_jobs ∙ h.no_job;
  no_dispatch = k.same_dispatch ∙ h.no_dispatch;
  remembered = ap is_empty k.same_task ∙ h.remembered;
}

loop_round-IsStuck : (c : Controller) → IsStuck c → loop_round c ≡ c
unfolding loop_round
loop_round-IsStuck c h = elim (Bool-cases c.is_looping) [
  | inl e ↦ simp (e, h.no_dispatch, h.remembered)
  | inr e ↦ simp e
]

answered-IsStuck :
    (n : ℕ) (observation focus : Text) (c : Controller) (js : List Job)
    → js ≡ []
    → IsStuck c
    → IsStuck (answer_job (nth n js) observation focus (record c { jobs = without n js }))
unfolding answer_job nth without
answered-IsStuck n observation focus c [] e h = record {
  no_job = refl;
  no_dispatch = h.no_dispatch;
  remembered = h.remembered;
}
answered-IsStuck n observation focus c (j ∷ js) e h = ground arith

camera_step-IsStuck :
    (c : Controller) (e : CameraEvent) → GoesOn e → IsStuck c → IsStuck (camera_step c e)
unfolding camera_step job_requested request_returned request_failed
camera_step-IsStuck c loop_started g h = IsStuck-Keeps c _ (loop_started-Keeps c) h
camera_step-IsStuck c loop_stopped g h = absurd g
camera_step-IsStuck c (toggled b) g h = IsStuck-Keeps c _ (toggled-Keeps b c) h
camera_step-IsStuck c (frame_uploaded u) g h =
    IsStuck-Keeps c _ (grown c _ (omega arith) refl refl refl refl) h
camera_step-IsStuck c frame_noticed g h = IsStuck-Keeps c _ (noticed-Keeps c) h
camera_step-IsStuck c control_started g h = IsStuck-Keeps c _ (uploads-Keeps c) h
camera_step-IsStuck c woken g h = subst IsStuck (sym (loop_round-IsStuck c h)) h
camera_step-IsStuck c (requested id named) g h =
    subst (λ d. IsStuck (job_requested id d c)) (sym h.no_dispatch) h
camera_step-IsStuck c returned g h =
    subst (λ d. IsStuck (request_returned d c)) (sym h.no_dispatch) h
camera_step-IsStuck c failed g h = subst (λ d. IsStuck (request_failed d c)) (sym h.no_dispatch) h
camera_step-IsStuck c (answered n observation focus) g h =
    answered-IsStuck n observation focus c c.jobs h.no_job h

camera_run-IsStuck :
    (c : Controller) (es : List CameraEvent) → All GoesOn es → IsStuck c → IsStuck (camera_run c es)
unfolding camera_run
camera_run-IsStuck c [] g h = h
camera_run-IsStuck c (e ∷ es) g h =
    camera_run-IsStuck (camera_step c e) es g.1 (camera_step-IsStuck c e g.0 h)

-- What the answer leaves for the return of the request.
awaits :
    (id observation focus : Text) (c : Controller)
    → Keeps (forget_job id c) (handle_summary_response id observation focus c).0
unfolding handle_summary_response
awaits id observation focus c = elim (Bool-cases (is_accepted observation (forget_job id c))) [
  | inl e ↦ rw e (publish-Keeps (strip observation) (strip focus) (forget_job id c))
  | inr e ↦ rw e (self-Keeps (forget_job id c))
]

forget_job-jobs :
    (id : Text) (c : Controller)
    → ((forget_job id c).jobs ≡ c.jobs) × ((forget_job id c).dispatching ≡ c.dispatching)
forget_job-jobs id c = elim (Bool-cases (text_eq c.summary_task_id id)) [
  | inl e ↦ rw e (refl, refl)
  | inr e ↦ rw e (refl, refl)
]

returned-IsStuck :
    (m : ℕ) (id : Text) (c : Controller)
    → is_empty id ≡ false
    → c.jobs ≡ []
    → c.dispatching ≡ some (sent m id)
    → IsStuck (camera_step c returned)
unfolding camera_step request_returned
returned-IsStuck m id c n j d =
    subst (λ o. IsStuck (request_returned o c)) (sym d)
      (record { no_job = j; no_dispatch = refl; remembered = n })

overtaken-IsStuck :
    (c : Controller) (m : ℕ) (id : Text) (named : is_empty id ≡ false) (observation focus : Text)
    → c.dispatching ≡ some (sending m)
    → c.jobs ≡ []
    → IsStuck (camera_run c (requested id named ∷ answered 0 observation focus ∷ returned ∷ []))
unfolding camera_run camera_step job_requested answer_job nth without
overtaken-IsStuck c m id named observation focus d j =
    let awaiting = record c { dispatching = some (sent m id) } in
    let k = awaits id observation focus awaiting in
    let f = forget_job-jobs id awaiting in
    let after : Option Dispatch → Controller = (λ o.
      let c₁ = job_requested id o c in
      answer_job (nth 0 c₁.jobs) observation focus (record c₁ { jobs = without 0 c₁.jobs })) in
    subst (λ o. IsStuck (camera_step (after o) returned)) (sym d)
      (returned-IsStuck m id _ named (k.same_jobs ∙ f.0 ∙ j) (k.same_dispatch ∙ f.1))

-- Where the only job is answered before the request for it returns, no job is ever under way again, until
-- the loop is stopped.
pub camera_run-overtaken :
    (c : Controller) (m : ℕ) (id : Text) (named : is_empty id ≡ false) (observation focus : Text)
    (es : List CameraEvent)
    → c.dispatching ≡ some (sending m)
    → c.jobs ≡ []
    → All GoesOn es
    → let later =
        camera_run c (requested id named ∷ answered 0 observation focus ∷ returned ∷ es) in
      (later.jobs ≡ []) × (later.dispatching ≡ none)
unfolding camera_run
camera_run-overtaken c m id named observation focus es d j g =
    let h = overtaken-IsStuck c m id named observation focus d j in
    let stuck =
      camera_run-IsStuck
        (camera_run c (requested id named ∷ answered 0 observation focus ∷ returned ∷ [])) es g h in
    (stuck.no_job, stuck.no_dispatch)
