-- ===== src/WebcamControl/Loop.antt =====
-- The loop of webcam_controller.py around its await: at most one job is under way.
use mathlib.Core.Bool.{false≢true}
use nemotron_voice_agent.Base.{
  ◌≡◌, refl, sym, ap, ◌∙◌, subst, true, false, not, ◌||◌, Option, none, some, List, [], ◌∷◌, Text,
  is_empty, is_some, arith, Bool-cases, inl, inr,
}
use nemotron_voice_agent.Webcam.{WebcamFrame, latest_webcam_frame}
use nemotron_voice_agent.WebcamControl.Keeps.{UnderWay, IsFresh}
use nemotron_voice_agent.WebcamControl.{
  Controller, Job, Dispatch, sending, sent, loop_round, job_requested, request_returned,
  request_failed, fresh_frame, start_dispatch,
}

-- The loop sends a frame only when no job is under way.
start_dispatch-IsFresh :
    (o : Option WebcamFrame) (c : Controller) (d : Option Dispatch) (js : List Job)
    → is_some d ≡ false
    → is_empty c.summary_task_id ≡ true
    → c.dispatching ≡ d
    → c.jobs ≡ js
    → UnderWay c d js
    → IsFresh c
    → IsFresh (start_dispatch o c)
unfolding start_dispatch
start_dispatch-IsFresh none c d js s t e f u h = h
start_dispatch-IsFresh (some w) c (some d) js s t e f u h = ground arith
start_dispatch-IsFresh (some w) c none [] s t e f u h = record {
  bounded = h.bounded;
  under_way = subst (UnderWay c (some (sending c.epoch))) (sym f) (omega arith, h.bounded);
}
start_dispatch-IsFresh (some w) c none (j ∷ []) s t e f u h =
    absurd (false≢true (sym u.1.0 ∙ ap is_empty u.0 ∙ t))
start_dispatch-IsFresh (some w) c none (j ∷ i ∷ js) s t e f u h = absurd u

pub loop_round-IsFresh : (c : Controller) → IsFresh c → IsFresh (loop_round c)
unfolding loop_round
loop_round-IsFresh c h =
    elim (Bool-cases (
      not c.is_looping
      || is_some c.dispatching
      || not (is_empty c.summary_task_id)
      || not c.enabled)) [
        | inl e ↦ subst IsFresh (sym (simp e)) h
        | inr e ↦
            let o = fresh_frame c (latest_webcam_frame c.session_id c.store) in
            subst IsFresh (sym (simp e)) (
              start_dispatch-IsFresh o c c.dispatching c.jobs (ground (arith, e))
                (ground (arith, e)) refl refl h.under_way h)
      ]

pub job_requested-IsFresh :
    (id : Text)
    → is_empty id ≡ false
    → (d : Option Dispatch) (js : List Job) (c : Controller) → c.dispatching ≡ d
    → c.jobs ≡ js
    → UnderWay c d js
    → IsFresh c
    → IsFresh (job_requested id d c)
unfolding job_requested
job_requested-IsFresh id n none js c e f u h = h
job_requested-IsFresh id n (some (sent m i)) js c e f u h = h
job_requested-IsFresh id n (some (sending m)) [] c e f u h = record {
  bounded = h.bounded;
  under_way =
      subst (λ js. UnderWay c (some (sent m id)) (record { job_id = id; sent_in = m } ∷ js)) (sym f)
        (u, (refl, (refl, n)));
}
job_requested-IsFresh id n (some (sending m)) (j ∷ js) c e f u h = absurd u

pub request_returned-IsFresh :
    (d : Option Dispatch) (js : List Job) (c : Controller)
    → c.jobs ≡ js
    → UnderWay c d js
    → IsFresh c
    → IsFresh (request_returned d c)
unfolding request_returned
request_returned-IsFresh none js c f u h = h
request_returned-IsFresh (some (sending m)) js c f u h = h
request_returned-IsFresh (some (sent m id)) [] c f u h =
    let c' = record c { summary_task_id = id; summary_epoch = some m; dispatching = none } in
    record { bounded = u.0; under_way = subst (UnderWay c' none) (sym f) tt }
request_returned-IsFresh (some (sent m id)) (j ∷ []) c f u h =
    let c' = record c { summary_task_id = id; summary_epoch = some m; dispatching = none } in
    let the_job : UnderWay c' none (j ∷ []) =
      (u.1.1.0, (ap is_empty u.1.1.0 ∙ u.1.1.1, ap some (sym u.1.0))) in
    record { bounded = u.0.0; under_way = subst (UnderWay c' none) (sym f) the_job }
request_returned-IsFresh (some (sent m id)) (j ∷ i ∷ js) c f u h = absurd u

pub request_failed-IsFresh :
    (d : Option Dispatch) (js : List Job) (c : Controller)
    → c.jobs ≡ js
    → UnderWay c d js
    → IsFresh c
    → IsFresh (request_failed d c)
unfolding request_failed
request_failed-IsFresh none js c f u h = h
request_failed-IsFresh (some (sent m i)) js c f u h = h
request_failed-IsFresh (some (sending m)) [] c f u h =
    let c' = record c { summary_task_id = []; dispatching = none } in
    record { bounded = h.bounded; under_way = subst (UnderWay c' none) (sym f) tt }
request_failed-IsFresh (some (sending m)) (j ∷ js) c f u h = absurd u
