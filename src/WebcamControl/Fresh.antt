-- ===== src/WebcamControl/Fresh.antt =====
-- No observation of an earlier epoch is taken (webcam_controller.py), however the answers and the switching
-- of the camera interleave with the loop.
use mathlib.Core.Bool.{false≢true}
use nemotron_voice_agent.Base.{
  ℕ, suc, zero, ◌≤◌, ◌≡◌, refl, sym, ap, ◌∙◌, subst, true, false, Option, none, some, List, [], ◌∷◌,
  Text, text_eq, strip, arith, All, Bool-cases, inl, inr, ◌==◌,
}
use nemotron_voice_agent.Thinking.{nth, without}
use nemotron_voice_agent.Thinking.OneJob.{without-none}
use nemotron_voice_agent.WebcamControl.Keeps.{
  AtMost, UnderWay, IsFresh, GoesOn, Keeps, IsFresh-Keeps, set_board_state-Keeps, if-Keeps,
  loop_started-Keeps, toggled-Keeps, noticed-Keeps, uploads-Keeps, grown,
}
use nemotron_voice_agent.WebcamControl.Loop.{
  loop_round-IsFresh, job_requested-IsFresh, request_returned-IsFresh, request_failed-IsFresh,
}
use nemotron_voice_agent.WebcamControl.{
  Controller, Job, Dispatch, sending, sent, CameraEvent, loop_started, loop_stopped, toggled,
  frame_uploaded, frame_noticed, control_started, woken, requested, returned, failed, answered,
  forget_job, is_accepted, is_epoch, publish, is_noop_observation, handle_summary_response,
  answer_job, camera_step, camera_run,
}

-- The job that is answered is the only one.
without-only :
    (n : ℕ) (c : Controller) (d : Option Dispatch) (js : List Job) (j : Job)
    → UnderWay c d js
    → nth n js ≡ some j
    → (without n js ≡ []) × (js ≡ j ∷ [])
unfolding nth without
without-only n c d [] j u e = ground arith
without-only zero c none (i ∷ []) j u e = (refl, ground arith)
without-only zero c (some (sent m id)) (i ∷ []) j u e = (refl, ground arith)
without-only (suc n) c d (i ∷ []) j u e = ground arith
without-only n c none (i ∷ k ∷ js) j u e = absurd u
without-only n c (some (sending m)) (i ∷ js) j u e = absurd u
without-only n c (some (sent m id)) (i ∷ k ∷ js) j u e = absurd u

UnderWay-none :
    (c : Controller) (d : Option Dispatch) (js : List Job) → UnderWay c d js → UnderWay c d []
UnderWay-none c none js u = tt
UnderWay-none c (some (sending m)) [] u = u
UnderWay-none c (some (sending m)) (j ∷ js) u = absurd u
UnderWay-none c (some (sent m id)) [] u = u
UnderWay-none c (some (sent m id)) (j ∷ []) u = u.0
UnderWay-none c (some (sent m id)) (j ∷ i ∷ js) u = absurd u

-- Nothing under way depends on the id that the loop remembers.
forgotten :
    (c : Controller) (d : Option Dispatch)
    → UnderWay c d []
    → UnderWay (record c { summary_task_id = [] }) d []
forgotten c none u = tt
forgotten c (some (sending m)) u = u
forgotten c (some (sent m id)) u = u

forget_job-IsFresh :
    (id : Text) (c : Controller) → c.jobs ≡ [] → IsFresh c → IsFresh (forget_job id c)
forget_job-IsFresh id c n h = elim (Bool-cases (text_eq c.summary_task_id id)) [
  | inl e ↦ rw e (record {
    bounded = h.bounded;
    under_way =
        subst (UnderWay (record c { summary_task_id = [] }) c.dispatching) (sym n)
          (forgotten c c.dispatching (subst (UnderWay c c.dispatching) n h.under_way));
  })
  | inr e ↦ rw e h
]

pub publish-Keeps :
    (observation focus : Text) (c : Controller) → Keeps c (publish observation focus c)
unfolding publish
publish-Keeps observation focus c =
    let seen =
      grown c (record c { latest_observation = observation }) (omega arith) refl refl refl refl in
    let k =
      if-Keeps (is_noop_observation observation) c _ _ seen
        (set_board_state-Keeps observation c _ seen) in
    grown c _ k.grown k.same_jobs k.same_dispatch k.same_task k.same_epoch

handle-IsFresh :
    (id observation focus : Text) (c : Controller)
    → c.jobs ≡ []
    → IsFresh c
    → IsFresh (handle_summary_response id observation focus c).0
unfolding handle_summary_response
handle-IsFresh id observation focus c n h =
    let c' = forget_job id c in
    let h' = forget_job-IsFresh id c n h in
    elim (Bool-cases (is_accepted observation c')) [
      | inl e ↦ rw e (IsFresh-Keeps c' _ (publish-Keeps (strip observation) (strip focus) c') h')
      | inr e ↦ rw e h'
    ]

answered-IsFresh :
    (n : ℕ) (observation focus : Text) (c : Controller) (o : Option Job)
    → nth n c.jobs ≡ o
    → IsFresh c
    → IsFresh (answer_job o observation focus (record c { jobs = without n c.jobs }))
unfolding answer_job
answered-IsFresh n observation focus c none e h =
    IsFresh-Keeps c _ (grown c _ (omega arith) (without-none n c.jobs e) refl refl refl) h
answered-IsFresh n observation focus c (some j) e h =
    let c' = record c { jobs = without n c.jobs } in
    let only = without-only n c c.dispatching c.jobs j h.under_way e in
    handle-IsFresh j.job_id observation focus c' only.0 (record {
      bounded = h.bounded;
      under_way =
          subst (UnderWay c' c.dispatching) (sym only.0)
            (UnderWay-none c c.dispatching c.jobs h.under_way);
    })

camera_step-IsFresh :
    (c : Controller) (e : CameraEvent) → GoesOn e → IsFresh c → IsFresh (camera_step c e)
unfolding camera_step
camera_step-IsFresh c loop_started g h = IsFresh-Keeps c _ (loop_started-Keeps c) h
camera_step-IsFresh c loop_stopped g h = absurd g
camera_step-IsFresh c (toggled b) g h = IsFresh-Keeps c _ (toggled-Keeps b c) h
camera_step-IsFresh c (frame_uploaded u) g h =
    IsFresh-Keeps c _ (grown c _ (omega arith) refl refl refl refl) h
camera_step-IsFresh c frame_noticed g h = IsFresh-Keeps c _ (noticed-Keeps c) h
camera_step-IsFresh c control_started g h = IsFresh-Keeps c _ (uploads-Keeps c) h
camera_step-IsFresh c woken g h = loop_round-IsFresh c h
camera_step-IsFresh c (requested id named) g h =
    job_requested-IsFresh id named c.dispatching c.jobs c refl refl h.under_way h
camera_step-IsFresh c returned g h =
    request_returned-IsFresh c.dispatching c.jobs c refl h.under_way h
camera_step-IsFresh c failed g h = request_failed-IsFresh c.dispatching c.jobs c refl h.under_way h
camera_step-IsFresh c (answered n observation focus) g h =
    answered-IsFresh n observation focus c (nth n c.jobs) refl h

camera_run-IsFresh :
    (c : Controller) (es : List CameraEvent) → All GoesOn es → IsFresh c → IsFresh (camera_run c es)
unfolding camera_run
camera_run-IsFresh c [] g h = h
camera_run-IsFresh c (e ∷ es) g h =
    camera_run-IsFresh (camera_step c e) es g.1 (camera_step-IsFresh c e g.0 h)

-- What is taken was asked for in the epoch that the loop remembers.
is_accepted-forget_job :
    (id observation : Text) (c : Controller)
    → is_accepted observation (forget_job id c) ≡ true
    → is_epoch c.summary_epoch c.epoch ≡ true
unfolding is_accepted
is_accepted-forget_job id observation c = elim (Bool-cases (text_eq c.summary_task_id id)) [
  | inl e ↦ rw e (λ a. ground (arith, a))
  | inr e ↦ rw e (λ a. ground (arith, a))
]

handle-is_epoch :
    (id observation focus : Text) (c : Controller)
    → (handle_summary_response id observation focus c).1 ≡ true
    → is_epoch c.summary_epoch c.epoch ≡ true
unfolding handle_summary_response
handle-is_epoch id observation focus c a =
    elim (Bool-cases (is_accepted observation (forget_job id c))) [
      | inl e ↦ is_accepted-forget_job id observation c e
      | inr e ↦
          let no : (handle_summary_response id observation focus c).1 ≡ false = rw e refl in
          absurd (false≢true (sym no ∙ a))
    ]

sent_in-epoch :
    (c : Controller) (d : Option Dispatch) (j : Job) (o : Option ℕ)
    → c.summary_epoch ≡ o
    → is_epoch o c.epoch ≡ true
    → UnderWay c d (j ∷ [])
    → j.sent_in ≡ c.epoch
sent_in-epoch c d j none e a u = ground arith
sent_in-epoch c none j (some m) e a u =
    let same : (j.sent_in == c.epoch) ≡ true = ap (λ o. is_epoch o c.epoch) (sym u.1.1 ∙ e) ∙ a in
    ground arith
sent_in-epoch c (some (sending k)) j (some m) e a u = absurd u
sent_in-epoch c (some (sent k id)) j (some m) e a u =
    let remembered : m ≤ k = subst (λ o. AtMost o k) e u.0.1 in
    let sent_before = u.0.0 in u.1.0 ∙ ground arith

-- From the start of a session on, and as long as the loop is not stopped, an answer that is taken is that of
-- a job which the loop sent in the current epoch: the camera was neither switched off nor on since.
pub handle_summary_response-sent_in :
    (c : Controller) (es : List CameraEvent) (n : ℕ) (j : Job) (observation focus : Text)
    → IsFresh c
    → All GoesOn es
    → nth n (camera_run c es).jobs ≡ some j
    → (handle_summary_response j.job_id observation focus (camera_run c es)).1 ≡ true
    → j.sent_in ≡ (camera_run c es).epoch
handle_summary_response-sent_in c es n j observation focus h g e a =
    let c' = camera_run c es in
    let u = (camera_run-IsFresh c es g h).under_way in
    let only = without-only n c' c'.dispatching c'.jobs j u e in
    sent_in-epoch c' c'.dispatching j c'.summary_epoch refl
      (handle-is_epoch j.job_id observation focus c' a)
      (subst (UnderWay c' c'.dispatching) only.1 u)
