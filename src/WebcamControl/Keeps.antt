-- ===== src/WebcamControl/Keeps.antt =====
-- What is under way between the loop and the agent (webcam_controller.py), and the events that keep it.
use nemotron_voice_agent.Base.{
  ℕ, ◌+◌, ◌≤◌, ◌≡◌, refl, sym, ◌∙◌, subst, Bool, true, false, not, ◌||◌, Option, none, some, List,
  [], ◌∷◌, Text, text_eq, is_empty, arith, Bool-cases, inl, inr, if◌then◌else◌,
}
use nemotron_voice_agent.WebcamControl.{
  Controller, Job, Dispatch, sending, sent, CameraEvent, loop_stopped, camera_off_state,
  camera_on_state, set_board_state, set_findings, start_summary_loop, emit_upload_control,
  apply_webcam_state, notify_frame_uploaded, start_continuous_uploads,
}

abbrev pub AtMost : Option ℕ → ℕ → Type 0
AtMost none n = Unit
AtMost (some e) n = e ≤ n

-- What is under way: at most one job, which is the one that the loop awaits or the one that it remembers.
abbrev pub UnderWay : Controller → Option Dispatch → List Job → Type 0
UnderWay c none [] = Unit
UnderWay c none (j ∷ []) =
    (j.job_id ≡ c.summary_task_id)
    × ((is_empty j.job_id ≡ false) × (c.summary_epoch ≡ some j.sent_in))
UnderWay c (some (sending e)) [] = (e ≤ c.epoch) × AtMost c.summary_epoch e
UnderWay c (some (sent e id)) [] = (e ≤ c.epoch) × AtMost c.summary_epoch e
UnderWay c (some (sent e id)) (j ∷ []) =
    ((e ≤ c.epoch) × AtMost c.summary_epoch e)
    × ((j.sent_in ≡ e) × ((j.job_id ≡ id) × (is_empty id ≡ false)))
UnderWay c _ _ = ⊥

pub record IsFresh (c : Controller) : Type 0 where
  pub bounded : AtMost c.summary_epoch c.epoch
  pub under_way : UnderWay c c.dispatching c.jobs

-- The loop is not stopped, which is the end of the session.
abbrev pub GoesOn : CameraEvent → Type 0
GoesOn loop_stopped = ⊥
GoesOn _ = Unit

AtMost-trans : (o : Option ℕ) (m n : ℕ) → m ≤ n → AtMost o m → AtMost o n
AtMost-trans none m n l h = tt
AtMost-trans (some e) m n l h = omega arith

-- What a change must keep: the jobs and what the loop remembers; the epoch may grow.
pub record Keeps (c c' : Controller) : Type 0 where
  pub grown : c.epoch ≤ c'.epoch
  pub same_jobs : c'.jobs ≡ c.jobs
  pub same_dispatch : c'.dispatching ≡ c.dispatching
  pub same_task : c'.summary_task_id ≡ c.summary_task_id
  pub same_epoch : c'.summary_epoch ≡ c.summary_epoch

UnderWay-Keeps :
    (c c' : Controller)
    → Keeps c c'
    → (d : Option Dispatch) (js : List Job) → UnderWay c d js
    → UnderWay c' d js
UnderWay-Keeps c c' k none [] u = tt
UnderWay-Keeps c c' k none (j ∷ []) u = (u.0 ∙ sym k.same_task, (u.1.0, k.same_epoch ∙ u.1.1))
UnderWay-Keeps c c' k none (j ∷ i ∷ js) u = absurd u
UnderWay-Keeps c c' k (some (sending e)) [] u =
    let l = k.grown in (omega (arith, u.0), subst (λ o. AtMost o e) (sym k.same_epoch) u.1)
UnderWay-Keeps c c' k (some (sending e)) (j ∷ js) u = absurd u
UnderWay-Keeps c c' k (some (sent e id)) [] u =
    let l = k.grown in (omega (arith, u.0), subst (λ o. AtMost o e) (sym k.same_epoch) u.1)
UnderWay-Keeps c c' k (some (sent e id)) (j ∷ []) u =
    let l = k.grown in
    ((omega (arith, u.0.0), subst (λ o. AtMost o e) (sym k.same_epoch) u.0.1), u.1)
UnderWay-Keeps c c' k (some (sent e id)) (j ∷ i ∷ js) u = absurd u

pub IsFresh-Keeps : (c c' : Controller) → Keeps c c' → IsFresh c → IsFresh c'
IsFresh-Keeps c c' k h = record {
  bounded =
      subst (λ o. AtMost o c'.epoch) (sym k.same_epoch)
        (AtMost-trans c.summary_epoch c.epoch c'.epoch k.grown h.bounded);
  under_way =
      subst (λ d. UnderWay c' d c'.jobs) (sym k.same_dispatch)
        (subst (UnderWay c' c.dispatching) (sym k.same_jobs)
          (UnderWay-Keeps c c' k c.dispatching c.jobs h.under_way));
}

pub grown :
    (c c' : Controller)
    → c.epoch ≤ c'.epoch
    → c'.jobs ≡ c.jobs
    → c'.dispatching ≡ c.dispatching
    → c'.summary_task_id ≡ c.summary_task_id
    → c'.summary_epoch ≡ c.summary_epoch
    → Keeps c c'
grown c c' l j d t e = record {
  grown = l;
  same_jobs = j;
  same_dispatch = d;
  same_task = t;
  same_epoch = e;
}

pub self-Keeps : (c : Controller) → Keeps c c
self-Keeps c = grown c c (omega arith) refl refl refl refl

pub set_board_state-Keeps :
    (t : Text) (c c' : Controller) → Keeps c c' → Keeps c (set_board_state t c')
unfolding set_board_state set_findings
set_board_state-Keeps t c c' k = elim (Bool-cases (text_eq t c'.board_state)) [
  | inl e ↦ rw e k
  | inr e ↦ rw e (grown c _ k.grown k.same_jobs k.same_dispatch k.same_task k.same_epoch)
]

pub if-Keeps :
    (b : Bool) (c c₁ c₂ : Controller) → Keeps c c₁ → Keeps c c₂ → Keeps c (if b then c₁ else c₂)
if-Keeps true c c₁ c₂ h g = h
if-Keeps false c c₁ c₂ h g = g

pub loop_started-Keeps : (c : Controller) → Keeps c (start_summary_loop c)
unfolding start_summary_loop
loop_started-Keeps c = if-Keeps c.is_looping c c _ (self-Keeps c) (
    set_board_state-Keeps camera_off_state c (record c { is_looping = true })
      (grown c _ (omega arith) refl refl refl refl))

updates-Keeps : (b : Bool) (c c' : Controller) → Keeps c c' → Keeps c (emit_upload_control b c')
unfolding emit_upload_control
updates-Keeps b c c' k = grown c _ k.grown k.same_jobs k.same_dispatch k.same_task k.same_epoch

pub toggled-Keeps : (b : Bool) (c : Controller) → Keeps c (apply_webcam_state b c)
unfolding apply_webcam_state
toggled-Keeps true c = if-Keeps c.enabled c c _ (self-Keeps c) (
    updates-Keeps true c _
      (set_board_state-Keeps camera_on_state c _ (grown c _ (omega arith) refl refl refl refl)))
toggled-Keeps false c = if-Keeps (not c.enabled) c c _ (self-Keeps c) (
    updates-Keeps false c _
      (set_board_state-Keeps camera_off_state c _ (grown c _ (omega arith) refl refl refl refl)))

pub noticed-Keeps : (c : Controller) → Keeps c (notify_frame_uploaded c)
unfolding notify_frame_uploaded
noticed-Keeps c =
    let on =
      set_board_state-Keeps camera_on_state c (record c { enabled = true; epoch = c.epoch + 1 })
        (grown c _ (omega arith) refl refl refl refl) in
    if-Keeps (c.enabled || c.explicitly_disabled) c c _ (self-Keeps c)
      (grown c _ on.grown on.same_jobs on.same_dispatch on.same_task on.same_epoch)

pub uploads-Keeps : (c : Controller) → Keeps c (start_continuous_uploads c)
unfolding start_continuous_uploads
uploads-Keeps c =
    if-Keeps c.control_waits c _ c
      (updates-Keeps true c _
        (grown c (record c { control_waits = false }) (omega arith) refl refl refl refl))
      (self-Keeps c)
