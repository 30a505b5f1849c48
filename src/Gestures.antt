-- ===== src/Gestures.antt =====
-- src/examples/omni_assistant_subagents/subagents/transport/proactive_gesture_controller.py: which webcam
-- gestures the assistant acts on. A confidence lies between 0.0 and 1.0 (gestures.py clamps it) and stands as
-- the bit pattern of its double, which has the order of the numbers. A time of `time.monotonic()` is in
-- microseconds, `none` where the source has minus infinity. The callbacks are the action returned.
pub mod Gates
pub mod Resumes
mod Tests
use nemotron_voice_agent.Base.{
  ℕ, ◌+◌, ◌-◌, Bool, true, false, not, ◌&&◌, ◌||◌, Option, none, some, ltb, leb, if◌then◌else◌,
}

pub data Intent : Type 0 where
  no_gesture greet stop continue down : Intent

pub data Action : Type 0 where
  greeted barged_in resumed acknowledged noted : Action

abbrev pub same_intent : Intent → Intent → Bool
same_intent no_gesture no_gesture = true
same_intent greet greet = true
same_intent stop stop = true
same_intent continue continue = true
same_intent down down = true
same_intent _ _ = false

-- `_GESTURE_CONFIDENCE`: 0.85, 0.75, 0.9 and 0.9
abbrev pub threshold : Intent → ℕ
threshold no_gesture = 0
threshold greet = 4605831338911806259
threshold stop = 4604930618986332160
threshold continue = 4606281698874543309
threshold down = 4606281698874543309

-- `_GESTURE_CONFIRMATIONS.get(intent, 1)`
abbrev pub confirmations : Intent → ℕ
confirmations continue = 2
confirmations down = 2
confirmations _ = 1

abbrev pub cooldown : ℕ
cooldown = 5000000

abbrev resume_window : ℕ
resume_window = 30000000

pub record Controller : Type 0 where
  pub last_intent : Intent
  pub candidate_intent : Intent
  pub candidate_count : ℕ
  pub last_action_at : Option ℕ
  pub last_interrupted_at : Option ℕ

abbrev pub started : Controller
started = record {
  last_intent = no_gesture;
  candidate_intent = no_gesture;
  candidate_count = 0;
  last_action_at = none;
  last_interrupted_at = none;
}

-- One scored gesture, and what the callbacks and the clock say when it is handled.
pub record Scene : Type 0 where
  pub intent : Intent
  pub confidence : ℕ
  pub now : ℕ
  pub assistant_speaking : Bool
  pub user_speaking : Bool

unfoldable pub forget_candidate : Controller → Controller
forget_candidate g = record g { candidate_intent = no_gesture; candidate_count = 0 }

-- `now - self._last_action_at < self._cooldown_secs`
abbrev pub in_cooldown : ℕ → Option ℕ → Bool
in_cooldown now none = false
in_cooldown now (some t) = ltb (now - t) cooldown

-- `(now - self._last_interrupted_at) <= self._resume_window_secs`
abbrev pub resumes : ℕ → Option ℕ → Bool
resumes now none = false
resumes now (some t) = leb (now - t) resume_window

abbrev pub is_idle : Scene → Bool
is_idle sc = not (sc.assistant_speaking || sc.user_speaking)

-- `_on_continue`, when it acts
unfoldable pub on_continue : Scene → Controller → Controller × Option Action
on_continue sc g =
    let acted = record g { last_action_at = some sc.now } in
    if resumes sc.now g.last_interrupted_at
    then (record acted { last_interrupted_at = none }, some resumed)
    else (acted, some acknowledged)

-- `_on_greet`, `_on_stop`, `_on_continue` and `_on_down`
unfoldable pub act : Intent → Scene → Controller → Controller × Option Action
unfolding on_continue
act no_gesture sc g = (g, none)
act greet sc g =
    if is_idle sc then (record g { last_action_at = some sc.now }, some greeted) else (g, none)
act stop sc g =
    if sc.assistant_speaking
    then (
      record g { last_action_at = some sc.now; last_interrupted_at = some sc.now },
      some barged_in,
    )
    else (g, none)
act continue sc g = if is_idle sc then on_continue sc g else (g, none)
act down sc g =
    if is_idle sc then (record g { last_action_at = some sc.now }, some noted) else (g, none)

-- `if acted: self._last_intent = intent`, and the candidate is forgotten
unfoldable pub consume_gesture : Intent → Controller × Option Action → Controller × Option Action
unfolding forget_candidate
consume_gesture intent (g, none) = (forget_candidate g, none)
consume_gesture intent (g, some a) = (forget_candidate (record g { last_intent = intent }), some a)

-- One more frame with the gesture of the candidate, or a new candidate.
unfoldable pub count_candidate : Intent → Controller → Controller
count_candidate intent g =
    if same_intent intent g.candidate_intent
    then record g { candidate_count = g.candidate_count + 1 }
    else record g { candidate_intent = intent; candidate_count = 1 }

unfoldable pub handle_gesture : Scene → Controller → Controller × Option Action
unfolding forget_candidate count_candidate act consume_gesture
handle_gesture sc g =
    let counted = count_candidate sc.intent g in
    if same_intent sc.intent no_gesture
    then (forget_candidate (record g { last_intent = no_gesture }), none)
    else if same_intent sc.intent g.last_intent
    then (g, none)
    else if not (same_intent sc.intent stop) && in_cooldown sc.now g.last_action_at
    then (g, none)
    else if ltb sc.confidence (threshold sc.intent)
    then (forget_candidate g, none)
    else if ltb counted.candidate_count (confirmations sc.intent)
    then (counted, none)
    else consume_gesture sc.intent (act sc.intent sc counted)
