-- ===== src/Gestures/Tests.antt =====
-- A stop sign that is held while the assistant speaks, and thumbs up after it.
use nemotron_voice_agent.Base.{ℕ, ◌≤◌, refl, true, false, List, [], ◌∷◌, length}
use nemotron_voice_agent.Gestures.{stop, continue, Scene, started}
use nemotron_voice_agent.Gestures.Gates.{actions, AreGated, actions-AreGated, length-actions}

-- At full confidence.
abbrev stop_sign : ℕ → Scene
stop_sign now = record {
  intent = stop;
  confidence = 4607182418800017408;
  now = now;
  assistant_speaking = true;
  user_speaking = false;
}

abbrev thumbs_up : ℕ → Scene
thumbs_up now = record {
  intent = continue;
  confidence = 4607182418800017408;
  now = now;
  assistant_speaking = false;
  user_speaking = false;
}

abbrev scenes : List Scene
scenes = stop_sign 1000000 ∷ stop_sign 2000000 ∷ thumbs_up 7000000 ∷ thumbs_up 8000000 ∷ []

actions-AreGated_example : AreGated started.last_action_at (actions scenes started)
actions-AreGated_example = actions-AreGated scenes started

length-actions_example : length (actions (stop_sign 1000000 ∷ stop_sign 2000000 ∷ []) started) ≤ 1
length-actions_example =
    length-actions stop (stop_sign 1000000 ∷ stop_sign 2000000 ∷ []) started refl (refl, (refl, tt))
