-- ===== src/Realtime/Observer/Handled.antt =====
-- Frames that the pipeline pushes from one processor to the next (src/realtime/observer.py, `on_push_frame`):
-- the observer sees each of them several times.
use nemotron_voice_agent.Base.{ℕ, Bool, true, false, Option, List, [], ◌∷◌, if◌then◌else◌}
use nemotron_voice_agent.Realtime.World.{Schedule}
use nemotron_voice_agent.Realtime.Lifecycle.{Telemetry}
use nemotron_voice_agent.Realtime.Observer.{
  tts_stopped, llm_end, Observer, Pushed, pipeline_error_frame, interruption, observed, FramePushed,
  passes, on_push_frame,
}

-- The frames that may end a response, and with it the memory of the frames that were handled.
abbrev pub ends_response : Pushed → Bool
ends_response (pipeline_error_frame fatal) = fatal
ends_response interruption = true
ends_response (observed tts_stopped) = true
ends_response (observed (llm_end skip_tts)) = skip_tts
ends_response (observed _) = false

-- Pushes in order, each with the telemetry of its time.
unfoldable pub push_all : Schedule → ℕ → List (Option Telemetry × FramePushed) → Observer → Observer
unfolding on_push_frame
push_all s max_frames [] o = o
push_all s max_frames ((telemetry, p) ∷ ps) o =
    push_all s max_frames ps (on_push_frame s max_frames telemetry p o)

-- The ids that are noted.
abbrev noted : List (Option Telemetry × FramePushed) → List ℕ
noted [] = []
noted ((telemetry, p) ∷ ps) = if passes p p.frame then p.id ∷ noted ps else noted ps
