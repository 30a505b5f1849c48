-- ===== src/Thinking/Tests.antt =====
-- An interruption while an answer waits, and one that overtakes a dispatch (thinking_controller.py).
use nemotron_voice_agent.Base.{◌≡◌, refl, false, none, List, [], ◌∷◌, codes, arith, strip}
use nemotron_voice_agent.Thinking.{
  Session, Event, asked, cleared, turn_ended, job_dispatched, job_failed, job_answered, delay_over,
  run,
}
use nemotron_voice_agent.Thinking.OneJob.{OneJob, run-OneJob, under_way}
use nemotron_voice_agent.Thinking.Clearing.{spoken-run, run-job_failed}

abbrev fresh : Session
fresh = record {
  thinking = record { pending = none; active = false; generation = 0; active_task_id = [] };
  dispatching = [];
  answers = [];
  spoken = [];
}

fresh-OneJob : OneJob fresh
fresh-OneJob = record { tally = refl; old = tt }

abbrev pass : List Event
pass =
    asked (codes "why?") []
    ∷ turn_ended
    ∷ job_dispatched 0 (codes "t1") refl
    ∷ job_answered (codes "t1") refl (codes "because")
    ∷ delay_over 0
    ∷ []

run-OneJob_example : OneJob (run fresh pass)
run-OneJob_example = run-OneJob fresh pass (refl, (refl, (refl, (refl, (refl, tt))))) fresh-OneJob

-- An answer of generation 0 waits.
abbrev waiting : Session
waiting = record fresh { answers = (0, codes "because") ∷ [] }

spoken-run_example : (run waiting (cleared ∷ delay_over 0 ∷ [])).spoken ≡ []
spoken-run_example = spoken-run waiting (delay_over 0 ∷ []) (omega arith, tt) (refl, tt)

run-job_failed_example :
    under_way (
      run fresh (
        asked (codes "why?") []
        ∷ turn_ended
        ∷ cleared
        ∷ asked (codes "why?") []
        ∷ turn_ended
        ∷ job_failed 1
        ∷ asked (codes "how?") []
        ∷ turn_ended
        ∷ []))
    ≡ 2
unfolding strip
run-job_failed_example = run-job_failed fresh (codes "why?") (codes "how?") [] refl refl refl refl
