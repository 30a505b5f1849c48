-- ===== src/Thinking.antt =====
-- src/examples/omni_assistant_subagents/subagents/transport/thinking_controller.py: the queue of the
-- deliberate thinking passes. A coroutine is cut at its awaits: `start_pending` awaits the dispatch of the
-- job, and `handle_job_response` sleeps before the answer is spoken. What is under way is in the session.
-- The rendered conversation and the progress updates are left out.
pub mod OneJob
pub mod Clearing
mod Tests
use nemotron_voice_agent.Base.{
  ℕ, suc, zero, ◌+◌, Bool, true, false, not, ◌||◌, Option, none, some, List, [], ◌∷◌, ◌++◌, Text,
  text_eq, is_empty, is_some, strip, ◌==◌, if◌then◌else◌, ◌≡◌,
}

pub record Thinking : Type 0 where
  pub pending : Option (Text × Text)
  pub active : Bool
  pub generation : ℕ
  pub active_task_id : Text

unfoldable pub queue : Text → Text → Thinking → Thinking
queue transcript reason th =
    let cleaned = strip transcript in
    if is_empty cleaned then th else record th { pending = some (cleaned, reason) }

unfoldable pub clear_pending : Thinking → Thinking
clear_pending th = record th {
  pending = none;
  generation = th.generation + 1;
  active = false;
  active_task_id = [];
}

-- Up to the await: the generation of the dispatch, if there is one.
unfoldable pub start_pending : Thinking → Thinking × Option ℕ
start_pending th =
    let taken = record th { pending = none } in
    if not (is_some th.pending) || th.active
    then (taken, none)
    else (record taken { active = true }, some th.generation)

-- After the await, when the job was dispatched.
unfoldable pub dispatched : ℕ → Text → Thinking → Thinking
dispatched generation task_id th =
    if generation == th.generation then record th { active_task_id = task_id } else th

-- `except Exception`
unfoldable pub dispatch_failed : Thinking → Thinking
dispatch_failed th = record th { active = false }

-- Up to the sleep: the generation and the answer, if there is one to speak.
unfoldable pub handle_job_response : Text → Text → Thinking → Thinking × Option (ℕ × Text)
handle_job_response job_id response th =
    let answer = strip response in
    let idle = record th { active = false; active_task_id = [] } in
    if not (text_eq job_id th.active_task_id)
    then (th, none)
    else if is_empty answer
    then (idle, none)
    else (idle, some (th.generation, answer))

-- After the sleep: whether the answer is spoken.
unfoldable pub is_current : ℕ → Thinking → Bool
is_current generation th = generation == th.generation

-- The controller, the dispatches and the answers that wait, and the answers spoken.
pub record Session : Type 0 where
  pub thinking : Thinking
  pub dispatching : List ℕ
  pub answers : List (ℕ × Text)
  pub spoken : List Text

-- What can happen next. A task that goes on is named by its place among those that wait.
pub data Event : Type 0 where
  asked : Text → Text → Event
  cleared turn_ended : Event
  job_dispatched : ℕ → (id : Text) → is_empty id ≡ false → Event
  job_failed : ℕ → Event
  job_answered : (id : Text) → is_empty id ≡ false → Text → Event
  delay_over : ℕ → Event

unfoldable pub nth {ℓ} : {A : Type ℓ} → ℕ → List A → Option A
nth n [] = none
nth zero (x ∷ xs) = some x
nth (suc n) (x ∷ xs) = nth n xs

unfoldable pub without {ℓ} : {A : Type ℓ} → ℕ → List A → List A
without n [] = []
without zero (x ∷ xs) = xs
without (suc n) (x ∷ xs) = x ∷ without n xs

unfoldable pub begin_dispatch : Thinking × Option ℕ → Session → Session
begin_dispatch (th, none) s = record s { thinking = th }
begin_dispatch (th, some g) s = record s { thinking = th; dispatching = g ∷ s.dispatching }

unfoldable pub end_dispatch : Option ℕ → (ℕ → Thinking → Thinking) → Session → Session
end_dispatch none f s = s
end_dispatch (some g) f s = record s { thinking = f g s.thinking }

unfoldable pub begin_answer : Thinking × Option (ℕ × Text) → Session → Session
begin_answer (th, none) s = record s { thinking = th }
begin_answer (th, some a) s = record s { thinking = th; answers = a ∷ s.answers }

unfoldable pub end_answer : Option (ℕ × Text) → Session → Session
end_answer none s = s
end_answer (some (g, answer)) s =
    if is_current g s.thinking then record s { spoken = s.spoken ++ answer ∷ [] } else s

unfoldable pub step : Session → Event → Session
unfolding queue clear_pending start_pending dispatched dispatch_failed handle_job_response
    begin_dispatch end_dispatch begin_answer end_answer nth without is_current
step s (asked transcript reason) = record s { thinking = queue transcript reason s.thinking }
step s cleared = record s { thinking = clear_pending s.thinking }
step s turn_ended = begin_dispatch (start_pending s.thinking) s
step s (job_dispatched n id named) =
    record (end_dispatch (nth n s.dispatching) (λ g. dispatched g id) s) {
      dispatching = without n s.dispatching;
    }
step s (job_failed n) = record (end_dispatch (nth n s.dispatching) (λ g. dispatch_failed) s) {
  dispatching = without n s.dispatching;
}
step s (job_answered id named response) =
    begin_answer (handle_job_response id response s.thinking) s
step s (delay_over n) = record (end_answer (nth n s.answers) s) { answers = without n s.answers }

unfoldable pub run : Session → List Event → Session
run s [] = s
run s (e ∷ es) = run (step s e) es
