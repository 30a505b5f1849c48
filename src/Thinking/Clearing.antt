-- ===== src/Thinking/Clearing.antt =====
-- Interruptions of the thinking controller (thinking_controller.py): `clear_pending` while answers or
-- dispatches wait.
use nemotron_voice_agent.Base.{
  ℕ, suc, zero, ◌+◌, ◌≤◌, ◌<◌, ◌≡◌, refl, sym, ◌∙◌, Bool, true, false, Option, none, some, List, [],
  ◌∷◌, Text, arith, All, is_empty, ◌==◌, Bool-cases, inl, inr, strip, subst,
}
use nemotron_voice_agent.Thinking.{
  Thinking, Session, Event, asked, cleared, turn_ended, job_dispatched, job_failed, job_answered,
  delay_over, queue, clear_pending, start_pending, dispatched, dispatch_failed, nth, without,
  begin_dispatch, end_dispatch, end_answer, step, run, is_current,
}
use nemotron_voice_agent.Thinking.OneJob.{under_way}

abbrev is_answer : Event → Bool
is_answer (job_answered id named response) = true
is_answer _ = false

-- Every answer that waits is of an earlier generation.
abbrev AreStale : Session → Type 0
AreStale s = All (λ a. a.0 < s.thinking.generation) s.answers

stale_without :
    (m n : ℕ) (as_ : List (ℕ × Text)) → All (λ a. a.0 < m) as_ → All (λ a. a.0 < m) (without n as_)
unfolding without
stale_without m n [] h = h
stale_without m zero (a ∷ rest) h = h.1
stale_without m (suc n) (a ∷ rest) h = (h.0, stale_without m n rest h.1)

later_stale :
    (m k : ℕ) (rest : List (ℕ × Text)) → m ≤ k → All (λ a. a.0 < m) rest → All (λ a. a.0 < k) rest
later_stale m k [] le h = tt
later_stale m k (a ∷ rest) le h = (omega (arith, h.0), later_stale m k rest le h.1)

nth_stale :
    (m n : ℕ) (rest : List (ℕ × Text)) (a : ℕ × Text)
    → All (λ b. b.0 < m) rest
    → nth n rest ≡ some a
    → (a.0 == m) ≡ false
unfolding nth
nth_stale m n [] a h e = ground arith
nth_stale m zero (b ∷ rest) a h e = ground arith
nth_stale m (suc n) (b ∷ rest) a h e = nth_stale m n rest a h.1 e

-- Neither a dispatch that begins nor one that ends touches the answers.
begin_dispatch-AreStale :
    (s : Session) (r : Thinking × Option ℕ)
    → r.0.generation ≡ s.thinking.generation
    → AreStale s
    → AreStale (begin_dispatch r s) × ((begin_dispatch r s).spoken ≡ s.spoken)
unfolding begin_dispatch
begin_dispatch-AreStale s (th, none) e h =
    (subst (λ m. All (λ a. a.0 < m) s.answers) (sym e) h, refl)
begin_dispatch-AreStale s (th, some g) e h =
    (subst (λ m. All (λ a. a.0 < m) s.answers) (sym e) h, refl)

end_dispatch-AreStale :
    (s : Session) (found : Option ℕ) (f : ℕ → Thinking → Thinking)
    → ((g : ℕ) → (f g s.thinking).generation ≡ s.thinking.generation)
    → AreStale s
    → AreStale (end_dispatch found f s) × ((end_dispatch found f s).spoken ≡ s.spoken)
unfolding end_dispatch
end_dispatch-AreStale s none f e h = (h, refl)
end_dispatch-AreStale s (some g) f e h =
    (subst (λ m. All (λ a. a.0 < m) s.answers) (sym (e g)) h, refl)

end_answer-AreStale :
    (s : Session) (n : ℕ) (found : Option (ℕ × Text))
    → nth n s.answers ≡ found
    → AreStale s
    → AreStale (record (end_answer found s) { answers = without n s.answers })
      × ((end_answer found s).spoken ≡ s.spoken)
unfolding end_answer is_current
end_answer-AreStale s n none e h = (stale_without s.thinking.generation n s.answers h, refl)
end_answer-AreStale s n (some (g, answer)) e h =
    rw (nth_stale s.thinking.generation n s.answers (g, answer) h e)
      (stale_without s.thinking.generation n s.answers h, refl)

start_generation : (th : Thinking) → (start_pending th).0.generation ≡ th.generation
unfolding start_pending
start_generation th = ground arith

dispatched_generation :
    (g : ℕ) (id : Text) (th : Thinking) → (dispatched g id th).generation ≡ th.generation
unfolding dispatched
dispatched_generation g id th = ground arith

failed_generation : (th : Thinking) → (dispatch_failed th).generation ≡ th.generation
unfolding dispatch_failed
failed_generation th = refl

quiet_step :
    (s : Session) (e : Event)
    → is_answer e ≡ false
    → AreStale s
    → AreStale (step s e) × ((step s e).spoken ≡ s.spoken)
unfolding step queue clear_pending
quiet_step s (asked transcript reason) ok h = elim (Bool-cases (is_empty (strip transcript))) [
  | inl e ↦ rw e (h, refl)
  | inr e ↦ rw e (h, refl)
]
quiet_step s cleared ok h =
    (later_stale s.thinking.generation (s.thinking.generation + 1) s.answers (omega arith) h, refl)
quiet_step s turn_ended ok h =
    begin_dispatch-AreStale s (start_pending s.thinking) (start_generation s.thinking) h
quiet_step s (job_dispatched n id named) ok h =
    end_dispatch-AreStale s (nth n s.dispatching) (λ g. dispatched g id)
      (λ g. dispatched_generation g id s.thinking) h
quiet_step s (job_failed n) ok h =
    end_dispatch-AreStale s (nth n s.dispatching) (λ g. dispatch_failed)
      (λ g. failed_generation s.thinking) h
quiet_step s (job_answered id named response) ok h = ground arith
quiet_step s (delay_over n) ok h = end_answer-AreStale s n (nth n s.answers) refl h

stale-run :
    (s : Session) (es : List Event)
    → All (λ e. is_answer e ≡ false) es
    → AreStale s
    → (run s es).spoken ≡ s.spoken
unfolding run
stale-run s [] ok h = refl
stale-run s (e ∷ es) ok h =
    let next = quiet_step s e ok.0 h in stale-run (step s e) es ok.1 next.0 ∙ next.1

up_to : (m : ℕ) (rest : List (ℕ × Text)) → All (λ a. a.0 ≤ m) rest → All (λ a. a.0 < m + 1) rest
up_to m [] h = tt
up_to m (a ∷ rest) h = (omega (arith, h.0), up_to m rest h.1)

-- Where no answer that waits is of a later generation: after an interruption none of them is spoken any
-- more, whatever happens next, until another answer arrives.
pub spoken-run :
    (s : Session) (es : List Event)
    → All (λ a. a.0 ≤ s.thinking.generation) s.answers
    → All (λ e. is_answer e ≡ false) es
    → (run s (cleared ∷ es)).spoken ≡ s.spoken
unfolding run step clear_pending
spoken-run s es h ok = stale-run (step s cleared) es ok (up_to s.thinking.generation s.answers h)

-- From an idle controller with no dispatch under way, and for requests that are not blank: a dispatch that
-- an interruption overtook, and that then fails, makes the controller forget that a newer pass is being
-- dispatched, so the next request starts a second one beside it.
pub run-job_failed :
    (s : Session) (first second : Text) (reason : Text)
    → s.thinking.active ≡ false
    → s.dispatching ≡ []
    → is_empty (strip first) ≡ false
    → is_empty (strip second) ≡ false
    → under_way (
        run s (
          asked first reason
          ∷ turn_ended
          ∷ cleared
          ∷ asked first reason
          ∷ turn_ended
          ∷ job_failed 1
          ∷ asked second reason
          ∷ turn_ended
          ∷ []))
      ≡ 2
unfolding run step queue clear_pending start_pending begin_dispatch end_dispatch dispatch_failed nth
    without
run-job_failed s first second reason idle alone h k =
    let same : (s.thinking.generation + 1 == s.thinking.generation + 1) ≡ true = ground arith in
    rw (h, idle) (rw alone (rw k (rw same refl)))
