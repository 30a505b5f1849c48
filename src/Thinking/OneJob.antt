-- ===== src/Thinking/OneJob.antt =====
-- At most one thinking pass is under way (thinking_controller.py), as long as no dispatch fails.
use nemotron_voice_agent.Base.{
  Bool-cases, text_eq_sound, ℕ, suc, zero, ◌+◌, ◌≤◌, ◌≡◌, refl, sym, ap, ◌∙◌, Bool, true, false,
  not, ◌||◌, Option, none, some, List, [], ◌∷◌, Text, arith, All, is_empty, is_some, ◌==◌, inl, inr,
  strip, text_eq,
}
use nemotron_voice_agent.Thinking.{
  Session, Event, asked, cleared, turn_ended, job_dispatched, job_failed, job_answered, delay_over,
  queue, clear_pending, start_pending, dispatched, handle_job_response, nth, without,
  begin_dispatch, end_dispatch, begin_answer, end_answer, step, run, is_current,
}

abbrev pub flag : Bool → ℕ
flag true = 1
flag false = 0

flag_most : (b : Bool) → flag b ≤ 1
flag_most true = omega arith
flag_most false = omega arith

abbrev pub count : ℕ → List ℕ → ℕ
count g [] = 0
count g (x ∷ xs) = flag (x == g) + count g xs

abbrev is_named : Text → ℕ
is_named [] = 0
is_named (c ∷ t) = 1

-- The passes of the current generation that are being dispatched or run.
abbrev pub under_way : Session → ℕ
under_way s = count s.thinking.generation s.dispatching + is_named s.thinking.active_task_id

pub record OneJob (s : Session) : Type 0 where
  pub tally : under_way s ≡ flag s.thinking.active
  pub old : All (λ g. g ≤ s.thinking.generation) s.dispatching

abbrev pub succeeds : Event → Bool
succeeds (job_failed n) = false
succeeds _ = true

module _ (P : ℕ → Type 0) where
  All-without : (n : ℕ) (xs : List ℕ) → All P xs → All P (without n xs)
  unfolding without
  All-without n [] h = h
  All-without zero (x ∷ xs) h = h.1
  All-without (suc n) (x ∷ xs) h = (h.0, All-without n xs h.1)

count-nth :
    (n g x : ℕ) (xs : List ℕ)
    → nth n xs ≡ some x
    → count g xs ≡ flag (x == g) + count g (without n xs)
unfolding nth without
count-nth n g x [] h = ground arith
count-nth zero g x (y ∷ ys) h = ground arith
count-nth (suc n) g x (y ∷ ys) h = omega (arith, count-nth n g x ys h)

pub without-none {ℓ} : {A : Type ℓ} (n : ℕ) (xs : List A) → nth n xs ≡ none → without n xs ≡ xs
unfolding nth without
without-none n [] h = refl
without-none zero (y ∷ ys) h = ground arith
without-none (suc n) (y ∷ ys) h = ap (λ zs. y ∷ zs) (without-none n ys h)

count_later : (m : ℕ) (xs : List ℕ) → All (λ g. g ≤ m) xs → count (m + 1) xs ≡ 0
count_later m [] h = refl
count_later m (x ∷ xs) h = ground (arith, count_later m xs h.1)

older : (m : ℕ) (xs : List ℕ) → All (λ g. g ≤ m) xs → All (λ g. g ≤ m + 1) xs
older m [] h = tt
older m (x ∷ xs) h = (ground arith, older m xs h.1)

start-OneJob : (s : Session) → OneJob s → OneJob (begin_dispatch (start_pending s.thinking) s)
unfolding begin_dispatch start_pending
start-OneJob s h = elim (Bool-cases (not (is_some s.thinking.pending) || s.thinking.active)) [
  | inl e ↦ rw e (record { tally = h.tally; old = h.old })
  | inr e ↦
      let idle : s.thinking.active ≡ false = ground arith in
      let none_yet : under_way s ≡ 0 = h.tally ∙ ap flag idle in
      let itself : (s.thinking.generation == s.thinking.generation) ≡ true = ground arith in
      rw e (record {
        tally =
            ap
              (λ b.
                flag b
                + count s.thinking.generation s.dispatching
                + is_named s.thinking.active_task_id)
              itself
            ∙ omega (arith, none_yet);
        old = (omega arith, h.old);
      })
]

named_one : (id : Text) → is_empty id ≡ false → is_named id ≡ 1
named_one [] h = ground arith
named_one (c ∷ t) h = refl

-- The pass that was under way is over.
over :
    (s : Session) (id : Text)
    → is_empty id ≡ false
    → id ≡ s.thinking.active_task_id
    → OneJob s
    → count s.thinking.generation s.dispatching + 0 ≡ 0
over s id named e h =
    let one : is_named s.thinking.active_task_id ≡ 1 = ap is_named (sym e) ∙ named_one id named in
    let most : flag s.thinking.active ≤ 1 = flag_most s.thinking.active in
    omega (arith, one, h.tally, most)

answer-OneJob :
    (id response : Text) (s : Session)
    → is_empty id ≡ false
    → OneJob s
    → OneJob (begin_answer (handle_job_response id response s.thinking) s)
unfolding begin_answer handle_job_response
answer-OneJob id response s named h = elim (Bool-cases (text_eq id s.thinking.active_task_id)) [
  | inr e ↦ rw e (record { tally = h.tally; old = h.old })
  | inl e ↦
      let done = over s id named (text_eq_sound id s.thinking.active_task_id e) h in
      elim (Bool-cases (is_empty (strip response))) [
        | inl f ↦ rw (e, f) (record { tally = done; old = h.old })
        | inr f ↦ rw (e, f) (record { tally = done; old = h.old })
      ]
]

-- A dispatch that comes back, at its place among those that wait.
dispatched-OneJob :
    (n : ℕ) (id : Text) (s : Session) (found : Option ℕ)
    → is_empty id ≡ false
    → nth n s.dispatching ≡ found
    → OneJob s
    → OneJob (record (end_dispatch found (λ g. dispatched g id) s) {
      dispatching = without n s.dispatching;
    })
unfolding end_dispatch dispatched
dispatched-OneJob n id s none named e h = record {
  tally =
      ap (λ xs. count s.thinking.generation xs + is_named s.thinking.active_task_id)
        (without-none n s.dispatching e)
      ∙ h.tally;
  old = All-without (λ g. g ≤ s.thinking.generation) n s.dispatching h.old;
}
dispatched-OneJob n id s (some g) named e h =
    let split = count-nth n s.thinking.generation g s.dispatching e in
    let kept = All-without (λ g. g ≤ s.thinking.generation) n s.dispatching h.old in
    let most : flag s.thinking.active ≤ 1 = flag_most s.thinking.active in
    elim (Bool-cases (g == s.thinking.generation)) [
      | inl f ↦
          let hit : flag (g == s.thinking.generation) ≡ 1 = ap flag f in
          rw f (record {
            tally = omega (arith, split, hit, h.tally, most, named_one id named);
            old = kept;
          })
      | inr f ↦
          let miss : flag (g == s.thinking.generation) ≡ 0 = ap flag f in
          rw f (record { tally = omega (arith, split, miss, h.tally); old = kept })
    ]

spoken-OneJob :
    (n : ℕ) (s : Session) (found : Option (ℕ × Text))
    → OneJob s
    → OneJob (record (end_answer found s) { answers = without n s.answers })
unfolding end_answer
spoken-OneJob n s none h = record { tally = h.tally; old = h.old }
spoken-OneJob n s (some (g, answer)) h = elim (Bool-cases (is_current g s.thinking)) [
  | inl e ↦ rw e (record { tally = h.tally; old = h.old })
  | inr e ↦ rw e (record { tally = h.tally; old = h.old })
]

step-OneJob : (s : Session) (e : Event) → succeeds e ≡ true → OneJob s → OneJob (step s e)
unfolding step queue clear_pending
step-OneJob s (asked transcript reason) ok h = elim (Bool-cases (is_empty (strip transcript))) [
  | inl e ↦ rw e (record { tally = h.tally; old = h.old })
  | inr e ↦ rw e (record { tally = h.tally; old = h.old })
]
step-OneJob s cleared ok h = record {
  tally = ap (λ n. n + 0) (count_later s.thinking.generation s.dispatching h.old) ∙ omega arith;
  old = older s.thinking.generation s.dispatching h.old;
}
step-OneJob s turn_ended ok h = start-OneJob s h
step-OneJob s (job_dispatched n id named) ok h =
    dispatched-OneJob n id s (nth n s.dispatching) named refl h
step-OneJob s (job_failed n) ok h = ground arith
step-OneJob s (job_answered id named response) ok h = answer-OneJob id response s named h
step-OneJob s (delay_over n) ok h = spoken-OneJob n s (nth n s.answers) h

-- Where at most one thinking pass of the current generation is under way, the controller is active just
-- then and no dispatch is of a later generation, it stays so in any order of requests, ends of turns,
-- interruptions, answers and delays, as long as no dispatch fails.
pub run-OneJob :
    (s : Session) (es : List Event) → All (λ e. succeeds e ≡ true) es → OneJob s → OneJob (run s es)
unfolding run
run-OneJob s [] ok h = h
run-OneJob s (e ∷ es) ok h = run-OneJob (step s e) es ok.1 (step-OneJob s e ok.0 h)
