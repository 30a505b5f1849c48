-- ===== src/Gestures/Resumes.antt =====
-- A resumption answers a barge-in (proactive_gesture_controller.py).
use nemotron_voice_agent.Base.{ℕ, ◌+◌, ◌≤◌, ◌≡◌, Option, none, some, List, [], ◌∷◌, arith, subst}
use nemotron_voice_agent.Gestures.{
  Intent, no_gesture, greet, stop, continue, down, act, count_candidate, on_continue, Action,
  barged_in, resumed, Controller, Scene, handle_gesture,
}
use nemotron_voice_agent.Gestures.Gates.{
  handle_gesture-all, consume_gesture_lem, count_candidate_lem, actions, add_action,
}

abbrev is_resumed : Option Action → ℕ
is_resumed (some resumed) = 1
is_resumed _ = 0

abbrev is_barged_in : Option Action → ℕ
is_barged_in (some barged_in) = 1
is_barged_in _ = 0

abbrev resumed_count : List (Scene × Action) → ℕ
resumed_count [] = 0
resumed_count ((sc, a) ∷ rest) = is_resumed (some a) + resumed_count rest

abbrev barged_in_count : List (Scene × Action) → ℕ
barged_in_count [] = 0
barged_in_count ((sc, a) ∷ rest) = is_barged_in (some a) + barged_in_count rest

-- A barge-in that no resumption answered yet.
abbrev pending : Option ℕ → ℕ
pending none = 0
pending (some t) = 1

act_tally :
    (i : Intent) (sc : Scene) (g : Controller)
    → is_resumed (act i sc g).1 + pending (act i sc g).0.last_interrupted_at
      ≤ is_barged_in (act i sc g).1 + pending g.last_interrupted_at
unfolding act on_continue
act_tally no_gesture sc g = omega arith
act_tally greet sc g = ground arith
act_tally stop sc g = ground arith
act_tally continue sc g = ground arith
act_tally down sc g = ground arith

step_tally :
    (sc : Scene) (g : Controller)
    → is_resumed (handle_gesture sc g).1 + pending (handle_gesture sc g).0.last_interrupted_at
      ≤ is_barged_in (handle_gesture sc g).1 + pending g.last_interrupted_at
step_tally sc g =
    handle_gesture-all sc g
      (λ r.
        is_resumed r.1 + pending r.0.last_interrupted_at
        ≤ is_barged_in r.1 + pending g.last_interrupted_at)
      (λ g' e f. rw f (omega arith))
      (λ cool sure.
        let counted = count_candidate sc.intent g in
        let r = act sc.intent sc counted in
        let kept = consume_gesture_lem sc.intent r in
        let same = (count_candidate_lem sc.intent g).1 in
        let h = act_tally sc.intent sc counted in
        rw (kept.0, kept.2)
          (subst
            (λ o. is_resumed r.1 + pending r.0.last_interrupted_at ≤ is_barged_in r.1 + pending o)
            same h))

resumed_count-add_action :
    (sc : Scene) (r : Option Action) (later : List (Scene × Action))
    → resumed_count (add_action sc r later) ≡ is_resumed r + resumed_count later
resumed_count-add_action sc none later = omega arith
resumed_count-add_action sc (some a) later = omega arith

barged_in_count-add_action :
    (sc : Scene) (r : Option Action) (later : List (Scene × Action))
    → barged_in_count (add_action sc r later) ≡ is_barged_in r + barged_in_count later
barged_in_count-add_action sc none later = omega arith
barged_in_count-add_action sc (some a) later = omega arith

-- Over any frames, the assistant resumes at most as often as it was interrupted, counting an interruption
-- that was still open at the start.
resumed_count-actions :
    (scenes : List Scene) (g : Controller)
    → resumed_count (actions scenes g)
      ≤ barged_in_count (actions scenes g) + pending g.last_interrupted_at
unfolding actions
resumed_count-actions [] g = omega arith
resumed_count-actions (sc ∷ scenes) g =
    let r = handle_gesture sc g in
    let later = actions scenes r.0 in
    omega (
      arith,
      step_tally sc g,
      resumed_count-add_action sc r.1 later,
      barged_in_count-add_action sc r.1 later,
      resumed_count-actions scenes r.0,
    )
