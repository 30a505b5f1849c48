-- ===== src/Gestures/Gates.antt =====
-- What the gates promise (proactive_gesture_controller.py), for any sequence of frames.
use nemotron_voice_agent.Base.{
  both, both_else, ◌&&◌, not, ltb, ℕ, ◌≤◌, ◌≡◌, refl, Bool, true, false, Option, none, some, List,
  [], ◌∷◌, arith, All, if◌then◌else◌, length, subst, sym, ◌∙◌,
}
use nemotron_voice_agent.Gestures.{
  act, consume_gesture, count_candidate, forget_candidate, on_continue, greet, stop, continue, down,
  Intent, no_gesture, Action, barged_in, same_intent, threshold, Controller, Scene, in_cooldown,
  is_idle, handle_gesture,
}

abbrev is_barge_in : Action → Bool
is_barge_in barged_in = true
is_barge_in _ = false

-- A barge-in while the assistant speaks, or another action while nobody does; never on a guess, and
-- outside the cooldown after the action at `before`, unless it is a barge-in.
abbrev IsGated : Option ℕ → Scene → Action → Type 0
IsGated before sc a =
    ((if is_barge_in a then sc.assistant_speaking else is_idle sc) ≡ true)
    × (threshold sc.intent ≤ sc.confidence)
    × ((if is_barge_in a then false else in_cooldown sc.now before) ≡ false)

-- The actions of a sequence of frames, each with its frame.
abbrev pub add_action : Scene → Option Action → List (Scene × Action) → List (Scene × Action)
add_action sc none later = later
add_action sc (some a) later = (sc, a) ∷ later

unfoldable pub actions : List Scene → Controller → List (Scene × Action)
actions [] g = []
actions (sc ∷ scenes) g =
    let r = handle_gesture sc g in let later = actions scenes r.0 in add_action sc r.1 later

-- Each action passes the gates, with the action before it.
abbrev pub AreGated : Option ℕ → List (Scene × Action) → Type 0
AreGated before [] = Unit
AreGated before ((sc, a) ∷ rest) = IsGated before sc a × AreGated (some sc.now) rest

pub count_candidate_lem :
    (i : Intent) (g : Controller)
    → ((count_candidate i g).last_action_at ≡ g.last_action_at)
      × ((count_candidate i g).last_interrupted_at ≡ g.last_interrupted_at)
unfolding count_candidate
count_candidate_lem i g = ground arith

cooled :
    (barge stops cooling : Bool)
    → barge ≡ stops
    → (not stops && cooling) ≡ false
    → (if barge then false else cooling) ≡ false
cooled barge stops cooling e cool = ground arith

-- What holds of every frame that leads to no action, and of every gesture that comes past the gates, holds of
-- every frame.
pub handle_gesture-all :
    (sc : Scene) (g : Controller) (P : Controller × Option Action → Type 0)
    → ((g' : Controller)
        → g'.last_action_at ≡ g.last_action_at
        → g'.last_interrupted_at ≡ g.last_interrupted_at
        → P (g', none))
    → ((not (same_intent sc.intent stop) && in_cooldown sc.now g.last_action_at) ≡ false
        → ltb sc.confidence (threshold sc.intent) ≡ false
        → P (consume_gesture sc.intent (act sc.intent sc (count_candidate sc.intent g))))
    → P (handle_gesture sc g)
unfolding handle_gesture forget_candidate
handle_gesture-all sc g P idle gated =
    let counted = count_candidate_lem sc.intent g in
    both P _ _ _ (idle (forget_candidate (record g { last_intent = no_gesture })) refl refl) (
      both P _ _ _ (idle g refl refl) (
        both_else P _ _ _ (idle g refl refl) (λ cool.
          both_else P _ _ _ (idle (forget_candidate g) refl refl) (λ sure.
            both P _ _ _ (idle (count_candidate sc.intent g) counted.0 counted.1)
              (gated cool sure)))))

-- What `act` reports of an action.
act-some :
    (i : Intent) (sc : Scene) (g : Controller) (a : Action)
    → (act i sc g).1 ≡ some a
    → ((act i sc g).0.last_action_at ≡ some sc.now)
      × ((if is_barge_in a then sc.assistant_speaking else is_idle sc) ≡ true)
      × (is_barge_in a ≡ same_intent i stop)
unfolding act on_continue
act-some no_gesture sc g a h = ground arith
act-some greet sc g a h = ground arith
act-some stop sc g a h = ground arith
act-some continue sc g a h = ground arith
act-some down sc g a h = ground arith

act-none :
    (i : Intent) (sc : Scene) (g : Controller)
    → (act i sc g).1 ≡ none
    → (act i sc g).0.last_action_at ≡ g.last_action_at
unfolding act on_continue
act-none no_gesture sc g h = refl
act-none greet sc g h = ground arith
act-none stop sc g h = ground arith
act-none continue sc g h = ground arith
act-none down sc g h = ground arith

-- The action is kept, its time and the interruptions too, and an action takes the gesture.
pub consume_gesture_lem :
    (i : Intent) (r : Controller × Option Action)
    → ((consume_gesture i r).1 ≡ r.1)
      × ((consume_gesture i r).0.last_action_at ≡ r.0.last_action_at)
      × ((consume_gesture i r).0.last_interrupted_at ≡ r.0.last_interrupted_at)
unfolding consume_gesture forget_candidate
consume_gesture_lem i (g, none) = (refl, refl, refl)
consume_gesture_lem i (g, some a) = (refl, refl, refl)

consume_gesture-takes :
    (i : Intent) (r : Controller × Option Action) (a : Action)
    → (consume_gesture i r).1 ≡ some a
    → (consume_gesture i r).0.last_intent ≡ i
unfolding consume_gesture forget_candidate
consume_gesture-takes i (g, none) a h = ground arith
consume_gesture-takes i (g, some b) a h = refl

no_action {ℓ} : {P : Type ℓ} (a : Action) → Path (Option Action) none (some a) → P
no_action a h = ground arith

handle_none :
    (sc : Scene) (g : Controller)
    → (handle_gesture sc g).1 ≡ none
    → (handle_gesture sc g).0.last_action_at ≡ g.last_action_at
handle_none sc g =
    handle_gesture-all sc g (λ r. r.1 ≡ none → r.0.last_action_at ≡ g.last_action_at)
      (λ g' e f h. e)
      (λ cool sure h.
        let r = act sc.intent sc (count_candidate sc.intent g) in
        let kept = consume_gesture_lem sc.intent r in
        kept.1
        ∙ act-none sc.intent sc (count_candidate sc.intent g) (sym kept.0 ∙ h)
        ∙ (count_candidate_lem sc.intent g).0)

handle_some :
    (sc : Scene) (g : Controller) (a : Action)
    → (handle_gesture sc g).1 ≡ some a
    → IsGated g.last_action_at sc a × ((handle_gesture sc g).0.last_action_at ≡ some sc.now)
handle_some sc g a =
    handle_gesture-all sc g
      (λ r. r.1 ≡ some a → IsGated g.last_action_at sc a × (r.0.last_action_at ≡ some sc.now))
      (λ g' e f h. no_action a h)
      (λ cool sure h.
        let r = act sc.intent sc (count_candidate sc.intent g) in
        let kept = consume_gesture_lem sc.intent r in
        let acted = act-some sc.intent sc (count_candidate sc.intent g) a (sym kept.0 ∙ h) in
        ((acted.1, ground arith, cooled (is_barge_in a) _ _ acted.2 cool), kept.1 ∙ acted.0))

add-AreGated :
    (before : Option ℕ) (sc : Scene) (r : Option Action) (later : List (Scene × Action))
    (g' : Controller)
    → (r ≡ none → g'.last_action_at ≡ before)
    → ((a : Action) → r ≡ some a → IsGated before sc a × (g'.last_action_at ≡ some sc.now))
    → AreGated g'.last_action_at later
    → AreGated before (add_action sc r later)
add-AreGated before sc none later g' idle acted h = subst (λ o. AreGated o later) (idle refl) h
add-AreGated before sc (some a) later g' idle acted h =
    ((acted a refl).0, subst (λ o. AreGated o later) (acted a refl).1 h)

-- Whatever gestures the webcam shows, and in whatever order: every barge-in happens while the assistant
-- speaks and every other action while nobody does, no action rests on a confidence below its threshold, and
-- none but a barge-in follows the action before it within the cooldown.
pub actions-AreGated :
    (scenes : List Scene) (g : Controller) → AreGated g.last_action_at (actions scenes g)
unfolding actions
actions-AreGated [] g = tt
actions-AreGated (sc ∷ scenes) g =
    add-AreGated g.last_action_at sc (handle_gesture sc g).1 _ (handle_gesture sc g).0
      (handle_none sc g) (handle_some sc g) (actions-AreGated scenes (handle_gesture sc g).0)

held_lem :
    (sc : Scene) (g : Controller)
    → same_intent sc.intent no_gesture ≡ false
    → sc.intent ≡ g.last_intent
    → handle_gesture sc g ≡ (g, none)
unfolding handle_gesture
held_lem sc g h e = ground arith

consumed :
    (sc : Scene) (g : Controller) (a : Action)
    → (handle_gesture sc g).1 ≡ some a
    → (handle_gesture sc g).0.last_intent ≡ sc.intent
consumed sc g a =
    handle_gesture-all sc g (λ r. r.1 ≡ some a → r.0.last_intent ≡ sc.intent)
      (λ g' e f h. no_action a h)
      (λ cool sure.
        consume_gesture-takes sc.intent (act sc.intent sc (count_candidate sc.intent g)) a)

-- Frames of one gesture.
abbrev pub Holds : Intent → List Scene → Type 0
Holds i scenes = All (λ sc. sc.intent ≡ i) scenes

held_on :
    (i : Intent) (scenes : List Scene) (g : Controller)
    → same_intent i no_gesture ≡ false
    → Holds i scenes
    → g.last_intent ≡ i
    → actions scenes g ≡ []
unfolding actions
held_on i [] g shown h e = refl
held_on i (sc ∷ scenes) g shown h e =
    let still = held_lem sc g (ground arith) (h.0 ∙ sym e) in
    rw still (held_on i scenes g shown h.1 e)

add_once :
    (sc : Scene) (r : Option Action) (later : List (Scene × Action))
    → length later ≤ 1
    → ((a : Action) → r ≡ some a → later ≡ [])
    → length (add_action sc r later) ≤ 1
add_once sc none later h e = h
add_once sc (some a) later h e = rw (e a refl) (omega arith)

-- A gesture that is held, over any number of frames, is acted on once at most.
pub length-actions :
    (i : Intent) (scenes : List Scene) (g : Controller)
    → same_intent i no_gesture ≡ false
    → Holds i scenes
    → length (actions scenes g) ≤ 1
unfolding actions
length-actions i [] g shown h = omega arith
length-actions i (sc ∷ scenes) g shown h =
    add_once sc (handle_gesture sc g).1 (actions scenes (handle_gesture sc g).0)
      (length-actions i scenes (handle_gesture sc g).0 shown h.1)
      (λ a e. held_on i scenes (handle_gesture sc g).0 shown h.1 (consumed sc g a e ∙ h.0))
