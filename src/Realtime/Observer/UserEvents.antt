-- ===== src/Realtime/Observer/UserEvents.antt =====
-- The events of a user turn (src/realtime/observer.py), with no other task running.
use nemotron_voice_agent.Base.{
  ℕ, ◌≡◌, refl, sym, ap, ◌∙◌, none, List, [], ◌∷◌, ◌++◌, Text, append_assoc, append-nil,
}
use nemotron_voice_agent.Realtime.Conversation.{
  ConversationState, new_item_id, input_ms, begin_user_turn, stop_user_turn, set_user_transcript,
  announce_user_item, ready_user_transcript, clear_user_item,
}
use nemotron_voice_agent.Realtime.Conversation.Invariant.{run}
use nemotron_voice_agent.Realtime.Events.{
  Payload, ga, speech_started, speech_stopped, audio_committed, user_audio_item_created,
  input_transcript_completed, with_beta_aliases,
}
use nemotron_voice_agent.Realtime.World.{emit, emit_all, emit_with_aliases, alone}
use nemotron_voice_agent.Realtime.Observer.{
  Frame, user_started, user_stopped, transcription, Observer, user_call, emit_user_item_if_needed,
  emit_user_transcript_if_ready, on_user_stopped, handle_frame,
}

unfoldable pub handle_all : (ℕ → Text) → List Frame → Observer → Observer
handle_all uuid [] o = o
handle_all uuid (f ∷ fs) o = handle_all uuid fs (handle_frame (alone uuid) none f o)

-- The events of one turn: speech, its end, the commit, the item and the final transcript, in this
-- order and once each.
unfoldable pub turn_events : Text → ℕ → Text → Text → List Payload
turn_events item ms item_transcript transcript =
    ga (speech_started item ms)
    ∷ ga (speech_stopped item ms)
    ∷ ga (audio_committed item)
    ∷ ga (user_audio_item_created item item_transcript)
    ∷ ga (input_transcript_completed item transcript)
    ∷ []

ruleset appends = (append_assoc, append-nil)

-- The observer `o` where no user turn is under way.
abbrev resting : ConversationState → Observer → Observer
resting c o = record o { world = record (o.world) { conversation = clear_user_item c } }

abbrev pub late : Text → List Frame
late t = user_started ∷ user_stopped ∷ transcription t ∷ []

abbrev pub early : Text → List Frame
early t = user_started ∷ transcription t ∷ user_stopped ∷ []

module _ (uuid : ℕ → Text) (t : Text) (c : ConversationState) (o : Observer) where
  late_turn :
      let o' = handle_all uuid (late t) (resting c o) in
      (o'.world.sent
        ≡ o.world.sent
          ++ turn_events (new_item_id (uuid o.world.uuids)) (input_ms c c.input_audio_samples) [] t)
      × (o'.world.conversation ≡ clear_user_item c)
  unfolding handle_all handle_frame user_call on_user_stopped emit_user_item_if_needed
      emit_user_transcript_if_ready begin_user_turn stop_user_turn set_user_transcript
      announce_user_item ready_user_transcript emit_with_aliases emit_all emit with_beta_aliases run
      turn_events
  late_turn = (simp appends, refl)

  early_turn :
      let o' = handle_all uuid (early t) (resting c o) in
      (o'.world.sent
        ≡ o.world.sent
          ++ turn_events (new_item_id (uuid o.world.uuids)) (input_ms c c.input_audio_samples) t t)
      × (o'.world.conversation ≡ clear_user_item c)
  unfolding handle_all handle_frame user_call on_user_stopped emit_user_item_if_needed
      emit_user_transcript_if_ready begin_user_turn stop_user_turn set_user_transcript
      announce_user_item ready_user_transcript emit_with_aliases emit_all emit with_beta_aliases run
      turn_events
  early_turn = (simp appends, refl)

-- With no other task running: one user turn from a state in which none is under way, with its final transcript `t` after or before
-- the end of speech: the client receives the five events of the turn, each once and in order, under
-- one item id, and no turn is under way after it. Only the transcript on the created item differs:
-- it is empty if the final transcript came later.
pub turn_either_order :
    (uuid : ℕ → Text) (t : Text) (o : Observer)
    → o.world.conversation ≡ clear_user_item o.world.conversation
    → let c = o.world.conversation in
      let item = new_item_id (uuid o.world.uuids) in
      let ms = input_ms c c.input_audio_samples in
      ((handle_all uuid (late t) o).world.sent ≡ o.world.sent ++ turn_events item ms [] t)
      × ((handle_all uuid (early t) o).world.sent ≡ o.world.sent ++ turn_events item ms t t)
      × ((handle_all uuid (late t) o).world.conversation ≡ c)
      × ((handle_all uuid (early t) o).world.conversation ≡ c)
turn_either_order uuid t o h =
    let c = o.world.conversation in
    let at_rest : resting c o ≡ o =
      λ i. record o { world = record (o.world) { conversation = sym h i } } in
    let later = late_turn uuid t c o in
    let earlier = early_turn uuid t c o in
    (
      (ap (λ (x : Observer). (handle_all uuid (late t) x).world.sent) (sym at_rest)) ∙ later.0,
      (ap (λ (x : Observer). (handle_all uuid (early t) x).world.sent) (sym at_rest)) ∙ earlier.0,
      (ap (λ (x : Observer). (handle_all uuid (late t) x).world.conversation) (sym at_rest))
          ∙ later.1
          ∙ sym h,
      (ap (λ (x : Observer). (handle_all uuid (early t) x).world.conversation) (sym at_rest))
          ∙ earlier.1
          ∙ sym h,
    )
