-- ===== src/Realtime/Serializer/Gates.antt =====
-- The hand-off gate (src/realtime/serializer.py): before the assistant's first response a client can
-- neither ask for a response nor put a text to the model.
use nemotron_voice_agent.Base.{
  ℕ, ◌≡◌, refl, Bool, true, false, Option, none, some, List, Text, codes, arith,
}
use nemotron_voice_agent.Json.{
  Json, null, boolean, float, int, negative, str, arr, obj, Fields, or_null, lookup,
}
use nemotron_voice_agent.Realtime.World.{Schedule}
use nemotron_voice_agent.Realtime.Lifecycle.{Telemetry}
use nemotron_voice_agent.Realtime.Serializer.State.{
  Inbound, Libraries, PipelineFrame, Serializer, append_message, reject, run_llm,
}
use nemotron_voice_agent.Realtime.Serializer.Responding.{
  on_response_create, on_response_cancel, on_truncate, truncate_item,
}
use nemotron_voice_agent.Realtime.Serializer.Buffer.{
  on_append, on_commit, append_audio, append_decoded, accept_audio,
}
use nemotron_voice_agent.Realtime.Serializer.ItemCreate.{on_item_create, create_item, create_text}
use nemotron_voice_agent.Realtime.Serializer.Messages.{extract_item_text}
use nemotron_voice_agent.Realtime.Serializer.Updating.{
  on_session_update, update_session, apply_update,
}
use nemotron_voice_agent.Realtime.Serializer.Cases.{dispatch-all, deserialize-all}
use nemotron_voice_agent.Realtime.Serializer.{dispatch, deserialize}

-- The frames that put something to the model: a text of the user, or a request for a response.
abbrev pub prompts : Option PipelineFrame → Bool
prompts (some run_llm) = true
prompts (some (append_message t)) = true
prompts _ = false

module _ ⦃l : Libraries⦄ where
  module _ (s : Schedule) (event_id : Option Text) where
    create-closed :
        (m : Fields) (z : Serializer)
        → z.world.conversation.assistant_has_responded ≡ false
        → prompts (on_response_create s m event_id z).1 ≡ false
    unfolding on_response_create reject
    create-closed m z h = rw h refl

    text-closed :
        (m : Fields) (t : Option Text) (z : Serializer)
        → z.world.conversation.assistant_has_responded ≡ false
        → prompts (create_text s m t event_id z).1 ≡ false
    unfolding create_text reject
    text-closed m none z h = refl
    text-closed m (some t) z h = rw h refl

    item-closed :
        (j : Json) (z : Serializer)
        → z.world.conversation.assistant_has_responded ≡ false
        → prompts (create_item s j event_id z).1 ≡ false
    unfolding create_item reject
    item-closed (obj m) z h = let sub = text-closed m (extract_item_text m) z h in ground arith
    item-closed null z h = refl
    item-closed (boolean b) z h = refl
    item-closed (float n) z h = refl
    item-closed (int n) z h = refl
    item-closed (negative n) z h = refl
    item-closed (str t) z h = refl
    item-closed (arr i) z h = refl

    decoded-closed :
        (raw : Option (List ℕ)) (z : Serializer)
        → prompts (append_decoded s event_id raw z).1 ≡ false
    unfolding append_decoded accept_audio reject
    decoded-closed none z = refl
    decoded-closed (some raw) z = ground arith

    audio-closed : (j : Json) (z : Serializer) → prompts (append_audio s j event_id z).1 ≡ false
    unfolding append_audio reject
    audio-closed (str t) z = let sub = decoded-closed in ground arith
    audio-closed null z = refl
    audio-closed (boolean b) z = refl
    audio-closed (float n) z = refl
    audio-closed (int n) z = refl
    audio-closed (negative n) z = refl
    audio-closed (arr i) z = refl
    audio-closed (obj m) z = refl

    append-closed : (m : Fields) (z : Serializer) → prompts (on_append s m event_id z).1 ≡ false
    unfolding on_append reject
    append-closed m z =
        let sub = audio-closed (or_null (lookup m (codes "audio"))) z in ground arith

    commit-closed : (z : Serializer) → prompts (on_commit s event_id z).1 ≡ false
    unfolding on_commit reject
    commit-closed z = ground arith

    update-closed : (j : Json) (z : Serializer) → prompts (update_session s j event_id z).1 ≡ false
    unfolding update_session reject apply_update
    update-closed (obj m) z = ground arith
    update-closed null z = refl
    update-closed (boolean b) z = refl
    update-closed (float n) z = refl
    update-closed (int n) z = refl
    update-closed (negative n) z = refl
    update-closed (str t) z = refl
    update-closed (arr i) z = refl

  module _ (s : Schedule) (drained : Text) (telemetry : Option Telemetry) where
    truncate-closed :
        (j ms : Json) (event_id : Option Text) (z : Serializer)
        → prompts (truncate_item s drained telemetry j ms event_id z).1 ≡ false
    unfolding truncate_item reject
    truncate-closed (str t) ms event_id z = ground arith
    truncate-closed null ms event_id z = refl
    truncate-closed (boolean b) ms event_id z = refl
    truncate-closed (float n) ms event_id z = refl
    truncate-closed (int n) ms event_id z = refl
    truncate-closed (negative n) ms event_id z = refl
    truncate-closed (obj f) ms event_id z = refl
    truncate-closed (arr i) ms event_id z = refl

    cancel-closed :
        (m : Fields) (event_id : Option Text) (z : Serializer)
        → prompts (on_response_cancel s drained telemetry m event_id z).1 ≡ false
    unfolding on_response_cancel reject
    cancel-closed m event_id z = ground arith

    dispatch-closed :
        (t : Text) (m : Fields) (event_id : Option Text) (z : Serializer)
        → z.world.conversation.assistant_has_responded ≡ false
        → prompts (dispatch s drained telemetry t m event_id z).1 ≡ false
    unfolding reject on_truncate on_item_create on_session_update
    dispatch-closed t m event_id z h =
        let a = append-closed s event_id m z in
        let b = update-closed s event_id (or_null (lookup m (codes "session"))) z in
        let c = create-closed s event_id m z h in
        let d = item-closed s event_id (or_null (lookup m (codes "item"))) z h in
        let e =
          truncate-closed (or_null (lookup m (codes "item_id")))
            (or_null (lookup m (codes "audio_end_ms"))) event_id z in
        dispatch-all s drained telemetry t m event_id z (λ r. prompts r.1 ≡ false) a
          (commit-closed s event_id z) refl b c (cancel-closed m event_id z) e d refl

    -- Before the first response of the assistant no message, whatever it holds and whatever the other
    -- tasks do, makes the pipeline ask the model: no run and no text of the user is forwarded.
    pub deserialize-closed :
        (inbound : Inbound) (z : Serializer)
        → z.world.conversation.assistant_has_responded ≡ false
        → prompts (deserialize s drained telemetry inbound z).1 ≡ false
    unfolding reject
    deserialize-closed inbound z h =
        deserialize-all s drained telemetry z (λ r. prompts r.1 ≡ false) (λ c e. refl)
          (λ t m e. dispatch-closed t m e z h) inbound
