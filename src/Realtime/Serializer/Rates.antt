-- ===== src/Realtime/Serializer/Rates.antt =====
-- The rates of a session (src/realtime/serializer.py): what `update_session_view` sets, every message keeps.
use nemotron_voice_agent.Base.{ℕ, ◌≡◌, Option, none, some, List, Text, codes, arith}
use nemotron_voice_agent.Json.{
  Json, null, boolean, float, int, negative, str, arr, obj, Fields, or_null, lookup,
}
use nemotron_voice_agent.Realtime.Events.{
  input_buffer_overflow, ServerEvent, ErrorCode, audio_cleared,
}
use nemotron_voice_agent.Realtime.World.{Schedule}
use nemotron_voice_agent.Realtime.Lifecycle.{Telemetry}
use nemotron_voice_agent.Realtime.Audio.{extract_client_pcm_rate, extract_client_output_pcm_rate}
use nemotron_voice_agent.Realtime.Serializer.State.{
  Inbound, Libraries, Reply, Serializer, emit_event, reject, update_session_view,
  emit_cancelled_response,
}
use nemotron_voice_agent.Realtime.Serializer.Responding.{
  on_response_create, on_response_cancel, on_truncate, truncate_item,
}
use nemotron_voice_agent.Realtime.Serializer.Buffer.{
  decode_audio, on_append, on_commit, append_audio, append_decoded, accept_audio, to_pipeline,
}
use nemotron_voice_agent.Realtime.Serializer.ItemCreate.{on_item_create, create_item, create_text}
use nemotron_voice_agent.Realtime.Serializer.Messages.{extract_item_text}
use nemotron_voice_agent.Realtime.Serializer.Updating.{
  on_session_update, update_session, apply_update,
}
use nemotron_voice_agent.Realtime.Serializer.Cases.{dispatch-all, deserialize-all}
use nemotron_voice_agent.Realtime.Serializer.{dispatch, deserialize}

module _ ⦃l : Libraries⦄ where
  -- The rates that the resamplers use are those of the session that the client was told.
  pub record RatesAgree (z : Serializer) : Type 0 where
    pub in_agrees : z.client_in_rate ≡ extract_client_pcm_rate z.session_view
    pub out_agrees : z.client_out_rate ≡ extract_client_output_pcm_rate z.session_view

  pub record ReplyAgrees (r : Reply) : Type 0 where
    pub kept : RatesAgree r.0

  module _ (s : Schedule) (event_id : Option Text) where
    emit-RatesAgree :
        (e : ServerEvent) (z : Serializer) → RatesAgree z → RatesAgree (emit_event s e z)
    unfolding emit_event
    emit-RatesAgree e z h = ground arith

    reject-RatesAgree :
        (c : ErrorCode) (z : Serializer) → RatesAgree z → ReplyAgrees (reject s c event_id z)
    unfolding reject
    reject-RatesAgree c z h = record { kept = emit-RatesAgree _ z h }

    decoded-RatesAgree :
        (raw : Option (List ℕ)) (z : Serializer)
        → RatesAgree z
        → ReplyAgrees (append_decoded s event_id raw z)
    unfolding append_decoded accept_audio reject to_pipeline emit_event
    decoded-RatesAgree none z h = reject-RatesAgree _ z h
    decoded-RatesAgree (some raw) z h = ground arith

    audio-RatesAgree :
        (j : Json) (z : Serializer) → RatesAgree z → ReplyAgrees (append_audio s j event_id z)
    unfolding append_audio
    audio-RatesAgree (str t) z h =
        let rejected = reject-RatesAgree input_buffer_overflow z h in
        let decoded = decoded-RatesAgree (decode_audio t) z h in ground arith
    audio-RatesAgree null z h = reject-RatesAgree _ z h
    audio-RatesAgree (boolean b) z h = reject-RatesAgree _ z h
    audio-RatesAgree (float n) z h = reject-RatesAgree _ z h
    audio-RatesAgree (int n) z h = reject-RatesAgree _ z h
    audio-RatesAgree (negative n) z h = reject-RatesAgree _ z h
    audio-RatesAgree (arr i) z h = reject-RatesAgree _ z h
    audio-RatesAgree (obj m) z h = reject-RatesAgree _ z h

    update-RatesAgree :
        (j : Json) (z : Serializer) → RatesAgree z → ReplyAgrees (update_session s j event_id z)
    unfolding update_session reject apply_update update_session_view emit_event
    update-RatesAgree (obj m) z h = ground arith
    update-RatesAgree null z h = reject-RatesAgree _ z h
    update-RatesAgree (boolean b) z h = reject-RatesAgree _ z h
    update-RatesAgree (float n) z h = reject-RatesAgree _ z h
    update-RatesAgree (int n) z h = reject-RatesAgree _ z h
    update-RatesAgree (negative n) z h = reject-RatesAgree _ z h
    update-RatesAgree (str t) z h = reject-RatesAgree _ z h
    update-RatesAgree (arr i) z h = reject-RatesAgree _ z h

    text-RatesAgree :
        (m : Fields) (t : Option Text) (z : Serializer)
        → RatesAgree z
        → ReplyAgrees (create_text s m t event_id z)
    unfolding create_text reject emit_event
    text-RatesAgree m none z h = reject-RatesAgree _ z h
    text-RatesAgree m (some t) z h = ground arith

    item-RatesAgree :
        (j : Json) (z : Serializer) → RatesAgree z → ReplyAgrees (create_item s j event_id z)
    unfolding create_item reject emit_event
    item-RatesAgree (obj m) z h =
        let text = text-RatesAgree m (extract_item_text m) z h in ground arith
    item-RatesAgree null z h = reject-RatesAgree _ z h
    item-RatesAgree (boolean b) z h = reject-RatesAgree _ z h
    item-RatesAgree (float n) z h = reject-RatesAgree _ z h
    item-RatesAgree (int n) z h = reject-RatesAgree _ z h
    item-RatesAgree (negative n) z h = reject-RatesAgree _ z h
    item-RatesAgree (str t) z h = reject-RatesAgree _ z h
    item-RatesAgree (arr i) z h = reject-RatesAgree _ z h

    create-RatesAgree :
        (m : Fields) (z : Serializer)
        → RatesAgree z
        → ReplyAgrees (on_response_create s m event_id z)
    unfolding on_response_create reject emit_event
    create-RatesAgree m z h = ground arith

    commit-RatesAgree : (z : Serializer) → RatesAgree z → ReplyAgrees (on_commit s event_id z)
    unfolding on_commit reject emit_event
    commit-RatesAgree z h = ground arith

    append-RatesAgree :
        (m : Fields) (z : Serializer) → RatesAgree z → ReplyAgrees (on_append s m event_id z)
    unfolding on_append reject emit_event
    append-RatesAgree m z h =
        let audio = audio-RatesAgree (or_null (lookup m (codes "audio"))) z h in ground arith

  module _ (s : Schedule) (drained : Text) (telemetry : Option Telemetry) where
    cancelled-RatesAgree :
        (z : Serializer) → RatesAgree z → RatesAgree (emit_cancelled_response s drained telemetry z)
    unfolding emit_cancelled_response
    cancelled-RatesAgree z h = ground arith

    cancel-RatesAgree :
        (m : Fields) (e : Option Text) (z : Serializer)
        → RatesAgree z
        → ReplyAgrees (on_response_cancel s drained telemetry m e z)
    unfolding on_response_cancel reject emit_event
    cancel-RatesAgree m e z h = let cancelled = cancelled-RatesAgree z h in ground arith

    truncate-RatesAgree :
        (j ms : Json) (e : Option Text) (z : Serializer)
        → RatesAgree z
        → ReplyAgrees (truncate_item s drained telemetry j ms e z)
    unfolding truncate_item reject emit_event
    truncate-RatesAgree (str t) ms e z h = let cancelled = cancelled-RatesAgree z h in ground arith
    truncate-RatesAgree null ms e z h = reject-RatesAgree s e _ z h
    truncate-RatesAgree (boolean b) ms e z h = reject-RatesAgree s e _ z h
    truncate-RatesAgree (float n) ms e z h = reject-RatesAgree s e _ z h
    truncate-RatesAgree (int n) ms e z h = reject-RatesAgree s e _ z h
    truncate-RatesAgree (negative n) ms e z h = reject-RatesAgree s e _ z h
    truncate-RatesAgree (obj f) ms e z h = reject-RatesAgree s e _ z h
    truncate-RatesAgree (arr i) ms e z h = reject-RatesAgree s e _ z h

    dispatch-RatesAgree :
        (t : Text) (m : Fields) (e : Option Text) (z : Serializer)
        → RatesAgree z
        → ReplyAgrees (dispatch s drained telemetry t m e z)
    unfolding on_truncate on_item_create on_session_update
    dispatch-RatesAgree t m e z h =
        dispatch-all s drained telemetry t m e z ReplyAgrees (append-RatesAgree s e m z h)
          (commit-RatesAgree s e z h)
          (record {
            kept =
                emit-RatesAgree s e audio_cleared (record z { bytes_since_commit = 0 })
                  (record { in_agrees = h.in_agrees; out_agrees = h.out_agrees });
          })
          (update-RatesAgree s e _ z h) (create-RatesAgree s e m z h) (cancel-RatesAgree m e z h)
          (truncate-RatesAgree _ _ e z h) (item-RatesAgree s e _ z h) (reject-RatesAgree s e _ z h)

    -- After any message the rates at which the resamplers convert are those of the session that the
    -- client was last told of, if they were before it.
    pub deserialize-RatesAgree :
        (inbound : Inbound) (z : Serializer)
        → RatesAgree z
        → RatesAgree (deserialize s drained telemetry inbound z).0
    deserialize-RatesAgree inbound z h =
        (deserialize-all s drained telemetry z ReplyAgrees (λ c e. reject-RatesAgree s e c z h)
          (λ t m e. dispatch-RatesAgree t m e z h) inbound).kept
