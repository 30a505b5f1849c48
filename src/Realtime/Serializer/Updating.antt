-- ===== src/Realtime/Serializer/Updating.antt =====
-- session.update after the handoff (src/realtime/serializer.py).
use nemotron_voice_agent.Base.{not, ◌&&◌, Option, none, some, Text, codes, is_empty, if◌then◌else◌}
use nemotron_voice_agent.Json.{Json, obj, Fields, lookup, assign, or_null}
use nemotron_voice_agent.Realtime.Events.{
  session_updated, invalid_session, unsupported_live_session_update,
}
use nemotron_voice_agent.Realtime.World.{Schedule}
use nemotron_voice_agent.Realtime.Audio.{validate_session_audio_config}
use nemotron_voice_agent.Realtime.Session.{
  merge_session_patch, validate_input_transcription, validate_server_vad, live_session_patch,
  unsupported_live_session_fields, nvidia_public_view,
}
use nemotron_voice_agent.Realtime.Serializer.State.{
  Libraries, Reply, Serializer, emit_event, reject, update_session_view, update_voice,
}
use nemotron_voice_agent.Realtime.Serializer.Voices.{
  fold_formats, patch_voice, set_patch_voice, set_view_voice,
}

module _ ⦃l : Libraries⦄ where
  open l use {resolve_voice, nvidia_keys}

  -- `resolve_realtime_tts_voice(…) or voice`
  unfoldable pub resolved : Text → Text
  resolved voice = let found = resolve_voice voice in if is_empty found then voice else found

  unfoldable pub public_nvidia : Fields → Fields
  public_nvidia view = elim (lookup view (codes "nvidia")) [
    | some (obj f) ↦ assign view (codes "nvidia") (obj (nvidia_public_view nvidia_keys f))
    | _ ↦ view
  ]

  -- The session view after an accepted patch.
  unfoldable pub updated_view : Fields → Fields → Fields
  unfolding fold_formats patch_voice set_patch_voice set_view_voice resolved public_nvidia
  updated_view session view =
      let patch = fold_formats (live_session_patch session) in
      let voice = patch_voice patch in
      public_nvidia (
        if is_empty voice
        then merge_session_patch patch view
        else set_view_voice (resolved voice)
            (merge_session_patch (set_patch_voice (resolved voice) patch) view))

  unfoldable pub apply_update : Schedule → Fields → Serializer → Reply
  unfolding updated_view update_session_view emit_event resolved
  apply_update s session z =
      let voice = patch_voice (fold_formats (live_session_patch session)) in
      let view = updated_view session z.session_view in
      let z₁ = record z { tts_voice = if is_empty voice then z.tts_voice else resolved voice } in
      (
        emit_event s (session_updated (obj view)) (update_session_view view z₁),
        if is_empty voice then none else some (update_voice (resolved voice)),
      )

  unfoldable pub update_session : Schedule → Json → Option Text → Serializer → Reply
  unfolding reject apply_update
  update_session s (obj session) event_id z =
      if not (
        validate_session_audio_config session
        && (validate_input_transcription session && validate_server_vad session))
      then reject s invalid_session event_id z
      else if is_empty (unsupported_live_session_fields nvidia_keys session z.session_view)
      then apply_update s session z
      else reject s unsupported_live_session_update event_id z
  update_session s _ event_id z = reject s invalid_session event_id z

  unfoldable pub on_session_update : Schedule → Fields → Option Text → Serializer → Reply
  unfolding update_session
  on_session_update s m event_id z =
      update_session s (or_null (lookup m (codes "session"))) event_id z
