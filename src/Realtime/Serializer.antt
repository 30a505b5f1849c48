-- ===== src/Realtime/Serializer.antt =====
-- src/realtime/serializer.py: messages of the client become frames for the pipeline and events back.
-- A message comes parsed, as `json.loads` gives it. The cancel hook drains the observer's text buffer,
-- which is passed in, and so is the telemetry that the metrics accumulator returns.
pub mod State
pub mod Messages
pub mod Voices
pub mod Responding
pub mod Buffer
pub mod ItemCreate
pub mod Updating
pub mod Cases
pub mod Gates
pub mod Rates
pub mod Slot
pub mod Accounting
mod Tests
use nemotron_voice_agent.Base.{
  ℕ, ◌+◌, ◌*◌, ◌/◌, ◌%◌, Bool, true, false, not, ◌&&◌, ◌||◌, Option, none, some, List, [], ◌∷◌,
  ◌++◌, Text, codes, text_in, text_eq, is_empty, is_some, strip, length, ltb, ◌==◌, if◌then◌else◌,
}
use nemotron_voice_agent.Base.Dict
use nemotron_voice_agent.Json.{
  Json, null, boolean, float, int, negative, str, arr, obj, Items, nil, cons, Fields, end, field,
  lookup, assign, or_null, is_end, keep,
}
use nemotron_voice_agent.Realtime.Conversation.{
  ConversationState, Status, cancelled, new_item_id, is_set, is_in_progress, text_or_empty,
  add_input_audio, request_response, append_assistant_transcript,
}
use nemotron_voice_agent.Realtime.Events.{
  ServerEvent, ErrorCode, error, audio_cleared, user_text_item_created, output_audio_delta,
  session_updated, invalid_frame, invalid_json, invalid_event, missing_type, unsupported_event,
  response_create_rejected_pre_intro, unsupported_response_override,
  conversation_already_has_active_response, invalid_value, invalid_session,
  unsupported_live_session_update, invalid_truncate, input_audio_buffer_commit_empty,
  unsupported_audio_format, invalid_audio, input_buffer_overflow, invalid_item, unsupported_item,
  item_rejected_pre_intro,
}
use nemotron_voice_agent.Realtime.World.{Schedule, World, emit_with_aliases}
use nemotron_voice_agent.Realtime.Lifecycle.{Telemetry, announce_response, finish_response}
use nemotron_voice_agent.Realtime.Audio.{
  pipeline_pcm_rate, default_client_pcm_rate, max_pending_input_bytes, normalize_pcm_rate,
  validate_session_audio_config, extract_client_pcm_rate, extract_client_output_pcm_rate,
  extract_client_input_format_type,
}
use nemotron_voice_agent.Realtime.Session.{
  merge_session_patch, validate_input_transcription, validate_server_vad, live_session_patch,
  unsupported_live_session_fields, nvidia_public_view,
}
use nemotron_voice_agent.Realtime.Serializer.State.{
  Bytes, Inbound, Libraries, PipelineFrame, Reply, Serializer, append_message, drain_into,
  emit_cancelled_response, emit_event, input_audio, interrupt, message, not_json, reject, run_llm,
  undecodable, update_session_view, update_voice,
}
use nemotron_voice_agent.Realtime.Serializer.Messages.{
  as_text, equals_text, extract_item_text, is_text_part, item_text, join, join_parts, or_default,
  part_text, truthy,
}
use nemotron_voice_agent.Realtime.Serializer.Voices.{
  dict_of, field_of, fold_formats, is_text, move_format, patch_voice, set_output_voice,
  set_patch_voice, set_view_voice, stripped_voice,
}
use nemotron_voice_agent.Realtime.Serializer.Responding.{
  is_assistant_item, is_known_item, is_non_negative, names_other, on_response_cancel,
  on_response_create, on_truncate, overrides, truncate_item,
}
use nemotron_voice_agent.Realtime.Serializer.Buffer.{
  accept_audio, append_audio, append_decoded, decode_audio, from_pipeline, max_append_b64_chars,
  on_append, on_commit, serialize_output_audio, to_pipeline,
}
use nemotron_voice_agent.Realtime.Serializer.ItemCreate.{
  create_item, create_text, item_id_of, on_item_create,
}
use nemotron_voice_agent.Realtime.Serializer.Updating.{
  apply_update, on_session_update, public_nvidia, resolved, update_session, updated_view,
}

module _ ⦃l : Libraries⦄ where
  -- The chain of `if event_type == …`.
  unfoldable pub dispatch :
      Schedule → Text → Option Telemetry → Text → Fields → Option Text → Serializer → Reply
  unfolding reject emit_event
  dispatch s drained telemetry t m event_id z =
      if text_eq t (codes "input_audio_buffer.append")
      then on_append s m event_id z
      else if text_eq t (codes "input_audio_buffer.commit")
      then on_commit s event_id z
      else if text_eq t (codes "input_audio_buffer.clear")
      then (emit_event s audio_cleared (record z { bytes_since_commit = 0 }), none)
      else if text_eq t (codes "session.update")
      then on_session_update s m event_id z
      else if text_eq t (codes "response.create")
      then on_response_create s m event_id z
      else if text_eq t (codes "response.cancel")
      then on_response_cancel s drained telemetry m event_id z
      else if text_eq t (codes "conversation.item.truncate")
      then on_truncate s drained telemetry m event_id z
      else if text_eq t (codes "conversation.item.create")
      then on_item_create s m event_id z
      else reject s unsupported_event event_id z

  deserialize_fields : Schedule → Text → Option Telemetry → Json → Fields → Serializer → Reply
  unfolding dispatch
  deserialize_fields s drained telemetry (str t) m z =
      let event_id = as_text (or_null (lookup m (codes "event_id"))) in
      if is_empty t
      then reject s missing_type event_id z
      else dispatch s drained telemetry t m event_id z
  deserialize_fields s drained telemetry _ m z =
      reject s missing_type (as_text (or_null (lookup m (codes "event_id")))) z

  unfoldable pub deserialize : Schedule → Text → Option Telemetry → Inbound → Serializer → Reply
  unfolding deserialize_fields reject
  deserialize s drained telemetry undecodable z = reject s invalid_frame none z
  deserialize s drained telemetry not_json z = reject s invalid_json none z
  deserialize s drained telemetry (message (obj m)) z =
      deserialize_fields s drained telemetry (or_null (lookup m (codes "type"))) m z
  deserialize s drained telemetry (message _) z = reject s invalid_event none z
