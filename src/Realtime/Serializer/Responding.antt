-- ===== src/Realtime/Serializer/Responding.antt =====
-- response.create, response.cancel and conversation.item.truncate (src/realtime/serializer.py).
use nemotron_voice_agent.Base.{
  Bool, true, false, not, ◌&&◌, ◌||◌, Option, none, some, Text, codes, text_eq, is_empty, is_some,
  if◌then◌else◌,
}
use nemotron_voice_agent.Base.Dict
use nemotron_voice_agent.Json.{Json, null, int, str, obj, Fields, lookup, or_null, is_end}
use nemotron_voice_agent.Realtime.Conversation.{
  ConversationState, is_set, is_in_progress, text_or_empty, request_response,
}
use nemotron_voice_agent.Realtime.Events.{
  response_create_rejected_pre_intro, unsupported_response_override,
  conversation_already_has_active_response, invalid_value, invalid_truncate,
}
use nemotron_voice_agent.Realtime.World.{Schedule}
use nemotron_voice_agent.Realtime.Lifecycle.{Telemetry, announce_response}
use nemotron_voice_agent.Realtime.Serializer.State.{
  Libraries, Reply, Serializer, emit_cancelled_response, interrupt, reject, run_llm,
}

module _ ⦃l : Libraries⦄ where
  -- `response_override is not None and (not isinstance(…, dict) or response_override)`
  unfoldable pub overrides : Json → Bool
  overrides null = false
  overrides (obj f) = not (is_end f)
  overrides _ = true

  unfoldable pub on_response_create : Schedule → Fields → Option Text → Serializer → Reply
  unfolding overrides reject
  on_response_create s m event_id z =
      let (c, reserved) = request_response z.world.conversation in
      let w = record (z.world) { conversation = c } in
      if not z.world.conversation.assistant_has_responded
      then reject s response_create_rejected_pre_intro event_id z
      else if overrides (or_null (lookup m (codes "response")))
      then reject s unsupported_response_override event_id z
      else if not z.has_emit
      then (z, none)
      else if reserved
      then (record z { world = (announce_response s w).0 }, some run_llm)
      else reject s conversation_already_has_active_response event_id z

  unfoldable pub names_other : Json → Text → Bool
  names_other (str t) active = not (is_empty t) && not (text_eq t active)
  names_other _ active = false

  unfoldable pub on_response_cancel :
      Schedule → Text → Option Telemetry → Fields → Option Text → Serializer → Reply
  unfolding names_other reject
  on_response_cancel s drained telemetry m event_id z =
      let c = z.world.conversation in
      if not (is_in_progress c.response_status) || not (is_set c.response_id)
      then (z, none)
      else if names_other (or_null (lookup m (codes "response_id"))) (text_or_empty c.response_id)
      then reject s invalid_value event_id z
      else (emit_cancelled_response s drained telemetry z, some interrupt)

  -- `item_id == c.assistant_item_id or item_id in c.item_transcripts`
  unfoldable pub is_assistant_item : Option Text → Text → Bool
  is_assistant_item none item = false
  is_assistant_item (some t) item = text_eq t item

  unfoldable pub is_known_item : ConversationState → Text → Bool
  unfolding is_assistant_item
  is_known_item c item =
      is_assistant_item c.assistant_item_id item || is_some (Dict.get c.item_transcripts item)

  abbrev pub is_non_negative : Json → Bool
  is_non_negative (int n) = true
  is_non_negative _ = false

  unfoldable pub truncate_item :
      Schedule → Text → Option Telemetry → Json → Json → Option Text → Serializer → Reply
  unfolding is_known_item reject
  truncate_item s drained telemetry (str item) audio_end_ms event_id z =
      if is_empty item || not (is_non_negative audio_end_ms)
      then reject s invalid_truncate event_id z
      else if not (is_known_item z.world.conversation item)
      then reject s invalid_truncate event_id z
      else if is_in_progress z.world.conversation.response_status
      then (emit_cancelled_response s drained telemetry z, some interrupt)
      else (z, none)
  truncate_item s drained telemetry _ audio_end_ms event_id z = reject s invalid_truncate event_id z

  unfoldable pub on_truncate :
      Schedule → Text → Option Telemetry → Fields → Option Text → Serializer → Reply
  unfolding truncate_item
  on_truncate s drained telemetry m event_id z =
      truncate_item s drained telemetry (or_null (lookup m (codes "item_id")))
        (or_null (lookup m (codes "audio_end_ms"))) event_id z
