-- ===== src/Realtime/Events.antt =====
-- src/realtime/events.py: the events that the gateway sends. A constructor stands for an event type;
-- its arguments are the payload, less what is the same in every event of the type (the indices 0, the
-- object names) and less `event_id`, a fresh uuid that nothing reads.
use nemotron_voice_agent.Base.{ℕ, Bool, true, false, Option, List, [], ◌∷◌, Text}
use nemotron_voice_agent.Json.{Json}
use nemotron_voice_agent.Realtime.Conversation.{Status}

pub data ItemStatus : Type 0 where
  item_completed item_incomplete : ItemStatus

-- The codes of `error_event`, which the serializer and the observer use.
pub data ErrorCode : Type 0 where
  invalid_frame invalid_json invalid_event missing_type unsupported_event : ErrorCode
  response_create_rejected_pre_intro unsupported_response_override : ErrorCode
  conversation_already_has_active_response invalid_value invalid_session : ErrorCode
  unsupported_live_session_update invalid_truncate input_audio_buffer_commit_empty : ErrorCode
  unsupported_audio_format invalid_audio input_buffer_overflow invalid_item : ErrorCode
  unsupported_item item_rejected_pre_intro pipeline_error : ErrorCode

pub data ServerEvent : Type 0 where
  response_created : Text → ServerEvent
  assistant_item_created : Option Text → ServerEvent
  output_item_added : Text → Option Text → ServerEvent
  content_part_added : Text → Option Text → ServerEvent
  output_audio_delta : Text → Option Text → Text → ServerEvent
  output_audio_done : Text → Option Text → ServerEvent
  transcript_delta : Option Text → Option Text → Text → ServerEvent
  transcript_done : Text → Option Text → Text → ServerEvent
  content_part_done : Text → Option Text → Text → ServerEvent
  output_item_done : Text → Option Text → ItemStatus → Text → ServerEvent
  response_done :
      Text → Status → Option Text → ItemStatus → Text → Option Json → Option Json → ServerEvent
  speech_started speech_stopped : Text → ℕ → ServerEvent
  audio_committed : Text → ServerEvent
  user_audio_item_created user_text_item_created : Text → Text → ServerEvent
  input_transcript_delta input_transcript_completed : Text → Text → ServerEvent
  audio_cleared : ServerEvent
  session_updated : Json → ServerEvent
  tool_started : Text → Text → Json → ServerEvent
  tool_completed : Text → Text → Json → Json → ServerEvent
  error : ErrorCode → Option Text → ServerEvent

-- One message on the wire, under the GA name of its type or under the older one.
pub data Payload : Type 0 where
  ga beta : ServerEvent → Payload

-- The keys of `BETA_EVENT_ALIASES` that the gateway sends.
abbrev pub has_beta_alias : ServerEvent → Bool
has_beta_alias (output_audio_delta _ _ _) = true
has_beta_alias (output_audio_done _ _) = true
has_beta_alias (transcript_delta _ _ _) = true
has_beta_alias (transcript_done _ _ _) = true
has_beta_alias _ = false

unfoldable pub with_beta_aliases : ServerEvent → List Payload
with_beta_aliases e = elim (has_beta_alias e) [ true ↦ ga e ∷ beta e ∷ [] | false ↦ ga e ∷ [] ]
