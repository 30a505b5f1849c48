-- ===== src/Realtime/Serializer/State.antt =====
-- The serializer's state and the libraries that it calls (src/realtime/serializer.py): base64, the stream
-- resamplers of pipecat and the voice catalog are parameters.
use nemotron_voice_agent.Base.{
  ℕ, Bool, not, ◌&&◌, Option, none, List, [], Text, is_empty, ◌==◌, if◌then◌else◌,
}
use nemotron_voice_agent.Json.{Json, Fields}
use nemotron_voice_agent.Realtime.Conversation.{
  ConversationState, cancelled, append_assistant_transcript,
}
use nemotron_voice_agent.Realtime.Events.{ServerEvent, ErrorCode, error}
use nemotron_voice_agent.Realtime.World.{Schedule, World, emit_with_aliases}
use nemotron_voice_agent.Realtime.Lifecycle.{Telemetry, finish_response}
use nemotron_voice_agent.Realtime.Audio.{extract_client_pcm_rate, extract_client_output_pcm_rate}

abbrev pub Bytes : Type 0
Bytes = List ℕ

-- What the module calls and does not implement.
pub record Libraries : Type 1 where
  pub Stream : Type 0
  pub fresh : Stream
  pub resample : Stream → Bytes → ℕ → ℕ → Stream × Bytes
  pub b64decode : Text → Option Bytes
  pub b64encode : Bytes → Text
  pub resolve_voice : Text → Text
  pub nvidia_keys : List Text

pub data Inbound : Type 0 where
  undecodable not_json : Inbound
  message : Json → Inbound

-- The frames for the pipeline.
pub data PipelineFrame : Type 0 where
  input_audio : Bytes → ℕ → PipelineFrame
  run_llm interrupt : PipelineFrame
  append_message update_voice : Text → PipelineFrame

module _ ⦃l : Libraries⦄ where
  open l use {Stream, fresh}

  pub record Serializer : Type 0 where
    pub world : World
    pub session_view : Fields
    pub tts_voice : Text
    pub has_emit : Bool
    pub pipeline_rate : ℕ
    pub client_in_rate : ℕ
    pub client_out_rate : ℕ
    pub uplink : Stream
    pub downlink : Stream
    pub bytes_since_commit : ℕ

  abbrev pub Reply : Type 0
  Reply = Serializer × Option PipelineFrame

  unfoldable pub emit_event : Schedule → ServerEvent → Serializer → Serializer
  emit_event s e z = if z.has_emit then record z { world = emit_with_aliases s e z.world } else z

  -- `await self._emit_event(error_event(…)); return None`
  unfoldable pub reject : Schedule → ErrorCode → Option Text → Serializer → Reply
  unfolding emit_event
  reject s code event_id z = (emit_event s (error code event_id) z, none)

  unfoldable pub update_session_view : Fields → Serializer → Serializer
  update_session_view view z =
      let in_rate = extract_client_pcm_rate view in
      let out_rate = extract_client_output_pcm_rate view in
      let z₁ = record z {
        session_view = view;
        client_in_rate = in_rate;
        client_out_rate = out_rate;
      } in
      if z.client_in_rate == in_rate && z.client_out_rate == out_rate
      then z₁
      else record z₁ { uplink = fresh; downlink = fresh }

  -- `drained` is what the cancel hook returns.
  unfoldable pub drain_into : Text → ConversationState → ConversationState
  drain_into drained c =
      if not (is_empty drained) && is_empty c.assistant_transcript
      then append_assistant_transcript [] [] drained c
      else c

  unfoldable pub emit_cancelled_response :
      Schedule → Text → Option Telemetry → Serializer → Serializer
  unfolding drain_into
  emit_cancelled_response s drained telemetry z =
      let w = record (z.world) { conversation = drain_into drained z.world.conversation } in
      if z.has_emit then record z { world = (finish_response s cancelled telemetry w).0 } else z
