-- ===== src/Realtime/Serializer/Buffer.antt =====
-- The input audio buffer and the output audio (src/realtime/serializer.py).
use nemotron_voice_agent.Base.{
  ℕ, ◌+◌, ◌*◌, ◌/◌, ◌%◌, not, ◌||◌, Option, none, some, [], Text, codes, text_eq, is_empty, length,
  ltb, ◌==◌, if◌then◌else◌,
}
use nemotron_voice_agent.Json.{Json, str, Fields, lookup, or_null}
use nemotron_voice_agent.Realtime.Conversation.{is_in_progress, add_input_audio}
use nemotron_voice_agent.Realtime.Events.{
  output_audio_delta, input_audio_buffer_commit_empty, unsupported_audio_format, invalid_audio,
  input_buffer_overflow,
}
use nemotron_voice_agent.Realtime.World.{Schedule}
use nemotron_voice_agent.Realtime.Lifecycle.{announce_response}
use nemotron_voice_agent.Realtime.Audio.{
  pipeline_pcm_rate, default_client_pcm_rate, max_pending_input_bytes, normalize_pcm_rate,
  extract_client_input_format_type,
}
use nemotron_voice_agent.Realtime.Serializer.State.{
  Bytes, Libraries, Reply, Serializer, emit_event, input_audio, reject,
}

abbrev pub max_append_b64_chars : ℕ
max_append_b64_chars = max_pending_input_bytes * 4 / 3 + 64

module _ ⦃l : Libraries⦄ where
  open l use {resample, b64decode, b64encode}

  unfoldable pub on_commit : Schedule → Option Text → Serializer → Reply
  unfolding reject
  on_commit s event_id z =
      if z.bytes_since_commit == 0
      then reject s input_audio_buffer_commit_empty event_id z
      else (record z { bytes_since_commit = 0 }, none)

  -- `decode_base64_audio`, `none` where it raises
  unfoldable pub decode_audio : Text → Option Bytes
  decode_audio t = elim (b64decode t) [
    | none ↦ none
    | some pcm ↦ if is_empty t || not (length pcm % 2 == 0) then none else some pcm
  ]

  -- `AudioResampler.to_pipeline` and the normalised rates
  unfoldable pub to_pipeline : Bytes → Serializer → Serializer × Bytes
  to_pipeline pcm z =
      let from =
        normalize_pcm_rate
          (if z.client_in_rate == 0 then default_client_pcm_rate else z.client_in_rate)
          default_client_pcm_rate in
      let to = normalize_pcm_rate z.pipeline_rate pipeline_pcm_rate in
      let (stream, out) = resample z.uplink pcm from to in
      if is_empty pcm
      then (z, [])
      else if from == to
      then (z, pcm)
      else (record z { uplink = stream }, out)

  unfoldable pub accept_audio : Schedule → Option Text → Serializer × Bytes → Reply
  unfolding reject
  accept_audio s event_id (z, pcm) =
      let n = length pcm in
      if n == 0
      then (z, none)
      else if ltb max_pending_input_bytes n
      then reject s input_buffer_overflow event_id z
      else (
        record z {
          bytes_since_commit = z.bytes_since_commit + n;
          world = record (z.world) {
            conversation = add_input_audio n z.pipeline_rate z.world.conversation;
          };
        },
        some (input_audio pcm z.pipeline_rate),
      )

  unfoldable pub append_decoded : Schedule → Option Text → Option Bytes → Serializer → Reply
  unfolding reject accept_audio to_pipeline
  append_decoded s event_id none z = reject s invalid_audio event_id z
  append_decoded s event_id (some raw) z = accept_audio s event_id (to_pipeline raw z)

  unfoldable pub append_audio : Schedule → Json → Option Text → Serializer → Reply
  unfolding reject append_decoded decode_audio
  append_audio s (str t) event_id z =
      if ltb max_append_b64_chars (length t)
      then reject s input_buffer_overflow event_id z
      else append_decoded s event_id (decode_audio t) z
  append_audio s _ event_id z = reject s invalid_audio event_id z

  unfoldable pub on_append : Schedule → Fields → Option Text → Serializer → Reply
  unfolding reject append_audio
  on_append s m event_id z =
      if text_eq (extract_client_input_format_type z.session_view) (codes "audio/pcm")
      then append_audio s (or_null (lookup m (codes "audio"))) event_id z
      else reject s unsupported_audio_format event_id z

  -- `_serialize_output_audio`
  unfoldable pub from_pipeline : Bytes → Serializer → Serializer × Bytes
  from_pipeline pcm z =
      let to =
        normalize_pcm_rate
          (if z.client_out_rate == 0 then default_client_pcm_rate else z.client_out_rate)
          default_client_pcm_rate in
      let from = normalize_pcm_rate z.pipeline_rate pipeline_pcm_rate in
      let (stream, out) = resample z.downlink pcm from to in
      if from == to then (z, pcm) else (record z { downlink = stream }, out)

  unfoldable pub serialize_output_audio : Schedule → Bytes → Serializer → Serializer
  unfolding emit_event from_pipeline
  serialize_output_audio s pcm z =
      let (z₁, client_pcm) = from_pipeline pcm z in
      let (w, (response_id, _)) = announce_response s z₁.world in
      let event =
        output_audio_delta response_id w.conversation.assistant_item_id (b64encode client_pcm) in
      if is_empty pcm
      then z
      else if not z.has_emit || not (is_in_progress z.world.conversation.response_status)
      then z₁
      else emit_event s event (record z₁ { world = w })
