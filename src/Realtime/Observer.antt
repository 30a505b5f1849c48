-- ===== src/Realtime/Observer.antt =====
-- src/realtime/observer.py: pipeline frames become transcript and life cycle events. The observer's
-- own fields stand next to the shared world. `telemetry` is what the metrics accumulator returns.
-- The cancel hook runs between two frames, not during an await of the observer.
pub mod Dedupe
pub mod UserEvents
pub mod Handled
pub mod Pieces
pub mod BotTurns
mod Tests
use nemotron_voice_agent.Base.{
  ℕ, ◌+◌, Bool, true, false, not, ◌&&◌, ◌||◌, Option, none, some, List, [], ◌∷◌, ◌++◌, Text,
  text_in, discard, ends_with, is_empty, is_some, ◌==◌, if◌then◌else◌,
}
use nemotron_voice_agent.Json.{Json, null, obj, end}
use nemotron_voice_agent.Realtime.Conversation.{
  ConversationState, Status, completed, cancelled, failed, is_in_progress, text_or_empty,
  begin_user_item, begin_user_turn, stop_user_turn, set_user_transcript, announce_user_item,
  ready_user_transcript, clear_user_item, append_assistant_transcript, release_response_request,
}
use nemotron_voice_agent.Realtime.Events.{
  ServerEvent, speech_started, speech_stopped, audio_committed, user_audio_item_created,
  input_transcript_delta, input_transcript_completed, transcript_delta, tool_started,
  tool_completed, error, pipeline_error,
}
use nemotron_voice_agent.Realtime.World.{Schedule, World, emit_with_aliases}
use nemotron_voice_agent.Realtime.Lifecycle.{Telemetry, announce_response, finish_response}
use nemotron_voice_agent.Realtime.Observer.Dedupe.{Seen, nothing_seen, remember}

pub record Call : Type 0 where
  pub tool_call_id : Text
  pub function_name : Text
  pub arguments : Json

pub data Frame : Type 0 where
  user_started user_stopped bot_started tts_stopped : Frame
  interim transcription tts_text llm_text : Text → Frame
  llm_end : Bool → Frame
  calls_started : List Call → Frame
  call_in_progress : Call → Frame
  call_result : Call → Json → Frame

pub record Observer : Type 0 where
  pub world : World
  pub bot_transcript_from_tts : Bool
  pub emitted_function_calls : List Text
  pub llm_text_buffer : Text
  pub llm_text_generation : ℕ
  pub seen : Seen

-- A call that may draw a uuid has a number of the schedule set aside for it.
unfoldable pub user_call {ℓ} :
    {A : Type ℓ} → Schedule → (Text → ConversationState → ConversationState × A) → World → World × A
user_call s f w =
    let (c, a) = f (s.uuid w.uuids) w.conversation in
    (record w { conversation = c; uuids = w.uuids + 1 }, a)

unfoldable pub emit_transcript_delta : Schedule → Text → World → World
emit_transcript_delta s text w =
    emit_with_aliases s
      (transcript_delta w.conversation.response_id w.conversation.assistant_item_id text) w

unfoldable pub emit_user_item_if_needed : Schedule → Text → World → World
emit_user_item_if_needed s item_id w =
    let (c, new) = announce_user_item w.conversation in
    if new
    then emit_with_aliases s
        (user_audio_item_created item_id (text_or_empty c.pending_user_transcript))
        (record w { conversation = c })
    else w

-- `if ready is None: return`, and the rest
unfoldable emit_ready : Schedule → Option (Text × Text) → World → World
emit_ready s none w = w
emit_ready s (some (item_id, transcript)) w =
    let w₁ =
      emit_with_aliases s (input_transcript_completed item_id transcript)
        (emit_user_item_if_needed s item_id w) in
    record w₁ { conversation = clear_user_item w₁.conversation }

unfoldable pub emit_user_transcript_if_ready : Schedule → World → World
unfolding emit_ready
emit_user_transcript_if_ready s w =
    let (w₁, ready) = user_call s ready_user_transcript w in emit_ready s ready w₁

unfoldable clear_text : Observer → Observer
clear_text o = record o { llm_text_buffer = []; llm_text_generation = 0 }

-- The text drained is the result.
unfoldable on_response_cancelled : Observer → Observer × Text
unfolding clear_text
on_response_cancelled o = (
  record (clear_text o) { bot_transcript_from_tts = false; seen = nothing_seen },
  o.llm_text_buffer,
)

unfoldable pub ensure_response_announced : Schedule → Observer → Observer × Bool
ensure_response_announced s o =
    let (w, (_, created)) = announce_response s o.world in (record o { world = w }, created)

-- The buffered text, if it belongs to the response in flight.
unfoldable pub current_buffer : Observer → Text
current_buffer o =
    if o.llm_text_generation == o.world.conversation.response_generation
    then o.llm_text_buffer
    else []

-- In an active response `append_assistant_transcript` draws no uuid.
unfoldable pub flush_buffer : Schedule → Observer → World
unfolding current_buffer
flush_buffer s o =
    let buffer = current_buffer o in
    let c = o.world.conversation in
    if not o.bot_transcript_from_tts && (not (is_empty buffer) && is_empty c.assistant_transcript)
    then emit_transcript_delta s buffer
        (record (o.world) { conversation = append_assistant_transcript [] [] buffer c })
    else o.world

unfoldable pub finish : Schedule → Status → Option Telemetry → Observer → Observer
unfolding clear_text flush_buffer
finish s status telemetry o =
    let idle = record (clear_text o) { bot_transcript_from_tts = false } in
    let w = (finish_response s status telemetry (flush_buffer s o)).0 in
    if is_in_progress o.world.conversation.response_status
    then record idle { world = w; seen = nothing_seen }
    else idle

unfoldable pub emit_server_tool_started : Schedule → Call → Observer → Observer
emit_server_tool_started s call o =
    let id = call.tool_call_id in
    let noted = if is_empty id then o.emitted_function_calls else id ∷ o.emitted_function_calls in
    if not (is_empty id) && text_in id o.emitted_function_calls then o else record o {
      emitted_function_calls = noted;
      world = emit_with_aliases s (tool_started id call.function_name call.arguments) o.world;
    }

unfoldable pub emit_calls : Schedule → List Call → Observer → Observer
emit_calls s [] o = o
emit_calls s (call ∷ calls) o = emit_calls s calls (emit_server_tool_started s call o)

unfoldable pub on_interim : Schedule → Text → World → World
on_interim s text w =
    let (w₁, item_id) = user_call s begin_user_item w in
    if not (is_some w.conversation.user_turn_start_sample) || w.conversation.user_turn_stopped
    then w
    else emit_with_aliases s (input_transcript_delta item_id text) w₁

unfoldable pub on_user_stopped : Schedule → World → World
on_user_stopped s w =
    let (w₁, (item_id, audio_end_ms)) = user_call s stop_user_turn w in
    let w₂ = emit_with_aliases s (speech_stopped item_id audio_end_ms) w₁ in
    let w₃ = emit_with_aliases s (audio_committed item_id) w₂ in
    emit_user_transcript_if_ready s (emit_user_item_if_needed s item_id w₃)

unfoldable pub on_tts_text : Schedule → Text → Observer → Observer
unfolding clear_text
on_tts_text s text o =
    let (o₁, _) = ensure_response_announced s o in
    let c = o₁.world.conversation in
    let spoken = record (clear_text o₁) { bot_transcript_from_tts = true } in
    let w₁ = record (o₁.world) {
      conversation =
          append_assistant_transcript (s.uuid o₁.world.uuids) (s.uuid (o₁.world.uuids + 1)) text c;
      uuids = o₁.world.uuids + 2;
    } in
    if is_empty text
    then o
    else if ends_with c.assistant_transcript text
    then spoken
    else record spoken { world = emit_transcript_delta s text w₁ }

unfoldable pub on_llm_text : Schedule → Text → Observer → Observer
on_llm_text s text o =
    let (o₁, _) = ensure_response_announced s o in
    if is_empty text then o else record o₁ {
      llm_text_buffer = o₁.llm_text_buffer ++ text;
      llm_text_generation = o₁.world.conversation.response_generation;
    }

unfoldable pub handle_frame : Schedule → Option Telemetry → Frame → Observer → Observer
unfolding clear_text
handle_frame s telemetry user_started o =
    let (w, (item_id, audio_start_ms)) = user_call s begin_user_turn o.world in
    record o { world = emit_with_aliases s (speech_started item_id audio_start_ms) w }
handle_frame s telemetry user_stopped o = record o { world = on_user_stopped s o.world }
handle_frame s telemetry (interim text) o = record o { world = on_interim s text o.world }
handle_frame s telemetry (transcription text) o =
    let (w, _) = user_call s (λ hex. set_user_transcript hex text) o.world in
    record o { world = emit_user_transcript_if_ready s w }
handle_frame s telemetry bot_started o =
    let (o₁, created) = ensure_response_announced s o in
    if created then record (clear_text o₁) { bot_transcript_from_tts = false } else o₁
handle_frame s telemetry (tts_text text) o = on_tts_text s text o
handle_frame s telemetry (llm_text text) o = on_llm_text s text o
handle_frame s telemetry (llm_end skip_tts) o =
    if skip_tts then finish s completed telemetry o else o
handle_frame s telemetry (calls_started calls) o = emit_calls s calls o
handle_frame s telemetry (call_in_progress call) o = emit_server_tool_started s call o
handle_frame s telemetry (call_result call result) o = record o {
  world =
      emit_with_aliases s
        (tool_completed call.tool_call_id call.function_name call.arguments result) o.world;
  emitted_function_calls =
      if is_empty call.tool_call_id
      then o.emitted_function_calls
      else discard call.tool_call_id o.emitted_function_calls;
}
handle_frame s telemetry tts_stopped o = finish s completed telemetry o

-- The frames that `on_push_frame` tells apart. Frames that it does not observe are left out.
pub data Pushed : Type 0 where
  pipeline_error_frame : Bool → Pushed
  interruption : Pushed
  observed : Frame → Pushed

-- `FramePushed`: the frame with its id, its direction and its source.
pub record FramePushed : Type 0 where
  pub id : ℕ
  pub frame : Pushed
  pub downstream : Bool
  pub from_output : Bool

-- The first edge of a TTSStoppedFrame, and frames on their way upstream, are passed over before
-- their id is noted.
abbrev pub passes : FramePushed → Pushed → Bool
passes p (observed tts_stopped) = p.from_output && p.downstream
passes p (observed _) = p.downstream
passes p _ = true

unfoldable handle_pushed : Schedule → Option Telemetry → Pushed → Observer → Observer
handle_pushed s telemetry (pipeline_error_frame fatal) o =
    let w = emit_with_aliases s (error pipeline_error none) o.world in
    let o₁ = record o { world = w } in
    let o₂ = if w.conversation.response_requested then (ensure_response_announced s o₁).0 else o₁ in
    if fatal
    then finish s failed telemetry o₂
    else record o { world = record w { conversation = release_response_request w.conversation } }
handle_pushed s telemetry interruption o = finish s cancelled telemetry o
handle_pushed s telemetry (observed frame) o = handle_frame s telemetry frame o

unfoldable on_push_frame : Schedule → ℕ → Option Telemetry → FramePushed → Observer → Observer
unfolding handle_pushed
on_push_frame s max_frames telemetry p o =
    let (seen, new) = remember max_frames p.id o.seen in
    if passes p p.frame
    then (if new then handle_pushed s telemetry p.frame (record o { seen = seen }) else o)
    else o
