-- ===== src/Realtime/Lifecycle.antt =====
-- src/realtime/lifecycle.py: the events that open a response and those that end it.
pub mod Finish
pub mod Announce
mod Tests
use nemotron_voice_agent.Base.{
  ℕ, ◌+◌, Bool, true, false, Option, none, some, List, [], ◌∷◌, Text, if◌then◌else◌,
}
use nemotron_voice_agent.Json.{Json}
use nemotron_voice_agent.Realtime.Conversation.{
  ConversationState, ResponseSnapshot, Status, completed, begin_response, complete_response,
  reset_response_slot,
}
use nemotron_voice_agent.Realtime.Events.{
  ServerEvent, ItemStatus, item_completed, item_incomplete, response_created,
  assistant_item_created, output_item_added, content_part_added, output_audio_done, transcript_done,
  content_part_done, output_item_done, response_done,
}
use nemotron_voice_agent.Realtime.World.{Schedule, World, emit_with_aliases}

-- `RealtimeResponseTelemetry` of src/realtime/metrics.py
pub record Telemetry : Type 0 where
  pub usage : Option Json
  pub metadata : Option Json

-- `conversation.begin_response()`, which draws its uuids only if it creates a response.
unfoldable pub begin_in : Schedule → World → World × (Text × Bool)
begin_in s w =
    let (c, (response_id, created)) =
      begin_response (s.uuid w.uuids) (s.uuid (w.uuids + 1)) w.conversation in
    (
      record w { conversation = c; uuids = if created then w.uuids + 2 else w.uuids },
      (response_id, created),
    )

-- `if not conversation.output_item_announced: …`
unfoldable pub announce_item : Schedule → Text → World → World
announce_item s response_id w =
    let c = w.conversation in
    let item = c.assistant_item_id in
    let marked = record w { conversation = record c { output_item_announced = true } } in
    if c.output_item_announced
    then w
    else emit_with_aliases s (output_item_added response_id item)
        (emit_with_aliases s (assistant_item_created item) marked)

-- `if not conversation.content_part_announced: …`
unfoldable pub announce_part : Schedule → Text → World → World
announce_part s response_id w =
    let c = w.conversation in
    let marked = record w { conversation = record c { content_part_announced = true } } in
    if c.content_part_announced
    then w
    else emit_with_aliases s (content_part_added response_id c.assistant_item_id) marked

unfoldable pub announce_response : Schedule → World → World × (Text × Bool)
announce_response s w =
    let (w₁, (response_id, created)) = begin_in s w in
    let w₂ = if created then emit_with_aliases s (response_created response_id) w₁ else w₁ in
    (announce_part s response_id (announce_item s response_id w₂), (response_id, created))

abbrev pub item_status : Status → ItemStatus
item_status completed = item_completed
item_status _ = item_incomplete

abbrev usage_of : Option Telemetry → Option Json
usage_of none = none
usage_of (some t) = t.usage

abbrev metadata_of : Option Telemetry → Option Json
metadata_of none = none
metadata_of (some t) = t.metadata

unfoldable pub emit_finish_from_snapshot :
    Schedule → ResponseSnapshot → Option Telemetry → World → World
emit_finish_from_snapshot s snap telemetry w =
    let w₁ =
      if snap.audio_done_emitted
      then w
      else emit_with_aliases s (output_audio_done snap.response_id snap.item_id) w in
    let w₂ =
      if snap.transcript_done_emitted
      then w₁
      else emit_with_aliases s (transcript_done snap.response_id snap.item_id snap.transcript) w₁ in
    let w₃ =
      emit_with_aliases s (content_part_done snap.response_id snap.item_id snap.transcript) w₂ in
    let w₄ =
      emit_with_aliases s
        (output_item_done snap.response_id snap.item_id (item_status snap.status) snap.transcript)
        w₃ in
    emit_with_aliases s
      (response_done snap.response_id snap.status snap.item_id (item_status snap.status)
        snap.transcript (usage_of telemetry) (metadata_of telemetry))
      w₄

-- `if snap is None: return False`, and the rest of `finish_response`
unfoldable finish_snapshot :
    Schedule → Option ResponseSnapshot → Option Telemetry → World → World × Bool
finish_snapshot s none telemetry w = (w, false)
finish_snapshot s (some snap) telemetry w =
    let w₁ = emit_finish_from_snapshot s snap telemetry w in
    (record w₁ { conversation = reset_response_slot (some snap.generation) w₁.conversation }, true)

unfoldable pub finish_response : Schedule → Status → Option Telemetry → World → World × Bool
unfolding finish_snapshot
finish_response s status telemetry w =
    let (c, snap) = complete_response status w.conversation in
    finish_snapshot s snap telemetry (record w { conversation = c })
