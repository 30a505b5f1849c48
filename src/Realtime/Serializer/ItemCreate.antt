-- ===== src/Realtime/Serializer/ItemCreate.antt =====
-- conversation.item.create (src/realtime/serializer.py).
use nemotron_voice_agent.Base.{◌+◌, ◌&&◌, Option, none, some, Text, codes, if◌then◌else◌}
use nemotron_voice_agent.Json.{Json, str, obj, Fields, lookup, or_null}
use nemotron_voice_agent.Realtime.Conversation.{new_item_id}
use nemotron_voice_agent.Realtime.Events.{
  user_text_item_created, invalid_item, unsupported_item, item_rejected_pre_intro,
}
use nemotron_voice_agent.Realtime.World.{Schedule}
use nemotron_voice_agent.Realtime.Serializer.State.{
  Libraries, Reply, Serializer, append_message, emit_event, reject,
}
use nemotron_voice_agent.Realtime.Serializer.Messages.{equals_text, extract_item_text, or_default}

module _ ⦃l : Libraries⦄ where
  unfoldable pub item_id_of : Json → Text → Text
  item_id_of (str t) hex = t
  item_id_of _ hex = new_item_id hex

  -- A client id given leaves the uuid set aside unused.
  unfoldable pub create_text : Schedule → Fields → Option Text → Option Text → Serializer → Reply
  unfolding reject emit_event item_id_of
  create_text s item none event_id z = reject s invalid_item event_id z
  create_text s item (some text) event_id z =
      let id = item_id_of (or_null (lookup item (codes "id"))) (s.uuid z.world.uuids) in
      let z₁ = record z { world = record (z.world) { uuids = z.world.uuids + 1 } } in
      if z.world.conversation.assistant_has_responded
      then (emit_event s (user_text_item_created id text) z₁, some (append_message text))
      else reject s item_rejected_pre_intro event_id z

  unfoldable pub create_item : Schedule → Json → Option Text → Serializer → Reply
  unfolding reject create_text or_default extract_item_text
  create_item s (obj item) event_id z =
      let item_type = or_default (or_null (lookup item (codes "type"))) (codes "message") in
      let role = or_default (or_null (lookup item (codes "role"))) (codes "user") in
      if equals_text item_type (codes "message") && equals_text role (codes "user")
      then create_text s item (extract_item_text item) event_id z
      else reject s unsupported_item event_id z
  create_item s _ event_id z = reject s invalid_item event_id z

  unfoldable pub on_item_create : Schedule → Fields → Option Text → Serializer → Reply
  unfolding create_item
  on_item_create s m event_id z = create_item s (or_null (lookup m (codes "item"))) event_id z
