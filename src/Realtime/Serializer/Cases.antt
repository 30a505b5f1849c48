-- ===== src/Realtime/Serializer/Cases.antt =====
-- Proofs by the kind of a message (src/realtime/serializer.py): a property of every handler's reply is one
-- of every reply.
use nemotron_voice_agent.Base.{Option, none, Text, both}
use nemotron_voice_agent.Json.{Json, null, boolean, float, int, negative, str, arr, obj, Fields}
use nemotron_voice_agent.Realtime.Events.{ErrorCode, audio_cleared, unsupported_event}
use nemotron_voice_agent.Realtime.World.{Schedule}
use nemotron_voice_agent.Realtime.Lifecycle.{Telemetry}
use nemotron_voice_agent.Realtime.Serializer.State.{
  Inbound, Libraries, Reply, Serializer, emit_event, message, not_json, reject, undecodable,
}
use nemotron_voice_agent.Realtime.Serializer.Responding.{
  on_response_create, on_response_cancel, on_truncate,
}
use nemotron_voice_agent.Realtime.Serializer.Buffer.{on_append, on_commit}
use nemotron_voice_agent.Realtime.Serializer.ItemCreate.{on_item_create}
use nemotron_voice_agent.Realtime.Serializer.Updating.{on_session_update}
use nemotron_voice_agent.Realtime.Serializer.{dispatch, deserialize_fields, deserialize}

module _ ⦃l : Libraries⦄ where
  -- What every handler's reply satisfies, the reply to a message does.
  pub dispatch-all :
      (s : Schedule) (drained : Text) (telemetry : Option Telemetry) (t : Text) (m : Fields)
      (event_id : Option Text) (z : Serializer) (P : Reply → Type 0)
      → P (on_append s m event_id z)
      → P (on_commit s event_id z)
      → P (emit_event s audio_cleared (record z { bytes_since_commit = 0 }), none)
      → P (on_session_update s m event_id z)
      → P (on_response_create s m event_id z)
      → P (on_response_cancel s drained telemetry m event_id z)
      → P (on_truncate s drained telemetry m event_id z)
      → P (on_item_create s m event_id z)
      → P (reject s unsupported_event event_id z)
      → P (dispatch s drained telemetry t m event_id z)
  unfolding dispatch
  dispatch-all s drained telemetry t m event_id z P a b c d e f g h i = both P _ _ _ a (
      both P _ _ _ b (
        both P _ _ _ c
          (both P _ _ _ d (both P _ _ _ e (both P _ _ _ f (both P _ _ _ g (both P _ _ _ h i)))))))

  module _ (s : Schedule) (drained : Text) (telemetry : Option Telemetry) (z : Serializer)
      (P : Reply → Type 0) (rejected : (code : ErrorCode) (e : Option Text) → P (reject s code e z))
      (dispatched : (t : Text) (m : Fields) (e : Option Text)
        → P (dispatch s drained telemetry t m e z)) where
    fields-all : (j : Json) (m : Fields) → P (deserialize_fields s drained telemetry j m z)
    unfolding deserialize_fields
    fields-all (str t) m = both P _ _ _ (rejected _ _) (dispatched _ _ _)
    fields-all null m = rejected _ _
    fields-all (boolean b) m = rejected _ _
    fields-all (float n) m = rejected _ _
    fields-all (int n) m = rejected _ _
    fields-all (negative n) m = rejected _ _
    fields-all (obj f) m = rejected _ _
    fields-all (arr i) m = rejected _ _

    pub deserialize-all : (inbound : Inbound) → P (deserialize s drained telemetry inbound z)
    unfolding deserialize
    deserialize-all undecodable = rejected _ _
    deserialize-all not_json = rejected _ _
    deserialize-all (message (obj m)) = fields-all _ m
    deserialize-all (message null) = rejected _ _
    deserialize-all (message (boolean b)) = rejected _ _
    deserialize-all (message (float n)) = rejected _ _
    deserialize-all (message (int n)) = rejected _ _
    deserialize-all (message (negative n)) = rejected _ _
    deserialize-all (message (str t)) = rejected _ _
    deserialize-all (message (arr i)) = rejected _ _
