-- ===== src/Realtime/Lifecycle/Finish.antt =====
-- The finish sequence (src/realtime/lifecycle.py) under any behaviour of the other tasks.
use nemotron_voice_agent.Base.{
  ◌≡◌, refl, inl, inr, true, Option, none, some, List, [], ◌∷◌, ◌++◌, arith, if◌then◌else◌,
  Bool-cases,
}
use nemotron_voice_agent.Realtime.Conversation.{
  ResponseSnapshot, Status, complete_response, reset_response_slot,
}
use nemotron_voice_agent.Realtime.Events.{
  ServerEvent, Payload, ga, beta, output_audio_done, transcript_done, content_part_done,
  output_item_done, response_done, with_beta_aliases,
}
use nemotron_voice_agent.Realtime.World.{Schedule, World, IsQuiet, emit_all, emit_with_aliases}
use nemotron_voice_agent.Realtime.World.Emits.{sent-emit_all, conversation-emit_all-IsQuiet}
use nemotron_voice_agent.Realtime.Lifecycle.{
  Telemetry, item_status, usage_of, metadata_of, emit_finish_from_snapshot, finish_response,
}

abbrev twice : ServerEvent → List Payload
twice e = ga e ∷ beta e ∷ []

-- What the client receives when the response of `snap` ends: at most one audio.done and one
-- transcript.done, each under both of its names, then the part, the item and the response, once.
pub finish_payloads : ResponseSnapshot → Option Telemetry → List Payload
finish_payloads snap telemetry =
    (if snap.audio_done_emitted
      then []
      else twice (output_audio_done snap.response_id snap.item_id))
    ++ ((if snap.transcript_done_emitted
          then []
          else twice (transcript_done snap.response_id snap.item_id snap.transcript))
        ++ (ga (content_part_done snap.response_id snap.item_id snap.transcript)
            ∷ ga (
                output_item_done snap.response_id snap.item_id (item_status snap.status)
                  snap.transcript)
            ∷ ga (
                response_done snap.response_id snap.status snap.item_id (item_status snap.status)
                  snap.transcript (usage_of telemetry) (metadata_of telemetry))
            ∷ []))

emit_finish-eq-emit_all :
    (s : Schedule) (snap : ResponseSnapshot) (telemetry : Option Telemetry) (w : World)
    → emit_finish_from_snapshot s snap telemetry w ≡ emit_all s (finish_payloads snap telemetry) w
unfolding emit_finish_from_snapshot emit_with_aliases with_beta_aliases finish_payloads emit_all
emit_finish-eq-emit_all s snap telemetry w = elim (Bool-cases snap.audio_done_emitted) [
  | inl a ↦ elim (Bool-cases snap.transcript_done_emitted) [ inl t ↦ rw (a, t) | inr t ↦ rw (a, t) ]
  | inr a ↦ elim (Bool-cases snap.transcript_done_emitted) [ inl t ↦ rw (a, t) | inr t ↦ rw (a, t) ]
]

module _ (s : Schedule) (status : Status) (telemetry : Option Telemetry) (w : World)
    (snap : ResponseSnapshot)
    (completed : (complete_response status w.conversation).1 ≡ some snap) where
  finish_response-some :
      let w' =
        emit_finish_from_snapshot s snap telemetry
          (record w { conversation = (complete_response status w.conversation).0 }) in
      finish_response s status telemetry w ≡ (
        record w' { conversation = reset_response_slot (some snap.generation) w'.conversation },
        true,
      )
  unfolding finish_response
  finish_response-some = rw completed

  -- Where the response of the slot is completed, and whatever the other tasks do meanwhile, the sequence
  -- is sent and the client receives exactly the events of the snapshot: the ids, the transcript and the
  -- status are those of the moment at which the response was completed.
  pub sent-finish_response :
      ((finish_response s status telemetry w).1 ≡ true)
      × ((finish_response s status telemetry w).0.sent ≡ w.sent ++ finish_payloads snap telemetry)
  sent-finish_response =
      rw finish_response-some
        (refl, rw emit_finish-eq-emit_all (sent-emit_all s (finish_payloads snap telemetry) _))

  -- With no other task running the slot is empty afterwards, and the rest is as completed.
  pub finish_quiet :
      IsQuiet s
      → (finish_response s status telemetry w).0.conversation
        ≡ reset_response_slot none (complete_response status w.conversation).0
  unfolding complete_response reset_response_slot
  finish_quiet quiet =
      let c = (complete_response status w.conversation).0 in
      let w₁ : World = record w { conversation = c } in
      rw finish_response-some (
        rw emit_finish-eq-emit_all (
          rw (conversation-emit_all-IsQuiet s (finish_payloads snap telemetry) w₁ quiet)
            (ground (arith, completed))))
