-- ===== src/Realtime/Serializer/Slot.antt =====
-- The response slot as the client sees it (src/realtime/serializer.py with src/realtime/lifecycle.py): what
-- response.create and response.cancel do to it while no other task runs.
use nemotron_voice_agent.Base.{
  ◌+◌, ◌≡◌, refl, true, false, not, ◌||◌, Option, none, some, [], Text, codes, arith,
}
use nemotron_voice_agent.Json.{Fields, or_null, lookup}
use nemotron_voice_agent.Realtime.Conversation.{
  ConversationState, ResponseSnapshot, is_active, is_set, is_in_progress, cancelled, text_or_empty,
  request_response, begin_response, complete_response, reset_response_slot,
}
use nemotron_voice_agent.Realtime.Conversation.Responses.{
  append-Extends, append_all, complete-append_all,
}
use nemotron_voice_agent.Realtime.Events.{conversation_already_has_active_response}
use nemotron_voice_agent.Realtime.World.{Schedule, World, IsQuiet}
use nemotron_voice_agent.Realtime.Lifecycle.{Telemetry, announce_response}
use nemotron_voice_agent.Realtime.Lifecycle.Announce.{announce_response_lem}
use nemotron_voice_agent.Realtime.Lifecycle.Finish.{finish_quiet}
use nemotron_voice_agent.Realtime.Serializer.State.{
  Libraries, Serializer, interrupt, reject, run_llm, emit_cancelled_response, drain_into,
}
use nemotron_voice_agent.Realtime.Serializer.Responding.{
  on_response_create, on_response_cancel, overrides, names_other,
}

module _ ⦃l : Libraries⦄ where
  -- A client message finds the slot free.
  abbrev pub IsFree : Serializer → Type 0
  IsFree z =
      (z.world.conversation.response_requested ≡ false)
      × (is_in_progress z.world.conversation.response_status ≡ false)

  created :
      (s : Schedule) (m : Fields) (e : Option Text) (z : Serializer)
      → z.world.conversation.assistant_has_responded ≡ true
      → z.has_emit ≡ true
      → overrides (or_null (lookup m (codes "response"))) ≡ false
      → IsFree z
      → on_response_create s m e z ≡ (
        record z {
          world =
              (announce_response s
                (record (z.world) { conversation = (request_response z.world.conversation).0 })).0;
        },
        some run_llm,
      )
  unfolding on_response_create request_response
  created s m e z intro live plain free = rw (intro, live, plain, free.0, free.1) refl

  -- A message that finds the slot taken.
  refused :
      (s : Schedule) (m : Fields) (e : Option Text) (z : Serializer)
      → z.world.conversation.assistant_has_responded ≡ true
      → z.has_emit ≡ true
      → overrides (or_null (lookup m (codes "response"))) ≡ false
      → is_in_progress z.world.conversation.response_status ≡ true
      → on_response_create s m e z ≡ reject s conversation_already_has_active_response e z
  unfolding on_response_create request_response
  refused s m e z intro live plain busy = rw (intro, live, plain, busy) (ground arith)

  begun :
      (h h' : Text) (c : ConversationState)
      → c.assistant_has_responded ≡ true
      → let d = (begin_response h h' (request_response c).0).0 in
        (is_in_progress d.response_status ≡ true) × (d.assistant_has_responded ≡ true)
  unfolding begin_response request_response
  begun h h' c intro = ground arith

  -- With no other task running, after the hand-off and with a free slot: a response.create that overrides
  -- nothing makes the pipeline run once and puts a response into the slot, and a second one is answered
  -- with an error and runs nothing.
  pub create_twice :
      (s : Schedule) (m m' : Fields) (e e' : Option Text) (z : Serializer)
      → IsQuiet s
      → z.world.conversation.assistant_has_responded ≡ true
      → z.has_emit ≡ true
      → overrides (or_null (lookup m (codes "response"))) ≡ false
      → overrides (or_null (lookup m' (codes "response"))) ≡ false
      → IsFree z
      → let (after, frame) = on_response_create s m e z in
        (frame ≡ some run_llm)
        × (is_in_progress after.world.conversation.response_status ≡ true)
        × (on_response_create s m' e' after
            ≡ reject s conversation_already_has_active_response e' after)
  create_twice s m m' e e' z quiet intro live plain plain' free =
      let w : World = record (z.world) {
        conversation = (request_response z.world.conversation).0;
      } in
      let first = created s m e z intro live plain free in
      let announced = (announce_response_lem s w quiet).1 in
      let b = begun (s.uuid w.uuids) (s.uuid (w.uuids + 1)) z.world.conversation intro in
      let after : Serializer = record z { world = (announce_response s w).0 } in
      let busy : is_in_progress after.world.conversation.response_status ≡ true =
        rw announced b.0 in
      rw first (refl, busy, refused s m' e' after (rw announced b.1) live plain' busy)

  drained-active :
      (drained : Text) (c : ConversationState)
      → is_active c ≡ true
      → is_active (drain_into drained c) ≡ true
  unfolding drain_into
  drained-active drained c h =
      let e = append-Extends drained c h in let a = e.active in ground arith

  completes :
      (c : ConversationState)
      → is_active c ≡ true
      → (snap : ResponseSnapshot) × ((complete_response cancelled c).1 ≡ some snap)
  unfolding append_all
  completes c h = (_, complete-append_all cancelled [] c h)

  cancelled_lem :
      (s : Schedule) (drained : Text) (telemetry : Option Telemetry) (z : Serializer)
      → IsQuiet s
      → z.has_emit ≡ true
      → is_active z.world.conversation ≡ true
      → let d = (emit_cancelled_response s drained telemetry z).world.conversation in
        (d.response_id ≡ none) × (d.response_status ≡ none) × (d.response_requested ≡ false)
  unfolding emit_cancelled_response reset_response_slot
  cancelled_lem s drained telemetry z quiet live active =
      let c = drain_into drained z.world.conversation in
      let w : World = record (z.world) { conversation = c } in
      let (snap, completed) = completes c (drained-active drained z.world.conversation active) in
      rw live (rw (finish_quiet s cancelled telemetry w snap completed quiet) (refl, refl, refl))

  -- With no other task running: a response.cancel that finds a response in flight and names no other one
  -- interrupts the pipeline and leaves the slot free, and a second one does nothing at all.
  pub cancel_twice :
      (s : Schedule) (drained drained' : Text) (telemetry telemetry' : Option Telemetry)
      (m m' : Fields) (e e' : Option Text) (z : Serializer)
      → IsQuiet s
      → z.has_emit ≡ true
      → is_active z.world.conversation ≡ true
      → names_other
          (or_null (lookup m (codes "response_id")))
          (text_or_empty z.world.conversation.response_id)
        ≡ false
      → let (after, frame) = on_response_cancel s drained telemetry m e z in
        (frame ≡ some interrupt)
        × IsFree after
        × (on_response_cancel s drained' telemetry' m' e' after ≡ (after, none))
  unfolding on_response_cancel
  cancel_twice s drained drained' telemetry telemetry' m m' e e' z quiet live active mine =
      let after = emit_cancelled_response s drained telemetry z in
      let d = cancelled_lem s drained telemetry z quiet live active in
      let idle : (not (is_in_progress z.world.conversation.response_status)
            || not (is_set z.world.conversation.response_id))
          ≡ false =
        ground arith in
      rw idle (rw mine (refl, (d.2, rw d.1 refl), rw d.1 refl))
