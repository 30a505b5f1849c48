-- ===== src/Realtime/Lifecycle/Announce.antt =====
-- The announcement of a response (src/realtime/lifecycle.py).
use nemotron_voice_agent.Base.{
  ◌+◌, ◌≡◌, refl, sym, ◌∙◌, Bool, true, false, Option, List, [], ◌∷◌, ◌++◌, Text, arith, append-nil,
  append_assoc, if◌then◌else◌, Bool-cases, inl, inr,
}
use nemotron_voice_agent.Realtime.Conversation.{ConversationState, is_active, begin_response}
use nemotron_voice_agent.Realtime.Events.{
  Payload, ga, response_created, assistant_item_created, output_item_added, content_part_added,
  with_beta_aliases,
}
use nemotron_voice_agent.Realtime.World.{
  Schedule, World, emit, emit_all, emit_with_aliases, IsQuiet,
}
use nemotron_voice_agent.Realtime.World.Emits.{conversation-emit_all-IsQuiet}
use nemotron_voice_agent.Realtime.Lifecycle.{
  begin_in, announce_item, announce_part, announce_response,
}

-- The response of the slot is in flight and all of it is announced.
abbrev pub IsAnnounced : ConversationState → Type 0
IsAnnounced c =
    (is_active c ≡ true) × (c.output_item_announced ≡ true) × (c.content_part_announced ≡ true)

-- The events that the flags still ask for.
pub opening : Bool → ConversationState → Text → Option Text → List Payload
opening created c response_id item =
    (if created then ga (response_created response_id) ∷ [] else [])
    ++ ((if c.output_item_announced
          then []
          else ga (assistant_item_created item) ∷ ga (output_item_added response_id item) ∷ [])
        ++ (if c.content_part_announced then [] else ga (content_part_added response_id item) ∷ []))

abbrev item_events : Text → Option Text → List Payload
item_events response_id item =
    ga (assistant_item_created item) ∷ ga (output_item_added response_id item) ∷ []

module _ (s : Schedule) (q : IsQuiet s) (response_id : Text) (w : World) where
  item_quiet :
      (announce_item s response_id w).conversation
      ≡ record (w.conversation) { output_item_announced = true }
  unfolding announce_item emit_with_aliases with_beta_aliases
  item_quiet = elim (Bool-cases w.conversation.output_item_announced) [
    | inl e ↦ rw e (ground arith)
    | inr e ↦ rw e (conversation-emit_all-IsQuiet s _ _ q ∙ conversation-emit_all-IsQuiet s _ _ q)
  ]

  part_quiet :
      (announce_part s response_id w).conversation
      ≡ record (w.conversation) { content_part_announced = true }
  unfolding announce_part emit_with_aliases with_beta_aliases
  part_quiet = elim (Bool-cases w.conversation.content_part_announced) [
    | inl e ↦ rw e (ground arith)
    | inr e ↦ rw e (conversation-emit_all-IsQuiet s _ _ q)
  ]

module _ (s : Schedule) (response_id : Text) (w : World) where
  item_sent :
      (announce_item s response_id w).sent
      ≡ w.sent
        ++ (if w.conversation.output_item_announced
            then []
            else item_events response_id w.conversation.assistant_item_id)
  unfolding announce_item emit_with_aliases with_beta_aliases emit_all emit
  item_sent = elim (Bool-cases w.conversation.output_item_announced) [
    | inl e ↦ rw e (sym (append-nil _))
    | inr e ↦ rw e (append_assoc w.sent _ _)
  ]

  part_sent :
      (announce_part s response_id w).sent
      ≡ w.sent
        ++ (if w.conversation.content_part_announced
            then []
            else ga (content_part_added response_id w.conversation.assistant_item_id) ∷ [])
  unfolding announce_part emit_with_aliases with_beta_aliases emit_all emit
  part_sent = elim (Bool-cases w.conversation.content_part_announced) [
    | inl e ↦ rw e (sym (append-nil _))
    | inr e ↦ rw e
  ]

  created_sent :
      (created : Bool)
      → (if created then emit_with_aliases s (response_created response_id) w else w).sent
        ≡ w.sent ++ (if created then ga (response_created response_id) ∷ [] else [])
  unfolding emit_with_aliases with_beta_aliases emit_all emit
  created_sent true = refl
  created_sent false = sym (append-nil _)

  created_quiet :
      IsQuiet s
      → (created : Bool)
      → (if created then emit_with_aliases s (response_created response_id) w else w).conversation
        ≡ w.conversation
  unfolding emit_with_aliases
  created_quiet q true = conversation-emit_all-IsQuiet s _ w q
  created_quiet q false = refl

-- With no other task running: the client receives exactly the events that the response in the slot
-- still lacks, in the order response, item, part, and the response is then wholly announced.
pub announce_response_lem :
    (s : Schedule) (w : World)
    → IsQuiet s
    → let (c, (response_id, created)) =
        begin_response (s.uuid w.uuids) (s.uuid (w.uuids + 1)) w.conversation in
      let (after, result) = announce_response s w in
      (result ≡ (response_id, created))
      × (after.conversation
          ≡ record c { output_item_announced = true; content_part_announced = true })
      × (after.sent ≡ w.sent ++ opening created c response_id c.assistant_item_id)
unfolding announce_response begin_in opening
announce_response_lem s w q =
    let (c, (response_id, created)) =
      begin_response (s.uuid w.uuids) (s.uuid (w.uuids + 1)) w.conversation in
    (
      refl,
      rw (part_quiet s q, item_quiet s q, created_quiet s response_id _ q created),
      rw
          (
            part_sent s,
            item_sent s,
            item_quiet s q,
            created_sent s,
            created_quiet s response_id _ q created,
          )
          (simp append_assoc),
    )

opening_closed :
    (h h' : Text) (c : ConversationState)
    → IsAnnounced c
    → let (d, (response_id, created)) = begin_response h h' c in
      opening created d response_id d.assistant_item_id ≡ []
unfolding begin_response opening
opening_closed h h' c a = rw (a.0, a.1, a.2)

begun-IsAnnounced :
    (h h' : Text) (c : ConversationState)
    → IsAnnounced (record ((begin_response h h' c).0) {
      output_item_announced = true;
      content_part_announced = true;
    })
unfolding begin_response
begun-IsAnnounced h h' c = ground arith

-- With no other task running a second announcement sends nothing, changes nothing and returns the
-- same id, as one that is not new.
announce-announce :
    (s : Schedule) (w : World)
    → IsQuiet s
    → let (after, result) = announce_response s w in
      ((announce_response s after).1 ≡ (result.0, false))
      × ((announce_response s after).0.conversation ≡ after.conversation)
      × ((announce_response s after).0.sent ≡ after.sent)
unfolding begin_response opening
announce-announce s w q =
    let (after, result) = announce_response s w in
    let first = announce_response_lem s w q in
    let second = announce_response_lem s after q in
    (
      rw (second.0, first.0, first.1) (ground arith),
      rw (second.1, first.1) (ground arith),
      second.2
          ∙ rw
              (opening_closed _ _ after.conversation
                (rw first.1 (begun-IsAnnounced _ _ w.conversation)))
              (append-nil _),
    )
