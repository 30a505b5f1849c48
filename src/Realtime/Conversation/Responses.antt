-- ===== src/Realtime/Conversation/Responses.antt =====
-- The response slot (src/realtime/conversation.py): one response in flight, its transcript, and the
-- reset that a newer response survives.
use nemotron_voice_agent.Base.{
  ℕ, ◌<◌, ◌≡◌, true, false, ◌⊎◌, some, List, [], ◌∷◌, ◌++◌, Text, arith, append_assoc, append-nil,
  is_empty, text_eq_refl,
}
use nemotron_voice_agent.Base.Dict
use nemotron_voice_agent.Base.Dict.{get-put}
use nemotron_voice_agent.Realtime.Conversation.{
  ConversationState, ResponseSnapshot, Status, is_in_progress, is_active, text_or_empty,
  open_client_text, begin_user_item, add_input_audio, begin_user_turn, stop_user_turn,
  set_user_transcript, announce_user_item, ready_user_transcript, clear_user_item, begin_response,
  request_response, release_response_request, append_assistant_transcript, complete_response,
  reset_response_slot,
}
use nemotron_voice_agent.Realtime.Conversation.Invariant.{Op, open_text, step, run}

-- No response of generation `g` or older is in flight.
abbrev pub Ended : ℕ → ConversationState → Type 0
Ended g c =
    (g < c.response_generation)
    ⊎ ((g ≡ c.response_generation) × (is_in_progress c.response_status ≡ false))

step-Ended : (g : ℕ) (c : ConversationState) (o : Op) → Ended g c → Ended g (step c o)
unfolding step open_client_text announce_user_item clear_user_item request_response
    release_response_request add_input_audio begin_user_item begin_user_turn stop_user_turn
    ready_user_transcript set_user_transcript begin_response append_assistant_transcript
    complete_response reset_response_slot
step-Ended g c open_text h = ground arith
step-Ended g c _ h = ground arith

pub run-Ended : (g : ℕ) (c : ConversationState) (os : List Op) → Ended g c → Ended g (run c os)
unfolding run
run-Ended g c [] h = h
run-Ended g c (o ∷ os) h = run-Ended g (step c o) os (step-Ended g c o h)

pub complete-Ended :
    (s : Status) (c : ConversationState) (snap : ResponseSnapshot)
    → is_in_progress (some s) ≡ false
    → (complete_response s c).1 ≡ some snap
    → Ended snap.generation (complete_response s c).0
unfolding complete_response
complete-Ended s c snap e h = ground arith

reset-Ended :
    (g : ℕ) (d : ConversationState)
    → Ended g d
    → is_in_progress d.response_status ≡ true
    → reset_response_slot (some g) d ≡ d
unfolding reset_response_slot
reset-Ended g d h live = ground arith

-- A response that is in flight after any calls that follow the completion of another one is not touched
-- by the reset with the generation of the completed one.
pub reset-keeps_newer_response :
    (s : Status) (c : ConversationState) (snap : ResponseSnapshot) (os : List Op)
    → is_in_progress (some s) ≡ false
    → (complete_response s c).1 ≡ some snap
    → is_in_progress (run (complete_response s c).0 os).response_status ≡ true
    → reset_response_slot (some snap.generation) (run (complete_response s c).0 os)
      ≡ run (complete_response s c).0 os
reset-keeps_newer_response s c snap os e h =
    reset-Ended snap.generation (run (complete_response s c).0 os)
      (run-Ended snap.generation (complete_response s c).0 os (complete-Ended s c snap e h))

-- The calls that deliver the pieces of one reply. In an active response no uuid is drawn.
unfoldable pub append_all : List Text → ConversationState → ConversationState
append_all [] c = c
append_all (t ∷ ts) c = append_all ts (append_assistant_transcript [] [] t c)

abbrev pub concat : List Text → Text
concat [] = []
concat (t ∷ ts) = t ++ concat ts

-- The response of `c`, still in flight in `d`, with `t` appended to its transcript.
pub record Extends (c d : ConversationState) (t : Text) : Type 0 where
  pub active : is_active d ≡ true
  pub transcript : d.assistant_transcript ≡ c.assistant_transcript ++ t
  pub same_response : d.response_id ≡ c.response_id
  pub same_item : d.assistant_item_id ≡ c.assistant_item_id
  pub same_generation : d.response_generation ≡ c.response_generation
  pub same_audio_done : d.audio_done_emitted ≡ c.audio_done_emitted
  pub same_transcript_done : d.transcript_done_emitted ≡ c.transcript_done_emitted

pub append-Extends :
    (t : Text) (c : ConversationState)
    → is_active c ≡ true
    → Extends c (append_assistant_transcript [] [] t c) t
unfolding append_assistant_transcript begin_response
append-Extends [] c h = ground (arith, append-nil c.assistant_transcript)
append-Extends (x ∷ t) c h = ground arith

Extends-trans :
    (c d e : ConversationState) (s t : Text) → Extends c d s → Extends d e t → Extends c e (s ++ t)
Extends-trans c d e s t h k = ground (arith, append_assoc c.assistant_transcript s t)

-- The pieces of a reply are joined in order, under one response id, item id and generation.
append_all-Extends :
    (ts : List Text) (c : ConversationState)
    → is_active c ≡ true
    → Extends c (append_all ts c) (concat ts)
unfolding append_all
append_all-Extends [] c h = ground (arith, append-nil c.assistant_transcript)
append_all-Extends (t ∷ ts) c h =
    let first = append-Extends t c h in
    Extends-trans c _ _ t (concat ts) first
      (append_all-Extends ts (append_assistant_transcript [] [] t c) first.active)

-- The snapshot of an active response whose reply came in the further pieces `ts`: its own ids and
-- generation and the whole transcript, whatever the status that it ends with.
pub complete-append_all :
    (s : Status) (ts : List Text) (c : ConversationState)
    → is_active c ≡ true
    → (complete_response s (append_all ts c)).1
      ≡ some (record {
        generation = c.response_generation;
        response_id = text_or_empty c.response_id;
        item_id = c.assistant_item_id;
        transcript = c.assistant_transcript ++ concat ts;
        status = s;
        audio_done_emitted = c.audio_done_emitted;
        transcript_done_emitted = c.transcript_done_emitted;
      })
unfolding complete_response
complete-append_all s ts c h = ground (arith, append_all-Extends ts c h)

-- Completing an active response with an item id and a transcript, neither empty, puts the transcript on
-- record under the id.
item_transcripts-complete_response :
    (s : Status) (c : ConversationState) (item : Text)
    → is_active c ≡ true
    → c.assistant_item_id ≡ some item
    → is_empty item ≡ false
    → is_empty c.assistant_transcript ≡ false
    → Dict.get (complete_response s c).0.item_transcripts item ≡ some c.assistant_transcript
unfolding complete_response
item_transcripts-complete_response s c item h e i t =
    ground (arith, get-put c.item_transcripts item item c.assistant_transcript, text_eq_refl item)
