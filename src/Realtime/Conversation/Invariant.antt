-- ===== src/Realtime/Conversation/Invariant.antt =====
-- What every sequence of calls keeps (src/realtime/conversation.py): the session is an explicit list
-- of operations, so any interleaving of the serializer and the observer is one such list.
use nemotron_voice_agent.Base.{
  ℕ, ◌≤◌, ◌<◌, ◌≡◌, Bool, true, false, Option, none, some, List, [], ◌∷◌, Text, arith,
}
use nemotron_voice_agent.Realtime.Conversation.{
  ConversationState, Status, is_set, is_in_progress, initial, open_client_text, begin_user_item,
  add_input_audio, begin_user_turn, stop_user_turn, set_user_transcript, announce_user_item,
  ready_user_transcript, clear_user_item, begin_response, request_response,
  release_response_request, append_assistant_transcript, complete_response, reset_response_slot,
}

-- One call, with its arguments and the uuids that it draws. `mark_item` and `mark_part` are the two
-- assignments that src/realtime/lifecycle.py makes to the state.
pub data Op : Type 0 where
  open_text announce clear request release mark_item mark_part : Op
  audio : ℕ → ℕ → Op
  user_item start stop ready : Text → Op
  transcript : Text → Text → Op
  begin : Text → Text → Op
  append : Text → Text → Text → Op
  complete : (s : Status) → is_in_progress (some s) ≡ false → Op
  reset : Option ℕ → Op

unfoldable pub step : ConversationState → Op → ConversationState
step c open_text = open_client_text c
step c announce = (announce_user_item c).0
step c clear = clear_user_item c
step c request = (request_response c).0
step c release = release_response_request c
step c mark_item = record c { output_item_announced = true }
step c mark_part = record c { content_part_announced = true }
step c (audio n rate) = add_input_audio n rate c
step c (user_item hex) = (begin_user_item hex c).0
step c (start hex) = (begin_user_turn hex c).0
step c (stop hex) = (stop_user_turn hex c).0
step c (ready hex) = (ready_user_transcript hex c).0
step c (transcript hex t) = (set_user_transcript hex t c).0
step c (begin r i) = (begin_response r i c).0
step c (append r i t) = append_assistant_transcript r i t c
step c (complete s _) = (complete_response s c).0
step c (reset g) = reset_response_slot g c

unfoldable pub run : ConversationState → List Op → ConversationState
run c [] = c
run c (o ∷ os) = run (step c o) os

abbrev StartBefore : Option ℕ → ℕ → Type 0
StartBefore none n = Unit
StartBefore (some s) n = s ≤ n

-- A stopped turn has its end, which is not before its start.
abbrev EndAfter : Option ℕ → Option ℕ → Bool → ℕ → Type 0
EndAfter from none true n = ⊥
EndAfter from none false n = Unit
EndAfter none (some e) stopped n = e ≤ n
EndAfter (some s) (some e) stopped n = (s ≤ e) × (e ≤ n)

pub record Inv (c : ConversationState) : Type 0 where
  pub rate_positive : 0 < c.input_sample_rate
  pub active_has_response : is_in_progress c.response_status ≡ true → is_set c.response_id ≡ true
  pub active_has_item : is_in_progress c.response_status ≡ true → is_set c.assistant_item_id ≡ true
  pub active_not_requested : is_in_progress c.response_status ≡ true → c.response_requested ≡ false
  pub stopped_has_item : c.user_turn_stopped ≡ true → is_set c.user_item_id ≡ true
  pub started_in_past : StartBefore c.user_turn_start_sample c.input_audio_samples
  pub ended_after_start :
      EndAfter c.user_turn_start_sample c.user_turn_end_sample c.user_turn_stopped
        c.input_audio_samples

pub initial-Inv : Inv initial
initial-Inv = ground arith

step-Inv : (c : ConversationState) (o : Op) → Inv c → Inv (step c o)
unfolding step open_client_text announce_user_item clear_user_item request_response
    release_response_request add_input_audio begin_user_item begin_user_turn stop_user_turn
    ready_user_transcript set_user_transcript begin_response append_assistant_transcript
    complete_response reset_response_slot
step-Inv c open_text h = ground arith
step-Inv c announce h = ground arith
step-Inv c clear h = ground arith
step-Inv c request h = ground arith
step-Inv c release h = ground arith
step-Inv c mark_item h = ground arith
step-Inv c mark_part h = ground arith
step-Inv c (audio n rate) h = ground arith
step-Inv c (user_item hex) h = ground arith
step-Inv c (start hex) h = ground arith
step-Inv c (stop hex) h = ground arith
step-Inv c (ready hex) h = ground arith
step-Inv c (transcript hex t) h = ground arith
step-Inv c (begin r i) h = ground arith
step-Inv c (append r i t) h = ground arith
step-Inv c (complete s e) h = ground arith
step-Inv c (reset g) h = ground arith

-- Whatever the calls and their order, the invariant holds after them if it held before.
pub run-Inv : (c : ConversationState) (os : List Op) → Inv c → Inv (run c os)
unfolding run
run-Inv c [] h = h
run-Inv c (o ∷ os) h = run-Inv (step c o) os (step-Inv c o h)
