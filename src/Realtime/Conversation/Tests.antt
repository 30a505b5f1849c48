-- ===== src/Realtime/Conversation/Tests.antt =====
-- Runs of the conversation state (src/realtime/conversation.py) at concrete calls.
use nemotron_voice_agent.Base.{◌≡◌, refl, true, false, none, some, List, [], ◌∷◌, Text, codes}
use nemotron_voice_agent.Realtime.Conversation.{
  ConversationState, ResponseSnapshot, completed, cancelled, initial, is_in_progress,
  begin_user_item, begin_user_turn, stop_user_turn, set_user_transcript, ready_user_transcript,
  begin_response, append_assistant_transcript, complete_response, reset_response_slot,
  add_input_audio,
}
use nemotron_voice_agent.Realtime.Conversation.Invariant.{
  Op, start, audio, stop, transcript, ready, request, begin, append, complete, reset, run, Inv,
  initial-Inv, run-Inv, step,
}
use nemotron_voice_agent.Realtime.Conversation.Responses.{reset-keeps_newer_response}

abbrev hex : Text
hex = codes "0123456789abcdef"

abbrev other_hex : Text
other_hex = codes "fedcba9876543210"

abbrev turn : List Op
turn =
    start hex
    ∷ audio 3200 16000
    ∷ stop hex
    ∷ transcript hex (codes "hello")
    ∷ ready hex
    ∷ request
    ∷ begin hex other_hex
    ∷ append hex other_hex (codes "hi")
    ∷ complete completed refl
    ∷ reset none
    ∷ []

run-Inv_example : Inv (run initial turn)
run-Inv_example = run-Inv initial turn initial-Inv

abbrev answering : ConversationState
answering = run initial (begin hex other_hex ∷ append hex other_hex (codes "hi") ∷ [])

abbrev answer : ResponseSnapshot
answer = record {
  generation = 1;
  response_id = codes "resp_0123456789ab";
  item_id = some (codes "item_fedcba987654");
  transcript = codes "hi";
  status = cancelled;
  audio_done_emitted = false;
  transcript_done_emitted = false;
}

answered : (complete_response cancelled answering).1 ≡ some answer
unfolding run step begin_response append_assistant_transcript complete_response
answered = refl

abbrev newer : List Op
newer = reset none ∷ begin other_hex hex ∷ []

newer_live :
    is_in_progress (run (complete_response cancelled answering).0 newer).response_status ≡ true
unfolding run step begin_response append_assistant_transcript complete_response reset_response_slot
newer_live = refl

reset-keeps_newer_response_example :
    reset_response_slot (some 1) (run (complete_response cancelled answering).0 newer)
    ≡ run (complete_response cancelled answering).0 newer
reset-keeps_newer_response_example =
    reset-keeps_newer_response cancelled answering answer newer refl answered newer_live

abbrev speaking : ConversationState
speaking = run initial (start hex ∷ audio 3200 16000 ∷ [])

speaking_turn :
    (ready_user_transcript hex
      (set_user_transcript hex (codes "yes") (stop_user_turn hex speaking).0).0).1
    ≡ some (codes "item_0123456789ab", codes "yes")
unfolding run step begin_user_turn begin_user_item ready_user_transcript set_user_transcript
    stop_user_turn add_input_audio
speaking_turn = refl

abbrev spoken : ConversationState
spoken = (set_user_transcript hex (codes "yes") (stop_user_turn hex speaking).0).0
