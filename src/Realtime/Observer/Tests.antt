-- ===== src/Realtime/Observer/Tests.antt =====
-- Runs of the observer (src/realtime/observer.py): a spoken turn, a silent one and a repeated frame.
use nemotron_voice_agent.Base.{
  ℕ, ◌≡◌, refl, true, false, Option, none, List, [], ◌∷◌, ◌++◌, map, Text, codes,
}
use nemotron_voice_agent.Realtime.Conversation.{
  ConversationState, ResponseSnapshot, completed, initial, new_item_id, input_ms, text_or_empty,
  begin_response, clear_user_item,
}
use nemotron_voice_agent.Realtime.Conversation.Responses.{concat}
use nemotron_voice_agent.Realtime.Conversation.Invariant.{begin, mark_item, mark_part, run, step}
use nemotron_voice_agent.Realtime.World.{alone}
use nemotron_voice_agent.Realtime.Lifecycle.Announce.{IsAnnounced}
use nemotron_voice_agent.Realtime.Lifecycle.Finish.{finish_payloads}
use nemotron_voice_agent.Realtime.Observer.{
  Frame, FramePushed, observed, Observer, tts_text, llm_text, llm_end, flush_buffer, handle_frame,
}
use nemotron_voice_agent.Realtime.Observer.Dedupe.{nothing_seen}
use nemotron_voice_agent.Realtime.Lifecycle.{Telemetry}
use nemotron_voice_agent.Realtime.Observer.UserEvents.{
  handle_all, turn_events, late, early, turn_either_order,
}
use nemotron_voice_agent.Realtime.Observer.BotTurns.{spoken, transcript-tts_text, silent_turn}

abbrev uuids_of : ℕ → Text
uuids_of n = codes "0123456789abcdef"

abbrev observer_of : ConversationState → Observer
observer_of c = record {
  world = record { conversation = c; sent = []; uuids = 0; awaits = 0 };
  bot_transcript_from_tts = false;
  emitted_function_calls = [];
  llm_text_buffer = [];
  llm_text_generation = 0;
  seen = nothing_seen;
}

abbrev hello : Text
hello = codes "hello"

turn_either_order_example :
    let o = observer_of initial in
    let item = new_item_id (uuids_of 0) in
    ((handle_all uuids_of (late hello) o).world.sent
      ≡ turn_events item (input_ms initial 0) [] hello)
    × ((handle_all uuids_of (early hello) o).world.sent
        ≡ turn_events item (input_ms initial 0) hello hello)
    × ((handle_all uuids_of (late hello) o).world.conversation ≡ initial)
    × ((handle_all uuids_of (early hello) o).world.conversation ≡ initial)
unfolding clear_user_item
turn_either_order_example = turn_either_order uuids_of hello (observer_of initial) refl

abbrev answering : Observer
answering = observer_of (
    run initial
      (begin (codes "0123456789abcdef") (codes "fedcba9876543210") ∷ mark_item ∷ mark_part ∷ []))

abbrev pieces : List Text
pieces = codes "Hi" ∷ codes " there" ∷ codes " there" ∷ []

answering-IsAnnounced : IsAnnounced answering.world.conversation
unfolding run step begin_response
answering-IsAnnounced = (refl, refl, refl)

transcript-tts_text_example :
    let o' = handle_all uuids_of (map tts_text pieces) answering in
    IsAnnounced o'.world.conversation
    × (o'.world.conversation.assistant_transcript
        ≡ spoken answering.world.conversation.assistant_transcript pieces)
transcript-tts_text_example = transcript-tts_text uuids_of pieces answering answering-IsAnnounced

silent_turn_example :
    let o' = handle_all uuids_of (map llm_text pieces) answering in
    (snap : ResponseSnapshot) × (snap.transcript ≡ concat pieces)
    × (snap.status ≡ completed)
    × (snap.response_id ≡ text_or_empty answering.world.conversation.response_id)
    × ((handle_frame (alone uuids_of) none (llm_end true) o').world.sent
        ≡ (flush_buffer (alone uuids_of) o').sent ++ finish_payloads snap none)
unfolding run step begin_response
silent_turn_example =
    silent_turn uuids_of none pieces answering answering-IsAnnounced refl refl refl

abbrev pushed : ℕ → Frame → FramePushed
pushed id frame = record { id = id; frame = observed frame; downstream = true; from_output = true }

abbrev said : FramePushed
said = pushed 7 (tts_text hello)

abbrev others : List (Option Telemetry × FramePushed)
others = (none, pushed 8 (tts_text (codes " there"))) ∷ (none, said) ∷ []
