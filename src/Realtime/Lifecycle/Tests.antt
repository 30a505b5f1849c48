-- ===== src/Realtime/Lifecycle/Tests.antt =====
-- Runs of the response life cycle (src/realtime/lifecycle.py): a reply that is cut off, alone and beside
-- another task.
use nemotron_voice_agent.Base.{
  ◌≡◌, refl, true, false, none, some, [], ◌∷◌, Text, codes, if◌then◌else◌, ◌==◌,
}
use nemotron_voice_agent.Realtime.Conversation.{
  ConversationState, ResponseSnapshot, completed, initial, begin_response,
  append_assistant_transcript, complete_response,
}
use nemotron_voice_agent.Realtime.Conversation.Invariant.{begin, append, request, run, step}
use nemotron_voice_agent.Realtime.World.{Schedule, World, alone}
use nemotron_voice_agent.Realtime.Lifecycle.{announce_response, finish_response}
use nemotron_voice_agent.Realtime.Lifecycle.Finish.{finish_payloads, sent-finish_response}
use nemotron_voice_agent.Realtime.Lifecycle.Announce.{opening, announce_response_lem}

abbrev hex : Text
hex = codes "0123456789abcdef"

abbrev world_of : ConversationState → World
world_of c = record { conversation = c; sent = []; uuids = 0; awaits = 0 }

abbrev answering : World
answering = world_of (run initial (begin hex hex ∷ append hex hex (codes "hi") ∷ []))

abbrev answer : ResponseSnapshot
answer = record {
  generation = 1;
  response_id = codes "resp_0123456789ab";
  item_id = some (codes "item_0123456789ab");
  transcript = codes "hi";
  status = completed;
  audio_done_emitted = false;
  transcript_done_emitted = false;
}

answered : (complete_response completed answering.conversation).1 ≡ some answer
unfolding run step begin_response append_assistant_transcript complete_response
answered = refl

-- Another task begins a response while the second event is being sent.
abbrev interrupted : Schedule
interrupted = record { uuid = λ n. hex; others = λ n. if n == 1 then begin hex hex ∷ [] else [] }

sent-finish_response_example :
    ((finish_response interrupted completed none answering).1 ≡ true)
    × ((finish_response interrupted completed none answering).0.sent ≡ finish_payloads answer none)
sent-finish_response_example =
    sent-finish_response interrupted completed none answering answer answered

abbrev requested : World
requested = world_of (run initial (request ∷ []))

announce_response_lem_example :
    let (c, (response_id, created)) = begin_response hex hex requested.conversation in
    let (after, result) = announce_response (alone (λ n. hex)) requested in
    (result ≡ (response_id, created))
    × (after.conversation
        ≡ record c { output_item_announced = true; content_part_announced = true })
    × (after.sent ≡ opening created c response_id c.assistant_item_id)
announce_response_lem_example = announce_response_lem (alone (λ n. hex)) requested (λ n. refl)
