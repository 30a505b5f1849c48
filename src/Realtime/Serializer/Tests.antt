-- ===== src/Realtime/Serializer/Tests.antt =====
-- Messages of a client (src/realtime/serializer.py) at concrete sessions, with libraries that do nothing.
use nemotron_voice_agent.Base.{
  Option, ℕ, ◌+◌, ◌≤◌, ◌<◌, ◌≡◌, ◌⊎◌, refl, true, false, none, some, List, [], ◌∷◌, Text, codes,
  text_eq, All,
}
use nemotron_voice_agent.Json.{str, obj, Fields, field, end, lookup}
use nemotron_voice_agent.Realtime.Conversation.{
  ConversationState, initial, begin_response, open_client_text, is_in_progress,
}
use nemotron_voice_agent.Realtime.Conversation.Invariant.{open_text, begin, run, step}
use nemotron_voice_agent.Realtime.Events.{
  conversation_already_has_active_response, input_audio_buffer_commit_empty,
}
use nemotron_voice_agent.Realtime.World.{alone}
use nemotron_voice_agent.Realtime.Audio.{
  extract_client_pcm_rate, extract_client_output_pcm_rate, max_pending_input_bytes,
}
use nemotron_voice_agent.Realtime.Serializer.{deserialize}
use nemotron_voice_agent.Realtime.Serializer.State.{
  message, Libraries, Serializer, reject, interrupt, run_llm,
}
use nemotron_voice_agent.Realtime.Serializer.Buffer.{on_commit}
use nemotron_voice_agent.Realtime.Serializer.Responding.{
  on_response_create, on_response_cancel, overrides, names_other,
}
use nemotron_voice_agent.Realtime.Serializer.Gates.{prompts, deserialize-closed}
use nemotron_voice_agent.Realtime.Serializer.Rates.{RatesAgree, deserialize-RatesAgree}
use nemotron_voice_agent.Realtime.Serializer.Accounting.{
  append_messages, total, commit-append_messages,
}
use nemotron_voice_agent.Realtime.Serializer.Slot.{IsFree, create_twice, cancel_twice}

abbrev hex : Text
hex = codes "0123456789abcdef"

abbrev plain : Libraries
plain = record {
  Stream = ℕ;
  fresh = 0;
  resample = λ stream pcm from to. (stream + 1, pcm);
  b64decode = λ t. some t;
  b64encode = λ pcm. pcm;
  resolve_voice = λ voice. voice;
  nvidia_keys = codes "prompt" ∷ [];
}

abbrev session_of : ConversationState → Serializer ⦃l = plain⦄
session_of c = record {
  world = record { conversation = c; sent = []; uuids = 0; awaits = 0 };
  session_view = end;
  tts_voice = [];
  has_emit = true;
  pipeline_rate = 16000;
  client_in_rate = 24000;
  client_out_rate = 24000;
  uplink = 0;
  downlink = 0;
  bytes_since_commit = 0;
}

abbrev typed : Text → Fields
typed t = field (codes "type") (str t) end

deserialize-closed_example :
    prompts
      (deserialize ⦃l = plain⦄
        (alone (λ n. hex))
        []
        none
        (message (obj (typed (codes "response.create"))))
        (session_of initial)).1
    ≡ false
deserialize-closed_example =
    deserialize-closed ⦃l = plain⦄ (alone (λ n. hex)) [] none
      (message (obj (typed (codes "response.create")))) (session_of initial) refl

initial-RatesAgree : RatesAgree ⦃l = plain⦄ (session_of initial)
unfolding extract_client_pcm_rate extract_client_output_pcm_rate lookup
initial-RatesAgree = record { in_agrees = refl; out_agrees = refl }

deserialize-RatesAgree_example :
    RatesAgree ⦃l = plain⦄
      (deserialize ⦃l = plain⦄
        (alone (λ n. hex))
        []
        none
        (message (obj (typed (codes "session.update"))))
        (session_of initial)).0
deserialize-RatesAgree_example =
    deserialize-RatesAgree ⦃l = plain⦄ (alone (λ n. hex)) [] none
      (message (obj (typed (codes "session.update")))) (session_of initial) initial-RatesAgree

abbrev appends : List (Fields × Option Text)
appends =
    (field (codes "audio") (str (0 ∷ 1 ∷ 2 ∷ 3 ∷ [])) end, none)
    ∷ (field (codes "audio") (str (0 ∷ [])) end, some (codes "evt_1"))
    ∷ []

commit-append_messages_example :
    let (after, frames) =
      append_messages ⦃l = plain⦄ (alone (λ n. hex)) appends (session_of initial) in
    All (λ n. n ≤ max_pending_input_bytes) frames
    × (((total ⦃l = plain⦄ frames ≡ 0)
          × (on_commit ⦃l = plain⦄ (alone (λ n. hex)) none after
              ≡ reject ⦃l = plain⦄ (alone (λ n. hex)) input_audio_buffer_commit_empty none after))
        ⊎ ((0 < total ⦃l = plain⦄ frames)
            × (on_commit ⦃l = plain⦄ (alone (λ n. hex)) none after
                ≡ (record after { bytes_since_commit = 0 }, none))))
commit-append_messages_example =
    commit-append_messages ⦃l = plain⦄ (alone (λ n. hex)) appends none (session_of initial) refl

abbrev ready : Serializer ⦃l = plain⦄
ready = session_of (run initial (open_text ∷ []))

create_twice_example :
    let (after, frame) = on_response_create ⦃l = plain⦄ (alone (λ n. hex)) end none ready in
    (frame ≡ some run_llm)
    × (is_in_progress after.world.conversation.response_status ≡ true)
    × (on_response_create ⦃l = plain⦄ (alone (λ n. hex)) end none after
        ≡ reject ⦃l = plain⦄ (alone (λ n. hex)) conversation_already_has_active_response none after)
unfolding lookup overrides run step open_client_text
create_twice_example =
    create_twice ⦃l = plain⦄ (alone (λ n. hex)) end end none none ready (λ n. refl) refl refl refl
      refl (refl, refl)

abbrev answering : Serializer ⦃l = plain⦄
answering = session_of (run initial (begin hex hex ∷ []))

abbrev mine : Fields
mine = field (codes "response_id") (str (codes "resp_0123456789ab")) end

cancel_twice_example :
    let (after, frame) =
      on_response_cancel ⦃l = plain⦄ (alone (λ n. hex)) (codes "hi") none mine none answering in
    (frame ≡ some interrupt)
    × IsFree ⦃l = plain⦄ after
    × (on_response_cancel ⦃l = plain⦄ (alone (λ n. hex)) [] none mine none after ≡ (after, none))
unfolding lookup text_eq names_other run step begin_response
cancel_twice_example =
    cancel_twice ⦃l = plain⦄ (alone (λ n. hex)) (codes "hi") [] none none mine mine none none
      answering (λ n. refl) refl refl refl
