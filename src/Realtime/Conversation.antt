-- ===== src/Realtime/Conversation.antt =====
-- src/realtime/conversation.py: the active user and assistant items and the response in flight.
-- A method returns the new state and its result. The values that `uuid.uuid4().hex` returns
-- during a call are arguments of the call, in the order in which they are drawn.
pub mod Invariant
pub mod Turns
pub mod Responses
mod Tests
use nemotron_voice_agent.Base.{
  ℕ, zero, suc, ◌+◌, ◌*◌, ◌/◌, max, Bool, true, false, not, ◌&&◌, ◌||◌, Option, none, some, [],
  ◌++◌, Text, codes, take, text_eq, is_empty, is_some, ◌==◌, if◌then◌else◌,
}
use nemotron_voice_agent.Base.Dict
use nemotron_voice_agent.Base.Dict.{Dict}

unfoldable pub new_item_id : Text → Text
new_item_id hex = codes "item_" ++ take 12 hex

unfoldable pub new_response_id : Text → Text
new_response_id hex = codes "resp_" ++ take 12 hex

-- The values that `response_status` takes besides `None`.
pub data Status : Type 0 where
  in_progress completed cancelled failed : Status

-- The truth value of a `str | None`.
abbrev pub is_set : Option Text → Bool
is_set none = false
is_set (some t) = not (is_empty t)

abbrev pub is_in_progress : Option Status → Bool
is_in_progress (some in_progress) = true
is_in_progress _ = false

pub record ResponseSnapshot : Type 0 where
  pub generation : ℕ
  pub response_id : Text
  pub item_id : Option Text
  pub transcript : Text
  pub status : Status
  pub audio_done_emitted : Bool
  pub transcript_done_emitted : Bool

pub record ConversationState : Type 0 where
  pub user_item_id : Option Text
  pub input_audio_samples : ℕ
  pub input_sample_rate : ℕ
  pub user_turn_start_sample : Option ℕ
  pub user_turn_end_sample : Option ℕ
  pub user_turn_stopped : Bool
  pub user_item_announced : Bool
  pub pending_user_transcript : Option Text
  pub assistant_item_id : Option Text
  pub response_id : Option Text
  pub response_status : Option Status
  pub response_requested : Bool
  pub response_generation : ℕ
  pub assistant_transcript : Text
  pub output_item_announced : Bool
  pub content_part_announced : Bool
  pub transcript_done_emitted : Bool
  pub audio_done_emitted : Bool
  pub item_transcripts : Dict Text
  pub assistant_has_responded : Bool

abbrev pub initial : ConversationState
initial = record {
  user_item_id = none;
  input_audio_samples = 0;
  input_sample_rate = 16000;
  user_turn_start_sample = none;
  user_turn_end_sample = none;
  user_turn_stopped = false;
  user_item_announced = false;
  pending_user_transcript = none;
  assistant_item_id = none;
  response_id = none;
  response_status = none;
  response_requested = false;
  response_generation = 0;
  assistant_transcript = [];
  output_item_announced = false;
  content_part_announced = false;
  transcript_done_emitted = false;
  audio_done_emitted = false;
  item_transcripts = [];
  assistant_has_responded = false;
}

unfoldable pub open_client_text : ConversationState → ConversationState
open_client_text c = record c { assistant_has_responded = true }

-- The id that `begin_user_item` leaves in the state and returns.
item_id_or_new : Option Text → Text → Text
unfolding new_item_id
item_id_or_new none hex = new_item_id hex
item_id_or_new (some t) hex = if is_empty t then new_item_id hex else t

unfoldable pub begin_user_item : Text → ConversationState → ConversationState × Text
unfolding item_id_or_new
begin_user_item hex c =
    let item_id = item_id_or_new c.user_item_id hex in
    (record c { user_item_id = some item_id }, item_id)

unfoldable pub add_input_audio : ℕ → ℕ → ConversationState → ConversationState
add_input_audio byte_count sample_rate c = if byte_count == 0 then c else record c {
  input_sample_rate = max sample_rate 1;
  input_audio_samples = c.input_audio_samples + byte_count / 2;
}

-- `int(samples * 1000 / rate)`: the quotient of floats is cut to the exact one below 2 ^ 53.
unfoldable pub input_ms : ConversationState → ℕ → ℕ
input_ms c samples = samples * 1000 / max c.input_sample_rate 1

unfoldable pub clear_user_item : ConversationState → ConversationState
clear_user_item c = record c {
  user_item_id = none;
  user_turn_start_sample = none;
  user_turn_end_sample = none;
  user_turn_stopped = false;
  user_item_announced = false;
  pending_user_transcript = none;
}

-- `if self.user_turn_start_sample is None: …`
start_turn : Option ℕ → ConversationState → ConversationState
start_turn (some s) c = c
start_turn none c = record c {
  user_turn_start_sample = some c.input_audio_samples;
  user_turn_end_sample = none;
  user_turn_stopped = false;
  user_item_announced = false;
  pending_user_transcript = none;
}

abbrev value_or_zero : Option ℕ → ℕ
value_or_zero none = 0
value_or_zero (some n) = n

-- After `start_turn` the start sample is there, so the default is never read.
unfoldable pub begin_user_turn : Text → ConversationState → ConversationState × (Text × ℕ)
unfolding clear_user_item begin_user_item start_turn input_ms
begin_user_turn hex c =
    let c₁ = if c.user_turn_stopped then clear_user_item c else c in
    let (c₂, item_id) = begin_user_item hex c₁ in
    let c₃ = start_turn c₂.user_turn_start_sample c₂ in
    (c₃, (item_id, input_ms c₃ (value_or_zero c₃.user_turn_start_sample)))

unfoldable pub stop_user_turn : Text → ConversationState → ConversationState × (Text × ℕ)
unfolding begin_user_item input_ms
stop_user_turn hex c =
    let (c₁, item_id) = begin_user_item hex c in
    let c₂ = record c₁ {
      user_turn_end_sample = some c₁.input_audio_samples;
      user_turn_stopped = true;
    } in
    (c₂, (item_id, input_ms c₂ c₁.input_audio_samples))

unfoldable pub set_user_transcript : Text → Text → ConversationState → ConversationState × Text
unfolding begin_user_item
set_user_transcript hex transcript c =
    let (c₁, item_id) = begin_user_item hex c in
    (record c₁ { pending_user_transcript = some transcript }, item_id)

unfoldable pub announce_user_item : ConversationState → ConversationState × Bool
announce_user_item c =
    if c.user_item_announced then (c, false) else (record c { user_item_announced = true }, true)

-- The second argument is `pending_user_transcript`.
ready_transcript : Text → Option Text → ConversationState → ConversationState × Option (Text × Text)
unfolding begin_user_item
ready_transcript hex none c = (c, none)
ready_transcript hex (some transcript) c =
    let (c₁, item_id) = begin_user_item hex c in
    if c.user_turn_stopped then (c₁, some (item_id, transcript)) else (c, none)

unfoldable pub ready_user_transcript :
    Text → ConversationState → ConversationState × Option (Text × Text)
unfolding ready_transcript
ready_user_transcript hex c = ready_transcript hex c.pending_user_transcript c

abbrev pub text_or_empty : Option Text → Text
text_or_empty none = []
text_or_empty (some t) = t

-- `self.response_id and self.response_status == "in_progress"`
abbrev pub is_active : ConversationState → Bool
is_active c = is_set c.response_id && is_in_progress c.response_status

unfoldable pub begin_response : Text → Text → ConversationState → ConversationState × (Text × Bool)
unfolding new_item_id new_response_id
begin_response response_hex item_hex c =
    if is_active c then (c, (text_or_empty c.response_id, false)) else (
      record c {
        response_requested = false;
        response_generation = c.response_generation + 1;
        response_id = some (new_response_id response_hex);
        response_status = some in_progress;
        assistant_item_id = some (new_item_id item_hex);
        assistant_transcript = [];
        output_item_announced = false;
        content_part_announced = false;
        transcript_done_emitted = false;
        audio_done_emitted = false;
      },
      (new_response_id response_hex, true),
    )

unfoldable pub request_response : ConversationState → ConversationState × Bool
request_response c =
    if c.response_requested || is_in_progress c.response_status
    then (c, false)
    else (record c { response_requested = true }, true)

unfoldable pub release_response_request : ConversationState → ConversationState
release_response_request c =
    if is_in_progress c.response_status then c else record c { response_requested = false }

-- `if self.assistant_item_id: self.item_transcripts[self.assistant_item_id] = …`
note_transcript : Option Text → ConversationState → ConversationState
note_transcript none c = c
note_transcript (some item_id) c =
    if is_empty item_id
    then c
    else record c { item_transcripts = Dict.put c.item_transcripts item_id c.assistant_transcript }

unfoldable pub append_assistant_transcript :
    Text → Text → Text → ConversationState → ConversationState
unfolding begin_response note_transcript
append_assistant_transcript response_hex item_hex text c =
    let c₁ = (begin_response response_hex item_hex c).0 in
    let c₂ = record c₁ { assistant_transcript = c₁.assistant_transcript ++ text } in
    if is_empty text then c else note_transcript c₂.assistant_item_id c₂

snapshot : Status → ConversationState → ResponseSnapshot
snapshot status c = record {
  generation = c.response_generation;
  response_id = text_or_empty c.response_id;
  item_id = c.assistant_item_id;
  transcript = c.assistant_transcript;
  status = status;
  audio_done_emitted = c.audio_done_emitted;
  transcript_done_emitted = c.transcript_done_emitted;
}

unfoldable pub complete_response :
    Status → ConversationState → ConversationState × Option ResponseSnapshot
unfolding note_transcript snapshot open_client_text
complete_response status c =
    let c₁ = if is_empty c.assistant_transcript then c else note_transcript c.assistant_item_id c in
    if is_active c
    then (open_client_text (record c₁ { response_status = some status }), some (snapshot status c₁))
    else (c, none)

-- `generation is not None and generation != self.response_generation`
abbrev is_stale : Option ℕ → ℕ → Bool
is_stale none current = false
is_stale (some g) current = not (g == current)

unfoldable pub reset_response_slot : Option ℕ → ConversationState → ConversationState
reset_response_slot generation c =
    if is_stale generation c.response_generation then c else record c {
      response_id = none;
      response_status = none;
      response_requested = false;
      assistant_item_id = none;
      assistant_transcript = [];
      output_item_announced = false;
      content_part_announced = false;
      transcript_done_emitted = false;
      audio_done_emitted = false;
    }
