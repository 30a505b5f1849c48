-- ===== src/Realtime/Conversation/Turns.antt =====
-- User turns and the audio clock (src/realtime/conversation.py).
use nemotron_voice_agent.Base.{
  ℕ, ◌+◌, ◌*◌, ◌/◌, ◌≤◌, ◌<◌, ◌≡◌, true, false, some, List, [], ◌∷◌, Text, Option-cases, inl, inr,
  arith, max, is_empty,
}
use nemotron_voice_agent.Realtime.Conversation.{
  ConversationState, is_set, text_or_empty, add_input_audio, begin_user_turn, stop_user_turn,
  set_user_transcript, ready_user_transcript, new_item_id, new_item_id,
}
use nemotron_voice_agent.Realtime.Conversation.Invariant.{Inv}
use native.Mathlib.Nat.{le-div_iff_mul-le, div-mul-le_self}

-- With a user item open, the final transcript may arrive before or after the end of speech: the state is
-- then the same, and the same transcript is handed over, under the item id of the turn.
ready-stop-set :
    (hex t : Text) (c : ConversationState)
    → is_set c.user_item_id ≡ true
    → (ready_user_transcript hex (stop_user_turn hex (set_user_transcript hex t c).0).0
        ≡ ready_user_transcript hex (set_user_transcript hex t (stop_user_turn hex c).0).0)
      × ((ready_user_transcript hex (stop_user_turn hex (set_user_transcript hex t c).0).0).1
          ≡ some (text_or_empty c.user_item_id, t))
unfolding ready_user_transcript stop_user_turn set_user_transcript
ready-stop-set hex t c h = (ground arith, ground arith)

-- No transcript is handed over before the end of speech, and none that was not received.
ready_waits :
    (hex : Text) (c : ConversationState) (r : Text × Text)
    → (ready_user_transcript hex c).1 ≡ some r
    → (c.user_turn_stopped ≡ true) × (c.pending_user_transcript ≡ some r.1)
unfolding ready_user_transcript
ready_waits hex c r h = ground arith

-- Appends of the given sizes in bytes, at one rate.
unfoldable audio_all : ℕ → List ℕ → ConversationState → ConversationState
audio_all rate [] c = c
audio_all rate (n ∷ ns) c = audio_all rate ns (add_input_audio n rate c)

abbrev pub samples : List ℕ → ℕ
samples [] = 0
samples (n ∷ ns) = n / 2 + samples ns

-- What appends leave alone, and the samples that they add.
record Hears (rate n : ℕ) (c d : ConversationState) : Type 0 where
  clock : d.input_audio_samples ≡ c.input_audio_samples + n
  same_rate : d.input_sample_rate ≡ rate
  same_item : d.user_item_id ≡ c.user_item_id

audio_all-Hears :
    (rate : ℕ) (ns : List ℕ) (c : ConversationState)
    → 0 < rate
    → c.input_sample_rate ≡ rate
    → Hears rate (samples ns) c (audio_all rate ns c)
unfolding audio_all add_input_audio
audio_all-Hears rate [] c pos h = ground arith
audio_all-Hears rate (n ∷ ns) c pos h =
    ground (arith, audio_all-Hears rate ns (add_input_audio n rate c))

-- A later sample is at no earlier millisecond.
input_ms_mono : (rate a b : ℕ) → a ≤ b → 0 < rate → a * 1000 / rate ≤ b * 1000 / rate
input_ms_mono rate a b h pos =
    (le-div_iff_mul-le pos).1 (omega (arith, div-mul-le_self (a * 1000) rate))

cap_lem : (rate : ℕ) → 0 < rate → max rate 1 ≡ rate
cap_lem rate pos = omega arith

begin_user_turn_lem :
    (hex : Text) (c : ConversationState)
    → Inv c
    → let (d, start) = begin_user_turn hex c in
      (d.user_item_id ≡ some start.0)
      × (is_empty start.0 ≡ false)
      × (d.input_sample_rate ≡ c.input_sample_rate)
      × (d.input_audio_samples ≡ c.input_audio_samples)
      × (start.1 ≤ c.input_audio_samples * 1000 / c.input_sample_rate)
unfolding begin_user_turn new_item_id
begin_user_turn_lem hex c h = (
  ground arith,
  ground arith,
  ground arith,
  ground arith,
  elim (Option-cases c.user_turn_start_sample) [
    | inl e ↦ ground (arith, cap_lem c.input_sample_rate)
    | inr (s, e) ↦ ground (
      arith,
      cap_lem c.input_sample_rate,
      input_ms_mono c.input_sample_rate s c.input_audio_samples,
    )
  ],
)

-- From a state in which the invariant holds: a turn that starts, hears the appends `ns` at the rate of the clock and stops, reports both ends
-- under one item id, the end not before the start, and at the clock's start moved on by the samples
-- heard.
stop-audio_all-begin :
    (ns : List ℕ) (hex hex' : Text) (c : ConversationState)
    → Inv c
    → let (d, start) = begin_user_turn hex c in
      let stop = (stop_user_turn hex' (audio_all c.input_sample_rate ns d)).1 in
      (stop.0 ≡ start.0)
      × (start.1 ≤ stop.1)
      × (stop.1 ≡ (c.input_audio_samples + samples ns) * 1000 / c.input_sample_rate)
unfolding stop_user_turn
stop-audio_all-begin ns hex hex' c h =
    let (d, start) = begin_user_turn hex c in
    let begun = begin_user_turn_lem hex c h in
    let heard = audio_all-Hears c.input_sample_rate ns d h.rate_positive begun.2 in
    let n = c.input_audio_samples in
    let later =
      input_ms_mono c.input_sample_rate n (n + samples ns) (omega arith) h.rate_positive in
    (
      ground arith,
      ground (arith, cap_lem c.input_sample_rate),
      ground (arith, cap_lem c.input_sample_rate),
    )
