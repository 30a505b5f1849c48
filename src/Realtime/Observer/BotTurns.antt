-- ===== src/Realtime/Observer/BotTurns.antt =====
-- The transcript of a bot turn (src/realtime/observer.py).
use nemotron_voice_agent.Base.{
  ℕ, ◌≡◌, refl, sym, ap, ◌∙◌, true, false, Option, some, List, [], ◌∷◌, ◌++◌, map, Text, arith,
  append_assoc, append-nil, is_empty, ends_with, Bool-cases, inl, inr, if◌then◌else◌,
}
use nemotron_voice_agent.Realtime.Conversation.{
  ConversationState, ResponseSnapshot, completed, is_active, is_in_progress, text_or_empty,
  complete_response,
}
use nemotron_voice_agent.Realtime.Conversation.Responses.{concat}
use nemotron_voice_agent.Realtime.World.{Schedule, alone}
use nemotron_voice_agent.Realtime.Lifecycle.{Telemetry}
use nemotron_voice_agent.Realtime.Lifecycle.Announce.{IsAnnounced}
use nemotron_voice_agent.Realtime.Lifecycle.Finish.{finish_payloads, sent-finish_response}
use nemotron_voice_agent.Realtime.Observer.{
  tts_text, llm_text, llm_end, Observer, on_tts_text, on_llm_text, current_buffer, flush_buffer,
  handle_frame, finish,
}
use nemotron_voice_agent.Realtime.Observer.UserEvents.{handle_all}
use nemotron_voice_agent.Realtime.Observer.Pieces.{
  flush_buffer_lem, flush_buffer-IsAnnounced, llm_text_lem, tts_repeated, tts_new,
}

current_grown :
    (t b : Text) (o o₁ : Observer)
    → o₁.world.conversation ≡ o.world.conversation
    → o₁.llm_text_buffer ≡ b ++ t
    → o₁.llm_text_generation
      ≡ (if is_empty t then o.llm_text_generation else o.world.conversation.response_generation)
    → o.llm_text_buffer ≡ b
    → current_buffer o ≡ b
    → current_buffer o₁ ≡ b ++ t
unfolding current_buffer
current_grown [] b o o₁ c e g f h =
    ground (arith, append-nil b, ap (λ (c : ConversationState). c.response_generation) c)
current_grown (x ∷ t) b o o₁ c e g f h =
    ground (arith, ap (λ (c : ConversationState). c.response_generation) c)

current_empty : (o : Observer) → o.llm_text_buffer ≡ [] → current_buffer o ≡ []
unfolding current_buffer
current_empty o e = ground arith

complete_active :
    (c : ConversationState)
    → is_active c ≡ true
    → (snap : ResponseSnapshot) × ((complete_response completed c).1 ≡ some snap)
      × (snap.transcript ≡ c.assistant_transcript)
      × (snap.status ≡ completed)
      × (snap.response_id ≡ text_or_empty c.response_id)
unfolding complete_response
complete_active c a = (
  record {
    generation = c.response_generation;
    response_id = text_or_empty c.response_id;
    item_id = c.assistant_item_id;
    transcript = c.assistant_transcript;
    status = completed;
    audio_done_emitted = c.audio_done_emitted;
    transcript_done_emitted = c.transcript_done_emitted;
  },
  ground arith,
  refl,
  refl,
  refl,
)

active-in_progress :
    (c : ConversationState) → is_active c ≡ true → is_in_progress c.response_status ≡ true
active-in_progress c a = ground arith

finish-sent :
    (s : Schedule) (telemetry : Option Telemetry) (o : Observer) (snap : ResponseSnapshot)
    → is_in_progress o.world.conversation.response_status ≡ true
    → (complete_response completed (flush_buffer s o).conversation).1 ≡ some snap
    → (handle_frame s telemetry (llm_end true) o).world.sent
      ≡ (flush_buffer s o).sent ++ finish_payloads snap telemetry
unfolding handle_frame finish
finish-sent s telemetry o snap live h =
    rw live (sent-finish_response s completed telemetry (flush_buffer s o) snap h).1

-- The transcript `acc` after the spoken pieces: a piece that it ends with already is dropped.
unfoldable pub spoken : Text → List Text → Text
spoken acc [] = acc
spoken acc (t ∷ ts) = spoken (if ends_with acc t then acc else acc ++ t) ts

module _ (uuid : ℕ → Text) where
  tts_piece :
      (t : Text) (o : Observer)
      → IsAnnounced o.world.conversation
      → let acc = o.world.conversation.assistant_transcript in
        IsAnnounced (on_tts_text (alone uuid) t o).world.conversation
        × ((on_tts_text (alone uuid) t o).world.conversation.assistant_transcript
            ≡ (if ends_with acc t then acc else acc ++ t))
  tts_piece [] o a = unfold on_tts_text ends_with in (a, refl)
  tts_piece (x ∷ t) o a =
      elim (Bool-cases (ends_with o.world.conversation.assistant_transcript (x ∷ t))) [
        | inl e ↦
            let step = tts_repeated (alone uuid) (λ n. refl) (x ∷ t) o a refl e in
            rw (step.0, e) (a, refl)
        | inr e ↦
            let step = tts_new (alone uuid) (λ n. refl) (x ∷ t) o a refl e in rw e (step.0, step.1)
      ]

  -- With no other task running: while an announced response is spoken in the pieces `ts`, it stays
  -- announced and its transcript grows by each piece that is not a repeat of its end.
  pub transcript-tts_text :
      (ts : List Text) (o : Observer)
      → IsAnnounced o.world.conversation
      → let o' = handle_all uuid (map tts_text ts) o in
        IsAnnounced o'.world.conversation
        × (o'.world.conversation.assistant_transcript
            ≡ spoken o.world.conversation.assistant_transcript ts)
  unfolding handle_all handle_frame spoken
  transcript-tts_text [] o a = (a, refl)
  transcript-tts_text (t ∷ ts) o a =
      let first = tts_piece t o a in
      let rest = transcript-tts_text ts (on_tts_text (alone uuid) t o) first.0 in
      (rest.0, rest.1 ∙ ap (λ (x : Text). spoken x ts) first.1)

  llm_pieces :
      (ts : List Text) (b : Text) (o : Observer)
      → IsAnnounced o.world.conversation
      → o.llm_text_buffer ≡ b
      → current_buffer o ≡ b
      → let o' = handle_all uuid (map llm_text ts) o in
        (o'.world.conversation ≡ o.world.conversation)
        × (current_buffer o' ≡ b ++ concat ts)
        × (o'.bot_transcript_from_tts ≡ o.bot_transcript_from_tts)
  unfolding handle_all handle_frame
  llm_pieces [] b o a e f = (refl, f ∙ sym (append-nil b), refl)
  llm_pieces (t ∷ ts) b o a e f =
      let first = llm_text_lem (alone uuid) (λ n. refl) t o a in
      let o₁ = on_llm_text (alone uuid) t o in
      let grown : o₁.llm_text_buffer ≡ b ++ t = first.1 ∙ ap (λ (x : Text). x ++ t) e in
      let current : current_buffer o₁ ≡ b ++ t = current_grown t b o o₁ first.0 grown first.3 e f in
      let rest = llm_pieces ts (b ++ t) o₁ (rw first.0 a) grown current in
      (rest.0 ∙ first.0, rest.1 ∙ append_assoc b t (concat ts), rest.2 ∙ first.2)

  -- With no other task running, from an announced response with nothing spoken or buffered: when the
  -- model's whole answer comes in the pieces `ts` and none of it
  -- is spoken, the response ends completed, under its own id, with all the pieces as its transcript.
  pub silent_turn :
      (telemetry : Option Telemetry) (ts : List Text) (o : Observer)
      → IsAnnounced o.world.conversation
      → o.world.conversation.assistant_transcript ≡ []
      → o.llm_text_buffer ≡ []
      → o.bot_transcript_from_tts ≡ false
      → let o' = handle_all uuid (map llm_text ts) o in
        (snap : ResponseSnapshot) × (snap.transcript ≡ concat ts)
        × (snap.status ≡ completed)
        × (snap.response_id ≡ text_or_empty o.world.conversation.response_id)
        × ((handle_frame (alone uuid) telemetry (llm_end true) o').world.sent
            ≡ (flush_buffer (alone uuid) o').sent ++ finish_payloads snap telemetry)
  silent_turn telemetry ts o a e b n =
      let o' = handle_all uuid (map llm_text ts) o in
      let heard = llm_pieces ts [] o a b (current_empty o b) in
      let flushed = flush_buffer-IsAnnounced (alone uuid) (λ k. refl) o' (rw heard.0 a) in
      let text =
        flush_buffer_lem (alone uuid) (λ k. refl) o' (rw heard.0 a)
          (ap (λ (c : ConversationState). c.assistant_transcript) heard.0 ∙ e) (heard.2 ∙ n) in
      let done = complete_active (flush_buffer (alone uuid) o').conversation flushed.0.0 in
      (
        done.0,
        done.2 ∙ text ∙ heard.1,
        done.3,
        done.4
            ∙ ap text_or_empty (flushed.1 ∙ ap (λ (c : ConversationState). c.response_id) heard.0),
        finish-sent (alone uuid) telemetry o' done.0
            (active-in_progress o'.world.conversation (rw heard.0 a.0)) done.1,
      )
