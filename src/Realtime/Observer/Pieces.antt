-- ===== src/Realtime/Observer/Pieces.antt =====
-- One piece of a bot turn in an announced response (src/realtime/observer.py), with no other task running.
use nemotron_voice_agent.Base.{
  ◌+◌, ◌≡◌, refl, sym, ap, ◌∙◌, true, false, not, ◌&&◌, [], ◌∷◌, ◌++◌, Text, arith, append-nil,
  is_empty, ends_with, Bool-cases, inl, inr, if◌then◌else◌,
}
use nemotron_voice_agent.Realtime.Conversation.{
  ConversationState, append_assistant_transcript, begin_response,
}
use nemotron_voice_agent.Realtime.World.{Schedule, World, emit_with_aliases, IsQuiet}
use nemotron_voice_agent.Realtime.World.Emits.{conversation-emit_all-IsQuiet}
use nemotron_voice_agent.Realtime.Lifecycle.{announce_response}
use nemotron_voice_agent.Realtime.Lifecycle.Announce.{IsAnnounced, announce_response_lem}
use nemotron_voice_agent.Realtime.Observer.{
  Observer, on_tts_text, on_llm_text, ensure_response_announced, current_buffer, flush_buffer,
  emit_transcript_delta,
}

-- The conversation that an announcement leaves when the response is announced already.
announced_again :
    (s : Schedule) (w : World)
    → IsQuiet s
    → IsAnnounced w.conversation
    → (announce_response s w).0.conversation ≡ w.conversation
unfolding begin_response
announced_again s w q a = rw (announce_response_lem s w q).1 (ground arith)

pub appended :
    (r i t : Text) (c : ConversationState)
    → IsAnnounced c
    → is_empty t ≡ false
    → IsAnnounced (append_assistant_transcript r i t c)
      × ((append_assistant_transcript r i t c).response_id ≡ c.response_id)
      × ((append_assistant_transcript r i t c).assistant_transcript ≡ c.assistant_transcript ++ t)
unfolding append_assistant_transcript begin_response
appended r i t c a e = ground arith

delta_quiet :
    (s : Schedule) (t : Text) (w : World)
    → IsQuiet s
    → (emit_transcript_delta s t w).conversation ≡ w.conversation
unfolding emit_transcript_delta emit_with_aliases
delta_quiet s t w q = conversation-emit_all-IsQuiet s _ w q

module _ (s : Schedule) (q : IsQuiet s) where
  pub flush_buffer_lem :
      (o : Observer)
      → IsAnnounced o.world.conversation
      → o.world.conversation.assistant_transcript ≡ []
      → o.bot_transcript_from_tts ≡ false
      → (flush_buffer s o).conversation.assistant_transcript ≡ current_buffer o
  unfolding flush_buffer
  flush_buffer_lem o a e n = elim (Bool-cases (is_empty (current_buffer o))) [
    | inl b ↦
        let skip : (not o.bot_transcript_from_tts
              && (not (is_empty (current_buffer o))
                  && is_empty o.world.conversation.assistant_transcript))
            ≡ false =
          ground arith in
        rw skip (ground arith)
    | inr b ↦
        let take : (not o.bot_transcript_from_tts
              && (not (is_empty (current_buffer o))
                  && is_empty o.world.conversation.assistant_transcript))
            ≡ true =
          ground arith in
        rw take (
          ap (λ (c : ConversationState). c.assistant_transcript)
            (delta_quiet s (current_buffer o) _ q)
          ∙ (appended [] [] (current_buffer o) o.world.conversation a b).2
          ∙ ap (λ (x : Text). x ++ current_buffer o) e)
  ]

  pub flush_buffer-IsAnnounced :
      (o : Observer)
      → IsAnnounced o.world.conversation
      → IsAnnounced (flush_buffer s o).conversation
        × ((flush_buffer s o).conversation.response_id ≡ o.world.conversation.response_id)
  unfolding flush_buffer
  flush_buffer-IsAnnounced o a =
      elim (Bool-cases (
        not o.bot_transcript_from_tts
        && (not (is_empty (current_buffer o))
            && is_empty o.world.conversation.assistant_transcript))) [
              | inl flushed ↦
                  let full : is_empty (current_buffer o) ≡ false = ground arith in
                  let grown = appended [] [] (current_buffer o) o.world.conversation a full in
                  rw flushed (rw (delta_quiet s (current_buffer o) _ q) (grown.0, grown.1))
              | inr kept ↦ rw kept (a, refl)
            ]

  -- A piece of model text in an announced response goes into the buffer and nowhere else.
  pub llm_text_lem :
      (t : Text) (o : Observer)
      → IsAnnounced o.world.conversation
      → ((on_llm_text s t o).world.conversation ≡ o.world.conversation)
        × ((on_llm_text s t o).llm_text_buffer ≡ o.llm_text_buffer ++ t)
        × ((on_llm_text s t o).bot_transcript_from_tts ≡ o.bot_transcript_from_tts)
        × ((on_llm_text s t o).llm_text_generation ≡ (
            if is_empty t then o.llm_text_generation else o.world.conversation.response_generation))
  unfolding on_llm_text ensure_response_announced
  llm_text_lem [] o a = (refl, sym (append-nil _), refl, refl)
  llm_text_lem (x ∷ t) o a =
      let same = announced_again s o.world q a in
      (same, refl, refl, ap (λ (c : ConversationState). c.response_generation) same)

  -- A piece of spoken text in an announced response that the transcript ends with already.
  pub tts_repeated :
      (t : Text) (o : Observer)
      → IsAnnounced o.world.conversation
      → is_empty t ≡ false
      → ends_with o.world.conversation.assistant_transcript t ≡ true
      → ((on_tts_text s t o).world.conversation ≡ o.world.conversation)
        × ((on_tts_text s t o).bot_transcript_from_tts ≡ true)
  unfolding on_tts_text ensure_response_announced
  tts_repeated t o a f e =
      let same = announced_again s o.world q a in
      let seen = ap (λ (c : ConversationState). ends_with c.assistant_transcript t) same ∙ e in
      rw f (rw seen (same, refl))

  -- Any other piece.
  pub tts_new :
      (t : Text) (o : Observer)
      → IsAnnounced o.world.conversation
      → is_empty t ≡ false
      → ends_with o.world.conversation.assistant_transcript t ≡ false
      → IsAnnounced (on_tts_text s t o).world.conversation
        × ((on_tts_text s t o).world.conversation.assistant_transcript
            ≡ o.world.conversation.assistant_transcript ++ t)
        × ((on_tts_text s t o).bot_transcript_from_tts ≡ true)
  unfolding on_tts_text ensure_response_announced
  tts_new t o a f e =
      let same = announced_again s o.world q a in
      let w = (announce_response s o.world).0 in
      let seen = ap (λ (c : ConversationState). ends_with c.assistant_transcript t) same ∙ e in
      let grown = appended (s.uuid w.uuids) (s.uuid (w.uuids + 1)) t w.conversation (rw same a) f in
      rw f (
        rw seen (
          rw (delta_quiet s t _ q) (
            grown.0,
            grown.2 ∙ ap (λ (c : ConversationState). c.assistant_transcript ++ t) same,
            refl,
          )))
