-- ===== src/SilentReply/Replies.antt =====
-- Which replies the filter keeps from being spoken (src/examples/generic/silent_reply.py).
use mathlib.Core.List.{map-append, flatten}
use nemotron_voice_agent.Base.{
  ◌≡◌, refl, sym, ap, ◌∙◌, Bool, true, false, ◌&&◌, ◌||◌, not, List, [], ◌∷◌, ◌++◌, append_assoc,
  append-nil, map, Text, strip, is_empty, is_space, ◌==◌, Bool-cases, inl, inr,
}
use nemotron_voice_agent.SilentReply.{
  ReplyFrame, response_start, response_end, llm_text, PushedFrame, Filter, idle, push_frame,
  push_marked, release, hold, process_frame, process_all, is_silence_text, is_silence_reply,
}

is_silence_text-append :
    (t u : Text) → is_silence_text (t ++ u) ≡ (is_silence_text t && is_silence_text u)
unfolding is_silence_text
is_silence_text-append [] u = refl
is_silence_text-append (c ∷ t) u = elim (Bool-cases (c == b'.' || c == 8230 || is_space c)) [
  | inl e ↦ rw e (is_silence_text-append t u)
  | inr e ↦ rw e refl
]

and_false : (b : Bool) → (b && false) ≡ false
and_false true = refl
and_false false = refl

not_silence : (t u : Text) → is_silence_text t ≡ false → is_silence_reply (t ++ u) ≡ false
unfolding is_silence_reply
not_silence t u h =
    ap (λ b. not (is_empty (strip (t ++ u))) && b) (is_silence_text-append t u ∙ rw h refl)
    ∙ and_false _

-- The pieces of a reply and its end.
abbrev pub pieces : List Text → List ReplyFrame
pieces ts = map llm_text ts ++ response_end ∷ []

abbrev speaking : List ReplyFrame → Text → Filter
speaking held text = record { held = held; holding = true; text = text }

process_all-idle :
    (ts : List Text) → process_all idle (pieces ts) ≡ (map push_frame (pieces ts), idle)
unfolding process_all process_frame
process_all-idle [] = refl
process_all-idle (t ∷ ts) =
    ap (λ (r : List PushedFrame × Filter). (push_frame (llm_text t) ∷ r.0, r.1))
      (process_all-idle ts)

process_all-speaking :
    (ts : List Text) (held : List ReplyFrame) (text : Text)
    → process_all (speaking held text) (pieces ts)
      ≡ (release (is_silence_reply (text ++ flatten ts)) (held ++ pieces ts), idle)
unfolding process_all process_frame hold flatten
process_all-speaking [] held text =
    ap (λ (l : List PushedFrame). (l, idle)) (append-nil _)
    ∙ ap (λ t. (release (is_silence_reply t) (held ++ response_end ∷ []), idle))
        (sym (append-nil text))
process_all-speaking (t ∷ ts) held text = elim (Bool-cases (is_silence_text (text ++ t))) [
  | inl e ↦ rw e (
      process_all-speaking ts (held ++ llm_text t ∷ []) (text ++ t)
      ∙ ap (λ u. (release (is_silence_reply u) ((held ++ llm_text t ∷ []) ++ pieces ts), idle))
          (append_assoc text t (flatten ts))
      ∙ ap (λ l. (release (is_silence_reply (text ++ (t ++ flatten ts))) l, idle))
          (append_assoc held (llm_text t ∷ []) (pieces ts)))
  | inr e ↦ rw e (
      ap (λ (r : List PushedFrame × Filter). (release false (held ++ llm_text t ∷ []) ++ r.0, r.1))
        (process_all-idle ts)
      ∙ ap (λ (l : List PushedFrame). (l, idle))
          (sym (map-append push_frame (held ++ llm_text t ∷ []) (pieces ts))
            ∙ ap (release false) (append_assoc held (llm_text t ∷ []) (pieces ts)))
      ∙ ap (λ b. (release b (held ++ pieces (t ∷ ts)), idle))
          (sym (not_silence (text ++ t) (flatten ts) e)
            ∙ ap is_silence_reply (append_assoc text t (flatten ts))))
]

-- A whole reply is pushed with nothing left behind, and its frames are kept from being spoken, all of
-- them, just where the reply is the silence sentinel, however it is cut into pieces.
pub process_all-reply :
    (ts : List Text)
    → process_all idle (response_start ∷ pieces ts)
      ≡ (map (push_marked (is_silence_reply (flatten ts))) (response_start ∷ pieces ts), idle)
unfolding process_all process_frame
process_all-reply ts = process_all-speaking ts (response_start ∷ []) []
