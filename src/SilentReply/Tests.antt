-- ===== src/SilentReply/Tests.antt =====
-- Tests of the silent reply filter on concrete frames (src/examples/generic/silent_reply.py).
use nemotron_voice_agent.Base.{◌≡◌, refl, true, [], ◌∷◌, ◌++◌, filter, codes, map}
use nemotron_voice_agent.SilentReply.{
  response_start, response_end, llm_text, system, push_frame, push_marked, idle, process_all,
  is_silence_reply,
}
use nemotron_voice_agent.SilentReply.Order.{IsSound, process_all-order, idle-IsSound}
use nemotron_voice_agent.SilentReply.Frames.{in_order, is_system, frames}
use nemotron_voice_agent.SilentReply.Replies.{pieces, process_all-reply}
use mathlib.Core.List.{flatten}

dots :
    process_all idle
      (response_start ∷ llm_text (codes ".") ∷ system 1 ∷ llm_text (codes "..") ∷ response_end ∷ [])
    ≡ (
      push_frame (system 1)
          ∷ push_marked true response_start
          ∷ push_marked true (llm_text (codes "."))
          ∷ push_marked true (llm_text (codes ".."))
          ∷ push_marked true response_end
          ∷ [],
      idle,
    )
unfolding process_all
dots = refl

words :
    process_all idle
      (response_start ∷ llm_text (codes ".") ∷ llm_text (codes "a") ∷ response_end ∷ [])
    ≡ (
      push_frame response_start
          ∷ push_frame (llm_text (codes "."))
          ∷ push_frame (llm_text (codes "a"))
          ∷ push_frame response_end
          ∷ [],
      idle,
    )
unfolding process_all
words = refl

process_all-order_example :
    let (out, s') = process_all idle (response_start ∷ llm_text (codes ".") ∷ system 1 ∷ []) in
    (filter in_order (frames out) ++ s'.held
      ≡ [] ++ filter in_order (response_start ∷ llm_text (codes ".") ∷ system 1 ∷ []))
    × (filter is_system (frames out)
        ≡ filter is_system (response_start ∷ llm_text (codes ".") ∷ system 1 ∷ []))
    × (filter is_system s'.held ≡ [])
    × IsSound s'
process_all-order_example =
    process_all-order idle (response_start ∷ llm_text (codes ".") ∷ system 1 ∷ [])
      (tt, (tt, (tt, tt))) idle-IsSound

process_all-reply_example :
    process_all idle (response_start ∷ pieces (codes "." ∷ codes ".." ∷ [])) ≡ (
      map
          (push_marked (is_silence_reply (flatten (codes "." ∷ codes ".." ∷ []))))
          (response_start ∷ pieces (codes "." ∷ codes ".." ∷ [])),
      idle,
    )
process_all-reply_example = process_all-reply (codes "." ∷ codes ".." ∷ [])
