-- ===== src/SilentReply.antt =====
-- SilentReplyFilter (src/examples/generic/silent_reply.py): the frames of a reply are held until the reply
-- is known to be speech or the silence sentinel.
mod Frames
mod System
pub mod Order
pub mod Replies
mod Tests
use nemotron_voice_agent.Base.{
  ℕ, Bool, true, false, ◌&&◌, ◌||◌, not, List, [], ◌∷◌, ◌++◌, map, Text, strip, is_space, is_empty,
  ◌==◌, if◌then◌else◌,
}

-- The frames that the filter tells apart. The number stands for the frame itself; `system` is any
-- SystemFrame but an interruption, `other` any frame that is none of these.
pub data ReplyFrame : Type 0 where
  interruption : ReplyFrame
  response_start : ReplyFrame
  response_end : ReplyFrame
  llm_text : Text → ReplyFrame
  system : ℕ → ReplyFrame
  other : ℕ → ReplyFrame

-- A frame that is pushed, with whether the filter set `skip_tts` on it.
pub record PushedFrame : Type 0 where
  pub frame : ReplyFrame
  pub skip_tts : Bool

pub record Filter : Type 0 where
  pub held : List ReplyFrame
  pub holding : Bool
  pub text : Text

abbrev pub idle : Filter
idle = record { held = []; holding = false; text = [] }

-- `_SILENCE_TEXT.match(text)`: dots, ellipses and white space only.
unfoldable pub is_silence_text : Text → Bool
unfolding is_space
is_silence_text [] = true
is_silence_text (c ∷ t) = (c == b'.' || c == 8230 || is_space c) && is_silence_text t

unfoldable pub is_silence_reply : Text → Bool
unfolding strip is_silence_text
is_silence_reply text = not (is_empty (strip text)) && is_silence_text text

abbrev pub push_frame : ReplyFrame → PushedFrame
push_frame f = record { frame = f; skip_tts = false }

abbrev pub push_marked : Bool → ReplyFrame → PushedFrame
push_marked b f = record { frame = f; skip_tts = b }

-- `_release`, the frames marked as the flag says.
abbrev pub release : Bool → List ReplyFrame → List PushedFrame
release b held = map (push_marked b) held

-- A frame while a reply is held.
unfoldable pub hold : Filter → ReplyFrame → List PushedFrame × Filter
unfolding is_silence_reply is_silence_text
hold s interruption = (push_frame interruption ∷ [], idle)
hold s response_start =
    (release false s.held, record { held = response_start ∷ []; holding = true; text = [] })
hold s (system n) = (push_frame (system n) ∷ [], s)
hold s (llm_text t) =
    if is_silence_text (s.text ++ t)
    then ([], record s { held = s.held ++ llm_text t ∷ []; text = s.text ++ t })
    else (release false (s.held ++ llm_text t ∷ []), idle)
hold s response_end = (release (is_silence_reply s.text) (s.held ++ response_end ∷ []), idle)
hold s (other n) = (release false s.held ++ push_frame (other n) ∷ [], idle)

-- A frame while none is.
abbrev pub pass_on : Filter → ReplyFrame → List PushedFrame × Filter
pass_on s interruption = (push_frame interruption ∷ [], idle)
pass_on s response_start =
    (release false s.held, record { held = response_start ∷ []; holding = true; text = [] })
pass_on s f = (push_frame f ∷ [], s)

-- `process_frame`; a frame that goes upstream is pushed as it is.
unfoldable pub process_frame : Filter → Bool → ReplyFrame → List PushedFrame × Filter
unfolding hold
process_frame s downstream f =
    if not downstream then (push_frame f ∷ [], s) else if s.holding then hold s f else pass_on s f

-- All that is pushed downstream for some downstream frames.
unfoldable pub process_all : Filter → List ReplyFrame → List PushedFrame × Filter
unfolding process_frame
process_all s [] = ([], s)
process_all s (f ∷ fs) =
    let (out, s') = process_frame s true f in
    let (rest, s'') = process_all s' fs in (out ++ rest, s'')
