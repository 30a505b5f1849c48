-- ===== src/SilentReply/Order.antt =====
-- No frame is lost or overtaken (src/examples/generic/silent_reply.py).
use mathlib.Core.Bool.{false≢true}
use mathlib.Core.List.{map-append}
use nemotron_voice_agent.Base.{
  ◌≡◌, refl, sym, ap, ◌∙◌, subst, Bool, true, false, List, [], ◌∷◌, ◌++◌, append_assoc, append-nil,
  filter, Text, All, Bool-cases, inl, inr, if◌then◌else◌,
}
use nemotron_voice_agent.SilentReply.Frames.{
  in_order, is_system, frames, frames-release, filter-append, no_system,
}
use nemotron_voice_agent.SilentReply.System.{process_all-system}
use nemotron_voice_agent.SilentReply.{
  ReplyFrame, interruption, response_start, response_end, llm_text, system, other, PushedFrame,
  Filter, idle, push_frame, release, hold, pass_on, process_frame, process_all, is_silence_text,
  is_silence_reply,
}

abbrev NoInterruption : ReplyFrame → Type 0
NoInterruption interruption = ⊥
NoInterruption _ = Unit

-- Only a reply is held, and no system frame.
pub record IsSound (s : Filter) : Type 0 where
  pub ordered : filter in_order s.held ≡ s.held
  pub nothing : s.holding ≡ false → s.held ≡ []

-- What one step leaves in order: the pushed and the held frames follow those that were held.
abbrev Follows : Filter → ReplyFrame → List PushedFrame × Filter → Type 0
Follows s f (out, s') =
    (filter in_order (frames out) ++ s'.held ≡ s.held ++ filter in_order (f ∷ [])) × IsSound s'

-- A reply that is released with one more frame.
released :
    (b : Bool) (held : List ReplyFrame) (f : ReplyFrame)
    → filter in_order held ≡ held
    → filter in_order (frames (release b (held ++ f ∷ []))) ≡ held ++ filter in_order (f ∷ [])
released b held f h =
    ap (filter in_order) (frames-release b (held ++ f ∷ []))
    ∙ filter-append in_order held (f ∷ [])
    ∙ ap (λ l. l ++ filter in_order (f ∷ [])) h

pub idle-IsSound : IsSound idle
unfolding filter
idle-IsSound = record { ordered = refl; nothing = λ h. refl }

started-IsSound : IsSound (record { held = response_start ∷ []; holding = true; text = [] })
unfolding filter
started-IsSound = record { ordered = refl; nothing = λ h. absurd (false≢true (sym h)) }

longer-IsSound :
    (s : Filter) (f : ReplyFrame) (text : Text)
    → in_order f ≡ true
    → s.holding ≡ true
    → IsSound s
    → IsSound (record s { held = s.held ++ f ∷ []; text = text })
unfolding filter
longer-IsSound s f text i e h = record {
  ordered =
      filter-append in_order s.held (f ∷ [])
      ∙ ap (λ l. l ++ filter in_order (f ∷ [])) h.ordered
      ∙ rw i refl;
  nothing = λ off. absurd (false≢true (sym off ∙ e));
}

hold-Follows :
    (s : Filter) (f : ReplyFrame)
    → NoInterruption f
    → s.holding ≡ true
    → IsSound s
    → Follows s f (hold s f)
unfolding hold filter
hold-Follows s interruption n e h = absurd n
hold-Follows s response_start n e h = (
  ap (λ l. filter in_order l ++ response_start ∷ []) (frames-release false s.held)
      ∙ ap (λ l. l ++ response_start ∷ []) h.ordered,
  started-IsSound,
)
hold-Follows s (system k) n e h = (sym (append-nil s.held), h)
hold-Follows s (llm_text t) n e h = elim (Bool-cases (is_silence_text (s.text ++ t))) [
  | inl q ↦ rw q (refl, longer-IsSound s (llm_text t) (s.text ++ t) refl e h)
  | inr q ↦ rw q (append-nil _ ∙ released false s.held (llm_text t) h.ordered, idle-IsSound)
]
hold-Follows s response_end n e h =
    (append-nil _ ∙ released (is_silence_reply s.text) s.held response_end h.ordered, idle-IsSound)
hold-Follows s (other k) n e h = (
  append-nil _
      ∙ ap (filter in_order) (
          map-append (λ (p : PushedFrame). p.frame) (release false s.held)
            (push_frame (other k) ∷ []))
      ∙ ap (λ l. filter in_order (l ++ other k ∷ [])) (frames-release false s.held)
      ∙ filter-append in_order s.held (other k ∷ [])
      ∙ ap (λ l. l ++ other k ∷ []) h.ordered,
  idle-IsSound,
)

passed : (f : ReplyFrame) (held : List ReplyFrame) → held ≡ [] → f ∷ held ≡ held ++ f ∷ []
passed f held e = ap (λ l. f ∷ l) e ∙ sym (ap (λ l. l ++ f ∷ []) e)

pass_on-Follows :
    (s : Filter) (f : ReplyFrame)
    → NoInterruption f
    → s.holding ≡ false
    → IsSound s
    → Follows s f (pass_on s f)
unfolding filter
pass_on-Follows s interruption n e h = absurd n
pass_on-Follows s response_start n e h = (
  ap (λ l. filter in_order l ++ response_start ∷ []) (frames-release false s.held)
      ∙ ap (λ l. l ++ response_start ∷ []) h.ordered,
  started-IsSound,
)
pass_on-Follows s response_end n e h = (passed response_end s.held (h.nothing e), h)
pass_on-Follows s (llm_text t) n e h = (passed (llm_text t) s.held (h.nothing e), h)
pass_on-Follows s (system k) n e h = (sym (append-nil s.held), h)
pass_on-Follows s (other k) n e h = (passed (other k) s.held (h.nothing e), h)

process_frame-Follows :
    (s : Filter) (f : ReplyFrame)
    → NoInterruption f
    → IsSound s
    → Follows s f (process_frame s true f)
unfolding process_frame
process_frame-Follows s f n h = elim (Bool-cases s.holding) [
  | inl e ↦
      subst (λ b. Follows s f (if b then hold s f else pass_on s f)) (sym e)
        (hold-Follows s f n e h)
  | inr e ↦
      subst (λ b. Follows s f (if b then hold s f else pass_on s f)) (sym e)
        (pass_on-Follows s f n e h)
]

process_all-Follows :
    (s : Filter) (fs : List ReplyFrame)
    → All NoInterruption fs
    → IsSound s
    → let (out, s') = process_all s fs in
      (filter in_order (frames out) ++ s'.held ≡ s.held ++ filter in_order fs) × IsSound s'
unfolding process_all filter
process_all-Follows s [] n h = (sym (append-nil s.held), h)
process_all-Follows s (f ∷ fs) n h =
    let step = process_frame-Follows s f n.0 h in
    let r = process_frame s true f in
    let rest = process_all-Follows r.1 fs n.1 step.1 in
    let last = process_all r.1 fs in
    (
      ap (λ l. filter in_order l ++ last.1.held)
            (map-append (λ (p : PushedFrame). p.frame) r.0 last.0)
          ∙ ap (λ l. l ++ last.1.held) (filter-append in_order (frames r.0) (frames last.0))
          ∙ append_assoc (filter in_order (frames r.0)) (filter in_order (frames last.0))
              last.1.held
          ∙ ap (λ l. filter in_order (frames r.0) ++ l) rest.0
          ∙ sym (append_assoc (filter in_order (frames r.0)) r.1.held (filter in_order fs))
          ∙ ap (λ l. l ++ filter in_order fs) step.0
          ∙ append_assoc s.held (filter in_order (f ∷ [])) (filter in_order fs)
          ∙ ap (λ l. s.held ++ l) (sym (filter-append in_order (f ∷ []) fs)),
      rest.1,
    )

-- Of any frames without an interruption, those that are not system frames are pushed or still held, all of
-- them and in the order in which they came; the system frames are pushed, all of them and in their order,
-- and none is held.
pub process_all-order :
    (s : Filter) (fs : List ReplyFrame)
    → All NoInterruption fs
    → IsSound s
    → let (out, s') = process_all s fs in
      (filter in_order (frames out) ++ s'.held ≡ s.held ++ filter in_order fs)
      × (filter is_system (frames out) ≡ filter is_system fs)
      × (filter is_system s'.held ≡ [])
      × IsSound s'
process_all-order s fs n h =
    let follows = process_all-Follows s fs n h in
    let passes = process_all-system s fs (no_system s.held h.ordered) in
    (follows.0, passes.0, passes.1, follows.1)
