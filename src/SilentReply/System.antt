-- ===== src/SilentReply/System.antt =====
-- System frames are passed on at once (src/examples/generic/silent_reply.py).
use mathlib.Core.List.{map-append}
use nemotron_voice_agent.Base.{
  ◌≡◌, refl, sym, ap, ◌∙◌, subst, Bool, true, false, List, [], ◌∷◌, ◌++◌, filter, Bool-cases, inl,
  inr, if◌then◌else◌,
}
use nemotron_voice_agent.SilentReply.Frames.{is_system, frames, frames-release, filter-append}
use nemotron_voice_agent.SilentReply.{
  ReplyFrame, interruption, response_start, response_end, llm_text, system, other, PushedFrame,
  Filter, push_frame, release, hold, pass_on, process_frame, process_all, is_silence_text,
  is_silence_reply,
}

abbrev NoneHeld : Filter → Type 0
NoneHeld s = filter is_system s.held ≡ []

-- A step pushes the system frame that came, if it was one, and holds none.
abbrev Passes : ReplyFrame → List PushedFrame × Filter → Type 0
Passes f (out, s') = (filter is_system (frames out) ≡ filter is_system (f ∷ [])) × NoneHeld s'

-- Held frames that are released with one more.
released :
    (b : Bool) (held : List ReplyFrame) (f : ReplyFrame)
    → filter is_system held ≡ []
    → filter is_system (frames (release b (held ++ f ∷ []))) ≡ filter is_system (f ∷ [])
released b held f q =
    ap (filter is_system) (frames-release b (held ++ f ∷ []))
    ∙ filter-append is_system held (f ∷ [])
    ∙ ap (λ l. l ++ filter is_system (f ∷ [])) q

hold-Passes : (s : Filter) (f : ReplyFrame) → NoneHeld s → Passes f (hold s f)
unfolding hold filter
hold-Passes s interruption q = (refl, refl)
hold-Passes s response_start q = (ap (filter is_system) (frames-release false s.held) ∙ q, refl)
hold-Passes s (system k) q = (refl, q)
hold-Passes s (llm_text t) q = elim (Bool-cases (is_silence_text (s.text ++ t))) [
  | inl e ↦ rw e (refl, filter-append is_system s.held (llm_text t ∷ []) ∙ ap (λ l. l ++ []) q)
  | inr e ↦ rw e (released false s.held (llm_text t) q, refl)
]
hold-Passes s response_end q = (released (is_silence_reply s.text) s.held response_end q, refl)
hold-Passes s (other k) q = (
  ap (filter is_system) (
        map-append (λ (p : PushedFrame). p.frame) (release false s.held) (push_frame (other k) ∷ [])
        ∙ ap (λ l. l ++ other k ∷ []) (frames-release false s.held))
      ∙ filter-append is_system s.held (other k ∷ [])
      ∙ ap (λ l. l ++ []) q,
  refl,
)

pass_on-Passes : (s : Filter) (f : ReplyFrame) → NoneHeld s → Passes f (pass_on s f)
unfolding filter
pass_on-Passes s interruption q = (refl, refl)
pass_on-Passes s response_start q = (ap (filter is_system) (frames-release false s.held) ∙ q, refl)
pass_on-Passes s response_end q = (refl, q)
pass_on-Passes s (llm_text t) q = (refl, q)
pass_on-Passes s (system k) q = (refl, q)
pass_on-Passes s (other k) q = (refl, q)

process_frame-Passes :
    (s : Filter) (f : ReplyFrame) → NoneHeld s → Passes f (process_frame s true f)
unfolding process_frame
process_frame-Passes s f q = elim (Bool-cases s.holding) [
  | inl e ↦ subst (λ b. Passes f (if b then hold s f else pass_on s f)) (sym e) (hold-Passes s f q)
  | inr e ↦
      subst (λ b. Passes f (if b then hold s f else pass_on s f)) (sym e) (pass_on-Passes s f q)
]

pub process_all-system :
    (s : Filter) (fs : List ReplyFrame)
    → filter is_system s.held ≡ []
    → let (out, s') = process_all s fs in
      (filter is_system (frames out) ≡ filter is_system fs) × (filter is_system s'.held ≡ [])
unfolding process_all filter
process_all-system s [] q = (refl, q)
process_all-system s (f ∷ fs) q =
    let step = process_frame-Passes s f q in
    let r = process_frame s true f in
    let rest = process_all-system r.1 fs step.1 in
    let last = process_all r.1 fs in
    (
      ap (filter is_system) (map-append (λ (p : PushedFrame). p.frame) r.0 last.0)
          ∙ filter-append is_system (frames r.0) (frames last.0)
          ∙ ap (λ l. l ++ filter is_system (frames last.0)) step.0
          ∙ ap (λ l. filter is_system (f ∷ []) ++ l) rest.0
          ∙ sym (filter-append is_system (f ∷ []) fs),
      rest.1,
    )
