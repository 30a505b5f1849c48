-- ===== src/SilentReply/Frames.antt =====
-- The frames of a push, and those of them that the filter may hold (src/examples/generic/silent_reply.py).
use nemotron_voice_agent.Base.{
  ◌≤◌, ◌≡◌, refl, sym, ap, ◌∙◌, Bool, true, false, not, List, [], ◌∷◌, ◌++◌, map, filter, length,
  drop, arith, Bool-cases, inl, inr,
}
use nemotron_voice_agent.SilentReply.{ReplyFrame, system, PushedFrame, release}

-- All but the system frames keep their order.
abbrev pub in_order : ReplyFrame → Bool
in_order (system n) = false
in_order _ = true

-- The system frames.
abbrev pub is_system : ReplyFrame → Bool
is_system f = not (in_order f)

abbrev pub frames : List PushedFrame → List ReplyFrame
frames out = map (λ p. p.frame) out

pub frames-release : (b : Bool) (held : List ReplyFrame) → frames (release b held) ≡ held
frames-release b [] = refl
frames-release b (f ∷ fs) = ap (λ r. f ∷ r) (frames-release b fs)

pub filter-append {ℓ} :
    {A : Type ℓ} (p : A → Bool) (xs ys : List A) → filter p (xs ++ ys) ≡ filter p xs ++ filter p ys
unfolding filter
filter-append p [] ys = refl
filter-append p (x ∷ xs) ys = elim (Bool-cases (p x)) [
  | inl e ↦ rw e (ap (λ l. x ∷ l) (filter-append p xs ys))
  | inr e ↦ rw e (filter-append p xs ys)
]

length-filter {ℓ} : {A : Type ℓ} (p : A → Bool) (xs : List A) → length (filter p xs) ≤ length xs
unfolding filter
length-filter p [] = omega arith
length-filter p (x ∷ xs) = elim (Bool-cases (p x)) [
  | inl e ↦ rw e (omega (arith, length-filter p xs))
  | inr e ↦ rw e (omega (arith, length-filter p xs))
]

-- Frames that are all in order have no system frame among them.
pub no_system : (fs : List ReplyFrame) → filter in_order fs ≡ fs → filter is_system fs ≡ []
unfolding filter
no_system [] h = refl
no_system (f ∷ fs) h = elim (Bool-cases (in_order f)) [
  | inl e ↦
      let first : filter in_order (f ∷ fs) ≡ f ∷ filter in_order fs = rw e refl in
      rw e (no_system fs (ap (drop 1) (sym first ∙ h)))
  | inr e ↦
      let shorter : filter in_order (f ∷ fs) ≡ filter in_order fs = rw e refl in
      absurd (omega (arith, length-filter in_order fs, ap length (sym shorter ∙ h)))
]
