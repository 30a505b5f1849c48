-- ===== src/JsonStream/Extend.antt =====
-- The loop over a buffer to which text is added (src/examples/shared/json_stream.py).
use mathlib.Core.Option.{some-injective}
use nemotron_voice_agent.Base.{
  ℕ, zero, suc, ◌+◌, ◌≤◌, ◌≡◌, ◌≢◌, refl, sym, ap, ◌∙◌, Option, none, some, [], ◌∷◌, ◌++◌, Text,
  lstrip, length, ◌==◌, arith, Bool-cases, Option-cases, inl, inr, if◌then◌else◌,
}
use nemotron_voice_agent.JsonStream.{
  Streamer, Phase, search, colon, quote, in_string, Round, again, out, after_needle, at_search,
  at_colon, at_quote, round_at, advance, is_in_string, last_chars,
}
use nemotron_voice_agent.JsonStream.Search.{
  joined, lstrip-append, after_needle-some, after_needle-none, last_chars-append,
}
use nemotron_voice_agent.JsonStream.Total.{IsOutside, Round-cases, Falls, bound, round_at-Falls}

-- More text in the buffer.
abbrev pub more : Text → Streamer → Streamer
more b s = record s { buffer = s.buffer ++ b }

-- What a round does with more text, from what it did without.
abbrev extend : Text → Round → Round
extend b (again s) = again (more b s)
extend b (out text s) =
    if is_in_string s.phase then out (text ++ b) s else round_at s.phase (more b s)

at_quote-buffer :
    (p : Phase) (b : Text) (s : Streamer) (y : Text)
    → at_quote (record s { phase = p; buffer = b }) y ≡ at_quote s y
at_quote-buffer p b s [] = refl
at_quote-buffer p b s (c ∷ r) = refl

at_colon-buffer :
    (p : Phase) (b : Text) (s : Streamer) (y : Text)
    → at_colon (record s { phase = p; buffer = b }) y ≡ at_colon s y
at_colon-buffer p b s [] = refl
at_colon-buffer p b s (c ∷ r) =
    ap (λ t. if c == b':' then t else again (record s { phase = search; buffer = c ∷ r }))
      (at_quote-buffer p b s (lstrip r))

at_search-buffer :
    (p q : Phase) (b d : Text) (s : Streamer) (o : Option Text)
    → last_chars (length s.needle) b ≡ last_chars (length s.needle) d
    → at_search (record s { phase = p; buffer = b }) o
      ≡ at_search (record s { phase = q; buffer = d }) o
at_search-buffer p q b d s none e = ap (λ t. out [] (record s { phase = search; buffer = t })) e
at_search-buffer p q b d s (some r) e =
    at_colon-buffer p b s (lstrip r) ∙ sym (at_colon-buffer q d s (lstrip r))

at_quote-extend : (s : Streamer) (y b : Text) → at_quote s (joined y b) ≡ extend b (at_quote s y)
unfolding round_at
at_quote-extend s [] b = sym (at_quote-buffer quote b s (lstrip b))
at_quote-extend s (c ∷ r) b = elim (Bool-cases (c == b'"')) [
  | inl e ↦ rw e refl
  | inr e ↦ rw e refl
]

at_colon-extend : (s : Streamer) (y b : Text) → at_colon s (joined y b) ≡ extend b (at_colon s y)
unfolding round_at
at_colon-extend s [] b = sym (at_colon-buffer colon b s (lstrip b))
at_colon-extend s (c ∷ r) b = elim (Bool-cases (c == b':')) [
  | inl e ↦ rw e (ap (at_quote s) (lstrip-append r b) ∙ at_quote-extend s (lstrip r) b)
  | inr e ↦ rw e refl
]

-- A round over a buffer with more text.
round-extend :
    (p : Phase) (s : Streamer) (b : Text)
    → IsOutside p
    → 1 ≤ length s.needle
    → round_at p (more b s) ≡ extend b (round_at p s)
unfolding round_at
round-extend search s b o h = elim (Option-cases (after_needle s.needle s.buffer)) [
  | inl e ↦
      let n = length s.needle in
      rw e (
        at_search-buffer s.phase search (s.buffer ++ b) (last_chars n s.buffer ++ b) s _
          (sym (last_chars-append n s.buffer b))
        ∙ ap (at_search (record s { phase = search; buffer = last_chars n s.buffer ++ b }))
            (after_needle-none s.needle s.buffer b e))
  | inr (r, e) ↦ rw e (
      rw (after_needle-some s.needle s.buffer b r h e) (
        at_colon-buffer s.phase (s.buffer ++ b) s (lstrip (r ++ b))
        ∙ ap (at_colon s) (lstrip-append r b)
        ∙ at_colon-extend s (lstrip r) b))
]
round-extend colon s b o h =
    at_colon-buffer s.phase (s.buffer ++ b) s (lstrip (s.buffer ++ b))
    ∙ ap (at_colon s) (lstrip-append s.buffer b)
    ∙ at_colon-extend s (lstrip s.buffer) b
round-extend quote s b o h =
    at_quote-buffer s.phase (s.buffer ++ b) s (lstrip (s.buffer ++ b))
    ∙ ap (at_quote s) (lstrip-append s.buffer b)
    ∙ at_quote-extend s (lstrip s.buffer) b
round-extend in_string s b o h = absurd o

advance-again :
    (f : ℕ) (s s' : Streamer) → round_at s.phase s ≡ again s' → advance (suc f) s ≡ advance f s'
unfolding advance
advance-again f s s' e = rw (e, advance) refl

pub advance-out :
    (f : ℕ) (s s' : Streamer) (text : Text)
    → round_at s.phase s ≡ out text s'
    → advance (suc f) s ≡ some (text, s')
unfolding advance
advance-out f s s' text e = rw (e, advance) refl

advance-same :
    (f : ℕ) (s t : Streamer)
    → round_at s.phase s ≡ round_at t.phase t
    → advance (suc f) s ≡ advance (suc f) t
advance-same f s t e = elim (Round-cases (round_at t.phase t)) [
  | inl (t', e') ↦ advance-again f s t' (e ∙ e') ∙ sym (advance-again f t t' e')
  | inr (text, t', e') ↦ advance-out f s t' text (e ∙ e') ∙ sym (advance-out f t t' text e')
]

-- More fuel changes no result.
pub advance-more :
    (f k : ℕ) (s : Streamer) (r : Text × Streamer)
    → advance f s ≡ some r
    → advance (f + k) s ≡ some r
advance-more zero k s r e = absurd (never e)
  where
    never : advance zero s ≢ some r
    never = unfold advance in (λ h. cc)
advance-more (suc f) k s r e =
    let z : suc f + k ≡ suc (f + k) = omega arith in
    rw z (elim (Round-cases (round_at s.phase s)) [
      | inl (s', q) ↦
          advance-again (f + k) s s' q ∙ advance-more f k s' r (sym (advance-again f s s' q) ∙ e)
      | inr (text, s', q) ↦ advance-out (f + k) s s' text q ∙ sym (advance-out f s s' text q) ∙ e
    ])

abbrev pub continued : ℕ → Text → Text × Streamer → Option (Text × Streamer)
continued g b (text, s) = if is_in_string s.phase then some (text ++ b, s) else advance g (more b s)

pub some_ap {ℓ κ} : {A : Type ℓ} {B : Type κ} {a b : A} (f : A → B) → some a ≡ some b → f a ≡ f b
some_ap {a} {b} f e = ap f (some-injective a b e)

last_round :
    (f g : ℕ) (s : Streamer) (b : Text) (r : Text × Streamer) (text : Text) (s' : Streamer)
    → round_at s.phase (more b s) ≡ extend b (out text s')
    → continued g b (text, s') ≡ some r
    → advance (suc (f + g)) (more b s) ≡ some r
last_round f g s b r text s' e e' = elim (Bool-cases (is_in_string s'.phase)) [
  | inl i ↦ advance-out (f + g) (more b s) s' (text ++ b) (rw i at e) ∙ (rw i at e')
  | inr i ↦
      let z : suc (f + g) ≡ g + suc f = omega arith in
      advance-same (f + g) (more b s) (more b s') (rw i at e)
      ∙ (rw z (advance-more g (suc f) (more b s') r (rw i at e')))
]

-- What the loop does with more text in the buffer, from its end without.
pub advance-extend :
    (f g : ℕ) (s : Streamer) (b : Text) (o r : Text × Streamer)
    → IsOutside s.phase
    → 1 ≤ length s.needle
    → advance f s ≡ some o
    → continued g b o ≡ some r
    → advance (f + g) (more b s) ≡ some r
advance-extend zero g s b o r out_side h e e' = absurd (never e)
  where
    never : advance zero s ≢ some o
    never = unfold advance in (λ h. cc)
advance-extend (suc f) g s b o r out_side h e e' =
    let z : suc f + g ≡ suc (f + g) = omega arith in
    let ext = round-extend s.phase s b out_side h in
    rw z (elim (Round-cases (round_at s.phase s)) [
      | inl (s', q) ↦
          let falls : Falls s.needle (bound s.phase (length s.buffer)) (again s') =
            rw q at (round_at-Falls s.phase s out_side h) in
          advance-again (f + g) (more b s) (more b s') (ext ∙ ap (extend b) q)
          ∙ advance-extend f g s' b o r (rw falls.0 tt) (rw falls.2 h)
              (sym (advance-again f s s' q) ∙ e) e'
      | inr (text, s', q) ↦
          let ended = sym (advance-out f s s' text q) ∙ e in
          last_round f g s b r text s' (ext ∙ ap (extend b) q) (some_ap (continued g b) ended ∙ e')
    ])
