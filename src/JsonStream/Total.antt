-- ===== src/JsonStream/Total.antt =====
-- The loop of `_advance_to_string` ends (src/examples/shared/json_stream.py).
use nemotron_voice_agent.Base.{
  ℕ, zero, suc, ◌+◌, ◌≤◌, ◌<◌, ◌≡◌, refl, subst, ◌∙◌, false, Option, none, some, List, [], ◌∷◌,
  ◌++◌, Text, starts_with, lstrip, length, length-drop, arith, Bool-cases, inl, inr, Option-cases,
  is_empty, ◌||◌, ◌⊎◌, both, both_else, ◌==◌,
}
use nemotron_voice_agent.JsonStream.{
  Streamer, Phase, search, colon, quote, in_string, Round, again, out, after_needle, at_search,
  at_colon, at_quote, round_at, advance, feed, feed_all, consume, is_in_string, emitted, take_at,
  take_plain, take_unicode, take_char,
}

length-lstrip : (s : Text) → length (lstrip s) ≤ length s
unfolding lstrip
length-lstrip [] = omega arith
length-lstrip (c ∷ s) = ground (arith, length-lstrip s)

-- What follows an occurrence is shorter.
length-after_needle :
    (n s r : Text) → 1 ≤ length n → after_needle n s ≡ some r → length r < length s
unfolding after_needle starts_with
length-after_needle [] s r h e = absurd (omega arith)
length-after_needle (a ∷ n) [] r h e = cc
length-after_needle (a ∷ n) (c ∷ s) r h e =
    ground (arith, length-after_needle (a ∷ n) s r h, length-drop (length n) s)

-- Outside of the string.
abbrev pub IsOutside : Phase → Type 0
IsOutside in_string = ⊥
IsOutside _ = Unit

-- The characters that are left, and one where the phase may fall back to searching.
abbrev pub bound : Phase → ℕ → ℕ
bound search n = n
bound _ n = suc n

-- Another round looks for the same field in fewer than `m` characters.
abbrev pub Falls : Text → ℕ → Round → Type 0
Falls n m (out text s) = s.needle ≡ n
Falls n m (again s) = (s.phase ≡ search) × (length s.buffer < m) × (s.needle ≡ n)

at_quote-Falls : (m : ℕ) (s : Streamer) (b : Text) → length b < m → Falls s.needle m (at_quote s b)
at_quote-Falls m s [] h = refl
at_quote-Falls m s (c ∷ r) h = both (Falls s.needle m) (c == b'"') _ _ refl (refl, h, refl)

at_colon-Falls : (m : ℕ) (s : Streamer) (b : Text) → length b < m → Falls s.needle m (at_colon s b)
at_colon-Falls m s [] h = refl
at_colon-Falls m s (c ∷ r) h =
    both (Falls s.needle m) (c == b':') _ _
      (at_quote-Falls m s (lstrip r) (omega (arith, length-lstrip r))) (refl, h, refl)

at_search-Falls :
    (s : Streamer) (o : Option Text)
    → ((r : Text) → o ≡ some r → length r < length s.buffer)
    → Falls s.needle (length s.buffer) (at_search s o)
at_search-Falls s none h = refl
at_search-Falls s (some r) h =
    at_colon-Falls (length s.buffer) s (lstrip r) (omega (arith, length-lstrip r, h r refl))

pub round_at-Falls :
    (p : Phase) (s : Streamer)
    → IsOutside p
    → 1 ≤ length s.needle
    → Falls s.needle (bound p (length s.buffer)) (round_at p s)
unfolding round_at
round_at-Falls search s o h =
    at_search-Falls s (after_needle s.needle s.buffer)
      (λ r e. length-after_needle s.needle s.buffer r h e)
round_at-Falls colon s o h =
    at_colon-Falls _ s (lstrip s.buffer) (omega (arith, length-lstrip s.buffer))
round_at-Falls quote s o h =
    at_quote-Falls _ s (lstrip s.buffer) (omega (arith, length-lstrip s.buffer))
round_at-Falls in_string s o h = absurd o

pub Round-cases :
    (r : Round)
    → ((s : Streamer) × (r ≡ again s)) ⊎ ((text : Text) × (s : Streamer) × (r ≡ out text s))
Round-cases (again s) = inl (s, refl)
Round-cases (out text s) = inr (text, s, refl)

-- The loop returns, and the streamer looks for the same field after it.
abbrev Ends : Text → Option (Text × Streamer) → Type 0
Ends n none = ⊥
Ends n (some (text, s)) = s.needle ≡ n

pub advance-Ends :
    (fuel : ℕ) (s : Streamer)
    → IsOutside s.phase
    → 1 ≤ length s.needle
    → bound s.phase (length s.buffer) < fuel
    → Ends s.needle (advance fuel s)
unfolding advance
advance-Ends zero s o h lt = absurd (omega arith)
advance-Ends (suc fuel) s o h lt =
    let falls = round_at-Falls s.phase s o h in
    elim (Round-cases (round_at s.phase s)) [
      | inr (text, s', e) ↦ rw (e, advance) (rw e at falls)
      | inl (s', e) ↦
          let (searching, less, same) = rw e at falls in
          rw (e, advance)
            (subst (λ n. Ends n (advance fuel s')) same
              (advance-Ends fuel s' (rw searching tt) (rw same h) (rw searching (omega arith))))
    ]

take_at-needle : (n : ℕ) (s : Streamer) (ch : ℕ) → (take_at n s ch).1.needle ≡ s.needle
unfolding take_at take_plain take_unicode
take_at-needle zero s ch = ground arith
take_at-needle (suc zero) s ch = refl
take_at-needle (suc (suc n)) s ch = refl

consume-needle : (s : Streamer) (text : Text) → (consume s text).1.needle ≡ s.needle
unfolding consume take_char
consume-needle s [] = refl
consume-needle s (ch ∷ text) =
    let s' = (take_at s.unicode_remaining s ch).1 in
    let same = take_at-needle s.unicode_remaining s ch in
    elim (Bool-cases s'.done) [
      | inl e ↦ rw (e, consume) same
      | inr e ↦ rw (e, consume) (consume-needle s' text ∙ same)
    ]

pub outside : (p : Phase) → is_in_string p ≡ false → IsOutside p
outside search e = tt
outside colon e = tt
outside quote e = tt
outside in_string e = cc

emit-Ends : (n : Text) (o : Option (Text × Streamer)) → Ends n o → Ends n (emitted o)
emit-Ends n none h = h
emit-Ends n (some (text, s)) h =
    both (λ (r : Text × Streamer). r.1.needle ≡ n) (is_in_string s.phase) _ _
      (consume-needle s text ∙ h) h

pub bound-lt : (p : Phase) (n : ℕ) → bound p n < n + 2
bound-lt search n = omega arith
bound-lt colon n = omega arith
bound-lt quote n = omega arith
bound-lt in_string n = omega arith

-- Every chunk is decoded: the loop over the buffer ends by itself, whatever was read before.
pub feed-Ends : (s : Streamer) (text : Text) → 1 ≤ length s.needle → Ends s.needle (feed s text)
unfolding feed
feed-Ends s text h = both (Ends s.needle) (s.done || is_empty text) _ _ refl (
    both_else (Ends s.needle) (is_in_string s.phase) _ _ (consume-needle s text) (λ e.
      emit-Ends s.needle _ (
        advance-Ends _ (record s { buffer = s.buffer ++ text }) (outside s.phase e) h
          (bound-lt s.phase (length (s.buffer ++ text))))))

-- Any stream of chunks is decoded to its end: no chunk makes the search for the field run on.
pub feed_all-total :
    (s : Streamer) (chunks : List Text)
    → 1 ≤ length s.needle
    → (r : Text × Streamer) × (feed_all s chunks ≡ some r)
unfolding feed_all
feed_all-total s [] h = (([], s), refl)
feed_all-total s (chunk ∷ chunks) h = elim (Option-cases (feed s chunk)) [
  | inl e ↦ absurd (rw e at (feed-Ends s chunk h))
  | inr (r, e) ↦
      let same : r.1.needle ≡ s.needle = rw e at (feed-Ends s chunk h) in
      let (rest, e') = feed_all-total r.1 chunks (rw same h) in
      ((r.0 ++ rest.0, rest.1), rw (e, feed_all) (rw e' refl))
]
