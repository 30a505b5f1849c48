-- ===== src/JsonStream/Chunks.antt =====
-- A stream that is cut in other places is decoded alike (src/examples/shared/json_stream.py).
use mathlib.Core.List.{flatten}
use nemotron_voice_agent.Base.{
  ℕ, zero, suc, ◌+◌, ◌≤◌, ◌≡◌, refl, sym, ap, ◌∙◌, subst, Bool, true, false, Option, none, some,
  List, [], ◌∷◌, ◌++◌, append-nil, append_assoc, Text, lstrip, length, ◌==◌, arith, both,
  Bool-cases, Option-cases, inl, inr, if◌then◌else◌,
}
use nemotron_voice_agent.JsonStream.{
  Streamer, Phase, search, colon, quote, in_string, Round, again, out, after_needle, at_search,
  at_colon, at_quote, round_at, advance, feed, feed_all, consume, take_char, take_at, take_plain,
  take_unicode, is_in_string, emit, emitted, after_output, prepended,
}
use nemotron_voice_agent.JsonStream.Total.{Round-cases, advance-Ends, outside, bound-lt, feed-Ends}
use nemotron_voice_agent.JsonStream.Extend.{more, some_ap, advance-extend, advance-more, continued}

-- What is decoded with more text, from what was decoded without; nothing after the closing quote.
abbrev resume_at : Bool → Text → Text → Streamer → Text × Streamer
resume_at true b o s = (o, s)
resume_at false b o s = (o ++ (consume s b).0, (consume s b).1)

abbrev resumed : Text → Text × Streamer → Text × Streamer
resumed b (o, s) = resume_at s.done b o s

after_output-resume_at :
    (d : Bool) (o b text : Text) (s : Streamer)
    → after_output o (resume_at d b text s) ≡ resume_at d b (o ++ text) s
after_output-resume_at true o b text s = refl
after_output-resume_at false o b text s =
    ap (λ t. (t, (consume s b).1)) (sym (append_assoc o text (consume s b).0))

consume-append :
    (s : Streamer) (a b : Text) → s.done ≡ false → consume s (a ++ b) ≡ resumed b (consume s a)
unfolding consume take_char
consume-append s [] b h = rw h refl
consume-append s (ch ∷ a) b h =
    let s' = (take_at s.unicode_remaining s ch).1 in
    let o = (take_at s.unicode_remaining s ch).0 in
    elim (Bool-cases s'.done) [
      | inl e ↦ rw (e, consume) (rw e refl)
      | inr e ↦
          rw (e, consume)
            (ap (after_output o) (consume-append s' a b e)
              ∙ after_output-resume_at _ o b (consume s' a).0 (consume s' a).1)
    ]

take_at-phase : (n : ℕ) (s : Streamer) (ch : ℕ) → (take_at n s ch).1.phase ≡ s.phase
unfolding take_at take_plain take_unicode
take_at-phase zero s ch = ground arith
take_at-phase (suc zero) s ch = refl
take_at-phase (suc (suc n)) s ch = refl

consume-phase : (s : Streamer) (text : Text) → (consume s text).1.phase ≡ s.phase
unfolding consume take_char
consume-phase s [] = refl
consume-phase s (ch ∷ text) =
    let s' = (take_at s.unicode_remaining s ch).1 in
    let same = take_at-phase s.unicode_remaining s ch in
    elim (Bool-cases s'.done) [
      | inl e ↦ rw (e, consume) same
      | inr e ↦ rw (e, consume) (consume-phase s' text ∙ same)
    ]

-- A round leaves the end of the string as it is.
abbrev Keeps : Bool → Round → Type 0
Keeps d (again s) = s.done ≡ d
Keeps d (out text s) = s.done ≡ d

at_quote-Keeps : (s : Streamer) (y : Text) → Keeps s.done (at_quote s y)
at_quote-Keeps s [] = refl
at_quote-Keeps s (c ∷ r) = both (Keeps s.done) (c == b'"') _ _ refl refl

at_colon-Keeps : (s : Streamer) (y : Text) → Keeps s.done (at_colon s y)
at_colon-Keeps s [] = refl
at_colon-Keeps s (c ∷ r) = both (Keeps s.done) (c == b':') _ _ (at_quote-Keeps s (lstrip r)) refl

at_search-Keeps : (s : Streamer) (o : Option Text) → Keeps s.done (at_search s o)
at_search-Keeps s none = refl
at_search-Keeps s (some r) = at_colon-Keeps s (lstrip r)

round_at-Keeps : (p : Phase) (s : Streamer) → Keeps s.done (round_at p s)
unfolding round_at
round_at-Keeps search s = at_search-Keeps s (after_needle s.needle s.buffer)
round_at-Keeps colon s = at_colon-Keeps s (lstrip s.buffer)
round_at-Keeps quote s = at_quote-Keeps s (lstrip s.buffer)
round_at-Keeps in_string s = refl

advance-done :
    (f : ℕ) (s : Streamer) (r : Text × Streamer) → advance f s ≡ some r → r.1.done ≡ s.done
unfolding advance
advance-done zero s r e = cc
advance-done (suc f) s r e =
    let kept = round_at-Keeps s.phase s in
    elim (Round-cases (round_at s.phase s)) [
      | inl (s', q) ↦ advance-done f s' r (rw (q, advance) at e) ∙ (rw q at kept)
      | inr (text, s', q) ↦
          sym (some_ap (λ (o : Text × Streamer). o.1.done) (rw (q, advance) at e)) ∙ (rw q at kept)
    ]

-- The output of another feed.
abbrev then_feed : Text → Option (Text × Streamer) → Option (Text × Streamer)
then_feed b none = none
then_feed b (some (o, s)) = prepended o (feed s b)

feed-done : (s : Streamer) (b : Text) → s.done ≡ true → feed s b ≡ some ([], s)
unfolding feed
feed-done s b h = rw h refl

feed-nil : (s : Streamer) → feed s [] ≡ some ([], s)
unfolding feed
feed-nil s = elim (Bool-cases s.done) [ inl e ↦ rw e refl | inr e ↦ rw e refl ]

feed-string :
    (s : Streamer) (b : Text)
    → s.done ≡ false
    → is_in_string s.phase ≡ true
    → feed s b ≡ some (consume s b)
unfolding feed consume
feed-string s [] h i = rw h refl
feed-string s (c ∷ b) h i = rw h (rw i refl)

feed-outside :
    (s : Streamer) (c : ℕ) (b : Text)
    → s.done ≡ false
    → is_in_string s.phase ≡ false
    → feed s (c ∷ b) ≡ emitted (advance (length (s.buffer ++ c ∷ b) + 2) (more (c ∷ b) s))
unfolding feed
feed-outside s c b h i = rw h (rw i refl)

-- Inside of the string.
resume-string :
    (b o : Text) (s : Streamer)
    → is_in_string s.phase ≡ true
    → then_feed b (some (o, s)) ≡ some (resumed b (o, s))
resume-string b o s i = elim (Bool-cases s.done) [
  | inl e ↦
      ap (prepended o) (feed-done s b e)
      ∙ ap (λ t. some (t, s)) (append-nil o)
      ∙ ap (λ d. some (resume_at d b o s)) (sym e)
  | inr e ↦ ap (prepended o) (feed-string s b e i) ∙ ap (λ d. some (resume_at d b o s)) (sym e)
]

string-append :
    (s : Streamer) (a b : Text)
    → s.done ≡ false
    → is_in_string s.phase ≡ true
    → then_feed b (some (consume s a)) ≡ some (consume s (a ++ b))
string-append s a b h i =
    let i' = ap is_in_string (consume-phase s a) ∙ i in
    resume-string b (consume s a).0 (consume s a).1 i' ∙ ap some (sym (consume-append s a b h))

prepended-nil : (r : Option (Text × Streamer)) → prepended [] r ≡ r
prepended-nil none = refl
prepended-nil (some r) = refl

then_feed-nil : (r : Option (Text × Streamer)) → then_feed [] r ≡ r
then_feed-nil none = refl
then_feed-nil (some (o, s)) = ap (prepended o) (feed-nil s) ∙ ap (λ t. some (t, s)) (append-nil o)

advance-total :
    (s : Streamer)
    → is_in_string s.phase ≡ false
    → 1 ≤ length s.needle
    → (r : Text × Streamer) × (advance (length s.buffer + 2) s ≡ some r)
advance-total s i n = elim (Option-cases (advance (length s.buffer + 2) s)) [
  | inl e ↦ absurd (
      rw e at (
        advance-Ends (length s.buffer + 2) s (outside s.phase i) n
          (bound-lt s.phase (length s.buffer))))
  | inr found ↦ found
]

-- The result of the loop does not depend on the fuel that suffices.
advance_unique :
    (f g : ℕ) (s : Streamer) (q r : Text × Streamer)
    → advance f s ≡ some q
    → advance g s ≡ some r
    → some q ≡ some r
advance_unique f g s q r e e' =
    let z : g + f ≡ f + g = omega arith in
    sym (advance-more f g s q e) ∙ ap (λ n. advance n s) (sym z) ∙ advance-more g f s r e'

emit-string : (t : Text) (s : Streamer) → is_in_string s.phase ≡ true → emit (t, s) ≡ consume s t
emit-string t s i = ap (λ d. if d then consume s t else ([], s)) i

emit-outside : (t : Text) (s : Streamer) → is_in_string s.phase ≡ false → emit (t, s) ≡ ([], s)
emit-outside t s i = ap (λ d. if d then consume s t else ([], s)) i

-- Before the string, on the buffer of both chunks, from the end of the loop without `b`.
module _ (s : Streamer) (b : Text) (t : Text) (s' : Streamer) (h : s.done ≡ false)
    (i : is_in_string s.phase ≡ false) (n : 1 ≤ length s.needle)
    (e : advance (length s.buffer + 2) s ≡ some (t, s')) where
  begun :
      is_in_string s'.phase ≡ true
      → then_feed b (some (emit (t, s')))
        ≡ emitted (advance (length (s.buffer ++ b) + 2) (more b s))
  begun i' =
      let (r, whole) = advance-total (more b s) i n in
      let F = length s.buffer + 2 in
      let c : continued 0 b (t, s') ≡ some (t ++ b, s') =
        ap (λ d. if d then some (t ++ b, s') else advance 0 (more b s')) i' in
      let ends = advance-extend F 0 s b (t, s') (t ++ b, s') (outside s.phase i) n e c in
      ap (λ o. then_feed b (some o)) (emit-string t s' i')
      ∙ string-append s' t b (advance-done F s (t, s') e ∙ h) i'
      ∙ ap some (sym (emit-string (t ++ b) s' i'))
      ∙ ap emitted (advance_unique (F + 0) _ (more b s) (t ++ b, s') r ends whole)
      ∙ ap emitted (sym whole)

  waits :
      (d : ℕ) (b' : Text)
      → b ≡ d ∷ b'
      → 1 ≤ length s'.needle
      → is_in_string s'.phase ≡ false
      → then_feed b (some (emit (t, s')))
        ≡ emitted (advance (length (s.buffer ++ b) + 2) (more b s))
  waits d b' eb n' i' =
      let (r, whole) = advance-total (more b s) i n in
      let (q, later) = advance-total (more b s') i' n' in
      let F = length s.buffer + 2 in
      let G = length (s'.buffer ++ b) + 2 in
      let c : continued G b (t, s') ≡ some q =
        ap (λ d. if d then some (t ++ b, s') else advance G (more b s')) i' ∙ later in
      let ends = advance-extend F G s b (t, s') q (outside s.phase i) n e c in
      ap (λ o. then_feed b (some o)) (emit-outside t s' i')
      ∙ prepended-nil (feed s' b)
      ∙ feed-later d b' eb i'
      ∙ ap emitted later
      ∙ ap emitted (advance_unique (F + G) _ (more b s) q r ends whole)
      ∙ ap emitted (sym whole)
    where
      feed-later :
          (d : ℕ) (b' : Text)
          → b ≡ d ∷ b'
          → is_in_string s'.phase ≡ false
          → feed s' b ≡ emitted (advance (length (s'.buffer ++ b) + 2) (more b s'))
      feed-later d b' eb i' =
          subst (λ b. feed s' b ≡ emitted (advance (length (s'.buffer ++ b) + 2) (more b s')))
            (sym eb) (feed-outside s' d b' (advance-done (length s.buffer + 2) s (t, s') e ∙ h) i')

-- The second chunk is not empty.
outside-append :
    (s : Streamer) (c d : ℕ) (a b : Text)
    → s.done ≡ false
    → is_in_string s.phase ≡ false
    → 1 ≤ length s.needle
    → then_feed (d ∷ b) (feed s (c ∷ a)) ≡ feed s (c ∷ (a ++ d ∷ b))
outside-append s c d a b h i n =
    let S = more (c ∷ a) s in
    let ((t, s'), e) = advance-total S i n in
    let ended = rw e at (
      advance-Ends (length S.buffer + 2) S (outside s.phase i) n
        (bound-lt s.phase (length S.buffer))) in
    ap (then_feed (d ∷ b)) (feed-outside s c a h i ∙ ap emitted e)
    ∙ elim (Bool-cases (is_in_string s'.phase)) [
      | inl i' ↦ begun S (d ∷ b) t s' h i n e i'
      | inr i' ↦ waits S (d ∷ b) t s' h i n e d b refl (rw ended n) i'
    ]
    ∙ ap (λ x. emitted (advance (length x + 2) (record s { buffer = x })))
        (append_assoc s.buffer (c ∷ a) (d ∷ b))
    ∙ sym (feed-outside s c (a ++ d ∷ b) h i)

-- Text that comes in two chunks is decoded as if it came in one.
feed-append :
    (s : Streamer) (a b : Text) → 1 ≤ length s.needle → then_feed b (feed s a) ≡ feed s (a ++ b)
feed-append s a [] n = then_feed-nil (feed s a) ∙ ap (feed s) (sym (append-nil a))
feed-append s [] (d ∷ b) n = ap (then_feed (d ∷ b)) (feed-nil s) ∙ prepended-nil (feed s (d ∷ b))
feed-append s (c ∷ a) (d ∷ b) n = elim (Bool-cases s.done) [
  | inl h ↦
      ap (then_feed (d ∷ b)) (feed-done s (c ∷ a) h)
      ∙ ap (prepended []) (feed-done s (d ∷ b) h)
      ∙ sym (feed-done s (c ∷ (a ++ d ∷ b)) h)
  | inr h ↦ elim (Bool-cases (is_in_string s.phase)) [
    | inl i ↦
        ap (then_feed (d ∷ b)) (feed-string s (c ∷ a) h i)
        ∙ string-append s (c ∷ a) (d ∷ b) h i
        ∙ sym (feed-string s (c ∷ (a ++ d ∷ b)) h i)
    | inr i ↦ outside-append s c d a b h i n
  ]
]

pub feed_all-feed :
    (s : Streamer) (chunks : List Text)
    → 1 ≤ length s.needle
    → feed_all s chunks ≡ feed s (flatten chunks)
unfolding feed_all flatten
feed_all-feed s [] n = sym (feed-nil s)
feed_all-feed s (chunk ∷ chunks) n = elim (Option-cases (feed s chunk)) [
  | inl e ↦ absurd (rw e at (feed-Ends s chunk n))
  | inr ((o, s'), e) ↦
      let same : s'.needle ≡ s.needle = rw e at (feed-Ends s chunk n) in
      rw (e, feed_all)
        (ap (prepended o) (feed_all-feed s' chunks (rw same n))
          ∙ ap (then_feed (flatten chunks)) (sym e)
          ∙ feed-append s chunk (flatten chunks) n)
]

-- Two streams of chunks that carry the same text give the same output and leave the streamer in the same
-- state, wherever they are cut.
pub feed_all-flatten :
    (s : Streamer) (xs ys : List Text)
    → 1 ≤ length s.needle
    → flatten xs ≡ flatten ys
    → feed_all s xs ≡ feed_all s ys
feed_all-flatten s xs ys n e = feed_all-feed s xs n ∙ ap (feed s) e ∙ sym (feed_all-feed s ys n)
