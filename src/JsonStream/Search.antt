-- ===== src/JsonStream/Search.antt =====
-- Searching for the field in a buffer that grows (src/examples/shared/json_stream.py).
use native.Mathlib.Decide.{dec_le}
use nemotron_voice_agent.Base.{
  ℕ, suc, ◌+◌, ◌-◌, ◌≤◌, ◌≡◌, refl, sym, ap, ◌∙◌, true, false, none, some, [], ◌∷◌, ◌++◌, Text,
  starts_with, lstrip, is_space, length, drop, length-drop, length-append, drop-append, drop-drop,
  arith, Bool-cases, inl, inr,
}
use nemotron_voice_agent.JsonStream.{after_needle, last_chars}

-- The stripped text after more is read, from what it was before.
abbrev pub joined : Text → Text → Text
joined [] b = lstrip b
joined (c ∷ r) b = c ∷ (r ++ b)

pub lstrip-append : (s b : Text) → lstrip (s ++ b) ≡ joined (lstrip s) b
unfolding lstrip
lstrip-append [] b = refl
lstrip-append (c ∷ s) b = elim (Bool-cases (is_space c)) [
  | inl e ↦ rw e (lstrip-append s b)
  | inr e ↦ rw e refl
]

starts_with-append : (s n b : Text) → length n ≤ length s → starts_with (s ++ b) n ≡ starts_with s n
unfolding starts_with
starts_with-append s [] b h = refl
starts_with-append [] (p ∷ n) b h = absurd (omega arith)
starts_with-append (c ∷ s) (p ∷ n) b h = ground (arith, starts_with-append s n b)

-- A text that starts with `n` is long enough for it.
starts_with-le : (s n : Text) → starts_with s n ≡ true → length n ≤ length s
unfolding starts_with
starts_with-le s [] h = omega arith
starts_with-le [] (p ∷ n) h = cc
starts_with-le (c ∷ s) (p ∷ n) h = ground (arith, starts_with-le s n)

-- A text in which `n` occurs is long enough for it.
after_needle-le : (n s r : Text) → after_needle n s ≡ some r → length n ≤ length s
unfolding after_needle
after_needle-le n [] r e = ground (arith, starts_with-le [] n)
after_needle-le n (c ∷ s) r e = ground (arith, starts_with-le (c ∷ s) n, after_needle-le n s r)

-- What was found is found again.
pub after_needle-some :
    (n s b r : Text)
    → 1 ≤ length n
    → after_needle n s ≡ some r
    → after_needle n (s ++ b) ≡ some (r ++ b)
unfolding after_needle
after_needle-some n [] b r h e = absurd (omega (arith, after_needle-le n [] r e))
after_needle-some n (c ∷ s) b r h e =
    let same = starts_with-append (c ∷ s) n b (after_needle-le n (c ∷ s) r e) in
    elim (Bool-cases (starts_with (c ∷ s) n)) [
      | inl here ↦ rw same (
          rw here (
            ap some (
              drop-append (length n) (c ∷ s) b (starts_with-le (c ∷ s) n here)
              ∙ ap (λ t. t ++ b) (found here))))
      | inr later ↦ rw same (rw later (after_needle-some n s b r h (rw later at e)))
    ]
  where
    found : starts_with (c ∷ s) n ≡ true → drop (length n) (c ∷ s) ≡ r
    found here = ground arith

not_here :
    (n : Text) (c : ℕ) (s : Text) → after_needle n (c ∷ s) ≡ none → starts_with (c ∷ s) n ≡ false
unfolding after_needle
not_here n c s e = ground arith

not_later : (n : Text) (c : ℕ) (s : Text) → after_needle n (c ∷ s) ≡ none → after_needle n s ≡ none
unfolding after_needle
not_later n c s e = ground arith

-- What was not found can only begin in the last characters.
pub after_needle-none :
    (n s b : Text)
    → after_needle n s ≡ none
    → after_needle n (s ++ b) ≡ after_needle n (last_chars (length n) s ++ b)
unfolding after_needle
after_needle-none n [] b e = let z : 0 - length n ≡ 0 = omega arith in rw z refl
after_needle-none n (c ∷ s) b e = elim (dec_le (suc (length s)) (length n)) [
  | yes short ↦ let z : suc (length s) - length n ≡ 0 = omega arith in rw z refl
  | no long ↦
      let z : suc (length s) - length n ≡ suc (length s - length n) = omega arith in
      rw z (
        rw (starts_with-append (c ∷ s) n b (omega arith))
          (rw (not_here n c s e) (after_needle-none n s b (not_later n c s e))))
]

pub last_chars-append :
    (n : ℕ) (s b : Text) → last_chars n (last_chars n s ++ b) ≡ last_chars n (s ++ b)
last_chars-append n s b =
    let k = length s - n in
    let x = length (drop k s ++ b) - n in
    let e : k + x ≡ length (s ++ b) - n =
      omega (arith, length-append (drop k s) b, length-append s b, length-drop k s) in
    ap (drop x) (sym (drop-append k s b (omega arith)))
    ∙ drop-drop x k (s ++ b)
    ∙ ap (λ i. drop i (s ++ b)) e
