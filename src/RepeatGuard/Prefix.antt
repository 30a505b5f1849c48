-- ===== src/RepeatGuard/Prefix.antt =====
-- What a streamed reply may still become (repeat_guard.py).
use mathlib.Core.List.{map-append}
use nemotron_voice_agent.Base.{
  ℕ, ◌≡◌, refl, sym, ap, ◌∙◌, subst, Bool, true, false, not, List, [], ◌∷◌, ◌++◌, append_assoc,
  append-nil, map, Text, is_empty, is_space, ◌==◌, ◌||◌, All, ℕ, starts_with, starts_with_self,
  text_in, text_eq, text_eq_sound, length, drop, ltb, arith, Bool-cases, inl, inr, if◌then◌else◌,
}
use nemotron_voice_agent.RepeatGuard.{
  CharTables, capital_sigma, lower_from, Guard, split_from, spaced, join_words, without_punctuation,
  normalize_text, is_repeat, any_starts_with, could_be_repeat_prefix, repeat_min_words,
}

starts_with-append : (w s p : Text) → starts_with s p ≡ true → starts_with (w ++ s) (w ++ p) ≡ true
unfolding starts_with
starts_with-append [] s p h = h
starts_with-append (c ∷ w) s p h = ground (arith, starts_with-append w s p h)

starts_with-shorter :
    (s w : Text) (c : ℕ) → starts_with s (w ++ c ∷ []) ≡ true → starts_with s w ≡ true
unfolding starts_with
starts_with-shorter s [] c h = refl
starts_with-shorter [] (d ∷ w) c h = ground arith
starts_with-shorter (x ∷ s) (d ∷ w) c h = ground (arith, starts_with-shorter s w c)

starts_with-drop : (s p : Text) → starts_with s p ≡ true → starts_with (drop 1 s) (drop 1 p) ≡ true
unfolding starts_with
starts_with-drop s [] h = refl
starts_with-drop [] (c ∷ p) h = ground arith
starts_with-drop (d ∷ s) (c ∷ p) h = ground arith

is_empty-append : (w : Text) (c : ℕ) → is_empty (w ++ c ∷ []) ≡ false
is_empty-append [] c = refl
is_empty-append (d ∷ w) c = refl

-- The words of a text start with the part of a word that was read.
spaced-word :
    (q word : Text)
    → is_empty word ≡ false
    → starts_with (spaced (split_from q word)) (32 ∷ word) ≡ true
unfolding spaced split_from starts_with
spaced-word [] word n = rw n (starts_with_self word [])
spaced-word (c ∷ q) word n = elim (Bool-cases (is_space c)) [
  | inl e ↦ rw e (rw n (starts_with_self word _))
  | inr e ↦ rw e (
      starts_with-shorter (spaced (split_from q (word ++ c ∷ []))) (32 ∷ word) c
        (spaced-word q (word ++ c ∷ []) (is_empty-append word c)))
]

spaced-append :
    (p q word : Text)
    → starts_with (spaced (split_from (p ++ q) word)) (spaced (split_from p word)) ≡ true
unfolding spaced split_from starts_with
spaced-append [] q word = elim (Bool-cases (is_empty word)) [
  | inl e ↦ rw e refl
  | inr e ↦ rw e (
      subst (λ w. starts_with (spaced (split_from q word)) (32 ∷ w) ≡ true) (sym (append-nil word))
        (spaced-word q word e))
]
spaced-append (c ∷ p) q word = elim (Bool-cases (is_space c)) [
  | inl e ↦ elim (Bool-cases (is_empty word)) [
    | inl f ↦ rw e (rw f (spaced-append p q []))
    | inr f ↦ rw e (
        rw f (
          starts_with-append (32 ∷ word) (spaced (split_from (p ++ q) []))
            (spaced (split_from p [])) (spaced-append p q [])))
  ]
  | inr e ↦ rw e (spaced-append p q (word ++ c ∷ []))
]

join_words-spaced : (ws : List Text) → join_words ws ≡ drop 1 (spaced ws)
unfolding join_words spaced
join_words-spaced [] = refl
join_words-spaced (w ∷ ws) = refl

otherwise : (b c : Bool) → (if b then false else c) ≡ true → c ≡ true
otherwise true c h = ground arith
otherwise false c h = h

is_empty-in : (t : Text) (ts : List Text) → text_in t ts ≡ true → not (is_empty ts) ≡ true
unfolding text_in
is_empty-in t [] i = i
is_empty-in t (u ∷ us) i = refl

abbrev backwards : Text → Text → Text
backwards [] before = before
backwards (c ∷ p) before = backwards p (c ∷ before)

module _ (u : CharTables) where
  -- Without a capital sigma, the lower case of a text does not depend on what follows.
  lower_from-append :
      (p q before : Text)
      → All (λ c. (c == capital_sigma) ≡ false) p
      → lower_from u before (p ++ q) ≡ lower_from u before p ++ lower_from u (backwards p before) q
  unfolding lower_from
  lower_from-append [] q before n = refl
  lower_from-append (c ∷ p) q before n = rw n.0 (
      ap (λ t. u.to_lower c ++ t) (lower_from-append p q (c ∷ before) n.1)
      ∙ sym (append_assoc (u.to_lower c) (lower_from u (c ∷ before) p) _))

  without_punctuation-append :
      (p q : Text)
      → All (λ c. (c == capital_sigma) ≡ false) p
      → (rest : Text) × (without_punctuation u (p ++ q) ≡ without_punctuation u p ++ rest)
  unfolding without_punctuation
  without_punctuation-append p q n =
      let clean : ℕ → ℕ = (λ c. if u.is_word c || is_space c then c else 32) in
      let rest = lower_from u (backwards p []) q in
      (
        map clean rest,
        ap (map clean) (lower_from-append p q [] n) ∙ map-append clean (lower_from u [] p) rest,
      )

  normalize_text-append :
      (p q : Text)
      → All (λ c. (c == capital_sigma) ≡ false) p
      → starts_with (normalize_text u (p ++ q)) (normalize_text u p) ≡ true
  unfolding normalize_text
  normalize_text-append p q n =
      let clean = without_punctuation u p in
      let (rest, split) = without_punctuation-append p q n in
      let longer = split_from (clean ++ rest) [] in
      ap (λ t. starts_with (join_words (split_from t [])) (normalize_text u p)) split
      ∙ ap (λ t. starts_with t (normalize_text u p)) (join_words-spaced longer)
      ∙ ap (starts_with (drop 1 (spaced longer))) (join_words-spaced (split_from clean []))
      ∙ starts_with-drop _ _ (spaced-append clean rest [])

  any_starts_with-in :
      (t p : Text) (ts : List Text)
      → text_in t ts ≡ true
      → starts_with t p ≡ true
      → any_starts_with p ts ≡ true
  unfolding any_starts_with text_in
  any_starts_with-in t p [] i s = ground arith
  any_starts_with-in t p (w ∷ ws) i s = elim (Bool-cases (text_eq t w)) [
    | inl e ↦
        let prefix : starts_with w p ≡ true =
          subst (λ v. starts_with v p ≡ true) (text_eq_sound t w e) s in
        ground arith
    | inr e ↦ ground (arith, any_starts_with-in t p ws)
  ]

  -- Every prefix without a capital sigma of a text that repeats a recent reply could be the prefix of a
  -- repeat, whatever the tables of Unicode are.
  pub could_be_repeat_prefix-is_repeat :
      (g : Guard) (p q : Text)
      → All (λ c. (c == capital_sigma) ≡ false) p
      → is_repeat u g (p ++ q) ≡ true
      → could_be_repeat_prefix u g p ≡ true
  unfolding is_repeat could_be_repeat_prefix
  could_be_repeat_prefix-is_repeat g p q n h =
      let t = normalize_text u (p ++ q) in
      let i = otherwise (ltb (length (split_from t [])) repeat_min_words) (text_in t g.recent) h in
      elim (Bool-cases (is_empty (normalize_text u p))) [
        | inl e ↦ rw e (is_empty-in t g.recent i)
        | inr e ↦
            rw e
              (any_starts_with-in t (normalize_text u p) g.recent i (normalize_text-append p q n))
      ]
