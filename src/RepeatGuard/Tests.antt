-- ===== src/RepeatGuard/Tests.antt =====
-- Tests of the guard against repeats at concrete replies (repeat_guard.py).
use nemotron_voice_agent.Base.{
  ℕ, ◌≡◌, refl, Bool, true, not, ◌&&◌, some, List, [], ◌∷◌, codes, is_space, text_eq, ◌||◌, ◌==◌,
  ◌+◌, Text, starts_with, false, if◌then◌else◌, text_in, length, ltb, leb,
}
use nemotron_voice_agent.Webcam.{keep_last}
use nemotron_voice_agent.RepeatGuard.{
  CharTables, Guard, is_affirmation, repeat_guard, split_from, normalize_text, is_repeat,
  could_be_repeat_prefix, bridge_filler, repeat_history, repeat_min_words,
}
use nemotron_voice_agent.RepeatGuard.Prefix.{could_be_repeat_prefix-is_repeat}
use nemotron_voice_agent.RepeatGuard.Turns.{
  GuardCall, spoken, replied, turn_over, past_replies, guard_run, is_repeat-run,
}

abbrev is_capital : ℕ → Bool
is_capital c = (leb b'A' c && leb c b'Z') || (leb 913 c && leb c 937)

abbrev is_letter : ℕ → Bool
is_letter c = is_capital c || (leb b'a' c && leb c b'z') || (leb 945 c && leb c 969)

-- The Latin and Greek letters without marks.
abbrev tables : CharTables
tables = record {
  is_word = is_letter;
  is_cased = is_letter;
  is_case_ignorable = λ c. c == b'.';
  to_lower = λ c. (if is_capital c then c + 32 else c) ∷ [];
}

abbrev calls : List GuardCall
calls = spoken (codes "It is a cat.") ∷ replied (codes "It is a cat.") true ∷ turn_over ∷ []

abbrev after_one : Guard
after_one = guard_run tables repeat_guard calls

normalized : normalize_text tables (codes " It is, a  CAT! ") ≡ codes "it is a cat"
unfolding normalize_text is_space
normalized = refl

bridged : (bridge_filler tables (codes "it is a cat") after_one).1 ≡ some 0
unfolding bridge_filler guard_run normalize_text is_space text_in text_eq keep_last
bridged = refl

is_repeat-run_example : is_repeat tables after_one (codes "It is a cat") ≡ (
    not
      (ltb (length (split_from (normalize_text tables (codes "It is a cat")) [])) repeat_min_words)
    && text_in
        (normalize_text tables (codes "It is a cat"))
        (keep_last repeat_history (past_replies tables [] calls)))
is_repeat-run_example = is_repeat-run tables repeat_guard calls (codes "It is a cat") refl refl

could_be_repeat_prefix-is_repeat_example :
    could_be_repeat_prefix tables after_one (codes "It is a c") ≡ true
unfolding is_repeat guard_run normalize_text is_space text_in text_eq keep_last
could_be_repeat_prefix-is_repeat_example =
    could_be_repeat_prefix-is_repeat tables after_one (codes "It is a c") (codes "at")
      (refl, (refl, (refl, (refl, (refl, (refl, (refl, (refl, (refl, tt))))))))) refl

agreed : is_affirmation tables (codes "Yes, tell me.") ≡ true
unfolding is_affirmation normalize_text is_space text_in text_eq
agreed = refl

-- A capital sigma at the end of what was streamed so far is taken for the final one.
abbrev greek : Text
greek = codes "ΜΑΣΑ ΕΝΑ ΔΥΟ ΤΡΙΑ"

abbrev after_greek : Guard
after_greek = guard_run tables repeat_guard (replied greek true ∷ turn_over ∷ [])

greek_prefix :
    (is_repeat tables after_greek greek ≡ true)
    × (could_be_repeat_prefix tables after_greek (codes "ΜΑΣ") ≡ false)
unfolding is_repeat could_be_repeat_prefix guard_run normalize_text is_space text_in text_eq
    keep_last starts_with
greek_prefix = (refl, refl)
