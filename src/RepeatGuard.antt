-- ===== src/RepeatGuard.antt =====
-- src/examples/omni_assistant_subagents/subagents/speaker/repeat_guard.py: replies that the speaker repeats
-- word by word, and the filler that takes their place. The Unicode tables of Python, for `\w` and for
-- `str.lower`, are a parameter.
pub mod Prefix
pub mod Turns
mod Tests
use nemotron_voice_agent.Base.{
  ℕ, ◌+◌, ◌%◌, Bool, true, false, not, ◌||◌, ◌&&◌, Option, none, some, List, [], ◌∷◌, ◌++◌, map,
  Text, codes, is_empty, is_space, starts_with, text_in, length, ltb, ◌==◌, if◌then◌else◌,
}
use nemotron_voice_agent.Webcam.{keep_last}

-- `\w` of `re`, the cased characters, those that do not end a word for `str.lower`, and the lower case of a
-- character, which may be several.
pub record CharTables : Type 0 where
  pub is_word : ℕ → Bool
  pub is_cased : ℕ → Bool
  pub is_case_ignorable : ℕ → Bool
  pub to_lower : ℕ → Text

-- Whether the first character that counts is cased.
unfoldable pub next_is_cased : CharTables → Text → Bool
next_is_cased u [] = false
next_is_cased u (c ∷ t) =
    let further = next_is_cased u t in if u.is_case_ignorable c then further else u.is_cased c

abbrev pub capital_sigma : ℕ
capital_sigma = 931

-- `str.lower`: a capital sigma becomes the final one (962) after a letter and before none. The first
-- argument is what stands before, backwards.
unfoldable pub lower_from : CharTables → Text → Text → Text
unfolding next_is_cased
lower_from u before [] = []
lower_from u before (c ∷ t) =
    let sigma = if next_is_cased u before && not (next_is_cased u t) then 962 ∷ [] else 963 ∷ [] in
    (if c == capital_sigma then sigma else u.to_lower c) ++ lower_from u (c ∷ before) t

-- `t.split()` after the part of a word that was read.
unfoldable pub split_from : Text → Text → List Text
split_from [] word = if is_empty word then [] else word ∷ []
split_from (c ∷ t) word =
    let next = split_from t [] in
    let longer = split_from t (word ++ c ∷ []) in
    if is_space c then (if is_empty word then next else word ∷ next) else longer

-- Each word after a space, and `" ".join(words)`.
unfoldable pub spaced : List Text → Text
spaced [] = []
spaced (w ∷ ws) = 32 ∷ (w ++ spaced ws)

unfoldable pub join_words : List Text → Text
unfolding spaced
join_words [] = []
join_words (w ∷ ws) = w ++ spaced ws

-- `re.sub(r"[^\w\s]", " ", t.lower())`
unfoldable pub without_punctuation : CharTables → Text → Text
unfolding lower_from
without_punctuation u t = map (λ c. if u.is_word c || is_space c then c else 32) (lower_from u [] t)

unfoldable pub normalize_text : CharTables → Text → Text
unfolding split_from join_words without_punctuation
normalize_text u t = join_words (split_from (without_punctuation u t) [])

abbrev pub affirmation_tokens : List Text
affirmation_tokens = map codes (
    "yes" ∷ "yeah" ∷ "yep" ∷ "yup" ∷ "sure" ∷ "ok" ∷ "okay" ∷ "please" ∷ "go" ∷ "do" ∷ "fine"
    ∷ "alright" ∷ "right" ∷ [])

-- `tokens.issuperset(words)`
unfoldable pub all_in : List Text → List Text → Bool
all_in tokens [] = true
all_in tokens (w ∷ ws) = text_in w tokens && all_in tokens ws

unfoldable pub is_affirmation_of : List Text → Bool
unfolding all_in
is_affirmation_of [] = false
is_affirmation_of (w ∷ ws) =
    if ltb 6 (length (w ∷ ws))
    then false
    else text_in w affirmation_tokens || all_in affirmation_tokens (w ∷ ws)

unfoldable pub is_affirmation : CharTables → Text → Bool
unfolding normalize_text is_affirmation_of
is_affirmation u transcript = is_affirmation_of (split_from (normalize_text u transcript) [])

-- What the guard keeps; `filler` is the index in BRIDGE_FILLERS, if one was spoken.
pub record Guard : Type 0 where
  pub recent : List Text
  pub pending : Text
  pub filler_index : ℕ
  pub suppressing : Bool
  pub detected : Bool
  pub filler : Option ℕ
  pub emitted : Bool

abbrev pub repeat_guard : Guard
repeat_guard = record {
  recent = [];
  pending = [];
  filler_index = 0;
  suppressing = false;
  detected = false;
  filler = none;
  emitted = false;
}

abbrev pub bridge_fillers : ℕ
bridge_fillers = 3

abbrev pub repeat_min_words : ℕ
repeat_min_words = 4

abbrev pub repeat_history : ℕ
repeat_history = 4

unfoldable pub is_repeat : CharTables → Guard → Text → Bool
unfolding normalize_text
is_repeat u g text =
    let normalized = normalize_text u text in
    if ltb (length (split_from normalized [])) repeat_min_words
    then false
    else text_in normalized g.recent

unfoldable pub bridge_filler : CharTables → Text → Guard → Guard × Option ℕ
unfolding is_repeat
bridge_filler u text g =
    let filler = g.filler_index % bridge_fillers in
    if g.emitted || g.suppressing || not (is_repeat u g text) then (g, none) else (
      record g {
        suppressing = true;
        detected = true;
        emitted = true;
        filler = some filler;
        filler_index = g.filler_index + 1;
      },
      some filler,
    )

-- `any(recent.startswith(prefix) for recent in self._recent)`
unfoldable pub any_starts_with : Text → List Text → Bool
any_starts_with prefix [] = false
any_starts_with prefix (t ∷ ts) = starts_with t prefix || any_starts_with prefix ts

unfoldable pub could_be_repeat_prefix : CharTables → Guard → Text → Bool
unfolding normalize_text any_starts_with
could_be_repeat_prefix u g text =
    let normalized = normalize_text u text in
    if is_empty normalized then not (is_empty g.recent) else any_starts_with normalized g.recent

unfoldable pub note_spoken : CharTables → Text → Guard → Guard
unfolding is_repeat
note_spoken u text g =
    let spoken = record g { emitted = true } in
    if is_repeat u g text then record spoken { detected = true } else spoken

unfoldable pub note_reply : CharTables → Text → Bool → Guard → Guard
unfolding normalize_text
note_reply u response track g = record g {
  pending = if track then normalize_text u response else [];
}

-- `append` to a deque of `repeat_history` entries.
unfoldable pub commit : Text → List Text → List Text
unfolding keep_last
commit pending recent =
    if is_empty pending then recent else keep_last repeat_history (recent ++ pending ∷ [])

unfoldable pub reset : Guard → Guard
unfolding commit
reset g = record g {
  recent = commit g.pending g.recent;
  pending = [];
  suppressing = false;
  detected = false;
  filler = none;
  emitted = false;
}
