-- ===== src/RepeatGuard/Turns.antt =====
-- What the guard remembers over the turns of a session (repeat_guard.py).
use nemotron_voice_agent.Base.{
  ◌≡◌, refl, sym, ap, ◌∙◌, Bool, true, false, not, ◌||◌, ◌&&◌, List, [], ◌∷◌, ◌++◌, append_assoc,
  append-nil, Text, is_empty, text_in, length, ltb, Bool-cases, inl, inr, if◌then◌else◌,
}
use nemotron_voice_agent.Webcam.{keep_last}
use nemotron_voice_agent.Webcam.Ring.{keep_last-append}
use nemotron_voice_agent.RepeatGuard.{
  CharTables, Guard, split_from, normalize_text, is_repeat, bridge_filler, note_spoken, note_reply,
  commit, reset, repeat_history, repeat_min_words,
}

-- The calls of a session.
pub data GuardCall : Type 0 where
  bridge spoken : Text → GuardCall
  replied : Text → Bool → GuardCall
  turn_over : GuardCall

-- The reply of each turn that is over, if it was tracked and has a word.
unfoldable pub past_replies : CharTables → Text → List GuardCall → List Text
past_replies u reply [] = []
past_replies u reply (turn_over ∷ calls) =
    let rest = past_replies u [] calls in if is_empty reply then rest else reply ∷ rest
past_replies u reply (replied text track ∷ calls) =
    past_replies u (if track then normalize_text u text else []) calls
past_replies u reply (bridge text ∷ calls) = past_replies u reply calls
past_replies u reply (spoken text ∷ calls) = past_replies u reply calls

unfoldable guard_call : CharTables → Guard → GuardCall → Guard
unfolding bridge_filler note_spoken note_reply reset
guard_call u g (bridge text) = (bridge_filler u text g).0
guard_call u g (spoken text) = note_spoken u text g
guard_call u g (replied text track) = note_reply u text track g
guard_call u g turn_over = reset g

unfoldable pub guard_run : CharTables → Guard → List GuardCall → Guard
unfolding guard_call
guard_run u g [] = g
guard_run u g (call ∷ calls) = guard_run u (guard_call u g call) calls

commit-none :
    (reply : Text) (recent : List Text) → is_empty reply ≡ true → commit reply recent ≡ recent
unfolding commit
commit-none reply recent e = rw e refl

commit-one :
    (reply : Text) (recent : List Text)
    → is_empty reply ≡ false
    → commit reply recent ≡ keep_last repeat_history (recent ++ reply ∷ [])
unfolding commit
commit-one reply recent e = rw e refl

keep_last-nil : [] ≡ keep_last {A = Text} repeat_history []
unfolding keep_last
keep_last-nil = refl

unless : (b c : Bool) → (if b then false else c) ≡ (not b && c)
unless true c = refl
unless false c = refl

module _ (u : CharTables) where
  -- Speaking changes neither the replies of the past nor the one that waits.
  bridge-recent :
      (text : Text) (g : Guard)
      → let g' = (bridge_filler u text g).0 in (g'.recent ≡ g.recent) × (g'.pending ≡ g.pending)
  unfolding bridge_filler
  bridge-recent text g =
      elim (Bool-cases (g.emitted || g.suppressing || not (is_repeat u g text))) [
        | inl e ↦ rw e (refl, refl)
        | inr e ↦ rw e (refl, refl)
      ]

  spoken-recent :
      (text : Text) (g : Guard)
      → let g' = note_spoken u text g in (g'.recent ≡ g.recent) × (g'.pending ≡ g.pending)
  unfolding note_spoken
  spoken-recent text g = elim (Bool-cases (is_repeat u g text)) [
    | inl e ↦ rw e (refl, refl)
    | inr e ↦ rw e (refl, refl)
  ]

  recent-run :
      (g : Guard) (calls : List GuardCall) (log : List Text) (reply : Text)
      → g.recent ≡ keep_last repeat_history log
      → g.pending ≡ reply
      → (guard_run u g calls).recent ≡ keep_last repeat_history (log ++ past_replies u reply calls)
  unfolding guard_run past_replies
  recent-run g [] log reply h p = h ∙ ap (keep_last repeat_history) (sym (append-nil log))
  recent-run g (bridge text ∷ calls) log reply h p =
      let same = bridge-recent text g in recent-run _ calls log reply (same.0 ∙ h) (same.1 ∙ p)
  recent-run g (spoken text ∷ calls) log reply h p =
      let same = spoken-recent text g in recent-run _ calls log reply (same.0 ∙ h) (same.1 ∙ p)
  recent-run g (replied text track ∷ calls) log reply h p =
      recent-run _ calls log (if track then normalize_text u text else []) h refl
  recent-run g (turn_over ∷ calls) log reply h p = elim (Bool-cases (is_empty reply)) [
    | inl e ↦ rw e (
        recent-run (reset g) calls log []
          (ap (λ t. commit t g.recent) p ∙ commit-none reply g.recent e ∙ h) refl)
    | inr e ↦ rw e (
        recent-run (reset g) calls (log ++ reply ∷ []) []
          (ap (λ t. commit t g.recent) p
            ∙ commit-one reply g.recent e
            ∙ ap (λ l. keep_last repeat_history (l ++ reply ∷ [])) h
            ∙ keep_last-append repeat_history log reply)
          refl
        ∙ ap (keep_last repeat_history) (append_assoc log (reply ∷ []) (past_replies u [] calls)))
  ]

  -- After any calls from a new guard on, a text counts as a repeat just where it has four words and is, but
  -- for case and punctuation, one of the last four replies that were tracked in the turns that are over.
  pub is_repeat-run :
      (g : Guard) (calls : List GuardCall) (text : Text)
      → g.recent ≡ []
      → g.pending ≡ []
      → is_repeat u (guard_run u g calls) text ≡ (
          not (ltb (length (split_from (normalize_text u text) [])) repeat_min_words)
          && text_in (normalize_text u text) (keep_last repeat_history (past_replies u [] calls)))
  unfolding is_repeat
  is_repeat-run g calls text h p =
      let t = normalize_text u text in
      let few = ltb (length (split_from t [])) repeat_min_words in
      ap (λ l. if few then false else text_in t l) (recent-run g calls [] [] (h ∙ keep_last-nil) p)
      ∙ unless few (text_in t (keep_last repeat_history (past_replies u [] calls)))
