-- ===== src/Webcam/Recent.antt =====
-- The window of recent webcam frames (src/webcam_frame_store.py).
use nemotron_voice_agent.Base.{
  ℕ, zero, suc, ◌+◌, ◌-◌, ◌≤◌, ◌<◌, ◌≡◌, refl, ap, ◌∙◌, Bool, true, false, Option, none, some, List,
  [], ◌∷◌, Text, is_empty, strip, last, filter, leb, length, drop, ◌==◌, arith, Bool-cases, inl,
  inr, Option-cases, both,
}
use nemotron_voice_agent.Attachments.{list_at}
use nemotron_voice_agent.Webcam.{
  WebcamFrame, FrameStore, keep_last, latest_webcam_frame, within_window, at_most,
  recent_webcam_frames,
}
use nemotron_voice_agent.Webcam.Ring.{length-keep_last}

last-drop : (n : ℕ) (fs : List WebcamFrame) → n < length fs → last (drop n fs) ≡ last fs
unfolding last
last-drop n [] h = ground arith
last-drop zero (f ∷ fs) h = refl
last-drop (suc n) (f ∷ []) h = ground arith
last-drop (suc n) (f ∷ g ∷ fs) h = last-drop n (g ∷ fs) (omega arith)

last-keep_last : (n : ℕ) (fs : List WebcamFrame) → 0 < n → last (keep_last n fs) ≡ last fs
unfolding keep_last
last-keep_last n [] h =
    let none_left : 0 - n ≡ 0 = omega arith in ap (λ k. last (drop k [])) none_left
last-keep_last n (f ∷ fs) h = last-drop (suc (length fs) - n) (f ∷ fs) (omega arith)

last-at_most : (count : Option ℕ) (fs : List WebcamFrame) → last (at_most count fs) ≡ last fs
unfolding at_most
last-at_most none fs = refl
last-at_most (some n) fs = elim (Bool-cases (n == 0)) [
  | inl e ↦ rw e refl
  | inr e ↦ rw e (last-keep_last n fs (ground arith))
]

last_cons : (f g : WebcamFrame) (fs : List WebcamFrame) → last fs ≡ some f → last (g ∷ fs) ≡ some f
unfolding last
last_cons f g [] h = ground arith
last_cons f g (k ∷ fs) h = h

last-filter :
    (p : WebcamFrame → Bool) (fs : List WebcamFrame) (f : WebcamFrame)
    → last fs ≡ some f
    → p f ≡ true
    → last (filter p fs) ≡ some f
unfolding last filter
last-filter p [] f h t = ground arith
last-filter p (g ∷ []) f h t = ground arith
last-filter p (g ∷ k ∷ fs) f h t =
    let rest = last-filter p (k ∷ fs) f h t in
    both (λ xs. last xs ≡ some f) (p g) _ _ (last_cons f g (filter p (k ∷ fs)) rest) rest

last-within_window :
    (window : Option ℕ) (fs : List WebcamFrame) → last (within_window window (last fs) fs) ≡ last fs
unfolding within_window
last-within_window none fs = refl
last-within_window (some w) fs = elim (Option-cases (last fs)) [
  | inl e ↦ rw e e
  | inr (f, e) ↦ rw e (
      both (λ xs. last xs ≡ some f) (w == 0) _ _ e
        (last-filter (λ x. leb f.created_at (x.created_at + w)) fs f e (ground arith)))
]

-- The window of a session that is named ends with its latest frame, whatever the limits, and never has more
-- frames than a positive limit on their count.
last-recent_webcam_frames :
    (session_id : Text) (window : Option ℕ) (count : ℕ) (s : FrameStore)
    → is_empty (strip session_id) ≡ false
    → 0 < count
    → (last (recent_webcam_frames session_id window (some count) s)
        ≡ latest_webcam_frame session_id s)
      × (last (recent_webcam_frames session_id window none s) ≡ latest_webcam_frame session_id s)
      × (length (recent_webcam_frames session_id window (some count) s) ≤ count)
unfolding recent_webcam_frames latest_webcam_frame at_most
last-recent_webcam_frames session_id window count s named pos =
    let fs = list_at s.frames (strip session_id) in
    let near = within_window window (last fs) fs in
    let positive : (count == 0) ≡ false = ground arith in
    rw named (
      last-at_most (some count) near ∙ last-within_window window fs,
      last-at_most none near ∙ last-within_window window fs,
      rw positive (length-keep_last count near),
    )
