-- ===== src/Webcam/Ring.antt =====
-- The ring of webcam frames (src/webcam_frame_store.py): whatever is stored, a session has the last frames that
-- were accepted for it.
use nemotron_voice_agent.Base.{
  ℕ, ◌+◌, ◌-◌, ◌≤◌, ◌≡◌, refl, sym, ap, ◌∙◌, Option, none, some, List, [], ◌∷◌, ◌++◌, append_assoc,
  append-nil, Text, text_eq, text_eq_sound, length, drop, arith, length-append, length-drop,
  drop-append, drop-drop, if◌then◌else◌, Bool-cases, inl, inr,
}
use nemotron_voice_agent.Base.Dict.{get-put}
use nemotron_voice_agent.Attachments.{list_at}
use nemotron_voice_agent.Webcam.{
  WebcamFrame, FrameStore, Snapshot, FrameRefusal, frame_of, frame_refusal, frame_ring_limit,
  keep_last, store_if, store_webcam_frame,
}

module _ {ℓ} {A : Type ℓ} (n : ℕ) where
  pub keep_last-append :
      (xs : List A) (x : A) → keep_last n (keep_last n xs ++ x ∷ []) ≡ keep_last n (xs ++ x ∷ [])
  unfolding keep_last
  keep_last-append xs x =
      let k = length xs - n in
      let cut : drop k xs ++ x ∷ [] ≡ drop k (xs ++ x ∷ []) =
        sym (drop-append k xs (x ∷ []) (omega arith)) in
      let short : length (drop k xs ++ x ∷ []) ≡ length xs - k + 1 =
        omega (arith, length-append (drop k xs) (x ∷ []), length-drop k xs) in
      let long : length (xs ++ x ∷ []) ≡ length xs + 1 = length-append xs (x ∷ []) ∙ omega arith in
      let total : k + (length xs - k + 1 - n) ≡ length xs + 1 - n = omega arith in
      rw (short, long)
        (rw cut (
          drop-drop (length xs - k + 1 - n) k (xs ++ x ∷ [])
          ∙ ap (λ m. drop m (xs ++ x ∷ [])) total))

  pub length-keep_last : (xs : List A) → length (keep_last n xs) ≤ n
  unfolding keep_last
  length-keep_last xs = omega (arith, length-drop (length xs - n) xs)

unfoldable pub store_all : List Snapshot → FrameStore → FrameStore
store_all [] s = s
store_all (u ∷ us) s = store_all us (store_webcam_frame u s).0

-- The frames that the calls add to the session `key`, in order. A call that is refused draws no number.
abbrev logged : Text → WebcamFrame → Option FrameRefusal → List WebcamFrame
logged key f (some r) = []
logged key f none = if text_eq f.session_id key then f ∷ [] else []

abbrev next_number : Option FrameRefusal → ℕ → ℕ
next_number (some r) n = n
next_number none n = n + 1

unfoldable pub accepted : Text → ℕ → List Snapshot → List WebcamFrame
accepted key n [] = []
accepted key n (u ∷ us) =
    let refusal = frame_refusal (frame_of n u) in
    logged key (frame_of n u) refusal ++ accepted key (next_number refusal n) us

store_if-keep_last :
    (r : Option FrameRefusal) (f : WebcamFrame) (s : FrameStore) (key : Text)
    (log : List WebcamFrame)
    → list_at s.frames key ≡ keep_last frame_ring_limit log
    → list_at (store_if r f s).0.frames key ≡ keep_last frame_ring_limit (log ++ logged key f r)
unfolding store_if
store_if-keep_last (some r) f s key log h =
    h ∙ ap (keep_last frame_ring_limit) (sym (append-nil log))
store_if-keep_last none f s key log h = elim (Bool-cases (text_eq f.session_id key)) [
  | inl e ↦
      let same : list_at s.frames f.session_id ≡ keep_last frame_ring_limit log =
        ap (list_at s.frames) (text_eq_sound f.session_id key e) ∙ h in
      rw
        (get-put s.frames f.session_id key
          (keep_last frame_ring_limit (list_at s.frames f.session_id ++ f ∷ [])))
        (rw e (rw same ((keep_last-append frame_ring_limit log f))))
  | inr e ↦
      rw
        (get-put s.frames f.session_id key
          (keep_last frame_ring_limit (list_at s.frames f.session_id ++ f ∷ [])))
        (rw e (h ∙ ap (keep_last frame_ring_limit) (sym (append-nil log))))
]

next-store_if :
    (r : Option FrameRefusal) (f : WebcamFrame) (s : FrameStore)
    → (store_if r f s).0.next_sequence ≡ next_number r s.next_sequence
unfolding store_if
next-store_if (some r) f s = refl
next-store_if none f s = refl

-- After any calls, refused ones and those of other sessions among them, a session has the last
-- `frame_ring_limit` of the frames that were accepted for it, in order, if it had so before.
pub frames-store_all :
    (us : List Snapshot) (s : FrameStore) (key : Text) (log : List WebcamFrame)
    → list_at s.frames key ≡ keep_last frame_ring_limit log
    → list_at (store_all us s).frames key
      ≡ keep_last frame_ring_limit (log ++ accepted key s.next_sequence us)
unfolding store_all accepted store_webcam_frame
frames-store_all [] s key log h = h ∙ ap (keep_last frame_ring_limit) (sym (append-nil log))
frames-store_all (u ∷ us) s key log h =
    let f = frame_of s.next_sequence u in
    let refusal = frame_refusal f in
    let after = (store_if refusal f s).0 in
    let rest =
      frames-store_all us after key (log ++ logged key f refusal)
        (store_if-keep_last refusal f s key log h) in
    rest
    ∙ ap (λ n. keep_last frame_ring_limit ((log ++ logged key f refusal) ++ accepted key n us))
        (next-store_if refusal f s)
    ∙ ap (keep_last frame_ring_limit) (
        append_assoc log (logged key f refusal)
          (accepted key (next_number refusal s.next_sequence) us))
