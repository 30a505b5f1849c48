-- ===== src/Attachments/Sessions.antt =====
-- Sessions of the attachment store (src/attachment_store.py) do not see each other.
use nemotron_voice_agent.Base.{
  ℕ, ◌≡◌, refl, ◌∙◌, false, Option, List, [], ◌∷◌, ◌++◌, Text, text_eq, strip, arith, All, not,
  filter,
}
use nemotron_voice_agent.Base.Dict
use nemotron_voice_agent.Base.Dict.{Dict, get-put, get-pop}
use nemotron_voice_agent.Attachments.{
  Attachment, Store, Upload, list_at, add_to, register_listener, unregister, create_capture_request,
  consume_capture_request, store_attachment, attachment_of, remove_attachment,
  clear_session_attachments, remove_first, has_id,
}

-- The calls that change the store, with their arguments.
pub data Op : Type 0 where
  register forget : Text → ℕ → Op
  request : Text → Text → Op
  consume remove : Text → Text → Op
  upload : Text → Text → Upload → Op
  clear : Text → Op

unfoldable pub step : Store → Op → Store
step s (register session n) = register_listener session n s
step s (forget session n) = unregister session n s
step s (request hex session) = (create_capture_request hex session s).0
step s (consume session id) = (consume_capture_request session id s).0
step s (remove session id) = remove_attachment session id s
step s (upload hex now u) = (store_attachment hex now u s).0
step s (clear session) = clear_session_attachments session s

unfoldable pub run : Store → List Op → Store
run s [] = s
run s (o ∷ os) = run (step s o) os

-- The key of the session that a call names.
abbrev key_of : Op → Text
key_of (register session n) = strip session
key_of (forget session n) = strip session
key_of (request hex session) = strip session
key_of (consume session id) = strip session
key_of (remove session id) = strip session
key_of (upload hex now u) = strip u.session_id
key_of (clear session) = strip session

-- What the store holds of a session.
abbrev pub view : Store → Text → Option (List Attachment) × Option (List ℕ) × Option Text
view s key = (Dict.get s.attachments key, Dict.get s.listeners key, Dict.get s.captures key)

module _ {ℓ} {A : Type ℓ} (d : Dict A) (k key : Text) (other : text_eq k key ≡ false) where
  put_other : (v : A) → Dict.get (Dict.put d k v) key ≡ Dict.get d key
  put_other v = get-put d k key v ∙ rw other refl

  pop_other : Dict.get (Dict.pop d k) key ≡ Dict.get d key
  pop_other = get-pop d k key ∙ rw other refl

step-view :
    (s : Store) (o : Op) (key : Text)
    → text_eq (key_of o) key ≡ false
    → view (step s o) key ≡ view s key
unfolding step register_listener unregister create_capture_request consume_capture_request
    store_attachment attachment_of remove_attachment clear_session_attachments add_to
step-view s (register session n) key h =
    let k = strip session in
    ground (arith, put_other s.listeners k key h (list_at s.listeners k ++ n ∷ []))
step-view s (forget session n) key h =
    let k = strip session in
    ground (
      arith,
      put_other s.listeners k key h (remove_first n (list_at s.listeners k)),
      pop_other s.listeners k key h,
    )
step-view s (request hex session) key h =
    ground (arith, put_other s.captures (strip session) key h hex)
step-view s (consume session id) key h = ground (arith, pop_other s.captures (strip session) key h)
step-view s (remove session id) key h =
    let k = strip session in
    let kept = filter (λ a. not (has_id (strip id) a)) (list_at s.attachments k) in
    ground (arith, put_other s.attachments k key h kept)
step-view s (upload hex now u) key h =
    let a = attachment_of hex now s.sequence u in
    let k = strip u.session_id in
    ground (arith, put_other s.attachments k key h (list_at s.attachments k ++ a ∷ []))
step-view s (clear session) key h =
    rw
      (
        pop_other s.attachments (strip session) key h,
        pop_other s.listeners (strip session) key h,
        pop_other s.captures (strip session) key h,
      )
      refl

-- Whatever calls other sessions make, in whatever order, a session keeps its attachments, its listeners and
-- its capture request.
pub run-view :
    (s : Store) (os : List Op) (key : Text)
    → All (λ o. text_eq (key_of o) key ≡ false) os
    → view (run s os) key ≡ view s key
unfolding run
run-view s [] key h = refl
run-view s (o ∷ os) key h = run-view (step s o) os key h.1 ∙ step-view s o key h.0
