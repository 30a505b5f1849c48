-- ===== src/Attachments/Lookup.antt =====
-- What the readers of the attachment store return (src/attachment_store.py), and the single use of a
-- capture request.
use nemotron_voice_agent.Base.{
  ◌≡◌, refl, ◌∙◌, Bool, true, false, not, none, some, List, [], ◌∷◌, ◌++◌, Text, text_eq,
  text_eq_refl, is_empty, strip, filter, arith, if◌then◌else◌, last-append, find_last-append,
  find_first-filter, find_first, ◌||◌, Bool-cases, inl, inr,
}
use nemotron_voice_agent.Base.Dict
use nemotron_voice_agent.Base.Dict.{get-put, get-pop}
use nemotron_voice_agent.Attachments.{
  Attachment, Store, Upload, done, list_at, add_to, has_id, is_upload, create_capture_request,
  consume_capture_request, store_attachment, attachment_of, latest_attachment,
  latest_user_attachment, get_attachment, remove_attachment,
}

module _ (hex now : Text) (u : Upload) (s : Store) (a : Attachment)
    (stored : (store_attachment hex now u s).1.0 ≡ done a) where
  stored_log :
      list_at (store_attachment hex now u s).0.attachments (strip u.session_id)
      ≡ list_at s.attachments (strip u.session_id) ++ a ∷ []
  unfolding store_attachment add_to
  stored_log =
      let k = strip u.session_id in
      let made = attachment_of hex now s.sequence u in
      let put = get-put s.attachments k k (list_at s.attachments k ++ made ∷ []) in
      let same = text_eq_refl k in ground (arith, stored)

  -- An attachment that was stored is the latest of its session, and the latest upload if it is an upload. A
  -- capture leaves the latest upload as it was.
  pub latest-store_attachment :
      (latest_attachment u.session_id (store_attachment hex now u s).0 ≡ some a)
      × (latest_user_attachment u.session_id (store_attachment hex now u s).0
          ≡ (if is_upload a then some a else latest_user_attachment u.session_id s))
  unfolding latest_attachment latest_user_attachment
  latest-store_attachment = (
    rw stored_log (last-append (list_at s.attachments (strip u.session_id)) a),
    rw stored_log (find_last-append is_upload (list_at s.attachments (strip u.session_id)) a),
  )

has_id-other : (id : Text) (a : Attachment) → has_id id a ≡ true → not (has_id id a) ≡ false
has_id-other id a h = ground arith

find_first-is_empty :
    (p : Attachment → Bool) (log : List Attachment) → is_empty log ≡ true → find_first p log ≡ none
unfolding find_first
find_first-is_empty p [] h = refl
find_first-is_empty p (a ∷ log) h = ground arith

-- An attachment that was removed is not found.
get-remove_attachment :
    (session_id id : Text) (s : Store)
    → get_attachment session_id id (remove_attachment session_id id s) ≡ none
unfolding get_attachment remove_attachment
get-remove_attachment session_id id s =
    let k = strip session_id in
    let log = list_at s.attachments k in
    let kept = filter (λ a. not (has_id (strip id) a)) log in
    let put = get-put s.attachments k k kept in
    let gone =
      find_first-filter (has_id (strip id)) (λ a. not (has_id (strip id) a)) log
        (has_id-other (strip id)) in
    elim (Bool-cases (is_empty k || is_empty (strip id))) [
      | inl e ↦ rw e refl
      | inr e ↦ elim (Bool-cases (is_empty log)) [
        | inl f ↦
            let cond : (is_empty k || (is_empty (strip id) || is_empty log)) ≡ true =
              ground arith in
            rw (e, cond) (find_first-is_empty (has_id (strip id)) log f)
        | inr f ↦
            let cond : (is_empty k || (is_empty (strip id) || is_empty log)) ≡ false =
              ground arith in
            rw (e, cond) (rw put (rw (text_eq_refl k) gone))
      ]
    ]

-- A capture request is consumed once by its own id, and not at all once a newer request took its place.
consume-create_capture_request :
    (session_id hex hex' : Text) (s : Store)
    → is_empty (strip session_id) ≡ false
    → strip hex ≡ hex
    → is_empty hex ≡ false
    → text_eq hex' hex ≡ false
    → let requested = (create_capture_request hex session_id s).0 in
      let (consumed, first) = consume_capture_request session_id hex requested in
      let newer = (create_capture_request hex' session_id requested).0 in
      ((create_capture_request hex session_id s).1 ≡ done hex)
      × (first ≡ true)
      × ((consume_capture_request session_id hex consumed).1 ≡ false)
      × ((consume_capture_request session_id hex newer).1 ≡ false)
unfolding create_capture_request consume_capture_request
consume-create_capture_request session_id hex hex' s named stripped drawn other =
    let k = strip session_id in
    let once : Dict.get (Dict.put s.captures k hex) k ≡ some hex =
      get-put s.captures k k hex ∙ rw (text_eq_refl k) refl in
    let twice : Dict.get (Dict.put (Dict.put s.captures k hex) k hex') k ≡ some hex' =
      get-put (Dict.put s.captures k hex) k k hex' ∙ rw (text_eq_refl k) refl in
    let gone : Dict.get (Dict.pop (Dict.put s.captures k hex) k) k ≡ none =
      get-pop (Dict.put s.captures k hex) k k ∙ rw (text_eq_refl k) refl in
    rw (named, stripped, drawn, once, text_eq_refl hex, twice, other, gone) (refl, refl, refl, refl)
