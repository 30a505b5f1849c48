-- ===== src/Attachments.antt =====
-- src/attachment_store.py: the media that the client of a session uploads or that an agent captures. The
-- module's dictionaries are one record; every function holds the lock while it touches them, so it is one
-- step. A listener is the number of the callable; a function returns the listeners that it calls. The
-- uuid drawn and the time are arguments. The field `data` is named `payload`.
pub mod Sessions
pub mod Contents
pub mod Lookup
mod Tests
use nemotron_voice_agent.Base.{
  ℕ, ◌+◌, Bool, true, false, not, ◌&&◌, ◌||◌, Option, none, some, List, [], ◌∷◌, ◌++◌, Text, codes,
  text_eq, text_in, is_empty, strip, lower, find_first, find_last, last, filter, ◌==◌,
  if◌then◌else◌,
}
use nemotron_voice_agent.Base.Dict
use nemotron_voice_agent.Base.Dict.{Dict}

pub record Attachment : Type 0 where
  pub id : Text
  pub session_id : Text
  pub sequence : ℕ
  pub kind : Text
  pub name : Text
  pub content_type : Text
  pub payload : List ℕ
  pub created_at : Text
  pub source : Text

pub record Store : Type 0 where
  pub sequence : ℕ
  pub attachments : Dict (List Attachment)
  pub listeners : Dict (List ℕ)
  pub captures : Dict Text

abbrev pub no_attachments : Store
no_attachments = record { sequence = 1; attachments = []; listeners = []; captures = [] }

abbrev pub or_empty {ℓ} : {A : Type ℓ} → Option (List A) → List A
or_empty none = []
or_empty (some xs) = xs

-- `d.get(key, ())` of a dictionary of lists
abbrev pub list_at {ℓ} : {A : Type ℓ} → Dict (List A) → Text → List A
list_at d key = or_empty (Dict.get d key)

-- `d.setdefault(key, []).append(x)`
unfoldable pub add_to {ℓ} : {A : Type ℓ} → Dict (List A) → Text → A → Dict (List A)
add_to d key x = Dict.put d key (list_at d key ++ x ∷ [])

unfoldable pub register_listener : Text → ℕ → Store → Store
unfolding add_to
register_listener session_id listener s =
    let key = strip session_id in
    if is_empty key then s else record s { listeners = add_to s.listeners key listener }

-- `listeners.remove(listener)`, the first occurrence, if there is one
unfoldable pub remove_first : ℕ → List ℕ → List ℕ
remove_first n [] = []
remove_first n (x ∷ xs) = let rest = remove_first n xs in if x == n then xs else x ∷ rest

-- What `register_attachment_listener` returns for the callable.
unfoldable pub unregister : Text → ℕ → Store → Store
unfolding remove_first
unregister session_id listener s =
    let key = strip session_id in
    let listeners = remove_first listener (list_at s.listeners key) in
    if is_empty key || is_empty (list_at s.listeners key)
    then s
    else if is_empty listeners
    then record s { listeners = Dict.pop s.listeners key }
    else record s { listeners = Dict.put s.listeners key listeners }

-- The errors that are raised as `ValueError`.
pub data Refusal : Type 0 where
  no_session bad_kind bad_source no_data : Refusal

pub data Result {ℓ} (A : Type ℓ) : Type ℓ where
  refused : Refusal → Result A
  done : A → Result A

unfoldable pub create_capture_request : Text → Text → Store → Store × Result Text
create_capture_request hex session_id s =
    let key = strip session_id in
    if is_empty key
    then (s, refused no_session)
    else (record s { captures = Dict.put s.captures key hex }, done hex)

abbrev is_value : Option Text → Text → Bool
is_value none t = false
is_value (some u) t = text_eq u t

unfoldable pub consume_capture_request : Text → Text → Store → Store × Bool
consume_capture_request session_id request_id s =
    let key = strip session_id in
    let request = strip request_id in
    if is_empty key || is_empty request
    then (s, false)
    else if is_value (Dict.get s.captures key) request
    then (record s { captures = Dict.pop s.captures key }, true)
    else (s, false)

abbrev pub or_text : Text → Text → Text
or_text [] other = other
or_text (x ∷ t) other = x ∷ t

abbrev pub kinds : List Text
kinds = codes "image" ∷ codes "audio" ∷ codes "video" ∷ []

abbrev pub sources : List Text
sources = codes "upload" ∷ codes "capture" ∷ []

-- The keyword arguments of `store_attachment`.
pub record Upload : Type 0 where
  pub session_id : Text
  pub kind : Text
  pub name : Text
  pub content_type : Text
  pub payload : List ℕ
  pub source : Text

-- The attachment that the call makes.
unfoldable pub attachment_of : Text → Text → ℕ → Upload → Attachment
attachment_of hex now n u =
    let kind = lower (strip u.kind) in
    record {
      id = hex;
      session_id = strip u.session_id;
      sequence = n;
      kind = kind;
      name = or_text (strip u.name) (codes "attachment");
      content_type = or_text (strip u.content_type) (kind ++ codes "/*");
      payload = u.payload;
      created_at = now;
      source = or_text (lower (strip u.source)) (codes "upload");
    }

unfoldable pub store_attachment :
    Text → Text → Upload → Store → Store × (Result Attachment × List ℕ)
unfolding attachment_of add_to text_in
store_attachment hex now u s =
    let a = attachment_of hex now s.sequence u in
    if is_empty a.session_id
    then (s, (refused no_session, []))
    else if not (text_in a.kind kinds)
    then (s, (refused bad_kind, []))
    else if not (text_in a.source sources)
    then (s, (refused bad_source, []))
    else if is_empty u.payload
    then (s, (refused no_data, []))
    else (
      record s { sequence = s.sequence + 1; attachments = add_to s.attachments a.session_id a },
      (done a, list_at s.listeners a.session_id),
    )

unfoldable pub latest_attachment : Text → Store → Option Attachment
latest_attachment session_id s = last (list_at s.attachments (strip session_id))

abbrev pub is_upload : Attachment → Bool
is_upload a = text_eq a.source (codes "upload")

unfoldable pub latest_user_attachment : Text → Store → Option Attachment
latest_user_attachment session_id s = find_last is_upload (list_at s.attachments (strip session_id))

abbrev pub has_id : Text → Attachment → Bool
has_id id a = text_eq a.id id

unfoldable pub get_attachment : Text → Text → Store → Option Attachment
get_attachment session_id attachment_id s =
    let key = strip session_id in
    let id = strip attachment_id in
    if is_empty key || is_empty id then none else find_first (has_id id) (list_at s.attachments key)

unfoldable pub remove_attachment : Text → Text → Store → Store
remove_attachment session_id attachment_id s =
    let key = strip session_id in
    let id = strip attachment_id in
    if is_empty key || (is_empty id || is_empty (list_at s.attachments key)) then s else record s {
      attachments =
          Dict.put s.attachments key (filter (λ a. not (has_id id a)) (list_at s.attachments key));
    }

unfoldable pub clear_session_attachments : Text → Store → Store
clear_session_attachments session_id s =
    let key = strip session_id in
    record s {
      attachments = Dict.pop s.attachments key;
      listeners = Dict.pop s.listeners key;
      captures = Dict.pop s.captures key;
    }
