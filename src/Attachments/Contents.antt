-- ===== src/Attachments/Contents.antt =====
-- What the attachment store holds (src/attachment_store.py).
use nemotron_voice_agent.Base.{
  ℕ, ◌+◌, ◌<◌, ◌≡◌, refl, Bool, true, false, not, none, some, List, [], ◌∷◌, ◌++◌, Text, text_eq,
  text_eq_sound, text_in, is_empty, strip, filter, arith, All, All-append, Bool-cases, inl, inr,
  both, both_if, both_else, not-false, subst, sym,
}
use nemotron_voice_agent.Base.Dict
use nemotron_voice_agent.Base.Dict.{Dict, get-put, get-pop}
use nemotron_voice_agent.Attachments.{
  Result, Attachment, Store, Upload, kinds, sources, list_at, or_empty, add_to, has_id,
  register_listener, unregister, create_capture_request, consume_capture_request, store_attachment,
  attachment_of, remove_attachment, clear_session_attachments,
}
use nemotron_voice_agent.Attachments.Sessions.{
  Op, register, forget, request, consume, remove, upload, clear, step, run,
}

-- An attachment of the session `key`, numbered below `n`.
pub record IsValid (key : Text) (n : ℕ) (a : Attachment) : Type 0 where
  pub own : a.session_id ≡ key
  pub numbered : a.sequence < n
  pub known_kind : text_in a.kind kinds ≡ true
  pub known_source : text_in a.source sources ≡ true
  pub has_payload : is_empty a.payload ≡ false

-- Valid attachments in the order of their numbers.
abbrev IsLog : Text → ℕ → List Attachment → Type 0
IsLog key n [] = Unit
IsLog key n (a ∷ log) = IsValid key n a × All (λ b. a.sequence < b.sequence) log × IsLog key n log

pub record HasLogs (s : Store) : Type 0 where
  pub logs : (key : Text) → IsLog key s.sequence (list_at s.attachments key)

IsLog-suc : (key : Text) (n : ℕ) (log : List Attachment) → IsLog key n log → IsLog key (n + 1) log
IsLog-suc key n [] h = tt
IsLog-suc key n (a ∷ log) h = (ground arith, h.1, IsLog-suc key n log h.2)

numbers_below :
    (key : Text) (n : ℕ) (log : List Attachment) → IsLog key n log → All (λ b. b.sequence < n) log
numbers_below key n [] h = tt
numbers_below key n (a ∷ log) h = (h.0.numbered, numbers_below key n log h.2)

IsLog-append :
    (key : Text) (n : ℕ) (log : List Attachment) (a : Attachment)
    → IsLog key n log
    → a.sequence ≡ n
    → IsValid key (n + 1) a
    → IsLog key (n + 1) (log ++ a ∷ [])
IsLog-append key n [] a h e v = (v, tt, tt)
IsLog-append key n (b ∷ log) a h e v = (
  ground arith,
  All-append (λ x. b.sequence < x.sequence) log (a ∷ []) h.1 (ground arith, tt),
  IsLog-append key n log a h.2 e v,
)

All-filter :
    (P : Attachment → Type 0) (p : Attachment → Bool) (log : List Attachment)
    → All P log
    → All P (filter p log)
unfolding filter
All-filter P p [] h = h
All-filter P p (a ∷ log) h = elim (Bool-cases (p a)) [
  | inl e ↦ rw e (h.0, All-filter P p log h.1)
  | inr e ↦ rw e (All-filter P p log h.1)
]

IsLog-filter :
    (key : Text) (n : ℕ) (p : Attachment → Bool) (log : List Attachment)
    → IsLog key n log
    → IsLog key n (filter p log)
unfolding filter
IsLog-filter key n p [] h = h
IsLog-filter key n p (a ∷ log) h = elim (Bool-cases (p a)) [
  | inl e ↦
      rw e (h.0, All-filter (λ b. a.sequence < b.sequence) p log h.1, IsLog-filter key n p log h.2)
  | inr e ↦ rw e (IsLog-filter key n p log h.2)
]

module _ (d : Dict (List Attachment)) (n : ℕ) (k : Text)
    (logs : (key : Text) → IsLog key n (list_at d key)) where
  put-IsLog :
      (m : ℕ) (log : List Attachment)
      → ((key : Text) (bs : List Attachment) → IsLog key n bs → IsLog key m bs)
      → IsLog k m log
      → (key : Text) → IsLog key m (list_at (Dict.put d k log) key)
  put-IsLog m log later new key =
      subst (λ o. IsLog key m (or_empty o)) (sym (get-put d k key log))
        (both_if (λ o. IsLog key m (or_empty o)) (text_eq k key) (some log) (Dict.get d key)
          (λ e. subst (λ x. IsLog x m log) (text_eq_sound k key e) new) (later key _ (logs key)))

  pop-IsLog : (key : Text) → IsLog key n (list_at (Dict.pop d k) key)
  pop-IsLog key =
      subst (λ o. IsLog key n (or_empty o)) (sym (get-pop d k key))
        (both (λ o. IsLog key n (or_empty o)) (text_eq k key) none (Dict.get d key) tt (logs key))

-- A call that leaves the attachments and the counter alone.
same-HasLogs :
    (s t : Store) → t.sequence ≡ s.sequence → t.attachments ≡ s.attachments → HasLogs s → HasLogs t
same-HasLogs s t e f h = record {
  logs = λ key. rw e (subst (λ d. IsLog key s.sequence (list_at d key)) (sym f) (h.logs key));
}

store-HasLogs :
    (hex now : Text) (u : Upload) (s : Store) → HasLogs s → HasLogs (store_attachment hex now u s).0
unfolding store_attachment add_to
store-HasLogs hex now u s h =
    let a = attachment_of hex now s.sequence u in
    let log = list_at s.attachments a.session_id in
    let stored : (v : IsValid a.session_id (s.sequence + 1) a)
        → HasLogs (record s {
          sequence = s.sequence + 1;
          attachments = add_to s.attachments a.session_id a;
        }) =
      λ v. record {
        logs =
            put-IsLog s.attachments s.sequence a.session_id h.logs (s.sequence + 1) (log ++ a ∷ [])
              (λ key bs. IsLog-suc key s.sequence bs)
              (IsLog-append a.session_id s.sequence log a (h.logs a.session_id) refl v);
      } in
    let valid : text_in a.kind kinds ≡ true
        → text_in a.source sources ≡ true
        → is_empty u.payload ≡ false
        → IsValid a.session_id (s.sequence + 1) a =
      λ p q r. record {
        own = refl;
        numbered = omega arith;
        known_kind = p;
        known_source = q;
        has_payload = r;
      } in
    let P : Store × (Result Attachment × List ℕ) → Type 0 = λ r. HasLogs r.0 in
    both P _ _ _ h (
      both_else P _ _ _ h (λ p.
        both_else P _ _ _ h
          (λ q. both_else P _ _ _ h (λ r. stored (valid (not-false _ p) (not-false _ q) r)))))

step-HasLogs : (s : Store) (o : Op) → HasLogs s → HasLogs (step s o)
unfolding step register_listener unregister create_capture_request consume_capture_request
    remove_attachment clear_session_attachments
step-HasLogs s (register session n) h = same-HasLogs s _ (ground arith) (ground arith) h
step-HasLogs s (forget session n) h = same-HasLogs s _ (ground arith) (ground arith) h
step-HasLogs s (request hex session) h = same-HasLogs s _ (ground arith) (ground arith) h
step-HasLogs s (consume session id) h = same-HasLogs s _ (ground arith) (ground arith) h
step-HasLogs s (remove session id) h =
    let k = strip session in
    let p : Attachment → Bool = λ a. not (has_id (strip id) a) in
    let kept =
      put-IsLog s.attachments s.sequence k h.logs s.sequence (filter p (list_at s.attachments k))
        (λ key bs b. b) (IsLog-filter k s.sequence p (list_at s.attachments k) (h.logs k)) in
    both HasLogs _ _ _ h (record { logs = kept })
step-HasLogs s (upload hex now u) h = store-HasLogs hex now u s h
step-HasLogs s (clear session) h = record {
  logs = pop-IsLog s.attachments s.sequence (strip session) h.logs;
}

-- Where every session holds attachments of its own, of a known kind and source and with data, in the order
-- of their numbers, it does so after any sequence of calls.
pub run-HasLogs : (s : Store) (os : List Op) → HasLogs s → HasLogs (run s os)
unfolding run
run-HasLogs s [] h = h
run-HasLogs s (o ∷ os) h = run-HasLogs (step s o) os (step-HasLogs s o h)
