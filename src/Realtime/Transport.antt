-- ===== src/Realtime/Transport.antt =====
-- The dialect filter of src/realtime/transport.py: of the names of an event a client gets one. A send that
-- fails because the socket is closed is left out.
mod Tests
use nemotron_voice_agent.Base.{
  ◌≡◌, refl, ap, ◌∙◌, Bool, true, false, not, List, [], ◌∷◌, ◌++◌, map, filter, Bool-cases, inl,
  inr, if◌then◌else◌,
}
use nemotron_voice_agent.Realtime.Events.{
  ServerEvent, Payload, ga, beta, has_beta_alias, with_beta_aliases,
}

-- `_emit`, up to the send: whether the payload goes out. The flag is `beta_event_names`.
abbrev pub goes_out : Bool → Payload → Bool
goes_out true (ga e) = not (has_beta_alias e)
goes_out true (beta e) = true
goes_out false (ga e) = true
goes_out false (beta e) = false

-- The payloads of a list of events, as `emit_with_aliases` passes them to `_emit`.
unfoldable pub payloads : List ServerEvent → List Payload
payloads [] = []
payloads (e ∷ es) = with_beta_aliases e ++ payloads es

-- The one name under which a client of the dialect knows an event.
abbrev pub known_as : Bool → ServerEvent → Payload
known_as beta_event_names e =
    if has_beta_alias e then (if beta_event_names then beta e else ga e) else ga e

two_names : (e : ServerEvent) → has_beta_alias e ≡ true → with_beta_aliases e ≡ ga e ∷ beta e ∷ []
unfolding with_beta_aliases
two_names e h = rw (with_beta_aliases, h) refl

one_name : (e : ServerEvent) → has_beta_alias e ≡ false → with_beta_aliases e ≡ ga e ∷ []
unfolding with_beta_aliases
one_name e h = rw (with_beta_aliases, h) refl

goes_out_once :
    (names : Bool) (e : ServerEvent) (rest : List Payload)
    → filter (goes_out names) (with_beta_aliases e ++ rest)
      ≡ known_as names e ∷ filter (goes_out names) rest
unfolding filter
goes_out_once true e rest = elim (Bool-cases (has_beta_alias e)) [
  | inl h ↦ rw (two_names e h) (rw h refl)
  | inr h ↦ rw (one_name e h) (rw h refl)
]
goes_out_once false e rest = elim (Bool-cases (has_beta_alias e)) [
  | inl h ↦ rw (two_names e h) (rw h refl)
  | inr h ↦ rw (one_name e h) (rw h refl)
]

-- A client of either dialect gets every event exactly once, in order, under the name of its dialect.
filter-payloads :
    (names : Bool) (es : List ServerEvent)
    → filter (goes_out names) (payloads es) ≡ map (known_as names) es
unfolding payloads filter
filter-payloads names [] = refl
filter-payloads names (e ∷ es) =
    goes_out_once names e (payloads es)
    ∙ ap (λ ps. known_as names e ∷ ps) (filter-payloads names es)
