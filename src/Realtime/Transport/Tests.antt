-- ===== src/Realtime/Transport/Tests.antt =====
-- An event with an older name and one without (src/realtime/transport.py).
use nemotron_voice_agent.Base.{◌≡◌, refl, true, none, List, [], ◌∷◌, map, filter, codes}
use nemotron_voice_agent.Realtime.Events.{
  ServerEvent, audio_cleared, output_audio_done, with_beta_aliases,
}
use nemotron_voice_agent.Realtime.Transport.{goes_out, payloads, known_as}

abbrev events : List ServerEvent
events = output_audio_done (codes "resp_1") none ∷ audio_cleared ∷ []

events_of_older_client : filter (goes_out true) (payloads events) ≡ map (known_as true) events
unfolding payloads filter with_beta_aliases
events_of_older_client = refl
