-- ===== src/Realtime/World.antt =====
-- The tasks that share a session (src/realtime/events.py, `emit`): while one of them awaits the
-- sending of an event, the others may call methods of the shared conversation state. What they do
-- is an explicit list of operations for each await. The lock of src/realtime/transport.py, which sends
-- the events one at a time in the order of the calls, is left out: each interleaving that it admits is a
-- schedule here, beside others that it does not.
pub mod Emits
use nemotron_voice_agent.Base.{ℕ, ◌+◌, ◌≡◌, List, [], ◌∷◌, ◌++◌, Text}
use nemotron_voice_agent.Realtime.Conversation.{ConversationState}
use nemotron_voice_agent.Realtime.Conversation.Invariant.{Op, run}
use nemotron_voice_agent.Realtime.Events.{ServerEvent, Payload, with_beta_aliases}

-- `uuid n` is the hex of the n-th uuid of the task, `others n` what happens during its n-th await.
pub record Schedule : Type 0 where
  pub uuid : ℕ → Text
  pub others : ℕ → List Op

pub record World : Type 0 where
  pub conversation : ConversationState
  pub sent : List Payload
  pub uuids : ℕ
  pub awaits : ℕ

unfoldable pub emit : Schedule → Payload → World → World
emit s p w = record w {
  conversation = run w.conversation (s.others w.awaits);
  sent = w.sent ++ p ∷ [];
  awaits = w.awaits + 1;
}

unfoldable pub emit_all : Schedule → List Payload → World → World
emit_all s [] w = w
emit_all s (p ∷ ps) w = emit_all s ps (emit s p w)

unfoldable pub emit_with_aliases : Schedule → ServerEvent → World → World
emit_with_aliases s e w = emit_all s (with_beta_aliases e) w

-- No other task runs.
abbrev pub IsQuiet : Schedule → Type 0
IsQuiet s = (n : ℕ) → s.others n ≡ []

-- The schedule in which no other task runs.
abbrev pub alone : (ℕ → Text) → Schedule
alone uuid = record { uuid = uuid; others = λ n. [] }
