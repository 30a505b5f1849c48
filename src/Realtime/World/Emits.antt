-- ===== src/Realtime/World/Emits.antt =====
-- What sending does to the world: it appends to `sent`, and the state moves by the others' calls only.
use nemotron_voice_agent.Base.{
  ℕ, zero, suc, ◌+◌, ◌≡◌, refl, sym, ◌∙◌, ap, List, [], ◌∷◌, ◌++◌, append-nil, append_assoc, arith,
  length,
}
use nemotron_voice_agent.Realtime.Conversation.{ConversationState}
use nemotron_voice_agent.Realtime.Conversation.Invariant.{Op, step, run}
use nemotron_voice_agent.Realtime.Events.{Payload}
use nemotron_voice_agent.Realtime.World.{Schedule, World, emit, emit_all, IsQuiet}

run-append : (c : ConversationState) (os ps : List Op) → run c (os ++ ps) ≡ run (run c os) ps
unfolding run
run-append c [] ps = refl
run-append c (o ∷ os) ps = run-append (step c o) os ps

-- The operations of the others during `n` awaits from the `from`-th on.
pub window : Schedule → ℕ → ℕ → List Op
window s from zero = []
window s from (suc n) = s.others from ++ window s (from + 1) n

module _ (s : Schedule) where
  pub sent-emit_all : (ps : List Payload) (w : World) → (emit_all s ps w).sent ≡ w.sent ++ ps
  unfolding emit_all emit
  sent-emit_all [] w = sym (append-nil _)
  sent-emit_all (p ∷ ps) w = sent-emit_all ps (emit s p w) ∙ append_assoc w.sent (p ∷ []) ps

  pub conversation-emit_all :
      (ps : List Payload) (w : World)
      → (emit_all s ps w).conversation ≡ run w.conversation (window s w.awaits (length ps))
  unfolding emit_all emit window run
  conversation-emit_all [] w = refl
  conversation-emit_all (p ∷ ps) w =
      conversation-emit_all ps (emit s p w)
      ∙ sym (run-append w.conversation (s.others w.awaits) (window s (w.awaits + 1) (length ps)))

  pub uuids-emit_all : (ps : List Payload) (w : World) → (emit_all s ps w).uuids ≡ w.uuids
  unfolding emit_all emit
  uuids-emit_all [] w = refl
  uuids-emit_all (p ∷ ps) w = uuids-emit_all ps (emit s p w)

  pub awaits-emit_all :
      (ps : List Payload) (w : World) → (emit_all s ps w).awaits ≡ w.awaits + length ps
  unfolding emit_all emit
  awaits-emit_all [] w = omega arith
  awaits-emit_all (p ∷ ps) w = omega (arith, awaits-emit_all ps (emit s p w))

  pub emit_all-append :
      (ps qs : List Payload) (w : World) → emit_all s qs (emit_all s ps w) ≡ emit_all s (ps ++ qs) w
  unfolding emit_all
  emit_all-append [] qs w = refl
  emit_all-append (p ∷ ps) qs w = emit_all-append ps qs (emit s p w)

  -- With no other task running the state stays as it was.
  pub conversation-emit_all-IsQuiet :
      (ps : List Payload) (w : World) → IsQuiet s → (emit_all s ps w).conversation ≡ w.conversation
  unfolding emit_all emit run
  conversation-emit_all-IsQuiet [] w q = refl
  conversation-emit_all-IsQuiet (p ∷ ps) w q =
      conversation-emit_all-IsQuiet ps (emit s p w) q ∙ ap (run w.conversation) (q w.awaits)
