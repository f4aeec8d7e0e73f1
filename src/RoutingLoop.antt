-- ===== src/RoutingLoop.antt =====
-- Backend/internal/callqueue/routing_loop.go: a tick of the routing, and the messages that it sends.
-- The sender is the hub of the agents, whose processor holds the same tracker and the same manager as
-- the loop (cmd/server/main.go passes them to all three). `none` is a panic.
pub mod Delivery
use monti.Prelude.{ℕ, suc, Bool, List, [], ◌∷◌, Option, none, some, ◌>>=◌}
use monti.Prelude.Dict.{Dict}
use monti.Types.Vq.{VqName}
use monti.CallQueue.Manager.{CallQueueManager}
use monti.CallQueue.Tick.{RoutingMatch, tick_routing}
use monti.AgentHub.{AgentHub, call_assign, send_to_agent}

-- The manager, as the hub's processor holds it.
abbrev pub with_manager : CallQueueManager → AgentHub → AgentHub
with_manager m h =
    let p = h.processor in record h { processor = record p { call_completer = some m } }

-- The loop over the matches; a message that is not sent is only logged. The readings of the clock
-- and the choices of the `select` of the sends are sequences.
unfoldable pub send_matches : (ℕ → Bool) → (ℕ → ℕ) → List RoutingMatch → AgentHub → AgentHub
unfolding send_to_agent
send_matches picks clock [] h = h
send_matches picks clock (match ∷ rest) h =
    let msg = call_assign (record {
      agent_id = match.agent_id;
      call_id = match.call.call_id;
      vq = match.call.vq;
      timestamp = clock 0;
    }) in
    send_matches (λ i. picks (suc i)) (λ i. clock (suc i)) rest
      (send_to_agent (picks 0) match.agent_id msg h).1

-- tick
unfoldable pub tick :
    (ℕ → Bool) → (ℕ → ℕ) → (ℕ → ℕ) → Dict (List VqName) → AgentHub → Option AgentHub
unfolding send_matches tick_routing
tick picks routing_clock clock order h = h.processor.call_completer >>= λ m.
    tick_routing routing_clock h.processor.tracker order m >>= λ (matches, m').
    some (send_matches picks clock matches (with_manager m' h))
