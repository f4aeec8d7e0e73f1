-- ===== src/AgentHub/History.antt =====
-- The operations on the hub, and what a sequence of them leaves.
use monti.Prelude.{ℕ, String, Bool, List, [], ◌∷◌, Option}
use monti.CallQueue.Manager.{TimeFormat}
use monti.AgentHub.{AgentHub, Inbound, Readings, process, force_end_call, force_disconnect}
use monti.AgentHub.Connections.{
  serve_http, handle_message, MultiplexedAgentClient, serve_multiplexed_http, handle_mux_message,
  end_mux_read, end_read,
}

-- The operations on a hub. What a client or a connection is, is arbitrary.
pub data HubOp : Type 0 where
  serves : ℕ → ℕ → HubOp
  says : Bool → ℕ → Option Inbound → HubOp
  ends : ℕ → ℕ → ℕ → HubOp
  opens : ℕ → HubOp
  mux_says : Bool → ℕ → Option Inbound → MultiplexedAgentClient → HubOp
  mux_ends : ℕ → ℕ → MultiplexedAgentClient → HubOp
  processes : TimeFormat → Readings → Inbound → HubOp
  force_ends : Bool → String → String → HubOp
  logs_off : Bool → ℕ → ℕ → String → HubOp

unfoldable pub step : HubOp → AgentHub → AgentHub
unfolding serve_http handle_message end_read serve_multiplexed_http handle_mux_message end_mux_read
    process force_end_call force_disconnect
step (serves now n) h = serve_http now n h
step (says pick ref msg) h = (handle_message pick ref msg h).1
step (ends s t ref) h = end_read s t ref h
step (opens n) h = (serve_multiplexed_http n h).1
step (mux_says pick now msg c) h = (handle_mux_message pick now msg c h).2
step (mux_ends s t c) h = end_mux_read s t c h
step (processes f t msg) h = process f t msg h
step (force_ends pick agent_id call_id) h = (force_end_call pick agent_id call_id h).1
step (logs_off pick s t agent_id) h = (force_disconnect pick s t agent_id h).1

unfoldable pub run : List HubOp → AgentHub → AgentHub
run [] h = h
run (op ∷ ops) h = run ops (step op h)
