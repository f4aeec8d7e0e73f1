-- ===== src/Tracker/History.antt =====
-- What may happen to the tracker, as a list of changes.
use monti.Prelude.{ℕ, String, Bool, List, [], ◌∷◌}
use monti.Types.Vq.{Department}
use monti.Types.Agent.{AgentEvent}
use monti.Types.Message.{AgentHeartbeat, AgentStateChange, AgentRegister}
use monti.Tracker.{
  AgentStateTracker, update, update_from_heartbeat, update_from_state_change, register_agent,
  set_connected, set_disconnected, register_offline_agent, check_stale_agents, clear,
}

pub data TrackerOp : Type 0 where
  updates : ℕ → AgentEvent → TrackerOp
  heartbeats : ℕ → ℕ → ℕ → AgentHeartbeat → TrackerOp
  changes : ℕ → ℕ → ℕ → AgentStateChange → TrackerOp
  registers : ℕ → AgentRegister → TrackerOp
  connects : ℕ → String → Bool → TrackerOp
  disconnects : ℕ → ℕ → String → TrackerOp
  enlists : ℕ → String → Department → String → String → TrackerOp
  checks : ℕ → TrackerOp
  clears : TrackerOp

unfoldable pub step : TrackerOp → AgentStateTracker → AgentStateTracker
step (updates now event) t = update now event t
step (heartbeats start hb_now up hb) t = update_from_heartbeat start hb_now up hb t
step (changes start hb_now up sc) t = update_from_state_change start hb_now up sc t
step (registers now reg) t = register_agent now reg t
step (connects now agent_id is_up) t = set_connected now agent_id is_up t
step (disconnects start hb_now agent_id) t = set_disconnected start hb_now agent_id t
step (enlists now agent_id dept loc team) t = register_offline_agent now agent_id dept loc team t
step (checks now) t = check_stale_agents now t
step clears t = (clear t).1

unfoldable pub run : List TrackerOp → AgentStateTracker → AgentStateTracker
run [] t = t
run (op ∷ ops) t = run ops (step op t)
