-- ===== src/Tracker/Stale.antt =====
-- Connections whose heartbeat stopped.
use monti.Prelude.{ℕ, ◌+◌, ◌≡◌, refl, Bool, not, [], ◌∷◌, arith, keep, ltb}
use monti.Prelude.Dict.{Dict, values}
use monti.Types.Agent.{AgentInfo}
use monti.Tracker.{
  AgentStateTracker, stale_threshold, is_connected, map_values, check_stale, check_stale_agents,
  get_connected_agents,
}

-- The last heartbeat is at most StaleThreshold old.
abbrev pub is_fresh : ℕ → AgentInfo → Bool
is_fresh now a = not (ltb (a.last_heartbeat + stale_threshold) now)

keep-connected :
    (now : ℕ) (m : Dict AgentInfo)
    → keep (λ a. is_connected a.connection_status) (values (map_values (check_stale now) m))
      ≡ keep (is_fresh now) (keep (λ a. is_connected a.connection_status) (values m))
unfolding check_stale
keep-connected now [] = refl
keep-connected now ((k, a) ∷ m) = ground (arith, keep-connected now m)

-- After the check the connected agents are exactly those that were connected and whose last
-- heartbeat is at most six seconds old, unchanged and in the same order.
pub get_connected_agents-check_stale_agents :
    (now : ℕ) (t : AgentStateTracker)
    → get_connected_agents (check_stale_agents now t) ≡ keep (is_fresh now) (get_connected_agents t)
unfolding get_connected_agents check_stale_agents
get_connected_agents-check_stale_agents now t = keep-connected now t.agents
