-- ===== src/Tracker.antt =====
-- Backend/internal/cache/agent_state.go: what is known of every agent. A method that mutates the
-- tracker, or an AgentInfo in its map, returns the new tracker; the read-write lock makes each
-- method one step. Each reading of the clock is an argument.
pub mod Snapshot
pub mod History
pub mod Invariant
pub mod Stale
pub mod Available
use monti.Prelude.{
  ℕ, suc, ◌+◌, String, Bool, true, false, ◌&&◌, List, [], ◌∷◌, Option, none, some, ◌==◌, ltb,
  if◌then◌else◌, length, keep,
}
use monti.Prelude.Dict.{Dict, lookup, insert, values}
use monti.Types.Vq.{Department}
use monti.Types.Agent.{
  AgentInfo, AgentEvent, ConnectionStatus, connected, disconnected, stale, state_available,
  state_offline, no_kpis,
}
use monti.Types.Message.{AgentHeartbeat, AgentStateChange, AgentRegister}

pub record AgentStateTracker : Type 0 where
  pub agents : Dict AgentInfo

-- NewAgentStateTracker
unfoldable pub new_agent_state_tracker : AgentStateTracker
new_agent_state_tracker = record { agents = [] }

-- StaleThreshold, six seconds
abbrev pub stale_threshold : ℕ
stale_threshold = 6000000000

-- `agent.ConnectionStatus == types.StatusConnected`
abbrev pub is_connected : ConnectionStatus → Bool
is_connected connected = true
is_connected _ = false

-- Writes an entry of the map.
abbrev put : String → AgentInfo → AgentStateTracker → AgentStateTracker
put agent_id a t = record t { agents = insert agent_id a t.agents }

-- Update; `now` is the reading for LastHeartbeat.
unfoldable pub update : ℕ → AgentEvent → AgentStateTracker → AgentStateTracker
update now event t = elim (lookup event.agent_id t.agents) [
  | none ↦ put event.agent_id (entry event.timestamp connected) t
  | some existing ↦
      put event.agent_id
        (entry (if existing.state == event.state then existing.state_start else event.timestamp)
          existing.connection_status)
        t
]
  where
    entry : ℕ → ConnectionStatus → AgentInfo
    entry state_start status = record {
      agent_id = event.agent_id;
      state = event.state;
      department = event.department;
      location = event.location;
      team = event.team;
      state_start = state_start;
      last_update = event.timestamp;
      last_heartbeat = now;
      connection_status = status;
      kpis = event.kpis;
      current_call_id = "";
      current_vq = "";
      call_start_time = none;
      acw_start_time = none;
      break_start_time = none;
      alerts = [];
    }

-- UpdateFromHeartbeat; the readings for StateStart, LastHeartbeat and LastUpdate.
unfoldable pub update_from_heartbeat :
    ℕ → ℕ → ℕ → AgentHeartbeat → AgentStateTracker → AgentStateTracker
update_from_heartbeat start_now heartbeat_now update_now hb t = elim (lookup hb.agent_id t.agents) [
  | none ↦ t
  | some existing ↦
      put hb.agent_id
        (record existing {
          state = hb.state;
          kpis = hb.kpis;
          last_heartbeat = heartbeat_now;
          last_update = update_now;
          connection_status = connected;
          state_start = if existing.state == hb.state then existing.state_start else start_now;
        })
        t
]

-- UpdateFromStateChange; the readings for StateStart, LastHeartbeat and LastUpdate.
unfoldable pub update_from_state_change :
    ℕ → ℕ → ℕ → AgentStateChange → AgentStateTracker → AgentStateTracker
update_from_state_change start_now heartbeat_now update_now sc t =
    elim (lookup sc.agent_id t.agents) [
      | none ↦
          put sc.agent_id
            (record {
              agent_id = sc.agent_id;
              state = sc.new_state;
              department = sc.department;
              location = sc.location;
              team = sc.team;
              state_start = start_now;
              last_update = update_now;
              last_heartbeat = heartbeat_now;
              connection_status = connected;
              kpis = sc.kpis;
              current_call_id = "";
              current_vq = "";
              call_start_time = none;
              acw_start_time = none;
              break_start_time = none;
              alerts = [];
            })
            t
      | some existing ↦
          put sc.agent_id
            (record existing {
              state = sc.new_state;
              kpis = sc.kpis;
              last_heartbeat = heartbeat_now;
              last_update = update_now;
              connection_status = connected;
              state_start = start_now;
            })
            t
    ]

-- RegisterAgent
unfoldable pub register_agent : ℕ → AgentRegister → AgentStateTracker → AgentStateTracker
register_agent now reg t = elim (lookup reg.agent_id t.agents) [
  | some existing ↦
      put reg.agent_id
        (record existing {
          state = reg.state;
          department = reg.department;
          location = reg.location;
          team = reg.team;
          state_start = now;
          last_update = now;
          last_heartbeat = now;
          connection_status = connected;
          kpis = reg.kpis;
        })
        t
  | none ↦
      put reg.agent_id
        (record {
          agent_id = reg.agent_id;
          state = reg.state;
          department = reg.department;
          location = reg.location;
          team = reg.team;
          state_start = now;
          last_update = now;
          last_heartbeat = now;
          connection_status = connected;
          kpis = reg.kpis;
          current_call_id = "";
          current_vq = "";
          call_start_time = none;
          acw_start_time = none;
          break_start_time = none;
          alerts = [];
        })
        t
]

-- SetConnected
unfoldable pub set_connected : ℕ → String → Bool → AgentStateTracker → AgentStateTracker
set_connected now agent_id is_up t = elim (lookup agent_id t.agents) [
  | none ↦ t
  | some agent ↦
      put agent_id
        (record agent {
          connection_status = if is_up then connected else disconnected;
          last_heartbeat = now;
        })
        t
]

-- SetDisconnected; the readings for StateStart and LastHeartbeat.
unfoldable pub set_disconnected : ℕ → ℕ → String → AgentStateTracker → AgentStateTracker
set_disconnected start_now heartbeat_now agent_id t = elim (lookup agent_id t.agents) [
  | none ↦ t
  | some agent ↦
      put agent_id
        (record agent {
          connection_status = disconnected;
          state = state_offline;
          state_start = start_now;
          last_heartbeat = heartbeat_now;
        })
        t
]

-- DisconnectAndRemove
unfoldable pub disconnect_and_remove : ℕ → ℕ → String → AgentStateTracker → AgentStateTracker
unfolding set_disconnected
disconnect_and_remove start_now heartbeat_now agent_id t =
    set_disconnected start_now heartbeat_now agent_id t

-- The early return of RegisterOfflineAgent.
abbrev pub is_live : Option AgentInfo → Bool
is_live none = false
is_live (some existing) = is_connected existing.connection_status

-- RegisterOfflineAgent
unfoldable pub register_offline_agent :
    ℕ → String → Department → String → String → AgentStateTracker → AgentStateTracker
register_offline_agent now agent_id dept loc team t =
    if is_live (lookup agent_id t.agents)
    then t
    else put agent_id
        (record {
          agent_id = agent_id;
          state = state_offline;
          department = dept;
          location = loc;
          team = team;
          state_start = now;
          last_update = now;
          last_heartbeat = now;
          connection_status = disconnected;
          kpis = no_kpis;
          current_call_id = "";
          current_vq = "";
          call_start_time = none;
          acw_start_time = none;
          break_start_time = none;
          alerts = [];
        })
        t

-- The body of the loop of CheckStaleAgents. `LastHeartbeat.Before(now - StaleThreshold)` is
-- written without the subtraction.
unfoldable pub check_stale : ℕ → AgentInfo → AgentInfo
check_stale now agent =
    if is_connected agent.connection_status && ltb (agent.last_heartbeat + stale_threshold) now
    then record agent { connection_status = stale }
    else agent

-- A loop over the map that mutates each entry in place.
abbrev pub map_values : (AgentInfo → AgentInfo) → Dict AgentInfo → Dict AgentInfo
map_values f [] = []
map_values f ((k, a) ∷ m) = (k, f a) ∷ map_values f m

-- CheckStaleAgents
unfoldable pub check_stale_agents : ℕ → AgentStateTracker → AgentStateTracker
unfolding check_stale
check_stale_agents now t = record t { agents = map_values (check_stale now) t.agents }

-- GetAll, GetAllAgents
unfoldable pub get_all : AgentStateTracker → List AgentInfo
get_all t = values t.agents

-- GetConnectedAgents
unfoldable pub get_connected_agents : AgentStateTracker → List AgentInfo
get_connected_agents t = keep (λ a. is_connected a.connection_status) (values t.agents)

-- RemoveDisconnected does nothing.
unfoldable pub remove_disconnected : ℕ → AgentStateTracker → ℕ × AgentStateTracker
remove_disconnected max_age t = (0, t)

-- GetByDepartment
unfoldable pub get_by_department : Department → AgentStateTracker → List AgentInfo
get_by_department dept t = keep (λ a. a.department == dept) (values t.agents)

-- The test of GetAvailableByDepartment.
unfoldable pub is_available_in : Department → AgentInfo → Bool
is_available_in dept a =
    a.department == dept && a.state == state_available && is_connected a.connection_status

-- GetAvailableByDepartment
unfoldable pub get_available_by_department : Department → AgentStateTracker → List AgentInfo
unfolding is_available_in
get_available_by_department dept t = keep (is_available_in dept) (values t.agents)

-- Clear
unfoldable pub clear : AgentStateTracker → ℕ × AgentStateTracker
clear t = (length t.agents, record t { agents = [] })

-- Count
unfoldable pub count : AgentStateTracker → ℕ
count t = length t.agents

-- The counters of GetConnectionStats.
pub record ConnectionStats : Type 0 where
  pub connected_count : ℕ
  pub stale_count : ℕ
  pub disconnected_count : ℕ

abbrev tally : ConnectionStatus → ConnectionStats → ConnectionStats
tally connected s = record s { connected_count = s.connected_count + 1 }
tally stale s = record s { stale_count = s.stale_count + 1 }
tally disconnected s = record s { disconnected_count = s.disconnected_count + 1 }

-- The loop of GetConnectionStats.
unfoldable pub tally_all : List AgentInfo → ConnectionStats → ConnectionStats
tally_all [] s = s
tally_all (a ∷ rest) s = tally_all rest (tally a.connection_status s)

-- GetConnectionStats
unfoldable pub get_connection_stats : AgentStateTracker → ConnectionStats
unfolding tally_all
get_connection_stats t =
    tally_all (values t.agents)
      (record { connected_count = 0; stale_count = 0; disconnected_count = 0 })
