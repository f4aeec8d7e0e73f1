-- ===== src/AgentSim/Simulator.antt =====
-- AgentSim/internal/agent/simulator.go: which agents take part, and their connections. NewSimulator
-- sets useMultiplex and nothing unsets it, so the map of single connections stays empty and is left
-- out. The IDs of the agents are distinct (generator.go), so an agent is named by its ID instead
-- of its index. What math/rand shuffles is the result of a function on lists.
pub mod Members
pub mod Scaling
pub mod Left
use monti.Prelude.{
  ℕ, zero, suc, ◌+◌, ◌-◌, String, Bool, true, false, not, List, [], ◌∷◌, ◌++◌, Option, none, some,
  ◌==◌, ltb, length, member, keep, map, if◌then◌else◌,
}
use monti.Prelude.Int.{ℤ, pos, negsuc, ltb_ℤ}
use monti.Prelude.Dict.{Dict, delete}
use monti.AgentSim.Kpis.{Floats, generate_initial_kpis}
use monti.AgentSim.Connection.{
  SimAgent, MultiplexedConnection, new_multiplexed_connection, remove_agent,
}

-- s.ctx
pub data Context : Type 0 where
  unset live cancelled : Context

-- activeCall
pub record ActiveCall (F : Type 0) : Type 0 where
  pub call_id : String
  pub vq : String
  pub start_time : ℕ
  pub hold_time : F

-- Simulator; a set is a list of its elements, and `agent_cancels` are the agents that a goroutine
-- simulates.
pub record Simulator (F : Type 0) : Type 0 where
  pub agents : List (SimAgent F)
  pub active_agents : List String
  pub agent_cancels : List String
  pub mux_conns : List (MultiplexedConnection F)
  pub running : Bool
  pub context : Context
  pub agent_calls : Dict (ActiveCall F)
  pub break_counts : Dict ℤ
  pub state_transitions : ℕ
  pub state_change_counts : Dict ℕ

abbrev pub ids_of : {F : Type 0} → List (SimAgent F) → List String
ids_of [] = []
ids_of (a ∷ agents) = a.id ∷ ids_of agents

module _ {ℓ} {A : Type ℓ} where
  abbrev pub take : ℕ → List A → List A
  take zero xs = []
  take (suc n) [] = []
  take (suc n) (x ∷ xs) = x ∷ take n xs

  abbrev pub drop : ℕ → List A → List A
  drop zero xs = xs
  drop (suc n) [] = []
  drop (suc n) (x ∷ xs) = drop n xs

-- The set with one element more, and with several.
abbrev pub add_to : String → List String → List String
add_to id set = if member id set then set else set ++ id ∷ []

abbrev pub add_all : List String → List String → List String
add_all [] set = set
add_all (id ∷ ids) set = add_all ids (add_to id set)

-- The set without some elements.
abbrev pub remove_all : List String → List String → List String
remove_all ids set = keep (λ id. not (member id ids)) set

-- NewSimulator
unfoldable pub new_simulator : {F : Type 0} → List (SimAgent F) → Simulator F
new_simulator agents = record {
  agents = agents;
  active_agents = [];
  agent_cancels = [];
  mux_conns = [];
  running = false;
  context = unset;
  agent_calls = [];
  break_counts = [];
  state_transitions = 0;
  state_change_counts = [];
}

-- The number of agents that Scale aims at.
unfoldable pub clamp_target : ℤ → ℕ → ℕ
clamp_target (pos n) total = if ltb total n then total else n
clamp_target (negsuc n) total = 0

module _ {F : Type 0} where
  -- The loop over the batches of 100, with a connection for each; no more batches than agents are
  -- needed, which is the fuel.
  unfoldable pub connect_batches : ℕ → List String → List (MultiplexedConnection F)
  unfolding new_multiplexed_connection
  connect_batches zero ids = []
  connect_batches (suc n) [] = []
  connect_batches (suc n) (id ∷ ids) =
      new_multiplexed_connection (take 100 (id ∷ ids)) ∷ connect_batches n (drop 100 (id ∷ ids))

  -- A context is made if there is none.
  abbrev pub with_context : Context → Simulator F → Simulator F
  with_context unset s = record s { context = live; running = true }
  with_context live s = s
  with_context cancelled s = s

  -- Scale: fewer agents.
  unfoldable pub scale_down : (List String → List String) → ℕ → Simulator F → Simulator F
  scale_down shuffle to_remove s =
      let removed = take to_remove (shuffle s.active_agents) in
      record s {
        agent_cancels = remove_all removed s.agent_cancels;
        active_agents = remove_all removed s.active_agents;
      }

  -- Stop; the connections are closed and forgotten.
  unfoldable pub stop : Simulator F → Simulator F
  stop s = record s {
    running = false;
    agent_cancels = [];
    mux_conns = [];
    active_agents = [];
    context = elim s.context [ unset ↦ unset | live ↦ cancelled | cancelled ↦ cancelled ];
  }

  -- forceRemoveAgent
  unfoldable pub force_remove_agent : String → Simulator F → Simulator F
  unfolding remove_agent
  force_remove_agent id s = record s {
    agent_cancels = remove_all (id ∷ []) s.agent_cancels;
    mux_conns = map (remove_agent id) s.mux_conns;
    active_agents = remove_all (id ∷ []) s.active_agents;
    agent_calls = delete id s.agent_calls;
  }

  -- GetActiveCount
  unfoldable pub get_active_count : Simulator F → ℕ
  get_active_count s = length s.active_agents

module _ {F : Type 0} (fl : Floats F) where
  -- What is written to an agent that becomes active.
  unfoldable pub logged_in : ℕ → (ℕ → F) → SimAgent F → SimAgent F
  unfolding generate_initial_kpis
  logged_in now draws a = record a {
    state = "available";
    state_start = now;
    last_update = now;
    login_time = now;
    kpis = generate_initial_kpis fl draws;
  }

  -- The writes to all agents that become active; the random numbers are an agent's own.
  unfoldable pub log_in : ℕ → (String → ℕ → F) → List String → List (SimAgent F) → List (SimAgent F)
  unfolding logged_in
  log_in now draws ids [] = []
  log_in now draws ids (a ∷ agents) =
      let rest = log_in now draws ids agents in
      (if member a.id ids then logged_in now (draws a.id) a else a) ∷ rest

  -- The agents of a list become active, and get connections.
  unfoldable pub activate : ℕ → (String → ℕ → F) → List String → Simulator F → Simulator F
  unfolding log_in connect_batches
  activate now draws ids s = record s {
    agents = log_in now draws ids s.agents;
    active_agents = add_all ids s.active_agents;
    mux_conns = s.mux_conns ++ connect_batches (length ids) ids;
  }

  -- activateAgents; `perm` is the order of rng.Perm. A negative count, which would panic, is left
  -- out.
  unfoldable pub activate_agents :
      ℕ → (String → ℕ → F) → (List String → List String) → ℕ → Simulator F → Simulator F
  unfolding activate
  activate_agents now draws perm count s =
      let n = if ltb (length s.agents) count then length s.agents else count in
      activate now draws (take n (perm (ids_of s.agents))) s

  -- Start
  unfoldable pub start :
      ℕ → (String → ℕ → F) → (List String → List String) → ℕ → Simulator F → Simulator F
  unfolding activate_agents
  start now draws perm num_active s =
      let s' =
        activate_agents now draws perm num_active (record s { running = true; context = live }) in
      record s' { agent_cancels = add_all s'.active_agents s'.agent_cancels }

  -- Scale: more agents.
  unfoldable pub scale_up :
      ℕ → (String → ℕ → F) → (List String → List String) → ℕ → Simulator F → Simulator F
  unfolding activate
  scale_up now draws shuffle needed s =
      let chosen =
        take needed (shuffle (keep (λ id. not (member id s.active_agents)) (ids_of s.agents))) in
      let s' = activate now draws chosen (with_context s.context s) in
      record s' { agent_cancels = add_all chosen s'.agent_cancels }

  -- Scale
  unfoldable pub scale :
      ℕ → (String → ℕ → F) → (List String → List String) → ℤ → Simulator F → Simulator F
  unfolding clamp_target scale_up scale_down
  scale now draws shuffle target_agents s =
      let target = clamp_target target_agents (length s.agents) in
      let current = length s.active_agents in
      if ltb current target
      then scale_up now draws shuffle (target - current) s
      else (if ltb target current then scale_down shuffle (current - target) s else s)
