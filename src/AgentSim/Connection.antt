-- ===== src/AgentSim/Connection.antt =====
-- AgentSim/internal/agent/multiplexed_connection.go: what the simulator keeps of a connection that
-- many agents share, and its buffered channels. The connection holds pointers to the simulator's
-- agents; here it holds their IDs. Dialling, the pumps and heartbeats are I/O.
use monti.Prelude.{
  ℕ, suc, String, Bool, true, false, not, List, [], ◌∷◌, ◌++◌, Option, none, some, ◌==◌, ltb,
  length, member, keep, if◌then◌else◌,
}
use monti.Prelude.Dict.{Dict, lookup, insert, delete}
use monti.Types.Message.{CallAssign}
use monti.AgentSim.Kpis.{Kpis}

-- types.Agent
pub record SimAgent (F : Type 0) : Type 0 where
  pub id : String
  pub department : String
  pub location : String
  pub team : String
  pub state : String
  pub state_start : ℕ
  pub last_update : ℕ
  pub login_time : ℕ
  pub kpis : Kpis F

-- types.AgentStateChangeMsg; `agent` is the copy of the agent.
pub record StateChange (F : Type 0) : Type 0 where
  pub previous_state : String
  pub new_state : String
  pub timestamp : ℕ
  pub state_duration : F
  pub agent : SimAgent F

-- What is put on the channel `send`.
pub data Report (F : Type 0) : Type 0 where
  changes : StateChange F → Report F
  completes : (agent_id call_id : String) (talk_time hold_time : F) (timestamp : ℕ) → Report F

-- MultiplexedConnection
pub record MultiplexedConnection (F : Type 0) : Type 0 where
  pub agents : List String
  pub callbacks : Dict (List CallAssign)
  pub force_end_calls : Dict (List String)
  pub force_disconns : Dict ℕ
  pub send : List (Report F)
  pub connected : Bool
  pub closed : Bool
  pub state_changes_sent : ℕ

-- A send in a `select` with a default, on a channel of this capacity.
abbrev pub offer {ℓ} : {A : Type ℓ} → ℕ → A → List A → List A
offer capacity x xs = if ltb (length xs) capacity then xs ++ x ∷ [] else xs

abbrev each {ℓ} : {V : Type ℓ} → V → List String → Dict V
each v [] = []
each v (id ∷ ids) = insert id v (each v ids)

-- NewMultiplexedConnection
unfoldable pub new_multiplexed_connection : {F : Type 0} → List String → MultiplexedConnection F
new_multiplexed_connection ids = record {
  agents = ids;
  callbacks = each [] ids;
  force_end_calls = each [] ids;
  force_disconns = each 0 ids;
  send = [];
  connected = false;
  closed = false;
  state_changes_sent = 0;
}

-- What a connection receives.
pub data Incoming : Type 0 where
  assigns : CallAssign → Incoming
  force_ends : (agent_id call_id : String) → Incoming
  force_disconnects : String → Incoming
  acks : Incoming
  unreadable : Incoming

abbrev deliver {ℓ} : {V : Type ℓ} → String → (V → V) → Dict V → Dict V
deliver id f m = elim (lookup id m) [ none ↦ m | some v ↦ insert id (f v) m ]

abbrev signal : ℕ → ℕ
signal n = if ltb n 1 then suc n else n

-- handleIncoming
unfoldable pub handle_incoming :
    {F : Type 0} → Incoming → MultiplexedConnection F → MultiplexedConnection F
handle_incoming (assigns ca) mc = record mc {
  callbacks = deliver ca.agent_id (offer 4 ca) mc.callbacks;
}
handle_incoming (force_ends agent_id call_id) mc = record mc {
  force_end_calls = deliver agent_id (offer 1 call_id) mc.force_end_calls;
}
handle_incoming (force_disconnects agent_id) mc = record mc {
  force_disconns = deliver agent_id signal mc.force_disconns;
}
handle_incoming acks mc = mc
handle_incoming unreadable mc = mc

-- The agent behind a pointer.
abbrev pub find_agent : {F : Type 0} → String → List (SimAgent F) → Option (SimAgent F)
find_agent id [] = none
find_agent id (a ∷ agents) = if a.id == id then some a else find_agent id agents

-- SendStateChange; the channel has room for 256 reports.
unfoldable pub send_state_change :
    {F : Type 0}
    → ℕ
    → List (SimAgent F)
    → String
    → String
    → String
    → F
    → MultiplexedConnection F
    → MultiplexedConnection F
send_state_change now agents id previous next duration mc =
    if member id mc.agents
    then elim (find_agent id agents) [
      | none ↦ mc
      | some a ↦
          let msg : StateChange _ = record {
            previous_state = previous;
            new_state = next;
            timestamp = now;
            state_duration = duration;
            agent = a;
          } in
          if ltb (length mc.send) 256
          then record mc {
            send = mc.send ++ changes msg ∷ [];
            state_changes_sent = suc mc.state_changes_sent;
          }
          else mc
    ]
    else mc

-- SendCallComplete
unfoldable pub send_call_complete :
    {F : Type 0} → ℕ → String → String → F → F → MultiplexedConnection F → MultiplexedConnection F
send_call_complete now id call_id talk hold mc = record mc {
  send = offer 256 (completes id call_id talk hold now) mc.send;
}

-- RemoveAgent
unfoldable pub remove_agent :
    {F : Type 0} → String → MultiplexedConnection F → MultiplexedConnection F
remove_agent id mc = record mc {
  agents = keep (λ other. not (other == id)) mc.agents;
  callbacks = delete id mc.callbacks;
  force_end_calls = delete id mc.force_end_calls;
  force_disconns = delete id mc.force_disconns;
}

-- Close
unfoldable pub close_connection : {F : Type 0} → MultiplexedConnection F → MultiplexedConnection F
close_connection mc = record mc { closed = true; connected = false }
