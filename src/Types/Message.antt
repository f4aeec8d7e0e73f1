-- ===== src/Types/Message.antt =====
-- Backend/internal/types/types.go, messages_v2.go: the messages between agents and the backend. The
-- `type` tag of a message is its record's name.
use monti.Prelude.{ℕ, String}
use monti.Prelude.Int.{ℤ}
use monti.Types.Vq.{VqName, Department}
use monti.Types.Agent.{AgentState, AgentKpis}

pub record AgentHeartbeat : Type 0 where
  pub agent_id : String
  pub state : AgentState
  pub timestamp : ℕ
  pub kpis : AgentKpis

pub record AgentStateChange : Type 0 where
  pub agent_id : String
  pub previous_state : AgentState
  pub new_state : AgentState
  pub timestamp : ℕ
  pub state_duration : ℤ
  pub kpis : AgentKpis
  pub department : Department
  pub location : String
  pub team : String

pub record AgentRegister : Type 0 where
  pub agent_id : String
  pub department : Department
  pub location : String
  pub team : String
  pub state : AgentState
  pub kpis : AgentKpis

pub record CallAssign : Type 0 where
  pub agent_id : String
  pub call_id : String
  pub vq : VqName
  pub timestamp : ℕ

pub record CallComplete : Type 0 where
  pub agent_id : String
  pub call_id : String
  pub talk_time : ℤ
  pub hold_time : ℤ
  pub timestamp : ℕ
