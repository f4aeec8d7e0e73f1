-- ===== src/Types/Agent.antt =====
-- Backend/internal/types/types.go: agents, their events, and the snapshot for the frontend.
use monti.Prelude.{ℕ, String, List, Option}
use monti.Prelude.Int.{ℤ, pos}
use monti.Prelude.Dict.{Dict}
use monti.Types.Vq.{VqName, Department}
use monti.Types.Call.{VqSnapshot}

abbrev pub AgentState : Type 0
AgentState = String

abbrev pub state_available : AgentState
state_available = "available"

abbrev pub state_break : AgentState
state_break = "break"

abbrev pub state_offline : AgentState
state_offline = "offline"

abbrev pub state_after_call_work : AgentState
state_after_call_work = "after_call_work"

pub record AgentKpis : Type 0 where
  pub total_calls : ℤ
  pub avg_call_duration : ℤ
  pub acw_time : ℤ
  pub acw_count : ℤ
  pub hold_count : ℤ
  pub hold_time : ℤ
  pub transfer_count : ℤ
  pub conference_count : ℤ
  pub break_time : ℤ
  pub login_time : ℤ
  pub occupancy : ℤ
  pub adherence : ℤ
  pub avg_handle_time : ℤ
  pub first_call_resolution : ℤ
  pub customer_satisfaction : ℤ

-- The zero value that a struct literal without KPIs gets.
abbrev pub no_kpis : AgentKpis
no_kpis = record {
  total_calls = pos 0;
  avg_call_duration = pos 0;
  acw_time = pos 0;
  acw_count = pos 0;
  hold_count = pos 0;
  hold_time = pos 0;
  transfer_count = pos 0;
  conference_count = pos 0;
  break_time = pos 0;
  login_time = pos 0;
  occupancy = pos 0;
  adherence = pos 0;
  avg_handle_time = pos 0;
  first_call_resolution = pos 0;
  customer_satisfaction = pos 0;
}

pub record AgentEvent : Type 0 where
  pub agent_id : String
  pub state : AgentState
  pub department : Department
  pub location : String
  pub team : String
  pub timestamp : ℕ
  pub state_duration : ℤ
  pub kpis : AgentKpis

pub data AlertSeverity : Type 0 where
  warning critical : AlertSeverity

-- What formatDuration prints, before the numbers become text.
pub data DurationText : Type 0 where
  hours_mins : ℕ → ℕ → DurationText
  mins_secs : ℕ → ℕ → DurationText

-- `message` is the text in front of the duration, and the duration.
pub record AgentAlert : Type 0 where
  pub rule : String
  pub severity : AlertSeverity
  pub message : String × DurationText

-- AgentConnectionStatus is set by the tracker alone, to one of its three constants.
pub data ConnectionStatus : Type 0 where
  connected disconnected stale : ConnectionStatus

pub record AgentInfo : Type 0 where
  pub agent_id : String
  pub state : AgentState
  pub department : Department
  pub location : String
  pub team : String
  pub state_start : ℕ
  pub last_update : ℕ
  pub last_heartbeat : ℕ
  pub connection_status : ConnectionStatus
  pub kpis : AgentKpis
  pub current_call_id : String
  pub current_vq : VqName
  pub call_start_time : Option ℕ
  pub acw_start_time : Option ℕ
  pub break_start_time : Option ℕ
  pub alerts : List AgentAlert

pub record DepartmentData : Type 0 where
  pub agents : List AgentInfo
  pub queues : List VqSnapshot

pub record Snapshot : Type 0 where
  pub timestamp : ℕ
  pub departments : Dict DepartmentData
