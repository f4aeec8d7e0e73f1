-- ===== src/Ingestion.antt =====
-- Backend/internal/ingestion/processor.go: the processor passes each message on to the tracker or to
-- the queue manager. A completer that was not set is `none`.
use monti.Prelude.{ℕ, Option, none, some}
use monti.Types.Message.{AgentRegister, AgentHeartbeat, AgentStateChange, CallComplete}
use monti.Tracker.{
  AgentStateTracker, register_agent, update_from_heartbeat, update_from_state_change,
}
use monti.CallQueue.Manager.{CallQueueManager, TimeFormat, complete_call_in}

pub record DefaultProcessor : Type 0 where
  pub tracker : AgentStateTracker
  pub call_completer : Option CallQueueManager

-- NewDefaultProcessor
unfoldable pub new_default_processor : AgentStateTracker → DefaultProcessor
new_default_processor tracker = record { tracker = tracker; call_completer = none }

-- SetCallCompleter
unfoldable pub set_call_completer : CallQueueManager → DefaultProcessor → DefaultProcessor
set_call_completer m p = record p { call_completer = some m }

-- ProcessRegister
unfoldable pub process_register : ℕ → AgentRegister → DefaultProcessor → DefaultProcessor
process_register now reg p = record p { tracker = register_agent now reg p.tracker }

-- ProcessHeartbeat
unfoldable pub process_heartbeat : ℕ → ℕ → ℕ → AgentHeartbeat → DefaultProcessor → DefaultProcessor
process_heartbeat start_now heartbeat_now update_now hb p = record p {
  tracker = update_from_heartbeat start_now heartbeat_now update_now hb p.tracker;
}

-- ProcessStateChange
unfoldable pub process_state_change :
    ℕ → ℕ → ℕ → AgentStateChange → DefaultProcessor → DefaultProcessor
process_state_change start_now heartbeat_now update_now sc p = record p {
  tracker = update_from_state_change start_now heartbeat_now update_now sc p.tracker;
}

-- ProcessCallComplete
unfoldable pub process_call_complete :
    TimeFormat → ℕ → CallComplete → DefaultProcessor → DefaultProcessor
process_call_complete f now cc p = elim p.call_completer [
  | none ↦ p
  | some m ↦ record p {
    call_completer = some (complete_call_in f now cc.call_id cc.talk_time cc.hold_time m).2;
  }
]
