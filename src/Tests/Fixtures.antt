-- ===== src/Tests/Fixtures.antt =====
-- Two agents of one department, and a manager with three calls for it.
use monti.Prelude.{ℕ, String, List, [], ◌∷◌, arith}
use monti.Types.Vq.{department_vqs, dept_sales}
use monti.Types.Call.{Call}
use monti.Types.Agent.{state_available, no_kpis}
use monti.Types.Message.{AgentRegister}
use monti.Tracker.{AgentStateTracker, new_agent_state_tracker}
use monti.Tracker.History.{TrackerOp, registers, run}
use monti.Tracker.Invariant.{IsValid, run-new_agent_state_tracker-IsValid}
use monti.CallQueue.VqConfig.{VqConfig}
use monti.CallQueue.Manager.{CallQueueManager, new_call, new_call_queue_manager, enqueue_call}
use monti.CallQueue.Manager.Reach.{Reach, begins, goes_on, enqueues, IsOrder}

abbrev pub ada : AgentRegister
ada = record {
  agent_id = "ada";
  department = dept_sales;
  location = "berlin";
  team = "blue";
  state = state_available;
  kpis = no_kpis;
}

abbrev pub bob : AgentRegister
bob = record ada { agent_id = "bob"; location = "munich" }

abbrev pub two_registers : List TrackerOp
two_registers = registers 10 ada ∷ registers 20 bob ∷ []

abbrev pub two_agents : AgentStateTracker
two_agents = run two_registers new_agent_state_tracker

pub two_agents-IsValid : IsValid two_agents
two_agents-IsValid = run-new_agent_state_tracker-IsValid two_registers

abbrev pub sales_config : VqConfig
sales_config = record {
  name = "sales_inbound";
  department = dept_sales;
  sl_target = 80;
  sl_seconds = 20;
}

abbrev pub call_at : ℕ → String → Call
call_at now call_id = new_call now "sales_inbound" call_id

abbrev pub one_call : CallQueueManager
one_call = (enqueue_call 100 "u1" "sales_inbound" "c1" new_call_queue_manager).1

abbrev pub five_calls : CallQueueManager
five_calls =
    (enqueue_call 104 "u5" "sales_inbound" "c5"
      (enqueue_call 103 "u4" "sales_inbound" "c4"
        (enqueue_call 102 "u3" "sales_inbound" "c3"
          (enqueue_call 101 "u2" "sales_inbound" "c2" one_call).1).1).1).1

pub five_calls-Reach : Reach five_calls
five_calls-Reach =
    goes_on
      (goes_on
        (goes_on (goes_on (goes_on begins (enqueues _ _ _ _ _)) (enqueues _ _ _ _ _))
          (enqueues _ _ _ _ _))
        (enqueues _ _ _ _ _))
      (enqueues 104 "u5" "sales_inbound" "c5" _)

pub department_vqs-IsOrder : IsOrder department_vqs
department_vqs-IsOrder = record { once = ground arith; known = ground arith }
