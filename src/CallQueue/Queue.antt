-- ===== src/CallQueue/Queue.antt =====
-- Backend/internal/callqueue/queue.go. A method that mutates `*VQQueue` returns the new record; each
-- reading of the clock is an argument, and a nil result is `none`.
pub mod History
pub mod Cases
pub mod Abandon
pub mod Refines
pub mod Invariant
pub mod Identities
pub mod Accounts
use monti.Prelude.{
  ℕ, suc, ◌+◌, String, List, [], ◌∷◌, ◌++◌, Option, none, some, ◌==◌, if◌then◌else◌, length, ◌>>=◌,
}
use monti.Prelude.Int.{ℤ, pos, sub_ℕ}
use monti.Prelude.Dict.{Dict, lookup, insert, delete}
use monti.Types.Vq.{VqName, Department}
use monti.Types.Call.{Call, CallStatus, VqSnapshot}
use monti.CallQueue.SlTracker.{SlTracker, new_sl_tracker, record_answer}
use monti.CallQueue.SlTracker
use monti.CallQueue.VqConfig.{VqConfig}

pub record VqQueue : Type 0 where
  pub name : VqName
  pub department : Department
  pub waiting : List Call
  pub active : Dict Call
  pub completed : ℕ
  pub abandoned : ℕ
  pub sl : SlTracker

-- NewVQQueue
unfoldable pub new_vq_queue : VqConfig → VqQueue
unfolding new_sl_tracker
new_vq_queue c = record {
  name = c.name;
  department = c.department;
  waiting = [];
  active = [];
  completed = 0;
  abandoned = 0;
  sl = new_sl_tracker c.sl_target c.sl_seconds;
}

-- Enqueue
unfoldable pub enqueue : Call → VqQueue → VqQueue
enqueue call q = record q {
  waiting = q.waiting ++ record call { status = CallStatus.waiting } ∷ [];
}

-- DequeueNext
unfoldable pub dequeue_next : VqQueue → Option Call × VqQueue
dequeue_next q = elim q.waiting [
  | [] ↦ (none, q)
  | call ∷ rest ↦ (some call, record q { waiting = rest })
]

-- The call that AssignToAgent leaves behind the pointer.
abbrev pub assigned_call : ℕ → Call → String → Call
assigned_call now call agent_id = record call {
  status = CallStatus.active;
  agent_id = agent_id;
  assign_time = some now;
  wait_time = sub_ℕ now call.enqueue_time;
}

-- AssignToAgent
unfoldable pub assign_to_agent : ℕ → Call → String → VqQueue → Call × VqQueue
unfolding record_answer
assign_to_agent now call agent_id q =
    let call' = assigned_call now call agent_id in
    (
      call',
      record q {
        active = insert call.call_id call' q.active;
        sl = record_answer call'.wait_time q.sl;
      },
    )

-- DequeueNext and AssignToAgent, as the routing loop calls them one after the other.
unfoldable pub route_next : ℕ → String → VqQueue → Option Call × VqQueue
unfolding dequeue_next assign_to_agent
route_next now agent_id q =
    let (next, q') = dequeue_next q in
    elim next [
      | none ↦ (none, q')
      | some call ↦ let (call', q'') = assign_to_agent now call agent_id q' in (some call', q'')
    ]

-- The call that CompleteCall leaves behind the pointer.
abbrev pub completed_call : ℕ → ℤ → ℤ → Call → Call
completed_call now talk_time hold_time call = record call {
  status = CallStatus.completed;
  complete_time = some now;
  talk_time = talk_time;
  hold_time = hold_time;
}

-- CompleteCall
unfoldable pub complete_call : ℕ → String → ℤ → ℤ → VqQueue → Option Call × VqQueue
complete_call now call_id talk_time hold_time q = elim (lookup call_id q.active) [
  | none ↦ (none, q)
  | some call ↦ (
    some (completed_call now talk_time hold_time call),
    record q { active = delete call_id q.active; completed = q.completed + 1 },
  )
]

-- The search of AbandonCall: the first waiting call of that ID, and the others in order.
unfoldable pub take_waiting : String → List Call → Option (Call × List Call)
take_waiting call_id [] = none
take_waiting call_id (call ∷ rest) =
    let later = take_waiting call_id rest in
    if call.call_id == call_id
    then some (call, rest)
    else (later >>= λ (found, others). some (found, call ∷ others))

abbrev pub abandoned_call : ℕ → Call → Call
abandoned_call now call = record call {
  status = CallStatus.abandoned;
  complete_time = some now;
  wait_time = sub_ℕ now call.enqueue_time;
}

-- AbandonCall
unfoldable pub abandon_call : ℕ → String → VqQueue → Option Call × VqQueue
abandon_call now call_id q = elim (take_waiting call_id q.waiting) [
  | none ↦ (none, q)
  | some (call, rest) ↦
      (some (abandoned_call now call), record q { waiting = rest; abandoned = q.abandoned + 1 })
]

-- LongestWaitSecs
unfoldable pub longest_wait_secs : ℕ → VqQueue → ℤ
longest_wait_secs now q = elim q.waiting [ [] ↦ pos 0 | call ∷ _ ↦ sub_ℕ now call.enqueue_time ]

-- Wipe
unfoldable pub wipe : VqQueue → ℕ × VqQueue
wipe q = (length q.waiting + length q.active, record q { waiting = []; active = [] })

-- Snapshot
unfoldable pub snapshot : ℕ → ℕ → VqQueue → VqSnapshot
snapshot now available_agents q = record {
  vq = q.name;
  department = q.department;
  waiting_count = length q.waiting;
  active_count = length q.active;
  completed_count = q.completed;
  abandoned_count = q.abandoned;
  longest_wait_secs = longest_wait_secs now q;
  available_agents = available_agents;
  service_level = SlTracker.snapshot q.sl;
}
