-- ===== src/CallQueue/Manager.antt =====
-- Backend/internal/callqueue/manager.go, but for TickRouting, which stands in Tick. The mutex makes
-- each method one step. The tracker that the manager points to is an argument; the record that a
-- method hands to the store's goroutine is part of its result.
pub mod Keeps
pub mod Reach
pub mod Twice
use monti.Prelude.{
  ℕ, ◌+◌, String, Bool, true, false, List, [], ◌∷◌, ◌++◌, Option, none, some, ◌==◌, if◌then◌else◌,
  length,
}
use monti.Prelude.Int.{ℤ, pos, sub_ℕ, ◌+ℤ◌, leb_ℤ}
use monti.Prelude.Dict.{Dict, lookup, insert, values}
use monti.Types.Vq.{VqName, Department, department_vqs}
use monti.Types.Call.{Call, CallStatus, CallRecord, VqSnapshot}
use monti.Tracker.{AgentStateTracker, get_available_by_department}
use monti.CallQueue.VqConfig.{VqConfig, default_vq_configs, department_of}
use monti.CallQueue.Queue.{VqQueue, new_vq_queue, enqueue, complete_call, abandon_call, wipe}
use monti.CallQueue.Queue

pub record CallQueueManager : Type 0 where
  pub queues : Dict VqQueue
  pub configs : Dict VqConfig
  pub has_store : Bool

-- The loop of NewCallQueueManager.
abbrev new_queues : Dict VqConfig → Dict VqQueue → Dict VqQueue
new_queues [] queues = queues
new_queues ((name, cfg) ∷ rest) queues = new_queues rest (insert name (new_vq_queue cfg) queues)

-- NewCallQueueManager
unfoldable pub new_call_queue_manager : CallQueueManager
unfolding default_vq_configs new_vq_queue
new_call_queue_manager = record {
  queues = new_queues default_vq_configs [];
  configs = default_vq_configs;
  has_store = false;
}

-- SetStore
unfoldable pub set_store : CallQueueManager → CallQueueManager
set_store m = record m { has_store = true }

-- The call that EnqueueCall makes.
abbrev pub new_call : ℕ → VqName → String → Call
new_call now vq call_id = record {
  call_id = call_id;
  vq = vq;
  department = department_of vq;
  status = CallStatus.waiting;
  enqueue_time = now;
  assign_time = none;
  complete_time = none;
  agent_id = "";
  talk_time = pos 0;
  hold_time = pos 0;
  wrap_time = pos 0;
  wait_time = pos 0;
}

-- EnqueueCall; `new_id` is what uuid.New gives.
unfoldable pub enqueue_call :
    ℕ → String → VqName → String → CallQueueManager → Option Call × CallQueueManager
unfolding enqueue
enqueue_call now new_id vq call_id m = elim (lookup vq m.queues) [
  | none ↦ (none, m)
  | some queue ↦
      let call = new_call now vq (if call_id == "" then new_id else call_id) in
      (some call, record m { queues = insert vq (enqueue call queue) m.queues })
]

-- The loop over all queues that stops at the first one whose method gives a call. The order of the
-- list stands for that of this `range`, so that it decides which queue it is when one call ID is in
-- two of them; the list keeps its order from one call of the method to the next, which `range` does
-- not.
unfoldable pub search_queues :
    (VqQueue → Option Call × VqQueue) → Dict VqQueue → Option Call × Dict VqQueue
search_queues method [] = (none, [])
search_queues method ((name, queue) ∷ rest) =
    let later = search_queues method rest in
    elim (method queue).0 [
      | none ↦ (later.0, (name, (method queue).1) ∷ later.1)
      | some call ↦ (some call, (name, (method queue).1) ∷ rest)
    ]

-- time.Time.Format in the process's time zone, for the two layouts that are used.
pub record TimeFormat : Type 0 where
  pub date_key : ℕ → String
  pub rfc3339 : ℕ → String

abbrev format_time : TimeFormat → Option ℕ → String
format_time f none = ""
format_time f (some t) = f.rfc3339 t

-- record.AnsweredInSL, which stays false for a call that was never assigned.
abbrev in_sl : Option ℕ → ℤ → Bool
in_sl none wait_time = false
in_sl (some t) wait_time = leb_ℤ wait_time (pos 20000000000)

abbrev is_abandoned : CallStatus → Bool
is_abandoned CallStatus.abandoned = true
is_abandoned _ = false

-- callToRecord
unfoldable pub call_to_record : TimeFormat → Call → CallRecord
call_to_record f call = record {
  date_key = f.date_key call.enqueue_time;
  call_id = call.call_id;
  vq = call.vq;
  department = call.department;
  agent_id = call.agent_id;
  enqueue_time = f.rfc3339 call.enqueue_time;
  assign_time = format_time f call.assign_time;
  complete_time = format_time f call.complete_time;
  wait_time = call.wait_time;
  talk_time = call.talk_time;
  hold_time = call.hold_time;
  wrap_time = call.wrap_time;
  handle_time = call.talk_time +ℤ call.hold_time +ℤ call.wrap_time;
  abandoned = is_abandoned call.status;
  answered_in_sl = in_sl call.assign_time call.wait_time;
}

-- The record handed to the store, if there is one.
abbrev pub persisted : TimeFormat → Bool → Option Call → Option CallRecord
persisted f true (some call) = some (call_to_record f call)
persisted f true none = none
persisted f false call = none

-- CompleteCall
unfoldable pub complete_call_in :
    TimeFormat
    → ℕ
    → String
    → ℤ
    → ℤ
    → CallQueueManager
    → Option Call × Option CallRecord × CallQueueManager
unfolding search_queues complete_call call_to_record
complete_call_in f now call_id talk_time hold_time m =
    let (call, queues) = search_queues (complete_call now call_id talk_time hold_time) m.queues in
    (call, persisted f m.has_store call, record m { queues = queues })

-- AbandonCall
unfoldable pub abandon_call_in : ℕ → String → CallQueueManager → Option Call × CallQueueManager
unfolding search_queues abandon_call
abandon_call_in now call_id m =
    let (call, queues) = search_queues (abandon_call now call_id) m.queues in
    (call, record m { queues = queues })

-- time.Since(*call.AssignTime), or zero.
abbrev pub talk_since : ℕ → Option ℕ → ℤ
talk_since now none = pos 0
talk_since now (some t) = sub_ℕ now t

-- One round of ForceEndCall; the readings of time.Since and of CompleteCall.
unfoldable pub force_end : ℕ → ℕ → String → VqQueue → Option Call × VqQueue
unfolding complete_call
force_end since_now now call_id q = elim (lookup call_id q.active) [
  | none ↦ (none, q)
  | some call ↦ complete_call now call_id (talk_since since_now call.assign_time) (pos 0) q
]

-- ForceEndCall: the agent's ID if an active call was found, and the record for the store.
unfoldable pub force_end_call :
    TimeFormat
    → ℕ
    → ℕ
    → String
    → CallQueueManager
    → Option String × Option CallRecord × CallQueueManager
unfolding search_queues force_end call_to_record
force_end_call f since_now now call_id m =
    let (found, queues) = search_queues (force_end since_now now call_id) m.queues in
    (
      elim found [ none ↦ none | some call ↦ some call.agent_id ],
      persisted f m.has_store found,
      record m { queues = queues },
    )

-- The loop of WipeAllCalls.
unfoldable pub wipe_queues : Dict VqQueue → ℕ → ℕ × Dict VqQueue
unfolding wipe
wipe_queues [] total = (total, [])
wipe_queues ((name, queue) ∷ rest) total =
    let (cleared, queue') = wipe queue in
    let later = wipe_queues rest (total + cleared) in (later.0, (name, queue') ∷ later.1)

-- WipeAllCalls
unfoldable pub wipe_all_calls : CallQueueManager → ℕ × CallQueueManager
unfolding wipe_queues
wipe_all_calls m =
    let (total, queues) = wipe_queues m.queues 0 in (total, record m { queues = queues })

-- GetSnapshot
unfoldable pub get_snapshot : ℕ → AgentStateTracker → VqName → CallQueueManager → Option VqSnapshot
get_snapshot now tracker vq m = elim (lookup vq m.queues) [
  | none ↦ none
  | some queue ↦
      some
        (Queue.snapshot now (length (get_available_by_department queue.department tracker)) queue)
]

-- The inner loop of GetAllSnapshots; `none` is the panic on a queue that is missing. The readings
-- of the clock are one for each queue.
unfoldable pub snapshots_of :
    (VqName → ℕ) → ℕ → List VqName → Dict VqQueue → Option (List VqSnapshot)
snapshots_of clock available [] queues = some []
snapshots_of clock available (vq ∷ rest) queues = elim (lookup vq queues) [
  | none ↦ none
  | some queue ↦ elim (snapshots_of clock available rest queues) [
    | none ↦ none
    | some later ↦ some (Queue.snapshot (clock vq) available queue ∷ later)
  ]
]

-- The loop of GetAllSnapshots, over the departments in the order of this `range`.
unfoldable pub all_snapshots :
    (VqName → ℕ)
    → AgentStateTracker
    → Dict (List VqName)
    → Dict VqQueue
    → Option (Dict (List VqSnapshot))
unfolding snapshots_of
all_snapshots clock tracker [] queues = some []
all_snapshots clock tracker ((dept, vqs) ∷ rest) queues =
    elim (snapshots_of clock (length (get_available_by_department dept tracker)) vqs queues) [
      | none ↦ none
      | some snapshots ↦ elim (all_snapshots clock tracker rest queues) [
        | none ↦ none
        | some later ↦ some ((dept, snapshots) ∷ later)
      ]
    ]

-- GetAllSnapshots
unfoldable pub get_all_snapshots :
    (VqName → ℕ) → AgentStateTracker → CallQueueManager → Option (Dict (List VqSnapshot))
unfolding all_snapshots
get_all_snapshots clock tracker m = all_snapshots clock tracker department_vqs m.queues
