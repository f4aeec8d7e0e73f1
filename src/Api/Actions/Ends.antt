-- ===== src/Api/Actions/Ends.antt =====
-- What a request to end a call does.
use monti.Prelude.{
  ℕ, ◌+◌, if◌then◌else◌, ◌≡◌, ◌⊎◌, String, Bool, true, false, [], ◌∷◌, Option, none, some, ◌==◌,
  All,
}
use monti.Prelude.Dict.{Dict, lookup}
use monti.Types.Call.{Call, CallStatus, CallRecord}
use monti.CallQueue.Queue.{VqQueue}
use monti.CallQueue.Manager.{CallQueueManager, TimeFormat}
use monti.CallQueue.Manager
use monti.AgentHub.{AgentHub, force_disconnects, send_to_agent, force_disconnect}
use monti.AgentHub

-- What the end of an active call does to its queue: of the active calls this one is gone and the
-- others are kept, and one more is counted as completed.
pub record IsEnded (call_id agent_id : String) (q q' : VqQueue) : Type 0 where
  pub call : Call
  pub was_active : lookup call_id q.active ≡ some call
  pub agent : call.agent_id ≡ agent_id
  pub active :
      (id : String) → lookup id q'.active ≡ (if call_id == id then none else lookup id q.active)
  pub waiting : q'.waiting ≡ q.waiting
  pub completed : q'.completed ≡ q.completed + 1
  pub abandoned : q'.abandoned ≡ q.abandoned

-- The call ends in the first queue that has it active, and the other queues are kept.
abbrev pub EndsFirst : String → String → Dict VqQueue → Dict VqQueue → Type 0
EndsFirst call_id agent_id [] queues' = ⊥
EndsFirst call_id agent_id ((name, q) ∷ rest) queues' =
    ((q' : VqQueue) × (queues' ≡ (name, q') ∷ rest) × IsEnded call_id agent_id q q')
    ⊎ ((rest' : Dict VqQueue) × (queues' ≡ (name, q) ∷ rest')
        × (lookup call_id q.active ≡ none)
        × EndsFirst call_id agent_id rest rest')

-- What the store is handed: nothing if there is none, else a record of a call of the agent that was
-- completed now.
abbrev pub IsRecorded : TimeFormat → ℕ → Bool → String → Option CallRecord → Type 0
IsRecorded f now false agent_id r = r ≡ none
IsRecorded f now true agent_id r =
    (record' : CallRecord) × (r ≡ some record')
    × (record'.agent_id ≡ agent_id)
    × (record'.complete_time ≡ f.rfc3339 now)
    × (record'.abandoned ≡ false)

-- No queue has this call active.
abbrev pub NowhereActive : String → Dict VqQueue → Type 0
NowhereActive call_id queues = All (λ entry. lookup call_id entry.1.active ≡ none) queues

-- A call that was completed now.
abbrev IsDone : ℕ → Call → Type 0
IsDone now call = (call.status ≡ CallStatus.completed) × (call.complete_time ≡ some now)

abbrev Searched : ℕ → String → Dict VqQueue → Option Call × Dict VqQueue → Type 0
Searched now call_id queues r =
    ((r ≡ (none, queues)) × NowhereActive call_id queues)
    ⊎ ((call : Call) × (queues' : Dict VqQueue) × (r ≡ (some call, queues'))
        × IsDone now call
        × EndsFirst call_id call.agent_id queues queues')

-- What ForceEndCall of the manager gives.
abbrev FoundAt :
    TimeFormat
    → ℕ
    → String
    → CallQueueManager
    → Option String × Option CallRecord × CallQueueManager
    → Type 0
FoundAt f now call_id m o =
    ((o ≡ (none, none, m)) × NowhereActive call_id m.queues)
    ⊎ ((agent_id : String) × (r : Option CallRecord) × (queues' : Dict VqQueue) × (o
          ≡ (some agent_id, r, record m { queues = queues' }))
        × EndsFirst call_id agent_id m.queues queues'
        × IsRecorded f now m.has_store agent_id r)
