-- ===== src/CallQueue/Queue/Cases.antt =====
-- The branches of routing, completing and enqueueing, as equations on the whole result.
use monti.Prelude.{
  ℕ, ◌+◌, ◌≡◌, ◌⊎◌, inl, inr, String, List, [], ◌∷◌, none, some, Option-cases, List-cases, arith,
}
use monti.Prelude.Int.{ℤ}
use monti.Prelude.Dict.{lookup, insert, delete}
use monti.Types.Call.{Call}
use monti.CallQueue.SlTracker.{record_answer}
use monti.CallQueue.Queue.{VqQueue, route_next, assigned_call, complete_call, completed_call}

-- The queue after its oldest call was handed over.
abbrev pub after_route : ℕ → String → Call → List Call → VqQueue → VqQueue
after_route now agent_id call rest q = record q {
  waiting = rest;
  active = insert call.call_id (assigned_call now call agent_id) q.active;
  sl = record_answer (assigned_call now call agent_id).wait_time q.sl;
}

pub route_next_cases :
    (now : ℕ) (agent_id : String) (q : VqQueue)
    → ((q.waiting ≡ []) × (route_next now agent_id q ≡ (none, q)))
      ⊎ ((call : Call) × (rest : List Call) × (q.waiting ≡ call ∷ rest)
          × (route_next now agent_id q
              ≡ (some (assigned_call now call agent_id), after_route now agent_id call rest q)))
unfolding route_next
route_next_cases now agent_id q = elim (List-cases q.waiting) [
  | inl e ↦ inl (e, ground arith)
  | inr (call, rest, e) ↦ inr (call, rest, e, ground arith)
]

pub complete_call_cases :
    (now : ℕ) (call_id : String) (talk hold : ℤ) (q : VqQueue)
    → ((lookup call_id q.active ≡ none) × (complete_call now call_id talk hold q ≡ (none, q)))
      ⊎ ((call : Call) × (lookup call_id q.active ≡ some call)
          × (complete_call now call_id talk hold q ≡ (
            some (completed_call now talk hold call),
            record q { active = delete call_id q.active; completed = q.completed + 1 },
          )))
unfolding complete_call
complete_call_cases now call_id talk hold q = elim (Option-cases (lookup call_id q.active)) [
  | inl e ↦ inl (e, rw (e, complete_call))
  | inr (call, e) ↦ inr (call, e, rw (e, complete_call))
]
