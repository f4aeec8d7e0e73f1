-- ===== src/CallQueue/Queue/Accounts.antt =====
-- No call leaves a queue's books unnoticed.
use monti.Prelude.{
  ℕ, ◌+◌, ◌≡◌, refl, inl, inr, String, List, [], ◌∷◌, arith, ap, length, length-append, member,
  if◌then◌else◌,
}
use monti.Prelude.Int.{ℤ}
use monti.Prelude.Dict.{keys, length-insert, length-delete}
use monti.Types.Call.{Call}
use monti.CallQueue.SlTracker.{record_answer}
use monti.CallQueue.VqConfig.{VqConfig}
use monti.CallQueue.Queue.{
  VqQueue, new_vq_queue, enqueue, route_next, complete_call, abandon_call, wipe, assigned_call,
}
use monti.CallQueue.Queue.Cases.{route_next_cases, complete_call_cases}
use monti.CallQueue.Queue.Abandon.{abandon_call_lem}
use monti.CallQueue.Queue.History.{QueueOp, enqueues, routes, completes, abandons, wipes, step, run}
use monti.CallQueue.Queue.Identities.{held, all_taken, all_brought, run-held}
use monti.CallQueue.Queue.Invariant.{IsValid, step-IsValid, new_vq_queue-IsValid}

-- The calls that a queue knows of: waiting, active, completed and abandoned.
abbrev pub population : VqQueue → ℕ
population q = length q.waiting + length q.active + q.completed + q.abandoned

-- Whether the oldest waiting call has the ID of an active one.
abbrev collision : List Call → VqQueue → ℕ
collision [] q = 0
collision (call ∷ rest) q = if member call.call_id (keys q.active) then 1 else 0

-- The calls that one change drops: those that a wipe clears, and an active call that is overwritten
-- by one of the same ID.
abbrev pub dropped : QueueOp → VqQueue → ℕ
dropped (routes now agent_id) q = collision q.waiting q
dropped wipes q = length q.waiting + length q.active
dropped _ q = 0

abbrev pub arrived : QueueOp → ℕ
arrived (enqueues call) = 1
arrived _ = 0

abbrev pub all_dropped : List QueueOp → VqQueue → ℕ
all_dropped [] q = 0
all_dropped (op ∷ ops) q = dropped op q + all_dropped ops (step op q)

abbrev pub all_arrived : List QueueOp → ℕ
all_arrived [] = 0
all_arrived (op ∷ ops) = arrived op + all_arrived ops

enqueue-population : (call : Call) (q : VqQueue) → population (enqueue call q) ≡ population q + 1
unfolding enqueue
enqueue-population call q = omega (arith, length-append {0} q.waiting)

route_next-population :
    (now : ℕ) (agent_id : String) (q : VqQueue)
    → population (route_next now agent_id q).1 + collision q.waiting q ≡ population q
unfolding record_answer
route_next-population now agent_id q = elim (route_next_cases now agent_id q) [
  | inl (e, r) ↦ rw r (rw e (omega arith))
  | inr (call, rest, e, r) ↦
      rw r
        (ground (arith, e, length-insert call.call_id (assigned_call now call agent_id) q.active))
]

complete_call-population :
    (now : ℕ) (call_id : String) (talk hold : ℤ) (q : VqQueue)
    → IsValid q
    → population (complete_call now call_id talk hold q).1 ≡ population q
complete_call-population now call_id talk hold q v =
    elim (complete_call_cases now call_id talk hold q) [
      | inl (e, r) ↦ rw r
      | inr (call, e, r) ↦ rw r (omega (arith, length-delete call_id call q.active v.distinct e))
    ]

abandon_call-population :
    (now : ℕ) (call_id : String) (q : VqQueue)
    → population (abandon_call now call_id q).1 ≡ population q
abandon_call-population now call_id q = elim (abandon_call_lem now call_id q) [
  | inl (_, r) ↦ rw r
  | inr (before, call, after, e, _, _, r) ↦
      rw r (
        omega (arith, ap length e, length-append before (call ∷ after), length-append before after))
]

step-population :
    (op : QueueOp) (q : VqQueue)
    → IsValid q
    → population (step op q) + dropped op q ≡ population q + arrived op
unfolding step wipe
step-population (enqueues call) q v = omega (arith, enqueue-population call q)
step-population (routes now agent_id) q v = omega (arith, route_next-population now agent_id q)
step-population (completes now call_id talk hold) q v =
    omega (arith, complete_call-population now call_id talk hold q v)
step-population (abandons now call_id) q v = omega (arith, abandon_call-population now call_id q)
step-population wipes q v = omega arith

run-population :
    (ops : List QueueOp) (q : VqQueue)
    → IsValid q
    → population (run ops q) + all_dropped ops q ≡ population q + all_arrived ops
unfolding run
run-population [] q v = refl
run-population (op ∷ ops) q v =
    omega (arith, step-population op q v, run-population ops (step op q) (step-IsValid op q v))

-- After any history of a new queue, each ID arrived as often as it is now among the waiting and the
-- active calls or was among those taken away: returned as completed or as abandoned, wiped, or
-- overwritten while active by a call of the same ID. And as many calls arrived as wait, are active,
-- are counted as completed or as abandoned, or were wiped or overwritten.
pub population-run :
    (c : VqConfig) (ops : List QueueOp)
    → ((id : String)
        → held id (run ops (new_vq_queue c)) + all_taken id ops (new_vq_queue c)
          ≡ all_brought id ops)
      × (population (run ops (new_vq_queue c)) + all_dropped ops (new_vq_queue c) ≡ all_arrived ops)
unfolding new_vq_queue
population-run c ops = (
  λ id. omega (arith, run-held id ops (new_vq_queue c) (new_vq_queue-IsValid c)),
  omega (arith, run-population ops (new_vq_queue c) (new_vq_queue-IsValid c)),
)
