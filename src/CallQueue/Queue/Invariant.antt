-- ===== src/CallQueue/Queue/Invariant.antt =====
-- What holds of a queue between two changes.
use monti.Prelude.{
  ℕ, ◌+◌, ◌≤◌, ◌≡◌, refl, subst, sym, inl, inr, String, List, [], ◌∷◌, ◌++◌, Option, none, some,
  arith, All, All-append, Distinct, length, eq_iff,
}
use monti.Prelude.Int.{ℤ}
use monti.Prelude.Dict.{
  keys, Entries, Entries-insert, Entries-delete, Distinct-insert, Distinct-delete, length-insert,
  length-delete,
}
use monti.Types.Call.{Call, CallStatus}
use monti.CallQueue.SlTracker.{record_answer}
use monti.CallQueue.VqConfig.{VqConfig}
use monti.CallQueue.Queue.{
  VqQueue, new_vq_queue, enqueue, route_next, complete_call, abandon_call, wipe, assigned_call,
}
use monti.CallQueue.Queue.Cases.{after_route, route_next_cases, complete_call_cases}
use monti.CallQueue.Queue.Abandon.{abandon_call_lem}
use monti.CallQueue.Queue.History.{QueueOp, enqueues, routes, completes, abandons, wipes, step, run}

abbrev IsWaiting : Call → Type 0
IsWaiting c = c.status ≡ CallStatus.waiting

abbrev HasTime : Option ℕ → Type 0
HasTime none = ⊥
HasTime (some t) = Unit

-- An active call is filed under its own ID, and has the time of its assignment.
abbrev IsActive : String → Call → Type 0
IsActive k c = (c.call_id ≡ k) × (c.status ≡ CallStatus.active) × HasTime c.assign_time

pub record IsValid (q : VqQueue) : Type 0 where
  pub all_waiting : All IsWaiting q.waiting
  pub all_active : Entries IsActive q.active
  pub distinct : Distinct (keys q.active)
  pub in_sl : q.sl.answered_in_sl ≤ q.sl.total_answered
  pub answered : length q.active + q.completed ≤ q.sl.total_answered

pub new_vq_queue-IsValid : (c : VqConfig) → IsValid (new_vq_queue c)
unfolding new_vq_queue
new_vq_queue-IsValid c = record {
  all_waiting = tt;
  all_active = tt;
  distinct = tt;
  in_sl = omega arith;
  answered = omega arith;
}

pub enqueue-IsValid : (call : Call) (q : VqQueue) → IsValid q → IsValid (enqueue call q)
unfolding enqueue
enqueue-IsValid call q v = record {
  all_waiting = All-append IsWaiting q.waiting _ v.all_waiting (refl, tt);
  all_active = v.all_active;
  distinct = v.distinct;
  in_sl = v.in_sl;
  answered = v.answered;
}

after_route-IsValid :
    (now : ℕ) (agent_id : String) (call : Call) (rest : List Call) (q : VqQueue)
    → q.waiting ≡ call ∷ rest
    → IsValid q
    → IsValid (after_route now agent_id call rest q)
unfolding record_answer
after_route-IsValid now agent_id call rest q e v = record {
  all_waiting = (subst (All IsWaiting) e v.all_waiting).1;
  all_active =
      Entries-insert IsActive call.call_id (assigned_call now call agent_id) q.active
        (λ j same. (sym ((eq_iff j call.call_id).0 same), refl, tt)) v.all_active;
  distinct = Distinct-insert call.call_id (assigned_call now call agent_id) q.active v.distinct;
  in_sl = ground (arith, v.in_sl);
  answered =
      ground
        (arith, length-insert call.call_id (assigned_call now call agent_id) q.active, v.answered);
}

pub route_next-IsValid :
    (now : ℕ) (agent_id : String) (q : VqQueue) → IsValid q → IsValid (route_next now agent_id q).1
route_next-IsValid now agent_id q v = elim (route_next_cases now agent_id q) [
  | inl (_, r) ↦ rw r v
  | inr (call, rest, e, r) ↦ rw r (after_route-IsValid now agent_id call rest q e v)
]

pub complete_call-IsValid :
    (now : ℕ) (call_id : String) (talk hold : ℤ) (q : VqQueue)
    → IsValid q
    → IsValid (complete_call now call_id talk hold q).1
complete_call-IsValid now call_id talk hold q v =
    elim (complete_call_cases now call_id talk hold q) [
      | inl (_, r) ↦ rw r v
      | inr (call, e, r) ↦ rw r (record {
        all_waiting = v.all_waiting;
        all_active = Entries-delete IsActive call_id q.active v.all_active;
        distinct = Distinct-delete call_id q.active v.distinct;
        in_sl = v.in_sl;
        answered = omega (arith, v.answered, length-delete call_id call q.active v.distinct e);
      })
    ]

All-remove {ℓ κ} :
    {A : Type ℓ} (P : A → Type κ) (xs : List A) (a : A) (ys : List A)
    → All P (xs ++ a ∷ ys)
    → All P (xs ++ ys)
All-remove P [] a ys h = h.1
All-remove P (x ∷ xs) a ys h = (h.0, All-remove P xs a ys h.1)

pub abandon_call-IsValid :
    (now : ℕ) (call_id : String) (q : VqQueue) → IsValid q → IsValid (abandon_call now call_id q).1
abandon_call-IsValid now call_id q v = elim (abandon_call_lem now call_id q) [
  | inl (_, r) ↦ rw r v
  | inr (before, call, after, e, _, _, r) ↦ rw r (record {
    all_waiting = All-remove IsWaiting before call after (subst (All IsWaiting) e v.all_waiting);
    all_active = v.all_active;
    distinct = v.distinct;
    in_sl = v.in_sl;
    answered = v.answered;
  })
]

pub wipe-IsValid : (q : VqQueue) → IsValid q → IsValid (wipe q).1
unfolding wipe
wipe-IsValid q v = record {
  all_waiting = tt;
  all_active = tt;
  distinct = tt;
  in_sl = v.in_sl;
  answered = omega (arith, v.answered);
}

pub step-IsValid : (op : QueueOp) (q : VqQueue) → IsValid q → IsValid (step op q)
unfolding step
step-IsValid (enqueues call) q v = enqueue-IsValid call q v
step-IsValid (routes now agent_id) q v = route_next-IsValid now agent_id q v
step-IsValid (completes now call_id talk hold) q v = complete_call-IsValid now call_id talk hold q v
step-IsValid (abandons now call_id) q v = abandon_call-IsValid now call_id q v
step-IsValid wipes q v = wipe-IsValid q v

run-IsValid : (ops : List QueueOp) (q : VqQueue) → IsValid q → IsValid (run ops q)
unfolding run
run-IsValid [] q v = v
run-IsValid (op ∷ ops) q v = run-IsValid ops (step op q) (step-IsValid op q v)

-- After any history of a new queue: every waiting call is marked waiting; every active call is
-- marked active, is filed once, under its own ID, and knows when it was assigned; no more calls are
-- counted as answered in time than as answered; and every active or completed call was counted.
pub run-new_vq_queue-IsValid :
    (c : VqConfig) (ops : List QueueOp) → IsValid (run ops (new_vq_queue c))
run-new_vq_queue-IsValid c ops = run-IsValid ops (new_vq_queue c) (new_vq_queue-IsValid c)
