-- ===== src/CallQueue/Queue/Identities.antt =====
-- Where the calls of one ID are: how often the ID is in a queue, and how each change moves it.
use monti.Prelude.{
  ℕ, ◌+◌, ◌≡◌, refl, inl, inr, String, List, [], ◌∷◌, ◌++◌, Option, none, some, arith, ap, ◌==◌,
  eq_iff, member, Distinct, if◌then◌else◌,
}
use monti.Prelude.Int.{ℤ}
use monti.Prelude.Dict.{Dict, keys, lookup, insert, delete, delete_absent, Entries-lookup}
use monti.Types.Call.{Call, CallStatus}
use monti.CallQueue.SlTracker.{record_answer}
use monti.CallQueue.Queue.{
  VqQueue, enqueue, route_next, complete_call, abandon_call, wipe, assigned_call,
}
use monti.CallQueue.Queue.Cases.{route_next_cases, complete_call_cases}
use monti.CallQueue.Queue.Abandon.{abandon_call_lem}
use monti.CallQueue.Queue.History.{
  QueueOp, enqueues, routes, completes, abandons, wipes, step, run, call_ids,
}
use monti.CallQueue.Queue.Invariant.{IsValid, step-IsValid}

-- 1 for the text itself, 0 for another.
abbrev pub one : String → String → ℕ
one id s = if s == id then 1 else 0

abbrev pub occurrences : String → List String → ℕ
occurrences id [] = 0
occurrences id (s ∷ rest) = one id s + occurrences id rest

-- How often the ID is among the waiting and the active calls.
abbrev pub held : String → VqQueue → ℕ
held id q = occurrences id (call_ids q.waiting) + occurrences id (keys q.active)

abbrev one_of : String → Option Call → ℕ
one_of id none = 0
one_of id (some call) = one id call.call_id

-- The oldest call, if it overwrites an active one of its ID.
abbrev overwritten : String → List Call → VqQueue → ℕ
overwritten id [] q = 0
overwritten id (call ∷ rest) q =
    if member call.call_id (keys q.active) then one id call.call_id else 0

-- How often the ID is among the calls that a change takes away: the one that is returned as completed
-- or as abandoned, those that are wiped, and an active one that is overwritten.
abbrev pub taken : String → QueueOp → VqQueue → ℕ
taken id (enqueues call) q = 0
taken id (routes now agent_id) q = overwritten id q.waiting q
taken id (completes now call_id talk hold) q = one_of id (complete_call now call_id talk hold q).0
taken id (abandons now call_id) q = one_of id (abandon_call now call_id q).0
taken id wipes q = held id q

abbrev pub all_taken : String → List QueueOp → VqQueue → ℕ
all_taken id [] q = 0
all_taken id (op ∷ ops) q = taken id op q + all_taken id ops (step op q)

abbrev pub brought : String → QueueOp → ℕ
brought id (enqueues call) = one id call.call_id
brought id _ = 0

abbrev pub all_brought : String → List QueueOp → ℕ
all_brought id [] = 0
all_brought id (op ∷ ops) = brought id op + all_brought id ops

occurrences-call_ids :
    (id : String) (xs ys : List Call)
    → occurrences id (call_ids (xs ++ ys))
      ≡ occurrences id (call_ids xs) + occurrences id (call_ids ys)
occurrences-call_ids id [] ys = omega arith
occurrences-call_ids id (x ∷ xs) ys = omega (arith, occurrences-call_ids id xs ys)

occurrences-insert :
    (id k : String) (v : Call) (m : Dict Call)
    → occurrences id (keys (insert k v m)) + (if member k (keys m) then one id k else 0)
      ≡ occurrences id (keys m) + one id k
occurrences-insert id k v [] = omega arith
occurrences-insert id k v ((j, w) ∷ m) = ground (arith, eq_iff j k, occurrences-insert id k v m)

occurrences-delete :
    (id k : String) (v : Call) (m : Dict Call)
    → Distinct (keys m)
    → lookup k m ≡ some v
    → occurrences id (keys (delete k m)) + one id k ≡ occurrences id (keys m)
occurrences-delete id k v [] d h = absurd (ground arith)
occurrences-delete id k v ((j, w) ∷ m) d h =
    ground (arith, eq_iff j k, delete_absent k m, occurrences-delete id k v m d.1)

completes-held :
    (id : String) (now : ℕ) (call_id : String) (talk hold : ℤ) (q : VqQueue)
    → IsValid q
    → held id (complete_call now call_id talk hold q).1
        + one_of id (complete_call now call_id talk hold q).0
      ≡ held id q
completes-held id now call_id talk hold q v = elim (complete_call_cases now call_id talk hold q) [
  | inl (e, r) ↦ rw r (omega arith)
  | inr (call, e, r) ↦
      rw (r, (Entries-lookup _ call_id q.active v.all_active e).0)
        (omega (arith, occurrences-delete id call_id call q.active v.distinct e))
]

abandons-held :
    (id : String) (now : ℕ) (call_id : String) (q : VqQueue)
    → held id (abandon_call now call_id q).1 + one_of id (abandon_call now call_id q).0 ≡ held id q
abandons-held id now call_id q = elim (abandon_call_lem now call_id q) [
  | inl (_, r) ↦ rw r (omega arith)
  | inr (before, call, after, e, _, _, r) ↦ rw r (
      omega (
        arith,
        ap (λ cs. occurrences id (call_ids cs)) e,
        occurrences-call_ids id before (call ∷ after),
        occurrences-call_ids id before after,
      ))
]

routes-held :
    (id : String) (now : ℕ) (agent_id : String) (q : VqQueue)
    → held id (route_next now agent_id q).1 + overwritten id q.waiting q ≡ held id q
unfolding record_answer
routes-held id now agent_id q = elim (route_next_cases now agent_id q) [
  | inl (e, r) ↦ rw r (rw e (omega arith))
  | inr (call, rest, e, r) ↦ rw r (
      rw e (
        omega
          (arith, occurrences-insert id call.call_id (assigned_call now call agent_id) q.active)))
]

enqueues-held :
    (id : String) (call : Call) (q : VqQueue)
    → held id (enqueue call q) ≡ held id q + one id call.call_id
unfolding enqueue
enqueues-held id call q =
    rw (occurrences-call_ids id q.waiting (record call { status = CallStatus.waiting } ∷ []))
      (omega arith)

step-held :
    (id : String) (op : QueueOp) (q : VqQueue)
    → IsValid q
    → held id (step op q) + taken id op q ≡ held id q + brought id op
unfolding step wipe
step-held id (enqueues call) q v = rw (enqueues-held id call q) (omega arith)
step-held id (routes now agent_id) q v = omega (arith, routes-held id now agent_id q)
step-held id (completes now call_id talk hold) q v =
    omega (arith, completes-held id now call_id talk hold q v)
step-held id (abandons now call_id) q v = omega (arith, abandons-held id now call_id q)
step-held id wipes q v = omega arith

-- After any history of a valid queue, an ID is held and was taken away as often as it was held
-- before and was brought.
pub run-held :
    (id : String) (ops : List QueueOp) (q : VqQueue)
    → IsValid q
    → held id (run ops q) + all_taken id ops q ≡ held id q + all_brought id ops
unfolding run
run-held id [] q v = refl
run-held id (op ∷ ops) q v =
    omega (arith, step-held id op q v, run-held id ops (step op q) (step-IsValid op q v))
