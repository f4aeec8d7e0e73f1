-- ===== src/CallQueue/Queue/Refines.antt =====
-- What one queue promises, apart from its records: a ledger of the IDs of the calls that wait, in
-- their order, and of those that are active. The queue implements the ledger.
use monti.Prelude.{
  ℕ, ◌+◌, length, eq_iff, ◌≡◌, refl, ap, ◌∙◌, String, true, false, not, List, [], ◌∷◌, ◌++◌, Option,
  none, some, arith, keep, member, ◌==◌, if◌then◌else◌, Bool-cases, inl, inr, ◌>>=◌,
}
use monti.Prelude.Dict.{Dict, lookup, insert, delete, keys, lookup-none-member, Entries-lookup}
use monti.Types.Call.{Call, CallStatus}
use monti.CallQueue.Queue.{
  VqQueue, enqueue, assigned_call, route_next, complete_call, take_waiting, abandon_call, wipe,
}
use monti.CallQueue.Queue.Cases.{route_next_cases, complete_call_cases}
use monti.CallQueue.Queue.Invariant.{IsValid, step-IsValid}
use monti.CallQueue.Queue.History.{
  QueueOp, enqueues, routes, completes, abandons, wipes, step, run, call_ids,
}

pub record Ledger : Type 0 where
  pub waiting : List String
  pub active : List String

abbrev file : String → List String → List String
file id ids = if member id ids then ids else ids ++ id ∷ []

abbrev strike : String → List String → List String
strike id ids = keep (λ other. not (other == id)) ids

abbrev strike_first : String → List String → List String
strike_first id [] = []
strike_first id (x ∷ xs) = let rest = strike_first id xs in if x == id then xs else x ∷ rest

-- The oldest call becomes active.
abbrev promote : List String → List String → Ledger
promote [] active = record { waiting = []; active = active }
promote (id ∷ rest) active = record { waiting = rest; active = file id active }

-- What a change answers: no call, the ID of a call, or the number of calls that were cleared.
pub data LedgerReply : Type 0 where
  no_call : LedgerReply
  one_call : String → LedgerReply
  cleared : ℕ → LedgerReply

abbrev first_of : List String → LedgerReply
first_of [] = no_call
first_of (id ∷ rest) = one_call id

-- What a change does to the ledger, and what it answers.
abbrev pub ledger_step : QueueOp → Ledger → LedgerReply × Ledger
ledger_step (enqueues call) l = (no_call, record l { waiting = l.waiting ++ call.call_id ∷ [] })
ledger_step (routes now agent_id) l = (first_of l.waiting, promote l.waiting l.active)
ledger_step (completes now call_id talk hold) l = (
  if member call_id l.active then one_call call_id else no_call,
  record l { active = strike call_id l.active },
)
ledger_step (abandons now call_id) l = (
  if member call_id l.waiting then one_call call_id else no_call,
  record l { waiting = strike_first call_id l.waiting },
)
ledger_step wipes l =
    (cleared (length l.waiting + length l.active), record { waiting = []; active = [] })

abbrev pub ledger_run : List QueueOp → Ledger → List LedgerReply × Ledger
ledger_run [] l = ([], l)
ledger_run (op ∷ ops) l =
    let (out, l') = ledger_step op l in let (outs, l'') = ledger_run ops l' in (out ∷ outs, l'')

-- The ledger of a queue.
abbrev pub ledger_of : VqQueue → Ledger
ledger_of q = record { waiting = call_ids q.waiting; active = keys q.active }

-- The call that a method returns, by its own ID.
abbrev shown : Option Call → LedgerReply
shown none = no_call
shown (some call) = one_call call.call_id

-- What a method of the queue returns.
abbrev pub outcome : QueueOp → VqQueue → LedgerReply
outcome (enqueues call) q = no_call
outcome (routes now agent_id) q = shown (route_next now agent_id q).0
outcome (completes now call_id talk hold) q = shown (complete_call now call_id talk hold q).0
outcome (abandons now call_id) q = shown (abandon_call now call_id q).0
outcome wipes q = cleared (wipe q).0

abbrev pub outcomes : List QueueOp → VqQueue → List LedgerReply
outcomes [] q = []
outcomes (op ∷ ops) q = outcome op q ∷ outcomes ops (step op q)

keys-insert :
    (id : String) (call : Call) (m : Dict Call) → keys (insert id call m) ≡ file id (keys m)
keys-insert id call [] = refl
keys-insert id call ((k, c) ∷ m) = ground (arith, keys-insert id call m)

keys-delete : (id : String) (m : Dict Call) → keys (delete id m) ≡ strike id (keys m)
keys-delete id [] = refl
keys-delete id ((k, c) ∷ m) = ground (arith, keys-delete id m)

call_ids-snoc :
    (cs : List Call) (c : Call) → call_ids (cs ++ c ∷ []) ≡ call_ids cs ++ c.call_id ∷ []
call_ids-snoc [] c = refl
call_ids-snoc (d ∷ cs) c = ap (◌∷◌ d.call_id) (call_ids-snoc cs c)

strike_absent : (id : String) (m : Dict Call) → lookup id m ≡ none → strike id (keys m) ≡ keys m
strike_absent id [] h = refl
strike_absent id ((k, c) ∷ m) h = ground (arith, strike_absent id m)

lookup-member :
    (id : String) (m : Dict Call) (c : Call) → lookup id m ≡ some c → member id (keys m) ≡ true
lookup-member id [] c h = absurd (ground arith)
lookup-member id ((k, d) ∷ m) c h = ground (arith, lookup-member id m c)

-- What the search of AbandonCall gives, on the ledger.
abbrev Taken : String → List Call → Option (Call × List Call) → Type 0
Taken id cs none = (member id (call_ids cs) ≡ false) × (strike_first id (call_ids cs) ≡ call_ids cs)
Taken id cs (some (c, rest)) =
    (member id (call_ids cs) ≡ true)
    × (strike_first id (call_ids cs) ≡ call_ids rest)
    × (c.call_id ≡ id)

Taken-later :
    (id : String) (c : Call) (cs : List Call) (o : Option (Call × List Call))
    → (c.call_id == id) ≡ false
    → Taken id cs o
    → Taken id (c ∷ cs) (o >>= λ (found, others). some (found, c ∷ others))
Taken-later id c cs none e t = (rw e t.0, rw e (ap (◌∷◌ c.call_id) t.1))
Taken-later id c cs (some (d, rest)) e (there, struck, same) =
    (rw e there, rw e (ap (◌∷◌ c.call_id) struck), same)

take_waiting-Taken : (id : String) (cs : List Call) → Taken id cs (take_waiting id cs)
unfolding take_waiting
take_waiting-Taken id [] = (refl, refl)
take_waiting-Taken id (c ∷ cs) = elim (Bool-cases (c.call_id == id)) [
  | inl e ↦ rw (take_waiting, e) (rw e refl, rw e refl, (eq_iff c.call_id id).0 e)
  | inr e ↦
      rw (take_waiting, e) (Taken-later id c cs (take_waiting id cs) e (take_waiting-Taken id cs))
]

-- What a result of routing, completing or abandoning shows on the ledger.
after : Option Call × VqQueue → LedgerReply × Ledger
after (o, q) = (shown o, ledger_of q)

abandoned_step :
    (now : ℕ) (id : String) (q : VqQueue) (o : Option (Call × List Call))
    → take_waiting id q.waiting ≡ o
    → Taken id q.waiting o
    → (shown (abandon_call now id q).0, ledger_of (abandon_call now id q).1)
      ≡ ledger_step (abandons now id) (ledger_of q)
unfolding abandon_call
abandoned_step now id q none e (absent, same) = rw (abandon_call, e, absent, same) refl
abandoned_step now id q (some (c, rest)) e (present, struck, same) =
    rw (abandon_call, e, present, struck, same) refl

length-call_ids : (cs : List Call) → length (call_ids cs) ≡ length cs
length-call_ids [] = refl
length-call_ids (c ∷ cs) = omega (arith, length-call_ids cs)

length-keys : (m : Dict Call) → length (keys m) ≡ length m
length-keys [] = refl
length-keys ((k, c) ∷ m) = omega (arith, length-keys m)

-- One operation of the queue, on its ledger.
step-ledger_step :
    (op : QueueOp) (q : VqQueue)
    → IsValid q
    → (outcome op q, ledger_of (step op q)) ≡ ledger_step op (ledger_of q)
unfolding step enqueue wipe
step-ledger_step (enqueues call) q v =
    rw (enqueue, call_ids-snoc q.waiting (record call { status = CallStatus.waiting })) refl
step-ledger_step (routes now agent_id) q v = elim (route_next_cases now agent_id q) [
  | inl (e, r) ↦ unfold after in ap after r ∙ rw e refl
  | inr (call, rest, e, r) ↦
      unfold after in
      ap after r ∙ rw (e, keys-insert call.call_id (assigned_call now call agent_id) q.active) refl
]
step-ledger_step (completes now call_id talk hold) q v =
    elim (complete_call_cases now call_id talk hold q) [
      | inl (e, r) ↦
          unfold after in
          ap after r
          ∙ rw (lookup-none-member call_id q.active e, strike_absent call_id q.active e) refl
      | inr (call, e, r) ↦
          unfold after in
          ap after r
          ∙ rw
              (
                keys-delete call_id q.active,
                lookup-member call_id q.active call e,
                (Entries-lookup _ call_id q.active v.all_active e).0,
              )
              refl
    ]
step-ledger_step (abandons now call_id) q v =
    abandoned_step now call_id q (take_waiting call_id q.waiting) refl
      (take_waiting-Taken call_id q.waiting)
step-ledger_step wipes q v = rw (wipe, length-call_ids q.waiting, length-keys q.active) refl

-- A valid queue implements its ledger: after any history, what each operation returned is what the
-- ledger answers, a call by its own ID and a wipe by the number of calls it cleared, and the queue's
-- ledger is the one that the history leaves.
pub run-ledger_run :
    (ops : List QueueOp) (q : VqQueue)
    → IsValid q
    → (outcomes ops q, ledger_of (run ops q)) ≡ ledger_run ops (ledger_of q)
unfolding run
run-ledger_run [] q v = refl
run-ledger_run (op ∷ ops) q v =
    let one = step-ledger_step op q v in
    let rest = run-ledger_run ops (step op q) (step-IsValid op q v) in
    ap (λ x. (outcome op q ∷ x.0, x.1)) rest
    ∙ ap (λ x. let (outs, l) = ledger_run ops x.1 in (x.0 ∷ outs, l)) one
