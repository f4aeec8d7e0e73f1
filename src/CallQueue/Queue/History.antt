-- ===== src/CallQueue/Queue/History.antt =====
-- The changes that the manager makes to one queue, as a list, and the order in which calls are served.
use monti.Prelude.{
  ℕ, ◌≡◌, refl, sym, ap, ◌∙◌, String, List, [], ◌∷◌, ◌++◌, Option, none, some, append_assoc,
  append-nil, arith, All,
}
use monti.Prelude.Int.{ℤ}
use monti.Types.Call.{Call}
use monti.CallQueue.Queue.{VqQueue, enqueue, route_next, complete_call, abandon_call, wipe}

pub data QueueOp : Type 0 where
  enqueues : Call → QueueOp
  routes : ℕ → String → QueueOp
  completes : ℕ → String → ℤ → ℤ → QueueOp
  abandons : ℕ → String → QueueOp
  wipes : QueueOp

unfoldable pub step : QueueOp → VqQueue → VqQueue
unfolding enqueue route_next complete_call abandon_call wipe
step (enqueues call) q = enqueue call q
step (routes now agent_id) q = (route_next now agent_id q).1
step (completes now call_id talk hold) q = (complete_call now call_id talk hold q).1
step (abandons now call_id) q = (abandon_call now call_id q).1
step wipes q = (wipe q).1

unfoldable pub run : List QueueOp → VqQueue → VqQueue
run [] q = q
run (op ∷ ops) q = run ops (step op q)

abbrev pub call_ids : List Call → List String
call_ids [] = []
call_ids (c ∷ cs) = c.call_id ∷ call_ids cs

abbrev served_ids : Option Call → List String
served_ids none = []
served_ids (some call) = call.call_id ∷ []

-- The IDs of the calls that a history hands to agents, in that order.
abbrev served_by : QueueOp → VqQueue → List String
served_by (routes now agent_id) q = served_ids (route_next now agent_id q).0
served_by _ q = []

abbrev pub served : List QueueOp → VqQueue → List String
served [] q = []
served (op ∷ ops) q = served_by op q ++ served ops (step op q)

-- The IDs of the calls that a history enqueues, in that order.
abbrev arrival : QueueOp → List String
arrival (enqueues call) = call.call_id ∷ []
arrival _ = []

abbrev pub arrivals : List QueueOp → List String
arrivals [] = []
arrivals (op ∷ ops) = arrival op ++ arrivals ops

-- No caller hangs up, and nothing is wiped.
abbrev pub IsPatient : QueueOp → Type 0
IsPatient (abandons now call_id) = ⊥
IsPatient wipes = ⊥
IsPatient _ = Unit

call_ids-append : (xs ys : List Call) → call_ids (xs ++ ys) ≡ call_ids xs ++ call_ids ys
call_ids-append [] ys = refl
call_ids-append (x ∷ xs) ys = ground (arith, call_ids-append xs ys)

served-step :
    (op : QueueOp) (q : VqQueue)
    → IsPatient op
    → served_by op q ++ call_ids (step op q).waiting ≡ call_ids q.waiting ++ arrival op
unfolding step
served-step (enqueues call) q h = call_ids-append q.waiting _
served-step (routes now agent_id) q h = ground (arith, append-nil (call_ids q.waiting))
served-step (completes now call_id talk hold) q h = ground (arith, append-nil (call_ids q.waiting))
served-step (abandons now call_id) q h = absurd h
served-step wipes q h = absurd h

-- While nobody hangs up and nothing is wiped, calls are served first in, first out: those served,
-- then those still waiting, are those that waited at first, then those that arrived.
pub served_fifo :
    (ops : List QueueOp) (q : VqQueue)
    → All IsPatient ops
    → served ops q ++ call_ids (run ops q).waiting ≡ call_ids q.waiting ++ arrivals ops
unfolding run
served_fifo [] q h = sym (append-nil (call_ids q.waiting))
served_fifo (op ∷ ops) q h =
    let later = served_fifo ops (step op q) h.1 in
    append_assoc (served_by op q) _ _
    ∙ ap (◌++◌ (served_by op q)) later
    ∙ sym (append_assoc (served_by op q) _ _)
    ∙ ap (λ (l : List String). l ++ arrivals ops) (served-step op q h.0)
    ∙ append_assoc (call_ids q.waiting) _ _
