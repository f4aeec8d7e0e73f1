-- ===== src/CallQueue/Manager/Reach.antt =====
-- The manager in the running program: what each request, message and tick may do to it.
use monti.Prelude.{
  ℕ, ◌≡◌, subst, inl, inr, String, true, List, [], ◌∷◌, Option, none, some, arith, All, All-imp,
  Distinct, member, ◌==◌, String-cases, Bool-cases,
}
use monti.Prelude.Int.{ℤ}
use monti.Prelude.Dict.{Dict, lookup, insert, lookup-insert, keys, values}
use monti.Types.Vq.{VqName, all_vqs}
use monti.Tracker.{AgentStateTracker}
use monti.Tracker.Invariant as TrackerInvariant
use monti.CallQueue.VqConfig.{VqConfig, default_vq_configs}
use monti.CallQueue.Queue.{VqQueue, new_vq_queue}
use monti.CallQueue.Queue.Invariant.{IsValid, new_vq_queue-IsValid}
use monti.CallQueue.Manager.{
  CallQueueManager, TimeFormat, new_queues, new_call_queue_manager, set_store, enqueue_call,
  complete_call_in, abandon_call_in, force_end_call, wipe_all_calls,
}
use monti.CallQueue.Manager.Keeps.{
  Keeps, KeepsAll, enqueue_call-KeepsAll, complete_call_in-KeepsAll, abandon_call_in-KeepsAll,
  force_end_call-KeepsAll, wipe_all_calls-KeepsAll,
}
use monti.CallQueue.Tick.{RoutingMatch, tick_routing}
use monti.CallQueue.Tick.OneDepartment.{Present, Shrinks}
use monti.CallQueue.Tick.Whole.{AllPresent}
use monti.CallQueue.Tick.Total.{tick_routing_lem}

-- An order in which a `range` over DepartmentVQs may go: each department once, with known VQs.
pub record IsOrder (order : Dict (List VqName)) : Type 0 where
  pub once : Distinct (keys order)
  pub known : All (λ vqs. All (λ vq. member vq all_vqs ≡ true) vqs) (values order)

-- One step of the program, as far as it touches the manager.
pub data Step : CallQueueManager → CallQueueManager → Type 0 where
  stores : (m : CallQueueManager) → Step m (set_store m)
  enqueues :
      (now : ℕ) (new_id vq call_id : String) (m : CallQueueManager)
      → Step m (enqueue_call now new_id vq call_id m).1
  completes :
      (f : TimeFormat) (now : ℕ) (call_id : String) (talk hold : ℤ) (m : CallQueueManager)
      → Step m (complete_call_in f now call_id talk hold m).2
  abandons :
      (now : ℕ) (call_id : String) (m : CallQueueManager) → Step m (abandon_call_in now call_id m).1
  force_ends :
      (f : TimeFormat) (since_now now : ℕ) (call_id : String) (m : CallQueueManager)
      → Step m (force_end_call f since_now now call_id m).2
  wipes : (m : CallQueueManager) → Step m (wipe_all_calls m).1
  ticks :
      (clock : ℕ → ℕ) (t : AgentStateTracker) (order : Dict (List VqName))
      (matches : List RoutingMatch) (m m' : CallQueueManager)
      → TrackerInvariant.IsValid t
      → IsOrder order
      → tick_routing clock t order m ≡ some (matches, m')
      → Step m m'

-- The managers that the program reaches.
pub data Reach : CallQueueManager → Type 0 where
  begins : Reach new_call_queue_manager
  goes_on : {m m' : CallQueueManager} → Reach m → Step m m' → Reach m'

abbrev ValidAt : Option VqQueue → Type 0
ValidAt none = Unit
ValidAt (some q) = IsValid q

-- Every VQ has its queue, and every queue is valid.
pub record IsSound (m : CallQueueManager) : Type 0 where
  pub present : All (λ vq. Present (lookup vq m.queues)) all_vqs
  pub valid : (k : VqName) → ValidAt (lookup k m.queues)

pub Keeps-Present : (o o' : Option VqQueue) → Keeps o o' → Present o → Present o'
Keeps-Present none o' h p = absurd p
Keeps-Present (some q) none h p = h
Keeps-Present (some q) (some q') h p = tt

Keeps-ValidAt : (o o' : Option VqQueue) → Keeps o o' → ValidAt o → ValidAt o'
Keeps-ValidAt none none h v = tt
Keeps-ValidAt none (some q') h v = absurd h
Keeps-ValidAt (some q) none h v = tt
Keeps-ValidAt (some q) (some q') h v = h v

Shrinks-Keeps : (o o' : Option VqQueue) → Shrinks o o' → Keeps o o'
Shrinks-Keeps none none h = tt
Shrinks-Keeps none (some q') h = h
Shrinks-Keeps (some q) none h = h
Shrinks-Keeps (some q) (some q') h = h.2

KeepsAll-IsSound : (m m' : CallQueueManager) → KeepsAll m.queues m'.queues → IsSound m → IsSound m'
KeepsAll-IsSound m m' h s = record {
  present = All-imp _ _ (λ vq. Keeps-Present _ _ (h vq)) all_vqs s.present;
  valid = λ k. Keeps-ValidAt _ _ (h k) (s.valid k);
}

-- The VQs of an order have their queues.
known-Present :
    (m : CallQueueManager) (k : VqName) (vqs : List VqName)
    → All (λ vq. Present (lookup vq m.queues)) vqs
    → member k vqs ≡ true
    → Present (lookup k m.queues)
known-Present m k [] h e = absurd (ground arith)
known-Present m k (vq ∷ vqs) h e = elim (String-cases vq k) [
  | inl (same, _) ↦ subst (λ j. Present (lookup j m.queues)) same h.0
  | inr other ↦ known-Present m k vqs h.1 (ground arith)
]

pub order-AllPresent :
    (m : CallQueueManager) (order : Dict (List VqName))
    → IsSound m
    → All (λ vqs. All (λ vq. member vq all_vqs ≡ true) vqs) (values order)
    → AllPresent order m.queues
order-AllPresent m [] s h = tt
order-AllPresent m ((dept, vqs) ∷ rest) s h = (
  All-imp _ _ (λ vq. known-Present m vq all_vqs s.present) vqs h.0,
  order-AllPresent m rest s h.1,
)

new_queues-ValidAt :
    (configs : Dict VqConfig) (queues : Dict VqQueue)
    → ((k : VqName) → ValidAt (lookup k queues))
    → (k : VqName) → ValidAt (lookup k (new_queues configs queues))
new_queues-ValidAt [] queues v k = v k
new_queues-ValidAt ((name, c) ∷ rest) queues v k =
    new_queues-ValidAt rest (insert name (new_vq_queue c) queues) grown k
  where
    grown : (j : VqName) → ValidAt (lookup j (insert name (new_vq_queue c) queues))
    grown j = rw (lookup-insert name j (new_vq_queue c) queues) (elim (Bool-cases (name == j)) [
      | inl b ↦ rw b (new_vq_queue-IsValid c)
      | inr b ↦ rw b (v j)
    ])

new-valid : (k : VqName) → ValidAt (lookup k new_call_queue_manager.queues)
unfolding new_call_queue_manager
new-valid = new_queues-ValidAt default_vq_configs [] (λ k. tt)

new-Present : All (λ vq. Present (lookup vq new_call_queue_manager.queues)) all_vqs
unfolding new_call_queue_manager
new-Present = omega arith

pub tick-IsSound :
    (clock : ℕ → ℕ) (t : AgentStateTracker) (order : Dict (List VqName))
    (matches : List RoutingMatch) (m m' : CallQueueManager)
    → TrackerInvariant.IsValid t
    → IsOrder order
    → tick_routing clock t order m ≡ some (matches, m')
    → IsSound m
    → IsSound m'
tick-IsSound clock t order matches m m' v o e s =
    let (ms, n, r, _, _, shrinks, _) =
      tick_routing_lem clock t order m v o.once (order-AllPresent m order s o.known) in
    let same : n ≡ m' = ground arith in
    subst IsSound same (
      KeepsAll-IsSound m n (λ k. Shrinks-Keeps (lookup k m.queues) (lookup k n.queues) (shrinks k))
        s)

pub Step-IsSound : {m m' : CallQueueManager} → Step m m' → IsSound m → IsSound m'
Step-IsSound (stores m) s = unfold set_store in record { present = s.present; valid = s.valid }
Step-IsSound (enqueues now new_id vq call_id m) s =
    KeepsAll-IsSound m _ (enqueue_call-KeepsAll now new_id vq call_id m) s
Step-IsSound (completes f now call_id talk hold m) s =
    KeepsAll-IsSound m _ (complete_call_in-KeepsAll f now call_id talk hold m) s
Step-IsSound (abandons now call_id m) s =
    KeepsAll-IsSound m _ (abandon_call_in-KeepsAll now call_id m) s
Step-IsSound (force_ends f since_now now call_id m) s =
    KeepsAll-IsSound m _ (force_end_call-KeepsAll f since_now now call_id m) s
Step-IsSound (wipes m) s = KeepsAll-IsSound m _ (wipe_all_calls-KeepsAll m) s
Step-IsSound (ticks clock t order matches m m' v o e) s =
    tick-IsSound clock t order matches m m' v o e s

-- In every manager that the program reaches, each of the sixteen VQs has its queue, and every queue
-- is valid.
pub Reach-IsSound : {m : CallQueueManager} → Reach m → IsSound m
Reach-IsSound begins = record { present = new-Present; valid = new-valid }
Reach-IsSound (goes_on r st) = Step-IsSound st (Reach-IsSound r)

-- In every manager that the program reaches TickRouting returns, for any valid tracker, any readings
-- of the clock and any order of the departments: it never panics.
pub tick_routing_total :
    {m : CallQueueManager} (clock : ℕ → ℕ) (t : AgentStateTracker) (order : Dict (List VqName))
    → Reach m
    → TrackerInvariant.IsValid t
    → IsOrder order
    → (matches : List RoutingMatch) × (m' : CallQueueManager) × (tick_routing clock t order m
        ≡ some (matches, m'))
tick_routing_total {m} clock t order r v o =
    let (ms, n, e, _, _, _, _) =
      tick_routing_lem clock t order m v o.once
        (order-AllPresent m order (Reach-IsSound r) o.known) in
    (ms, n, e)
