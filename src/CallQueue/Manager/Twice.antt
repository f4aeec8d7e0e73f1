-- ===== src/CallQueue/Manager/Twice.antt =====
-- Two ticks before an agent reports: the tracker still says "available", and nothing else
-- remembers the call that the agent was given.
use monti.Prelude.{
  ℕ, ◌≡◌, ◌≢◌, refl, sym, ◌∙◌, subst, inl, inr, ap, String, true, List, [], ◌∷◌, Option, none, some,
  arith, All, member, eq_iff, String-cases,
}
use monti.Prelude.Dict.{Dict, lookup}
use monti.Types.Vq.{VqName, Department}
use monti.Types.Agent.{AgentInfo}
use monti.Tracker.{AgentStateTracker, get_available_by_department}
use monti.Tracker.Available.{agent_ids}
use monti.Tracker.Invariant as TrackerInvariant
use monti.CallQueue.Queue.{VqQueue}
use monti.CallQueue.Queue.History.{call_ids}
use monti.CallQueue.Manager.{CallQueueManager}
use monti.CallQueue.Manager.Reach.{IsOrder, Reach, goes_on, Reach-IsSound, ticks, order-AllPresent}
use monti.CallQueue.Tick.{RoutingMatch, filter_unassigned, tick_routing}
use monti.CallQueue.Tick.OneQueue.{match_agents}
use monti.CallQueue.Tick.OneDepartment.{Shrinks, DoneAt, no_waiting}
use monti.CallQueue.Tick.Whole.{DoneOrder}
use monti.CallQueue.Tick.Total.{tick_routing_lem}

all_assigned :
    (available : List AgentInfo) (ids : List String) (k : String)
    → filter_unassigned available ids ≡ []
    → member k (agent_ids available) ≡ true
    → member k ids ≡ true
all_assigned [] ids k e h = absurd (ground arith)
all_assigned (a ∷ rest) ids k e h = ground (arith, eq_iff a.agent_id k, all_assigned rest ids k)

-- A queue in which a call still waits after the tick had all its agents matched.
DoneAt-busy :
    (available : List AgentInfo) (ids : List String) (k : String) (o : Option VqQueue) (q : VqQueue)
    → DoneAt available ids o
    → o ≡ some q
    → q.waiting ≢ []
    → member k (agent_ids available) ≡ true
    → member k ids ≡ true
DoneAt-busy available ids k none q d e w h = absurd d
DoneAt-busy available ids k (some p) q (inl idle) e w h = absurd (w (ground arith))
DoneAt-busy available ids k (some p) q (inr all) e w h = all_assigned available ids k all h

All-member {κ} :
    (P : String → Type κ) (k : String) (xs : List String) → All P xs → member k xs ≡ true → P k
All-member P k [] h e = absurd (ground arith)
All-member P k (x ∷ xs) h e = elim (String-cases x k) [
  | inl (same, _) ↦ subst P same h.0
  | inr other ↦ All-member P k xs h.1 (ground arith)
]

DoneOrder-lookup :
    (t : AgentStateTracker) (order : Dict (List VqName)) (ids : List String) (queues : Dict VqQueue)
    (dept : Department) (vqs : List VqName)
    → DoneOrder t order ids queues
    → lookup dept order ≡ some vqs
    → All (λ vq. DoneAt (get_available_by_department dept t) ids (lookup vq queues)) vqs
DoneOrder-lookup t [] ids queues dept vqs d e = absurd (ground arith)
DoneOrder-lookup t ((name, names) ∷ rest) ids queues dept vqs d e = elim (String-cases name dept) [
  | inl (same, b) ↦
      subst
        (λ (vs : List VqName).
          All (λ vq. DoneAt (get_available_by_department dept t) ids (lookup vq queues)) vs)
        (ground arith)
        (subst
          (λ j. All (λ vq. DoneAt (get_available_by_department j t) ids (lookup vq queues)) names)
          same d.0)
  | inr other ↦ DoneOrder-lookup t rest ids queues dept vqs d.1 (rw other at e)
]

-- A call that waits after a second tick waited after the first.
still-waiting :
    (o : Option VqQueue) (q : VqQueue)
    → Shrinks o (some q)
    → q.waiting ≢ []
    → (p : VqQueue) × (o ≡ some p) × (p.waiting ≢ [])
still-waiting none q h w = absurd h
still-waiting (some p) q h w =
    (p, refl, λ e. w (no_waiting h.0 q.waiting (sym (ap call_ids e) ∙ h.1)))

module _ (t : AgentStateTracker) (valid : TrackerInvariant.IsValid t) where
  -- What one tick leaves, as far as it is used here.
  tick_result :
      (clock : ℕ → ℕ) (order : Dict (List VqName)) (matches : List RoutingMatch)
      (m m' : CallQueueManager)
      → Reach m
      → IsOrder order
      → tick_routing clock t order m ≡ some (matches, m')
      → ((k : VqName) → Shrinks (lookup k m.queues) (lookup k m'.queues))
        × DoneOrder t order (match_agents matches) m'.queues
  tick_result clock order matches m m' r o e =
      let (ms, n, f, _, _, shrinks, done) =
        tick_routing_lem clock t order m valid o.once
          (order-AllPresent m order (Reach-IsSound r) o.known) in
      let result : (ms, n) ≡ (matches, m') = ground arith in
      subst
        (λ (p : List RoutingMatch × CallQueueManager).
          ((k : VqName) → Shrinks (lookup k m.queues) (lookup k p.1.queues))
          × DoneOrder t order (match_agents p.0) p.1.queues)
        result (shrinks, done)

  busy :
      (clock : ℕ → ℕ) (order : Dict (List VqName)) (matches : List RoutingMatch)
      (m m' : CallQueueManager) (dept : Department) (vqs : List VqName) (vq : VqName) (q : VqQueue)
      (k : String)
      → Reach m
      → IsOrder order
      → tick_routing clock t order m ≡ some (matches, m')
      → lookup dept order ≡ some vqs
      → member vq vqs ≡ true
      → lookup vq m'.queues ≡ some q
      → q.waiting ≢ []
      → member k (agent_ids (get_available_by_department dept t)) ≡ true
      → member k (match_agents matches) ≡ true
  busy clock order matches m m' dept vqs vq q k r o e d v f w h =
      let done = (tick_result clock order matches m m' r o e).1 in
      let available = get_available_by_department dept t in
      DoneAt-busy available (match_agents matches) k (lookup vq m'.queues) q
        (All-member (λ j. DoneAt available (match_agents matches) (lookup j m'.queues)) vq vqs
          (DoneOrder-lookup t order (match_agents matches) m'.queues dept vqs done d) v)
        f w h

-- Two ticks of a manager that the program reaches, with the same tracker (no agent has reported in
-- between): if a call still waits in a queue of a department after the second, then every agent that
-- is available in the department was matched in both, and so holds two calls.
pub tick_routing_twice :
    (t : AgentStateTracker) (first second : ℕ → ℕ) (order order' : Dict (List VqName))
    (matches matches' : List RoutingMatch) (m m' m'' : CallQueueManager) (dept : Department)
    (vqs vqs' : List VqName) (vq : VqName) (q : VqQueue) (k : String)
    → TrackerInvariant.IsValid t
    → Reach m
    → IsOrder order
    → IsOrder order'
    → tick_routing first t order m ≡ some (matches, m')
    → tick_routing second t order' m' ≡ some (matches', m'')
    → (lookup dept order ≡ some vqs) × (member vq vqs ≡ true)
    → (lookup dept order' ≡ some vqs') × (member vq vqs' ≡ true)
    → lookup vq m''.queues ≡ some q
    → q.waiting ≢ []
    → member k (agent_ids (get_available_by_department dept t)) ≡ true
    → (member k (match_agents matches) ≡ true) × (member k (match_agents matches') ≡ true)
tick_routing_twice t first second order order' matches matches' m m' m'' dept vqs vqs' vq q k valid
      r o o' e e' d d' f w h =
    let r' = goes_on r (ticks first t order matches m m' valid o e) in
    let shrinks = (tick_result t valid second order' matches' m' m'' r' o' e').0 vq in
    let (p, f', w') =
      still-waiting (lookup vq m'.queues) q (subst (Shrinks (lookup vq m'.queues)) f shrinks) w in
    (
      busy t valid first order matches m m' dept vqs vq p k r o e d.0 d.1 f' w' h,
      busy t valid second order' matches' m' m'' dept vqs' vq q k r' o' e' d'.0 d'.1 f w h,
    )
