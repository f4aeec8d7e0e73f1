-- ===== src/CallQueue/Tick.antt =====
-- Backend/internal/callqueue/manager.go: TickRouting. A result `none` is a panic on a nil pointer.
-- The set `assigned` is the list of the IDs that were put in it.
pub mod OneQueue
pub mod OneDepartment
pub mod Loop
pub mod Whole
pub mod Total
pub mod Starving
use monti.Prelude.{
  ℕ, zero, suc, String, Bool, true, false, not, List, [], ◌∷◌, ◌++◌, Option, none, some, length,
  keep, member, ◌>>=◌, if◌then◌else◌,
}
use monti.Prelude.Dict.{Dict, lookup, insert}
use monti.Types.Vq.{VqName}
use monti.Types.Call.{Call}
use monti.Types.Agent.{AgentInfo}
use monti.Tracker.{AgentStateTracker, get_available_by_department}
use monti.CallQueue.Queue.{VqQueue, route_next}
use monti.CallQueue.Routing.{select_agent}
use monti.CallQueue.Manager.{CallQueueManager}

pub record RoutingMatch : Type 0 where
  pub call : Call
  pub agent_id : String

-- The variables of the innermost loop.
pub record Round : Type 0 where
  pub queue : VqQueue
  pub assigned : List String
  pub matches : List RoutingMatch

-- filterUnassigned
abbrev pub filter_unassigned : List AgentInfo → List String → List AgentInfo
filter_unassigned agents assigned = keep (λ a. not (member a.agent_id assigned)) agents

abbrev is_empty {ℓ} : {A : Type ℓ} → List A → Bool
is_empty [] = true
is_empty (x ∷ xs) = false

-- The body of the innermost loop once an agent is selected.
unfoldable pub hand_over : (ℕ → ℕ) → AgentInfo → Round → Option Round
hand_over clock agent s =
    let (next, queue) = route_next (clock (length s.matches)) agent.agent_id s.queue in
    elim next [
      | none ↦ none
      | some call ↦ some (record {
        queue = queue;
        assigned = s.assigned ++ agent.agent_id ∷ [];
        matches = s.matches ++ record { call = call; agent_id = agent.agent_id } ∷ [];
      })
    ]

-- The loop `for len(queue.Waiting) > 0`. Each round takes one call, so as many rounds as calls wait
-- are enough. The clock is read once for each match.
unfoldable pub route_queue : (ℕ → ℕ) → List AgentInfo → ℕ → Round → Option Round
route_queue clock available zero s = some s
route_queue clock available (suc n) s = elim (is_empty s.queue.waiting) [
  | true ↦ some s
  | false ↦ elim (select_agent (filter_unassigned available s.assigned)) [
    | none ↦ some s
    | some agent ↦ elim (hand_over clock agent s) [
      | none ↦ none
      | some s' ↦ route_queue clock available n s'
    ]
  ]
]

-- The variables of the loop over a department's queues.
pub record Pass : Type 0 where
  pub queues : Dict VqQueue
  pub assigned : List String
  pub matches : List RoutingMatch

-- The loop over a department's queues.
unfoldable pub route_vqs : (ℕ → ℕ) → List AgentInfo → List VqName → Pass → Option Pass
route_vqs clock available [] p = some p
route_vqs clock available (vq ∷ rest) p = elim (lookup vq p.queues) [
  | none ↦ none
  | some queue ↦
      elim (route_queue clock available (length queue.waiting)
        (record { queue = queue; assigned = p.assigned; matches = p.matches })) [
          | none ↦ none
          | some s ↦ route_vqs clock available rest (record {
            queues = insert vq s.queue p.queues;
            assigned = s.assigned;
            matches = s.matches;
          })
        ]
]

-- One department: it is skipped if nobody is available, and otherwise starts with nobody assigned.
unfoldable pub route_department :
    (ℕ → ℕ)
    → List AgentInfo
    → List VqName
    → Dict VqQueue
    → List RoutingMatch
    → Option (Dict VqQueue × List RoutingMatch)
route_department clock available vqs queues matches =
    if is_empty available then some (queues, matches) else (do
      p ←
          route_vqs clock available vqs
            (record { queues = queues; assigned = []; matches = matches })
      some (p.queues, p.matches))

-- The loop over the departments, in the order of this `range`.
unfoldable pub route_departments :
    (ℕ → ℕ)
    → AgentStateTracker
    → Dict (List VqName)
    → Dict VqQueue
    → List RoutingMatch
    → Option (Dict VqQueue × List RoutingMatch)
route_departments clock tracker [] queues matches = some (queues, matches)
route_departments clock tracker ((dept, vqs) ∷ rest) queues matches =
    elim (route_department clock (get_available_by_department dept tracker) vqs queues matches) [
      | none ↦ none
      | some (queues', matches') ↦ route_departments clock tracker rest queues' matches'
    ]

-- TickRouting; `order` is DepartmentVQs in the order in which the map is visited. The tracker is read
-- once for each department, under its own lock; here it does not change between these reads.
unfoldable pub tick_routing :
    (ℕ → ℕ)
    → AgentStateTracker
    → Dict (List VqName)
    → CallQueueManager
    → Option (List RoutingMatch × CallQueueManager)
tick_routing clock tracker order m = do
  (queues, matches) ← route_departments clock tracker order m.queues []
  some (matches, record m { queues = queues })
