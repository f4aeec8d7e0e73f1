-- ===== src/RoutingLoop/Delivery.antt =====
-- What a tick of the routing loop leaves.
use monti.Prelude.{
  ℕ, suc, ◌≡◌, refl, String, Bool, true, false, List, [], ◌∷◌, Option, none, some, arith, All,
  All-imp, Distinct,
}
use monti.Prelude.Dict.{Dict, lookup, keys}
use monti.Types.Vq.{VqName, Department}
use monti.Types.Agent.{AgentInfo}
use monti.Tracker.{AgentStateTracker}
use monti.Tracker.Invariant.{IsValid}
use monti.CallQueue.Manager.{CallQueueManager}
use monti.CallQueue.Tick.{RoutingMatch, tick_routing}
use monti.CallQueue.Tick.Whole.{serves, Serve, AllPresent}
use monti.CallQueue.Tick.Total.{tick_routing_lem}
use monti.AgentHub.{AgentHub, Outbound, send_to_agent}
use monti.RoutingLoop.{with_manager, send_matches, tick}

pub send_to_agent_absent :
    (pick : Bool) (id : String) (msg : Outbound) (h : AgentHub)
    → lookup id h.agents ≡ none
    → (send_to_agent pick id msg h).1 ≡ h
unfolding send_to_agent
send_to_agent_absent pick id msg h e = rw (send_to_agent, e) refl

send_matches_absent :
    (picks : ℕ → Bool) (clock : ℕ → ℕ) (ms : List RoutingMatch) (h : AgentHub)
    → All (λ m. lookup m.agent_id h.agents ≡ none) ms
    → send_matches picks clock ms h ≡ h
unfolding send_matches
send_matches_absent picks clock [] h a = refl
send_matches_absent picks clock (m ∷ ms) h a =
    rw (send_to_agent_absent (picks 0) m.agent_id _ h a.0)
      (send_matches_absent (λ i. picks (suc i)) (λ i. clock (suc i)) ms h a.1)

-- An agent that serves a department is known to the tracker.
serves-none : (depts : List Department) → serves none depts ≡ false
serves-none [] = refl
serves-none (d ∷ depts) = ground (arith, serves-none depts)

serves_known :
    (o : Option AgentInfo) (depts : List Department)
    → serves o depts ≡ true
    → (a : AgentInfo) × (o ≡ some a)
serves_known none depts e = absurd (cc (serves-none depts, e))
serves_known (some a) depts e = (a, refl)

-- Every agent that the tracker holds is unknown to the hub.
abbrev pub Unreachable : AgentStateTracker → AgentHub → Type 0
Unreachable t h =
    (id : String) (a : AgentInfo) → lookup id t.agents ≡ some a → lookup id h.agents ≡ none

Serve-absent :
    (t : AgentStateTracker) (h : AgentHub) (depts : List Department) (ms : List RoutingMatch)
    → Unreachable t h
    → Serve t depts ms
    → All (λ m. lookup m.agent_id h.agents ≡ none) ms
Serve-absent t h depts ms u s =
    All-imp _ _ (λ m e. let (a, known) = serves_known _ depts e in u m.agent_id a known) ms s

-- A tick, of a hub that holds none of the agents in the tracker, returns. It assigns calls exactly as
-- TickRouting does, whose matches are agents that serve the departments, and the queues that
-- it leaves are those after the matches, although no message was sent: the hub is otherwise as before.
pub tick-undelivered :
    (picks : ℕ → Bool) (routing_clock clock : ℕ → ℕ) (order : Dict (List VqName)) (h : AgentHub)
    (m : CallQueueManager)
    → h.processor.call_completer ≡ some m
    → IsValid h.processor.tracker
    → Distinct (keys order)
    → AllPresent order m.queues
    → Unreachable h.processor.tracker h
    → (matches : List RoutingMatch) × (m' : CallQueueManager) × (tick_routing routing_clock
          h.processor.tracker order m
        ≡ some (matches, m'))
      × Serve h.processor.tracker (keys order) matches
      × (tick picks routing_clock clock order h ≡ some (with_manager m' h))
unfolding tick
tick-undelivered picks routing_clock clock order h m e valid d p u =
    let t = h.processor.tracker in
    let (matches, m', r, _, serve, _, _) = tick_routing_lem routing_clock t order m valid d p in
    let quiet =
      send_matches_absent picks clock matches (with_manager m' h)
        (Serve-absent t h (keys order) matches u serve) in
    (matches, m', r, serve, rw (e, r, quiet) refl)
