-- ===== src/Tests/Api.antt =====
-- The theorems on the routing loop and on the handlers of the API, applied to one hub.
use monti.Prelude.{
  ℕ, ◌≡◌, refl, String, Bool, false, List, [], ◌∷◌, Option, none, some, ◌==◌, length, ◌≤◌, arith,
  All,
}
use monti.Prelude.Int.{pos}
use monti.Prelude.Dict.{Dict, lookup, keys}
use monti.Types.Vq.{VqName, department_vqs, dept_sales}
use monti.Types.Agent.{AgentInfo}
use monti.Tracker.{new_agent_state_tracker, register_agent}
use monti.Tracker.History
use monti.CallQueue.Queue.{VqQueue, new_vq_queue, enqueue}
use monti.CallQueue.Manager.{CallQueueManager, TimeFormat, enqueue_call, new_call_queue_manager}
use monti.CallQueue.Manager.Reach.{Reach-IsSound, order-AllPresent}
use monti.CallQueue.Tick.{RoutingMatch, tick_routing, route_department}
use monti.CallQueue.Tick.OneDepartment.{Present}
use monti.CallQueue.Tick.Whole.{Serve}
use monti.CallQueue.Tick.Starving.{route_department-starves}
use monti.AgentHub.{AgentHub, new_agent_hub}
use monti.RoutingLoop.{tick, with_manager}
use monti.RoutingLoop.Delivery.{tick-undelivered}
use monti.Api.Inject.{InjectRequest, inject_calls}
use monti.Api.Inject.Accounts.{Accounted, inject_calls-Accounted}
use monti.Tracker.{get_available_by_department}
use monti.Tests.Fixtures.{
  two_agents, sales_config, two_agents-IsValid, five_calls, five_calls-Reach,
  department_vqs-IsOrder,
}
use monti.Tests.Ticks.{first_clock}

abbrev hub_of : CallQueueManager → AgentHub
hub_of m = new_agent_hub (record { tracker = two_agents; call_completer = some m })

abbrev any_pick : ℕ → Bool
any_pick n = false

tick-undelivered_example :
    (matches : List RoutingMatch) × (m' : CallQueueManager) × (tick_routing first_clock two_agents
        department_vqs five_calls
      ≡ some (matches, m'))
    × Serve two_agents (keys department_vqs) matches
    × (tick any_pick first_clock first_clock department_vqs (hub_of five_calls)
        ≡ some (with_manager m' (hub_of five_calls)))
unfolding new_agent_hub
tick-undelivered_example =
    tick-undelivered any_pick first_clock first_clock department_vqs (hub_of five_calls) five_calls
      refl two_agents-IsValid department_vqs-IsOrder.once
      (order-AllPresent five_calls department_vqs (Reach-IsSound five_calls-Reach)
        department_vqs-IsOrder.known)
      (λ id a e. refl)

abbrev twenty : InjectRequest
twenty = record { count = pos 20; vq = "" }

abbrev ids : ℕ → String
ids n = "injected"

inject_calls-Accounted_example :
    Accounted twenty five_calls (inject_calls first_clock ids (some twenty) five_calls)
inject_calls-Accounted_example =
    inject_calls-Accounted first_clock ids twenty five_calls (Reach-IsSound five_calls-Reach)

abbrev format : TimeFormat
format = record { date_key = λ t. "day"; rfc3339 = λ t. "time" }

abbrev later_vqs : List VqName
later_vqs = "sales_outbound" ∷ "sales_callback" ∷ "sales_chat" ∷ []

abbrev or_first : Option VqQueue → VqQueue
or_first none = new_vq_queue sales_config
or_first (some q) = q

abbrev inbound : VqQueue
inbound = or_first (lookup "sales_inbound" five_calls.queues)

abbrev sellers : List AgentInfo
sellers = get_available_by_department dept_sales two_agents

sellers_few :
    (length sellers ≤ length inbound.waiting)
    × (lookup "sales_inbound" five_calls.queues ≡ some inbound)
unfolding get_available_by_department new_agent_state_tracker register_agent enqueue_call
    new_call_queue_manager History.run History.step enqueue
sellers_few = (ground arith, refl)

later_there : All (λ k. Present (lookup k five_calls.queues)) later_vqs
unfolding enqueue_call new_call_queue_manager enqueue
later_there = (tt, (tt, (tt, tt)))

route_department-starves_example :
    (queues' : Dict VqQueue) × (matches' : List RoutingMatch) × (route_department first_clock
        sellers
        ("sales_inbound" ∷ later_vqs)
        five_calls.queues
        []
      ≡ some (queues', matches'))
    × ((k : VqName)
        → ("sales_inbound" == k) ≡ false
        → lookup k queues' ≡ lookup k five_calls.queues)
route_department-starves_example =
    route_department-starves first_clock sellers "sales_inbound" later_vqs five_calls.queues []
      inbound later_there sellers_few.1 sellers_few.0
