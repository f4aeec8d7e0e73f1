-- ===== src/Tests/Ticks.antt =====
-- Ticks of the routing loop: two agents, five calls.
use monti.Reset.{reset_memory, calls_in, reset_memory-calls}
use monti.Tracker.{count}
use monti.Prelude.{
  ℕ, ◌+◌, ◌≡◌, ◌≢◌, refl, ap, arith, true, List, [], ◌∷◌, Option, none, some, member, Distinct,
}
use monti.Prelude.Dict.{lookup, keys}
use monti.Types.Vq.{VqName, department_vqs, dept_sales}
use monti.Tracker.{new_agent_state_tracker, register_agent, get_available_by_department}
use monti.Tracker.Available.{agent_ids}
use monti.Tracker.History
use monti.CallQueue.Queue.{VqQueue, new_vq_queue, route_next}
use monti.CallQueue.Queue.History.{call_ids}
use monti.CallQueue.Routing.{select_agent}
use monti.CallQueue.Manager.{CallQueueManager, new_call_queue_manager, enqueue_call}
use monti.CallQueue.Manager.Reach.{IsSound, Reach-IsSound, order-AllPresent, tick_routing_total}
use monti.CallQueue.Manager.Twice.{tick_routing_twice}
use monti.CallQueue.Tick.{
  RoutingMatch, hand_over, route_queue, route_vqs, route_department, route_departments,
  tick_routing,
}
use monti.CallQueue.Tick.OneQueue.{match_agents, match_calls}
use monti.CallQueue.Tick.OneDepartment.{Shrinks}
use monti.CallQueue.Tick.Whole.{Serve, DoneOrder}
use monti.CallQueue.Tick.Total.{tick_routing_lem}
use monti.Tests.Fixtures.{
  two_agents, two_agents-IsValid, five_calls, five_calls-Reach, department_vqs-IsOrder,
}

abbrev pub first_clock : ℕ → ℕ
first_clock n = 200 + n

abbrev pub second_clock : ℕ → ℕ
second_clock n = 1200 + n

abbrev pub ticked :
    Option (List RoutingMatch × CallQueueManager) → List RoutingMatch × CallQueueManager
ticked none = ([], five_calls)
ticked (some r) = r

abbrev pub first_tick : List RoutingMatch × CallQueueManager
first_tick = ticked (tick_routing first_clock two_agents department_vqs five_calls)

abbrev second_tick : List RoutingMatch × CallQueueManager
second_tick = ticked (tick_routing second_clock two_agents department_vqs first_tick.1)

first_tick_matches : match_calls first_tick.0 ≡ "c1" ∷ "c2" ∷ []
unfolding tick_routing route_departments route_department route_vqs route_queue hand_over route_next
    select_agent enqueue_call new_call_queue_manager register_agent new_agent_state_tracker
    get_available_by_department History.run History.step
first_tick_matches = refl

second_tick_matches : match_calls second_tick.0 ≡ "c3" ∷ "c4" ∷ []
unfolding tick_routing route_departments route_department route_vqs route_queue hand_over route_next
    select_agent enqueue_call new_call_queue_manager register_agent new_agent_state_tracker
    get_available_by_department History.run History.step
second_tick_matches = refl

first_tick_returns : tick_routing first_clock two_agents department_vqs five_calls ≡ some first_tick
unfolding tick_routing route_departments route_department route_vqs route_queue hand_over route_next
    select_agent enqueue_call new_call_queue_manager register_agent new_agent_state_tracker
    get_available_by_department History.run History.step
first_tick_returns = refl

second_tick_returns :
    tick_routing second_clock two_agents department_vqs first_tick.1 ≡ some second_tick
unfolding tick_routing route_departments route_department route_vqs route_queue hand_over route_next
    select_agent enqueue_call new_call_queue_manager register_agent new_agent_state_tracker
    get_available_by_department History.run History.step
second_tick_returns = refl

abbrev queue_at : Option VqQueue → VqQueue
queue_at none = new_vq_queue (record { name = ""; department = ""; sl_target = 0; sl_seconds = 0 })
queue_at (some q) = q

abbrev last_queue : VqQueue
last_queue = queue_at (lookup "sales_inbound" second_tick.1.queues)

last_queue_found : lookup "sales_inbound" second_tick.1.queues ≡ some last_queue
unfolding tick_routing route_departments route_department route_vqs route_queue hand_over route_next
    select_agent enqueue_call new_call_queue_manager register_agent new_agent_state_tracker
    get_available_by_department History.run History.step
last_queue_found = refl

last_queue_waits : call_ids last_queue.waiting ≡ "c5" ∷ []
unfolding tick_routing route_departments route_department route_vqs route_queue hand_over route_next
    select_agent enqueue_call new_call_queue_manager register_agent new_agent_state_tracker
    get_available_by_department History.run History.step
last_queue_waits = refl

still_waits : last_queue.waiting ≢ []
still_waits e = absurd (ground (arith, ap call_ids e, last_queue_waits))

bob_available : member "bob" (agent_ids (get_available_by_department dept_sales two_agents)) ≡ true
unfolding tick_routing route_departments route_department route_vqs route_queue hand_over route_next
    select_agent enqueue_call new_call_queue_manager register_agent new_agent_state_tracker
    get_available_by_department History.run History.step
bob_available = refl

tick_routing_twice_example :
    (member "bob" (match_agents first_tick.0) ≡ true)
    × (member "bob" (match_agents second_tick.0) ≡ true)
tick_routing_twice_example =
    tick_routing_twice two_agents first_clock second_clock department_vqs department_vqs
      first_tick.0 second_tick.0 five_calls first_tick.1 second_tick.1 dept_sales
      ("sales_inbound" ∷ "sales_outbound" ∷ "sales_callback" ∷ "sales_chat" ∷ [])
      ("sales_inbound" ∷ "sales_outbound" ∷ "sales_callback" ∷ "sales_chat" ∷ []) "sales_inbound"
      last_queue "bob" two_agents-IsValid five_calls-Reach department_vqs-IsOrder
      department_vqs-IsOrder first_tick_returns second_tick_returns (refl, refl) (refl, refl)
      last_queue_found still_waits bob_available

tick_routing_total_example :
    (matches : List RoutingMatch) × (m' : CallQueueManager) × (tick_routing first_clock two_agents
        department_vqs five_calls
      ≡ some (matches, m'))
tick_routing_total_example =
    tick_routing_total first_clock two_agents department_vqs five_calls-Reach two_agents-IsValid
      department_vqs-IsOrder

Reach-IsSound_example : IsSound five_calls
Reach-IsSound_example = Reach-IsSound five_calls-Reach

tick_routing_lem_example :
    (matches : List RoutingMatch) × (m' : CallQueueManager) × (tick_routing first_clock two_agents
        department_vqs five_calls
      ≡ some (matches, m'))
    × Distinct (match_agents matches)
    × Serve two_agents (keys department_vqs) matches
    × ((k : VqName) → Shrinks (lookup k five_calls.queues) (lookup k m'.queues))
    × DoneOrder two_agents department_vqs (match_agents matches) m'.queues
tick_routing_lem_example =
    tick_routing_lem first_clock two_agents department_vqs five_calls two_agents-IsValid
      department_vqs-IsOrder.once
      (order-AllPresent five_calls department_vqs (Reach-IsSound five_calls-Reach)
        department_vqs-IsOrder.known)

reset_memory_example :
    let r = reset_memory two_agents five_calls in
    (r.agents_cleared ≡ count two_agents)
    × (count r.tracker ≡ 0)
    × (r.calls_cleared ≡ calls_in five_calls.queues)
    × (calls_in r.manager.queues ≡ 0)
reset_memory_example = reset_memory-calls two_agents five_calls
