-- ===== src/Tests/Queues.antt =====
-- One queue: its routing, its accounts, its service level.
use monti.Prelude.{◌+◌, ◌≡◌, ◌⊎◌, String, List, [], ◌∷◌, ◌++◌, none, some}
use monti.Prelude.Int.{pos}
use monti.Types.Agent.{AgentInfo}
use monti.CallQueue.SlTracker.{new_sl_tracker, current_sl}
use monti.CallQueue.SlTracker.Level.{record_answers, IsPercentage, current_sl-record_answers}
use monti.CallQueue.Queue.{new_vq_queue}
use monti.CallQueue.Queue.History.{
  QueueOp, enqueues, routes, completes, abandons, wipes, run, call_ids, served, served_fifo,
}
use monti.CallQueue.Queue.Refines.{outcomes, ledger_of, ledger_run, run-ledger_run}
use monti.CallQueue.Queue.Invariant.{IsValid, new_vq_queue-IsValid, run-new_vq_queue-IsValid}
use monti.CallQueue.Queue.Identities.{held, all_taken, all_brought}
use monti.CallQueue.Queue.Accounts.{population, all_dropped, population-run}
use monti.CallQueue.Routing.{select_agent}
use monti.CallQueue.Routing.Oldest.{IsFirstOldest, select_agent-IsFirstOldest}
use monti.Tracker.{get_available_by_department}
use monti.Types.Vq.{dept_sales}
use monti.Tests.Fixtures.{sales_config, call_at, two_agents}

abbrev morning : List QueueOp
morning =
    enqueues (call_at 0 "a")
    ∷ enqueues (call_at 5 "b")
    ∷ routes 10 "ada"
    ∷ enqueues (call_at 12 "c")
    ∷ completes 20 "a" (pos 7) (pos 0)
    ∷ []

abbrev day : List QueueOp
day = morning ++ abandons 30 "b" ∷ routes 31 "bob" ∷ wipes ∷ []

run-new_vq_queue-IsValid_example : IsValid (run day (new_vq_queue sales_config))
run-new_vq_queue-IsValid_example = run-new_vq_queue-IsValid sales_config day

population-run_example :
    ((id : String)
      → held id (run day (new_vq_queue sales_config)) + all_taken id day (new_vq_queue sales_config)
        ≡ all_brought id day)
    × (population (run day (new_vq_queue sales_config))
          + all_dropped day (new_vq_queue sales_config)
        ≡ 3)
population-run_example = population-run sales_config day

served_fifo_example :
    served morning (new_vq_queue sales_config)
      ++ call_ids (run morning (new_vq_queue sales_config)).waiting
    ≡ "a" ∷ "b" ∷ "c" ∷ []
unfolding new_vq_queue
served_fifo_example =
    served_fifo morning (new_vq_queue sales_config) (tt, (tt, (tt, (tt, (tt, tt)))))

run-ledger_run_example :
    (outcomes day (new_vq_queue sales_config), ledger_of (run day (new_vq_queue sales_config)))
    ≡ ledger_run day (ledger_of (new_vq_queue sales_config))
run-ledger_run_example =
    run-ledger_run day (new_vq_queue sales_config) (new_vq_queue-IsValid sales_config)

-- Two answers after 5 and 25 seconds.
current_sl-record_answers_example :
    (current_sl (record_answers (pos 5000000000 ∷ pos 25000000000 ∷ []) (new_sl_tracker 80 20))
      ≡ record { num = 100; den = 2 })
    × IsPercentage
        (current_sl (record_answers (pos 5000000000 ∷ pos 25000000000 ∷ []) (new_sl_tracker 80 20)))
current_sl-record_answers_example =
    current_sl-record_answers 80 20 (pos 5000000000 ∷ pos 25000000000 ∷ [])

abbrev sales_agents : List AgentInfo
sales_agents = get_available_by_department dept_sales two_agents

select_agent-IsFirstOldest_example :
    ((sales_agents ≡ []) × (select_agent sales_agents ≡ none))
    ⊎ ((a : AgentInfo) × (select_agent sales_agents ≡ some a) × IsFirstOldest a sales_agents)
select_agent-IsFirstOldest_example = select_agent-IsFirstOldest sales_agents
