-- ===== src/Aggregator.antt =====
-- Backend/internal/aggregator/aggregator.go: one cycle of the loop of Start, from the tracker and the
-- queues to the snapshot that is broadcast. A call queue that was not set is `none`; `none` as a
-- result is a panic of what the cycle calls. Marshalling is taken to succeed.
pub mod Silence
use monti.Prelude.{ℕ, List, [], Option, none, some, ◌>>=◌}
use monti.Prelude.Dict.{Dict}
use monti.Types.Vq.{VqName}
use monti.Types.Call.{VqSnapshot}
use monti.Types.Agent.{AgentInfo, Snapshot}
use monti.Events.{EventCache, get_and_clear}
use monti.Tracker.{AgentStateTracker}
use monti.Tracker.Snapshot.{build_snapshot}
use monti.CallQueue.Manager.{CallQueueManager, get_all_snapshots}
use monti.Alerts.{Durations, check_agent_alerts}

pub record Aggregator : Type 0 where
  pub cache : EventCache
  pub state_tracker : AgentStateTracker
  pub call_queue : Option CallQueueManager

-- NewAggregator
unfoldable pub new_aggregator : EventCache → AgentStateTracker → Aggregator
new_aggregator cache tracker = record { cache = cache; state_tracker = tracker; call_queue = none }

-- SetCallQueue
unfoldable pub set_call_queue : CallQueueManager → Aggregator → Aggregator
set_call_queue m a = record a { call_queue = some m }

-- vqSnapshots
abbrev pub vq_snapshots :
    (VqName → ℕ) → AgentStateTracker → Option CallQueueManager → Option (Dict (List VqSnapshot))
vq_snapshots clock tracker none = some []
vq_snapshots clock tracker (some m) = get_all_snapshots clock tracker m

-- What a cycle produces: the snapshot for the hub, and the copies of the agents with their alerts.
pub record Cycle : Type 0 where
  pub broadcast : Snapshot
  pub connected_agents : List AgentInfo
  pub aggregator : Aggregator

-- The case `<-ticker.C` of Start; the readings of the clock for the snapshot and for the alerts.
unfoldable pub cycle : Durations → ℕ → ℕ → (VqName → ℕ) → Aggregator → Option Cycle
unfolding get_and_clear
cycle durations snapshot_now alert_now clock a =
    vq_snapshots clock a.state_tracker a.call_queue >>= λ vqs.
    build_snapshot snapshot_now vqs a.state_tracker >>= λ (snapshot, connected). some (record {
      broadcast = snapshot;
      connected_agents = check_agent_alerts durations alert_now connected;
      aggregator = record a { cache = (get_and_clear a.cache).1 };
    })
