-- ===== src/Tests/Cycles.antt =====
-- A cycle of the aggregator.
use monti.Prelude.{refl, [], Option, none, some}
use monti.Tracker.{new_agent_state_tracker, register_agent}
use monti.Tracker.History.{run, step}
use monti.Tracker.Snapshot.{build_snapshot}
use monti.Events.{new_event_cache}
use monti.Aggregator.{Aggregator, Cycle, new_aggregator, cycle}
use monti.Aggregator.Silence.{IsSilent, cycle-IsSilent}
use monti.Tests.Sites.{whole_durations}
use monti.Tests.Fixtures.{two_agents, two_registers}

abbrev two_agents_aggregator : Aggregator
two_agents_aggregator = new_aggregator new_event_cache two_agents

abbrev unwrap : Option Cycle → Cycle
unwrap none = record {
  broadcast = record { timestamp = 0; departments = [] };
  connected_agents = [];
  aggregator = two_agents_aggregator;
}
unwrap (some c) = c

abbrev cycle_99 : Cycle
cycle_99 = unwrap (cycle whole_durations 99 100 (λ _. 0) two_agents_aggregator)

cycle-IsSilent_example : IsSilent (some cycle_99.broadcast)
unfolding new_aggregator cycle build_snapshot run step new_agent_state_tracker register_agent
cycle-IsSilent_example =
    cycle-IsSilent whole_durations 99 100 (λ _. 0) two_registers two_agents_aggregator cycle_99 refl
      refl
