-- ===== src/Tests/Agents.antt =====
-- The tracker: its invariant, stale connections, availability, and snapshots.
use monti.Prelude.{◌≡◌, refl, ◌⊎◌, false, true, List, [], ◌∷◌, none, some, member, keep}
use monti.Prelude.Dict.{Dict, lookup, values}
use monti.Types.Vq.{Department, dept_sales}
use monti.Types.Agent.{DepartmentData}
use monti.Types.Message.{AgentRegister}
use monti.Tracker.{
  new_agent_state_tracker, get_connected_agents, check_stale_agents, register_agent,
}
use monti.Tracker.History.{TrackerOp, registers, connects, disconnects, enlists, checks, run}
use monti.Tracker.Invariant.{IsValid, run-new_agent_state_tracker-IsValid}
use monti.Tracker.Stale.{is_fresh, get_connected_agents-check_stale_agents}
use monti.Tracker.Snapshot.{all_departments, queues_of, build_snapshot}
use monti.Tracker.Snapshot.Totality.{all_in, members_of, build_snapshot_lem}
use monti.Tracker.Snapshot.Panic.{build_snapshot-register_agent-none}
use monti.Tests.Fixtures.{ada, two_agents}

abbrev shift : List TrackerOp
shift =
    enlists 1 "ada" dept_sales "berlin" "blue"
    ∷ registers 10 ada
    ∷ connects 11 "ada" false
    ∷ disconnects 12 13 "ada"
    ∷ checks 20
    ∷ []

run-new_agent_state_tracker-IsValid_example : IsValid (run shift new_agent_state_tracker)
run-new_agent_state_tracker-IsValid_example = run-new_agent_state_tracker-IsValid shift

check_stale_agents_example :
    get_connected_agents (check_stale_agents 6000000015 two_agents)
    ≡ keep (is_fresh 6000000015) (get_connected_agents two_agents)
check_stale_agents_example = get_connected_agents-check_stale_agents 6000000015 two_agents

build_snapshot_lem_example :
    ((all_in (values two_agents.agents) all_departments ≡ true)
      × ((ds : Dict DepartmentData) × (build_snapshot 99 [] two_agents
            ≡ some (record { timestamp = 99; departments = ds }, get_connected_agents two_agents))
          × ((dept : Department)
              → member dept all_departments ≡ true
              → lookup dept ds
                ≡ some (record {
                  agents = members_of dept (values two_agents.agents);
                  queues = queues_of dept [];
                }))))
    ⊎ ((all_in (values two_agents.agents) all_departments ≡ false)
        × (build_snapshot 99 [] two_agents ≡ none))
build_snapshot_lem_example = build_snapshot_lem 99 [] two_agents

-- An agent of a department that is not known.
abbrev stranger : AgentRegister
stranger = record ada { agent_id = "eve"; department = "legal" }

register_agent-none_example : build_snapshot 99 [] (register_agent 30 stranger two_agents) ≡ none
register_agent-none_example = build_snapshot-register_agent-none 30 99 stranger [] two_agents refl
