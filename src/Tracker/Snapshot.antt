-- ===== src/Tracker/Snapshot.antt =====
-- BuildSnapshot. A result `none` is a run-time panic: the write through the nil pointer that
-- `departments[a.Department]` gives for a department outside the fixed list.
pub mod Totality
pub mod Panic
use monti.Prelude.{ℕ, List, [], ◌∷◌, ◌++◌, Option, none, some, keep, ◌>>=◌}
use monti.Prelude.Dict.{Dict, lookup, insert, values}
use monti.Types.Vq.{Department, dept_sales, dept_support, dept_technical, dept_retention}
use monti.Types.Call.{VqSnapshot}
use monti.Types.Agent.{AgentInfo, DepartmentData, Snapshot}
use monti.Tracker.{AgentStateTracker, is_connected}

-- allDepartments
abbrev pub all_departments : List Department
all_departments = dept_sales ∷ dept_support ∷ dept_technical ∷ dept_retention ∷ []

-- vqSnapshots[dept], and the empty list for nil.
abbrev pub queues_of : Department → Dict (List VqSnapshot) → List VqSnapshot
queues_of dept vq_snapshots = elim (lookup dept vq_snapshots) [ none ↦ [] | some qs ↦ qs ]

-- The loop over allDepartments.
unfoldable pub init_departments :
    Dict (List VqSnapshot) → List Department → Dict DepartmentData → Dict DepartmentData
init_departments vq_snapshots [] ds = ds
init_departments vq_snapshots (dept ∷ rest) ds =
    init_departments vq_snapshots rest
      (insert dept (record { agents = []; queues = queues_of dept vq_snapshots }) ds)

-- The loop over the agents, as far as it fills the departments.
unfoldable pub add_agents : List AgentInfo → Dict DepartmentData → Option (Dict DepartmentData)
add_agents [] ds = some ds
add_agents (a ∷ rest) ds = elim (lookup a.department ds) [
  | none ↦ none
  | some d ↦ add_agents rest (insert a.department (record d { agents = d.agents ++ a ∷ [] }) ds)
]

-- BuildSnapshot: the snapshot, and copies of the connected agents.
unfoldable pub build_snapshot :
    ℕ → Dict (List VqSnapshot) → AgentStateTracker → Option (Snapshot × List AgentInfo)
unfolding init_departments add_agents
build_snapshot now vq_snapshots t = do
  departments ← add_agents (values t.agents) (init_departments vq_snapshots all_departments [])
  some (
    record { timestamp = now; departments = departments },
    keep (λ a. is_connected a.connection_status) (values t.agents),
  )
