-- ===== src/Tracker/Snapshot/Panic.antt =====
-- A registration that makes the next snapshot panic.
use monti.Prelude.{
  ℕ, ◌≡◌, refl, inl, inr, String, false, List, [], ◌∷◌, none, some, arith, member, Option-cases,
}
use monti.Prelude.Dict.{Dict, values, lookup, lookup-insert_self}
use monti.Types.Vq.{Department}
use monti.Types.Call.{VqSnapshot}
use monti.Types.Agent.{AgentInfo}
use monti.Types.Message.{AgentRegister}
use monti.Tracker.{AgentStateTracker, put, register_agent}
use monti.Tracker.Snapshot.{all_departments, build_snapshot}
use monti.Tracker.Snapshot.Totality.{all_in, build_snapshot_lem}

all_in-values-false :
    (k : String) (a : AgentInfo) (ds : List Department) (m : Dict AgentInfo)
    → lookup k m ≡ some a
    → member a.department ds ≡ false
    → all_in (values m) ds ≡ false
all_in-values-false k a ds [] e h = absurd (ground arith)
all_in-values-false k a ds ((j, b) ∷ m) e h = ground (arith, all_in-values-false k a ds m)

-- The tracker knows the agent, and places it in the department.
abbrev Places : String → Department → AgentStateTracker → Type 0
Places k dept t = (a : AgentInfo) × (lookup k t.agents ≡ some a) × (a.department ≡ dept)

put-Places :
    (k : String) (a : AgentInfo) (t : AgentStateTracker) → Places k a.department (put k a t)
put-Places k a t = (a, lookup-insert_self k a t.agents, refl)

register_agent-Places :
    (now : ℕ) (reg : AgentRegister) (t : AgentStateTracker)
    → Places reg.agent_id reg.department (register_agent now reg t)
unfolding register_agent
register_agent-Places now reg t = elim (Option-cases (lookup reg.agent_id t.agents)) [
  | inl e ↦ rw (e, register_agent) (put-Places reg.agent_id _ t)
  | inr (a, e) ↦ rw (e, register_agent) (put-Places reg.agent_id _ t)
]

-- Once an agent has registered with a department outside the four, the next BuildSnapshot panics,
-- whatever else the tracker holds.
pub build_snapshot-register_agent-none :
    (now later : ℕ) (reg : AgentRegister) (vq_snapshots : Dict (List VqSnapshot))
    (t : AgentStateTracker)
    → member reg.department all_departments ≡ false
    → build_snapshot later vq_snapshots (register_agent now reg t) ≡ none
build_snapshot-register_agent-none now later reg vq_snapshots t h =
    let (a, e, d) = register_agent-Places now reg t in
    let u = register_agent now reg t in
    let outside = all_in-values-false reg.agent_id a all_departments u.agents e (rw d h) in
    elim (build_snapshot_lem later vq_snapshots u) [ inl (all_known, _) ↦ cc | inr (_, r) ↦ r ]
