-- ===== src/Tracker/Snapshot/Totality.antt =====
-- When BuildSnapshot returns, and what it returns.
use monti.Prelude.{
  ℕ, ◌≡◌, refl, ◌⊎◌, inl, inr, String, Bool, true, false, ◌&&◌, List, [], ◌∷◌, ◌++◌, Option, none,
  some, arith, keep, member, ◌==◌, eq_iff, append-nil, append_assoc, Option-cases, Bool-cases, ap,
  ◌∙◌, if◌then◌else◌,
}
use monti.Prelude.Dict.{
  Dict, keys, values, lookup, insert, lookup-insert, member-keys-insert, lookup-none-member,
  lookup_absent,
}
use monti.Types.Vq.{Department}
use monti.Types.Call.{VqSnapshot}
use monti.Types.Agent.{AgentInfo, DepartmentData}
use monti.Tracker.{AgentStateTracker, get_connected_agents}
use monti.Tracker.Snapshot.{
  all_departments, queues_of, init_departments, add_agents, build_snapshot,
}

-- Whether every agent's department is among the given ones.
abbrev pub all_in : List AgentInfo → List Department → Bool
all_in [] ds = true
all_in (a ∷ rest) ds = member a.department ds && all_in rest ds

-- The agents of one department, in order.
abbrev pub members_of : Department → List AgentInfo → List AgentInfo
members_of dept = keep λ a. a.department == dept

abbrev with_agents : List AgentInfo → Option DepartmentData → Option DepartmentData
with_agents xs none = none
with_agents xs (some d) = some (record d { agents = d.agents ++ xs })

member-keys-rewrite :
    (s k : String) (d v : DepartmentData) (ds : Dict DepartmentData)
    → lookup k ds ≡ some d
    → member s (keys (insert k v ds)) ≡ member s (keys ds)
member-keys-rewrite s k d v ds e =
    ground (arith, member-keys-insert s k v ds, eq_iff k s, lookup_absent k ds)

all_in-rewrite :
    (k : String) (d v : DepartmentData) (ds : Dict DepartmentData) (xs : List AgentInfo)
    → lookup k ds ≡ some d
    → all_in xs (keys (insert k v ds)) ≡ all_in xs (keys ds)
all_in-rewrite k d v ds [] e = refl
all_in-rewrite k d v ds (x ∷ xs) e =
    rw (member-keys-rewrite x.department k d v ds e, all_in-rewrite k d v ds xs e)

-- One agent's department is written.
abbrev written : AgentInfo → DepartmentData → Dict DepartmentData → Dict DepartmentData
written a d ds = insert a.department (record d { agents = d.agents ++ a ∷ [] }) ds

with_agents-written :
    (dept : Department) (a : AgentInfo) (d : DepartmentData) (ds : Dict DepartmentData)
    (xs : List AgentInfo)
    → lookup a.department ds ≡ some d
    → with_agents (members_of dept xs) (lookup dept (written a d ds))
      ≡ with_agents (members_of dept (a ∷ xs)) (lookup dept ds)
with_agents-written dept a d ds xs e = ground (
  arith,
  lookup-insert a.department dept (record d { agents = d.agents ++ a ∷ [] }) ds,
  append_assoc d.agents (a ∷ []) (members_of dept xs),
  eq_iff a.department dept,
)

with_agents-nil : (o : Option DepartmentData) → o ≡ with_agents [] o
with_agents-nil none = refl
with_agents-nil (some d) = ground (arith, append-nil d.agents)

add_agents_known :
    (xs : List AgentInfo) (ds : Dict DepartmentData)
    → all_in xs (keys ds) ≡ true
    → (ds' : Dict DepartmentData) × (add_agents xs ds ≡ some ds')
      × ((dept : Department) → lookup dept ds' ≡ with_agents (members_of dept xs) (lookup dept ds))
unfolding add_agents
add_agents_known [] ds h = (ds, refl, λ dept. with_agents-nil (lookup dept ds))
add_agents_known (a ∷ xs) ds h = elim (Option-cases (lookup a.department ds)) [
  | inl e ↦ absurd (ground (arith, lookup-none-member a.department ds e))
  | inr (d, e) ↦
      let (ds', r, fills) =
        add_agents_known xs (written a d ds)
          (rw (all_in-rewrite a.department d _ ds xs e) (ground arith)) in
      (ds', rw (e, add_agents) r, λ dept. fills dept ∙ with_agents-written dept a d ds xs e)
]

add_agents_unknown :
    (xs : List AgentInfo) (ds : Dict DepartmentData)
    → all_in xs (keys ds) ≡ false
    → add_agents xs ds ≡ none
unfolding add_agents
add_agents_unknown [] ds h = absurd (ground arith)
add_agents_unknown (a ∷ xs) ds h = elim (Option-cases (lookup a.department ds)) [
  | inl e ↦ rw (e, add_agents)
  | inr (d, e) ↦
      rw (e, add_agents)
        (add_agents_unknown xs (written a d ds) (
          rw (all_in-rewrite a.department d _ ds xs e)
            (ground (arith, lookup_absent a.department ds))))
]

-- A department that has no agent yet.
abbrev fresh : Dict (List VqSnapshot) → Department → DepartmentData
fresh vq_snapshots dept = record { agents = []; queues = queues_of dept vq_snapshots }

lookup-init_departments :
    (vq_snapshots : Dict (List VqSnapshot)) (dept : Department) (depts : List Department)
    (ds : Dict DepartmentData)
    → lookup dept (init_departments vq_snapshots depts ds)
      ≡ (if member dept depts then some (fresh vq_snapshots dept) else lookup dept ds)
unfolding init_departments
lookup-init_departments vq_snapshots dept [] ds = refl
lookup-init_departments vq_snapshots dept (d ∷ depts) ds = ground (
  arith,
  lookup-init_departments vq_snapshots dept depts (insert d (fresh vq_snapshots d) ds),
  lookup-insert d dept (fresh vq_snapshots d) ds,
  eq_iff d dept,
)

lookup-init_departments_known :
    (vq_snapshots : Dict (List VqSnapshot)) (dept : Department)
    → member dept all_departments ≡ true
    → lookup dept (init_departments vq_snapshots all_departments [])
      ≡ some (fresh vq_snapshots dept)
lookup-init_departments_known vq_snapshots dept k =
    rw (lookup-init_departments vq_snapshots dept all_departments []) (rw k)

keys-init_departments :
    (vq_snapshots : Dict (List VqSnapshot))
    → keys (init_departments vq_snapshots all_departments []) ≡ all_departments
unfolding init_departments
keys-init_departments vq_snapshots = refl

-- BuildSnapshot on every branch. If every agent's department is one of the four, it returns; the
-- snapshot has, under each of the four, its queues and exactly its agents, in the map's order, and
-- the second result is the connected agents. If any agent has another department, it panics.
pub build_snapshot_lem :
    (now : ℕ) (vq_snapshots : Dict (List VqSnapshot)) (t : AgentStateTracker)
    → ((all_in (values t.agents) all_departments ≡ true)
        × ((ds : Dict DepartmentData) × (build_snapshot now vq_snapshots t
              ≡ some (record { timestamp = now; departments = ds }, get_connected_agents t))
            × ((dept : Department)
                → member dept all_departments ≡ true
                → lookup dept ds
                  ≡ some (record {
                    agents = members_of dept (values t.agents);
                    queues = queues_of dept vq_snapshots;
                  }))))
      ⊎ ((all_in (values t.agents) all_departments ≡ false)
          × (build_snapshot now vq_snapshots t ≡ none))
unfolding build_snapshot get_connected_agents
build_snapshot_lem now vq_snapshots t =
    elim (Bool-cases (all_in (values t.agents) all_departments)) [
      | inl h ↦
          let (ds, r, fills) =
            add_agents_known (values t.agents) (init_departments vq_snapshots all_departments [])
              (rw (keys-init_departments vq_snapshots) h) in
          inl (
            h,
            (
              ds,
              rw r,
              λ dept k.
                  fills dept
                  ∙ ap (with_agents (members_of dept (values t.agents)))
                      (lookup-init_departments_known vq_snapshots dept k),
            ),
          )
      | inr h ↦ inr (
        h,
        rw (
            add_agents_unknown (values t.agents) (init_departments vq_snapshots all_departments [])
              (rw (keys-init_departments vq_snapshots) h)),
      )
    ]
