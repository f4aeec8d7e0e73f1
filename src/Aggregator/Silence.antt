-- ===== src/Aggregator/Silence.antt =====
-- The alerts do not reach the browsers.
use monti.Prelude.{
  ℕ, ◌≡◌, true, ◌==◌, List, [], ◌∷◌, Option, none, some, member, All, inl, inr, Option-cases,
  Bool-cases, ap, sym, ◌∙◌, arith, subst, ◌>>=◌,
}
use monti.Prelude.Dict.{Dict, lookup, values, Entries}
use monti.Types.Vq.{VqName, Department}
use monti.Types.Call.{VqSnapshot}
use monti.Types.Agent.{AgentInfo, DepartmentData, Snapshot}
use monti.Tracker.{AgentStateTracker, new_agent_state_tracker}
use monti.Tracker.History.{TrackerOp, run}
use monti.Tracker.Invariant.{IsPlain, IsValid, run-new_agent_state_tracker-IsValid}
use monti.Tracker.Snapshot.{all_departments, build_snapshot}
use monti.Tracker.Snapshot.Totality.{members_of, build_snapshot_lem}
use monti.Alerts.{Durations}
use monti.Aggregator.{Aggregator, Cycle, vq_snapshots, cycle}

abbrev HasNoAlert : AgentInfo → Type 0
HasNoAlert a = a.alerts ≡ []

members_of-HasNoAlert :
    (dept : Department) (m : Dict AgentInfo)
    → Entries IsPlain m
    → All HasNoAlert (members_of dept (values m))
members_of-HasNoAlert dept [] p = tt
members_of-HasNoAlert dept ((k, a) ∷ m) p = elim (Bool-cases (a.department == dept)) [
  | inl e ↦ rw e (p.0.1, members_of-HasNoAlert dept m p.1)
  | inr e ↦ rw e (members_of-HasNoAlert dept m p.1)
]

-- A snapshot in whose known departments no agent has an alert.
abbrev pub IsSilent : Option Snapshot → Type 0
IsSilent none = Unit
IsSilent (some s) =
    (dept : Department)
    → member dept all_departments ≡ true
    → (d : DepartmentData) × (lookup dept s.departments ≡ some d)
      × All (λ a. a.alerts ≡ []) d.agents

abbrev pub broadcast_of : Option Cycle → Option Snapshot
broadcast_of none = none
broadcast_of (some c) = some c.broadcast

build_snapshot-IsSilent :
    (now : ℕ) (vqs : Dict (List VqSnapshot)) (t : AgentStateTracker)
    → IsValid t
    → (s : Snapshot) (xs : List AgentInfo) → build_snapshot now vqs t ≡ some (s, xs)
    → IsSilent (some s)
build_snapshot-IsSilent now vqs t v s xs e dept known = elim (build_snapshot_lem now vqs t) [
  | inl (_, (ds, e', found)) ↦
      let same : some (record { timestamp = now; departments = ds }) ≡ some s =
        ap (λ o. o >>= λ (x, _). some x) (sym e' ∙ e) in
      subst IsSilent same
        (λ dept' known'. (_, found dept' known', members_of-HasNoAlert dept' t.agents v.plain)) dept
        known
  | inr (_, e') ↦ absurd (ground (arith, e, e'))
]

cycle_broadcast :
    (durations : Durations) (snapshot_now alert_now : ℕ) (clock : VqName → ℕ) (a : Aggregator)
    → IsValid a.state_tracker
    → IsSilent (broadcast_of (cycle durations snapshot_now alert_now clock a))
unfolding cycle
cycle_broadcast durations snapshot_now alert_now clock a v =
    elim (Option-cases (vq_snapshots clock a.state_tracker a.call_queue)) [
      | inl e ↦ rw (cycle, e) tt
      | inr (vqs, e) ↦ elim (Option-cases (build_snapshot snapshot_now vqs a.state_tracker)) [
        | inl e' ↦ rw (cycle, e, e') tt
        | inr ((s, xs), e') ↦
            rw (cycle, e, e') (build_snapshot-IsSilent snapshot_now vqs a.state_tracker v s xs e')
      ]
    ]

-- Whatever happened at the tracker before, in the snapshot that a cycle broadcasts no agent of any
-- department has an alert, although the cycle checks the alert rules.
pub cycle-IsSilent :
    (durations : Durations) (snapshot_now alert_now : ℕ) (clock : VqName → ℕ) (ops : List TrackerOp)
    (a : Aggregator) (c : Cycle)
    → a.state_tracker ≡ run ops new_agent_state_tracker
    → cycle durations snapshot_now alert_now clock a ≡ some c
    → IsSilent (some c.broadcast)
cycle-IsSilent durations snapshot_now alert_now clock ops a c same e =
    subst IsSilent (ap broadcast_of e) (
      cycle_broadcast durations snapshot_now alert_now clock a
        (subst IsValid (sym same) (run-new_agent_state_tracker-IsValid ops)))
