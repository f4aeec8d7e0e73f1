-- ===== src/BrowserHub/Widgets.antt =====
-- The widget types of Backend/internal/types/types.go, and FilterWidget of client.go. The counts are
-- numbers of agents and events; a nil result is `none`.
use monti.Prelude.{
  ◌≡◌, refl, ℕ, suc, ◌+◌, true, false, String, List, [], ◌∷◌, Option, none, some, arith, ◌==◌,
  eq_iff, nat_eq, length, keep, if◌then◌else◌, inl, inr, Bool-cases,
}
use monti.Prelude.Dict.{Dict, lookup, insert, lookup-insert}
use monti.Types.Location.{all_locations}
use monti.Types.Vq.{Department}
use monti.Types.Call.{VqSnapshot}
use monti.Types.Agent.{AgentEvent, AgentInfo}
use monti.Access.{Claims, is_location_allowed}

pub record WidgetSummary : Type 0 where
  pub total_agents : ℕ
  pub total_events : ℕ
  pub state_breakdown : Dict ℕ
  pub department_breakdown : Dict ℕ
  pub location_breakdown : Dict ℕ

pub record Widget : Type 0 where
  pub kind : String
  pub department : Department
  pub timestamp : ℕ
  pub summary : WidgetSummary
  pub events : List AgentEvent
  pub agents : List AgentInfo
  pub queues : List VqSnapshot

-- m[k], which is 0 for a missing key.
abbrev count_at : String → Dict ℕ → ℕ
count_at k m = elim (lookup k m) [ none ↦ 0 | some n ↦ n ]

-- The loop that counts, for one of its two maps.
unfoldable pub breakdown : (AgentInfo → String) → List AgentInfo → Dict ℕ → Dict ℕ
breakdown key [] m = m
breakdown key (a ∷ agents) m = breakdown key agents (insert (key a) (suc (count_at (key a) m)) m)

abbrev pub filtered_widget : List AgentInfo → Widget → Widget
unfolding breakdown
filtered_widget filtered w = record {
  kind = w.kind;
  department = w.department;
  timestamp = w.timestamp;
  summary = record {
    total_agents = length filtered;
    total_events = 0;
    state_breakdown = breakdown (λ a. a.state) filtered [];
    department_breakdown = w.summary.department_breakdown;
    location_breakdown = breakdown (λ a. a.location) filtered [];
  };
  events = [];
  agents = filtered;
  queues = [];
}

-- FilterWidget
unfoldable pub filter_widget : Option Claims → Widget → Option Widget
filter_widget none w = some w
filter_widget (some c) w =
    let filtered = keep (λ a. is_location_allowed c a.location) w.agents in
    if nat_eq (length w.agents) 0
    then some w
    else (if nat_eq (length c.allowed_locations) (length all_locations)
        then some w
        else (if nat_eq (length filtered) 0 then none else some (filtered_widget filtered w)))

count_at-insert :
    (k j : String) (n : ℕ) (m : Dict ℕ)
    → count_at k (insert j n m) ≡ (if j == k then n else count_at k m)
count_at-insert k j n m = ground (arith, lookup-insert j k n m)

-- Each entry grows by the number of agents with its key.
count_at-breakdown :
    (key : AgentInfo → String) (k : String) (agents : List AgentInfo) (m : Dict ℕ)
    → count_at k (breakdown key agents m) ≡ length (keep (λ a. key a == k) agents) + count_at k m
unfolding breakdown
count_at-breakdown key k [] m = omega arith
count_at-breakdown key k (a ∷ agents) m = ground (
  arith,
  eq_iff (key a) k,
  count_at-breakdown key k agents (insert (key a) (suc (count_at (key a) m)) m),
  count_at-insert k (key a) (suc (count_at (key a) m)) m,
)

length_zero : (xs : List AgentInfo) → nat_eq (length xs) 0 ≡ true → xs ≡ []
length_zero [] e = refl
length_zero (x ∷ xs) e = absurd (ground arith)

-- The figures of a widget are those of its own agents.
abbrev pub Tallied : Widget → Type 0
Tallied v =
    (v.summary.total_agents ≡ length v.agents)
    × ((k : String)
        → count_at k v.summary.state_breakdown ≡ length (keep (λ a. a.state == k) v.agents))
    × ((k : String)
        → count_at k v.summary.location_breakdown ≡ length (keep (λ a. a.location == k) v.agents))

filtered_widget-Tallied :
    (filtered : List AgentInfo) (w : Widget) → Tallied (filtered_widget filtered w)
unfolding filtered_widget
filtered_widget-Tallied filtered w = (
  refl,
  λ k. omega (arith, count_at-breakdown (λ a. a.state) k filtered []),
  λ k. omega (arith, count_at-breakdown (λ a. a.location) k filtered []),
)

-- The agents of a widget that may be seen, with their own figures; nothing only where there are none.
abbrev pub IsRestricted : Claims → Widget → Option Widget → Type 0
IsRestricted c w none = keep (λ a. is_location_allowed c a.location) w.agents ≡ []
IsRestricted c w (some v) =
    (v.agents ≡ keep (λ a. is_location_allowed c a.location) w.agents) × Tallied v

-- What a user of some locations gets of a widget that has agents: nothing when it may see none of
-- them; else the visible agents in their order, with figures that count these agents only.
pub filter_widget-IsRestricted :
    (c : Claims) (w : Widget)
    → nat_eq (length w.agents) 0 ≡ false
    → nat_eq (length c.allowed_locations) (length all_locations) ≡ false
    → IsRestricted c w (filter_widget (some c) w)
unfolding filter_widget filtered_widget
filter_widget-IsRestricted c w agents few =
    elim (Bool-cases (nat_eq (length (keep (λ a. is_location_allowed c a.location) w.agents)) 0)) [
      | inl e ↦ rw (agents, few, e) (length_zero _ e)
      | inr e ↦ rw (agents, few, e) (refl, filtered_widget-Tallied _ w)
    ]
