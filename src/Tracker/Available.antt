-- ===== src/Tracker/Available.antt =====
-- Who may be given a call.
use monti.Prelude.{
  ◌≡◌, refl, String, Bool, false, List, [], ◌∷◌, Option, none, some, arith, keep, member, Distinct,
  eq_iff,
}
use monti.Prelude.Dict.{Dict, keys, values, lookup, Entries}
use monti.Types.Vq.{Department}
use monti.Types.Agent.{AgentInfo}
use monti.Tracker.{AgentStateTracker, is_available_in, get_available_by_department}
use monti.Tracker.Invariant.{IsPlain, IsValid}

abbrev pub agent_ids : List AgentInfo → List String
agent_ids [] = []
agent_ids (a ∷ rest) = a.agent_id ∷ agent_ids rest

member-agent_ids-keep :
    (p : AgentInfo → Bool) (s : String) (m : Dict AgentInfo)
    → Entries IsPlain m
    → member s (keys m) ≡ false
    → member s (agent_ids (keep p (values m))) ≡ false
member-agent_ids-keep p s [] e h = refl
member-agent_ids-keep p s ((k, a) ∷ m) e h = ground (arith, member-agent_ids-keep p s m e.1)

Distinct-agent_ids-keep :
    (p : AgentInfo → Bool) (m : Dict AgentInfo)
    → Entries IsPlain m
    → Distinct (keys m)
    → Distinct (agent_ids (keep p (values m)))
Distinct-agent_ids-keep p [] e d = tt
Distinct-agent_ids-keep p ((k, a) ∷ m) e d =
    ground (arith, member-agent_ids-keep p k m e.1 d.0, Distinct-agent_ids-keep p m e.1 d.1)

-- Nobody is listed twice as available.
pub available-Distinct :
    (dept : Department) (t : AgentStateTracker)
    → IsValid t
    → Distinct (agent_ids (get_available_by_department dept t))
unfolding get_available_by_department
available-Distinct dept t v =
    Distinct-agent_ids-keep (is_available_in dept) t.agents v.plain v.distinct

-- Whether the map has an agent of this ID that passes the test.
abbrev pub passes : (AgentInfo → Bool) → Option AgentInfo → Bool
passes p none = false
passes p (some a) = p a

member-available :
    (p : AgentInfo → Bool) (s : String) (m : Dict AgentInfo)
    → Entries IsPlain m
    → Distinct (keys m)
    → member s (agent_ids (keep p (values m))) ≡ passes p (lookup s m)
member-available p s [] e d = refl
member-available p s ((k, a) ∷ m) e d =
    ground (arith, eq_iff k s, member-available p s m e.1 d.1, member-agent_ids-keep p k m e.1 d.0)

-- An ID is listed as available in a department exactly if the tracker holds an agent of that ID that
-- is in the department, in state "available" and connected.
pub available_lem :
    (dept : Department) (s : String) (t : AgentStateTracker)
    → IsValid t
    → member s (agent_ids (get_available_by_department dept t))
      ≡ passes (is_available_in dept) (lookup s t.agents)
unfolding get_available_by_department
available_lem dept s t v = member-available (is_available_in dept) s t.agents v.plain v.distinct
