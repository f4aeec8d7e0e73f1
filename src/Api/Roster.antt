-- ===== src/Api/Roster.antt =====
-- Backend/internal/api/roster.go: the list of agents that the simulator sends before they connect. A
-- body that JSON cannot decode is `none`.
use monti.Prelude.{
  ℕ, suc, ◌≡◌, refl, inl, inr, String, Bool, true, false, ◌||◌, List, [], ◌∷◌, Option, none, some,
  arith, length, member, ◌==◌, Bool-cases, String-cases, subst,
}
use monti.Prelude.Dict.{lookup, lookup-insert}
use monti.Types.Vq.{Department}
use monti.Types.Agent.{AgentInfo}
use monti.Tracker.{AgentStateTracker, is_connected, is_live, register_offline_agent}

pub record RosterEntry : Type 0 where
  pub agent_id : String
  pub department : Department
  pub location : String
  pub team : String

-- The loop of HandleRoster; the readings of the clock are those of the round.
unfoldable pub register_all : (ℕ → ℕ) → List RosterEntry → AgentStateTracker → AgentStateTracker
unfolding register_offline_agent
register_all clock [] t = t
register_all clock (e ∷ rest) t =
    register_all (λ i. clock (suc i)) rest
      (register_offline_agent (clock 0) e.agent_id e.department e.location e.team t)

-- HandleRoster: how many were registered, or `none` if the body is refused.
unfoldable pub handle_roster :
    (ℕ → ℕ) → Option (List RosterEntry) → AgentStateTracker → Option ℕ × AgentStateTracker
unfolding register_all
handle_roster clock none t = (none, t)
handle_roster clock (some roster) t = (some (length roster), register_all clock roster t)

abbrev pub roster_ids : List RosterEntry → List String
roster_ids [] = []
roster_ids (e ∷ rest) = e.agent_id ∷ roster_ids rest

-- What a roster, which names an agent or not, does to the agent's entry.
pub data Enrolled : Bool → Option AgentInfo → Option AgentInfo → Type 0 where
  connected_stays :
      (named : Bool) (a : AgentInfo)
      → is_connected a.connection_status ≡ true
      → Enrolled named (some a) (some a)
  unnamed_stays : (o : Option AgentInfo) → Enrolled false o o
  enrols :
      (o : Option AgentInfo) (a : AgentInfo)
      → is_live o ≡ false
      → is_connected a.connection_status ≡ false
      → Enrolled true o (some a)

Enrolled-live : (named : Bool) (o : Option AgentInfo) → is_live o ≡ true → Enrolled named o o
Enrolled-live named none e = absurd (ground arith)
Enrolled-live named (some a) e = connected_stays named a e

Enrolled-then :
    (b c : Bool) (o o' o'' : Option AgentInfo)
    → Enrolled b o o'
    → Enrolled c o' o''
    → Enrolled (b || c) o o''
Enrolled-then b c _ _ _ (connected_stays _ a e) (connected_stays _ _ e') = connected_stays _ a e
Enrolled-then b _ _ _ _ (connected_stays _ a e) (unnamed_stays _) = connected_stays _ a e
Enrolled-then b _ _ _ _ (connected_stays _ a e) (enrols _ a' dead e') = absurd (ground arith)
Enrolled-then _ c o _ _ (unnamed_stays _) g = g
Enrolled-then _ c o _ _ (enrols _ a dead e) (connected_stays _ _ e') = enrols o a dead e
Enrolled-then _ _ o _ _ (enrols _ a dead e) (unnamed_stays _) = enrols o a dead e
Enrolled-then _ _ o _ _ (enrols _ a dead e) (enrols _ a' dead' e') = enrols o a' dead e'

register_offline_agent-Enrolled :
    (now : ℕ) (e : RosterEntry) (k : String) (t : AgentStateTracker)
    → Enrolled
        (e.agent_id == k)
        (lookup k t.agents)
        (lookup k (register_offline_agent now e.agent_id e.department e.location e.team t).agents)
unfolding register_offline_agent
register_offline_agent-Enrolled now e k t =
    elim (Bool-cases (is_live (lookup e.agent_id t.agents))) [
      | inl live ↦
          rw (register_offline_agent, live)
            (elim (String-cases e.agent_id k) [
              | inl (same, _) ↦
                  Enrolled-live _ (lookup k t.agents)
                    (subst (λ j. is_live (lookup j t.agents) ≡ true) same live)
              | inr other ↦ rw other (unnamed_stays (lookup k t.agents))
            ])
      | inr dead ↦
          rw (register_offline_agent, dead, lookup-insert e.agent_id k _ t.agents)
            (elim (String-cases e.agent_id k) [
              | inl (same, b) ↦ rw b (
                  enrols (lookup k t.agents) _
                    (subst (λ j. is_live (lookup j t.agents) ≡ false) same dead) refl)
              | inr other ↦ rw other (unnamed_stays (lookup k t.agents))
            ])
    ]

register_all-Enrolled :
    (clock : ℕ → ℕ) (roster : List RosterEntry) (k : String) (t : AgentStateTracker)
    → Enrolled
        (member k (roster_ids roster))
        (lookup k t.agents)
        (lookup k (register_all clock roster t).agents)
unfolding register_all
register_all-Enrolled clock [] k t = unnamed_stays (lookup k t.agents)
register_all-Enrolled clock (e ∷ rest) k t =
    Enrolled-then (e.agent_id == k) (member k (roster_ids rest)) _ _ _
      (register_offline_agent-Enrolled (clock 0) e k t)
      (register_all-Enrolled (λ i. clock (suc i)) rest k _)

-- A roster is answered with the number of its entries. The entry of an agent that is connected stays
-- as it was, as does that of an agent whom the roster does not name; each other agent that it names
-- is known to the tracker afterwards, and not connected.
pub handle_roster-Enrolled :
    (clock : ℕ → ℕ) (roster : List RosterEntry) (t : AgentStateTracker) (k : String)
    → let r = handle_roster clock (some roster) t in
      (r.0 ≡ some (length roster))
      × Enrolled (member k (roster_ids roster)) (lookup k t.agents) (lookup k r.1.agents)
unfolding handle_roster
handle_roster-Enrolled clock roster t k = (refl, register_all-Enrolled clock roster k t)
