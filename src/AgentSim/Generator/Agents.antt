-- ===== src/AgentSim/Generator/Agents.antt =====
-- The agents that are generated.
use text.Mathlib.TextLemmas.{append_cancel_left}
use monti.Prelude.{
  ℕ, zero, suc, ◌+◌, ◌/◌, ◌≤◌, ◌<◌, ◌≡◌, refl, String, Bool, true, false, List, [], ◌∷◌, Option,
  some, arith, ◌==◌, ltb, length, member, All, Distinct, get_elem?-member, eq_iff, Bool-cases, inl,
  inr, if◌then◌else◌,
}
use monti.Types.Location.{all_locations}
use monti.Tracker.Snapshot.{all_departments}
use monti.AgentSim.Connection.{SimAgent}
use monti.AgentSim.Simulator.{ids_of}
use monti.AgentSim.Generator.{
  gen_departments, gen_locations, loc_weights, choose_from, weighted_choice, Making, agent_id_of,
  made_agent, generate_agent, generate_from, generate_agents,
}

abbrev Located : Option String → Type 0
Located o = (loc : String) × (o ≡ some loc) × (member loc all_locations ≡ true)

either-Located :
    (b : Bool) (loc : String) (o : Option String)
    → member loc all_locations ≡ true
    → Located o
    → Located (if b then some loc else o)
either-Located true loc o h k = (loc, refl, h)
either-Located false loc o h k = k

-- A choice among the locations is one of them.
weighted_choice-Located : (intn : ℕ → ℕ) → Located (weighted_choice intn gen_locations loc_weights)
unfolding weighted_choice choose_from
weighted_choice-Located intn =
    let r = intn 100 in
    either-Located (ltb r 25) "berlin" _ refl (
      either-Located (ltb r 45) "munich" _ refl (
        either-Located (ltb r 60) "hamburg" _ refl (
          either-Located (ltb r 75) "frankfurt" _ refl
            (either-Located (ltb r 100) "remote" (some "berlin") refl ("berlin", refl, refl)))))

-- An agent with a department that the backend makes snapshots of, and a location that it knows.
abbrev pub IsPlaced : {F : Type 0} → SimAgent F → Type 0
IsPlaced a = (member a.department all_departments ≡ true) × (member a.location all_locations ≡ true)

module _ {F : Type 0} (m : Making F) where
  generate_agent-IsPlaced :
      (i : ℕ)
      → i < 2000
      → (a : SimAgent F) × (generate_agent m i ≡ some a) × IsPlaced a × (a.id ≡ agent_id_of m i)
  unfolding generate_agent made_agent
  generate_agent-IsPlaced i h =
      let (dept, e, d) = get_elem?-member gen_departments (i / 500) (omega arith) in
      let (loc, f, l) = weighted_choice-Located (m.intn i) in
      (made_agent m i dept loc, rw (e, f) refl, (d, l), refl)

  -- The text of a number tells it from the others.
  abbrev pub IsPrinting : Type 0
  IsPrinting = (i j : ℕ) → (m.five_digits i == m.five_digits j) ≡ true → i ≡ j

  agent_id_of-other : (i j : ℕ) → IsPrinting → i < j → (agent_id_of m j == agent_id_of m i) ≡ false
  agent_id_of-other i j p h = elim (Bool-cases (agent_id_of m j == agent_id_of m i)) [
    | inl e ↦
        let same =
          append_cancel_left "AGT-" (m.five_digits (j + 1)) (m.five_digits (i + 1))
            ((eq_iff (agent_id_of m j) (agent_id_of m i)).0 e) in
        let printed = (eq_iff (m.five_digits (j + 1)) (m.five_digits (i + 1))).1 same in
        absurd (omega (arith, p (j + 1) (i + 1) printed))
    | inr e ↦ e
  ]

  -- The agents of some rounds.
  record Made (i left : ℕ) : Type 0 where
    agents : List (SimAgent F)
    returns : generate_from m i left ≡ some agents
    size : length agents ≡ left
    placed : All IsPlaced agents
    fresh : (j : ℕ) → j < i → member (agent_id_of m j) (ids_of agents) ≡ false
    once : Distinct (ids_of agents)

  generate_from-Made : (i left : ℕ) → IsPrinting → i + left ≤ 2000 → Made i left
  unfolding generate_from
  generate_from-Made i zero p h = record {
    agents = [];
    returns = refl;
    size = refl;
    placed = tt;
    fresh = λ j l. refl;
    once = tt;
  }
  generate_from-Made i (suc left) p h =
      let (a, e, q, named) = generate_agent-IsPlaced i (omega arith) in
      let later = generate_from-Made (suc i) left p (omega arith) in
      record {
        agents = a ∷ later.agents;
        returns = rw (e, later.returns) refl;
        size = omega (arith, later.size);
        placed = (q, later.placed);
        fresh = λ j l. rw (named, agent_id_of-other j i p l) (later.fresh j (omega (arith, l)));
        once = (rw named (later.fresh i (omega arith)), later.once);
      }

  -- If %05d prints different numbers differently, the generator returns 2000 agents whatever count
  -- it is asked for. Their IDs are distinct, and each has one of the departments that the backend's
  -- snapshots have and one of the locations that the backend knows.
  pub generate_agents-IsPlaced :
      (count : ℕ)
      → IsPrinting
      → (agents : List (SimAgent F)) × (generate_agents m count ≡ some agents)
        × (length agents ≡ 2000)
        × Distinct (ids_of agents)
        × All IsPlaced agents
  unfolding generate_agents
  generate_agents-IsPlaced count p =
      let made = generate_from-Made 0 2000 p (omega arith) in
      (made.agents, made.returns, made.size, made.once, made.placed)
