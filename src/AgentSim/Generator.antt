-- ===== src/AgentSim/Generator.antt =====
-- AgentSim/internal/agent/generator.go: the agents of the simulation. The texts that fmt.Sprintf
-- makes of numbers are arguments, as are the random numbers. `none` is an index out of range.
pub mod Agents
use Prim.Native.String.{◌++◌}
use monti.Prelude.{
  ℕ, zero, suc, ◌+◌, ◌*◌, ◌/◌, ◌%◌, String, Bool, true, false, List, [], ◌∷◌, Option, none, some,
  ◌==◌, ltb, ◌>>=◌, length, get_elem?, if◌then◌else◌,
}
use monti.AgentSim.Kpis.{Kpis}
use monti.AgentSim.Connection.{SimAgent}

abbrev pub gen_departments : List String
gen_departments = "sales" ∷ "support" ∷ "technical" ∷ "retention" ∷ []

abbrev pub gen_locations : List String
gen_locations = "berlin" ∷ "munich" ∷ "hamburg" ∷ "frankfurt" ∷ "remote" ∷ []

abbrev pub loc_weights : List ℕ
loc_weights = 25 ∷ 20 ∷ 15 ∷ 15 ∷ 25 ∷ []

abbrev sum_of : List ℕ → ℕ
sum_of [] = 0
sum_of (w ∷ ws) = w + sum_of ws

-- The loop of weightedChoice over the weights, with the items from the same index on.
unfoldable pub choose_from : ℕ → ℕ → String → List String → List ℕ → Option String
choose_from choice cumulative first items [] = some first
choose_from choice cumulative first [] (w ∷ weights) = none
choose_from choice cumulative first (item ∷ items) (w ∷ weights) =
    let later = choose_from choice (cumulative + w) first items weights in
    if ltb choice (cumulative + w) then some item else later

-- weightedChoice; `intn` is rng.Intn, and an empty list of items has no first.
unfoldable pub weighted_choice : (ℕ → ℕ) → List String → List ℕ → Option String
unfolding choose_from
weighted_choice intn items weights =
    get_elem? items 0 >>= λ first. choose_from (intn (sum_of weights)) 0 first items weights

-- generateTeamName; `decimal` is what %d makes of a number.
unfoldable pub generate_team_name : (ℕ → String) → String → ℕ → String
generate_team_name decimal dept index =
    let team_num = decimal (index % 10 + 1) in
    if dept == "sales"
    then "Sales-Team-" ++ team_num
    else (if dept == "support"
        then "Support-Team-" ++ team_num
        else (if dept == "technical"
            then "Tech-Team-" ++ team_num
            else (if dept == "retention"
                then "Retention-Team-" ++ team_num
                else "Team-" ++ team_num)))

-- What the agents are made with: the texts of %d and %05d, rng.Intn at each round, the clock at each
-- round, and the zero figures.
pub record Making (F : Type 0) : Type 0 where
  pub decimal : ℕ → String
  pub five_digits : ℕ → String
  pub intn : ℕ → ℕ → ℕ
  pub state_start : ℕ → ℕ
  pub last_update : ℕ → ℕ
  pub no_figures : Kpis F

abbrev pub agent_id_of : {F : Type 0} → Making F → ℕ → String
agent_id_of m i = "AGT-" ++ m.five_digits (i + 1)

unfoldable pub made_agent : {F : Type 0} → Making F → ℕ → String → String → SimAgent F
unfolding generate_team_name
made_agent m i dept loc = record {
  id = agent_id_of m i;
  department = dept;
  location = loc;
  team = generate_team_name m.decimal dept i;
  state = "offline";
  state_start = m.state_start i;
  last_update = m.last_update i;
  login_time = 0;
  kpis = m.no_figures;
}

-- One round of the loop; the login time is the zero time.
unfoldable pub generate_agent : {F : Type 0} → Making F → ℕ → Option (SimAgent F)
unfolding weighted_choice made_agent
generate_agent m i = get_elem? gen_departments (i / 500) >>= λ dept.
    weighted_choice (m.intn i) gen_locations loc_weights >>= λ loc. some (made_agent m i dept loc)

-- The loop from round `i` on, with as many rounds left.
unfoldable pub generate_from : {F : Type 0} → Making F → ℕ → ℕ → Option (List (SimAgent F))
unfolding generate_agent
generate_from m i zero = some []
generate_from m i (suc left) =
    let rest = generate_from m (suc i) left in
    generate_agent m i >>= λ a. rest >>= λ agents. some (a ∷ agents)

-- GenerateAgents; the count is ignored.
unfoldable pub generate_agents : {F : Type 0} → Making F → ℕ → Option (List (SimAgent F))
unfolding generate_from
generate_agents m count = generate_from m 0 (500 * length gen_departments)
