-- ===== src/Tests/Simulation.antt =====
-- The theorems on the simulator, applied to three agents. Whole numbers stand for float64.
use Prim.Native.String.{len, ◌++◌}
use text.Mathlib.TextPositions.{len-append}
use monti.Prelude.{
  zero, suc, sym, ap, ◌∙◌, arith, eq_iff, Distinct, ℕ, ◌+◌, ◌-◌, ◌*◌, ◌/◌, ◌≡◌, refl, String, List,
  [], ◌∷◌, some, ltb, length, All, true,
}
use monti.Prelude.Int.{pos}
use monti.AgentSim.Kpis.{Floats, Kpis}
use monti.AgentSim.Connection.{SimAgent, new_multiplexed_connection, find_agent}
use monti.AgentSim.Simulator.{Simulator, new_simulator, start, scale, ids_of}
use monti.AgentSim.Simulator.Members.{IsShuffle}
use monti.AgentSim.Simulator.Scaling.{IsReady, IsTarget, is_carried, scale-IsReady}
use monti.AgentSim.Simulator.Left.{scale-left}
use monti.AgentSim.Life.{Clock, update_agent_state}
use monti.AgentSim.Life.Silent.{update_agent_state-silent}
use monti.AgentSim.Generator.{Making, generate_agents}
use monti.AgentSim.Generator.Agents.{IsPrinting, IsPlaced, generate_agents-IsPlaced}
use monti.AgentSim.Reach.{Reach, begins, goes_on, starts, Reach-IsReady}

abbrev whole : Floats ℕ
whole = record {
  ratio = λ a b. a / b;
  plus = λ a b. a + b;
  minus = λ a b. a - b;
  times = λ a b. a * b;
  over = λ a b. a / b;
  less = λ a b. ltb a b;
}

abbrev no_figures : Kpis ℕ
no_figures = record {
  total_calls = 0;
  avg_call_duration = 0;
  acw_time = 0;
  acw_count = 0;
  hold_count = 0;
  hold_time = 0;
  transfer_count = 0;
  conference_count = 0;
  break_time = 0;
  login_time = 0;
  occupancy = 0;
  adherence = 0;
  avg_handle_time = 0;
  first_call_resolution = 0;
  customer_satisfaction = 0;
}

abbrev agent_of : String → SimAgent ℕ
agent_of id = record {
  id = id;
  department = "sales";
  location = "berlin";
  team = "blue";
  state = "offline";
  state_start = 0;
  last_update = 0;
  login_time = 0;
  kpis = no_figures;
}

abbrev three : List (SimAgent ℕ)
three = agent_of "a" ∷ agent_of "b" ∷ agent_of "c" ∷ []

abbrev unshuffled : List String → List String
unshuffled xs = xs

unshuffled-IsShuffle : IsShuffle unshuffled
unshuffled-IsShuffle = record { size = λ xs. refl; once = λ xs d. d; same = λ k xs. refl }

abbrev draw : String → ℕ → ℕ
draw id n = 0

-- Two agents are active after the start.
abbrev started : Simulator ℕ
started = start whole 100 draw unshuffled 2 (new_simulator three)

started-Reach : Reach whole three started
started-Reach =
    goes_on begins (starts 100 draw unshuffled 2 (new_simulator three) unshuffled-IsShuffle)

Reach-IsReady_example : IsReady started
Reach-IsReady_example = Reach-IsReady whole three started (refl, (refl, (refl, tt))) started-Reach

abbrev upscaled : Simulator ℕ
upscaled = scale whole 200 draw unshuffled (pos 5) started

started-IsReady : IsReady started
started-IsReady = Reach-IsReady whole three started (refl, (refl, (refl, tt))) started-Reach

scale-IsReady_example :
    IsReady upscaled × IsTarget (pos 5) (length started.agents) (length upscaled.active_agents)
scale-IsReady_example =
    scale-IsReady whole 200 draw unshuffled (pos 5) started unshuffled-IsShuffle started-IsReady

scale-left_example :
    let s' = scale whole 200 draw unshuffled (pos 0) started in
    (s'.active_agents ≡ [])
    × All (λ id. is_carried id s'.mux_conns ≡ true) started.active_agents
    × (s'.mux_conns ≡ started.mux_conns)
scale-left_example =
    scale-left whole 200 draw unshuffled started unshuffled-IsShuffle started-IsReady

-- The agent c is on the second of two connections.
abbrev two_connections : Simulator ℕ
two_connections = record started {
  mux_conns =
      new_multiplexed_connection ("a" ∷ "b" ∷ []) ∷ new_multiplexed_connection ("c" ∷ []) ∷ [];
}

abbrev at_300 : Clock
at_300 = record { since = 300; kpis_now = 300; state_start = 300; last_update = 300; sent = 300 }

c_found : find_agent "c" two_connections.agents ≡ some (agent_of "c")
unfolding start new_simulator
c_found = refl

update_agent_state-silent_example :
    let s' = update_agent_state whole (draw "c") at_300 "c" "on_call" two_connections in
    ((a' : SimAgent ℕ) × (find_agent "c" s'.agents ≡ some a')
      × (a'.id ≡ "c")
      × (a'.state ≡ "on_call")
      × (a'.state_start ≡ 300)
      × (a'.login_time ≡ 0))
    × (s'.mux_conns ≡ two_connections.mux_conns)
update_agent_state-silent_example =
    update_agent_state-silent whole (draw "c") at_300 "c" "on_call" two_connections (agent_of "c")
      c_found (unfold new_multiplexed_connection in refl)

-- A number as so many strokes.
abbrev strokes : ℕ → String
strokes zero = ""
strokes (suc n) = "i" ++ strokes n

len-strokes : (n : ℕ) → len (strokes n) ≡ n
len-strokes zero = refl
len-strokes (suc n) = omega (arith, len-append "i" (strokes n), len-strokes n)

abbrev making : Making ℕ
making = record {
  decimal = strokes;
  five_digits = strokes;
  intn = λ i n. 40;
  state_start = λ i. i;
  last_update = λ i. i;
  no_figures = no_figures;
}

making-IsPrinting : IsPrinting making
making-IsPrinting i j e =
    sym (len-strokes i) ∙ ap len ((eq_iff (strokes i) (strokes j)).0 e) ∙ len-strokes j

generate_agents-IsPlaced_example :
    (agents : List (SimAgent ℕ)) × (generate_agents making 7 ≡ some agents)
    × (length agents ≡ 2000)
    × Distinct (ids_of agents)
    × All IsPlaced agents
generate_agents-IsPlaced_example = generate_agents-IsPlaced making 7 making-IsPrinting
