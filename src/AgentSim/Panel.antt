-- ===== src/AgentSim/Panel.antt =====
-- AgentSim/internal/control/api.go: the handlers that start, stop and scale the simulation, and their
-- record of it. What SetHandlers is given is an argument: a function of the simulation's state that
-- gives no state where it returns an error. A body that does not decode is `none`.
pub mod Commands
use monti.Prelude.{ℕ, Bool, true, false, Option, none, some, ltb, ◌||◌, if◌then◌else◌}
use monti.Prelude.Int.{ℤ, pos, negsuc}

-- The order on int.
abbrev pub less_than : ℤ → ℤ → Bool
less_than (negsuc a) (negsuc b) = ltb b a
less_than (negsuc a) (pos b) = true
less_than (pos a) (negsuc b) = false
less_than (pos a) (pos b) = ltb a b

pub record SimulationConfig : Type 0 where
  pub total_agents : ℤ
  pub active_agents : ℤ

-- The events sent stay 0 and are left out.
pub record SimulationStatus : Type 0 where
  pub running : Bool
  pub total_agents : ℤ
  pub active_agents : ℤ
  pub started_at : Option ℕ

pub record Handlers (W : Type 0) : Type 0 where
  pub start_func : ℤ → W → Option W
  pub stop_func : W → Option W
  pub scale_func : ℤ → W → Option W

-- API, and the state of the simulation that its functions act on.
pub record Panel (W : Type 0) : Type 0 where
  pub config : SimulationConfig
  pub status : SimulationStatus
  pub simulation : W

-- The answers, by their status; a success gives the number of active agents where it says it.
pub data Reply : Type 0 where
  active : ℤ → Reply
  done bad_request conflict internal_error : Reply

-- NewAPI
unfoldable pub new_panel : {W : Type 0} → W → Panel W
new_panel w = record {
  config = record { total_agents = pos 2000; active_agents = pos 0 };
  status = record {
    running = false;
    total_agents = pos 2000;
    active_agents = pos 0;
    started_at = none;
  };
  simulation = w;
}

-- SetTotalAgents
unfoldable pub set_total_agents : {W : Type 0} → ℤ → Panel W → Panel W
set_total_agents total p = record p {
  config = record p.config { total_agents = total };
  status = record p.status { total_agents = total };
}

module _ {W : Type 0} (h : Handlers W) where
  -- The number of agents that a start takes.
  unfoldable pub start_count : ℤ → ℤ → ℤ
  start_count asked total =
      if less_than asked (pos 1) || less_than total asked then pos 100 else asked

  abbrev pub after_start : ℕ → ℤ → Panel W → Option W → Reply × Panel W
  after_start now count p none = (internal_error, p)
  after_start now count p (some w) = (
    active count,
    record p {
      status = record p.status { running = true; active_agents = count; started_at = some now };
      simulation = w;
    },
  )

  -- startHandler, and the clock after the start.
  unfoldable pub handle_start : ℕ → Option ℤ → Panel W → Reply × Panel W
  unfolding start_count
  handle_start now none p = (bad_request, p)
  handle_start now (some asked) p =
      let count = start_count asked p.config.total_agents in
      if p.status.running
      then (conflict, p)
      else after_start now count p (h.start_func count p.simulation)

  abbrev pub after_stop : Panel W → Option W → Reply × Panel W
  after_stop p none = (internal_error, p)
  after_stop p (some w) = (
    done,
    record p { status = record p.status { running = false; started_at = none }; simulation = w },
  )

  -- stopHandler
  unfoldable pub handle_stop : Panel W → Reply × Panel W
  handle_stop p =
      if p.status.running then after_stop p (h.stop_func p.simulation) else (conflict, p)

  -- configHandler, for PUT.
  unfoldable pub handle_config : Option SimulationConfig → Panel W → Reply × Panel W
  handle_config none p = (bad_request, p)
  handle_config (some new_config) p =
      if p.status.running then (conflict, p) else (done, record p { config = new_config })

  abbrev pub after_scale : ℤ → Panel W → Option W → Reply × Panel W
  after_scale count p none = (internal_error, p)
  after_scale count p (some w) = (
    active count,
    record p { status = record p.status { active_agents = count }; simulation = w },
  )

  -- scaleHandler
  unfoldable pub handle_scale : Option ℤ → Panel W → Reply × Panel W
  handle_scale none p = (bad_request, p)
  handle_scale (some asked) p =
      if less_than asked (pos 0) || less_than p.config.total_agents asked
      then (bad_request, p)
      else after_scale asked p (h.scale_func asked p.simulation)
