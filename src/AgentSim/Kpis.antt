-- ===== src/AgentSim/Kpis.antt =====
-- AgentSim/internal/agent/simulator.go: the figures of an agent, and how a change of state changes
-- them. The states are the texts of AgentSim/internal/types/types.go.
use monti.Prelude.{ℕ, suc, ◌-◌, String, Bool, ◌||◌, ◌==◌, nat_eq, if◌then◌else◌}

-- float64: quotients of numbers, the four operations, and the order.
pub record Floats (F : Type 0) : Type 0 where
  pub ratio : ℕ → ℕ → F
  pub plus : F → F → F
  pub minus : F → F → F
  pub times : F → F → F
  pub over : F → F → F
  pub less : F → F → Bool

-- types.AgentKPIs
pub record Kpis (F : Type 0) : Type 0 where
  pub total_calls : ℕ
  pub avg_call_duration : F
  pub acw_time : F
  pub acw_count : ℕ
  pub hold_count : ℕ
  pub hold_time : F
  pub transfer_count : ℕ
  pub conference_count : ℕ
  pub break_time : F
  pub login_time : F
  pub occupancy : F
  pub adherence : F
  pub avg_handle_time : F
  pub first_call_resolution : F
  pub customer_satisfaction : F

module _ {F : Type 0} (fl : Floats F) where
  -- clamp
  unfoldable pub clamp : F → F → F → F
  clamp value lo hi = if fl.less value lo then lo else (if fl.less hi value then hi else value)

  -- generateInitialKPIs, with its three random numbers.
  unfoldable pub generate_initial_kpis : (ℕ → F) → Kpis F
  generate_initial_kpis draws = record {
    total_calls = 0;
    avg_call_duration = fl.ratio 0 1;
    acw_time = fl.ratio 0 1;
    acw_count = 0;
    hold_count = 0;
    hold_time = fl.ratio 0 1;
    transfer_count = 0;
    conference_count = 0;
    break_time = fl.ratio 0 1;
    login_time = fl.ratio 0 1;
    occupancy = fl.ratio 0 1;
    adherence = fl.plus (fl.ratio 85 1) (fl.times (draws 0) (fl.ratio 15 1));
    avg_handle_time = fl.ratio 0 1;
    first_call_resolution = fl.plus (fl.ratio 70 1) (fl.times (draws 1) (fl.ratio 25 1));
    customer_satisfaction = fl.plus (fl.ratio 35 10) (fl.times (draws 2) (fl.ratio 15 10));
  }

  -- The average after one more call; `calls` counts it.
  unfoldable pub next_average : ℕ → F → F → F
  next_average calls average duration =
      if nat_eq calls 1
      then duration
      else fl.over (fl.plus (fl.times average (fl.ratio (calls - 1) 1)) duration) (fl.ratio calls 1)

  -- A random change by at most half of the width.
  abbrev wobble : F → F → F
  wobble draw width = fl.times (fl.minus draw (fl.ratio 1 2)) width

  -- updateKPIs: the case of a call.
  unfoldable pub after_call : (ℕ → F) → F → Kpis F → Kpis F
  unfolding clamp next_average
  after_call draws duration k =
      let average = next_average (suc k.total_calls) k.avg_call_duration duration in
      record k {
        total_calls = suc k.total_calls;
        avg_call_duration = average;
        avg_handle_time = average;
        first_call_resolution =
            clamp (fl.plus k.first_call_resolution (wobble (draws 0) (fl.ratio 2 1)))
              (fl.ratio 60 1) (fl.ratio 100 1);
        customer_satisfaction =
            clamp (fl.plus k.customer_satisfaction (wobble (draws 1) (fl.ratio 2 10)))
              (fl.ratio 1 1) (fl.ratio 5 1);
      }

  -- updateKPIs: the switch on the state that ends.
  unfoldable pub after_state : (ℕ → F) → String → F → Kpis F → Kpis F
  unfolding after_call
  after_state draws previous duration k =
      if previous == "on_call"
      then after_call draws duration k
      else (if previous == "after_call_work"
          then record k { acw_count = suc k.acw_count; acw_time = fl.plus k.acw_time duration }
          else (if previous == "on_hold"
              then record k {
                hold_count = suc k.hold_count;
                hold_time = fl.plus k.hold_time duration;
              }
              else (if previous == "transferring"
                  then record k { transfer_count = suc k.transfer_count }
                  else (if previous == "conference"
                      then record k { conference_count = suc k.conference_count }
                      else (if previous == "break" || previous == "lunch"
                          then record k { break_time = fl.plus k.break_time duration }
                          else k)))))

  -- The occupancy, unless no time was available.
  unfoldable pub with_occupancy : Kpis F → Kpis F
  unfolding clamp
  with_occupancy k =
      let productive =
        fl.plus (fl.times k.avg_call_duration (fl.ratio k.total_calls 1)) k.acw_time in
      let available = fl.minus k.login_time k.break_time in
      if fl.less (fl.ratio 0 1) available
      then record k {
        occupancy =
            clamp (fl.times (fl.over productive available) (fl.ratio 100 1)) (fl.ratio 0 1)
              (fl.ratio 100 1);
      }
      else k

  -- updateKPIs; `logged_in` is the time since the login, in seconds, and the random numbers are
  -- drawn one after the other.
  unfoldable pub update_kpis : (ℕ → F) → F → String → F → Kpis F → Kpis F
  unfolding clamp after_state with_occupancy
  update_kpis draws logged_in previous duration k =
      let k' =
        with_occupancy
          (after_state draws previous duration (record k { login_time = logged_in })) in
      let draw = if previous == "on_call" then draws 2 else draws 0 in
      record k' {
        adherence =
            clamp (fl.plus k'.adherence (wobble draw (fl.ratio 1 1))) (fl.ratio 70 1)
              (fl.ratio 100 1);
      }
