-- ===== src/Tests/Sites.antt =====
-- The alert rules and the intake of events.
use monti.Prelude.{◌/◌, refl, arith, ◌≢◌, ◌↔◌, true, false, List, [], ◌∷◌, none, some}
use monti.Prelude.Int.{pos}
use monti.Types.Vq.{dept_sales}
use monti.Types.Agent.{AgentEvent, AgentInfo, no_kpis, connected, state_available, state_break}
use monti.Alerts.{Durations, check_agent, format_duration}
use monti.Alerts.Rules.{Shows, IsExact, IsLate, format_duration-Shows, check_agent-IsLate}
use monti.Tracker.{new_agent_state_tracker}
use monti.Events.{Receiver, new_receiver, new_event_cache}
use monti.Events.Intake.{Request, Took, accepted, handle_all, handle_all-Took}

abbrev pub on_break : AgentInfo
on_break = record {
  agent_id = "ada";
  state = state_break;
  department = dept_sales;
  location = "berlin";
  team = "blue";
  state_start = 1000;
  last_update = 1000;
  last_heartbeat = 1000;
  connection_status = connected;
  kpis = no_kpis;
  current_call_id = "";
  current_vq = "";
  call_start_time = none;
  acw_start_time = none;
  break_start_time = none;
  alerts = [];
}

-- Whole minutes and seconds, without float64.
abbrev pub whole_durations : Durations
whole_durations = record { minutes = λ d. d / 60000000000; seconds = λ d. d / 1000000000 }

whole_durations-IsExact : IsExact whole_durations
whole_durations-IsExact d below = (refl, refl)

check_agent-IsLate_example :
    ((check_agent whole_durations 700000000000 on_break).alerts ≢ []) ↔ IsLate 700000000000 on_break
check_agent-IsLate_example = check_agent-IsLate whole_durations 700000000000 on_break

format_duration-Shows_example : Shows 754000000000 (format_duration whole_durations 754000000000)
format_duration-Shows_example =
    format_duration-Shows whole_durations 754000000000 whole_durations-IsExact (omega arith)

abbrev ada_event : AgentEvent
ada_event = record {
  agent_id = "ada";
  state = state_available;
  department = dept_sales;
  location = "berlin";
  team = "blue";
  timestamp = 5;
  state_duration = pos 0;
  kpis = no_kpis;
}

abbrev three_requests : List Request
three_requests =
    record { heartbeat_now = 10; received_now = 11; is_post = true; body = some ada_event }
    ∷ record { heartbeat_now = 12; received_now = 13; is_post = false; body = some ada_event }
    ∷ record { heartbeat_now = 14; received_now = 15; is_post = true; body = none }
    ∷ []

abbrev receiver : Receiver
receiver = new_receiver new_event_cache new_agent_state_tracker

handle_all-Took_example :
    Took (accepted three_requests) receiver (handle_all three_requests receiver)
handle_all-Took_example = handle_all-Took three_requests receiver
