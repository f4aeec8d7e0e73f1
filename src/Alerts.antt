-- ===== src/Alerts.antt =====
-- Backend/internal/alerts/checker.go. The function mutates the agents of a slice in place: it
-- returns the new slice.
pub mod Rules
use monti.Prelude.{
  ℕ, ◌/◌, ◌%◌, String, Bool, List, [], ◌∷◌, Option, none, some, ◌==◌, leb, if◌then◌else◌, map,
}
use monti.Prelude.Int.{ℤ, pos, pos_part, sub_ℕ, ltb_ℤ}
use monti.Types.Agent.{
  AgentInfo, AgentAlert, AlertSeverity, warning, critical, DurationText, hours_mins, mins_secs,
  state_after_call_work, state_break,
}

-- int(d.Minutes()) and int(d.Seconds()) of the package time, which compute in float64.
pub record Durations : Type 0 where
  pub minutes : ℕ → ℕ
  pub seconds : ℕ → ℕ

-- The time that a rule starts from: the recorded one, or the start of the state.
abbrev pub started : Option ℕ → ℕ → ℕ
started none state_start = state_start
started (some t) state_start = t

module _ (durations : Durations) where
  -- formatDuration, which is called with durations above five minutes only.
  unfoldable pub format_duration : ℕ → DurationText
  format_duration d =
      let mins = durations.minutes d in
      let secs = durations.seconds d % 60 in
      if leb 60 mins then hours_mins (mins / 60) (mins % 60) else mins_secs mins secs

  -- One rule: an alert if the duration is above the limit.
  abbrev pub alert_if : ℤ → ℕ → String → AlertSeverity → String → List AgentAlert
  alert_if dur limit rule severity text =
      if ltb_ℤ (pos limit) dur
      then record {
        rule = rule;
        severity = severity;
        message = (text, format_duration (pos_part dur));
      }
        ∷ []
      else []

  -- The body of the loop of CheckAgentAlerts.
  unfoldable pub check_agent : ℕ → AgentInfo → AgentInfo
  check_agent now a = record a {
    alerts =
        if a.state == state_after_call_work
        then alert_if (sub_ℕ now (started a.acw_start_time a.state_start)) 300000000000 "acw_long"
            warning "ACW for "
        else (if a.state == state_break
            then alert_if (sub_ℕ now (started a.break_start_time a.state_start)) 600000000000
                "break_long" critical "Break for "
            else []);
  }

  -- CheckAgentAlerts
  unfoldable pub check_agent_alerts : ℕ → List AgentInfo → List AgentInfo
  check_agent_alerts now [] = []
  check_agent_alerts now (a ∷ rest) = check_agent now a ∷ check_agent_alerts now rest
