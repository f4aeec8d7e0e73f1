-- ===== src/Alerts/Rules.antt =====
-- What the alert rules say of an agent.
use monti.Prelude.{
  ℕ, ◌+◌, ◌*◌, ◌/◌, ◌<◌, ◌≡◌, refl, ◌≢◌, ◌⊎◌, ◌↔◌, [], arith, eq_iff, ◌%◌, Option, none, some, inl,
  inr, leb, if◌then◌else◌,
}
use monti.Types.Agent.{
  AgentInfo, DurationText, hours_mins, mins_secs, state_after_call_work, state_break,
}
use monti.Alerts.{Durations, format_duration, started, check_agent}

-- The text stands for the duration: below an hour, to the second; from an hour on, to the minute.
abbrev pub Shows : ℕ → DurationText → Type 0
Shows d (mins_secs m s) = (m * 60 + s ≡ d / 1000000000) × (s < 60) × (m < 60)
Shows d (hours_mins h m) = (h * 60 + m ≡ d / 60000000000) × (m < 60) × (0 < h)

-- 131072 minutes, which are 91 days, in nanoseconds. Below this a float64 has the resolution to tell
-- the last nanosecond of a minute from the next minute.
abbrev pub exact_below : ℕ
exact_below = 7864320000000000

-- The whole minutes and seconds of the durations in whose range float64 gives them exactly.
abbrev pub IsExact : Durations → Type 0
IsExact durations =
    (d : ℕ)
    → d < exact_below
    → (durations.minutes d ≡ d / 60000000000) × (durations.seconds d ≡ d / 1000000000)

whole_parts :
    (d : ℕ)
    → let mins = d / 60000000000 in
      Shows d (
        if leb 60 mins
        then hours_mins (mins / 60) (mins % 60)
        else mins_secs mins ((d / 1000000000) % 60))
whole_parts d = ground arith

-- If the package time gives the whole minutes and seconds of durations below 131072 minutes, the parts
-- that formatDuration prints of such a duration are in range and add up to it, in seconds below an
-- hour and in minutes from an hour on.
pub format_duration-Shows :
    (durations : Durations) (d : ℕ)
    → IsExact durations
    → d < exact_below
    → Shows d (format_duration durations d)
unfolding format_duration
format_duration-Shows durations d exact below =
    let (mins, secs) = exact d below in rw (format_duration, mins, secs) (whole_parts d)

-- More time than a limit has passed since the recorded time, or, where none is recorded, since the
-- start of the state.
abbrev pub IsOver : ℕ → Option ℕ → ℕ → ℕ → Type 0
IsOver limit recorded state_start now =
    ((recorded ≡ none) × (state_start + limit < now))
    ⊎ ((t : ℕ) × (recorded ≡ some t) × (t + limit < now))

-- Over its limit: after-call work for more than five minutes, or a break for more than ten.
abbrev pub IsLate : ℕ → AgentInfo → Type 0
IsLate now a =
    ((a.state ≡ state_after_call_work) × IsOver 300000000000 a.acw_start_time a.state_start now)
    ⊎ ((a.state ≡ state_break) × IsOver 600000000000 a.break_start_time a.state_start now)

started-IsOver :
    (limit : ℕ) (recorded : Option ℕ) (state_start now : ℕ)
    → (started recorded state_start + limit < now) ↔ IsOver limit recorded state_start now
started-IsOver limit none state_start now =
    (λ l. inl (refl, l), λ o. elim o [ inl (e, l) ↦ l | inr (t, e, l) ↦ absurd (cc e) ])
started-IsOver limit (some t) state_start now = (
  λ l. inr (t, refl, l),
  λ o. elim o [ inl (e, l) ↦ absurd (cc e) | inr (s, e, l) ↦ ground (arith, e, l) ],
)

state_names : state_after_call_work ≢ state_break
state_names = ground (arith, eq_iff state_after_call_work state_break)

-- The same, by the time that a rule starts from.
abbrev Exceeds : ℕ → AgentInfo → Type 0
Exceeds now a =
    ((a.state ≡ state_after_call_work)
      × (started a.acw_start_time a.state_start + 300000000000 < now))
    ⊎ ((a.state ≡ state_break) × (started a.break_start_time a.state_start + 600000000000 < now))

check_agent-Exceeds :
    (durations : Durations) (now : ℕ) (a : AgentInfo)
    → ((check_agent durations now a).alerts ≢ []) ↔ Exceeds now a
unfolding check_agent
check_agent-Exceeds durations now a = (
  λ h. ground (arith, eq_iff a.state state_after_call_work, eq_iff a.state state_break),
  λ l e.
      ground (arith, eq_iff a.state state_after_call_work, eq_iff a.state state_break, state_names),
)

Exceeds-IsLate : (now : ℕ) (a : AgentInfo) → Exceeds now a ↔ IsLate now a
Exceeds-IsLate now a =
    let acw = started-IsOver 300000000000 a.acw_start_time a.state_start now in
    let rest = started-IsOver 600000000000 a.break_start_time a.state_start now in
    (
      λ h. elim h [ inl (s, l) ↦ inl (s, acw.0 l) | inr (s, l) ↦ inr (s, rest.0 l) ],
      λ h. elim h [ inl (s, o) ↦ inl (s, acw.1 o) | inr (s, o) ↦ inr (s, rest.1 o) ],
    )

-- CheckAgentAlerts leaves an agent an alert exactly if it has been in after-call work for more than
-- five minutes or on a break for more than ten, since the recorded time or else since the start of
-- the state, whatever alerts it had before.
pub check_agent-IsLate :
    (durations : Durations) (now : ℕ) (a : AgentInfo)
    → ((check_agent durations now a).alerts ≢ []) ↔ IsLate now a
check_agent-IsLate durations now a =
    let code = check_agent-Exceeds durations now a in
    let same = Exceeds-IsLate now a in (λ h. same.0 (code.0 h), λ l. code.1 (same.1 l))
