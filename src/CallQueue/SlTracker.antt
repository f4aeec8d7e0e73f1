-- ===== src/CallQueue/SlTracker.antt =====
-- Backend/internal/callqueue/service_level.go. Counters are `int`, which no run of the program
-- exhausts, so they are unbounded.
pub mod Level
use monti.Prelude.{ℕ, ◌*◌, ◌+◌, nat_eq, if◌then◌else◌}
use monti.Prelude.Int.{ℤ, pos, leb_ℤ}
use monti.Types.Call.{ServiceLevel, Percent}

pub record SlTracker : Type 0 where
  pub target : ℕ
  pub threshold_secs : ℕ
  pub answered_in_sl : ℕ
  pub total_answered : ℕ

-- NewSLTracker
unfoldable pub new_sl_tracker : ℕ → ℕ → SlTracker
new_sl_tracker target threshold_secs = record {
  target = target;
  threshold_secs = threshold_secs;
  answered_in_sl = 0;
  total_answered = 0;
}

-- float64(s.ThresholdSecs), in billionths
abbrev pub threshold : SlTracker → ℤ
threshold s = pos (s.threshold_secs * 1000000000)

-- RecordAnswer
unfoldable pub record_answer : ℤ → SlTracker → SlTracker
record_answer wait_time s = record s {
  total_answered = s.total_answered + 1;
  answered_in_sl = if leb_ℤ wait_time (threshold s) then s.answered_in_sl + 1 else s.answered_in_sl;
}

-- CurrentSL; the quotient is kept as a fraction.
unfoldable pub current_sl : SlTracker → Percent
current_sl s =
    if nat_eq s.total_answered 0
    then record { num = 100; den = 1 }
    else record { num = 100 * s.answered_in_sl; den = s.total_answered }

-- Snapshot
unfoldable pub snapshot : SlTracker → ServiceLevel
unfolding current_sl
snapshot s = record {
  target = s.target;
  threshold_secs = s.threshold_secs;
  answered_in_sl = s.answered_in_sl;
  total_answered = s.total_answered;
  current_sl = current_sl s;
}
