-- ===== src/CallQueue/SlTracker/Level.antt =====
-- The service level that a series of answers gives.
use monti.Prelude.{
  ℕ, ◌*◌, ◌+◌, ◌≤◌, ◌≡◌, refl, List, [], ◌∷◌, arith, length, keep, length-keep-le, leb,
  if◌then◌else◌,
}
use monti.Prelude.Int.{ℤ, pos, leb_ℤ}
use monti.Types.Call.{Percent}
use monti.CallQueue.SlTracker.{SlTracker, new_sl_tracker, record_answer, current_sl}

-- RecordAnswer for each wait in turn.
abbrev pub record_answers : List ℤ → SlTracker → SlTracker
record_answers [] s = s
record_answers (w ∷ ws) s = record_answers ws (record_answer w s)

-- The waits within the threshold.
abbrev pub in_time : ℕ → List ℤ → List ℤ
in_time threshold_secs = keep λ w. leb_ℤ w (pos (threshold_secs * 1000000000))

record_answers_counts :
    (ws : List ℤ) (s : SlTracker)
    → ((record_answers ws s).total_answered ≡ s.total_answered + length ws)
      × ((record_answers ws s).answered_in_sl
          ≡ s.answered_in_sl + length (in_time s.threshold_secs ws))
      × ((record_answers ws s).threshold_secs ≡ s.threshold_secs)
unfolding record_answer
record_answers_counts [] s = (omega arith, omega arith, refl)
record_answers_counts (w ∷ ws) s =
    let ih = record_answers_counts ws (record_answer w s) in
    (ground (arith, ih), ground (arith, ih), ground (arith, ih))

-- A percentage is at most one hundred.
abbrev pub IsPercentage : Percent → Type 0
IsPercentage p = p.num ≤ 100 * p.den

-- Of a new tracker that has seen some waits, the level is 100 / 1 if there were none, and otherwise
-- a hundred times the number of waits within the threshold over the number of all; either way it is
-- at most 100%.
pub current_sl-record_answers :
    (target threshold_secs : ℕ) (ws : List ℤ)
    → let p = current_sl (record_answers ws (new_sl_tracker target threshold_secs)) in
      (p ≡ (
        if leb (length ws) 0
        then record { num = 100; den = 1 }
        else record { num = 100 * length (in_time threshold_secs ws); den = length ws }))
      × IsPercentage p
unfolding current_sl new_sl_tracker
current_sl-record_answers target threshold_secs ws =
    let start = new_sl_tracker target threshold_secs in
    let counts = record_answers_counts ws start in
    (
      ground (arith, counts),
      ground (arith, counts, length-keep-le (λ w. leb_ℤ w (pos (threshold_secs * 1000000000))) ws),
    )
