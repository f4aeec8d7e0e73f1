-- ===== src/Types/Call.antt =====
-- Backend/internal/types/call.go, call_record.go. A time is its nanoseconds since the epoch; a
-- `float64` is the integer number of its billionths, so seconds are nanoseconds. A pointer to a
-- time is an `Option`.
use monti.Prelude.{ℕ, String, Bool, Option}
use monti.Prelude.Int.{ℤ}
use monti.Types.Vq.{VqName, Department}

-- CallStatus is set by the queue alone, to one of its four constants.
pub data CallStatus : Type 0 where
  waiting active completed abandoned : CallStatus

pub record Call : Type 0 where
  pub call_id : String
  pub vq : VqName
  pub department : Department
  pub status : CallStatus
  pub enqueue_time : ℕ
  pub assign_time : Option ℕ
  pub complete_time : Option ℕ
  pub agent_id : String
  pub talk_time : ℤ
  pub hold_time : ℤ
  pub wrap_time : ℤ
  pub wait_time : ℤ

-- A percentage, kept as the exact fraction `num / den`.
pub record Percent : Type 0 where
  pub num : ℕ
  pub den : ℕ

pub record ServiceLevel : Type 0 where
  pub target : ℕ
  pub threshold_secs : ℕ
  pub answered_in_sl : ℕ
  pub total_answered : ℕ
  pub current_sl : Percent

pub record VqSnapshot : Type 0 where
  pub vq : VqName
  pub department : Department
  pub waiting_count : ℕ
  pub active_count : ℕ
  pub completed_count : ℕ
  pub abandoned_count : ℕ
  pub longest_wait_secs : ℤ
  pub available_agents : ℕ
  pub service_level : ServiceLevel

pub record CallRecord : Type 0 where
  pub date_key : String
  pub call_id : String
  pub vq : VqName
  pub department : String
  pub agent_id : String
  pub enqueue_time : String
  pub assign_time : String
  pub complete_time : String
  pub wait_time : ℤ
  pub talk_time : ℤ
  pub hold_time : ℤ
  pub wrap_time : ℤ
  pub handle_time : ℤ
  pub abandoned : Bool
  pub answered_in_sl : Bool
