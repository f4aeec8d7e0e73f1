-- ===== src/AgentSim/Control.antt =====
-- The handlers of AgentSim/internal/control/api.go for the calls. A body that does not decode is
-- `none`, as is a generator or a client that was not set.
pub mod Injects
pub mod Rates
use monti.Prelude.{
  ℕ, zero, suc, ◌%◌, String, Bool, true, false, List, [], ◌∷◌, ◌++◌, Option, none, some, ◌==◌, ltb,
  length, get_elem?, if◌then◌else◌, ◌>>=◌,
}
use monti.Prelude.Int.{ℤ, pos, negsuc}
use monti.Prelude.Dict.{Dict, lookup}
use monti.Types.Vq.{Department}
use monti.AgentSim.Traffic.{
  DepartmentConfig, CallGenerator, set_department_config, set_peak_hour_factor,
}

-- What PUT /calls/config is sent: both members are optional.
pub record ConfigUpdate (F : Type 0) : Type 0 where
  pub factor : Option F
  pub rates : Option (Dict F)

-- What a handler answers, by its status.
pub data Answer {ℓ} (A : Type ℓ) : Type ℓ where
  ok : A → Answer A
  service_unavailable bad_request : Answer A

-- The numbers that POST /calls/inject answers, and the queues it asked for on the way.
pub record Injected : Type 0 where
  pub asked : List String
  pub injected : ℕ
  pub errors : ℕ

module _ {F : Type 0} where
  abbrev pub put_rate :
      Department → F → Option (DepartmentConfig F) → CallGenerator F → CallGenerator F
  unfolding set_department_config
  put_rate dept rate none g = g
  put_rate dept rate (some existing) g =
      set_department_config dept (record existing { calls_per_min = rate }) g

  -- One round of the loop of callsConfigHandler: the rate of a department that is there changes.
  unfoldable pub update_rate :
      Dict (DepartmentConfig F) → Department → F → CallGenerator F → CallGenerator F
  unfolding put_rate
  update_rate current dept rate g = put_rate dept rate (lookup dept current) g

  unfoldable pub update_rates :
      Dict (DepartmentConfig F) → Dict F → CallGenerator F → CallGenerator F
  unfolding update_rate
  update_rates current [] g = g
  update_rates current ((dept, rate) ∷ rest) g =
      update_rates current rest (update_rate current dept rate g)

  abbrev pub new_factor : Option F → CallGenerator F → CallGenerator F
  unfolding set_peak_hour_factor
  new_factor none g = g
  new_factor (some factor) g = set_peak_hour_factor factor g

  abbrev pub new_rates : Option (Dict F) → CallGenerator F → CallGenerator F
  unfolding update_rates
  new_rates none g = g
  new_rates (some rates) g = update_rates g.departments rates g

  -- callsConfigHandler, for PUT: the answer, and the generator after it.
  unfoldable pub put_calls_config :
      Option (ConfigUpdate F)
      → Option (CallGenerator F)
      → Answer (Unit {0}) × Option (CallGenerator F)
  unfolding new_factor new_rates
  put_calls_config body none = (service_unavailable, none)
  put_calls_config none (some g) = (bad_request, some g)
  put_calls_config (some req) (some g) =
      (ok tt, some (new_rates req.rates (new_factor req.factor g)))

abbrev pub all_inject_vqs : List String
all_inject_vqs =
    "sales_inbound" ∷ "sales_outbound" ∷ "sales_callback" ∷ "sales_chat" ∷ "support_general"
    ∷ "support_billing" ∷ "support_callback" ∷ "support_chat" ∷ "tech_l1" ∷ "tech_l2"
    ∷ "tech_callback" ∷ "tech_chat" ∷ "retention_save" ∷ "retention_cancel" ∷ "retention_callback"
    ∷ "retention_chat" ∷ []

-- The number of calls that are asked for, between 1 and 1000.
unfoldable pub clamped_count : ℤ → ℕ
clamped_count (negsuc n) = 1
clamped_count (pos zero) = 1
clamped_count (pos (suc n)) = if ltb 1000 (suc n) then 1000 else suc n

-- The queue of round `i`; `none` is an index out of range.
unfoldable pub injected_vq : String → ℕ → Option String
injected_vq vq i =
    if vq == "" then get_elem? all_inject_vqs (i % length all_inject_vqs) else some vq

abbrev pub none_injected : Injected
none_injected = record { asked = []; injected = 0; errors = 0 }

-- One round, and whether EnqueueCall returned no error.
abbrev pub count_injected : String → Bool → Injected → Injected
count_injected vq true r = record r { asked = r.asked ++ vq ∷ []; injected = suc r.injected }
count_injected vq false r = record r { asked = r.asked ++ vq ∷ []; errors = suc r.errors }

-- The loop of callsInjectHandler from round `i` on, with as many rounds left; `accepts` says for each
-- round whether EnqueueCall returns no error.
unfoldable pub inject_from : (ℕ → String → Bool) → String → ℕ → ℕ → Injected → Option Injected
unfolding injected_vq
inject_from accepts vq i zero r = some r
inject_from accepts vq i (suc left) r =
    injected_vq vq i >>= λ q. inject_from accepts vq (suc i) left (count_injected q (accepts i q) r)

-- callsInjectHandler: the client, whether the backend accepts a call, and the count and queue asked for.
unfoldable pub calls_inject :
    Option (ℕ → String → Bool) → Option (ℤ × String) → Option (Answer Injected)
unfolding inject_from clamped_count
calls_inject none body = some service_unavailable
calls_inject (some accepts) none = some bad_request
calls_inject (some accepts) (some (count, vq)) =
    inject_from accepts vq 0 (clamped_count count) none_injected >>= λ r. some (ok r)
