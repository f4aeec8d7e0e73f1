-- ===== src/AgentSim/Traffic.antt =====
-- AgentSim/internal/callgen/generator.go, the calls of the simulation. float64 is an argument with
-- its operations, among them the test `x <= 0`, and the random numbers are given.
use monti.Prelude.{Bool, List, [], ◌∷◌, Option, none, some, if◌then◌else◌}
use monti.Prelude.Dict.{Dict, lookup, insert}
use monti.Types.Vq.{Department, VqName, dept_sales, dept_support, dept_technical, dept_retention}
use monti.AgentSim.Kpis.{Floats}

-- VQWeight
pub record VqWeight (F : Type 0) : Type 0 where
  pub vq : VqName
  pub weight : F

pub record DepartmentConfig (F : Type 0) : Type 0 where
  pub calls_per_min : F
  pub vqs : List (VqWeight F)

pub record CallGenerator (F : Type 0) : Type 0 where
  pub departments : Dict (DepartmentConfig F)
  pub peak_hour_factor : F

module _ {F : Type 0} where
  -- SetDepartmentConfig
  unfoldable pub set_department_config :
      Department → DepartmentConfig F → CallGenerator F → CallGenerator F
  set_department_config dept cfg g = record g { departments = insert dept cfg g.departments }

  -- SetPeakHourFactor
  unfoldable pub set_peak_hour_factor : F → CallGenerator F → CallGenerator F
  set_peak_hour_factor factor g = record g { peak_hour_factor = factor }

module _ {F : Type 0} (fl : Floats F) where
  abbrev four_queues : VqName → VqName → VqName → VqName → List (VqWeight F)
  four_queues a b c d =
      record { vq = a; weight = fl.ratio 4 1 }
      ∷ record { vq = b; weight = fl.ratio 3 1 }
      ∷ record { vq = c; weight = fl.ratio 3 1 }
      ∷ record { vq = d; weight = fl.ratio 3 1 }
      ∷ []

  -- defaultDepartments
  unfoldable pub default_departments : Dict (DepartmentConfig F)
  default_departments =
      (
        dept_sales,
        record {
          calls_per_min = fl.ratio 40 1;
          vqs = four_queues "sales_inbound" "sales_outbound" "sales_callback" "sales_chat";
        },
      )
      ∷ (
        dept_support,
        record {
          calls_per_min = fl.ratio 60 1;
          vqs = four_queues "support_general" "support_billing" "support_callback" "support_chat";
        },
      )
      ∷ (
        dept_technical,
        record {
          calls_per_min = fl.ratio 30 1;
          vqs = four_queues "tech_l1" "tech_l2" "tech_callback" "tech_chat";
        },
      )
      ∷ (
        dept_retention,
        record {
          calls_per_min = fl.ratio 20 1;
          vqs =
              four_queues "retention_save" "retention_cancel" "retention_callback" "retention_chat";
        },
      )
      ∷ []

  -- NewCallGenerator
  unfoldable pub new_call_generator : CallGenerator F
  unfolding default_departments
  new_call_generator = record { departments = default_departments; peak_hour_factor = fl.ratio 1 1 }

  -- The loop of pickVQ that adds the weights up.
  abbrev pub total_weight : F → List (VqWeight F) → F
  total_weight total [] = total
  total_weight total (v ∷ vqs) = total_weight (fl.plus total v.weight) vqs

  -- The loop of pickVQ that takes the weights off; `r <= 0` is false for a number that is not one.
  unfoldable pub pick_from : (F → Bool) → F → VqName → List (VqWeight F) → VqName
  pick_from at_most_zero r last [] = last
  pick_from at_most_zero r last (v ∷ vqs) =
      let left = fl.minus r v.weight in
      let later = pick_from at_most_zero left v.vq vqs in if at_most_zero left then v.vq else later

  -- pickVQ; `draw` is rng.Float64(). After the last round the queue is that of the last one.
  unfoldable pub pick_vq : (F → Bool) → F → List (VqWeight F) → VqName
  unfolding pick_from
  pick_vq at_most_zero draw [] = ""
  pick_vq at_most_zero draw (v ∷ vqs) =
      let total = total_weight (fl.ratio 0 1) (v ∷ vqs) in
      pick_from at_most_zero (fl.times draw total) v.vq (v ∷ vqs)

  -- cfg := g.departments[dept], which is the zero value for a department that is not there.
  unfoldable pub config_of : Department → CallGenerator F → DepartmentConfig F
  config_of dept g = elim (lookup dept g.departments) [
    | none ↦ record { calls_per_min = fl.ratio 0 1; vqs = [] }
    | some cfg ↦ cfg
  ]

  -- One round of runDepartment: the queue that it enqueues a call for. `none` is a second's wait,
  -- since no calls are configured.
  unfoldable pub next_vq : (F → Bool) → F → Department → CallGenerator F → Option VqName
  unfolding config_of pick_vq
  next_vq at_most_zero draw dept g =
      let cfg = config_of dept g in
      if at_most_zero (fl.times cfg.calls_per_min g.peak_hour_factor)
      then none
      else some (pick_vq at_most_zero draw cfg.vqs)
