-- ===== src/CallQueue/VqConfig.antt =====
-- Backend/internal/callqueue/vq_config.go.
use monti.Prelude.{ℕ, List, [], ◌∷◌, none, some}
use monti.Prelude.Dict.{Dict, lookup, insert}
use monti.Types.Vq.{VqName, Department, vq_department_mapping, all_vqs}

pub record VqConfig : Type 0 where
  pub name : VqName
  pub department : Department
  pub sl_target : ℕ
  pub sl_seconds : ℕ

-- types.VQDepartmentMapping[vq]; a missing key reads as the empty text.
abbrev pub department_of : VqName → Department
department_of vq = elim (lookup vq vq_department_mapping) [ none ↦ "" | some d ↦ d ]

abbrev default_config : VqName → VqConfig
default_config vq = record {
  name = vq;
  department = department_of vq;
  sl_target = 80;
  sl_seconds = 20;
}

-- The loop of DefaultVQConfigs.
abbrev add_configs : List VqName → Dict VqConfig → Dict VqConfig
add_configs [] configs = configs
add_configs (vq ∷ vqs) configs = add_configs vqs (insert vq (default_config vq) configs)

-- DefaultVQConfigs
unfoldable pub default_vq_configs : Dict VqConfig
default_vq_configs = add_configs all_vqs []
