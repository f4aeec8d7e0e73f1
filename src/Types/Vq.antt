-- ===== src/Types/Vq.antt =====
-- Backend/internal/types/vq.go, and the departments of types.go. A name type over `string` is a
-- text: JSON decoding accepts any text in its place.
use monti.Prelude.{String, List, [], ◌∷◌}
use monti.Prelude.Dict.{Dict}

abbrev pub Department : Type 0
Department = String

abbrev pub VqName : Type 0
VqName = String

abbrev pub dept_sales : Department
dept_sales = "sales"

abbrev pub dept_support : Department
dept_support = "support"

abbrev pub dept_technical : Department
dept_technical = "technical"

abbrev pub dept_retention : Department
dept_retention = "retention"

-- VQDepartmentMapping
abbrev pub vq_department_mapping : Dict Department
vq_department_mapping =
    ("sales_inbound", dept_sales)
    ∷ ("sales_outbound", dept_sales)
    ∷ ("sales_callback", dept_sales)
    ∷ ("sales_chat", dept_sales)
    ∷ ("support_general", dept_support)
    ∷ ("support_billing", dept_support)
    ∷ ("support_callback", dept_support)
    ∷ ("support_chat", dept_support)
    ∷ ("tech_l1", dept_technical)
    ∷ ("tech_l2", dept_technical)
    ∷ ("tech_callback", dept_technical)
    ∷ ("tech_chat", dept_technical)
    ∷ ("retention_save", dept_retention)
    ∷ ("retention_cancel", dept_retention)
    ∷ ("retention_callback", dept_retention)
    ∷ ("retention_chat", dept_retention)
    ∷ []

-- DepartmentVQs
abbrev pub department_vqs : Dict (List VqName)
department_vqs =
    (dept_sales, "sales_inbound" ∷ "sales_outbound" ∷ "sales_callback" ∷ "sales_chat" ∷ [])
    ∷ (
      dept_support,
      "support_general" ∷ "support_billing" ∷ "support_callback" ∷ "support_chat" ∷ [],
    )
    ∷ (dept_technical, "tech_l1" ∷ "tech_l2" ∷ "tech_callback" ∷ "tech_chat" ∷ [])
    ∷ (
      dept_retention,
      "retention_save" ∷ "retention_cancel" ∷ "retention_callback" ∷ "retention_chat" ∷ [],
    )
    ∷ []

-- AllVQs
abbrev pub all_vqs : List VqName
all_vqs =
    "sales_inbound" ∷ "sales_outbound" ∷ "sales_callback" ∷ "sales_chat" ∷ "support_general"
    ∷ "support_billing" ∷ "support_callback" ∷ "support_chat" ∷ "tech_l1" ∷ "tech_l2"
    ∷ "tech_callback" ∷ "tech_chat" ∷ "retention_save" ∷ "retention_cancel" ∷ "retention_callback"
    ∷ "retention_chat" ∷ []
