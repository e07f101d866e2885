-- ===== src/Conditions.antt =====
-- controllers/condition.go: the conditions in the status of the resource.
pub mod Reasons
use qubership_opensearch.Prelude.{String, Bool, not, ◌||◌, ◌==◌, List, [], ◌∷◌, if◌then◌else◌}

-- StatusCondition of api/v1/opensearchservice_types.go; `kind` is its field Type.
pub record StatusCondition : Type 0 where
  pub kind : String
  pub status : String
  pub last_transition_time : String
  pub reason : String
  pub message : String

unfoldable pub is_changed : StatusCondition → StatusCondition → Bool
is_changed current condition =
    not (current.kind == condition.kind)
    || not (current.status == condition.status)
    || not (current.message == condition.message)

-- The loop ends at the first condition of the reason.
unfoldable pub add_condition : List StatusCondition → StatusCondition → List StatusCondition
add_condition [] condition = condition ∷ []
add_condition (current ∷ conditions) condition =
    let rest = add_condition conditions condition in
    if current.reason == condition.reason
    then (if is_changed current condition then condition else current) ∷ conditions
    else current ∷ rest

-- The update of updateConditions, with the time of metav1.Now.
unfoldable pub update_conditions :
    String → StatusCondition → List StatusCondition → List StatusCondition
update_conditions now condition conditions =
    add_condition conditions (record condition { last_transition_time = now })
