-- ===== src/Conditions.antt =====
-- `setCondition` of internal/controller/virtualmachinefilerestore_controller.go.
pub mod Upsert
use vm_file_restore_operator.Base.{String, List, [], ◌∷◌, ◌=?◌, if◌then◌else◌}
use vm_file_restore_operator.Types.{Condition}

-- The first condition of the type is replaced; without one the condition is appended.
unfoldable pub set_condition : List Condition → Condition → List Condition
set_condition [] n = n ∷ []
set_condition (c ∷ cs) n = if c.type =? n.type then n ∷ cs else c ∷ set_condition cs n
