-- ===== src/Tests/Texts.antt =====
-- The theorems on outputs, commands, conditions and errors, at concrete inputs.
use vm_file_restore_operator.Base.{
  ◌≡◌, ◌≤◌, ◌-◌, String, false, refl, some, none, List, [], ◌∷◌, length, drop, arith, All,
}
use vm_file_restore_operator.Base.Decimal.{pos, print}
use vm_file_restore_operator.Base.Texts.{is_empty, trim_right, lines}
use vm_file_restore_operator.Types.{
  Condition, ConditionStatus, condition_true, condition_false, Instance,
}
use vm_file_restore_operator.FileCount.{parse_restored_file_count, count_of_line}
use vm_file_restore_operator.FileCount.RoundTrip.{count_line, parse_restored_file_count-print}
use vm_file_restore_operator.Conditions.{set_condition}
use vm_file_restore_operator.Conditions.Upsert.{condition_of, count_of, condition_of-set_condition}
use vm_file_restore_operator.Os.Paths.{get_mount_path-injective}
use vm_file_restore_operator.Ssh.{truncate_output, is_slash}
use vm_file_restore_operator.Ssh.Truncation.{truncate_output-lines}
use vm_file_restore_operator.Tests.Cluster.{instance_of, helper_output}

output_lines : lines helper_output ≡ "copying" ∷ count_line 3 ∷ "" ∷ []
unfolding lines print
output_lines = refl

no_count : All (λ l. count_of_line l ≡ none) ("copying" ∷ [])
unfolding count_of_line
no_count = (refl, tt)

parse_restored_file_count-print_example : parse_restored_file_count helper_output ≡ pos 3
parse_restored_file_count-print_example =
    parse_restored_file_count-print helper_output ("copying" ∷ []) ("" ∷ []) 3 output_lines no_count
      (omega arith)

abbrev condition : String → ConditionStatus → Condition
condition t s = record {
  type = t;
  status = s;
  observed_generation = 1;
  last_transition_time = 10;
  reason = "Because";
  message = "";
}

abbrev conditions : List Condition
conditions = condition "Ready" condition_true ∷ condition "RestoreCompleted" condition_true ∷ []

condition_of-set_condition_example :
    (condition_of "RestoreCompleted"
        (set_condition conditions (condition "RestoreCompleted" condition_false))
      ≡ some (condition "RestoreCompleted" condition_false))
    × (condition_of "Ready"
          (set_condition conditions (condition "RestoreCompleted" condition_false))
        ≡ condition_of "Ready" conditions)
condition_of-set_condition_example =
    condition_of-set_condition conditions (condition "RestoreCompleted" condition_false) "Ready"
      refl

none_twice : (t : String) → count_of t [] ≤ 1
none_twice t = omega arith

abbrev linux_guest : Instance
linux_guest = instance_of (record { name = "vm1"; namespace = "vms"; volumes = []; disks = [] })

get_mount_path-injective_example : ◌≡◌ {A = String} "backup" "backup"
get_mount_path-injective_example = get_mount_path-injective linux_guest "backup" "backup" refl

mount_left : is_empty (trim_right is_slash "C:\\backup\\") ≡ false
unfolding trim_right
mount_left = refl

truncate_output-lines_example :
    (lines (truncate_output "a\nb\nc" 2) ≡ drop (length (lines "a\nb\nc") - 2) (lines "a\nb\nc"))
    × (length (lines (truncate_output "a\nb\nc" 2)) ≤ 2)
truncate_output-lines_example = truncate_output-lines "a\nb\nc" 2 refl (omega arith)
