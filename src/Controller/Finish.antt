-- ===== src/Controller/Finish.antt =====
-- `handleVolumeReadyPhase` and `handleCleanupPhase` of internal/controller/phases.go.
use vm_file_restore_operator.Base.{◌*◌, String, ◌<>◌, Option, none, some, exists, if◌then◌else◌}
use vm_file_restore_operator.Base.Decimal.{ℤ, pos, print_int}
use vm_file_restore_operator.Errors.{Error, Result, is_not_found}
use vm_file_restore_operator.Types.{FileRestore, Instance, Machine, succeeded}
use vm_file_restore_operator.Monad.{Action, pure, ◌>>=◌, ◌>>◌, on_result, on_option}
use vm_file_restore_operator.Api.{Api, normal}
use vm_file_restore_operator.Hotplug.Names.{volume_name_of}
use vm_file_restore_operator.Hotplug.Steps.{unplug_volume}
use vm_file_restore_operator.Controller.State.{
  St, Reply, stop, requeue_after, second, lift, the_restore, record_event,
}
use vm_file_restore_operator.Controller.Access.{target_key}
use vm_file_restore_operator.Controller.Attachment.{status_named}
use vm_file_restore_operator.Controller.Steps.{transition_phase, fail_restore}

-- `handleVolumeReadyPhase`
unfoldable pub handle_volume_ready_phase : {W : Type 0} → Action (St W) Reply
handle_volume_ready_phase = pure stop

abbrev files_restored : Option ℤ → ℤ
files_restored none = pos 0
files_restored (some n) = n

module _ (api : Api) (operator_namespace : String) where
  open api use {World}

  -- The machine cannot be read: it may be gone after the files were restored.
  machine_missing : FileRestore → Error → Action (St World) Reply
  machine_missing vmfr e =
      if is_not_found e
      then on_option vmfr.status.restored_files_count
          (fail_restore api operator_namespace e
            "target VM was deleted before restore could complete")
          (λ n.
            transition_phase api succeeded
              ("Restored " <> (print_int n <> " files (VM was deleted during cleanup)")))
      else fail_restore api operator_namespace e "failed to get target VM for cleanup"

  -- From "Volume successfully detached from VM" on.
  detached : FileRestore → Action (St World) Reply
  detached vmfr = do
    record_event api normal "VolumeUnplugged" "Volume unplugged from VM"
    transition_phase api succeeded (
        "Restore completed successfully ("
        <> (print_int (files_restored vmfr.status.restored_files_count) <> " files)"))

  -- "Verify volume is removed from VMI before completing"
  verify_detached : FileRestore → Result Instance → Action (St World) Reply
  unfolding detached
  verify_detached vmfr vmi =
      on_result vmi
        (λ e.
          if is_not_found e
          then detached vmfr
          else fail_restore api operator_namespace e "failed to get VMI for unplug verification")
        (λ i.
          if exists (status_named (volume_name_of vmfr.name)) i.volume_status
          then pure (requeue_after (5 * second))
          else detached vmfr)

  unplug_and_verify : FileRestore → Machine → Action (St World) Reply
  unfolding verify_detached
  unplug_and_verify vmfr vm = do
    unplugged ← lift (unplug_volume api vmfr vm)
    on_result unplugged
        (λ e. fail_restore api operator_namespace e "failed to unplug volume from VM")
        (λ _. do vmi ← lift (api.get_instance (target_key vmfr)); verify_detached vmfr vmi)

  -- `handleCleanupPhase`
  unfoldable pub handle_cleanup_phase : Action (St World) Reply
  unfolding machine_missing unplug_and_verify
  handle_cleanup_phase = do
    vmfr ← the_restore
    vm ← lift (api.get_machine (target_key vmfr))
    on_result vm (machine_missing vmfr) (unplug_and_verify vmfr)
