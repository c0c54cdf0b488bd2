-- ===== src/Controller/Reconcile.antt =====
-- `Reconcile` of internal/controller/virtualmachinefilerestore_controller.go, and the choice of the
-- phase handler.
use vm_file_restore_operator.Base.{
  ℕ, zero, suc, String, ◌<>◌, Bool, not, Option, none, some, [], ◌∷◌, ◌++◌, ◌=?◌, exists, keep,
  is_some, if◌then◌else◌,
}
use vm_file_restore_operator.Errors.{Error, Result, ok, err, errorf, is_not_found}
use vm_file_restore_operator.Types.{
  Key, FileRestore, RestorePhase, unset, new, init, hotplugging, waiting_for_attachment,
  ssh_connecting, restoring, volume_ready, cleanup, succeeded, failed, other, phase_text,
}
use vm_file_restore_operator.Monad.{Action, pure, ◌>>=◌, on_result, on_option}
use vm_file_restore_operator.Api.{Api}
use vm_file_restore_operator.Controller.State.{St, Reply, stop, requeue, fail, panicked}
use vm_file_restore_operator.Controller.Access
use vm_file_restore_operator.Controller.Steps.{is_terminal, fail_restore}
use vm_file_restore_operator.Controller.Init.{handle_init_phase}
use vm_file_restore_operator.Controller.Attachment.{
  handle_hotplugging_phase, handle_waiting_for_attachment_phase,
}
use vm_file_restore_operator.Controller.Restoring.{
  handle_ssh_connecting_phase, handle_restoring_phase,
}
use vm_file_restore_operator.Controller.Finish.{handle_volume_ready_phase, handle_cleanup_phase}

abbrev pub finalizer_name : String
finalizer_name = "filerestore.kubevirt.io/cleanup"

-- `controllerutil.ContainsFinalizer`, `AddFinalizer` and `RemoveFinalizer`
abbrev pub has_finalizer : FileRestore → Bool
has_finalizer v = exists (λ f. f =? finalizer_name) v.finalizers

abbrev pub add_finalizer : FileRestore → FileRestore
add_finalizer v = record v { finalizers = v.finalizers ++ (finalizer_name ∷ []) }

unfoldable pub remove_finalizer : FileRestore → FileRestore
remove_finalizer v = record v { finalizers = keep (λ f. not (f =? finalizer_name)) v.finalizers }

module _ (api : Api) (operator_namespace : String) where
  open api use {World}

  -- `getPhaseHandler`; `none` is nil.
  unfoldable pub get_phase_handler : RestorePhase → Option (Action (St World) Reply)
  get_phase_handler unset = some (handle_init_phase api operator_namespace)
  get_phase_handler new = some (handle_init_phase api operator_namespace)
  get_phase_handler init = some (handle_init_phase api operator_namespace)
  get_phase_handler hotplugging = some (handle_hotplugging_phase api operator_namespace)
  get_phase_handler waiting_for_attachment =
      some (handle_waiting_for_attachment_phase api operator_namespace)
  get_phase_handler ssh_connecting = some (handle_ssh_connecting_phase api operator_namespace)
  get_phase_handler restoring = some (handle_restoring_phase api operator_namespace)
  get_phase_handler volume_ready = some handle_volume_ready_phase
  get_phase_handler cleanup = some (handle_cleanup_phase api operator_namespace)
  get_phase_handler succeeded = none
  get_phase_handler failed = none
  get_phase_handler (other _) = none

  -- "Run phase handler"
  unfoldable pub run_phase_handler : RestorePhase → Action (St World) Reply
  unfolding get_phase_handler
  run_phase_handler phase =
      on_option (get_phase_handler phase)
        (fail_restore api operator_namespace (errorf ("unknown phase: " <> phase_text phase))
          "invalid phase - manual intervention required")
        (λ handler. handler)

  -- The attempts to remove the finalizer that are left after the first; each refetches the object.
  -- `maxRetries` is 3, and the error of the last attempt is returned.
  unfoldable pub remove_again : ℕ → Key → Error → Action World (Result (Unit {0}))
  remove_again zero key last_error = pure (err last_error)
  remove_again (suc attempts) key last_error = do
    found ← api.get_restore key
    on_result found (λ e. remove_again attempts key e)
        (λ v. do
          updated ← api.update_restore (remove_finalizer v)
          on_result updated (λ e. remove_again attempts key e) (λ _. pure (ok tt)))

  -- "Remove finalizer with retry"
  unfoldable pub remove_with_retry : Key → FileRestore → Action World (Result (Unit {0}))
  unfolding remove_again
  remove_with_retry key vmfr = do
    updated ← api.update_restore (remove_finalizer vmfr)
    on_result updated (λ e. remove_again 2 key e) (λ _. pure (ok tt))

  -- "Handle deletion"
  unfoldable pub handle_deletion : Key → FileRestore → Action World Reply
  unfolding remove_with_retry
  handle_deletion key vmfr =
      if has_finalizer vmfr
      then (do
        panic ← Access.cleanup api operator_namespace vmfr
        on_option panic
            (do
              removed ← remove_with_retry key vmfr
              on_result removed (λ e. pure (fail e)) (λ _. pure stop))
            (λ message. pure (panicked message)))
      else pure stop

  run_handler : FileRestore → Action World Reply
  run_handler vmfr w =
      let (reply, s) = run_phase_handler vmfr.status.phase (record { world = w; restore = vmfr }) in
      (reply, s.world)

  -- "Add finalizer if not present", the terminal phases, and the handler.
  unfoldable pub handle_live : FileRestore → Action World Reply
  unfolding run_handler
  handle_live vmfr =
      if not (has_finalizer vmfr)
      then (do
        updated ← api.update_restore (add_finalizer vmfr)
        on_result updated (λ e. pure (fail e)) (λ _. pure requeue))
      else if is_terminal vmfr.status.phase
      then pure stop
      else run_handler vmfr

  -- `Reconcile`
  unfoldable pub reconcile : Key → Action World Reply
  reconcile key = do
    found ← api.get_restore key
    on_result found (λ e. pure (if is_not_found e then stop else fail e))
        (λ vmfr.
          if is_some vmfr.deletion_timestamp then handle_deletion key vmfr else handle_live vmfr)
