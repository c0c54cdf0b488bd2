-- ===== src/Controller/Restoring.antt =====
-- `handleSSHConnectingPhase` and `handleRestoringPhase` of internal/controller/phases.go.
use vm_file_restore_operator.Base.{ℕ, ◌*◌, String, ◌<>◌, some, ltb, leb, if◌then◌else◌}
use vm_file_restore_operator.Base.Texts.{is_empty}
use vm_file_restore_operator.Base.Decimal.{ℤ, pos, negsuc, print_int}
use vm_file_restore_operator.Errors.{errorf}
use vm_file_restore_operator.Types.{
  Bytes, FileRestore, RestorePhase, restoring, volume_ready, cleanup, phase_text, Instance, Status,
}
use vm_file_restore_operator.Monad.{Action, pure, ◌>>=◌, ◌>>◌, on_result, on_option}
use vm_file_restore_operator.Api.{Api, normal, Run}
use vm_file_restore_operator.Os.{detect_guest_os}
use vm_file_restore_operator.Network.{get_vmi_ip_address}
use vm_file_restore_operator.Ssh.{
  connect_ssh, Output, run_command_output, build_ssh_command, truncate_output,
}
use vm_file_restore_operator.FileCount.{parse_restored_file_count}
use vm_file_restore_operator.Hotplug.Names.{volume_name_of}
use vm_file_restore_operator.Controller.State.{
  St, Reply, requeue, fail, requeue_after, panicked, second, lift, set_status, the_restore,
  patch_status, record_event, now,
}
use vm_file_restore_operator.Controller.Access.{target_key, get_ssh_private_key}
use vm_file_restore_operator.Controller.Steps.{
  transition_phase, fail_restore, increment_retry_and_requeue, ssh,
}
use vm_file_restore_operator.Controller.Attachment.{rate_limit}

abbrev pub max_ssh_wait : ℕ
max_ssh_wait = 24

-- A count below 0 stands for a missing count line, and is reported as 0.
unfoldable pub reported_count : ℤ → ℤ
reported_count (pos n) = pos n
reported_count (negsuc _) = pos 0

-- The phase after the restore command: manual mode has no source path.
unfoldable pub phase_after_restore : FileRestore → RestorePhase
phase_after_restore vmfr = if is_empty vmfr.spec.source_path then volume_ready else cleanup

-- The assignments to the status after the command, in both modes.
unfoldable pub restored_status : FileRestore → String → Status → Status
unfolding phase_after_restore reported_count
restored_status vmfr stdout st =
    if is_empty vmfr.spec.source_path
    then record st { phase = phase_after_restore vmfr }
    else record st {
      phase = phase_after_restore vmfr;
      restored_files_count = some (reported_count (parse_restored_file_count stdout));
    }

abbrev restored_message : FileRestore → String → String
restored_message vmfr stdout =
    if is_empty vmfr.spec.source_path
    then "Volume mounted at " <> (vmfr.status.mount_path <> ", ready for manual restore")
    else "Restored "
      <> (print_int (reported_count (parse_restored_file_count stdout)) <> " files, cleaning up")

module _ (api : Api) (operator_namespace : String) where
  open api use {World, Connection}

  -- The instance, its address and the private key, which both handlers get first.
  unfoldable pub with_access :
      FileRestore → (Instance → String → Bytes → Action (St World) Reply) → Action (St World) Reply
  with_access vmfr go = do
    vmi ← lift (api.get_instance (target_key vmfr))
    on_result vmi (λ e. fail_restore api operator_namespace e "failed to get VMI")
        (λ i. do
          address ← lift (get_vmi_ip_address api (some i))
          on_result address
              (λ e. fail_restore api operator_namespace e "failed to get VM IP address")
              (λ ip. do
                key ← lift (get_ssh_private_key api operator_namespace)
                on_result key
                    (λ e. fail_restore api operator_namespace e "failed to get SSH private key")
                    (λ k. go i ip k)))

  -- `defer sshClient.Close()`
  unfoldable pub closing : Connection → Action (St World) Reply → Action (St World) Reply
  closing c body = do reply ← body; lift (api.close c); pure reply

  -- "Reset SSH retry counter"; a failure is only logged.
  unfoldable pub reset_ssh_retries : FileRestore → Action (St World) (Unit {0})
  reset_ssh_retries base =
      if ltb 0 base.status.ssh_retries
      then (do set_status (λ st. record st { ssh_retries = 0 }); patch_status api base; pure tt)
      else pure tt

  unfoldable pub connected : Connection → Action (St World) Reply
  connected c = closing c (do
    base ← the_restore
    reset_ssh_retries base
    transition_phase api restoring "SSH connected, starting restore")

  unfoldable pub connect : Instance → String → Bytes → Action (St World) Reply
  unfolding connected
  connect vmi ip key = do
    client ← lift (connect_ssh api ip key)
    on_result client (λ _. increment_retry_and_requeue api ssh (5 * second)) connected

  unfoldable pub check_ssh : Action (St World) Reply
  unfolding with_access connect
  check_ssh = do
    vmfr ← the_restore
    t ← now api
    set_status (λ st. record st { last_ssh_check_time = some t })
    patched ← patch_status api vmfr
    on_result patched (λ e. pure (fail e)) (λ _. do v ← the_restore; with_access v connect)

  -- The rate limit, then the check.
  unfoldable pub ssh_check : FileRestore → Action (St World) Reply
  unfolding check_ssh
  ssh_check vmfr = do
    wait ← rate_limit api operator_namespace vmfr.status.last_ssh_check_time
    on_option wait check_ssh (λ d. pure (requeue_after d))

  unfoldable pub ssh_or_timeout : FileRestore → Action (St World) Reply
  ssh_or_timeout vmfr =
      if leb max_ssh_wait vmfr.status.ssh_retries
      then fail_restore api operator_namespace (errorf "SSH connection timeout")
          "SSH connection failed after 24 attempts (2 minutes)"
      else ssh_check vmfr

  -- `handleSSHConnectingPhase`
  unfoldable pub handle_ssh_connecting_phase : Action (St World) Reply
  unfolding ssh_or_timeout
  handle_ssh_connecting_phase = the_restore >>= ssh_or_timeout

  -- "Update file count and transition phase atomically"
  unfoldable pub finish_restore : String → Action (St World) Reply
  finish_restore stdout = do
    vmfr ← the_restore
    set_status (restored_status vmfr stdout)
    patched ← patch_status api vmfr
    on_result patched (λ e. pure (fail e))
        (λ _. do
          record_event api normal (phase_text (phase_after_restore vmfr))
              (restored_message vmfr stdout)
          pure requeue)

  after_command : Run → Output → Action (St World) Reply
  after_command run out = on_option out.error (finish_restore out.stdout) (λ e.
      if run.deadline_exceeded
      then fail_restore api operator_namespace (errorf "restore command timeout")
          "restore command timed out after 10 minutes"
      else fail_restore api operator_namespace e (
          "restore command failed: "
          <> (e.message
              <> ("\nstdout: "
                  <> (truncate_output out.stdout 50
                      <> ("\nstderr: " <> truncate_output out.stderr 50))))))

  run_restore : Instance → Connection → FileRestore → Action (St World) Reply
  unfolding after_command
  run_restore vmi c vmfr =
      on_option
        (build_ssh_command (detect_guest_os vmi) (volume_name_of vmfr.name) vmfr.status.mount_path
          vmfr.spec.source_path)
        (pure (panicked "BuildSSHCommand called with empty mountPath"))
        (λ command. do
          run ← lift (api.run c command (600 * second))
          after_command run (run_command_output run))

  restore_with : Instance → String → Bytes → Action (St World) Reply
  unfolding run_restore
  restore_with vmi ip key = do
    vmfr ← the_restore
    client ← lift (connect_ssh api ip key)
    on_result client
        (λ e.
          fail_restore api operator_namespace e ("failed to establish SSH connection to " <> ip))
        (λ c. closing c (run_restore vmi c vmfr))

  -- `handleRestoringPhase`
  unfoldable pub handle_restoring_phase : Action (St World) Reply
  unfolding with_access restore_with
  handle_restoring_phase = do vmfr ← the_restore; with_access vmfr restore_with
