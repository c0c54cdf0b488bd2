-- ===== src/Tests/Attempts.antt =====
-- Attempts in the two phases that wait, at concrete inputs.
use vm_file_restore_operator.Base.{◌+◌, ◌≡◌, ◌≤◌, false, refl, arith}
use vm_file_restore_operator.Types.{
  RestorePhase, waiting_for_attachment, ssh_connecting, FileRestore,
}
use vm_file_restore_operator.Monad.{pure, on_result, on_option, ◌>>=◌, ◌>>◌}
use vm_file_restore_operator.Controller.State.{
  St, lift, set_status, the_restore, store_patched, patch_status, record_event, now,
}
use vm_file_restore_operator.Controller.Steps.{
  attachment, ssh, increment_retry_and_requeue, backoff,
}
use vm_file_restore_operator.Controller.Attachment.{
  rate_limit, attachment_check, check_attachment, check_volume, attachment_or_timeout,
  handle_waiting_for_attachment_phase,
}
use vm_file_restore_operator.Controller.Restoring.{
  ssh_check, check_ssh, with_access, connect, ssh_or_timeout, handle_ssh_connecting_phase,
}
use vm_file_restore_operator.Controller.Access.{get_operator_namespace, get_ssh_private_key}
use vm_file_restore_operator.Network.{get_vmi_ip_address}
use vm_file_restore_operator.Ssh.{connect_ssh}
use vm_file_restore_operator.Controller.Progress.Attempts.{Tried, none_yet, one_more}
use vm_file_restore_operator.Controller.Progress.Waiting as Waiting
use vm_file_restore_operator.Controller.Progress.Waiting.{handle_waiting_for_attachment_phase-ends}
use vm_file_restore_operator.Controller.Progress.Connecting as Connecting
use vm_file_restore_operator.Controller.Progress.Connecting.{handle_ssh_connecting_phase-ends}
use vm_file_restore_operator.Tests.Cluster.{
  Cluster, cluster, cluster-IsServer, status_in, start, new_restore,
}

-- A restore in the phase, on a machine without its volume and with a guest that does not answer.
abbrev in_phase : RestorePhase → FileRestore
in_phase p = let v = new_restore "" in record v { status = record v.status { phase = p } }

abbrev stuck : RestorePhase → St Cluster
stuck p = record {
  world = record (start "") { restore = in_phase p; is_reachable = false };
  restore = in_phase p;
}

abbrev waited : St Cluster
waited = (handle_waiting_for_attachment_phase cluster "" (stuck waiting_for_attachment)).1

waited-Tried :
    Tried cluster status_in waiting_for_attachment attachment
      (Waiting.IsDue cluster status_in cluster-IsServer "")
      (handle_waiting_for_attachment_phase cluster "")
      (stuck waiting_for_attachment)
unfolding pure on_result on_option ◌>>=◌ ◌>>◌ lift set_status the_restore store_patched patch_status
    record_event now increment_retry_and_requeue backoff rate_limit attachment_check
    check_attachment check_volume attachment_or_timeout handle_waiting_for_attachment_phase
waited-Tried = record { read = refl; in_time = refl; no_error = λ e h. cc; stays = refl }

handle_waiting_for_attachment_phase-ends_example :
    ((status_in waited.world).phase ≡ waiting_for_attachment)
    × ((status_in waited.world).attachment_retries ≡ 1 + 0)
    × (1 + 0 ≤ 60)
handle_waiting_for_attachment_phase-ends_example =
    handle_waiting_for_attachment_phase-ends cluster status_in cluster-IsServer ""
      (in_phase waiting_for_attachment).status (status_in waited.world) 1
      (one_more 0 (stuck waiting_for_attachment) none_yet waited-Tried) refl (omega arith)

abbrev connected_not : St Cluster
connected_not = (handle_ssh_connecting_phase cluster "" (stuck ssh_connecting)).1

connected_not-Tried :
    Tried cluster status_in ssh_connecting ssh
      (Connecting.IsDue cluster status_in cluster-IsServer "")
      (handle_ssh_connecting_phase cluster "")
      (stuck ssh_connecting)
unfolding pure on_result on_option ◌>>=◌ ◌>>◌ lift set_status the_restore store_patched patch_status
    record_event now increment_retry_and_requeue backoff rate_limit ssh_check check_ssh with_access
    connect ssh_or_timeout handle_ssh_connecting_phase get_operator_namespace get_ssh_private_key
    get_vmi_ip_address connect_ssh
connected_not-Tried = record { read = refl; in_time = refl; no_error = λ e h. cc; stays = refl }

handle_ssh_connecting_phase-ends_example :
    ((status_in connected_not.world).phase ≡ ssh_connecting)
    × ((status_in connected_not.world).ssh_retries ≡ 1 + 0)
    × (1 + 0 ≤ 24)
handle_ssh_connecting_phase-ends_example =
    handle_ssh_connecting_phase-ends cluster status_in cluster-IsServer ""
      (in_phase ssh_connecting).status (status_in connected_not.world) 1
      (one_more 0 (stuck ssh_connecting) none_yet connected_not-Tried) refl (omega arith)
