-- ===== src/Tests/Replies.antt =====
-- The theorems on replies, on the finalizer and on the waiting, at concrete inputs.
use vm_file_restore_operator.Base.{false, ◌≡◌, ◌≢◌, ◌*◌, ◌≤◌, refl, arith, some, [], ◌∷◌}
use vm_file_restore_operator.Monad.{pure, on_result, on_option, ◌>>=◌, ◌>>◌}
use vm_file_restore_operator.Controller.State.{
  lift, set_status, the_restore, store_patched, patch_status, record_event, now,
}
use vm_file_restore_operator.Controller.Reconcile.{
  get_phase_handler, run_phase_handler, handle_live, reconcile,
}
use vm_file_restore_operator.Controller.Init.{
  source_count, get_source_name, handle_init_phase, start_hotplug,
}
use vm_file_restore_operator.Controller.Steps.{
  stamp, transition_phase, fail_restore, increment_retry_and_requeue, backoff,
}
use vm_file_restore_operator.Controller.Attachment.{
  handle_hotplugging_phase, reset_attachment_retries, rate_limit, attachment_check,
  handle_waiting_for_attachment_phase,
}
use vm_file_restore_operator.Controller.Restoring.{
  reported_count, phase_after_restore, restored_status, closing, reset_ssh_retries, ssh_check,
  handle_ssh_connecting_phase, finish_restore, handle_restoring_phase,
}
use vm_file_restore_operator.Controller.Finish.{handle_volume_ready_phase, handle_cleanup_phase}
use vm_file_restore_operator.Controller.Access.{get_operator_namespace, get_ssh_private_key}
use vm_file_restore_operator.Hotplug.Steps.{
  plug, plug_if_absent, hotplug_volume, delete_restored_volume, unplug_volume,
}
use vm_file_restore_operator.Hotplug.Names.{plugged, unplugged}
use vm_file_restore_operator.Hotplug.Source.{volume_source}
use vm_file_restore_operator.Network.{get_vmi_ip_address}
use vm_file_restore_operator.Os.{detect_guest_os, get_mount_path, get_helper_script_path}
use vm_file_restore_operator.Ssh.{
  connect_ssh, run_command_output, build_ssh_command, truncate_output,
}
use vm_file_restore_operator.FileCount.{parse_restored_file_count}
use vm_file_restore_operator.Base.Texts.{
  has_prefix, skip, has_suffix, contains, to_lower, trim_right, lines, join_lines,
}
use vm_file_restore_operator.Controller.Access.{
  cleanup, ssh_cleanup, run_cleanup, unplug_target, close_opened,
}
use vm_file_restore_operator.Controller.State.{stop_after}
use vm_file_restore_operator.Ssh.{build_cleanup_command}
use vm_file_restore_operator.Conditions.{set_condition}
use vm_file_restore_operator.Controller.Reconcile.{
  handle_deletion, remove_with_retry, remove_again, remove_finalizer,
}
use vm_file_restore_operator.Errors.{errorf}
use vm_file_restore_operator.Types.{Key, FileRestore, hotplugging, failed, unset}
use vm_file_restore_operator.Controller.State.{St, stop, requeue, second}
use vm_file_restore_operator.Controller.Stored.{fail_restore-Stored}
use vm_file_restore_operator.Controller.Pace.{backoff-grows}
use vm_file_restore_operator.Base.Texts.{is_empty}
use vm_file_restore_operator.Types.{restoring, RestorePhase}
use vm_file_restore_operator.Controller.Panics.{NoPanic, run_phase_handler-NoPanic}
use vm_file_restore_operator.Controller.Deletion.{Released, handle_deletion-Released}
use vm_file_restore_operator.Tests.Cluster.{
  Cluster, cluster, cluster-IsServer, status_in, start, new_restore,
}

abbrev key : Key
key = record { name = "r1"; namespace = "vms" }

abbrev begun : St Cluster
begun = record { world = start "/home/user"; restore = new_restore "/home/user" }

unset≢hotplugging : unset ≢ hotplugging
unset≢hotplugging e = cc

unset≢failed : unset ≢ failed
unset≢failed e = cc

requeued : (transition_phase cluster hotplugging "go" begun).0 ≡ requeue
unfolding pure on_result on_option ◌>>=◌ ◌>>◌ lift set_status the_restore store_patched patch_status
    record_event now get_phase_handler run_phase_handler handle_live reconcile source_count
    get_source_name handle_init_phase start_hotplug stamp transition_phase fail_restore
    increment_retry_and_requeue backoff handle_hotplugging_phase reset_attachment_retries rate_limit
    attachment_check handle_waiting_for_attachment_phase reported_count phase_after_restore
    restored_status closing reset_ssh_retries ssh_check handle_ssh_connecting_phase finish_restore
    handle_restoring_phase handle_volume_ready_phase handle_cleanup_phase get_operator_namespace
    get_ssh_private_key plug plug_if_absent hotplug_volume delete_restored_volume unplug_volume
    plugged unplugged volume_source get_vmi_ip_address detect_guest_os get_mount_path
    get_helper_script_path connect_ssh run_command_output build_ssh_command truncate_output
    parse_restored_file_count has_prefix skip has_suffix contains to_lower trim_right lines
    join_lines
requeued = refl

stopped : (fail_restore cluster "" (errorf "no source specified") "none" begun).0 ≡ stop
unfolding pure on_result on_option ◌>>=◌ ◌>>◌ lift set_status the_restore store_patched patch_status
    record_event now get_phase_handler run_phase_handler handle_live reconcile source_count
    get_source_name handle_init_phase start_hotplug stamp transition_phase fail_restore
    increment_retry_and_requeue backoff handle_hotplugging_phase reset_attachment_retries rate_limit
    attachment_check handle_waiting_for_attachment_phase reported_count phase_after_restore
    restored_status closing reset_ssh_retries ssh_check handle_ssh_connecting_phase finish_restore
    handle_restoring_phase handle_volume_ready_phase handle_cleanup_phase get_operator_namespace
    get_ssh_private_key plug plug_if_absent hotplug_volume delete_restored_volume unplug_volume
    plugged unplugged volume_source get_vmi_ip_address detect_guest_os get_mount_path
    get_helper_script_path connect_ssh run_command_output build_ssh_command truncate_output
    parse_restored_file_count has_prefix skip has_suffix contains to_lower trim_right lines
    join_lines cleanup ssh_cleanup run_cleanup unplug_target stop_after close_opened
    build_cleanup_command handle_deletion remove_with_retry remove_again remove_finalizer
    set_condition
stopped = refl

fail_restore-Stored_example :
    (status_in (fail_restore cluster "" (errorf "no source specified") "none" begun).1.world).phase
    ≡ failed
fail_restore-Stored_example =
    fail_restore-Stored cluster status_in cluster-IsServer begun "" (errorf "no source specified")
      "none" unset≢failed stopped

abbrev deleted : FileRestore
deleted = record (new_restore "/home/user") { deletion_timestamp = some 5 }

done_deleting : (handle_deletion cluster "" key deleted (start "/home/user")).0 ≡ stop
unfolding pure on_result on_option ◌>>=◌ ◌>>◌ lift set_status the_restore store_patched patch_status
    record_event now get_phase_handler run_phase_handler handle_live reconcile source_count
    get_source_name handle_init_phase start_hotplug stamp transition_phase fail_restore
    increment_retry_and_requeue backoff handle_hotplugging_phase reset_attachment_retries rate_limit
    attachment_check handle_waiting_for_attachment_phase reported_count phase_after_restore
    restored_status closing reset_ssh_retries ssh_check handle_ssh_connecting_phase finish_restore
    handle_restoring_phase handle_volume_ready_phase handle_cleanup_phase get_operator_namespace
    get_ssh_private_key plug plug_if_absent hotplug_volume delete_restored_volume unplug_volume
    plugged unplugged volume_source get_vmi_ip_address detect_guest_os get_mount_path
    get_helper_script_path connect_ssh run_command_output build_ssh_command truncate_output
    parse_restored_file_count has_prefix skip has_suffix contains to_lower trim_right lines
    join_lines cleanup ssh_cleanup run_cleanup unplug_target stop_after close_opened
    build_cleanup_command handle_deletion remove_with_retry remove_again remove_finalizer
    set_condition
done_deleting = refl

handle_deletion-Released_example :
    Released cluster "" key deleted
      (start "/home/user")
      (handle_deletion cluster "" key deleted (start "/home/user")).1
handle_deletion-Released_example =
    handle_deletion-Released cluster "" key deleted (start "/home/user") refl done_deleting

abbrev bare : FileRestore
bare = record (new_restore "") { finalizers = "other" ∷ [] }

backoff-grows_example :
    (5 * second ≤ backoff (5 * second) 4)
    × (backoff (5 * second) 12 ≤ 30 * second)
    × (backoff (5 * second) 4 ≤ backoff (5 * second) 12)
backoff-grows_example = backoff-grows (5 * second) 4 12 (omega arith) (omega arith)

-- The last check was one nanosecond ago, by the cluster's clock.
abbrev checked : St Cluster
checked = record {
  world = start "/home/user";
  restore = record (new_restore "/home/user") {
    status = record (new_restore "/home/user").status {
      last_attachment_check_time = some 999;
      last_ssh_check_time = some 999;
      attachment_retries = 3;
    };
  };
}

-- A restore whose volume is mounted and that is about to run the restore command.
abbrev mounted : St Cluster
mounted = record {
  world = start "/home/user";
  restore = record (new_restore "/home/user") {
    status = record (new_restore "/home/user").status {
      phase = restoring;
      mount_path = "/backup-backup";
    };
  };
}

has_mount_path :
    ◌≡◌ {A = RestorePhase} restoring restoring → is_empty mounted.restore.status.mount_path ≡ false
has_mount_path e = refl

run_phase_handler-NoPanic_example : NoPanic (run_phase_handler cluster "" restoring mounted).0
run_phase_handler-NoPanic_example =
    run_phase_handler-NoPanic cluster "" restoring mounted has_mount_path

-- The same restore, with the mount path stored too.
abbrev mounted_too : St Cluster
mounted_too = record mounted { world = record (start "/home/user") { restore = mounted.restore } }
