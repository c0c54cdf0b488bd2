-- ===== src/Tests/Phases.antt =====
-- Runs of the controller.
use vm_file_restore_operator.Base.{◌≡◌, ℕ, zero, suc, String, refl, arith, some}
use vm_file_restore_operator.Base.Decimal.{pos}
use vm_file_restore_operator.Types.{Key, succeeded, volume_ready}
use vm_file_restore_operator.Monad.{pure, on_result, on_option, ◌>>=◌, ◌>>◌}
use vm_file_restore_operator.Controller.State.{
  lift, set_status, the_restore, store_patched, patch_status, record_event, now,
}
use vm_file_restore_operator.Controller.Reconcile.{
  get_phase_handler, run_phase_handler, handle_live, reconcile,
}
use vm_file_restore_operator.Controller.Init.{
  source_count, get_source_name, handle_init_phase, start_hotplug,
}
use vm_file_restore_operator.Controller.Steps.{
  stamp, transition_phase, fail_restore, increment_retry_and_requeue, backoff,
}
use vm_file_restore_operator.Controller.Attachment.{
  handle_hotplugging_phase, reset_attachment_retries, rate_limit, attachment_check,
  handle_waiting_for_attachment_phase,
}
use vm_file_restore_operator.Controller.Restoring.{
  reported_count, phase_after_restore, restored_status, closing, reset_ssh_retries, ssh_check,
  handle_ssh_connecting_phase, finish_restore, handle_restoring_phase,
}
use vm_file_restore_operator.Controller.Finish.{handle_volume_ready_phase, handle_cleanup_phase}
use vm_file_restore_operator.Controller.Access.{get_operator_namespace, get_ssh_private_key}
use vm_file_restore_operator.Hotplug.Steps.{
  plug, plug_if_absent, hotplug_volume, delete_restored_volume, unplug_volume,
}
use vm_file_restore_operator.Hotplug.Names.{plugged, unplugged}
use vm_file_restore_operator.Hotplug.Source.{volume_source}
use vm_file_restore_operator.Network.{get_vmi_ip_address}
use vm_file_restore_operator.Os.{detect_guest_os, get_mount_path, get_helper_script_path}
use vm_file_restore_operator.Ssh.{
  connect_ssh, run_command_output, build_ssh_command, truncate_output,
}
use vm_file_restore_operator.FileCount.{parse_restored_file_count}
use vm_file_restore_operator.Base.Texts.{
  has_prefix, skip, has_suffix, contains, to_lower, trim_right, lines, join_lines,
}
use vm_file_restore_operator.Tests.Cluster.{
  Cluster, cluster, cluster-IsServer, status_in, start, new_restore, reading, reading-IsServer,
}
use vm_file_restore_operator.Api.{Api}
use vm_file_restore_operator.Errors.{ok}
use vm_file_restore_operator.Server.{IsServer, Sees}
use vm_file_restore_operator.Types.{FileRestore}
use vm_file_restore_operator.Base.{◌⊎◌}
use vm_file_restore_operator.Base.{◌∙◌, sym, ap, none, [], ◌∷◌}
use vm_file_restore_operator.Types.{
  hotplugging, waiting_for_attachment, ssh_connecting, restoring, cleanup,
}
use vm_file_restore_operator.Controller.Graph.{Moves, is_settled}
use vm_file_restore_operator.Controller.Runs.{Runs, here, after, reconciled, Visits}
use vm_file_restore_operator.Controller.Runs.Order.{Runs-settled, Runs-never_back, Runs-InRange}
use vm_file_restore_operator.Controller.Panics.{NoPanic}
use vm_file_restore_operator.Controller.Mount.{Ready}
use vm_file_restore_operator.Controller.Mount.Safety.{Runs-NoPanic}
use vm_file_restore_operator.Controller.Runs.Stages.{Runs-succeeded}
use vm_file_restore_operator.Controller.Bounds.Steps.{InRange}
use vm_file_restore_operator.Controller.Persistence.Reconciling.{reconcile-Moves}

abbrev key : Key
key = record { name = "r1"; namespace = "vms" }

abbrev path : String
path = "/home/user"

-- The cluster after some reconciliations of a new restore.
abbrev reconcile_times : ℕ → Cluster → Cluster
reconcile_times zero w = w
reconcile_times (suc n) w = reconcile_times n (reconcile cluster "" key w).1

sees : (w : Cluster) → Sees cluster status_in key w
sees w v e = cc

runs : (n : ℕ) (w : Cluster) → Runs cluster status_in "" w (reconcile_times n w)
runs zero w = here w
runs (suc n) w = after (reconciled key w (sees w)) (runs n (reconcile cluster "" key w).1)

-- Six reconciliations take the restore to its end.
succeeds :
    ((status_in (reconcile_times 1 (start path))).phase ≡ hotplugging)
    × ((status_in (reconcile_times 4 (start path))).phase ≡ restoring)
    × ((status_in (reconcile_times 6 (start path))).phase ≡ succeeded)
    × ((status_in (reconcile_times 8 (start path))).phase ≡ succeeded)
    × ((status_in (reconcile_times 6 (start path))).restored_files_count ≡ some (pos 3))
    × ((reconcile_times 6 (start path)).machine.volumes ≡ [])
unfolding pure on_result on_option ◌>>=◌ ◌>>◌ lift set_status the_restore store_patched patch_status
    record_event now get_phase_handler run_phase_handler handle_live reconcile source_count
    get_source_name handle_init_phase start_hotplug stamp transition_phase fail_restore
    increment_retry_and_requeue backoff handle_hotplugging_phase reset_attachment_retries rate_limit
    attachment_check handle_waiting_for_attachment_phase reported_count phase_after_restore
    restored_status closing reset_ssh_retries ssh_check handle_ssh_connecting_phase finish_restore
    handle_restoring_phase handle_volume_ready_phase handle_cleanup_phase get_operator_namespace
    get_ssh_private_key plug plug_if_absent hotplug_volume delete_restored_volume unplug_volume
    plugged unplugged volume_source get_vmi_ip_address detect_guest_os get_mount_path
    get_helper_script_path connect_ssh run_command_output build_ssh_command truncate_output
    parse_restored_file_count has_prefix skip has_suffix contains to_lower trim_right lines
    join_lines
succeeds = (refl, refl, refl, refl, refl, refl)

-- Without a source path the restore waits for the user, with the volume plugged.
waits :
    ((status_in (reconcile_times 5 (start ""))).phase ≡ volume_ready)
    × ((status_in (reconcile_times 5 (start ""))).restored_files_count ≡ none)
unfolding pure on_result on_option ◌>>=◌ ◌>>◌ lift set_status the_restore store_patched patch_status
    record_event now get_phase_handler run_phase_handler handle_live reconcile source_count
    get_source_name handle_init_phase start_hotplug stamp transition_phase fail_restore
    increment_retry_and_requeue backoff handle_hotplugging_phase reset_attachment_retries rate_limit
    attachment_check handle_waiting_for_attachment_phase reported_count phase_after_restore
    restored_status closing reset_ssh_retries ssh_check handle_ssh_connecting_phase finish_restore
    handle_restoring_phase handle_volume_ready_phase handle_cleanup_phase get_operator_namespace
    get_ssh_private_key plug plug_if_absent hotplug_volume delete_restored_volume unplug_volume
    plugged unplugged volume_source get_vmi_ip_address detect_guest_os get_mount_path
    get_helper_script_path connect_ssh run_command_output build_ssh_command truncate_output
    parse_restored_file_count has_prefix skip has_suffix contains to_lower trim_right lines
    join_lines
waits = (refl, refl)

-- A cluster whose cache still has the new object, whatever is stored.
abbrev stale : Api
stale = reading (λ w. new_restore path)

stale-IsServer : IsServer stale status_in
stale-IsServer = reading-IsServer _

-- The plugging starts again from the old object, and the phase with it.
reconcile-Moves_example :
    ((status_in (reconcile stale "" key (reconcile_times 4 (start path))).1).phase
      ≡ (status_in (reconcile_times 4 (start path))).phase)
    ⊎ ((v : FileRestore) × ((stale.get_restore key (reconcile_times 4 (start path))).0 ≡ ok v)
        × Moves v.status.phase
            (status_in (reconcile stale "" key (reconcile_times 4 (start path))).1).phase)
reconcile-Moves_example =
    reconcile-Moves stale status_in stale-IsServer "" key (reconcile_times 4 (start path))

-- Where the cache is one write behind, a phase that was reached is left again.
stale_repeats :
    ((status_in (reconcile_times 4 (start path))).phase ≡ restoring)
    × ((status_in (reconcile stale "" key (reconcile_times 4 (start path))).1).phase ≡ hotplugging)
unfolding pure on_result on_option ◌>>=◌ ◌>>◌ lift set_status the_restore store_patched patch_status
    record_event now get_phase_handler run_phase_handler handle_live reconcile source_count
    get_source_name handle_init_phase start_hotplug stamp transition_phase fail_restore
    increment_retry_and_requeue backoff handle_hotplugging_phase reset_attachment_retries rate_limit
    attachment_check handle_waiting_for_attachment_phase reported_count phase_after_restore
    restored_status closing reset_ssh_retries ssh_check handle_ssh_connecting_phase finish_restore
    handle_restoring_phase handle_volume_ready_phase handle_cleanup_phase get_operator_namespace
    get_ssh_private_key plug plug_if_absent hotplug_volume delete_restored_volume unplug_volume
    plugged unplugged volume_source get_vmi_ip_address detect_guest_os get_mount_path
    get_helper_script_path connect_ssh run_command_output build_ssh_command truncate_output
    parse_restored_file_count has_prefix skip has_suffix contains to_lower trim_right lines
    join_lines
stale_repeats = (refl, refl)

fresh_counters : InRange 60 24 (status_in (start path))
fresh_counters = record { attachment_le = omega arith; ssh_le = omega arith }

not_mounting : Ready (status_in (start path))
not_mounting h = cc

Runs-NoPanic_example : NoPanic (reconcile cluster "" key (reconcile_times 4 (start path))).0
Runs-NoPanic_example =
    Runs-NoPanic cluster status_in cluster-IsServer "" key (start path)
      (reconcile_times 4 (start path)) (runs 4 (start path)) not_mounting
      (sees (reconcile_times 4 (start path)))

Runs-InRange_example : InRange 60 24 (status_in (reconcile_times 6 (start path)))
Runs-InRange_example =
    Runs-InRange cluster status_in cluster-IsServer "" (start path) (reconcile_times 6 (start path))
      (runs 6 (start path)) fresh_counters

Runs-succeeded_example :
    Visits cluster status_in ""
      (hotplugging ∷ waiting_for_attachment ∷ ssh_connecting ∷ restoring ∷ cleanup ∷ succeeded ∷ [])
      (start path)
      (reconcile_times 6 (start path))
Runs-succeeded_example =
    Runs-succeeded cluster status_in cluster-IsServer "" (start path)
      (reconcile_times 6 (start path)) (runs 6 (start path)) refl succeeds.2

Runs-settled_example :
    (status_in (reconcile_times 1 (reconcile_times 6 (start path)))).phase
    ≡ (status_in (reconcile_times 6 (start path))).phase
Runs-settled_example =
    Runs-settled cluster status_in cluster-IsServer "" (reconcile_times 6 (start path))
      (reconcile_times 1 (reconcile_times 6 (start path))) (runs 1 (reconcile_times 6 (start path)))
      (ap is_settled succeeds.2)

Runs-never_back_example :
    (status_in (reconcile_times 7 (start path))).phase
    ≡ (status_in (reconcile_times 6 (start path))).phase
Runs-never_back_example =
    Runs-never_back cluster status_in cluster-IsServer "" (reconcile_times 6 (start path))
      (reconcile_times 7 (start path)) (reconcile_times 8 (start path))
      (runs 1 (reconcile_times 6 (start path))) (runs 1 (reconcile_times 7 (start path)))
      (succeeds.3 ∙ sym succeeds.2)
