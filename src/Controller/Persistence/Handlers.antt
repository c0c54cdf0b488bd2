-- ===== src/Controller/Persistence/Handlers.antt =====
-- The phase handlers, on the stored phase.
use vm_file_restore_operator.Base.{true, ◌≡◌, inl, inr, refl, String, Bool-cases}
use vm_file_restore_operator.Base.Texts.{is_empty}
use vm_file_restore_operator.Monad.{Action}
use vm_file_restore_operator.Controller.State.{St, Reply}
use vm_file_restore_operator.Types.{
  FileRestore, Status, RestorePhase, hotplugging, waiting_for_attachment, ssh_connecting, restoring,
  cleanup,
}
use vm_file_restore_operator.Monad.Rules.{Keeps, ends_rules, Ends-seq, Ends-bind}
use vm_file_restore_operator.Api.{Api}
use vm_file_restore_operator.Server.{IsServer}
use vm_file_restore_operator.Controller.Graph.{
  may_fail, ◌⟶◌, plug, attach, connect, mount, copy, finish,
}
use vm_file_restore_operator.Controller.Finish.{handle_cleanup_phase}
use vm_file_restore_operator.Controller.Lifted.{
  get_machine-Kept, get_instance-Kept, get_claim-Kept, get_snapshot-Kept, run-Kept, close-Kept,
  hotplug_volume-Kept, unplug_volume-Kept, get_vmi_ip_address-Kept, get_ssh_private_key-Kept,
  connect_ssh-Kept,
}
use vm_file_restore_operator.Controller.Both.{
  set_status-Keeps, now-Keeps-Holds, record_event-Keeps, Ends-the_restore,
}
use vm_file_restore_operator.Controller.Init.{handle_init_phase, start_hotplug}
use vm_file_restore_operator.Controller.Attachment.{
  handle_hotplugging_phase, handle_waiting_for_attachment_phase, attachment_check, rate_limit,
  reset_attachment_retries,
}
use vm_file_restore_operator.Controller.Restoring.{
  handle_ssh_connecting_phase, ssh_check, handle_restoring_phase, reset_ssh_retries, closing,
  finish_restore, restored_status, phase_after_restore,
}
use vm_file_restore_operator.Controller.Persistence.Start.{
  Near, At, enter-Keeps, transition_phase-Keeps, fail_restore-Keeps, patch-Keeps,
  increment_retry-Keeps,
}

module _ (p0 : RestorePhase) (api : Api) (stored : api.World → Status)
    (server : IsServer api stored) (namespace : String) where
  open api use {World}

  pub hotplugging_phase-Keeps :
      Keeps (At p0 hotplugging api stored server) (handle_hotplugging_phase api namespace)
  unfolding handle_hotplugging_phase
  hotplugging_phase-Keeps =
      let p : RestorePhase = hotplugging in
      search
        (
          ends_rules,
          Ends-the_restore api stored server (Near p0 p) (Near p0 p),
          get_machine-Kept api stored server (Near p0 p) (Near p0 p),
          hotplug_volume-Kept api stored server (Near p0 p) (Near p0 p),
          record_event-Keeps api stored server (Near p0 p) (Near p0 p),
          plug,
          transition_phase-Keeps p0 p api stored server,
          fail_restore-Keeps p0 p api stored server,
        )
        depth 9

  -- From the empty phase, `New` and `Init`.
  pub init_phase-Keeps :
      (p : RestorePhase)
      → p ⟶ hotplugging
      → may_fail p ≡ true
      → Keeps (At p0 p api stored server) (handle_init_phase api namespace)
  unfolding handle_init_phase start_hotplug
  init_phase-Keeps p accept fails =
      search
        (
          ends_rules,
          Ends-the_restore api stored server (Near p0 p) (Near p0 p),
          set_status-Keeps api stored server (Near p0 p) (Near p0 p),
          get_machine-Kept api stored server (Near p0 p) (Near p0 p),
          get_instance-Kept api stored server (Near p0 p) (Near p0 p),
          get_claim-Kept api stored server (Near p0 p) (Near p0 p),
          get_snapshot-Kept api stored server (Near p0 p) (Near p0 p),
          patch-Keeps p0 p api stored server,
          accept,
          fails,
          transition_phase-Keeps p0 p api stored server,
          fail_restore-Keeps p0 p api stored server,
        )
        depth 25

  pub waiting_phase-Keeps :
      Keeps
        (At p0 waiting_for_attachment api stored server)
        (handle_waiting_for_attachment_phase api namespace)
  unfolding handle_waiting_for_attachment_phase attachment_check rate_limit reset_attachment_retries
  waiting_phase-Keeps =
      let p : RestorePhase = waiting_for_attachment in
      search
        (
          ends_rules,
          Ends-the_restore api stored server (Near p0 p) (Near p0 p),
          set_status-Keeps api stored server (Near p0 p) (Near p0 p),
          get_instance-Kept api stored server (Near p0 p) (Near p0 p),
          now-Keeps-Holds api stored server,
          patch-Keeps p0 p api stored server,
          increment_retry-Keeps p0 p api stored server,
          attach,
          transition_phase-Keeps p0 p api stored server,
          fail_restore-Keeps p0 p api stored server,
        )
        depth 25

  -- The connection is closed after the body, wherever that has led.
  closing-Keeps :
      (p : RestorePhase) (c : api.Connection) (body : Action (St World) Reply)
      → Keeps (At p0 p api stored server) body
      → Keeps (At p0 p api stored server) (closing api namespace c body)
  unfolding closing
  closing-Keeps p c body e =
      Ends-bind _ _ e
        λ reply. search (ends_rules, close-Kept api stored server (Near p0 p) (Near p0 p))

  pub ssh_connecting_phase-Keeps :
      Keeps (At p0 ssh_connecting api stored server) (handle_ssh_connecting_phase api namespace)
  unfolding handle_ssh_connecting_phase ssh_check rate_limit reset_ssh_retries
  ssh_connecting_phase-Keeps =
      let p : RestorePhase = ssh_connecting in
      search
        (
          ends_rules,
          Ends-the_restore api stored server (Near p0 p) (Near p0 p),
          set_status-Keeps api stored server (Near p0 p) (Near p0 p),
          get_instance-Kept api stored server (Near p0 p) (Near p0 p),
          get_vmi_ip_address-Kept api stored server (Near p0 p) (Near p0 p),
          get_ssh_private_key-Kept api stored server (Near p0 p) (Near p0 p),
          connect_ssh-Kept api stored server (Near p0 p) (Near p0 p),
          now-Keeps-Holds api stored server,
          patch-Keeps p0 p api stored server,
          closing-Keeps p,
          increment_retry-Keeps p0 p api stored server,
          connect,
          transition_phase-Keeps p0 p api stored server,
          fail_restore-Keeps p0 p api stored server,
        )
        depth 30

  pub cleanup_phase-Keeps :
      Keeps (At p0 cleanup api stored server) (handle_cleanup_phase api namespace)
  unfolding handle_cleanup_phase
  cleanup_phase-Keeps =
      let p : RestorePhase = cleanup in
      search
        (
          ends_rules,
          Ends-the_restore api stored server (Near p0 p) (Near p0 p),
          get_machine-Kept api stored server (Near p0 p) (Near p0 p),
          get_instance-Kept api stored server (Near p0 p) (Near p0 p),
          unplug_volume-Kept api stored server (Near p0 p) (Near p0 p),
          record_event-Keeps api stored server (Near p0 p) (Near p0 p),
          finish,
          transition_phase-Keeps p0 p api stored server,
          fail_restore-Keeps p0 p api stored server,
        )
        depth 30

  mode-⟶ : (v : FileRestore) → restoring ⟶ phase_after_restore v
  unfolding phase_after_restore
  mode-⟶ v = elim (Bool-cases (is_empty v.spec.source_path)) [
    | inl manual ↦ rw manual mount
    | inr automatic ↦ rw automatic copy
  ]

  phase-restored_status :
      (v : FileRestore) (stdout : String) (st : Status)
      → (restored_status v stdout st).phase ≡ phase_after_restore v
  unfolding restored_status
  phase-restored_status v stdout st = elim (Bool-cases (is_empty v.spec.source_path)) [
    | inl manual ↦ rw manual refl
    | inr automatic ↦ rw automatic refl
  ]

  finish_restore-Keeps :
      (stdout : String)
      → Keeps (At p0 restoring api stored server) (finish_restore api namespace stdout)
  unfolding finish_restore
  finish_restore-Keeps stdout =
      Ends-the_restore api stored server (Near p0 restoring) (Near p0 restoring) _ λ v at.
        Ends-seq _ _
          (enter-Keeps p0 restoring api stored server (phase_after_restore v) _ (mode-⟶ v)
            (phase-restored_status v stdout))
          (Ends-bind _ _ (patch-Keeps p0 restoring api stored server v) λ answer. search (
            ends_rules,
            record_event-Keeps api stored server (Near p0 restoring) (Near p0 restoring),
          ))

  pub restoring_phase-Keeps :
      Keeps (At p0 restoring api stored server) (handle_restoring_phase api namespace)
  unfolding handle_restoring_phase
  restoring_phase-Keeps =
      let p : RestorePhase = restoring in
      search
        (
          ends_rules,
          Ends-the_restore api stored server (Near p0 p) (Near p0 p),
          get_instance-Kept api stored server (Near p0 p) (Near p0 p),
          get_vmi_ip_address-Kept api stored server (Near p0 p) (Near p0 p),
          get_ssh_private_key-Kept api stored server (Near p0 p) (Near p0 p),
          connect_ssh-Kept api stored server (Near p0 p) (Near p0 p),
          run-Kept api stored server (Near p0 p) (Near p0 p),
          closing-Keeps p,
          finish_restore-Keeps,
          fail_restore-Keeps p0 p api stored server,
        )
        depth 30
