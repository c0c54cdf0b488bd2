-- ===== src/Controller/Mount/Keeping.antt =====
-- The phase handlers that need a mount path, on the mount path.
use vm_file_restore_operator.Base.{◌≡◌, inl, inr, refl, String, Bool, Bool-cases}
use vm_file_restore_operator.Base.Texts.{is_empty}
use vm_file_restore_operator.Errors.{Error}
use vm_file_restore_operator.Types.{FileRestore, Status, Time, RestorePhase}
use vm_file_restore_operator.Monad.{Action}
use vm_file_restore_operator.Monad.Rules.{Keeps, ends_rules}
use vm_file_restore_operator.Api.{Api}
use vm_file_restore_operator.Server.{IsServer}
use vm_file_restore_operator.Controller.State.{St, Reply, set_status, patch_status}
use vm_file_restore_operator.Controller.Steps.{
  stamp, transition_phase, fail_restore, increment_retry_and_requeue, RetryType, attachment, ssh,
  count_retry,
}
use vm_file_restore_operator.Controller.Attachment.{
  handle_hotplugging_phase, handle_waiting_for_attachment_phase, attachment_check, rate_limit,
  reset_attachment_retries,
}
use vm_file_restore_operator.Controller.Restoring.{
  handle_ssh_connecting_phase, handle_restoring_phase, ssh_check, reset_ssh_retries, closing,
  finish_restore, restored_status,
}
use vm_file_restore_operator.Controller.Lifted.{
  get_machine-Kept, get_instance-Kept, run-Kept, close-Kept, hotplug_volume-Kept,
  get_vmi_ip_address-Kept, get_ssh_private_key-Kept, connect_ssh-Kept, cleanup-Kept,
}
use vm_file_restore_operator.Controller.Both.{
  Holds, set_status-Keeps, now-Keeps-Holds, record_event-Keeps, the_restore-Keeps,
  patch_status-Keeps,
}
use vm_file_restore_operator.Controller.Mount.{Filled, merge-Filled, same_path}

module _ (api : Api) (stored : api.World → Status) (server : IsServer api stored)
    (namespace : String) where
  open api use {World}

  abbrev pub Pathed : St World → Type 0
  Pathed = Holds api stored server Filled Filled

  pub patch-Keeps : (base : FileRestore) → Keeps Pathed (patch_status api base)
  patch-Keeps base = patch_status-Keeps api stored server Filled base (merge-Filled base.status)

  pub assign-Keeps :
      (f : Status → Status)
      → ((st : Status) → (f st).mount_path ≡ st.mount_path)
      → Keeps Pathed (set_status f)
  assign-Keeps f e =
      set_status-Keeps api stored server Filled Filled f λ st h. same_path st (f st) (e st) h

  refl_path : (st : Status) → st.mount_path ≡ st.mount_path
  refl_path st = refl

  stamp-Keeps :
      (due : Bool) (f : Time → Status → Status)
      → ((t : Time) (st : Status) → (f t st).mount_path ≡ st.mount_path)
      → Keeps Pathed (stamp api due f)
  unfolding stamp
  stamp-Keeps due f e = search (ends_rules, now-Keeps-Holds api stored server, assign-Keeps, e)

  pub transition_phase-Keeps :
      (q : RestorePhase) (message : String) → Keeps Pathed (transition_phase api q message)
  unfolding transition_phase
  transition_phase-Keeps q message =
      search
        (
          ends_rules,
          the_restore-Keeps api stored server,
          assign-Keeps,
          refl_path,
          stamp-Keeps,
          patch-Keeps,
          record_event-Keeps api stored server,
        )
        depth 15

  pub fail_restore-Keeps :
      (e : Error) (detail : String) → Keeps Pathed (fail_restore api namespace e detail)
  unfolding fail_restore
  fail_restore-Keeps e detail =
      search
        (
          ends_rules,
          the_restore-Keeps api stored server,
          now-Keeps-Holds api stored server,
          assign-Keeps,
          refl_path,
          patch-Keeps,
          record_event-Keeps api stored server,
          cleanup-Kept api stored server Filled Filled,
        )
        depth 20

  count_path : (k : RetryType) (st : Status) → (count_retry k st).mount_path ≡ st.mount_path
  count_path attachment st = refl
  count_path ssh st = refl

  increment-Keeps : (k : RetryType) (t : Time) → Keeps Pathed (increment_retry_and_requeue api k t)
  unfolding increment_retry_and_requeue
  increment-Keeps k t =
      search
        (ends_rules, the_restore-Keeps api stored server, assign-Keeps, count_path, patch-Keeps)
        depth 15

  closing-Keeps :
      (c : api.Connection) (body : Action (St World) Reply)
      → Keeps Pathed body
      → Keeps Pathed (closing api namespace c body)
  unfolding closing
  closing-Keeps c body e = search (ends_rules, close-Kept api stored server Filled Filled)

  restored_path :
      (v : FileRestore) (stdout : String) (st : Status)
      → (restored_status v stdout st).mount_path ≡ st.mount_path
  unfolding restored_status
  restored_path v stdout st = elim (Bool-cases (is_empty v.spec.source_path)) [
    | inl manual ↦ rw manual refl
    | inr automatic ↦ rw automatic refl
  ]

  finish_restore-Keeps : (stdout : String) → Keeps Pathed (finish_restore api namespace stdout)
  unfolding finish_restore
  finish_restore-Keeps stdout =
      search
        (
          ends_rules,
          the_restore-Keeps api stored server,
          assign-Keeps,
          restored_path,
          patch-Keeps,
          record_event-Keeps api stored server,
        )
        depth 15

  pub hotplugging-Keeps : Keeps Pathed (handle_hotplugging_phase api namespace)
  unfolding handle_hotplugging_phase
  hotplugging-Keeps =
      search
        (
          ends_rules,
          the_restore-Keeps api stored server,
          get_machine-Kept api stored server Filled Filled,
          hotplug_volume-Kept api stored server Filled Filled,
          record_event-Keeps api stored server,
          transition_phase-Keeps,
          fail_restore-Keeps,
        )
        depth 15

  pub waiting-Keeps : Keeps Pathed (handle_waiting_for_attachment_phase api namespace)
  unfolding handle_waiting_for_attachment_phase attachment_check rate_limit reset_attachment_retries
  waiting-Keeps =
      search
        (
          ends_rules,
          the_restore-Keeps api stored server,
          assign-Keeps,
          refl_path,
          get_instance-Kept api stored server Filled Filled,
          now-Keeps-Holds api stored server,
          patch-Keeps,
          increment-Keeps,
          transition_phase-Keeps,
          fail_restore-Keeps,
        )
        depth 25

  pub ssh_connecting-Keeps : Keeps Pathed (handle_ssh_connecting_phase api namespace)
  unfolding handle_ssh_connecting_phase ssh_check rate_limit reset_ssh_retries
  ssh_connecting-Keeps =
      search
        (
          ends_rules,
          the_restore-Keeps api stored server,
          assign-Keeps,
          refl_path,
          get_instance-Kept api stored server Filled Filled,
          get_vmi_ip_address-Kept api stored server Filled Filled,
          get_ssh_private_key-Kept api stored server Filled Filled,
          connect_ssh-Kept api stored server Filled Filled,
          now-Keeps-Holds api stored server,
          patch-Keeps,
          closing-Keeps,
          increment-Keeps,
          transition_phase-Keeps,
          fail_restore-Keeps,
        )
        depth 30

  pub restoring-Keeps : Keeps Pathed (handle_restoring_phase api namespace)
  unfolding handle_restoring_phase
  restoring-Keeps =
      search
        (
          ends_rules,
          the_restore-Keeps api stored server,
          get_instance-Kept api stored server Filled Filled,
          get_vmi_ip_address-Kept api stored server Filled Filled,
          get_ssh_private_key-Kept api stored server Filled Filled,
          connect_ssh-Kept api stored server Filled Filled,
          run-Kept api stored server Filled Filled,
          closing-Keeps,
          finish_restore-Keeps,
          fail_restore-Keeps,
        )
        depth 30
