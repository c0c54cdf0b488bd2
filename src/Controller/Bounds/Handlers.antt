-- ===== src/Controller/Bounds/Handlers.antt =====
-- The phase handlers, on the stored retry counters.
use vm_file_restore_operator.Base.{◌≡◌, ◌≤◌, ℕ, inl, inr, refl, String, arith, Bool-cases}
use native.Mathlib.Nat.{le_refl}
use Prim.Native.Nat.{zero-le}
use vm_file_restore_operator.Base.Texts.{is_empty}
use vm_file_restore_operator.Types.{FileRestore, Status}
use vm_file_restore_operator.Monad.{Action}
use vm_file_restore_operator.Monad.Rules.{Ends, ends_rules, Ends-seq, Ends-step}
use vm_file_restore_operator.Api.{Api}
use vm_file_restore_operator.Server.{IsServer}
use vm_file_restore_operator.Controller.State.{St, Reply}
use vm_file_restore_operator.Controller.Init.{handle_init_phase, start_hotplug}
use vm_file_restore_operator.Controller.Attachment.{
  handle_hotplugging_phase, attachment_check, rate_limit, reset_attachment_retries,
}
use vm_file_restore_operator.Controller.Restoring.{
  handle_restoring_phase, ssh_check, reset_ssh_retries, closing, finish_restore, restored_status,
}
use vm_file_restore_operator.Controller.Finish.{handle_cleanup_phase}
use vm_file_restore_operator.Controller.Lifted.{
  get_machine-Kept, get_instance-Kept, get_claim-Kept, get_snapshot-Kept, run-Kept, close-Kept,
  hotplug_volume-Kept, unplug_volume-Kept, get_vmi_ip_address-Kept, get_ssh_private_key-Kept,
  connect_ssh-Kept,
}
use vm_file_restore_operator.Controller.Both.{
  now-Keeps-Holds, record_event-Keeps, the_restore-Keeps, Ends-the_restore,
}
use vm_file_restore_operator.Controller.Bounds.Steps.{
  InRange, patch-Ends, assign-Keeps, transition_phase-Ends, fail_restore-Ends, At, To, Ends-pure,
  patch-Keeps, transition_phase-Ends, fail_restore-Ends, attachment_retry-Ends, ssh_retry-Ends,
}

module _ (api : Api) (stored : api.World → Status) (server : IsServer api stored)
    (namespace : String) where
  open api use {World}

  pub hotplugging-Ends :
      Ends
        (At api stored server 60 24 (omega arith) (omega arith))
        (λ _. To api stored server 60 24 (omega arith) (omega arith))
        (handle_hotplugging_phase api namespace)
  unfolding handle_hotplugging_phase
  hotplugging-Ends =
      search
        (
          ends_rules,
          the_restore-Keeps api stored server,
          get_machine-Kept api stored server (InRange 60 24) (InRange 60 24),
          hotplug_volume-Kept api stored server (InRange 60 24) (InRange 60 24),
          record_event-Keeps api stored server (InRange 60 24) (InRange 60 24),
          Ends-pure api stored server 60 24 (omega arith) (omega arith),
          transition_phase-Ends api stored server 60 24 (omega arith) (omega arith),
          fail_restore-Ends api stored server 60 24 (omega arith) (omega arith),
        )
        depth 9

  pub init-Ends :
      Ends
        (At api stored server 60 24 (omega arith) (omega arith))
        (λ _. To api stored server 60 24 (omega arith) (omega arith))
        (handle_init_phase api namespace)
  unfolding handle_init_phase start_hotplug
  init-Ends =
      search
        (
          ends_rules,
          the_restore-Keeps api stored server,
          assign-Keeps api stored server 60 24 (omega arith) (omega arith),
          le_refl,
          get_machine-Kept api stored server (InRange 60 24) (InRange 60 24),
          get_instance-Kept api stored server (InRange 60 24) (InRange 60 24),
          get_claim-Kept api stored server (InRange 60 24) (InRange 60 24),
          get_snapshot-Kept api stored server (InRange 60 24) (InRange 60 24),
          patch-Keeps api stored server 60 24 (omega arith) (omega arith),
          Ends-pure api stored server 60 24 (omega arith) (omega arith),
          transition_phase-Ends api stored server 60 24 (omega arith) (omega arith),
          fail_restore-Ends api stored server 60 24 (omega arith) (omega arith),
        )
        depth 25

  pub attachment_check-Ends :
      (vmfr : FileRestore)
      → Ends
          (At api stored server 59 24 (omega arith) (omega arith))
          (λ _. To api stored server 59 24 (omega arith) (omega arith))
          (attachment_check api namespace vmfr)
  unfolding attachment_check rate_limit reset_attachment_retries
  attachment_check-Ends vmfr =
      search
        (
          ends_rules,
          the_restore-Keeps api stored server,
          assign-Keeps api stored server 59 24 (omega arith) (omega arith),
          le_refl,
          zero-le,
          get_instance-Kept api stored server (InRange 59 24) (InRange 59 24),
          now-Keeps-Holds api stored server,
          patch-Keeps api stored server 59 24 (omega arith) (omega arith),
          attachment_retry-Ends api stored server,
          Ends-pure api stored server 59 24 (omega arith) (omega arith),
          transition_phase-Ends api stored server 59 24 (omega arith) (omega arith),
          fail_restore-Ends api stored server 59 24 (omega arith) (omega arith),
        )
        depth 25

  -- The connection is closed after the body, wherever that has led.
  closing-Ends :
      (a b : ℕ) (ha : a ≤ 60) (hb : b ≤ 24) (c : api.Connection) (body : Action (St World) Reply)
      → Ends (At api stored server a b ha hb) (λ _. To api stored server a b ha hb) body
      → Ends
          (At api stored server a b ha hb)
          (λ _. To api stored server a b ha hb)
          (closing api namespace c body)
  unfolding closing
  closing-Ends a b ha hb c body e =
      Ends-step _ _ e
        λ reply. search (ends_rules, close-Kept api stored server (λ _. Unit {0}) (InRange 60 24))

  pub ssh_check-Ends :
      (vmfr : FileRestore)
      → Ends
          (At api stored server 60 23 (omega arith) (omega arith))
          (λ _. To api stored server 60 23 (omega arith) (omega arith))
          (ssh_check api namespace vmfr)
  unfolding ssh_check rate_limit reset_ssh_retries
  ssh_check-Ends vmfr =
      search
        (
          ends_rules,
          the_restore-Keeps api stored server,
          assign-Keeps api stored server 60 23 (omega arith) (omega arith),
          le_refl,
          zero-le,
          get_instance-Kept api stored server (InRange 60 23) (InRange 60 23),
          get_vmi_ip_address-Kept api stored server (InRange 60 23) (InRange 60 23),
          get_ssh_private_key-Kept api stored server (InRange 60 23) (InRange 60 23),
          connect_ssh-Kept api stored server (InRange 60 23) (InRange 60 23),
          now-Keeps-Holds api stored server,
          patch-Keeps api stored server 60 23 (omega arith) (omega arith),
          closing-Ends 60 23 (omega arith) (omega arith),
          ssh_retry-Ends api stored server,
          transition_phase-Ends api stored server 60 23 (omega arith) (omega arith),
          Ends-pure api stored server 60 23 (omega arith) (omega arith),
          fail_restore-Ends api stored server 60 23 (omega arith) (omega arith),
        )
        depth 30

  pub cleanup-Ends :
      Ends
        (At api stored server 60 24 (omega arith) (omega arith))
        (λ _. To api stored server 60 24 (omega arith) (omega arith))
        (handle_cleanup_phase api namespace)
  unfolding handle_cleanup_phase
  cleanup-Ends =
      search
        (
          ends_rules,
          the_restore-Keeps api stored server,
          get_machine-Kept api stored server (InRange 60 24) (InRange 60 24),
          get_instance-Kept api stored server (InRange 60 24) (InRange 60 24),
          unplug_volume-Kept api stored server (InRange 60 24) (InRange 60 24),
          record_event-Keeps api stored server (InRange 60 24) (InRange 60 24),
          transition_phase-Ends api stored server 60 24 (omega arith) (omega arith),
          Ends-pure api stored server 60 24 (omega arith) (omega arith),
          fail_restore-Ends api stored server 60 24 (omega arith) (omega arith),
        )
        depth 30

  counters-restored_status :
      (v : FileRestore) (stdout : String) (st : Status)
      → ((restored_status v stdout st).attachment_retries ≡ st.attachment_retries)
        × ((restored_status v stdout st).ssh_retries ≡ st.ssh_retries)
  unfolding restored_status
  counters-restored_status v stdout st = elim (Bool-cases (is_empty v.spec.source_path)) [
    | inl manual ↦ rw manual (refl, refl)
    | inr automatic ↦ rw automatic (refl, refl)
  ]

  finish_restore-Ends :
      (stdout : String)
      → Ends
          (At api stored server 60 24 (omega arith) (omega arith))
          (λ _. To api stored server 60 24 (omega arith) (omega arith))
          (finish_restore api namespace stdout)
  unfolding finish_restore
  finish_restore-Ends stdout =
      Ends-the_restore api stored server (InRange 60 24) (InRange 60 24) _ λ v at.
        Ends-seq _ _
          (assign-Keeps api stored server 60 24 (omega arith) (omega arith)
            (restored_status v stdout)
            (λ st. rw (counters-restored_status v stdout st).0 (le_refl _))
            (λ st. rw (counters-restored_status v stdout st).1 (le_refl _)))
          (Ends-step _ _ (patch-Ends api stored server 60 24 (omega arith) (omega arith) v)
            λ answer.
              search
                (ends_rules, record_event-Keeps api stored server (λ _. Unit {0}) (InRange 60 24)))

  pub restoring-Ends :
      Ends
        (At api stored server 60 24 (omega arith) (omega arith))
        (λ _. To api stored server 60 24 (omega arith) (omega arith))
        (handle_restoring_phase api namespace)
  unfolding handle_restoring_phase
  restoring-Ends =
      search
        (
          ends_rules,
          the_restore-Keeps api stored server,
          get_instance-Kept api stored server (InRange 60 24) (InRange 60 24),
          get_vmi_ip_address-Kept api stored server (InRange 60 24) (InRange 60 24),
          get_ssh_private_key-Kept api stored server (InRange 60 24) (InRange 60 24),
          connect_ssh-Kept api stored server (InRange 60 24) (InRange 60 24),
          run-Kept api stored server (InRange 60 24) (InRange 60 24),
          closing-Ends 60 24 (omega arith) (omega arith),
          finish_restore-Ends,
          Ends-pure api stored server 60 24 (omega arith) (omega arith),
          fail_restore-Ends api stored server 60 24 (omega arith) (omega arith),
        )
        depth 30
