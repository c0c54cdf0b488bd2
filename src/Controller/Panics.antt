-- ===== src/Controller/Panics.antt =====
-- The panics that the phase handlers can reach.
use vm_file_restore_operator.Base.{◌≡◌, refl, String, false}
use vm_file_restore_operator.Base.Texts.{is_empty}
use vm_file_restore_operator.Errors.{Error}
use vm_file_restore_operator.Types.{
  FileRestore, Time, RestorePhase, unset, new, init, hotplugging, waiting_for_attachment,
  ssh_connecting, restoring, volume_ready, cleanup, succeeded, failed, other,
}
use vm_file_restore_operator.Monad.{Action, pure, ◌>>=◌, ◌>>◌, on_option}
use vm_file_restore_operator.Monad.Rules.{
  Ends, Keeps, ends_rules, Ends-bind, Ends-seq, Ends-given, Ends-on_result, Ends-on_option, Ends-if,
}
use vm_file_restore_operator.Ssh.{build_ssh_command}
use vm_file_restore_operator.Hotplug.Names.{volume_name_of}
use vm_file_restore_operator.Hotplug.Naming.{volume_name_of-filled}
use vm_file_restore_operator.Api.{Api}
use vm_file_restore_operator.Controller.State.{
  St, Reply, requeue, fail, panicked, the_restore, lift,
}
use vm_file_restore_operator.Controller.Cleaning.{Ends-cleanup}
use vm_file_restore_operator.Controller.Steps.{
  transition_phase, fail_restore, increment_retry_and_requeue, RetryType,
}
use vm_file_restore_operator.Controller.Init.{handle_init_phase, start_hotplug}
use vm_file_restore_operator.Controller.Attachment.{
  handle_hotplugging_phase, handle_waiting_for_attachment_phase, attachment_check,
}
use vm_file_restore_operator.Controller.Restoring.{
  handle_ssh_connecting_phase, handle_restoring_phase, ssh_check, closing, finish_restore,
}
use vm_file_restore_operator.Controller.Finish.{handle_volume_ready_phase, handle_cleanup_phase}
use vm_file_restore_operator.Controller.Reconcile.{run_phase_handler}

abbrev pub NoPanic : Reply → Type 0
NoPanic (panicked _) = ⊥
NoPanic _ = Unit

module _ (api : Api) (namespace : String) where
  open api use {World}

  abbrev Free : St World → Type 0
  Free s = Unit {0}

  abbrev Calm : Reply → St World → Type 0
  Calm r s = NoPanic r

  free : {A : Type 0} (m : Action (St World) A) → Keeps Free m
  free m = record { at = λ s h. tt }

  calm : {P : St World → Type 0} (r : Reply) → NoPanic r → Ends P Calm (pure r)
  unfolding pure
  calm r n = record { at = λ s h. n }

  transition_phase-Calm :
      (q : RestorePhase) (message : String) → Ends Free Calm (transition_phase api q message)
  unfolding transition_phase
  transition_phase-Calm q message = Ends-bind _ _ (free _) λ base. Ends-seq _ _ (free _) (
      Ends-seq _ _ (free _) (
        Ends-seq _ _ (free _) (
          Ends-bind _ _ (free _) λ a.
            Ends-on_result _ _ _ (λ e. calm (fail e) tt)
              (λ _. Ends-seq _ _ (free _) (calm requeue tt)))))

  fail_restore-Calm :
      (e : Error) (detail : String) → Ends Free Calm (fail_restore api namespace e detail)
  unfolding fail_restore
  fail_restore-Calm e detail =
      search (Ends-cleanup api namespace, ends_rules, free, calm, tt) depth 12

  increment-Calm : (k : RetryType) (t : Time) → Ends Free Calm (increment_retry_and_requeue api k t)
  unfolding increment_retry_and_requeue
  increment-Calm k t = search (ends_rules, free, calm, tt) depth 12

  closing-Calm :
      {P : St World → Type 0} (c : api.Connection) (body : Action (St World) Reply)
      → Ends P Calm body
      → Ends P Calm (closing api namespace c body)
  unfolding closing ◌>>◌ ◌>>=◌ pure
  closing-Calm c body e =
      Ends-given body (λ r. lift (api.close c) >> pure r) e λ r. record { at = λ s n. n }

  init-Calm : Ends Free Calm (handle_init_phase api namespace)
  unfolding handle_init_phase start_hotplug
  init-Calm = search (ends_rules, free, calm, transition_phase-Calm, fail_restore-Calm, tt) depth 25

  hotplugging-Calm : Ends Free Calm (handle_hotplugging_phase api namespace)
  unfolding handle_hotplugging_phase
  hotplugging-Calm =
      search (ends_rules, free, calm, transition_phase-Calm, fail_restore-Calm, tt) depth 25

  waiting-Calm : Ends Free Calm (handle_waiting_for_attachment_phase api namespace)
  unfolding handle_waiting_for_attachment_phase attachment_check
  waiting-Calm =
      search (ends_rules, free, calm, transition_phase-Calm, fail_restore-Calm, increment-Calm, tt)
        depth 25

  ssh_connecting-Calm : Ends Free Calm (handle_ssh_connecting_phase api namespace)
  unfolding handle_ssh_connecting_phase ssh_check
  ssh_connecting-Calm =
      search
        (
          ends_rules, free, calm, closing-Calm, transition_phase-Calm, fail_restore-Calm,
          increment-Calm, tt,
        )
        depth 30

  cleanup-Calm : Ends Free Calm (handle_cleanup_phase api namespace)
  unfolding handle_cleanup_phase
  cleanup-Calm = search (ends_rules, free, calm, transition_phase-Calm, fail_restore-Calm) depth 30

  finish_restore-Calm : (stdout : String) → Ends Free Calm (finish_restore api namespace stdout)
  unfolding finish_restore
  finish_restore-Calm stdout = search (ends_rules, free, calm, tt) depth 12

  -- The object in memory has a mount path.
  abbrev Mounted : St World → Type 0
  Mounted s = is_empty s.restore.status.mount_path ≡ false

  lift-Mounted : {A : Type 0} (m : Action World A) → Keeps Mounted (lift m)
  unfolding lift
  lift-Mounted m = record { at = λ s h. h }

  weaken : (m : Action (St World) Reply) → Ends Free Calm m → Ends Mounted Calm m
  weaken m e = record { at = λ s h. e.at s tt }

  the_restore-Mounted :
      {B : Type 0} {Q : B → St World → Type 0} (f : FileRestore → Action (St World) B)
      → ((v : FileRestore) → is_empty v.status.mount_path ≡ false → Ends Mounted Q (f v))
      → Ends Mounted Q (the_restore >>= f)
  unfolding the_restore ◌>>=◌
  the_restore-Mounted f k = record { at = λ s h. (k s.restore h).at s h }

  -- With a mount path the restore command is built.
  built-Calm :
      (os n mount path : String) (absent : Action (St World) Reply)
      (present : String → Action (St World) Reply)
      → is_empty mount ≡ false
      → ((command : String) → Ends Mounted Calm (present command))
      → Ends Mounted Calm
          (on_option (build_ssh_command os (volume_name_of n) mount path) absent present)
  unfolding build_ssh_command on_option
  built-Calm os n mount path absent present h k = rw (volume_name_of-filled n, h) (k _)

  restoring-Calm : Ends Mounted Calm (handle_restoring_phase api namespace)
  unfolding handle_restoring_phase
  restoring-Calm =
      search
        (
          Ends-bind, Ends-on_result, Ends-if, the_restore-Mounted, lift-Mounted, built-Calm,
          Ends-on_option, closing-Calm, weaken, fail_restore-Calm, finish_restore-Calm,
        )
        depth 30

  -- No phase handler, and no giving up on an unknown phase with the cleanup that follows, panics for
  -- want of a mount path, whatever the calls answer, if the object has a mount path in the phase
  -- `Restoring`. (Names are not empty and the template of a machine is set.)
  pub run_phase_handler-NoPanic :
      (p : RestorePhase) (s : St World)
      → (p ≡ restoring → is_empty s.restore.status.mount_path ≡ false)
      → NoPanic (run_phase_handler api namespace p s).0
  unfolding run_phase_handler on_option handle_volume_ready_phase pure
  run_phase_handler-NoPanic unset s h = init-Calm.at s tt
  run_phase_handler-NoPanic new s h = init-Calm.at s tt
  run_phase_handler-NoPanic init s h = init-Calm.at s tt
  run_phase_handler-NoPanic hotplugging s h = hotplugging-Calm.at s tt
  run_phase_handler-NoPanic waiting_for_attachment s h = waiting-Calm.at s tt
  run_phase_handler-NoPanic ssh_connecting s h = ssh_connecting-Calm.at s tt
  run_phase_handler-NoPanic restoring s h = restoring-Calm.at s (h refl)
  run_phase_handler-NoPanic volume_ready s h = tt
  run_phase_handler-NoPanic cleanup s h = cleanup-Calm.at s tt
  run_phase_handler-NoPanic succeeded s h = (fail_restore-Calm _ _).at s tt
  run_phase_handler-NoPanic failed s h = (fail_restore-Calm _ _).at s tt
  run_phase_handler-NoPanic (other t) s h = (fail_restore-Calm _ _).at s tt
