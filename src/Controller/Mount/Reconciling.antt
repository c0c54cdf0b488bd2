-- ===== src/Controller/Mount/Reconciling.antt =====
-- The phase handlers, on the stored mount path.
use vm_file_restore_operator.Base.{◌≡◌, inl, inr, refl, sym, subst, String, true, false}
use vm_file_restore_operator.Types.{
  Status, RestorePhase, unset, new, init, hotplugging, waiting_for_attachment, ssh_connecting,
  restoring, volume_ready, cleanup, succeeded, failed, other,
}
use vm_file_restore_operator.Monad.{pure, on_option}
use vm_file_restore_operator.Api.{Api}
use vm_file_restore_operator.Server.{IsServer}
use vm_file_restore_operator.Controller.State.{St}
use vm_file_restore_operator.Controller.Steps.{is_terminal}
use vm_file_restore_operator.Controller.Finish.{handle_volume_ready_phase}
use vm_file_restore_operator.Controller.Graph.{
  ◌⟶◌, accept_unset, accept_new, accept_init, plug, attach, connect, mount, copy, finish, give_up,
}
use vm_file_restore_operator.Controller.Reconcile.{run_phase_handler}
use vm_file_restore_operator.Controller.Persistence.Start.{Near}
use vm_file_restore_operator.Controller.Persistence.Handlers.{cleanup_phase-Keeps}
use vm_file_restore_operator.Controller.Mount.{Filled, Ready, is_mounting}
use vm_file_restore_operator.Controller.Mount.Mounting.{run_phase_handler-Filled}
use vm_file_restore_operator.Controller.Mount.Beginning.{init-Ready, fail_restore-Ready}

cleanup-⟶ : (p q : RestorePhase) → p ⟶ q → p ≡ cleanup → is_mounting q ≡ false
cleanup-⟶ _ _ accept_unset e = cc
cleanup-⟶ _ _ accept_new e = cc
cleanup-⟶ _ _ accept_init e = cc
cleanup-⟶ _ _ plug e = cc
cleanup-⟶ _ _ attach e = cc
cleanup-⟶ _ _ connect e = cc
cleanup-⟶ _ _ mount e = refl
cleanup-⟶ _ _ copy e = refl
cleanup-⟶ _ _ finish e = refl
cleanup-⟶ _ _ (give_up h) e = refl

after_cleanup : (st : Status) → Near cleanup cleanup st → Ready st
after_cleanup st (inl same) h = cc
after_cleanup st (inr (inl same)) h = cc
after_cleanup st (inr (inr e)) h = let k : is_mounting st.phase ≡ false = cleanup-⟶ _ _ e refl in cc

module _ (api : Api) (stored : api.World → Status) (server : IsServer api stored)
    (namespace : String) where
  open api use {World}

  -- The handler starts from the object as it is stored.
  abbrev pub Fresh : St World → Type 0
  Fresh s = (s.restore.status ≡ stored s.world) × Ready (stored s.world)

  init-Stays :
      (p : RestorePhase)
      → is_mounting p ≡ false
      → (s : St World) → s.restore.status.phase ≡ p
      → Fresh s
      → Ready (stored (run_phase_handler api namespace init s).1.world)
  unfolding run_phase_handler on_option
  init-Stays p unmounted s e f =
      ((init-Ready api stored server namespace p unmounted s.restore.status.mount_path).at s
        (record { phase = e; path = refl }, rw (sym f.0) (record { phase = e; path = refl }))).1

  mounting-Stays :
      (p : RestorePhase)
      → is_mounting p ≡ true
      → (s : St World) → s.restore.status.phase ≡ p
      → Fresh s
      → Ready (stored (run_phase_handler api namespace p s).1.world)
  mounting-Stays p mounting s e f =
      let k : Filled (stored s.world) = f.1 (rw (sym f.0, e) mounting) in
      λ _.
        (run_phase_handler-Filled api stored server namespace p s mounting
          (subst Filled (sym f.0) k) k).2

  -- From any phase that is not final, a handler that starts with a mount path where the phase
  -- needs one ends so.
  pub run_phase_handler-Ready :
      (p : RestorePhase)
      → is_terminal p ≡ false
      → (s : St World) → s.restore.status.phase ≡ p
      → Fresh s
      → Ready (stored (run_phase_handler api namespace p s).1.world)
  unfolding run_phase_handler on_option handle_volume_ready_phase pure
  run_phase_handler-Ready unset h s e f = init-Stays unset refl s e f
  run_phase_handler-Ready new h s e f = init-Stays new refl s e f
  run_phase_handler-Ready init h s e f = init-Stays init refl s e f
  run_phase_handler-Ready hotplugging h s e f = mounting-Stays hotplugging refl s e f
  run_phase_handler-Ready waiting_for_attachment h s e f =
      mounting-Stays waiting_for_attachment refl s e f
  run_phase_handler-Ready ssh_connecting h s e f = mounting-Stays ssh_connecting refl s e f
  run_phase_handler-Ready restoring h s e f = mounting-Stays restoring refl s e f
  run_phase_handler-Ready volume_ready h s e f = f.1
  run_phase_handler-Ready cleanup h s e f =
      after_cleanup _
        ((cleanup_phase-Keeps cleanup api stored server namespace).at s
          (inr (inl e), inl (rw (sym f.0) e))).1
  run_phase_handler-Ready succeeded h s e f = cc
  run_phase_handler-Ready failed h s e f = cc
  run_phase_handler-Ready (other t) h s e f =
      ((fail_restore-Ready api stored server namespace (other t) refl s.restore.status.mount_path _
          _).at
        s (record { phase = e; path = refl }, rw (sym f.0) (record { phase = e; path = refl }))).1
