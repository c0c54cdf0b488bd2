-- ===== src/Controller/Mount/Mounting.antt =====
-- `Reconcile`'s call of the handlers of the phases between validation and cleanup.
use vm_file_restore_operator.Base.{◌≡◌, String, true}
use vm_file_restore_operator.Types.{
  Status, RestorePhase, unset, new, init, hotplugging, waiting_for_attachment, ssh_connecting,
  restoring, volume_ready, cleanup, succeeded, failed, other,
}
use vm_file_restore_operator.Monad.{on_option}
use vm_file_restore_operator.Monad.Rules.{Keeps}
use vm_file_restore_operator.Api.{Api}
use vm_file_restore_operator.Server.{IsServer}
use vm_file_restore_operator.Controller.State.{St}
use vm_file_restore_operator.Controller.Reconcile.{run_phase_handler}
use vm_file_restore_operator.Controller.Panics.{NoPanic, run_phase_handler-NoPanic}
use vm_file_restore_operator.Controller.Mount.{Filled, is_mounting}
use vm_file_restore_operator.Controller.Mount.Keeping.{
  Pathed, hotplugging-Keeps, waiting-Keeps, ssh_connecting-Keeps, restoring-Keeps,
}

module _ (api : Api) (stored : api.World → Status) (server : IsServer api stored)
    (namespace : String) where
  open api use {World}

  mounting-Keeps :
      (p : RestorePhase)
      → is_mounting p ≡ true
      → Keeps (Pathed api stored server namespace) (run_phase_handler api namespace p)
  unfolding run_phase_handler on_option
  mounting-Keeps hotplugging h = hotplugging-Keeps api stored server namespace
  mounting-Keeps waiting_for_attachment h = waiting-Keeps api stored server namespace
  mounting-Keeps ssh_connecting h = ssh_connecting-Keeps api stored server namespace
  mounting-Keeps restoring h = restoring-Keeps api stored server namespace
  mounting-Keeps unset h = cc
  mounting-Keeps new h = cc
  mounting-Keeps init h = cc
  mounting-Keeps volume_ready h = cc
  mounting-Keeps cleanup h = cc
  mounting-Keeps succeeded h = cc
  mounting-Keeps failed h = cc
  mounting-Keeps (other t) h = cc

  -- With a server that keeps IsServer, where the restore has a mount path in memory and in the
  -- server, the handler of the phases Hotplugging, WaitingForAttachment, SSHConnecting and Restoring
  -- does not panic, and leaves a mount path in memory and in the server, whatever the calls answer.
  pub run_phase_handler-Filled :
      (p : RestorePhase) (s : St World)
      → is_mounting p ≡ true
      → Filled s.restore.status
      → Filled (stored s.world)
      → NoPanic (run_phase_handler api namespace p s).0
        × Filled (run_phase_handler api namespace p s).1.restore.status
        × Filled (stored (run_phase_handler api namespace p s).1.world)
  run_phase_handler-Filled p s mounting memory server_side =
      let kept = (mounting-Keeps p mounting).at s (memory, server_side) in
      (run_phase_handler-NoPanic api namespace p s (λ _. memory.filled), kept.0, kept.1)
