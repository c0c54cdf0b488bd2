-- ===== src/Controller/Graph.antt =====
-- The phases of a restore, as the diagram that the phase handlers follow.
use vm_file_restore_operator.Base.{◌≡◌, ◌⊎◌, Bool, true, false, not}
use vm_file_restore_operator.Types.{
  RestorePhase, unset, new, init, hotplugging, waiting_for_attachment, ssh_connecting, restoring,
  volume_ready, cleanup, succeeded, failed,
}

-- A phase in which a handler may give up: not a final one, and not the manual mode's.
abbrev pub may_fail : RestorePhase → Bool
may_fail volume_ready = false
may_fail succeeded = false
may_fail failed = false
may_fail _ = true

-- A phase that no handler leaves.
abbrev pub is_settled : RestorePhase → Bool
is_settled p = not (may_fail p)

infix 40 ◌⟶◌
pub data ◌⟶◌ : RestorePhase → RestorePhase → Type 0 where
  accept_unset : unset ⟶ hotplugging
  accept_new : new ⟶ hotplugging
  accept_init : init ⟶ hotplugging
  plug : hotplugging ⟶ waiting_for_attachment
  attach : waiting_for_attachment ⟶ ssh_connecting
  connect : ssh_connecting ⟶ restoring
  mount : restoring ⟶ volume_ready
  copy : restoring ⟶ cleanup
  finish : cleanup ⟶ succeeded
  give_up : {p : RestorePhase} → may_fail p ≡ true → p ⟶ failed

-- One reconciliation stays in a phase or follows one edge.
abbrev pub Moves : RestorePhase → RestorePhase → Type 0
Moves p q = (q ≡ p) ⊎ (p ⟶ q)
