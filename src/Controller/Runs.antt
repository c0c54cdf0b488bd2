-- ===== src/Controller/Runs.antt =====
-- Sequences of reconciliations of the manager, with what happens between them.
pub mod Order
pub mod Stages
use vm_file_restore_operator.Base.{◌≡◌, String, List, [], ◌∷◌}
use vm_file_restore_operator.Types.{Key, Status, RestorePhase}
use vm_file_restore_operator.Api.{Api}
use vm_file_restore_operator.Server.{Sees}
use vm_file_restore_operator.Controller.Reconcile.{reconcile}

module _ (api : Api) (stored : api.World → Status) (namespace : String) where
  open api use {World}

  -- A reconciliation that reads the status as it is stored; or anything else that leaves the stored status alone: another object's
  -- reconciliation, the virtual machine, a user.
  pub data Step : World → World → Type 0 where
    reconciled :
        (k : Key) (w : World) → Sees api stored k w → Step w (reconcile api namespace k w).1
    outside : (w w' : World) → stored w' ≡ stored w → Step w w'

  pub data Runs : World → World → Type 0 where
    here : (w : World) → Runs w w
    after : {w m w' : World} → Step w m → Runs m w' → Runs w w'

  -- The run comes through worlds with the stored phases, in their order.
  pub data Visits : List RestorePhase → World → World → Type 0 where
    rest : {w w' : World} → Runs w w' → Visits [] w w'
    visit :
        {p : RestorePhase} {ps : List RestorePhase} {w m w' : World}
        → Runs w m
        → (stored m).phase ≡ p
        → Visits ps m w'
        → Visits (p ∷ ps) w w'
