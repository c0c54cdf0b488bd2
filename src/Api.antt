-- ===== src/Api.antt =====
-- What the operator uses and does not implement: the client of controller-runtime with the API
-- server behind it, the event recorder, the clock, and the SSH library. `World` is all of that.
use vm_file_restore_operator.Base.{String, Bool, Option, List}
use vm_file_restore_operator.Errors.{Error, Result}
use vm_file_restore_operator.Monad.{Action}
use vm_file_restore_operator.Types.{
  Key, Bytes, Time, FileRestore, Instance, Machine, Pod, Snapshot, SnapshotContent, DataVolume,
  Secret,
}

pub data EventType : Type 0 where
  normal warning : EventType

-- How `session.Run` ended. `cancelled` says that the context was done first, with `ctx.Err()`.
pub data RunEnd : Type 0 where
  no_session : Error → RunEnd
  completed : Option Error → RunEnd
  cancelled : Error → RunEnd

pub record Run : Type 0 where
  pub end : RunEnd
  pub stdout : String
  pub stderr : String
  -- `ctx.Err() == context.DeadlineExceeded`, asked after the run
  pub deadline_exceeded : Bool

pub record Api : Type 1 where
  pub World : Type 0
  pub Signer : Type 0
  pub Connection : Type 0
  -- the client
  pub get_restore : Key → Action World (Result FileRestore)
  pub update_restore : FileRestore → Action World (Result FileRestore)
  -- `Status().Patch(ctx, modified, MergeFrom(base))`: base, then modified
  pub patch_status : FileRestore → FileRestore → Action World (Result FileRestore)
  pub get_machine : Key → Action World (Result Machine)
  -- `Patch(ctx, modified, MergeFrom(base))`: base, then modified
  pub patch_machine : Machine → Machine → Action World (Result Machine)
  pub get_instance : Key → Action World (Result Instance)
  pub get_claim : Key → Action World (Result (Unit {0}))
  pub get_snapshot : Key → Action World (Result Snapshot)
  pub list_pods : (namespace : String) → (domain : String) → Action World (Result (List Pod))
  pub create_data_volume : DataVolume → Action World (Result (Unit {0}))
  pub delete_data_volume : Key → Action World (Result (Unit {0}))
  -- the reader without a cache
  pub read_snapshot : Key → Action World (Result Snapshot)
  pub read_content : String → Action World (Result SnapshotContent)
  pub read_data_volume : Key → Action World (Result DataVolume)
  pub read_secret : Key → Action World (Result Secret)
  -- the recorder and the clock
  pub event : FileRestore → EventType → String → String → Action World (Unit {0})
  pub now : Action World Time
  -- golang.org/x/crypto/ssh: `Dial` with the client configuration of `ConnectSSH`
  pub parse_private_key : Bytes → Result Signer
  pub dial : String → Signer → Action World (Result Connection)
  -- a session that runs a command, within a time limit
  pub run : Connection → String → Time → Action World Run
  pub close : Connection → Action World (Unit {0})
