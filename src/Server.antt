-- ===== src/Server.antt =====
-- What the operator relies on of the API server and of controller-runtime's client, for the status
-- of the one object that is reconciled.
pub mod Quiet
use vm_file_restore_operator.Base.{String, ◌≡◌, ◌⊎◌}
use vm_file_restore_operator.Errors.{Error, ok, err}
use vm_file_restore_operator.Types.{Key, Bytes, Time, FileRestore, Machine, DataVolume, Status}
use vm_file_restore_operator.Api.{Api, EventType}

-- A merge patch sends the fields in which `modified` differs from `base`. A field comes out as it
-- was sent; or it was not sent, since the two agree, and it stays as it is stored.
abbrev pub MergedField {ℓ} : {A : Type ℓ} → A → A → A → A → Type ℓ
MergedField base modified stored result =
    (result ≡ modified) ⊎ ((modified ≡ base) × (result ≡ stored))

-- Base, modified, stored and result.
pub record Merged (b m s r : Status) : Type 0 where
  pub phase : MergedField b.phase m.phase s.phase r.phase
  pub attachment_retries :
      MergedField b.attachment_retries m.attachment_retries s.attachment_retries
        r.attachment_retries
  pub ssh_retries : MergedField b.ssh_retries m.ssh_retries s.ssh_retries r.ssh_retries
  pub mount_path : MergedField b.mount_path m.mount_path s.mount_path r.mount_path
  pub restored_files_count :
      MergedField b.restored_files_count m.restored_files_count s.restored_files_count
        r.restored_files_count

-- `stored` is the status that the server holds. Only the operator writes it, one reconciliation of
-- an object at a time. A patch that answers an error may have been applied or not. Nothing is said
-- of the status that a read returns: it comes from a cache and may be an older one.
pub record IsServer (api : Api) (stored : api.World → Status) : Type 0 where
  pub get_restore : (k : Key) (w : api.World) → stored (api.get_restore k w).1 ≡ stored w
  pub update_restore :
      (v : FileRestore) (w : api.World) → stored (api.update_restore v w).1 ≡ stored w
  pub patch_failed :
      (b m : FileRestore) (w : api.World) (e : Error)
      → (api.patch_status b m w).0 ≡ err e
      → (stored (api.patch_status b m w).1 ≡ stored w)
        ⊎ Merged b.status m.status (stored w) (stored (api.patch_status b m w).1)
  pub patch_stored :
      (b m : FileRestore) (w : api.World) (v : FileRestore)
      → (api.patch_status b m w).0 ≡ ok v
      → v.status ≡ stored (api.patch_status b m w).1
  pub patch_merged :
      (b m : FileRestore) (w : api.World) (v : FileRestore)
      → (api.patch_status b m w).0 ≡ ok v
      → Merged b.status m.status (stored w) v.status
  -- no other call writes the status
  pub get_machine : (k : Key) (w : api.World) → stored (api.get_machine k w).1 ≡ stored w
  pub patch_machine :
      (b m : Machine) (w : api.World) → stored (api.patch_machine b m w).1 ≡ stored w
  pub get_instance : (k : Key) (w : api.World) → stored (api.get_instance k w).1 ≡ stored w
  pub get_claim : (k : Key) (w : api.World) → stored (api.get_claim k w).1 ≡ stored w
  pub get_snapshot : (k : Key) (w : api.World) → stored (api.get_snapshot k w).1 ≡ stored w
  pub list_pods : (n d : String) (w : api.World) → stored (api.list_pods n d w).1 ≡ stored w
  pub create_data_volume :
      (v : DataVolume) (w : api.World) → stored (api.create_data_volume v w).1 ≡ stored w
  pub delete_data_volume :
      (k : Key) (w : api.World) → stored (api.delete_data_volume k w).1 ≡ stored w
  pub read_snapshot : (k : Key) (w : api.World) → stored (api.read_snapshot k w).1 ≡ stored w
  pub read_content : (n : String) (w : api.World) → stored (api.read_content n w).1 ≡ stored w
  pub read_data_volume : (k : Key) (w : api.World) → stored (api.read_data_volume k w).1 ≡ stored w
  pub read_secret : (k : Key) (w : api.World) → stored (api.read_secret k w).1 ≡ stored w
  pub event :
      (v : FileRestore) (t : EventType) (r m : String) (w : api.World)
      → stored (api.event v t r m w).1 ≡ stored w
  pub now : (w : api.World) → stored (api.now w).1 ≡ stored w
  pub dial : (ip : String) (s : api.Signer) (w : api.World) → stored (api.dial ip s w).1 ≡ stored w
  pub run :
      (c : api.Connection) (command : String) (limit : Time) (w : api.World)
      → stored (api.run c command limit w).1 ≡ stored w
  pub close : (c : api.Connection) (w : api.World) → stored (api.close c w).1 ≡ stored w

-- A reconciliation of the object in `w` would read the status as it is stored: the cache has caught
-- up with the last write.
abbrev pub Sees : (api : Api) → (api.World → Status) → Key → api.World → Type 0
Sees api stored k w = (v : FileRestore) → (api.get_restore k w).0 ≡ ok v → v.status ≡ stored w
