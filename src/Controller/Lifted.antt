-- ===== src/Controller/Lifted.antt =====
-- The calls of the handlers that leave the object in memory and its stored status alone.
use vm_file_restore_operator.Base.{String, Option}
use vm_file_restore_operator.Types.{Key, Bytes, Time, FileRestore, Instance, Machine, Status}
use vm_file_restore_operator.Monad.Rules.{Keeps}
use vm_file_restore_operator.Api.{Api}
use vm_file_restore_operator.Server.{IsServer}
use vm_file_restore_operator.Server.Quiet.{
  get_machine-Keeps, get_instance-Keeps, get_claim-Keeps, get_snapshot-Keeps, run-Keeps,
  close-Keeps, hotplug_volume-Keeps, unplug_volume-Keeps, get_vmi_ip_address-Keeps,
  get_ssh_private_key-Keeps, connect_ssh-Keeps, cleanup-Keeps,
}
use vm_file_restore_operator.Network.{get_vmi_ip_address}
use vm_file_restore_operator.Ssh.{connect_ssh}
use vm_file_restore_operator.Hotplug.Steps.{hotplug_volume, unplug_volume}
use vm_file_restore_operator.Controller.State.{lift}
use vm_file_restore_operator.Controller.Access.{get_ssh_private_key, cleanup}
use vm_file_restore_operator.Controller.Both.{Holds, lift-Keeps}

module _ (api : Api) (stored : api.World → Status) (server : IsServer api stored)
    (M N : Status → Type 0) where
  abbrev Kept : {A : Type 0} → (api.World → A × api.World) → Type 0
  Kept m = Keeps (Holds api stored server M N) (lift m)

  pub get_machine-Kept : (k : Key) → Kept (api.get_machine k)
  get_machine-Kept k =
      lift-Keeps api stored server M N _ λ st. get_machine-Keeps api stored server st k

  pub get_instance-Kept : (k : Key) → Kept (api.get_instance k)
  get_instance-Kept k =
      lift-Keeps api stored server M N _ λ st. get_instance-Keeps api stored server st k

  pub get_claim-Kept : (k : Key) → Kept (api.get_claim k)
  get_claim-Kept k = lift-Keeps api stored server M N _ λ st. get_claim-Keeps api stored server st k

  pub get_snapshot-Kept : (k : Key) → Kept (api.get_snapshot k)
  get_snapshot-Kept k =
      lift-Keeps api stored server M N _ λ st. get_snapshot-Keeps api stored server st k

  pub run-Kept : (c : api.Connection) (command : String) (t : Time) → Kept (api.run c command t)
  run-Kept c command t =
      lift-Keeps api stored server M N _ λ st. run-Keeps api stored server st c command t

  pub close-Kept : (c : api.Connection) → Kept (api.close c)
  close-Kept c = lift-Keeps api stored server M N _ λ st. close-Keeps api stored server st c

  pub hotplug_volume-Kept : (v : FileRestore) (m : Machine) → Kept (hotplug_volume api v m)
  hotplug_volume-Kept v m =
      lift-Keeps api stored server M N _ λ st. hotplug_volume-Keeps api stored server st v m

  pub unplug_volume-Kept : (v : FileRestore) (m : Machine) → Kept (unplug_volume api v m)
  unplug_volume-Kept v m =
      lift-Keeps api stored server M N _ λ st. unplug_volume-Keeps api stored server st v m

  pub get_vmi_ip_address-Kept : (i : Option Instance) → Kept (get_vmi_ip_address api i)
  get_vmi_ip_address-Kept i =
      lift-Keeps api stored server M N _ λ st. get_vmi_ip_address-Keeps api stored server st i

  pub get_ssh_private_key-Kept : (namespace : String) → Kept (get_ssh_private_key api namespace)
  get_ssh_private_key-Kept namespace =
      lift-Keeps api stored server M N _
        λ st. get_ssh_private_key-Keeps api stored server st namespace

  pub connect_ssh-Kept : (ip : String) (key : Bytes) → Kept (connect_ssh api ip key)
  connect_ssh-Kept ip key =
      lift-Keeps api stored server M N _ λ st. connect_ssh-Keeps api stored server st ip key

  pub cleanup-Kept : (namespace : String) (v : FileRestore) → Kept (cleanup api namespace v)
  cleanup-Kept namespace v =
      lift-Keeps api stored server M N _ λ st. cleanup-Keeps api stored server st namespace v
