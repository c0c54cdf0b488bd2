-- ===== src/Server/Quiet.antt =====
-- The actions that never write the status of the object: all but the status patches.
use vm_file_restore_operator.Base.{String, Bool, Option, ◌≡◌, ◌∙◌}
use vm_file_restore_operator.Types.{
  Key, Bytes, Time, FileRestore, Instance, Machine, DataVolume, Status, VolumeSource,
}
use vm_file_restore_operator.Monad.{Action}
use vm_file_restore_operator.Monad.Rules.{Keeps, ends_rules}
use vm_file_restore_operator.Api.{Api, EventType}
use vm_file_restore_operator.Server.{IsServer}
use vm_file_restore_operator.Network.{get_pod_for_vmi, pod_ip_of, get_vmi_ip_address}
use vm_file_restore_operator.Ssh.{connect_ssh}
use vm_file_restore_operator.Hotplug.Source.{get_snapshot_source_volume_mode, volume_source}
use vm_file_restore_operator.Hotplug.Steps.{
  plug, plug_if_absent, hotplug_volume, delete_restored_volume, unplug_volume,
}
use vm_file_restore_operator.Controller.Access.{
  get_ssh_private_key, ssh_cleanup, run_cleanup, close_opened, unplug_target, cleanup,
}

module _ (api : Api) (stored : api.World → Status) (server : IsServer api stored)
    (st : Status) where
  open api use {World}

  -- The stored status is `st`.
  abbrev pub Same : World → Type 0
  Same w = stored w ≡ st

  keeps :
      {A : Type 0} (m : Action World A) → ((w : World) → stored (m w).1 ≡ stored w) → Keeps Same m
  keeps m q = record { at = λ w h. q w ∙ h }

  pub get_machine-Keeps : (k : Key) → Keeps Same (api.get_machine k)
  get_machine-Keeps k = keeps _ (server.get_machine k)

  patch_machine-Keeps : (b m : Machine) → Keeps Same (api.patch_machine b m)
  patch_machine-Keeps b m = keeps _ (server.patch_machine b m)

  pub get_instance-Keeps : (k : Key) → Keeps Same (api.get_instance k)
  get_instance-Keeps k = keeps _ (server.get_instance k)

  pub get_restore-Keeps : (k : Key) → Keeps Same (api.get_restore k)
  get_restore-Keeps k = keeps _ (server.get_restore k)

  pub update_restore-Keeps : (v : FileRestore) → Keeps Same (api.update_restore v)
  update_restore-Keeps v = keeps _ (server.update_restore v)

  pub get_claim-Keeps : (k : Key) → Keeps Same (api.get_claim k)
  get_claim-Keeps k = keeps _ (server.get_claim k)

  pub get_snapshot-Keeps : (k : Key) → Keeps Same (api.get_snapshot k)
  get_snapshot-Keeps k = keeps _ (server.get_snapshot k)

  list_pods-Keeps : (n d : String) → Keeps Same (api.list_pods n d)
  list_pods-Keeps n d = keeps _ (server.list_pods n d)

  create_data_volume-Keeps : (v : DataVolume) → Keeps Same (api.create_data_volume v)
  create_data_volume-Keeps v = keeps _ (server.create_data_volume v)

  delete_data_volume-Keeps : (k : Key) → Keeps Same (api.delete_data_volume k)
  delete_data_volume-Keeps k = keeps _ (server.delete_data_volume k)

  read_snapshot-Keeps : (k : Key) → Keeps Same (api.read_snapshot k)
  read_snapshot-Keeps k = keeps _ (server.read_snapshot k)

  read_content-Keeps : (n : String) → Keeps Same (api.read_content n)
  read_content-Keeps n = keeps _ (server.read_content n)

  read_data_volume-Keeps : (k : Key) → Keeps Same (api.read_data_volume k)
  read_data_volume-Keeps k = keeps _ (server.read_data_volume k)

  read_secret-Keeps : (k : Key) → Keeps Same (api.read_secret k)
  read_secret-Keeps k = keeps _ (server.read_secret k)

  pub event-Keeps :
      (v : FileRestore) (t : EventType) (r m : String) → Keeps Same (api.event v t r m)
  event-Keeps v t r m = keeps _ (server.event v t r m)

  pub now-Keeps : Keeps Same api.now
  now-Keeps = keeps _ server.now

  dial-Keeps : (ip : String) (s : api.Signer) → Keeps Same (api.dial ip s)
  dial-Keeps ip s = keeps _ (server.dial ip s)

  pub run-Keeps :
      (c : api.Connection) (command : String) (t : Time) → Keeps Same (api.run c command t)
  run-Keeps c command t = keeps _ (server.run c command t)

  pub close-Keeps : (c : api.Connection) → Keeps Same (api.close c)
  close-Keeps c = keeps _ (server.close c)

  get_pod_for_vmi-Keeps : (i : Instance) → Keeps Same (get_pod_for_vmi api i)
  unfolding get_pod_for_vmi
  get_pod_for_vmi-Keeps i = search (ends_rules, list_pods-Keeps)

  pod_ip_of-Keeps : (i : Instance) → Keeps Same (pod_ip_of api i)
  unfolding pod_ip_of
  pod_ip_of-Keeps i = search (ends_rules, get_pod_for_vmi-Keeps)

  pub get_vmi_ip_address-Keeps : (i : Option Instance) → Keeps Same (get_vmi_ip_address api i)
  unfolding get_vmi_ip_address
  get_vmi_ip_address-Keeps i = search (ends_rules, pod_ip_of-Keeps)

  pub connect_ssh-Keeps : (ip : String) (key : Bytes) → Keeps Same (connect_ssh api ip key)
  unfolding connect_ssh
  connect_ssh-Keeps ip key = search (ends_rules, dial-Keeps) depth 8

  get_snapshot_source_volume_mode-Keeps :
      (n ns : String) → Keeps Same (get_snapshot_source_volume_mode api n ns)
  unfolding get_snapshot_source_volume_mode
  get_snapshot_source_volume_mode-Keeps n ns =
      search (ends_rules, read_snapshot-Keeps, read_content-Keeps) depth 9

  volume_source-Keeps : (v : FileRestore) → Keeps Same (volume_source api v)
  unfolding volume_source
  volume_source-Keeps v =
      search
        (
          ends_rules, get_snapshot_source_volume_mode-Keeps, read_data_volume-Keeps,
          create_data_volume-Keeps,
        )
        depth 15

  plug-Keeps : (v : FileRestore) (m : Machine) (s : VolumeSource) → Keeps Same (plug api v m s)
  unfolding plug
  plug-Keeps v m s = search (ends_rules, patch_machine-Keeps)

  plug_if_absent-Keeps :
      (v : FileRestore) (m : Machine) (a b : Bool) → Keeps Same (plug_if_absent api v m a b)
  unfolding plug_if_absent
  plug_if_absent-Keeps v m a b = search (ends_rules, volume_source-Keeps, plug-Keeps) depth 8

  pub hotplug_volume-Keeps : (v : FileRestore) (m : Machine) → Keeps Same (hotplug_volume api v m)
  unfolding hotplug_volume
  hotplug_volume-Keeps v m = search (ends_rules, plug_if_absent-Keeps)

  delete_restored_volume-Keeps : (v : FileRestore) → Keeps Same (delete_restored_volume api v)
  unfolding delete_restored_volume
  delete_restored_volume-Keeps v = search (ends_rules, delete_data_volume-Keeps) depth 7

  pub unplug_volume-Keeps : (v : FileRestore) (m : Machine) → Keeps Same (unplug_volume api v m)
  unfolding unplug_volume
  unplug_volume-Keeps v m = search (ends_rules, patch_machine-Keeps, delete_restored_volume-Keeps)

  module _ (namespace : String) where
    pub get_ssh_private_key-Keeps : Keeps Same (get_ssh_private_key api namespace)
    unfolding get_ssh_private_key
    get_ssh_private_key-Keeps = search (ends_rules, read_secret-Keeps)

    ssh_cleanup-Keeps :
        (v : FileRestore) (i : Instance) → Keeps Same (ssh_cleanup api namespace v i)
    unfolding ssh_cleanup run_cleanup
    ssh_cleanup-Keeps v i =
        search
          (
            ends_rules, get_vmi_ip_address-Keeps, get_ssh_private_key-Keeps, connect_ssh-Keeps,
            run-Keeps,
          )
          depth 12

    close_opened-Keeps : (c : Option api.Connection) → Keeps Same (close_opened api namespace c)
    unfolding close_opened
    close_opened-Keeps c = search (ends_rules, close-Keeps)

    unplug_target-Keeps : (v : FileRestore) → Keeps Same (unplug_target api namespace v)
    unfolding unplug_target
    unplug_target-Keeps v = search (ends_rules, get_machine-Keeps, unplug_volume-Keeps)

    pub cleanup-Keeps : (v : FileRestore) → Keeps Same (cleanup api namespace v)
    unfolding cleanup
    cleanup-Keeps v =
        search
          (
            ends_rules, get_instance-Keeps, ssh_cleanup-Keeps, unplug_target-Keeps,
            close_opened-Keeps,
          )
          depth 8
