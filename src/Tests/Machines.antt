-- ===== src/Tests/Machines.antt =====
-- The theorems on machines, their volumes, and addresses, at concrete inputs.
use vm_file_restore_operator.Base.{
  ◌≡◌, true, false, ◌&&◌, ◌=?◌, refl, some, none, [], ◌∷◌, inl, find?, exists,
}
use vm_file_restore_operator.Base.Texts.{has_suffix}
use vm_file_restore_operator.Errors.{Error, ok, err, is_transient}
use vm_file_restore_operator.Monad.{pure, ◌>>=◌, on_result, on_option}
use vm_file_restore_operator.Types.{
  FileRestore, Machine, Volume, Disk, VolumeSource, claim, other_source, Instance, Interface,
}
use vm_file_restore_operator.Hotplug.Names.{
  plugged, unplugged, volume_named, disk_named, is_foreign_restore,
}
use vm_file_restore_operator.Hotplug.Plug.{unplugged-plugged, unplugged-removes}
use vm_file_restore_operator.Hotplug.Attach.{hotplug_volume-again, hotplug_volume-refuses}
use vm_file_restore_operator.Hotplug.Source.{volume_source}
use vm_file_restore_operator.Hotplug.Source.Claims.{volume_source-IsOwnClaim, IsOwnClaim}
use vm_file_restore_operator.Hotplug.Steps.{hotplug_volume, unplug_volume, delete_restored_volume}
use vm_file_restore_operator.Network.{get_vmi_ip_address, has_ip, is_default_with_ip}
use vm_file_restore_operator.Network.Address.{get_vmi_ip_address-local, first_of}
use vm_file_restore_operator.Tests.Cluster.{cluster, start, new_restore, instance_of}

abbrev root_disk : Disk
root_disk = record { name = "root"; bus = "virtio"; read_only = false; serial = "" }

abbrev root_volume : Volume
root_volume = record { name = "root"; source = other_source "containerDisk" }

abbrev vm : Machine
vm = record { name = "vm1"; namespace = "vms"; volumes = root_volume ∷ []; disks = root_disk ∷ [] }

abbrev source : VolumeSource
source = claim "backup" true

abbrev vmfr : FileRestore
vmfr = new_restore "/home/user"

unplugged-plugged_example : unplugged "r1-restore" (plugged "r1-restore" source vm) ≡ vm
unplugged-plugged_example = unplugged-plugged "r1-restore" source vm refl refl

unplugged-removes_example :
    (exists
        (volume_named "r1-restore")
        (unplugged "r1-restore" (plugged "r1-restore" source vm)).volumes
      ≡ false)
    × (exists
          (disk_named "r1-restore")
          (unplugged "r1-restore" (plugged "r1-restore" source vm)).disks
        ≡ false)
    × (find? (volume_named "root") (unplugged "r1-restore" (plugged "r1-restore" source vm)).volumes
        ≡ find? (volume_named "root") (plugged "r1-restore" source vm).volumes)
    × (find? (disk_named "root") (unplugged "r1-restore" (plugged "r1-restore" source vm)).disks
        ≡ find? (disk_named "root") (plugged "r1-restore" source vm).disks)
unplugged-removes_example =
    unplugged-removes "r1-restore" "root" (plugged "r1-restore" source vm) refl

no_other_restore : find? (is_foreign_restore "r1-restore") vm.volumes ≡ none
unfolding has_suffix
no_other_restore = refl

hotplug_volume-again_example :
    hotplug_volume cluster vmfr (plugged "r1-restore" source vm) (start "") ≡ (ok tt, start "")
hotplug_volume-again_example =
    hotplug_volume-again cluster vmfr source vm (start "") no_other_restore

other_restore :
    exists (is_foreign_restore "r1-restore") (plugged "r2-restore" source vm).volumes ≡ true
unfolding plugged has_suffix
other_restore = refl

hotplug_volume-refuses_example :
    (e : Error) × (hotplug_volume cluster vmfr (plugged "r2-restore" source vm) (start "")
      ≡ (err e, start ""))
    × (is_transient e ≡ false)
hotplug_volume-refuses_example =
    hotplug_volume-refuses cluster vmfr (plugged "r2-restore" source vm) (start "")
      (inl other_restore)

own_claim : (volume_source cluster vmfr (start "")).0 ≡ ok source
unfolding volume_source on_option pure
own_claim = refl

volume_source-IsOwnClaim_example : IsOwnClaim vmfr source
volume_source-IsOwnClaim_example = volume_source-IsOwnClaim cluster vmfr (start "") source own_claim

unplugs : (unplug_volume cluster vmfr (plugged "r1-restore" source vm) (start "")).0 ≡ ok tt
unfolding unplug_volume delete_restored_volume on_option on_result pure ◌>>=◌
unplugs = refl

abbrev vmi : Instance
vmi = instance_of vm

address : (get_vmi_ip_address cluster (some vmi) (start "")).0 ≡ ok "10.0.2.2"
unfolding get_vmi_ip_address on_option pure
address = refl

get_vmi_ip_address-local_example :
    (f : Interface) × (first_of
        (find? is_default_with_ip vmi.interfaces)
        (find? has_ip vmi.interfaces)
      ≡ some f)
    × (exists (λ x. (x.ip =? f.ip) && has_ip x) vmi.interfaces ≡ true)
    × (get_vmi_ip_address cluster (some vmi) (start "") ≡ (ok f.ip, start ""))
get_vmi_ip_address-local_example = get_vmi_ip_address-local cluster vmi (start "") refl
