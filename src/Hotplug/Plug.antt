-- ===== src/Hotplug/Plug.antt =====
-- The machine with the restore volume and without it.
use vm_file_restore_operator.Base.{
  keep-snoc, exists-keep-not, find?-keep_other, ◌≡◌, refl, String, false, ◌=?◌, find?, exists,
  eq_iff, eq_refl,
}
use vm_file_restore_operator.Types.{VolumeSource, Machine}
use vm_file_restore_operator.Hotplug.Names.{volume_named, disk_named, bus_scsi, plugged, unplugged}

-- Unplugging takes back what plugging did, on a machine without a volume and a disk of the name.
pub unplugged-plugged :
    (n : String) (source : VolumeSource) (vm : Machine)
    → exists (volume_named n) vm.volumes ≡ false
    → exists (disk_named n) vm.disks ≡ false
    → unplugged n (plugged n source vm) ≡ vm
unfolding unplugged plugged
unplugged-plugged n source vm hv hd =
    rw
      (
        keep-snoc (volume_named n) vm.volumes (record { name = n; source = source }) hv (eq_refl n),
        keep-snoc (disk_named n) vm.disks
            (record { name = n; bus = bus_scsi; read_only = false; serial = n }) hd (eq_refl n),
      )
      refl

-- After unplugging `n` no volume and no disk has that name, and under every other name `m` the same
-- volume and the same disk are found as before.
pub unplugged-removes :
    (n m : String) (vm : Machine)
    → m =? n ≡ false
    → (exists (volume_named n) (unplugged n vm).volumes ≡ false)
      × (exists (disk_named n) (unplugged n vm).disks ≡ false)
      × (find? (volume_named m) (unplugged n vm).volumes ≡ find? (volume_named m) vm.volumes)
      × (find? (disk_named m) (unplugged n vm).disks ≡ find? (disk_named m) vm.disks)
unfolding unplugged
unplugged-removes n m vm h = (
  exists-keep-not (volume_named n) vm.volumes,
  exists-keep-not (disk_named n) vm.disks,
  find?-keep_other (volume_named n) (volume_named m) vm.volumes
      (λ v k. rw ((eq_iff v.name m).0 k) h),
  find?-keep_other (disk_named n) (disk_named m) vm.disks (λ d k. rw ((eq_iff d.name m).0 k) h),
)
