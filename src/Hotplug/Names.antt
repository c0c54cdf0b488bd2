-- ===== src/Hotplug/Names.antt =====
-- Names and pure parts of internal/controller/hotplug.go: the volume's name, and the machine with
-- the restore volume and without it.
use vm_file_restore_operator.Base.{
  String, ◌<>◌, Bool, false, not, ◌&&◌, Option, none, some, [], ◌∷◌, ◌++◌, ◌=?◌, if◌then◌else◌,
  keep,
}
use vm_file_restore_operator.Base.Texts.{is_empty, has_suffix}
use vm_file_restore_operator.Types.{VolumeSource, Volume, Disk, Machine}

abbrev pub restore_suffix : String
restore_suffix = "-restore"

abbrev pub volume_name_of : String → String
volume_name_of cr_name = cr_name <> restore_suffix

-- `GetVolumeName`; `none` is the panic on an empty name. The API server refuses an object without
-- a name, so the callers below, which have theirs from it, go on with `volume_name_of`.
unfoldable pub get_volume_name : String → Option String
get_volume_name cr_name = if is_empty cr_name then none else some (volume_name_of cr_name)

abbrev pub namespace_or : String → String → String
namespace_or namespace fallback = if is_empty namespace then fallback else namespace

-- Is this the volume of another restore?
abbrev pub is_foreign_restore : String → Volume → Bool
is_foreign_restore volume_name v = has_suffix v.name restore_suffix && not (v.name =? volume_name)

abbrev pub volume_named : String → Volume → Bool
volume_named n v = v.name =? n

abbrev pub disk_named : String → Disk → Bool
disk_named n d = d.name =? n

abbrev pub bus_scsi : String
bus_scsi = "scsi"

-- The volume and the disk that `HotplugVolume` appends.
unfoldable pub plugged : String → VolumeSource → Machine → Machine
plugged n source vm = record vm {
  volumes = vm.volumes ++ (record { name = n; source = source } ∷ []);
  disks = vm.disks ++ (record { name = n; bus = bus_scsi; read_only = false; serial = n } ∷ []);
}

-- The two filters of `UnplugVolume`.
unfoldable pub unplugged : String → Machine → Machine
unplugged n vm = record vm {
  volumes = keep (λ v. not (volume_named n v)) vm.volumes;
  disks = keep (λ d. not (disk_named n d)) vm.disks;
}
