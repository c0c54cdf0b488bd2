-- ===== src/Hotplug/Steps.antt =====
-- `HotplugVolume` and `UnplugVolume` of internal/controller/hotplug.go.
use vm_file_restore_operator.Base.{
  String, ◌<>◌, Bool, true, false, ◌&&◌, ◌||◌, find?, exists, if◌then◌else◌,
}
use vm_file_restore_operator.Errors.{Result, ok, err, errorf, wrap, is_not_found}
use vm_file_restore_operator.Types.{FileRestore, VolumeSource, Machine}
use vm_file_restore_operator.Monad.{Action, pure, ◌>>=◌, on_result, on_option}
use vm_file_restore_operator.Api.{Api}
use vm_file_restore_operator.Hotplug.Names.{
  volume_name_of, is_foreign_restore, volume_named, disk_named, plugged, unplugged,
}
use vm_file_restore_operator.Hotplug.Source.{volume_source}

abbrev bool_text : Bool → String
bool_text true = "true"
bool_text false = "false"

module _ (api : Api) where
  open api use {World}

  -- Append and patch.
  unfoldable pub plug : FileRestore → Machine → VolumeSource → Action World (Result (Unit {0}))
  unfolding plugged
  plug vmfr vm source = do
    patched ← api.patch_machine vm (plugged (volume_name_of vmfr.name) source vm)
    on_result patched (λ e. pure (err (wrap "failed to hotplug volume to VM" e)))
        (λ _. pure (ok tt))

  -- What `HotplugVolume` does once no other restore is in the way: is the volume there, is the disk?
  unfoldable pub plug_if_absent :
      FileRestore → Machine → Bool → Bool → Action World (Result (Unit {0}))
  plug_if_absent vmfr vm has_volume has_disk =
      if has_volume && has_disk
      then pure (ok tt)
      else if has_volume || has_disk
      then pure (
          err (
            errorf (
              "partial hotplug detected (volume="
              <> (bool_text has_volume
                  <> (", disk=" <> (bool_text has_disk <> "), needs cleanup"))))))
      else (do source ← volume_source api vmfr; on_result source (λ e. pure (err e)) (plug vmfr vm))

  -- `HotplugVolume`
  unfoldable pub hotplug_volume : FileRestore → Machine → Action World (Result (Unit {0}))
  hotplug_volume vmfr vm =
      let n = volume_name_of vmfr.name in
      on_option (find? (is_foreign_restore n) vm.volumes)
        (plug_if_absent vmfr vm (exists (volume_named n) vm.volumes)
          (exists (disk_named n) vm.disks))
        (λ v. pure (
          err (
            errorf (
              "another restore is in progress (volume "
              <> (v.name <> " exists), cannot hotplug")))))

  -- "If snapshot source, delete DataVolume"
  unfoldable pub delete_restored_volume : FileRestore → Action World (Result (Unit {0}))
  delete_restored_volume vmfr = on_option vmfr.spec.source.snapshot (pure (ok tt)) (λ _. do
    deleted ←
        api.delete_data_volume
          (record { name = volume_name_of vmfr.name; namespace = vmfr.namespace })
    on_result deleted
        (λ e. if is_not_found e then pure (ok tt) else pure (err (wrap "delete DataVolume" e)))
        (λ _. pure (ok tt)))

  -- `UnplugVolume`
  unfoldable pub unplug_volume : FileRestore → Machine → Action World (Result (Unit {0}))
  unfolding unplugged
  unplug_volume vmfr vm = do
    patched ← api.patch_machine vm (unplugged (volume_name_of vmfr.name) vm)
    on_result patched (λ e. pure (err (wrap "failed to unplug volume from VM" e)))
        (λ _. delete_restored_volume vmfr)
