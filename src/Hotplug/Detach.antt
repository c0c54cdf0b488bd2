-- ===== src/Hotplug/Detach.antt =====
-- `UnplugVolume` of internal/controller/hotplug.go and the machine's patch.
use vm_file_restore_operator.Base.{◌≡◌, refl}
use vm_file_restore_operator.Errors.{Error, Result, ok, err, wrap}
use vm_file_restore_operator.Types.{FileRestore, Machine}
use vm_file_restore_operator.Monad.{pure, ◌>>=◌, on_result, on_option}
use vm_file_restore_operator.Api.{Api}
use vm_file_restore_operator.Hotplug.Names.{volume_name_of, unplugged}
use vm_file_restore_operator.Hotplug.Steps.{unplug_volume, delete_restored_volume}

err≢ok : (x : Error) → ¬ (err x ≡ ok (tt {0}))
err≢ok x e = cc

module _ (api : Api) where
  open api use {World}

  abbrev pub patch_of : FileRestore → Machine → World → Result Machine × World
  patch_of vmfr vm = api.patch_machine vm (unplugged (volume_name_of vmfr.name) vm)

  unplug_after :
      (vmfr : FileRestore) (vm : Machine) (w : World) (answer : Result Machine)
      → (patch_of vmfr vm w).0 ≡ answer
      → (unplug_volume api vmfr vm w).0 ≡ ok tt
      → (v : Machine) × ((patch_of vmfr vm w).0 ≡ ok v)
  unfolding unplug_volume delete_restored_volume ◌>>=◌ on_result on_option pure
  unplug_after vmfr vm w (ok v) e h = (v, e)
  unplug_after vmfr vm w (err x) e h =
      absurd (err≢ok (wrap "failed to unplug volume from VM" x) (rw (e, unplug_volume) at h))

  -- Where unplugging succeeds, the server has accepted the machine without the restore's volume and
  -- disk.
  pub unplug_volume-ok :
      (vmfr : FileRestore) (vm : Machine) (w : World)
      → (unplug_volume api vmfr vm w).0 ≡ ok tt
      → (v : Machine) × ((patch_of vmfr vm w).0 ≡ ok v)
  unplug_volume-ok vmfr vm w h = unplug_after vmfr vm w (patch_of vmfr vm w).0 refl h
