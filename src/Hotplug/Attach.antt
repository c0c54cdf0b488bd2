-- ===== src/Hotplug/Attach.antt =====
-- `HotplugVolume` of internal/controller/hotplug.go on machines that have a restore volume.
use vm_file_restore_operator.Base.{
  find?-append, exists-append, ◌≡◌, ◌≢◌, ◌⊎◌, find?-none, refl, inl, inr, String, Bool, true, false,
  not, ◌&&◌, none, find?, exists, Bool-cases, Option-cases, eq_refl, sym, ◌∙◌,
}
use vm_file_restore_operator.Errors.{Error, ok, err, is_transient}
use vm_file_restore_operator.Types.{FileRestore, VolumeSource, Machine}
use vm_file_restore_operator.Monad.{pure, on_option}
use vm_file_restore_operator.Api.{Api}
use vm_file_restore_operator.Hotplug.Names.{
  volume_name_of, is_foreign_restore, volume_named, disk_named, plugged,
}
use vm_file_restore_operator.Hotplug.Steps.{plug_if_absent, hotplug_volume}

true≢false : true ≢ false
true≢false e = cc

and_false : (b : Bool) → b && false ≡ false
and_false true = refl
and_false false = refl

own_volume :
    (n : String) (source : VolumeSource)
    → is_foreign_restore n (record { name = n; source = source }) ≡ false
own_volume n source = rw (eq_refl n) (and_false _)

module _ (api : Api) where
  open api use {World}

  -- On a machine on which the restore's volume was plugged already, whatever its source, and on
  -- which no other restore is active, a second call succeeds and calls nothing.
  pub hotplug_volume-again :
      (vmfr : FileRestore) (source : VolumeSource) (vm : Machine) (w : World)
      → find? (is_foreign_restore (volume_name_of vmfr.name)) vm.volumes ≡ none
      → hotplug_volume api vmfr (plugged (volume_name_of vmfr.name) source vm) w ≡ (ok tt, w)
  unfolding hotplug_volume plug_if_absent plugged on_option pure
  hotplug_volume-again vmfr source vm w h =
      let n = volume_name_of vmfr.name in
      rw
        (
          find?-append (is_foreign_restore n) vm.volumes (record { name = n; source = source }) h
              (own_volume n source),
          exists-append (volume_named n) vm.volumes (record { name = n; source = source })
              (eq_refl n),
          exists-append (disk_named n) vm.disks
              (record { name = n; bus = "scsi"; read_only = false; serial = n }) (eq_refl n),
        )
        refl

  -- While the volume of another restore is on the machine, or only one of volume and disk of this
  -- restore is, the call fails for good: the error is not a transient one, and nothing is called.
  pub hotplug_volume-refuses :
      (vmfr : FileRestore) (vm : Machine) (w : World)
      → (exists (is_foreign_restore (volume_name_of vmfr.name)) vm.volumes ≡ true)
        ⊎ (exists (volume_named (volume_name_of vmfr.name)) vm.volumes
            ≡ not (exists (disk_named (volume_name_of vmfr.name)) vm.disks))
      → (e : Error) × (hotplug_volume api vmfr vm w ≡ (err e, w)) × (is_transient e ≡ false)
  unfolding hotplug_volume plug_if_absent on_option pure is_transient
  hotplug_volume-refuses vmfr vm w h =
      elim (Option-cases (find? (is_foreign_restore (volume_name_of vmfr.name)) vm.volumes)) [
        | inr (v, e) ↦ rw e (_, refl, refl)
        | inl e ↦ elim h [
          | inl foreign ↦
              let l : true ≡ false = sym foreign ∙ find?-none _ vm.volumes e in
              absurd (true≢false l)
          | inr half ↦ elim (Bool-cases (exists (disk_named (volume_name_of vmfr.name)) vm.disks)) [
            | inl disk ↦ rw (e, half, disk) (_, refl, refl)
            | inr without ↦ rw (e, half, without) (_, refl, refl)
          ]
        ]
      ]
