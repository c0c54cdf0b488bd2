-- ===== src/Hotplug/Source.antt =====
-- internal/controller/hotplug.go: the source of the restore volume, a claim or a data volume that
-- is made from a snapshot.
pub mod Claims
use vm_file_restore_operator.Base.{
  String, ◌<>◌, true, Option, none, some, [], ◌∷◌, ◌=?◌, if◌then◌else◌,
}
use vm_file_restore_operator.Base.Texts.{is_empty}
use vm_file_restore_operator.Errors.{
  Result, ok, err, errorf, wrap, new_transient_error, is_not_found, is_already_exists,
}
use vm_file_restore_operator.Types.{
  Key, PvcSource, VolumeSnapshotSource, FileRestore, VolumeSource, claim, DataVolume,
  data_volume_succeeded, data_volume_other, data_volume_phase_text,
}
use vm_file_restore_operator.Monad.{Action, pure, ◌>>=◌, on_result, on_option}
use vm_file_restore_operator.Api.{Api}
use vm_file_restore_operator.Hotplug.Names.{volume_name_of, namespace_or}

-- `none` for a pointer to an empty text too.
abbrev filled : Option String → Option String
filled none = none
filled (some s) = if is_empty s then none else some s

module _ (api : Api) where
  open api use {World}

  content_mode : Option String → Action World (Result (Option String))
  content_mode bound = on_option bound (pure (ok none)) (λ content_name. do
    content ← api.read_content content_name
    on_result content
        (λ e. pure (err (wrap ("failed to get VolumeSnapshotContent " <> content_name) e)))
        (λ c. pure (ok (filled c.source_volume_mode))))

  -- `getSnapshotSourceVolumeMode`
  unfoldable pub get_snapshot_source_volume_mode :
      String → String → Action World (Result (Option String))
  unfolding content_mode
  get_snapshot_source_volume_mode name namespace = do
    snapshot ← api.read_snapshot (record { name = name; namespace = namespace })
    on_result snapshot
        (λ e. pure (err (wrap ("failed to get VolumeSnapshot " <> (namespace <> ("/" <> name))) e)))
        (λ s. content_mode (filled s.bound_content_name))

  -- The claim branch of `HotplugVolume`.
  claim_source : FileRestore → PvcSource → Action World (Result VolumeSource)
  claim_source vmfr source =
      let pvc_namespace = namespace_or source.namespace vmfr.namespace in
      if pvc_namespace =? vmfr.namespace
      then pure (ok (claim source.name true))
      else pure (
          err (
            errorf (
              "cross-namespace PVC restore not supported: PVC is in "
              <> (pvc_namespace <> (", VM is in " <> vmfr.namespace)))))

  read_again : Key → Action World (Result DataVolume)
  read_again key = do
    volume ← api.read_data_volume key
    on_result volume (λ e. pure (err (wrap "failed to get DataVolume" e))) (λ v. pure (ok v))

  abbrev or_default_mode : Result (Option String) → Option String
  or_default_mode (ok mode) = mode
  or_default_mode (err _) = none

  abbrev new_data_volume : FileRestore → VolumeSnapshotSource → Option String → DataVolume
  new_data_volume vmfr source mode = record {
    name = volume_name_of vmfr.name;
    namespace = vmfr.namespace;
    labels =
        ("app.kubernetes.io/managed-by", "vm-file-restore-operator")
        ∷ ("filerestore.kubevirt.io/name", vmfr.name)
        ∷ [];
    snapshot_namespace = namespace_or source.namespace vmfr.namespace;
    snapshot_name = source.name;
    access_modes = "ReadWriteOnce" ∷ [];
    volume_mode = mode;
    phase = data_volume_other "";
  }

  create_data_volume : FileRestore → VolumeSnapshotSource → Key → Action World (Result DataVolume)
  unfolding get_snapshot_source_volume_mode read_again
  create_data_volume vmfr source key = do
    mode ←
        get_snapshot_source_volume_mode source.name (namespace_or source.namespace vmfr.namespace)
    created ← api.create_data_volume (new_data_volume vmfr source (or_default_mode mode))
    on_result created
        (λ e.
          if is_already_exists e
          then read_again key
          else pure (err (wrap "failed to create DataVolume from snapshot" e)))
        (λ _. read_again key)

  -- The data volume of a snapshot restore, created unless it is there.
  ensure_data_volume : FileRestore → VolumeSnapshotSource → Action World (Result DataVolume)
  unfolding create_data_volume
  ensure_data_volume vmfr source = do
    let key : Key = record { name = volume_name_of vmfr.name; namespace = vmfr.namespace }
    volume ← api.read_data_volume key
    on_result volume
        (λ e.
          if is_not_found e
          then create_data_volume vmfr source key
          else pure (err (wrap "failed to get DataVolume" e)))
        (λ v. pure (ok v))

  provisioned : FileRestore → DataVolume → Result VolumeSource
  provisioned vmfr v = elim v.phase [
    | data_volume_succeeded ↦ ok (claim (volume_name_of vmfr.name) true)
    | data_volume_other _ ↦ err (
        new_transient_error (
          "DataVolume is provisioning (phase: "
          <> (data_volume_phase_text v.phase <> "), will retry")))
  ]

  -- The snapshot branch of `HotplugVolume`.
  snapshot_source : FileRestore → VolumeSnapshotSource → Action World (Result VolumeSource)
  unfolding ensure_data_volume provisioned
  snapshot_source vmfr source = do
    volume ← ensure_data_volume vmfr source
    on_result volume (λ e. pure (err e)) (λ v. pure (provisioned vmfr v))

  -- "Build volume source based on the restore source type"
  unfoldable pub volume_source : FileRestore → Action World (Result VolumeSource)
  unfolding claim_source snapshot_source
  volume_source vmfr =
      on_option vmfr.spec.source.pvc
        (on_option vmfr.spec.source.snapshot
          (on_option vmfr.spec.source.remote (pure (err (errorf "no valid source specified")))
            (λ _. pure (err (errorf "remote sources not yet supported"))))
          (snapshot_source vmfr))
        (claim_source vmfr)
