-- ===== src/Hotplug/Source/Claims.antt =====
-- The sources that `HotplugVolume` plugs.
use vm_file_restore_operator.Base.{
  ◌≡◌, ◌⊎◌, refl, inl, inr, true, Option, none, some, ◌=?◌, is_some,
}
use vm_file_restore_operator.Errors.{Error, Result, ok, err, errorf}
use vm_file_restore_operator.Types.{
  FileRestore, PvcSource, VolumeSnapshotSource, VolumeSource, claim, DataVolume, DataVolumePhase,
  data_volume_succeeded, data_volume_other,
}
use vm_file_restore_operator.Monad.{pure, on_option}
use vm_file_restore_operator.Monad.Rules.{Ends, Ends-bind, Ends-if, Ends-on_result, Ends-on_option}
use vm_file_restore_operator.Api.{Api}
use vm_file_restore_operator.Hotplug.Names.{volume_name_of, namespace_or}
use vm_file_restore_operator.Hotplug.Source.{
  volume_source, claim_source, snapshot_source, provisioned,
}

-- A hotpluggable claim: the source's own, in the restore's namespace; or the restore's, for a
-- snapshot.
abbrev pub IsOwnClaim : FileRestore → VolumeSource → Type 0
IsOwnClaim vmfr source =
    ((p : PvcSource) × (vmfr.spec.source.pvc ≡ some p)
      × (namespace_or p.namespace vmfr.namespace =? vmfr.namespace ≡ true)
      × (source ≡ claim p.name true))
    ⊎ ((is_some vmfr.spec.source.snapshot ≡ true)
        × (source ≡ claim (volume_name_of vmfr.name) true))

abbrev Sound : FileRestore → Result VolumeSource → Type 0
Sound vmfr r = (source : VolumeSource) → r ≡ ok source → IsOwnClaim vmfr source

err≢ok : (x : Error) (s : VolumeSource) → ¬ (err x ≡ ok s)
err≢ok x s e = cc

module _ (api : Api) where
  open api use {World}

  abbrev Any : World → Type 0
  Any w = Unit {0}

  failing : (vmfr : FileRestore) (x : Error) → Ends Any (λ r _. Sound vmfr r) (pure (err x))
  unfolding pure
  failing vmfr x = record { at = λ w h source e. absurd (err≢ok x source e) }

  claim_source-Sound :
      (vmfr : FileRestore) (p : PvcSource)
      → vmfr.spec.source.pvc ≡ some p
      → Ends Any (λ r _. Sound vmfr r) (claim_source api vmfr p)
  unfolding claim_source pure
  claim_source-Sound vmfr p given =
      Ends-if _ _ _ (λ same. record { at = λ w h source e. inl (p, given, same, cc) })
        (λ differs. failing vmfr _)

  provisioned_in :
      (vmfr : FileRestore) (v : DataVolume) (phase : DataVolumePhase)
      → v.phase ≡ phase
      → is_some vmfr.spec.source.snapshot ≡ true
      → Sound vmfr (provisioned api vmfr v)
  unfolding provisioned
  provisioned_in vmfr v data_volume_succeeded p given source e =
      let k : ok (claim (volume_name_of vmfr.name) true) ≡ ok source = rw p at e in inr (given, cc)
  provisioned_in vmfr v (data_volume_other t) p given source e =
      absurd (err≢ok _ source (rw p at e))

  provisioned-Sound :
      (vmfr : FileRestore) (v : DataVolume)
      → is_some vmfr.spec.source.snapshot ≡ true
      → Ends Any (λ r _. Sound vmfr r) (pure (provisioned api vmfr v))
  unfolding pure
  provisioned-Sound vmfr v given = record { at = λ w h. provisioned_in vmfr v v.phase refl given }

  snapshot_source-Sound :
      (vmfr : FileRestore) (s : VolumeSnapshotSource)
      → is_some vmfr.spec.source.snapshot ≡ true
      → Ends Any (λ r _. Sound vmfr r) (snapshot_source api vmfr s)
  unfolding snapshot_source
  snapshot_source-Sound vmfr s given =
      Ends-bind _ _ (record { at = λ w h. tt })
        λ volume. Ends-on_result _ _ _ (λ e. failing vmfr e) (λ v. provisioned-Sound vmfr v given)

  by_snapshot :
      (vmfr : FileRestore) (o : Option VolumeSnapshotSource)
      → vmfr.spec.source.snapshot ≡ o
      → Ends Any
          (λ r _. Sound vmfr r)
          (on_option o
            (on_option vmfr.spec.source.remote
              (pure (err (errorf "no valid source specified")))
              (λ _. pure (err (errorf "remote sources not yet supported"))))
            (snapshot_source api vmfr))
  unfolding on_option
  by_snapshot vmfr none e = Ends-on_option _ _ _ (failing vmfr _) (λ _. failing vmfr _)
  by_snapshot vmfr (some s) e = snapshot_source-Sound vmfr s (rw e refl)

  by_claim :
      (vmfr : FileRestore) (o : Option PvcSource)
      → vmfr.spec.source.pvc ≡ o
      → Ends Any
          (λ r _. Sound vmfr r)
          (on_option o
            (on_option vmfr.spec.source.snapshot
              (on_option vmfr.spec.source.remote
                (pure (err (errorf "no valid source specified")))
                (λ _. pure (err (errorf "remote sources not yet supported"))))
              (snapshot_source api vmfr))
            (claim_source api vmfr))
  unfolding on_option
  by_claim vmfr none e = by_snapshot vmfr vmfr.spec.source.snapshot refl
  by_claim vmfr (some p) e = claim_source-Sound vmfr p e

  -- What is plugged is a hotpluggable claim: the claim of the source, and then it is in the
  -- restore's own namespace; or the claim of the restore's own data volume, and then the source is
  -- a snapshot.
  pub volume_source-IsOwnClaim :
      (vmfr : FileRestore) (w : World) (source : VolumeSource)
      → (volume_source api vmfr w).0 ≡ ok source
      → IsOwnClaim vmfr source
  unfolding volume_source
  volume_source-IsOwnClaim vmfr w = (by_claim vmfr vmfr.spec.source.pvc refl).at w tt
