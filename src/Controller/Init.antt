-- ===== src/Controller/Init.antt =====
-- `handleInitPhase` of internal/controller/phases.go.
use vm_file_restore_operator.Base.{
  ℕ, ◌+◌, String, ◌<>◌, none, some, ◌==◌, ltb, is_some, if◌then◌else◌,
}
use vm_file_restore_operator.Errors.{Error, errorf, is_not_found}
use vm_file_restore_operator.Types.{
  FileRestore, RestoreSource, PvcSource, VolumeSnapshotSource, Instance, hotplugging,
}
use vm_file_restore_operator.Monad.{Action, pure, ◌>>=◌, ◌>>◌, on_result, on_option}
use vm_file_restore_operator.Api.{Api}
use vm_file_restore_operator.Os.{get_mount_path}
use vm_file_restore_operator.Hotplug.Names.{namespace_or}
use vm_file_restore_operator.Controller.State.{
  St, Reply, fail, lift, set_status, the_restore, patch_status,
}
use vm_file_restore_operator.Controller.Access.{target_key}
use vm_file_restore_operator.Controller.Steps.{transition_phase, fail_restore}

-- `sourceCount`
unfoldable pub source_count : RestoreSource → ℕ
source_count s =
    (if is_some s.pvc then 1 else 0)
    + (if is_some s.snapshot then 1 else 0)
    + (if is_some s.remote then 1 else 0)

-- `getSourceName`
unfoldable pub get_source_name : FileRestore → String
get_source_name vmfr = elim vmfr.spec.source.pvc [
  | some p ↦ p.name
  | none ↦ elim vmfr.spec.source.snapshot [ some s ↦ s.name | none ↦ vmfr.name ]
]

abbrev exactly_one : String
exactly_one = "must specify exactly one of pvc, snapshot, or remote"

module _ (api : Api) (operator_namespace : String) where
  open api use {World}

  -- `return failRestore(ctx, r, vmfr, err, …)` with one detail for a missing object and another
  -- for any other error.
  fail_lookup : Error → String → String → Action (St World) Reply
  fail_lookup e missing otherwise =
      if is_not_found e
      then fail_restore api operator_namespace e missing
      else fail_restore api operator_namespace e otherwise

  -- From the detection of the guest OS on.
  unfoldable pub start_hotplug : Instance → Action (St World) Reply
  start_hotplug vmi = do
    vmfr ← the_restore
    set_status (λ st. record st { mount_path = get_mount_path vmi (get_source_name vmfr) })
    patched ← patch_status api vmfr
    on_result patched (λ e. do set_status (λ st. record st { mount_path = "" }); pure (fail e))
        (λ _. transition_phase api hotplugging "Validation complete, starting volume hotplug")

  check_claim : FileRestore → PvcSource → Instance → Action (St World) Reply
  unfolding fail_lookup
  check_claim vmfr source vmi = do
    let namespace = namespace_or source.namespace vmfr.namespace
    found ← lift (api.get_claim (record { name = source.name; namespace = namespace }))
    on_result found
        (λ e.
          fail_lookup e ("source PVC " <> (namespace <> ("/" <> (source.name <> " not found"))))
            "failed to get source PVC")
        (λ _. start_hotplug vmi)

  check_snapshot : FileRestore → VolumeSnapshotSource → Instance → Action (St World) Reply
  unfolding fail_lookup
  check_snapshot vmfr source vmi = do
    let namespace = namespace_or source.namespace vmfr.namespace
    found ← lift (api.get_snapshot (record { name = source.name; namespace = namespace }))
    on_result found
        (λ e.
          fail_lookup e
            ("source snapshot " <> (namespace <> ("/" <> (source.name <> " not found"))))
            "failed to get source snapshot")
        (λ _. start_hotplug vmi)

  -- "Validate source exists"
  check_source : FileRestore → Instance → Action (St World) Reply
  unfolding check_claim check_snapshot
  check_source vmfr vmi =
      on_option vmfr.spec.source.pvc
        (on_option vmfr.spec.source.snapshot
          (on_option vmfr.spec.source.remote (start_hotplug vmi) (λ _.
            fail_restore api operator_namespace (errorf "remote sources not supported")
              "remote restore source is not yet implemented"))
          (λ s. check_snapshot vmfr s vmi))
        (λ p. check_claim vmfr p vmi)

  -- The target machine, then its instance, then the source.
  check_target : FileRestore → Action (St World) Reply
  unfolding check_source
  check_target vmfr = do
    vm ← lift (api.get_machine (target_key vmfr))
    on_result vm
        (λ e.
          fail_lookup e ("target VM " <> (vmfr.spec.target.name <> " not found"))
            "failed to get target VM")
        (λ _. do
          vmi ← lift (api.get_instance (target_key vmfr))
          on_result vmi
              (λ e.
                fail_lookup e
                  ("target VM " <> (vmfr.spec.target.name <> " is not running (no VMI found)"))
                  "failed to get VMI")
              (λ i. check_source vmfr i))

  -- "Validate exactly one source is specified", then the rest.
  validate : FileRestore → Action (St World) Reply
  unfolding check_target
  validate vmfr =
      if source_count vmfr.spec.source == 0
      then fail_restore api operator_namespace (errorf "no source specified") exactly_one
      else if ltb 1 (source_count vmfr.spec.source)
      then fail_restore api operator_namespace (errorf "multiple sources specified") exactly_one
      else check_target vmfr

  -- `handleInitPhase`
  unfoldable pub handle_init_phase : Action (St World) Reply
  unfolding validate
  handle_init_phase = the_restore >>= validate
