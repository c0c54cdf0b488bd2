-- ===== src/Csv/Generator.antt =====
-- tools/csv-generator/csv-generator.go.
pub mod Printed
use vm_file_restore_operator.Base.{ℕ, String, ◌<>◌, Bool, true, false, if◌then◌else◌}
use vm_file_restore_operator.Base.Texts.{is_empty}
use vm_file_restore_operator.Errors.{Error, Result, ok, err}
use vm_file_restore_operator.Monad.{Action, pure, ◌>>=◌, ◌>>◌, on_result}
use vm_file_restore_operator.Csv.{ClusterServiceVersionData, ClusterServiceVersion}
use vm_file_restore_operator.Csv.Manifest.{new_cluster_service_version}

-- The flags, after `flag.Parse`.
pub record GeneratorFlags : Type 0 where
  pub data_of : ClusterServiceVersionData
  pub dump_crds : Bool

-- The YAML library, and the output of the process. `print` is `fmt.Print`, whose error is dropped.
pub record GeneratorApi : Type 1 where
  pub World : Type 0
  pub marshal : ClusterServiceVersion → Result String
  pub print : String → Action World (Unit {0})
  pub write : String → Action World (Result (Unit {0}))
  pub report : String → Action World (Unit {0})
  pub usage : Action World (Unit {0})
  pub restores_crd : String
  pub operators_crd : String

module _ (api : GeneratorApi) where
  open api use {World}

  -- The exit status.
  abbrev pub Program : Type 0
  Program = Action World ℕ

  unfoldable pub fail_with : String → Program
  fail_with message = do api.report message; pure 1

  -- `if *flag == "" { …; flag.Usage(); os.Exit(1) }`
  unfoldable pub require : String → String → Program → Program
  require value name k =
      if is_empty value
      then (do api.report ("Error: --" <> (name <> " is required")); api.usage; pure 1)
      else k

  unfoldable pub write_crds : Program
  write_crds = do
    first ← api.write api.restores_crd
    on_result first (λ e. fail_with ("Error writing CRD: " <> e.message))
        (λ _. do
          second ← api.write api.operators_crd
          on_result second (λ e. fail_with ("Error writing CRD: " <> e.message)) (λ _. pure 0))

  unfoldable pub print_csv : Bool → String → Program
  print_csv dump_crds yaml = do
    api.print "---\n"
    api.print yaml
    if dump_crds then write_crds else pure 0

  unfoldable pub generate : GeneratorFlags → Program
  generate flags =
      on_result (new_cluster_service_version flags.data_of)
        (λ e. fail_with ("Error creating CSV: " <> e.message))
        (λ csv.
          on_result (api.marshal csv)
            (λ e. fail_with ("Error marshaling CSV to YAML: " <> e.message))
            (print_csv flags.dump_crds))

  -- `main`
  unfoldable pub generator_main : GeneratorFlags → Program
  generator_main flags = require flags.data_of.csv_version "csv-version" (
      require flags.data_of.namespace "namespace" (
        require flags.data_of.operator_image "operator-image"
          (require flags.data_of.operator_version "operator-version" (generate flags))))
