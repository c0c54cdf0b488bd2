-- ===== src/Csv/Generator/Printed.antt =====
-- What the generator prints.
use vm_file_restore_operator.Base.{ℕ, ◌≡◌, refl, String, false, Bool-cases, inl, inr, arith}
use vm_file_restore_operator.Base.Texts.{is_empty}
use vm_file_restore_operator.Errors.{ok}
use vm_file_restore_operator.Monad.{pure, ◌>>=◌, ◌>>◌, on_result}
use vm_file_restore_operator.Csv.Manifest.{csv_of}
use vm_file_restore_operator.Csv.Required.{new_cluster_service_version-filled}
use vm_file_restore_operator.Csv.Generator.{
  GeneratorFlags, GeneratorApi, require, print_csv, generate, generator_main,
}

module _ (api : GeneratorApi) where
  open api use {World}

  -- A missing flag gives the exit status 1.
  require-zero :
      (value name : String) (k : World → ℕ × World) (w : World)
      → (require api value name k w).0 ≡ 0
      → (is_empty value ≡ false) × ((k w).0 ≡ 0)
  unfolding require pure ◌>>◌ ◌>>=◌
  require-zero value name k w e = elim (Bool-cases (is_empty value)) [
    | inl missing ↦ let bad : ◌≡◌ {A = ℕ} 1 0 = rw missing at e in absurd (omega arith)
    | inr given ↦ (given, rw given at e)
  ]

  -- The generator ends with the exit status 0 only if the four required flags are given.
  pub generator_main-zero :
      (flags : GeneratorFlags) (w : World)
      → (generator_main api flags w).0 ≡ 0
      → (is_empty flags.data_of.csv_version ≡ false)
        × (is_empty flags.data_of.namespace ≡ false)
        × (is_empty flags.data_of.operator_image ≡ false)
        × (is_empty flags.data_of.operator_version ≡ false)
  unfolding generator_main
  generator_main-zero flags w e =
      let (version, e1) = require-zero _ _ _ w e in
      let (namespace, e2) = require-zero _ _ _ w e1 in
      let (image, e3) = require-zero _ _ _ w e2 in
      let (operator_version, _) = require-zero _ _ _ w e3 in
      (version, namespace, image, operator_version)

  -- With the four flags, the object that is printed is the one of the flags, behind a line of
  -- dashes; without `--dump-crds` nothing else is printed, and the exit status is 0.
  pub generator_main-prints :
      (flags : GeneratorFlags) (yaml : String) (w : World)
      → is_empty flags.data_of.csv_version ≡ false
      → is_empty flags.data_of.namespace ≡ false
      → is_empty flags.data_of.operator_image ≡ false
      → is_empty flags.data_of.operator_version ≡ false
      → api.marshal (csv_of flags.data_of) ≡ ok yaml
      → flags.dump_crds ≡ false
      → generator_main api flags w ≡ (0, (api.print yaml (api.print "---\n" w).1).1)
  unfolding generator_main require generate print_csv on_result pure ◌>>◌ ◌>>=◌
  generator_main-prints flags yaml w version namespace image operator_version marshalled quiet =
      rw (version, namespace, image, operator_version)
        (rw (new_cluster_service_version-filled flags.data_of version namespace image, on_result)
          (rw (marshalled, on_result) (rw quiet refl)))
