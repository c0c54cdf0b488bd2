-- ===== src/Csv/Required.antt =====
-- The fields without which no ClusterServiceVersion is made.
use vm_file_restore_operator.Base.{◌≡◌, refl, false, Bool-cases, inl, inr}
use vm_file_restore_operator.Base.Texts.{is_empty}
use vm_file_restore_operator.Errors.{ok}
use vm_file_restore_operator.Csv.{ClusterServiceVersionData, ClusterServiceVersion}
use vm_file_restore_operator.Csv.Manifest.{new_cluster_service_version, csv_of}

pub new_cluster_service_version-ok :
    (d : ClusterServiceVersionData) (csv : ClusterServiceVersion)
    → new_cluster_service_version d ≡ ok csv
    → (is_empty d.csv_version ≡ false)
      × (is_empty d.namespace ≡ false)
      × (is_empty d.operator_image ≡ false)
      × (csv_of d ≡ csv)
unfolding new_cluster_service_version
new_cluster_service_version-ok d csv e = elim (Bool-cases (is_empty d.csv_version)) [
  | inl no_version ↦ cc (rw no_version at e)
  | inr version ↦ elim (Bool-cases (is_empty d.namespace)) [
    | inl no_namespace ↦ cc (rw (version, no_namespace) at e)
    | inr namespace ↦ elim (Bool-cases (is_empty d.operator_image)) [
      | inl no_image ↦ cc (rw (version, namespace, no_image) at e)
      | inr image ↦
          let k : ok (csv_of d) ≡ ok csv = rw (version, namespace, image) at e in
          (version, namespace, image, cc)
    ]
  ]
]

pub new_cluster_service_version-filled :
    (d : ClusterServiceVersionData)
    → is_empty d.csv_version ≡ false
    → is_empty d.namespace ≡ false
    → is_empty d.operator_image ≡ false
    → new_cluster_service_version d ≡ ok (csv_of d)
unfolding new_cluster_service_version
new_cluster_service_version-filled d v n i = rw (v, n, i) refl
