-- ===== src/Csv/Rules.antt =====
-- The rules in the ClusterServiceVersion.
use vm_file_restore_operator.Base.{String, List, [], ◌∷◌}
use vm_file_restore_operator.Csv.{PolicyRule, Permissions}

abbrev pub service_account : String
service_account = "vm-file-restore-operator-controller-manager"

abbrev pub rule : String → String → List String → PolicyRule
rule group resource verbs = record {
  api_groups = group ∷ [];
  resources = resource ∷ [];
  verbs = verbs;
}

-- `Permissions`, for the namespace of the operator.
abbrev pub permissions : Permissions
permissions = record {
  service_account_name = service_account;
  rules =
      rule "" "configmaps"
        ("get" ∷ "list" ∷ "watch" ∷ "create" ∷ "update" ∷ "patch" ∷ "delete" ∷ [])
      ∷ rule "" "secrets" ("create" ∷ "get" ∷ "list" ∷ "watch" ∷ [])
      ∷ rule "coordination.k8s.io" "leases"
          ("get" ∷ "list" ∷ "watch" ∷ "create" ∷ "update" ∷ "patch" ∷ "delete" ∷ [])
      ∷ rule "" "events" ("create" ∷ "patch" ∷ [])
      ∷ [];
}

-- `ClusterPermissions`, for every namespace.
abbrev pub cluster_permissions : Permissions
cluster_permissions = record {
  service_account_name = service_account;
  rules =
      rule "filerestore.kubevirt.io" "filerestoreoperators"
        ("get" ∷ "list" ∷ "watch" ∷ "create" ∷ "update" ∷ "patch" ∷ "delete" ∷ [])
      ∷ rule "filerestore.kubevirt.io" "filerestoreoperators/status"
          ("get" ∷ "update" ∷ "patch" ∷ [])
      ∷ rule "filerestore.kubevirt.io" "filerestoreoperators/finalizers" ("update" ∷ [])
      ∷ rule "filerestore.kubevirt.io" "virtualmachinefilerestores"
          ("get" ∷ "list" ∷ "watch" ∷ "create" ∷ "update" ∷ "patch" ∷ "delete" ∷ [])
      ∷ rule "filerestore.kubevirt.io" "virtualmachinefilerestores/status"
          ("get" ∷ "update" ∷ "patch" ∷ [])
      ∷ rule "filerestore.kubevirt.io" "virtualmachinefilerestores/finalizers" ("update" ∷ [])
      ∷ rule "kubevirt.io" "virtualmachines" ("get" ∷ "list" ∷ "watch" ∷ "patch" ∷ "update" ∷ [])
      ∷ rule "kubevirt.io" "virtualmachineinstances" ("get" ∷ "list" ∷ "watch" ∷ [])
      ∷ rule "cdi.kubevirt.io" "datavolumes" ("create" ∷ "delete" ∷ "get" ∷ "list" ∷ [])
      ∷ rule "snapshot.storage.k8s.io" "volumesnapshots" ("get" ∷ "list" ∷ "watch" ∷ [])
      ∷ rule "" "persistentvolumeclaims" ("get" ∷ "list" ∷ "watch" ∷ "create" ∷ "delete" ∷ [])
      ∷ rule "" "pods" ("get" ∷ "list" ∷ "watch" ∷ "create" ∷ "delete" ∷ [])
      ∷ rule "" "pods/exec" ("create" ∷ [])
      ∷ [];
}
