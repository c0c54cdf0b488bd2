-- ===== src/Csv/Manifest.antt =====
-- `NewClusterServiceVersion`.
use vm_file_restore_operator.Base.{ℕ, String, ◌<>◌, true, false, List, [], ◌∷◌, if◌then◌else◌}
use vm_file_restore_operator.Base.Texts.{is_empty}
use vm_file_restore_operator.Errors.{Result, ok, err, errorf}
use vm_file_restore_operator.Csv.{
  ClusterServiceVersionData, ClusterServiceVersion, Container, Deployment, CrdDescription,
  InstallMode, Probe, from_value, from_field,
}
use vm_file_restore_operator.Csv.Rules.{service_account, permissions, cluster_permissions}

abbrev pub examples : String
examples =
    "[\n          {\n            \"apiVersion\": \"filerestore.kubevirt.io/v1alpha1\",\n            \"kind\": \"FileRestoreOperator\",\n            \"metadata\": {\n              \"name\": \"vm-file-restore-operator\",\n              \"namespace\": \"file-restore\"\n            },\n            \"spec\": {\n              \"imagePullPolicy\": \"IfNotPresent\"\n            }\n          }\n        ]"

abbrev pub probe : String → ℕ → ℕ → Probe
probe path initial_delay period = record {
  path = path;
  port = 8081;
  initial_delay_seconds = initial_delay;
  period_seconds = period;
}

unfoldable pub container_of : ClusterServiceVersionData → Container
container_of d = record {
  name = "manager";
  image = d.operator_image;
  image_pull_policy = d.image_pull_policy;
  command = "/manager" ∷ [];
  args = "--leader-elect" ∷ "--health-probe-bind-address=:8081" ∷ [];
  env =
      from_field "OPERATOR_NAMESPACE" "metadata.namespace"
      ∷ from_value "OPERATOR_VERSION" d.operator_version
      ∷ from_value "VERBOSITY" d.verbosity
      ∷ [];
  requests = ("cpu", "10m") ∷ ("memory", "96Mi") ∷ [];
  allow_privilege_escalation = false;
  drop_capabilities = "ALL" ∷ [];
  termination_message_policy = "FallbackToLogsOnError";
  liveness_probe = probe "/healthz" 15 20;
  readiness_probe = probe "/readyz" 5 10;
}

unfoldable pub deployment_of : ClusterServiceVersionData → Deployment
unfolding container_of
deployment_of d = record {
  name = service_account;
  replicas = 1;
  selector = ("name", service_account) ∷ [];
  labels = ("name", service_account) ∷ [];
  service_account_name = service_account;
  run_as_non_root = true;
  seccomp_profile = "RuntimeDefault";
  containers = container_of d ∷ [];
}

abbrev pub install_modes : List InstallMode
install_modes =
    record { type = "OwnNamespace"; supported = true }
    ∷ record { type = "SingleNamespace"; supported = true }
    ∷ record { type = "MultiNamespace"; supported = false }
    ∷ record { type = "AllNamespaces"; supported = false }
    ∷ []

abbrev pub owned : List CrdDescription
owned =
    record {
      name = "filerestoreoperators.filerestore.kubevirt.io";
      version = "v1alpha1";
      kind = "FileRestoreOperator";
      display_name = "File Restore Operator";
      description = "Represents the deployment of the VM File Restore Operator";
    }
    ∷ record {
      name = "virtualmachinefilerestores.filerestore.kubevirt.io";
      version = "v1alpha1";
      kind = "VirtualMachineFileRestore";
      display_name = "Virtual Machine File Restore";
      description = "Represents a file-level restore operation from a VM snapshot";
    }
    ∷ []

abbrev pub csv_name : String → String
csv_name version = "vm-file-restore-operator." <> version

-- The object, with `Replaces` last.
unfoldable pub csv_of : ClusterServiceVersionData → ClusterServiceVersion
unfolding deployment_of
csv_of d = record {
  kind = "ClusterServiceVersion";
  api_version = "operators.coreos.com/v1alpha1";
  name = csv_name d.csv_version;
  namespace = d.namespace;
  annotations =
      ("capabilities", "Basic Install")
      ∷ ("categories", "Storage")
      ∷ (
        "description",
        "VM File Restore Operator provides file-level restore capabilities for KubeVirt VMs",
      )
      ∷ ("alm-examples", examples)
      ∷ [];
  display_name = "VM File Restore Operator";
  description =
      "The VM File Restore Operator enables file-level restore from VM snapshots without full VM restoration";
  maturity = "alpha";
  maintainers = ("KubeVirt project", "kubevirt-dev@googlegroups.com") ∷ [];
  provider = "KubeVirt";
  links = ("Source Code", "https://github.com/kubevirt/vm-file-restore-operator") ∷ [];
  keywords = "KubeVirt" ∷ "Virtualization" ∷ "Restore" ∷ "Backup" ∷ [];
  icon = (d.icon_base64, "image/png") ∷ [];
  install_modes = install_modes;
  strategy_name = "deployment";
  deployments = deployment_of d ∷ [];
  permissions = permissions ∷ [];
  cluster_permissions = cluster_permissions ∷ [];
  owned = owned;
  replaces = if is_empty d.replaces_csv_version then "" else csv_name d.replaces_csv_version;
}

-- `NewClusterServiceVersion`
unfoldable pub new_cluster_service_version :
    ClusterServiceVersionData → Result ClusterServiceVersion
unfolding csv_of
new_cluster_service_version d =
    if is_empty d.csv_version
    then err (errorf "csv version must not be empty")
    else if is_empty d.namespace
    then err (errorf "namespace must not be empty")
    else if is_empty d.operator_image
    then err (errorf "operator image must not be empty")
    else ok (csv_of d)
