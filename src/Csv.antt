-- ===== src/Csv.antt =====
-- pkg/resources/operator/csv.go: the ClusterServiceVersion with which OLM installs the operator.
pub mod Rules
pub mod Manifest
pub mod Required
pub mod Access
pub mod Generator
use vm_file_restore_operator.Base.{ℕ, String, Bool, List, [], ◌∷◌}

pub record ClusterServiceVersionData : Type 0 where
  pub csv_version : String
  pub replaces_csv_version : String
  pub namespace : String
  pub image_pull_policy : String
  pub icon_base64 : String
  pub verbosity : String
  pub operator_version : String
  pub operator_image : String

-- `rbacv1.PolicyRule`
pub record PolicyRule : Type 0 where
  pub api_groups : List String
  pub resources : List String
  pub verbs : List String

pub record Permissions : Type 0 where
  pub service_account_name : String
  pub rules : List PolicyRule

-- An environment variable: a value, or a field of the pod.
pub data EnvVar : Type 0 where
  from_value : String → String → EnvVar
  from_field : String → String → EnvVar

pub record Probe : Type 0 where
  pub path : String
  pub port : ℕ
  pub initial_delay_seconds : ℕ
  pub period_seconds : ℕ

pub record Container : Type 0 where
  pub name : String
  pub image : String
  pub image_pull_policy : String
  pub command : List String
  pub args : List String
  pub env : List EnvVar
  pub requests : List (String × String)
  pub allow_privilege_escalation : Bool
  pub drop_capabilities : List String
  pub termination_message_policy : String
  pub liveness_probe : Probe
  pub readiness_probe : Probe

pub record Deployment : Type 0 where
  pub name : String
  pub replicas : ℕ
  pub selector : List (String × String)
  pub labels : List (String × String)
  pub service_account_name : String
  pub run_as_non_root : Bool
  pub seccomp_profile : String
  pub containers : List Container

pub record CrdDescription : Type 0 where
  pub name : String
  pub version : String
  pub kind : String
  pub display_name : String
  pub description : String

pub record InstallMode : Type 0 where
  pub type : String
  pub supported : Bool

pub record ClusterServiceVersion : Type 0 where
  pub kind : String
  pub api_version : String
  pub name : String
  pub namespace : String
  pub annotations : List (String × String)
  pub display_name : String
  pub description : String
  pub maturity : String
  pub maintainers : List (String × String)
  pub provider : String
  pub links : List (String × String)
  pub keywords : List String
  pub icon : List (String × String)
  pub install_modes : List InstallMode
  pub strategy_name : String
  pub deployments : List Deployment
  pub permissions : List Permissions
  pub cluster_permissions : List Permissions
  pub owned : List CrdDescription
  pub replaces : String
