-- ===== src/Csv/Access.antt =====
-- The requests of the operator, and the rules that its ClusterServiceVersion has for them.
use vm_file_restore_operator.Base.{
  String, Bool, true, false, ◌&&◌, ◌||◌, ◌=?◌, List, [], ◌∷◌, ◌++◌, exists,
}
use vm_file_restore_operator.Csv.{PolicyRule, Permissions, ClusterServiceVersion}

-- In the operator's namespace, or in any.
pub data Scope : Type 0 where
  own_namespace any_namespace : Scope

pub record Request : Type 0 where
  pub scope : Scope
  pub group : String
  pub resource : String
  pub verb : String

-- The calls of the operator that go to the API server: the client, the recorder, leader election.
pub data Call : Type 0 where
  get_restore update_restore patch_status : Call
  get_machine patch_machine get_instance get_claim get_snapshot list_pods : Call
  create_data_volume delete_data_volume : Call
  read_snapshot read_content read_data_volume read_secret : Call
  event : Call
  get_operator update_operator_status list_operators : Call
  create_secret get_config_map create_config_map update_config_map delete_config_map : Call
  elect_leader : Call

abbrev pub requests : Scope → String → String → List String → List Request
requests scope group resource [] = []
requests scope group resource (verb ∷ verbs) =
    record { scope = scope; group = group; resource = resource; verb = verb }
    ∷ requests scope group resource verbs

-- A read through the cache needs a list and a watch, one of the reader without a cache a get.
unfoldable pub requests_of : Call → List Request
requests_of get_restore =
    requests any_namespace "filerestore.kubevirt.io" "virtualmachinefilerestores"
      ("list" ∷ "watch" ∷ [])
requests_of update_restore =
    requests any_namespace "filerestore.kubevirt.io" "virtualmachinefilerestores" ("update" ∷ [])
requests_of patch_status =
    requests any_namespace "filerestore.kubevirt.io" "virtualmachinefilerestores/status"
      ("patch" ∷ [])
requests_of get_machine =
    requests any_namespace "kubevirt.io" "virtualmachines" ("list" ∷ "watch" ∷ [])
requests_of patch_machine = requests any_namespace "kubevirt.io" "virtualmachines" ("patch" ∷ [])
requests_of get_instance =
    requests any_namespace "kubevirt.io" "virtualmachineinstances" ("list" ∷ "watch" ∷ [])
requests_of get_claim = requests any_namespace "" "persistentvolumeclaims" ("list" ∷ "watch" ∷ [])
requests_of get_snapshot =
    requests any_namespace "snapshot.storage.k8s.io" "volumesnapshots" ("list" ∷ "watch" ∷ [])
requests_of list_pods = requests any_namespace "" "pods" ("list" ∷ "watch" ∷ [])
requests_of create_data_volume =
    requests any_namespace "cdi.kubevirt.io" "datavolumes" ("create" ∷ [])
requests_of delete_data_volume =
    requests any_namespace "cdi.kubevirt.io" "datavolumes" ("delete" ∷ [])
requests_of read_snapshot =
    requests any_namespace "snapshot.storage.k8s.io" "volumesnapshots" ("get" ∷ [])
requests_of read_content =
    requests any_namespace "snapshot.storage.k8s.io" "volumesnapshotcontents" ("get" ∷ [])
requests_of read_data_volume = requests any_namespace "cdi.kubevirt.io" "datavolumes" ("get" ∷ [])
requests_of read_secret = requests own_namespace "" "secrets" ("get" ∷ [])
requests_of event = requests any_namespace "" "events" ("create" ∷ "patch" ∷ [])
requests_of get_operator =
    requests any_namespace "filerestore.kubevirt.io" "filerestoreoperators" ("list" ∷ "watch" ∷ [])
requests_of update_operator_status =
    requests any_namespace "filerestore.kubevirt.io" "filerestoreoperators/status" ("update" ∷ [])
requests_of list_operators =
    requests any_namespace "filerestore.kubevirt.io" "filerestoreoperators" ("list" ∷ "watch" ∷ [])
requests_of create_secret = requests own_namespace "" "secrets" ("create" ∷ [])
requests_of get_config_map = requests own_namespace "" "configmaps" ("get" ∷ [])
requests_of create_config_map = requests own_namespace "" "configmaps" ("create" ∷ [])
requests_of update_config_map = requests own_namespace "" "configmaps" ("update" ∷ [])
requests_of delete_config_map = requests own_namespace "" "configmaps" ("delete" ∷ [])
requests_of elect_leader =
    requests own_namespace "coordination.k8s.io" "leases" ("get" ∷ "create" ∷ "update" ∷ [])

-- The documented matching of RBAC: one rule has the group, the resource and the verb; a star stands
-- for all.
abbrev pub names : String → List String → Bool
names s list = exists (λ t. t =? s || t =? "*") list

abbrev pub rule_allows : Request → PolicyRule → Bool
rule_allows r p = names r.group p.api_groups && names r.resource p.resources && names r.verb p.verbs

abbrev pub all_rules : List Permissions → List PolicyRule
all_rules [] = []
all_rules (p ∷ ps) = p.rules ++ all_rules ps

-- A role of the operator's namespace does not reach beyond it.
abbrev pub rules_for : Scope → ClusterServiceVersion → List PolicyRule
rules_for own_namespace csv = all_rules csv.permissions ++ all_rules csv.cluster_permissions
rules_for any_namespace csv = all_rules csv.cluster_permissions

abbrev pub is_granted : ClusterServiceVersion → Request → Bool
is_granted csv r = exists (rule_allows r) (rules_for r.scope csv)

abbrev pub all_granted : ClusterServiceVersion → List Request → Bool
all_granted csv [] = true
all_granted csv (r ∷ rs) = is_granted csv r && all_granted csv rs

-- The calls that lack a rule.
abbrev pub lacks_rule : Call → Bool
lacks_rule read_content = true
lacks_rule event = true
lacks_rule _ = false
