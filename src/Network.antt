-- ===== src/Network.antt =====
-- internal/controller/network.go: the address for the SSH connection.
pub mod Address
use vm_file_restore_operator.Base.{
  String, ◌<>◌, Bool, not, ◌&&◌, Option, none, some, List, ◌=?◌, if◌then◌else◌, find?, exists,
}
use vm_file_restore_operator.Base.Texts.{is_empty}
use vm_file_restore_operator.Errors.{Result, ok, err, errorf, wrap}
use vm_file_restore_operator.Types.{Interface, Instance, Pod}
use vm_file_restore_operator.Monad.{Action, pure, ◌>>=◌, on_result, on_option}
use vm_file_restore_operator.Api.{Api}

abbrev pub default_interface_name : String
default_interface_name = "default"

abbrev pub has_ip : Interface → Bool
has_ip i = not (is_empty i.ip)

abbrev pub is_default_with_ip : Interface → Bool
is_default_with_ip i = i.name =? default_interface_name && has_ip i

abbrev pub owned_by : String → Pod → Bool
owned_by uid pod = exists (λ owner. owner =? uid) pod.owner_uids

abbrev instance_path : Instance → String
instance_path vmi = vmi.namespace <> ("/" <> vmi.name)

module _ (api : Api) where
  open api use {World, list_pods}

  -- The search of `getPodForVMI` through the listed pods.
  owned_pod : Instance → Option Pod → Result Pod
  owned_pod vmi (some pod) = ok pod
  owned_pod vmi none = err (errorf ("virt-launcher pod not found for VMI " <> instance_path vmi))

  -- `getPodForVMI`
  unfoldable pub get_pod_for_vmi : Instance → Action World (Result Pod)
  unfolding owned_pod
  get_pod_for_vmi vmi = do
    pods ← list_pods vmi.namespace vmi.name
    on_result pods (λ e. pure (err (wrap ("failed to list pods for VMI " <> instance_path vmi) e)))
        (λ items. pure (owned_pod vmi (find? (owned_by vmi.uid) items)))

  pod_address : Result Pod → Result String
  pod_address (err e) = err e
  pod_address (ok pod) =
      if is_empty pod.pod_ip then err (errorf "pod IP not available") else ok pod.pod_ip

  -- The last fallback of `GetVMIPAddress`.
  unfoldable pub pod_ip_of : Instance → Action World (Result String)
  unfolding pod_address
  pod_ip_of vmi = do pod ← get_pod_for_vmi vmi; pure (pod_address pod)

  -- `GetVMIPAddress`; `none` is the nil pointer.
  unfoldable pub get_vmi_ip_address : Option Instance → Action World (Result String)
  get_vmi_ip_address vmi = on_option vmi (pure (err (errorf "VMI is nil"))) (λ i.
      on_option (find? is_default_with_ip i.interfaces)
        (on_option (find? has_ip i.interfaces) (pod_ip_of i) (λ f. pure (ok f.ip)))
        (λ d. pure (ok d.ip)))
