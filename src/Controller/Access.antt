-- ===== src/Controller/Access.antt =====
-- `getSSHPrivateKey`, `getOperatorNamespace` and `cleanup` of
-- internal/controller/virtualmachinefilerestore_controller.go.
use vm_file_restore_operator.Base.{◌*◌, String, ◌<>◌, Option, none, some, if◌then◌else◌}
use vm_file_restore_operator.Base.Texts.{is_empty}
use vm_file_restore_operator.Errors.{Result, ok, err, errorf}
use vm_file_restore_operator.Types.{Key, Bytes, FileRestore, Instance}
use vm_file_restore_operator.Monad.{Action, pure, ◌>>=◌, ◌>>◌, on_result, on_option}
use vm_file_restore_operator.Api.{Api}
use vm_file_restore_operator.Os.{detect_guest_os}
use vm_file_restore_operator.Network.{get_vmi_ip_address}
use vm_file_restore_operator.Ssh.{connect_ssh, build_cleanup_command}
use vm_file_restore_operator.Hotplug.Steps.{unplug_volume}
use vm_file_restore_operator.Controller.State.{second}

abbrev pub operator_resource_name : String
operator_resource_name = "vm-file-restore-operator-ssh"

abbrev pub ssh_auth_private_key : String
ssh_auth_private_key = "ssh-privatekey"

-- `getOperatorNamespace`, on the reconciler's field.
unfoldable pub get_operator_namespace : String → String
get_operator_namespace configured = if is_empty configured then "file-restore" else configured

abbrev pub target_key : FileRestore → Key
target_key vmfr = record { name = vmfr.spec.target.name; namespace = vmfr.namespace }

module _ (api : Api) (operator_namespace : String) where
  open api use {World, Connection}

  private_key_of : Option Bytes → Result Bytes
  private_key_of (some key) = ok key
  private_key_of none = err (
      errorf (
        "private key \"ssh-privatekey\" not found in secret "
        <> (get_operator_namespace operator_namespace <> ("/" <> operator_resource_name))))

  -- `getSSHPrivateKey`
  unfoldable pub get_ssh_private_key : Action World (Result Bytes)
  unfolding private_key_of
  get_ssh_private_key = do
    secret ← api.read_secret (record {
      name = operator_resource_name;
      namespace = get_operator_namespace operator_namespace;
    })
    on_result secret (λ e. pure (err e))
        (λ s. pure (private_key_of (s.values ssh_auth_private_key)))

  -- How the SSH part of `cleanup` ends: the connection that `defer` closes at the end, if one was
  -- opened, and the message of a panic, if there was one.
  pub record SshEnd : Type 0 where
    pub opened : Option Connection
    pub panic : Option String

  abbrev pub not_opened : SshEnd
  not_opened = record { opened = none; panic = none }

  -- The cleanup command on an open connection, with its limit of 30 seconds. `BuildCleanupCommand`
  -- panics without a mount path.
  unfoldable pub run_cleanup : FileRestore → Instance → Connection → Action World SshEnd
  run_cleanup vmfr vmi c =
      on_option (build_cleanup_command (detect_guest_os vmi) vmfr.status.mount_path)
        (pure (record {
          opened = some c;
          panic = some "BuildCleanupCommand called with empty mountPath";
        }))
        (λ command. do
          api.run c command (30 * second)
          pure (record { opened = some c; panic = none }))

  -- The SSH part of `cleanup`.
  unfoldable pub ssh_cleanup : FileRestore → Instance → Action World SshEnd
  unfolding run_cleanup
  ssh_cleanup vmfr vmi = do
    address ← get_vmi_ip_address api (some vmi)
    on_result address (λ _. pure not_opened)
        (λ ip. do
          key ← get_ssh_private_key
          on_result key (λ _. pure not_opened)
              (λ private_key. if is_empty vmfr.status.mount_path then pure not_opened else do
                client ← connect_ssh api ip private_key
                on_result client (λ _. pure not_opened) (λ c. run_cleanup vmfr vmi c)))

  unfoldable pub close_opened : Option Connection → Action World (Unit {0})
  close_opened opened = on_option opened (pure tt) (λ c. api.close c)

  -- "Unplug volume"; its error is dropped.
  unfoldable pub unplug_target : FileRestore → Action World (Unit {0})
  unplug_target vmfr = do
    vm ← api.get_machine (target_key vmfr)
    on_result vm (λ _. pure tt) (λ m. do unplug_volume api vmfr m; pure tt)

  -- `cleanup`. Every error is dropped, so it returns nothing; `some` is a panic, which skips the
  -- unplugging but not the deferred closing.
  unfoldable pub cleanup : FileRestore → Action World (Option String)
  cleanup vmfr = do
    vmi ← api.get_instance (target_key vmfr)
    ended ← on_result vmi (λ _. pure not_opened) (λ i. ssh_cleanup vmfr i)
    on_option ended.panic (unplug_target vmfr) (λ _. pure tt)
    close_opened ended.opened
    pure ended.panic
