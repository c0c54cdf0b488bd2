-- ===== src/Resources/Ensure.antt =====
-- `EnsureOperatorResources` of internal/controller/keypair.go, with the calls that it makes.
pub mod Safety
pub mod Pairing
pub mod Settled
pub mod Recovery
use vm_file_restore_operator.Base.{
  String, ◌<>◌, ◌==◌, Bool, true, false, not, ◌&&◌, Option, none, some, List, [], ◌∷◌, ◌=?◌,
  if◌then◌else◌,
}
use vm_file_restore_operator.Base.Dict.{lookup, insert}
use vm_file_restore_operator.Errors.{
  Error, Result, ok, err, errorf, wrap, is_not_found, is_conflict,
}
use vm_file_restore_operator.Types.{Key, Bytes, Secret}
use vm_file_restore_operator.Monad.{Action, pure, ◌>>=◌, on_result}
use vm_file_restore_operator.Controller.Access.{operator_resource_name, ssh_auth_private_key}
use vm_file_restore_operator.Resources.{ResourceApi, ConfigMap}
use vm_file_restore_operator.Resources.Tar.{build_tar}

abbrev pub public_key_entry : String
public_key_entry = "ssh-publickey"

abbrev pub linux_helpers_entry : String
linux_helpers_entry = "linux-helpers.tar"

abbrev pub windows_helpers_entry : String
windows_helpers_entry = "windows-helpers.tar"

abbrev pub resource_key : String → Key
resource_key namespace = record { name = operator_resource_name; namespace = namespace }

-- `bytes.Equal`
unfoldable pub bytes_equal : Bytes → Bytes → Bool
bytes_equal [] [] = true
bytes_equal (x ∷ xs) (y ∷ ys) = x == y && bytes_equal xs ys
bytes_equal _ _ = false

-- A nil map reads as an empty one, and is replaced by one before it is written.
abbrev pub made : Option (List (String × Bytes)) → List (String × Bytes)
made none = []
made (some m) = m

-- `cm.BinaryData[k]`, which is nil for a missing key.
abbrev pub entry_of : Option Bytes → Bytes
entry_of none = []
entry_of (some bytes) = bytes

unfoldable pub binary_entry : String → ConfigMap → Bytes
unfolding lookup
binary_entry k cm = entry_of (lookup k (made cm.binary_data))

unfoldable pub has_archives : Bytes → Bytes → ConfigMap → Bool
unfolding bytes_equal binary_entry
has_archives linux_tar windows_tar cm =
    bytes_equal (binary_entry linux_helpers_entry cm) linux_tar
    && bytes_equal (binary_entry windows_helpers_entry cm) windows_tar

-- The two assignments to `cm.BinaryData`.
unfoldable pub with_archives : Bytes → Bytes → ConfigMap → ConfigMap
with_archives linux_tar windows_tar cm = record cm {
  binary_data = some (
      insert windows_helpers_entry windows_tar
        (insert linux_helpers_entry linux_tar (made cm.binary_data)));
}

-- `Data` of the new secret.
abbrev pub secret_of : Bytes → Secret
secret_of pem = record { values = λ k. if k =? ssh_auth_private_key then some pem else none }

abbrev pub new_config_map : String → String → Bytes → Bytes → ConfigMap
new_config_map namespace public linux_tar windows_tar = record {
  key = resource_key namespace;
  values = (public_key_entry, public) ∷ [];
  binary_data = some ((linux_helpers_entry, linux_tar) ∷ (windows_helpers_entry, windows_tar) ∷ []);
}

module _ (api : ResourceApi) where
  open api use {World}

  abbrev pub Ensured : Type 0
  Ensured = Action World (Result (Unit {0}))

  abbrev pub refuse : String → Error → Ensured
  refuse context e = pure (err (wrap context e))

  -- Both archives, for the rest of the work.
  unfoldable pub with_tars : (Bytes → Bytes → Ensured) → Ensured
  unfolding build_tar
  with_tars k =
      on_result (build_tar api.tar api.linux_scripts ("setup.sh" ∷ "filerestore.sh" ∷ []))
        (refuse "failed to build linux helpers tar")
        (λ linux_tar.
          on_result (build_tar api.tar api.windows_scripts ("setup.bat" ∷ "filerestore.bat" ∷ []))
            (refuse "failed to build windows helpers tar") (λ windows_tar. k linux_tar windows_tar))

  -- `createConfigMap`
  unfoldable pub create_config_map : String → String → Ensured
  create_config_map namespace public = with_tars λ linux_tar windows_tar. do
    created ← api.create_config_map (new_config_map namespace public linux_tar windows_tar)
    on_result created (refuse "failed to create ConfigMap") (λ _. pure (ok tt))

  -- With the private key of the secret that is there; an empty one counts as missing.
  unfoldable pub publish_key_of : String → Option Bytes → Ensured
  unfolding create_config_map
  publish_key_of namespace none = pure (
      err (
        errorf
          "existing Secret is missing ssh-privatekey; cannot recover ConfigMap without the private key"))
  publish_key_of namespace (some []) = pure (
      err (
        errorf
          "existing Secret is missing ssh-privatekey; cannot recover ConfigMap without the private key"))
  publish_key_of namespace (some (b ∷ bs)) =
      on_result (api.parse_private_key (b ∷ bs)) (refuse "failed to parse existing private key")
        (λ signer. create_config_map namespace (api.marshal_authorized_key (api.public_key signer)))

  -- `createConfigMapFromSecret`
  unfoldable pub create_config_map_from_secret : String → Secret → Ensured
  unfolding publish_key_of
  create_config_map_from_secret namespace secret =
      publish_key_of namespace (secret.values ssh_auth_private_key)

  -- The secret, then the config map.
  unfoldable pub store_keypair : String → Bytes → String → Ensured
  store_keypair namespace pem public = do
    created ← api.create_secret (resource_key namespace) (secret_of pem)
    on_result created (refuse "failed to create Secret") (λ _. create_config_map namespace public)

  -- `createKeypairAndConfigMap`
  unfoldable pub create_keypair_and_config_map : String → Ensured
  create_keypair_and_config_map namespace = do
    generated ← api.generate_key
    on_result generated (refuse "failed to generate keypair") (λ keys.
        on_result (api.marshal_private_key keys.1) (refuse "failed to marshal private key")
          (λ block.
            on_result (api.new_public_key keys.0) (refuse "failed to create SSH public key")
              (λ public.
                store_keypair namespace (api.encode_to_memory block)
                  (api.marshal_authorized_key public))))

  -- "refetch and retry once"
  unfoldable pub update_again : Bytes → Bytes → Key → Ensured
  unfolding with_archives
  update_again linux_tar windows_tar key = do
    found ← api.get_config_map key
    on_result found (refuse "failed to re-fetch ConfigMap after conflict") (λ cm. do
      updated ← api.update_config_map (with_archives linux_tar windows_tar cm)
      on_result updated
          (refuse "failed to update ConfigMap with helper tars (after conflict retry)")
          (λ _. pure (ok tt)))

  unfoldable pub update_archives : Bytes → Bytes → ConfigMap → Ensured
  unfolding with_archives
  update_archives linux_tar windows_tar cm = do
    updated ← api.update_config_map (with_archives linux_tar windows_tar cm)
    on_result updated
        (λ e.
          if is_conflict e
          then update_again linux_tar windows_tar cm.key
          else refuse "failed to update ConfigMap with helper tars" e)
        (λ _. pure (ok tt))

  -- `ensureHelperTars`
  unfoldable pub ensure_helper_tars : ConfigMap → Ensured
  ensure_helper_tars cm = with_tars λ linux_tar windows_tar.
      if has_archives linux_tar windows_tar cm
      then pure (ok tt)
      else update_archives linux_tar windows_tar cm

  -- Without a secret: a config map that is there is an orphan.
  unfoldable pub replace_orphan : String → Result ConfigMap → Ensured
  replace_orphan namespace (err e) =
      if is_not_found e
      then create_keypair_and_config_map namespace
      else refuse "failed to check for existing ConfigMap" e
  replace_orphan namespace (ok cm) = do
    deleted ← api.delete_config_map cm.key
    on_result deleted
        (λ e.
          if is_not_found e
          then create_keypair_and_config_map namespace
          else refuse "failed to cleanup orphaned ConfigMap" e)
        (λ _. create_keypair_and_config_map namespace)

  -- The cases of the two answers.
  unfoldable pub ensure_both : String → Result Secret → Result ConfigMap → Ensured
  ensure_both namespace (ok secret) (ok cm) = ensure_helper_tars cm
  ensure_both namespace (ok secret) (err e) =
      if is_not_found e
      then create_config_map_from_secret namespace secret
      else refuse "failed to check for existing ConfigMap" e
  ensure_both namespace (err e) cm =
      if is_not_found e
      then replace_orphan namespace cm
      else refuse "failed to check for existing Secret" e

  -- `EnsureOperatorResources`
  unfoldable pub ensure_operator_resources : String → Ensured
  ensure_operator_resources namespace = do
    secret ← api.get_secret (resource_key namespace)
    cm ← api.get_config_map (resource_key namespace)
    ensure_both namespace secret cm
