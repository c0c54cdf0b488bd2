-- ===== src/Resources/Server.antt =====
-- What the operator relies on of the API server and of the key functions, for the two resources.
use vm_file_restore_operator.Base.{ℕ, ◌≡◌, ◌⊎◌, true, Option, none, some}
use vm_file_restore_operator.Errors.{Error, ok, err, is_not_found}
use vm_file_restore_operator.Types.{Key, Secret}
use vm_file_restore_operator.Resources.{ResourceApi, ConfigMap}

-- `secret_in` and `config_map_in` are the two objects that the server holds under the key `k`. An
-- object is created only where there is none, a missing object is reported as such only where it is
-- missing, and an update leads to the object that was sent. A write that fails may have happened.
pub record IsResourceServer (api : ResourceApi) (k : Key) (secret_in : api.World → Option Secret)
    (config_map_in : api.World → Option ConfigMap) : Type 0 where
  -- what leaves the secret alone
  pub get_secret-secret : (w : api.World) → secret_in (api.get_secret k w).1 ≡ secret_in w
  pub get_config_map-secret :
      (k' : Key) (w : api.World) → secret_in (api.get_config_map k' w).1 ≡ secret_in w
  pub create_config_map-secret :
      (cm : ConfigMap) (w : api.World) → secret_in (api.create_config_map cm w).1 ≡ secret_in w
  pub update_config_map-secret :
      (cm : ConfigMap) (w : api.World) → secret_in (api.update_config_map cm w).1 ≡ secret_in w
  pub delete_config_map-secret :
      (k' : Key) (w : api.World) → secret_in (api.delete_config_map k' w).1 ≡ secret_in w
  pub generate_key-secret : (w : api.World) → secret_in (api.generate_key w).1 ≡ secret_in w
  pub sleep-secret : (n : ℕ) (w : api.World) → secret_in (api.sleep n w).1 ≡ secret_in w
  -- what leaves the config map alone
  pub get_secret-config_map :
      (w : api.World) → config_map_in (api.get_secret k w).1 ≡ config_map_in w
  pub get_config_map-config_map :
      (w : api.World) → config_map_in (api.get_config_map k w).1 ≡ config_map_in w
  pub create_secret-config_map :
      (s : Secret) (w : api.World) → config_map_in (api.create_secret k s w).1 ≡ config_map_in w
  pub generate_key-config_map :
      (w : api.World) → config_map_in (api.generate_key w).1 ≡ config_map_in w
  pub sleep-config_map : (n : ℕ) (w : api.World) → config_map_in (api.sleep n w).1 ≡ config_map_in w
  -- the reads
  pub get_secret_ok :
      (w : api.World) (s : Secret) → (api.get_secret k w).0 ≡ ok s → secret_in w ≡ some s
  pub get_secret_missing :
      (w : api.World) (e : Error)
      → (api.get_secret k w).0 ≡ err e
      → is_not_found e ≡ true
      → secret_in w ≡ none
  pub get_config_map_ok :
      (w : api.World) (cm : ConfigMap)
      → (api.get_config_map k w).0 ≡ ok cm
      → (config_map_in w ≡ some cm) × (cm.key ≡ k)
  pub get_config_map_missing :
      (w : api.World) (e : Error)
      → (api.get_config_map k w).0 ≡ err e
      → is_not_found e ≡ true
      → config_map_in w ≡ none
  -- the writes
  pub create_secret :
      (s : Secret) (w : api.World)
      → (secret_in (api.create_secret k s w).1 ≡ secret_in w)
        ⊎ ((secret_in w ≡ none) × (secret_in (api.create_secret k s w).1 ≡ some s))
  pub create_secret_ok :
      (s : Secret) (w : api.World)
      → (api.create_secret k s w).0 ≡ ok tt
      → secret_in (api.create_secret k s w).1 ≡ some s
  pub create_config_map :
      (cm : ConfigMap) (w : api.World)
      → cm.key ≡ k
      → (config_map_in (api.create_config_map cm w).1 ≡ config_map_in w)
        ⊎ (config_map_in (api.create_config_map cm w).1 ≡ some cm)
  pub create_config_map_ok :
      (cm : ConfigMap) (w : api.World)
      → cm.key ≡ k
      → (api.create_config_map cm w).0 ≡ ok tt
      → config_map_in (api.create_config_map cm w).1 ≡ some cm
  pub update_config_map :
      (cm : ConfigMap) (w : api.World)
      → cm.key ≡ k
      → (config_map_in (api.update_config_map cm w).1 ≡ config_map_in w)
        ⊎ (config_map_in (api.update_config_map cm w).1 ≡ some cm)
  pub update_config_map_ok :
      (cm : ConfigMap) (w : api.World)
      → cm.key ≡ k
      → (api.update_config_map cm w).0 ≡ ok tt
      → config_map_in (api.update_config_map cm w).1 ≡ some cm
  pub delete_config_map :
      (w : api.World)
      → (api.delete_config_map k w).0 ≡ ok tt
      → config_map_in (api.delete_config_map k w).1 ≡ none
  pub delete_config_map_missing :
      (w : api.World) (e : Error)
      → (api.delete_config_map k w).0 ≡ err e
      → is_not_found e ≡ true
      → config_map_in (api.delete_config_map k w).1 ≡ none

-- A generated private key, written as PEM, is read back with the public key that was generated
-- beside it.
pub record IsKeyCodec (api : ResourceApi) : Type 0 where
  pub generated :
      (w : api.World) (public : api.PublicKey) (private : api.PrivateKey) (block : api.Block)
      (ssh_public : api.SshPublicKey)
      → (api.generate_key w).0 ≡ ok (public, private)
      → api.marshal_private_key private ≡ ok block
      → api.new_public_key public ≡ ok ssh_public
      → (signer : api.Signer) × (api.parse_private_key (api.encode_to_memory block) ≡ ok signer)
        × (api.public_key signer ≡ ssh_public)
