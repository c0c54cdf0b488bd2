-- ===== src/Resources.antt =====
-- internal/controller/keypair.go: the secret with the operator's SSH key and the config map with the
-- public key and the guest helpers.
pub mod Tar
pub mod Ensure
pub mod Server
pub mod Shared
use vm_file_restore_operator.Base.{ℕ, String, List, Option}
use vm_file_restore_operator.Errors.{Result}
use vm_file_restore_operator.Types.{Key, Bytes, Secret}
use vm_file_restore_operator.Monad.{Action}

-- The fields of a `corev1.ConfigMap` that the operator reads or writes. `binary_data` may be a nil
-- map.
pub record ConfigMap : Type 0 where
  pub key : Key
  pub values : List (String × String)
  pub binary_data : Option (List (String × Bytes))

-- The fields of a `tar.Header` that the operator sets.
pub record Header : Type 0 where
  pub name : String
  pub mode : ℕ
  pub size : ℕ

-- `archive/tar` on a buffer in memory.
pub record TarWriter : Type 1 where
  pub Writer : Type 0
  pub new_writer : Writer
  pub write_header : Writer → Header → Result Writer
  pub write : Writer → Bytes → Result Writer
  pub close : Writer → Result Bytes

-- The client without a cache, which could delete a secret as well, the packages `ed25519`, `pem` and `ssh`, and the files that the build
-- embeds.
pub record ResourceApi : Type 1 where
  pub World : Type 0
  pub PublicKey : Type 0
  pub PrivateKey : Type 0
  pub Block : Type 0
  pub SshPublicKey : Type 0
  pub Signer : Type 0
  -- the client
  pub get_secret : Key → Action World (Result Secret)
  pub get_config_map : Key → Action World (Result ConfigMap)
  pub create_secret : Key → Secret → Action World (Result (Unit {0}))
  pub delete_secret : Key → Action World (Result (Unit {0}))
  pub create_config_map : ConfigMap → Action World (Result (Unit {0}))
  pub update_config_map : ConfigMap → Action World (Result (Unit {0}))
  pub delete_config_map : Key → Action World (Result (Unit {0}))
  -- the keys
  pub generate_key : Action World (Result (PublicKey × PrivateKey))
  pub marshal_private_key : PrivateKey → Result Block
  pub encode_to_memory : Block → Bytes
  pub new_public_key : PublicKey → Result SshPublicKey
  pub marshal_authorized_key : SshPublicKey → String
  pub parse_private_key : Bytes → Result Signer
  pub public_key : Signer → SshPublicKey
  -- the scripts and their archives
  pub linux_scripts : String → Result Bytes
  pub windows_scripts : String → Result Bytes
  pub tar : TarWriter
  -- `time.Sleep`, in seconds
  pub sleep : ℕ → Action World (Unit {0})
