-- ===== src/Resources/Ensure/Pairing.antt =====
-- The key in the config map and the key in the secret.
pub mod Writes
pub mod Keys
pub mod Archives
pub mod Reads
pub mod Provisioned
use vm_file_restore_operator.Base.{
  ◌≡◌, ◌∙◌, sym, subst, inl, inr, refl, String, Option, none, some, ◌=?◌, ◌==◌, true, [], ◌∷◌,
  Bool-cases, arith, if◌then◌else◌,
}
use vm_file_restore_operator.Base.Dict.{lookup, lookup-insert}
use vm_file_restore_operator.Errors.{Error, Result, ok, err, is_not_found}
use vm_file_restore_operator.Types.{Bytes, Secret}
use vm_file_restore_operator.Controller.Access.{ssh_auth_private_key}
use vm_file_restore_operator.Resources.{ResourceApi, ConfigMap}
use vm_file_restore_operator.Resources.Tar.{build_tar}
use vm_file_restore_operator.Resources.Ensure.{
  public_key_entry, linux_helpers_entry, windows_helpers_entry, bytes_equal, binary_entry,
  has_archives, with_archives, new_config_map, entry_of, made,
}

pub bytes_equal_sound : (xs ys : Bytes) → bytes_equal xs ys ≡ true → xs ≡ ys
unfolding bytes_equal
bytes_equal_sound [] [] h = refl
bytes_equal_sound [] (y ∷ ys) h = cc
bytes_equal_sound (x ∷ xs) [] h = cc
bytes_equal_sound (x ∷ xs) (y ∷ ys) h = ground (arith, bytes_equal_sound xs ys)

pub bytes_equal_refl : (xs : Bytes) → bytes_equal xs xs ≡ true
unfolding bytes_equal
bytes_equal_refl [] = refl
bytes_equal_refl (x ∷ xs) = ground (arith, bytes_equal_refl xs)

module _ (api : ResourceApi) where
  open api use {World}

  -- The public key belongs to the private key of the secret.
  pub record Opens (s : Secret) (public : String) : Type 0 where
    pub pem : Bytes
    pub signer : api.Signer
    pub stored : s.values ssh_auth_private_key ≡ some pem
    pub parsed : api.parse_private_key pem ≡ ok signer
    pub published : api.marshal_authorized_key (api.public_key signer) ≡ public

  pub record Paired (s : Secret) (cm : ConfigMap) : Type 0 where
    pub public : String
    pub entry : lookup public_key_entry cm.values ≡ some public
    pub opens : Opens s public

  -- Both archives are the ones that are built from the scripts.
  pub record Current (cm : ConfigMap) : Type 0 where
    pub linux_tar : Bytes
    pub windows_tar : Bytes
    pub linux_built :
        build_tar api.tar api.linux_scripts ("setup.sh" ∷ "filerestore.sh" ∷ []) ≡ ok linux_tar
    pub windows_built :
        build_tar api.tar api.windows_scripts ("setup.bat" ∷ "filerestore.bat" ∷ [])
        ≡ ok windows_tar
    pub linux_entry : binary_entry linux_helpers_entry cm ≡ linux_tar
    pub windows_entry : binary_entry windows_helpers_entry cm ≡ windows_tar

  abbrev pub Both : Option Secret → Option ConfigMap → Type 0
  Both (some s) (some cm) = Paired s cm
  Both _ _ = Unit

  pub Both-none : (s : Option Secret) → Both s none
  Both-none none = tt
  Both-none (some s) = tt

module _ (api : ResourceApi) (linux_tar windows_tar : Bytes)
    (linux_built : build_tar api.tar api.linux_scripts ("setup.sh" ∷ "filerestore.sh" ∷ [])
      ≡ ok linux_tar)
    (windows_built : build_tar api.tar api.windows_scripts ("setup.bat" ∷ "filerestore.bat" ∷ [])
      ≡ ok windows_tar) where
  -- A config map in which both archives were found.
  pub has_archives-Current :
      (cm : ConfigMap) → has_archives linux_tar windows_tar cm ≡ true → Current api cm
  unfolding has_archives
  has_archives-Current cm h = record {
    linux_tar = linux_tar;
    windows_tar = windows_tar;
    linux_built = linux_built;
    windows_built = windows_built;
    linux_entry = bytes_equal_sound _ _ (ground arith);
    windows_entry = bytes_equal_sound _ _ (ground arith);
  }

  -- A config map into which both archives were written.
  pub with_archives-Current :
      (cm : ConfigMap) → Current api (with_archives linux_tar windows_tar cm)
  unfolding with_archives binary_entry
  with_archives-Current cm = record {
    linux_tar = linux_tar;
    windows_tar = windows_tar;
    linux_built = linux_built;
    windows_built = windows_built;
    linux_entry = rw (lookup-insert, lookup-insert) refl;
    windows_entry = rw lookup-insert refl;
  }

  pub new-Current :
      (namespace public : String)
      → Current api (new_config_map namespace public linux_tar windows_tar)
  unfolding binary_entry lookup
  new-Current namespace public = record {
    linux_tar = linux_tar;
    windows_tar = windows_tar;
    linux_built = linux_built;
    windows_built = windows_built;
    linux_entry = refl;
    windows_entry = refl;
  }

pub new-Paired :
    (api : ResourceApi) (linux_tar windows_tar : Bytes) (s : Secret) (namespace public : String)
    → Opens api s public
    → Paired api s (new_config_map namespace public linux_tar windows_tar)
unfolding lookup
new-Paired api linux_tar windows_tar s namespace public o = record {
  public = public;
  entry = refl;
  opens = o;
}

pub with_archives-Paired :
    (api : ResourceApi) (linux_tar windows_tar : Bytes) (s : Secret) (cm : ConfigMap)
    → Paired api s cm
    → Paired api s (with_archives linux_tar windows_tar cm)
unfolding with_archives
with_archives-Paired api linux_tar windows_tar s cm p = record {
  public = p.public;
  entry = p.entry;
  opens = p.opens;
}
