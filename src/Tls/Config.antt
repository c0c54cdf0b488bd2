-- ===== src/Tls/Config.antt =====
-- pkg/resources/utils/tls_watcher.go: from a profile to the numbers that `crypto/tls` takes.
pub mod Versions
pub mod Suites
use vm_file_restore_operator.Base.{ℕ, String, List, [], ◌∷◌, Option, none, some}
use vm_file_restore_operator.Base.Dict.{lookup, insert}
use vm_file_restore_operator.Tls.{
  TlsProfileSpec, TlsSecurityProfile, profile_intermediate, intermediate_profile, tls_profiles,
  version_tls10, version_tls11, version_tls12, version_tls13,
}

abbrev pub tls10 : ℕ
tls10 = 0x0301

abbrev pub tls11 : ℕ
tls11 = 0x0302

abbrev pub tls12 : ℕ
tls12 = 0x0303

abbrev pub tls13 : ℕ
tls13 = 0x0304

abbrev pub tls_version_map : List (String × ℕ)
tls_version_map =
    (version_tls10, tls10)
    ∷ (version_tls11, tls11)
    ∷ (version_tls12, tls12)
    ∷ (version_tls13, tls13)
    ∷ []

-- The names of OpenSSL, with the numbers of the constants of `crypto/tls`.
abbrev pub extra_cipher_suites : List (String × ℕ)
extra_cipher_suites =
    ("ECDHE-ECDSA-AES128-GCM-SHA256", 0xc02b)
    ∷ ("ECDHE-RSA-AES128-GCM-SHA256", 0xc02f)
    ∷ ("ECDHE-ECDSA-AES256-GCM-SHA384", 0xc02c)
    ∷ ("ECDHE-RSA-AES256-GCM-SHA384", 0xc030)
    ∷ ("ECDHE-ECDSA-CHACHA20-POLY1305", 0xcca9)
    ∷ ("ECDHE-RSA-CHACHA20-POLY1305", 0xcca8)
    ∷ ("ECDHE-ECDSA-AES128-SHA256", 0xc023)
    ∷ ("ECDHE-RSA-AES128-SHA256", 0xc027)
    ∷ ("ECDHE-ECDSA-AES128-SHA", 0xc009)
    ∷ ("ECDHE-RSA-AES128-SHA", 0xc013)
    ∷ ("ECDHE-ECDSA-AES256-SHA", 0xc00a)
    ∷ ("ECDHE-RSA-AES256-SHA", 0xc014)
    ∷ ("AES128-GCM-SHA256", 0x009c)
    ∷ ("AES256-GCM-SHA384", 0x009d)
    ∷ ("AES128-SHA256", 0x003c)
    ∷ ("AES128-SHA", 0x002f)
    ∷ ("AES256-SHA", 0x0035)
    ∷ ("DES-CBC3-SHA", 0x000a)
    ∷ []

-- A loop that writes pairs into a map.
unfoldable pub insert_all : List (String × ℕ) → List (String × ℕ) → List (String × ℕ)
insert_all [] m = m
insert_all ((k, v) ∷ pairs) m = insert_all pairs (insert k v m)

-- The cipher suites and the lowest version.
pub record CryptoConfig : Type 0 where
  pub cipher_suites : List ℕ
  pub min_version : ℕ

-- `selectCipherSuitesAndMinTLSVersion`, where no custom profile is set: an unknown type counts as
-- `Intermediate`.
abbrev pub or_intermediate : Option TlsProfileSpec → TlsProfileSpec
or_intermediate none = intermediate_profile
or_intermediate (some spec) = spec

abbrev pub custom_or : Option TlsProfileSpec → TlsProfileSpec → TlsProfileSpec
custom_or none spec = spec
custom_or (some custom) spec = custom

-- `selectCipherSuitesAndMinTLSVersion`
unfoldable pub select_cipher_suites_and_min_tls_version : Option TlsSecurityProfile → TlsProfileSpec
unfolding lookup
select_cipher_suites_and_min_tls_version none =
    or_intermediate (lookup profile_intermediate tls_profiles)
select_cipher_suites_and_min_tls_version (some profile) =
    custom_or profile.custom (or_intermediate (lookup profile.type tls_profiles))

-- What a missing or unknown version counts as.
abbrev pub or_tls12 : Option ℕ → ℕ
or_tls12 none = tls12
or_tls12 (some version) = version

-- `tlsVersionToUint16`
unfoldable pub tls_version_to_uint16 : String → ℕ
unfolding lookup
tls_version_to_uint16 version = or_tls12 (lookup version tls_version_map)

-- `ids = append(ids, id)`, if the name has a number.
append_id : Option ℕ → List ℕ → List ℕ
append_id none ids = ids
append_id (some id) ids = id ∷ ids

-- The cipher suites that `crypto/tls` implements and recommends, by name: `tls.CipherSuites()`.
module _ (go_cipher_suites : List (String × ℕ)) where
  -- `cipherNameToID`
  unfoldable pub cipher_name_to_id : List (String × ℕ)
  unfolding insert_all
  cipher_name_to_id = insert_all go_cipher_suites (insert_all extra_cipher_suites [])

  -- `cipherSuitesIDs`; a name without a number is left out.
  unfoldable pub cipher_suites_ids : List String → List ℕ
  unfolding append_id lookup
  cipher_suites_ids [] = []
  cipher_suites_ids (name ∷ names) =
      append_id (lookup name cipher_name_to_id) (cipher_suites_ids names)

  -- `cryptoConfigFromSpec`
  unfoldable pub crypto_config_from_spec : Option TlsSecurityProfile → CryptoConfig
  unfolding select_cipher_suites_and_min_tls_version cipher_suites_ids tls_version_to_uint16
  crypto_config_from_spec profile = record {
    cipher_suites = cipher_suites_ids (select_cipher_suites_and_min_tls_version profile).ciphers;
    min_version =
        tls_version_to_uint16 (select_cipher_suites_and_min_tls_version profile).min_tls_version;
  }
