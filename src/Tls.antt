-- ===== src/Tls.antt =====
-- api/v1alpha1/types_tlssecurityprofile.go: the TLS profiles.
pub mod Config
pub mod Watcher
use vm_file_restore_operator.Base.{String, List, [], ◌∷◌, ◌++◌, Option}

-- `TLSProfileSpec`, which `CustomTLSProfile` embeds.
pub record TlsProfileSpec : Type 0 where
  pub ciphers : List String
  pub min_tls_version : String

-- `TLSSecurityProfile`; the structs of the three fixed profiles are empty.
pub record TlsSecurityProfile : Type 0 where
  pub type : String
  pub old : Option (Unit {0})
  pub intermediate : Option (Unit {0})
  pub modern : Option (Unit {0})
  pub custom : Option TlsProfileSpec

abbrev pub profile_old : String
profile_old = "Old"

abbrev pub profile_intermediate : String
profile_intermediate = "Intermediate"

abbrev pub profile_modern : String
profile_modern = "Modern"

abbrev pub version_tls10 : String
version_tls10 = "VersionTLS10"

abbrev pub version_tls11 : String
version_tls11 = "VersionTLS11"

abbrev pub version_tls12 : String
version_tls12 = "VersionTLS12"

abbrev pub version_tls13 : String
version_tls13 = "VersionTLS13"

abbrev pub old_profile : TlsProfileSpec
old_profile = record {
  ciphers =
      "TLS_AES_128_GCM_SHA256" ∷ "TLS_AES_256_GCM_SHA384" ∷ "TLS_CHACHA20_POLY1305_SHA256"
      ∷ "ECDHE-ECDSA-AES128-GCM-SHA256" ∷ "ECDHE-RSA-AES128-GCM-SHA256"
      ∷ "ECDHE-ECDSA-AES256-GCM-SHA384" ∷ "ECDHE-RSA-AES256-GCM-SHA384"
      ∷ "ECDHE-ECDSA-CHACHA20-POLY1305" ∷ "ECDHE-RSA-CHACHA20-POLY1305"
      ∷ "DHE-RSA-AES128-GCM-SHA256" ∷ "DHE-RSA-AES256-GCM-SHA384" ∷ "DHE-RSA-CHACHA20-POLY1305"
      ∷ "ECDHE-ECDSA-AES128-SHA256" ∷ "ECDHE-RSA-AES128-SHA256" ∷ "ECDHE-ECDSA-AES128-SHA"
      ∷ "ECDHE-RSA-AES128-SHA" ∷ "ECDHE-ECDSA-AES256-SHA384" ∷ "ECDHE-RSA-AES256-SHA384"
      ∷ "ECDHE-ECDSA-AES256-SHA" ∷ "ECDHE-RSA-AES256-SHA" ∷ "DHE-RSA-AES128-SHA256"
      ∷ "DHE-RSA-AES256-SHA256" ∷ "AES128-GCM-SHA256" ∷ "AES256-GCM-SHA384" ∷ "AES128-SHA256"
      ∷ "AES256-SHA256" ∷ "AES128-SHA" ∷ "AES256-SHA" ∷ "DES-CBC3-SHA" ∷ [];
  min_tls_version = version_tls10;
}

abbrev pub intermediate_profile : TlsProfileSpec
intermediate_profile = record {
  ciphers =
      "TLS_AES_128_GCM_SHA256" ∷ "TLS_AES_256_GCM_SHA384" ∷ "TLS_CHACHA20_POLY1305_SHA256"
      ∷ "ECDHE-ECDSA-AES128-GCM-SHA256" ∷ "ECDHE-RSA-AES128-GCM-SHA256"
      ∷ "ECDHE-ECDSA-AES256-GCM-SHA384" ∷ "ECDHE-RSA-AES256-GCM-SHA384"
      ∷ "ECDHE-ECDSA-CHACHA20-POLY1305" ∷ "ECDHE-RSA-CHACHA20-POLY1305"
      ∷ "DHE-RSA-AES128-GCM-SHA256" ∷ "DHE-RSA-AES256-GCM-SHA384" ∷ [];
  min_tls_version = version_tls12;
}

abbrev pub modern_profile : TlsProfileSpec
modern_profile = record {
  ciphers =
      "TLS_AES_128_GCM_SHA256" ∷ "TLS_AES_256_GCM_SHA384" ∷ "TLS_CHACHA20_POLY1305_SHA256" ∷ [];
  min_tls_version = version_tls13;
}

-- `TLSProfiles`
abbrev pub tls_profiles : List (String × TlsProfileSpec)
tls_profiles =
    (profile_old, old_profile)
    ∷ (profile_intermediate, intermediate_profile)
    ∷ (profile_modern, modern_profile)
    ∷ []
