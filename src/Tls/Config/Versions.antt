-- ===== src/Tls/Config/Versions.antt =====
-- The lowest version that a profile leads to.
use vm_file_restore_operator.Base.{
  ℕ, ◌≡◌, ◌≢◌, ◌<◌, ◌≤◌, sym, ap, ◌⊎◌, inl, inr, refl, String, ◌=?◌, List, Option, none, some,
  Bool-cases, arith, eq_iff, eq_refl, ◌↔◌,
}
use vm_file_restore_operator.Base.Dict.{lookup}
use vm_file_restore_operator.Tls.{
  TlsProfileSpec, TlsSecurityProfile, profile_old, profile_modern, profile_intermediate,
  version_tls10, version_tls11,
}
use vm_file_restore_operator.Tls.Config.{
  crypto_config_from_spec, select_cipher_suites_and_min_tls_version, tls_version_to_uint16, tls10,
  tls12, tls13,
}

-- The profile lets clients in that know no TLS 1.2: it is `Old`, or a custom one that says so.
pub data AllowsOld : TlsSecurityProfile → Type 0 where
  by_type : (p : TlsSecurityProfile) → p.custom ≡ none → p.type ≡ profile_old → AllowsOld p
  by_custom :
      (p : TlsSecurityProfile) (c : TlsProfileSpec)
      → p.custom ≡ some c
      → (c.min_tls_version ≡ version_tls10) ⊎ (c.min_tls_version ≡ version_tls11)
      → AllowsOld p

abbrev pub OldAllowed : Option TlsSecurityProfile → Type 0
OldAllowed none = ⊥
OldAllowed (some p) = AllowsOld p

below_tls12 :
    (version : String)
    → tls_version_to_uint16 version < tls12
    → (version ≡ version_tls10) ⊎ (version ≡ version_tls11)
unfolding tls_version_to_uint16 lookup
below_tls12 version h = elim (Bool-cases (version_tls10 =? version)) [
  | inl ten ↦ inl (sym ((eq_iff version_tls10 version).0 ten))
  | inr later ↦ elim (Bool-cases (version_tls11 =? version)) [
    | inl eleven ↦ inr (sym ((eq_iff version_tls11 version).0 eleven))
    | inr neither ↦ ground arith
  ]
]

in_range :
    (version : String)
    → (tls10 ≤ tls_version_to_uint16 version) × (tls_version_to_uint16 version ≤ tls13)
unfolding tls_version_to_uint16 lookup
in_range version = ground arith

-- The choice, where no custom profile is set.
selected_by_type :
    (p : TlsSecurityProfile)
    → p.custom ≡ none
    → p.type ≢ profile_old
    → p.type ≢ profile_modern
    → select_cipher_suites_and_min_tls_version (some p)
      ≡ select_cipher_suites_and_min_tls_version none
unfolding select_cipher_suites_and_min_tls_version lookup
selected_by_type p e old modern = elim (Bool-cases (profile_old =? p.type)) [
  | inl is_old ↦ absurd (old (sym ((eq_iff profile_old p.type).0 is_old)))
  | inr not_old ↦ elim (Bool-cases (profile_modern =? p.type)) [
    | inl is_modern ↦ absurd (modern (sym ((eq_iff profile_modern p.type).0 is_modern)))
    | inr not_modern ↦ elim (Bool-cases (profile_intermediate =? p.type)) [
      | inl middle ↦ rw (e, not_old, middle) refl
      | inr unknown ↦ rw (e, not_old, unknown, not_modern) refl
    ]
  ]
]

selected_old :
    (p : TlsSecurityProfile)
    → p.custom ≡ none
    → p.type ≡ profile_old
    → tls_version_to_uint16 (select_cipher_suites_and_min_tls_version (some p)).min_tls_version
      ≡ tls10
unfolding select_cipher_suites_and_min_tls_version lookup tls_version_to_uint16
selected_old p e t = rw (e, t) refl

selected_modern :
    (p : TlsSecurityProfile)
    → p.custom ≡ none
    → p.type ≡ profile_modern
    → tls_version_to_uint16 (select_cipher_suites_and_min_tls_version (some p)).min_tls_version
      ≡ tls13
unfolding select_cipher_suites_and_min_tls_version lookup tls_version_to_uint16
selected_modern p e t = rw (e, t) refl

selected_none :
    tls_version_to_uint16 (select_cipher_suites_and_min_tls_version none).min_tls_version ≡ tls12
unfolding select_cipher_suites_and_min_tls_version lookup tls_version_to_uint16
selected_none = refl

selected_custom :
    (p : TlsSecurityProfile) (c : TlsProfileSpec)
    → p.custom ≡ some c
    → select_cipher_suites_and_min_tls_version (some p) ≡ c
unfolding select_cipher_suites_and_min_tls_version
selected_custom p c e = rw e refl

version_of_old :
    (v : String) → (v ≡ version_tls10) ⊎ (v ≡ version_tls11) → tls_version_to_uint16 v < tls12
unfolding tls_version_to_uint16 lookup
version_of_old v (inl e) = rw e (omega arith)
version_of_old v (inr e) = rw e (omega arith)

-- A custom profile and none.
custom_allows :
    (p : TlsSecurityProfile) (custom : Option TlsProfileSpec)
    → p.custom ≡ custom
    → tls_version_to_uint16 (select_cipher_suites_and_min_tls_version (some p)).min_tls_version
      < tls12
    → AllowsOld p
custom_allows p (some c) e h =
    by_custom p c e (below_tls12 c.min_tls_version (rw (selected_custom p c e) at h))
custom_allows p none e h = elim (Bool-cases (profile_old =? p.type)) [
  | inl is_old ↦ by_type p e (sym ((eq_iff profile_old p.type).0 is_old))
  | inr not_old ↦ elim (Bool-cases (profile_modern =? p.type)) [
    | inl is_modern ↦
        absurd
          (omega (arith, selected_modern p e (sym ((eq_iff profile_modern p.type).0 is_modern))))
    | inr not_modern ↦
        let same =
          selected_by_type p e (λ t. cc (t, not_old, eq_refl profile_old))
            (λ t. cc (t, not_modern, eq_refl profile_modern)) in
        absurd
          (omega (arith, ap (λ s. tls_version_to_uint16 s.min_tls_version) same, selected_none))
  ]
]

AllowsOld-below :
    (p : TlsSecurityProfile)
    → AllowsOld p
    → tls_version_to_uint16 (select_cipher_suites_and_min_tls_version (some p)).min_tls_version
      < tls12
AllowsOld-below _ (by_type p e t) = omega (arith, selected_old p e t)
AllowsOld-below _ (by_custom p c e v) =
    rw (selected_custom p c e) (version_of_old c.min_tls_version v)

module _ (go_cipher_suites : List (String × ℕ)) where
  -- The lowest version lies between TLS 1.0 and TLS 1.3, and it is below TLS 1.2 exactly when the
  -- profile is `Old` without a custom one, or a custom one that names TLS 1.0 or TLS 1.1.
  pub crypto_config_from_spec-min_version :
      (profile : Option TlsSecurityProfile)
      → let v = (crypto_config_from_spec go_cipher_suites profile).min_version in
        (tls10 ≤ v) × (v ≤ tls13) × ((v < tls12) ↔ OldAllowed profile)
  unfolding crypto_config_from_spec
  crypto_config_from_spec-min_version none = (
    omega (arith, selected_none),
    omega (arith, selected_none),
    (λ h. absurd (omega (arith, selected_none)), λ h. absurd h),
  )
  crypto_config_from_spec-min_version (some p) =
      let (low, high) =
        in_range (select_cipher_suites_and_min_tls_version (some p)).min_tls_version in
      (low, high, (custom_allows p p.custom refl, AllowsOld-below p))

  -- Without a custom profile, any type but `Old` and `Modern` gives the configuration of a missing
  -- profile, that is of `Intermediate`.
  pub crypto_config_from_spec-default :
      (p : TlsSecurityProfile)
      → p.custom ≡ none
      → p.type ≢ profile_old
      → p.type ≢ profile_modern
      → crypto_config_from_spec go_cipher_suites (some p)
        ≡ crypto_config_from_spec go_cipher_suites none
  unfolding crypto_config_from_spec
  crypto_config_from_spec-default p e old modern = rw (selected_by_type p e old modern) refl
