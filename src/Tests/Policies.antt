-- ===== src/Tests/Policies.antt =====
-- TLS profiles, and a cache that lists one operator object.
use vm_file_restore_operator.Base.{
  ℕ, ◌≡◌, ◌<◌, ◌≤◌, ◌↔◌, refl, String, ◌=?◌, List, [], ◌∷◌, map, true, false, Option, none, some,
  Bool-cases, inl, inr, arith, eq_iff,
}
use vm_file_restore_operator.Base.Texts.{has_prefix}
use vm_file_restore_operator.Base.Dict.{lookup}
use vm_file_restore_operator.Errors.{ok}
use vm_file_restore_operator.Monad.{pure, ◌>>=◌}
use vm_file_restore_operator.Tls.{
  TlsProfileSpec, TlsSecurityProfile, profile_old, profile_modern, version_tls11,
}
use vm_file_restore_operator.Tls.Config.{
  tls10, tls12, tls13, cipher_suites_ids, crypto_config_from_spec,
  select_cipher_suites_and_min_tls_version, tls_version_to_uint16,
}
use vm_file_restore_operator.Tls.Config.Versions.{
  OldAllowed, crypto_config_from_spec-min_version, crypto_config_from_spec-default,
}
use vm_file_restore_operator.Tls.Config.Suites.{
  last_id, resolve, present, IsGoSuites, cipher_suites_ids-eq-resolve,
  crypto_config_from_spec-suites,
}
use vm_file_restore_operator.Tls.Watcher.{
  CacheApi, Watcher, Running, new_managed_tls_watcher, set_cache, set_ready, start, get_tls_config,
  config_from, config_of_list,
}
use vm_file_restore_operator.Tls.Watcher.Reached.{
  Reached, created, cache_set, started, Asked, is_ok, get_tls_config-Asked, start-ready,
}

abbrev go : List (String × ℕ)
go =
    ("TLS_AES_128_GCM_SHA256", 0x1301)
    ∷ ("TLS_AES_256_GCM_SHA384", 0x1302)
    ∷ ("TLS_CHACHA20_POLY1305_SHA256", 0x1303)
    ∷ []

not_of_name :
    (k name : String)
    → has_prefix k "TLS_" ≡ true
    → has_prefix name "TLS_" ≡ false
    → (k =? name) ≡ false
not_of_name k name a b = elim (Bool-cases (k =? name)) [
  | inr other ↦ other
  | inl same ↦ let e : k ≡ name = (eq_iff k name).0 same in let c : true ≡ false = cc in cc
]

go-IsGoSuites : IsGoSuites go
unfolding last_id has_prefix
go-IsGoSuites = record {
  aes_128 = refl;
  aes_256 = refl;
  chacha20 = refl;
  named = λ name h.
      rw
        (
          not_of_name "TLS_AES_128_GCM_SHA256" name refl h,
          not_of_name "TLS_AES_256_GCM_SHA384" name refl h,
          not_of_name "TLS_CHACHA20_POLY1305_SHA256" name refl h,
        )
        refl;
}

crypto_config_from_spec-suites_example :
    (crypto_config_from_spec go none).cipher_suites
    ≡ 0x1301 ∷ 0x1302 ∷ 0x1303 ∷ 0xc02b ∷ 0xc02f ∷ 0xc02c ∷ 0xc030 ∷ 0xcca9 ∷ 0xcca8 ∷ []
crypto_config_from_spec-suites_example = crypto_config_from_spec-suites go go-IsGoSuites

cipher_suites_ids-eq-resolve_example :
    cipher_suites_ids go ("AES128-SHA" ∷ "unknown" ∷ "TLS_AES_128_GCM_SHA256" ∷ [])
    ≡ present (map (resolve go) ("AES128-SHA" ∷ "unknown" ∷ "TLS_AES_128_GCM_SHA256" ∷ []))
cipher_suites_ids-eq-resolve_example =
    cipher_suites_ids-eq-resolve go ("AES128-SHA" ∷ "unknown" ∷ "TLS_AES_128_GCM_SHA256" ∷ [])

resolved :
    present (map (resolve go) ("AES128-SHA" ∷ "unknown" ∷ "TLS_AES_128_GCM_SHA256" ∷ []))
    ≡ 0x002f ∷ 0x1301 ∷ []
unfolding present resolve last_id
resolved = refl

abbrev of_type : String → Option TlsProfileSpec → TlsSecurityProfile
of_type t custom = record {
  type = t;
  old = none;
  intermediate = none;
  modern = none;
  custom = custom;
}

abbrev custom_tls11 : TlsSecurityProfile
custom_tls11 =
    of_type "Custom"
      (some (record { ciphers = "AES128-SHA" ∷ []; min_tls_version = version_tls11 }))

crypto_config_from_spec-min_version_example :
    (tls10 ≤ (crypto_config_from_spec go (some custom_tls11)).min_version)
    × ((crypto_config_from_spec go (some custom_tls11)).min_version ≤ tls13)
    × (((crypto_config_from_spec go (some custom_tls11)).min_version < tls12)
        ↔ OldAllowed (some custom_tls11))
crypto_config_from_spec-min_version_example =
    crypto_config_from_spec-min_version go (some custom_tls11)

crypto_config_from_spec-default_example :
    crypto_config_from_spec go (some (of_type "Strict" none)) ≡ crypto_config_from_spec go none
crypto_config_from_spec-default_example =
    crypto_config_from_spec-default go (of_type "Strict" none) refl
      (λ e. let c : false ≡ true = (eq_iff "Strict" profile_old).1 e in cc)
      (λ e. let c : false ≡ true = (eq_iff "Strict" profile_modern).1 e in cc)

abbrev one_object : CacheApi
one_object = record {
  World = Unit;
  Cache = Unit;
  wait_for_cache_sync = λ c w. (true, w);
  list_profiles = λ c w. (ok (some (of_type profile_old none) ∷ []), w);
  wait_for_cancel = λ w. (tt, w);
}

abbrev with_cache : Watcher one_object go
with_cache = set_cache one_object go (some tt) (new_managed_tls_watcher one_object go)

abbrev ready : Watcher one_object go
ready = (set_ready one_object go (record { watcher = with_cache; world = tt })).1.watcher

ready-Reached : Reached one_object go ready
ready-Reached = started with_cache tt (cache_set (some tt) _ created)

old_given : (get_tls_config one_object go ready tt).0.min_version < tls12
unfolding get_tls_config config_from config_of_list set_ready set_cache new_managed_tls_watcher
    crypto_config_from_spec select_cipher_suites_and_min_tls_version tls_version_to_uint16 lookup
    pure ◌>>=◌
old_given = omega arith

get_tls_config-Asked_example : Asked one_object go ready tt
get_tls_config-Asked_example = get_tls_config-Asked one_object go ready tt ready-Reached old_given

not_ready : with_cache.ready ≡ false
unfolding set_cache new_managed_tls_watcher
not_ready = refl

abbrev before_start : Running one_object go
before_start = record { watcher = with_cache; world = tt }

start-ready_example :
    ((start one_object go before_start).1.watcher.ready
      ≡ is_ok one_object go (start one_object go before_start).0)
    × ((start one_object go before_start).1.watcher.cache ≡ with_cache.cache)
    × ((start one_object go before_start).1.watcher.default_config ≡ with_cache.default_config)
start-ready_example = start-ready one_object go before_start not_ready
