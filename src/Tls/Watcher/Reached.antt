-- ===== src/Tls/Watcher/Reached.antt =====
-- The states of the watcher while requests, the manager and `Start` take turns.
use vm_file_restore_operator.Base.{
  ℕ, ◌≡◌, ◌<◌, refl, String, Bool, true, false, List, [], ◌∷◌, Option, none, some, inl, inr,
  Bool-cases, Option-cases,
}
use vm_file_restore_operator.Errors.{Result, ok, err}
use vm_file_restore_operator.Monad.{pure, ◌>>=◌, ◌>>◌, on_option}
use vm_file_restore_operator.Tls.{TlsSecurityProfile}
use vm_file_restore_operator.Tls.Config.{CryptoConfig, crypto_config_from_spec, tls12}
use vm_file_restore_operator.Tls.Config.Versions.{OldAllowed, crypto_config_from_spec-min_version}
use vm_file_restore_operator.Tls.Watcher.{
  CacheApi, Watcher, Running, new_managed_tls_watcher, set_cache, set_ready, start, config_of_list,
  config_from, get_tls_config, on_world, read_cache,
}

module _ (api : CacheApi) (go : List (String × ℕ)) where
  open api use {World, Cache}

  -- The steps that change the watcher: the manager sets the cache, and `Start`, which had read a
  -- cache before and waited for it, sets `ready`.
  pub data Reached : Watcher api go → Type 0 where
    created : Reached (new_managed_tls_watcher api go)
    cache_set : (c : Option Cache) (m : Watcher api go) → Reached m → Reached (set_cache api go c m)
    started :
        (m : Watcher api go) (w : World)
        → Reached m
        → Reached (set_ready api go (record { watcher = m; world = w })).1.watcher

  Reached-default :
      (m : Watcher api go) → Reached m → m.default_config ≡ crypto_config_from_spec go none
  unfolding new_managed_tls_watcher set_cache set_ready
  Reached-default _ created = refl
  Reached-default _ (cache_set c m r) = Reached-default m r
  Reached-default _ (started m w r) = Reached-default m r

  -- A list whose first profile lets clients in that know no TLS 1.2.
  abbrev pub FirstAllowsOld : Result (List (Option TlsSecurityProfile)) → Type 0
  FirstAllowsOld (ok (profile ∷ _)) = OldAllowed profile
  FirstAllowsOld _ = ⊥

  default-not_old : (crypto_config_from_spec go none).min_version < tls12 → ⊥
  default-not_old h = (crypto_config_from_spec-min_version go none).2.0 h

  config_of_list-old :
      (default_config : CryptoConfig) (profiles : Result (List (Option TlsSecurityProfile)))
      → default_config ≡ crypto_config_from_spec go none
      → (config_of_list api go default_config profiles).min_version < tls12
      → FirstAllowsOld profiles
  unfolding config_of_list
  config_of_list-old d (err e) same h = default-not_old (rw same at h)
  config_of_list-old d (ok []) same h = default-not_old (rw same at h)
  config_of_list-old d (ok (p ∷ ps)) same h = (crypto_config_from_spec-min_version go p).2.0 h

  -- The objects that are listed let clients in that know no TLS 1.2.
  pub record Asked (m : Watcher api go) (w : World) : Type 0 where
    pub cache : Cache
    pub is_ready : m.ready ≡ true
    pub has_cache : m.cache ≡ some cache
    pub allows : FirstAllowsOld (api.list_profiles cache w).0

  config_from-old :
      (m : Watcher api go) (w : World) (c : Option Cache)
      → m.ready ≡ true
      → m.cache ≡ c
      → m.default_config ≡ crypto_config_from_spec go none
      → (config_from api go m.default_config c w).0.min_version < tls12
      → Asked m w
  unfolding config_from pure ◌>>=◌
  config_from-old m w none ready e same h = absurd (default-not_old (rw same at h))
  config_from-old m w (some c) ready e same h = record {
    cache = c;
    is_ready = ready;
    has_cache = e;
    allows = config_of_list-old m.default_config (api.list_profiles c w).0 same h;
  }

  -- In every state that the watcher reaches, whatever the cache answers, a request is given a
  -- configuration below TLS 1.2 only if the watcher is ready and the first operator object that
  -- the cache lists has a profile that asks for it.
  pub get_tls_config-Asked :
      (m : Watcher api go) (w : World)
      → Reached m
      → (get_tls_config api go m w).0.min_version < tls12
      → Asked m w
  unfolding get_tls_config pure
  get_tls_config-Asked m w r h = elim (Bool-cases m.ready) [
    | inr waiting ↦ absurd (default-not_old (rw (Reached-default m r) at (rw waiting at h)))
    | inl ready ↦ config_from-old m w m.cache ready refl (Reached-default m r) (rw ready at h)
  ]

  abbrev pub is_ok : Result (Unit {0}) → Bool
  is_ok (ok _) = true
  is_ok (err _) = false

  -- `Start` has made the watcher ready, and changed nothing else of it, if there is no error.
  abbrev Started : Running api go → Result (Unit {0}) × Running api go → Type 0
  Started s (result, s') =
      (s'.watcher.ready ≡ is_ok result)
      × (s'.watcher.cache ≡ s.watcher.cache)
      × (s'.watcher.default_config ≡ s.watcher.default_config)

  start-synced :
      (s : Running api go) (c : Cache)
      → s.watcher.ready ≡ false
      → s.watcher.cache ≡ some c
      → Started s (start api go s)
  unfolding start read_cache on_world ◌>>=◌ ◌>>◌ pure on_option set_ready
  start-synced s c h e = elim (Bool-cases (api.wait_for_cache_sync c s.world).0) [
    | inl synced ↦ rw (e, start) (rw synced (refl, refl, refl))
    | inr lost ↦ rw (e, start) (rw lost (h, refl, refl))
  ]

  -- `Start` makes the watcher ready just if it ends without an error, and leaves the rest of it
  -- alone.
  pub start-ready :
      (s : Running api go)
      → s.watcher.ready ≡ false
      → ((start api go s).1.watcher.ready ≡ is_ok (start api go s).0)
        × ((start api go s).1.watcher.cache ≡ s.watcher.cache)
        × ((start api go s).1.watcher.default_config ≡ s.watcher.default_config)
  unfolding start read_cache on_world ◌>>=◌ ◌>>◌ pure on_option set_ready
  start-ready s h = elim (Option-cases s.watcher.cache) [
    | inl missing ↦ rw (missing, start) (h, refl, refl)
    | inr (c, e) ↦ start-synced s c h e
  ]
