-- ===== src/Tls/Watcher.antt =====
-- `ManagedTLSWatcher` of pkg/resources/utils/tls_watcher.go.
pub mod Reached
use vm_file_restore_operator.Base.{
  ℕ, String, Bool, true, false, not, List, [], ◌∷◌, Option, none, some, is_some, ◌||◌,
  if◌then◌else◌,
}
use vm_file_restore_operator.Errors.{Result, ok, err, errorf}
use vm_file_restore_operator.Monad.{Action, pure, ◌>>=◌, ◌>>◌, on_result, on_option}
use vm_file_restore_operator.Tls.{TlsSecurityProfile}
use vm_file_restore_operator.Tls.Config.{CryptoConfig, crypto_config_from_spec}

-- The cache of controller-runtime. A list gives the profiles of the operator objects that it finds.
-- `wait_for_cancel` is `<-ctx.Done()`.
pub record CacheApi : Type 1 where
  pub World : Type 0
  pub Cache : Type 0
  pub wait_for_cache_sync : Cache → Action World Bool
  pub list_profiles : Cache → Action World (Result (List (Option TlsSecurityProfile)))
  pub wait_for_cancel : Action World (Unit {0})

-- `NeedLeaderElection`
abbrev pub need_leader_election : Bool
need_leader_election = false

module _ (api : CacheApi) (go_cipher_suites : List (String × ℕ)) where
  open api use {World, Cache}

  -- Its fields are read and written under the lock `mu`, each time in one step.
  pub record Watcher : Type 0 where
    pub cache : Option Cache
    pub default_config : CryptoConfig
    pub ready : Bool

  pub record Running : Type 0 where
    pub watcher : Watcher
    pub world : World

  -- `NewManagedTLSWatcher`
  unfoldable pub new_managed_tls_watcher : Watcher
  new_managed_tls_watcher = record {
    cache = none;
    default_config = crypto_config_from_spec go_cipher_suites none;
    ready = false;
  }

  -- `SetCache`
  unfoldable pub set_cache : Option Cache → Watcher → Watcher
  set_cache c m = record m { cache = c }

  -- `m.ready = true`
  unfoldable pub set_ready : Action Running (Unit {0})
  set_ready s = (tt, record s { watcher = record s.watcher { ready = true } })

  on_world : {A : Type 0} → Action World A → Action Running A
  on_world m s = let (a, w) = m s.world in (a, record s { world = w })

  read_cache : Action Running (Option Cache)
  read_cache s = (s.watcher.cache, s)

  -- `Start`
  unfoldable pub start : Action Running (Result (Unit {0}))
  unfolding on_world read_cache
  start = do
    c ← read_cache
    on_option c (pure (err (errorf "no cache provided for tls watcher"))) (λ cache. do
      synced ← on_world (api.wait_for_cache_sync cache)
      if not synced
          then pure (err (errorf "failed to wait for caches to sync"))
          else do set_ready; on_world api.wait_for_cancel; pure (ok tt))

  -- The first profile that is listed decides.
  unfoldable pub config_of_list :
      CryptoConfig → Result (List (Option TlsSecurityProfile)) → CryptoConfig
  config_of_list default_config (err e) = default_config
  config_of_list default_config (ok []) = default_config
  config_of_list default_config (ok (profile ∷ _)) =
      crypto_config_from_spec go_cipher_suites profile

  -- `GetTLSConfig`, after the fields were read.
  unfoldable pub config_from : CryptoConfig → Option Cache → Action World CryptoConfig
  unfolding config_of_list
  config_from default_config none = pure default_config
  config_from default_config (some c) = do
    profiles ← api.list_profiles c
    pure (config_of_list default_config profiles)

  -- `GetTLSConfig`
  unfoldable pub get_tls_config : Watcher → Action World CryptoConfig
  unfolding config_from
  get_tls_config m =
      if not m.ready then pure m.default_config else config_from m.default_config m.cache
