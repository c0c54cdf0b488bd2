-- ===== src/Manager.antt =====
-- `main` of cmd/main.go.
pub mod Startup
pub mod Serving
pub mod Main
use vm_file_restore_operator.Base.{
  ℕ, String, Bool, true, false, not, List, [], ◌∷◌, ◌++◌, Option, none, some, if◌then◌else◌,
}
use vm_file_restore_operator.Base.Texts.{is_empty}
use vm_file_restore_operator.Errors.{Result}
use vm_file_restore_operator.Monad.{Action, pure, ◌>>=◌}
use vm_file_restore_operator.Tls.Watcher.{CacheApi, Watcher, get_tls_config}
use vm_file_restore_operator.Resources.{ResourceApi}

-- The flags, after `flag.Parse`.
pub record Flags : Type 0 where
  pub metrics_addr : String
  pub metrics_cert_path : String
  pub metrics_cert_name : String
  pub metrics_cert_key : String
  pub webhook_cert_path : String
  pub webhook_cert_name : String
  pub webhook_cert_key : String
  pub enable_leader_election : Bool
  pub probe_addr : String
  pub secure_metrics : Bool
  pub enable_http2 : Bool

module _ (CertWatcher : Type 0) where
  -- The fields of a `tls.Config` that the operator sets. `for_client` tells whether
  -- `GetConfigForClient` is set: the one callback that there is reads the configuration in which it
  -- stands, with all that was set before and after it.
  pub record TlsConfig : Type 0 where
    pub next_protos : List String
    pub get_certificate : Option CertWatcher
    pub cipher_suites : List ℕ
    pub min_version : ℕ
    pub for_client : Bool

  -- The functions in `TLSOpts`.
  pub data TlsOption : Type 0 where
    disable_http2 : TlsOption
    use_certificate : CertWatcher → TlsOption
    crypto_policy : TlsOption

  unfoldable pub apply_option : TlsOption → TlsConfig → TlsConfig
  apply_option disable_http2 c = record c { next_protos = "http/1.1" ∷ [] }
  apply_option (use_certificate watcher) c = record c { get_certificate = some watcher }
  apply_option crypto_policy c = record c { for_client = true }

  -- A server applies the options in their order.
  unfoldable pub apply_options : List TlsOption → TlsConfig → TlsConfig
  unfolding apply_option
  apply_options [] c = c
  apply_options (o ∷ os) c = apply_options os (apply_option o c)

  -- `GetConfigForClient` of `cryptoPolicyOpt`, called for a client on the configuration in which it
  -- stands. It asks the TLS watcher, if there is one, in the state that this has at the call.
  unfoldable pub config_for_client :
      (cache_api : CacheApi) (go : List (String × ℕ))
      → Option (Watcher cache_api go)
      → TlsConfig
      → Action cache_api.World TlsConfig
  config_for_client cache_api go none c = pure (record c { for_client = false })
  config_for_client cache_api go (some m) c = do
    cc ← get_tls_config cache_api go m
    pure (record c {
      cipher_suites = cc.cipher_suites;
      min_version = cc.min_version;
      for_client = false;
    })

  abbrev pub certificate_option : Option CertWatcher → List TlsOption
  certificate_option none = []
  certificate_option (some watcher) = use_certificate watcher ∷ []

  -- `tlsOpts`
  unfoldable pub tls_opts : Flags → List TlsOption
  tls_opts flags = if not flags.enable_http2 then disable_http2 ∷ [] else []

  unfoldable pub webhook_tls_opts : Flags → Option CertWatcher → List TlsOption
  unfolding tls_opts
  webhook_tls_opts flags watcher = tls_opts flags ++ certificate_option watcher

  -- `metricsserver.Options`; `filtered` says that the filter with authentication and authorization
  -- is set.
  pub record MetricsOptions : Type 0 where
    pub bind_address : String
    pub secure_serving : Bool
    pub tls_options : List TlsOption
    pub filtered : Bool

  unfoldable pub metrics_options : Flags → Option CertWatcher → MetricsOptions
  unfolding tls_opts
  metrics_options flags watcher = record {
    bind_address = flags.metrics_addr;
    secure_serving = flags.secure_metrics;
    tls_options = (tls_opts flags ++ (crypto_policy ∷ [])) ++ certificate_option watcher;
    filtered = flags.secure_metrics;
  }

  -- `ctrl.Options`
  pub record ManagerOptions : Type 0 where
    pub metrics : MetricsOptions
    pub webhook_tls_options : List TlsOption
    pub health_probe_bind_address : String
    pub leader_election : Bool
    pub leader_election_id : String

-- The environment, controller-runtime and the set-up of the two controllers. The world is that of
-- the operator's resources. `new_manager` reads the cluster's configuration first, which ends the
-- process like an error; `add_tls_watcher` gives the TLS watcher the manager's cache and adds it.
pub record ManagerApi : Type 1 where
  pub resources : ResourceApi
  pub CertWatcher : Type 0
  pub Manager : Type 0
  pub getenv : String → String
  -- `filepath.Join`
  pub join : String → String → String
  pub new_cert_watcher : String → String → Action resources.World (Result CertWatcher)
  pub new_manager : ManagerOptions CertWatcher → Action resources.World (Result Manager)
  pub add_tls_watcher : Manager → Action resources.World (Result (Unit {0}))
  pub add_cert_watcher : Manager → CertWatcher → Action resources.World (Result (Unit {0}))
  pub new_client : Manager → Action resources.World (Result (Unit {0}))
  pub set_up_restore_controller :
      Manager → (namespace : String) → Action resources.World (Result (Unit {0}))
  pub set_up_operator_controller :
      Manager → (version : String) → Action resources.World (Result (Unit {0}))
  pub add_healthz_check : Manager → Action resources.World (Result (Unit {0}))
  pub add_readyz_check : Manager → Action resources.World (Result (Unit {0}))
  pub start : Manager → Action resources.World (Result (Unit {0}))
