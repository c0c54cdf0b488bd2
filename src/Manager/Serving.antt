-- ===== src/Manager/Serving.antt =====
-- The TLS configuration of the two servers of the manager.
use vm_file_restore_operator.Base.{
  ℕ, ◌≡◌, ◌<◌, refl, String, false, List, [], ◌∷◌, Option, none, some, if◌then◌else◌, Bool-cases,
  inl, inr,
}
use vm_file_restore_operator.Tls.Config.{tls12}
use vm_file_restore_operator.Tls.Watcher.{CacheApi, Watcher, get_tls_config}
use vm_file_restore_operator.Tls.Watcher.Reached.{Reached, Asked}
use vm_file_restore_operator.Manager.{Flags, TlsConfig, apply_options, tls_opts, webhook_tls_opts}

module _ {CertWatcher : Type 0} where
  -- The certificates of a watcher, if there is one.
  abbrev pub certificate_of : Option CertWatcher → TlsConfig CertWatcher → Option CertWatcher
  certificate_of none c = c.get_certificate
  certificate_of (some watcher) c = some watcher

  abbrev pub protos_of : Flags → TlsConfig CertWatcher → List String
  protos_of flags c = if flags.enable_http2 then c.next_protos else "http/1.1" ∷ []

  module _ (api : CacheApi) (go : List (String × ℕ)) where
    open api use {World}

    -- A client of the metrics server meets what the TLS watcher answers in that world.
    pub record Served (flags : Flags) (watcher : Option CertWatcher) (c : TlsConfig CertWatcher)
        (m : Watcher api go) (w : World) (config : TlsConfig CertWatcher) : Type 0 where
      pub protos : config.next_protos ≡ protos_of flags c
      pub certificate : config.get_certificate ≡ certificate_of watcher c
      pub suites : config.cipher_suites ≡ (get_tls_config api go m w).0.cipher_suites
      pub version : config.min_version ≡ (get_tls_config api go m w).0.min_version
      pub no_callback : config.for_client ≡ false
      pub old : config.min_version < tls12 → Asked api go m w

  -- The webhook server's configuration does not follow the TLS watcher: only the protocols and the
  -- certificate are set.
  pub webhook_tls_opts-config :
      (flags : Flags) (watcher : Option CertWatcher) (c : TlsConfig CertWatcher)
      → apply_options CertWatcher (webhook_tls_opts CertWatcher flags watcher) c
        ≡ record c { next_protos = protos_of flags c; get_certificate = certificate_of watcher c }
  unfolding webhook_tls_opts tls_opts apply_options
  webhook_tls_opts-config flags none c = elim (Bool-cases flags.enable_http2) [
    | inl enabled ↦ rw enabled refl
    | inr disabled ↦ rw disabled refl
  ]
  webhook_tls_opts-config flags (some watcher) c = elim (Bool-cases flags.enable_http2) [
    | inl enabled ↦ rw enabled refl
    | inr disabled ↦ rw disabled refl
  ]
