-- ===== src/Manager/Main.antt =====
-- The steps of `main`, each of which may end the process.
pub mod Ends
use vm_file_restore_operator.Base.{ℕ, String, Option, none, some, if◌then◌else◌}
use vm_file_restore_operator.Base.Texts.{is_empty}
use vm_file_restore_operator.Errors.{Error, Result, ok, err}
use vm_file_restore_operator.Monad.{Action, pure, ◌>>=◌, on_result, on_option}
use vm_file_restore_operator.Manager.{
  Flags, ManagerApi, ManagerOptions, metrics_options, webhook_tls_opts,
}
use vm_file_restore_operator.Manager.Startup.{ensure_with_retries}

-- `os.Exit(code)`, or the end of `main`.
pub data Exit : Type 0 where
  exited : ℕ → Exit
  returned : Exit

module _ (api : ManagerApi) where
  open api use {Manager, CertWatcher}

  abbrev pub Step : Type 0 → Type 0
  Step A = Action api.resources.World A

  -- `if err != nil { setupLog.Error(…); os.Exit(1) }`
  unfoldable pub or_exit : {A : Type 0} → Step (Result A) → (A → Step Exit) → Step Exit
  unfolding ◌>>=◌ on_result pure
  or_exit step k = step >>= λ answer. on_result answer (λ e. pure (exited 1)) k

  -- A watcher, if a path is given.
  unfoldable pub with_cert_watcher :
      String → String → String → (Option CertWatcher → Step Exit) → Step Exit
  with_cert_watcher path name key k =
      if is_empty path
      then k none
      else or_exit (api.new_cert_watcher (api.join path name) (api.join path key))
          (λ watcher. k (some watcher))

  -- `if watcher != nil { mgr.Add(watcher) }`
  unfoldable pub add_if_set : Manager → Option CertWatcher → Step Exit → Step Exit
  add_if_set manager watcher k =
      on_option watcher k (λ w. or_exit (api.add_cert_watcher manager w) (λ _. k))

  unfoldable pub operator_namespace : String
  operator_namespace =
      if is_empty (api.getenv "OPERATOR_NAMESPACE")
      then "file-restore"
      else api.getenv "OPERATOR_NAMESPACE"

  -- From the health checks on.
  unfoldable pub run_manager : Manager → Step Exit
  run_manager manager = or_exit (api.add_healthz_check manager) λ _.
      or_exit (api.add_readyz_check manager) λ _. or_exit (api.start manager) λ _. pure returned

  -- The two controllers, then the certificate watchers, then the rest.
  unfoldable pub set_up : Manager → Option CertWatcher → Option CertWatcher → Step Exit
  set_up manager metrics_watcher webhook_watcher =
      or_exit (api.set_up_restore_controller manager operator_namespace) λ _.
        or_exit (api.set_up_operator_controller manager (api.getenv "OPERATOR_VERSION")) λ _.
          add_if_set manager metrics_watcher
            (add_if_set manager webhook_watcher (run_manager manager))

  -- `if ensureErr != nil { os.Exit(1) }`
  unfoldable pub unless_failed : Option Error → Step Exit → Step Exit
  unless_failed none k = k
  unless_failed (some e) k = pure (exited 1)

  -- From `SetCache` on.
  unfoldable pub provision_and_set_up :
      Manager → Option CertWatcher → Option CertWatcher → Step Exit
  provision_and_set_up manager metrics_watcher webhook_watcher =
      or_exit (api.add_tls_watcher manager) λ _. or_exit (api.new_client manager) λ _. do
        ensure_err ← ensure_with_retries api.resources operator_namespace
        unless_failed ensure_err (set_up manager metrics_watcher webhook_watcher)

  unfoldable pub manager_options :
      Flags → Option CertWatcher → Option CertWatcher → ManagerOptions CertWatcher
  unfolding metrics_options webhook_tls_opts
  manager_options flags metrics_watcher webhook_watcher = record {
    metrics = metrics_options CertWatcher flags metrics_watcher;
    webhook_tls_options = webhook_tls_opts CertWatcher flags webhook_watcher;
    health_probe_bind_address = flags.probe_addr;
    leader_election = flags.enable_leader_election;
    leader_election_id = "2ba6835d.kubevirt.io";
  }

  -- `main`, after `flag.Parse`
  unfoldable pub main : Flags → Step Exit
  main flags =
      with_cert_watcher flags.webhook_cert_path flags.webhook_cert_name flags.webhook_cert_key
        λ webhook_watcher.
          with_cert_watcher flags.metrics_cert_path flags.metrics_cert_name flags.metrics_cert_key
            λ metrics_watcher.
              or_exit (api.new_manager (manager_options flags metrics_watcher webhook_watcher))
                λ manager. provision_and_set_up manager metrics_watcher webhook_watcher
