-- ===== src/Tests/Starting.antt =====
-- The start of a manager on the resource server in memory, and a manifest.
use vm_file_restore_operator.Base.{
  ◌≡◌, refl, String, ◌<>◌, true, false, List, [], ◌∷◌, Option, none, some,
}
use vm_file_restore_operator.Errors.{ok}
use vm_file_restore_operator.Tls.{TlsProfileSpec, TlsSecurityProfile, profile_old}
use vm_file_restore_operator.Tls.Watcher.{
  CacheApi, Watcher, new_managed_tls_watcher, set_cache, set_ready,
}
use vm_file_restore_operator.Manager.{Flags, TlsConfig, ManagerApi, apply_options, metrics_options}
use vm_file_restore_operator.Manager.Main.{operator_namespace, main}
use vm_file_restore_operator.Manager.Main.Ends.{IsQuietManager, Final, main-Final}
use vm_file_restore_operator.Csv.{ClusterServiceVersionData}
use vm_file_restore_operator.Csv.Manifest.{new_cluster_service_version}
use vm_file_restore_operator.Monad.{pure, ◌>>=◌, ◌>>◌, on_result}
use vm_file_restore_operator.Csv.Generator.{
  GeneratorFlags, GeneratorApi, require, print_csv, generate, generator_main,
}
use vm_file_restore_operator.Resources.Server.{IsResourceServer}
use vm_file_restore_operator.Resources.Ensure.{resource_key}
use vm_file_restore_operator.Tests.Provisioning.{server-IsKeyCodec}
use vm_file_restore_operator.Tests.ResourceServer.{
  Stored, server, secret_in, config_map_in, server-IsResourceServer,
}

abbrev empty_server : Stored
empty_server = record { secret = none; config_map = none }

abbrev flags : Flags
flags = record {
  metrics_addr = ":8443";
  metrics_cert_path = "";
  metrics_cert_name = "tls.crt";
  metrics_cert_key = "tls.key";
  webhook_cert_path = "";
  webhook_cert_name = "tls.crt";
  webhook_cert_key = "tls.key";
  enable_leader_election = true;
  probe_addr = ":8081";
  secure_metrics = true;
  enable_http2 = false;
}

abbrev healthy : ManagerApi
healthy = record {
  resources = server;
  CertWatcher = Unit;
  Manager = Unit;
  getenv = λ name. "";
  join = λ path name. path <> ("/" <> name);
  new_cert_watcher = λ c k w. (ok tt, w);
  new_manager = λ options w. (ok tt, w);
  add_tls_watcher = λ m w. (ok tt, w);
  add_cert_watcher = λ m c w. (ok tt, w);
  new_client = λ m w. (ok tt, w);
  set_up_restore_controller = λ m namespace w. (ok tt, w);
  set_up_operator_controller = λ m version w. (ok tt, w);
  add_healthz_check = λ m w. (ok tt, w);
  add_readyz_check = λ m w. (ok tt, w);
  start = λ m w. (ok tt, w);
}

healthy-IsResourceServer :
    IsResourceServer server (resource_key (operator_namespace healthy)) secret_in config_map_in
unfolding operator_namespace
healthy-IsResourceServer = server-IsResourceServer

healthy-IsQuietManager :
    IsQuietManager healthy secret_in config_map_in healthy-IsResourceServer server-IsKeyCodec
healthy-IsQuietManager = record {
  new_cert_watcher = λ c k w. (refl, refl);
  new_manager = λ o w. (refl, refl);
  add_tls_watcher = λ m w. (refl, refl);
  add_cert_watcher = λ m c w. (refl, refl);
  new_client = λ m w. (refl, refl);
  set_up_restore_controller = λ m n w. (refl, refl);
  set_up_operator_controller = λ m v w. (refl, refl);
  add_healthz_check = λ m w. (refl, refl);
  add_readyz_check = λ m w. (refl, refl);
  start = λ m w. (refl, refl);
}

main-Final_example :
    Final healthy secret_in config_map_in healthy-IsResourceServer server-IsKeyCodec
      (main healthy flags empty_server).0
      (main healthy flags empty_server).1
main-Final_example =
    main-Final healthy secret_in config_map_in healthy-IsResourceServer server-IsKeyCodec
      healthy-IsQuietManager flags empty_server tt

abbrev bare : TlsConfig (Unit {0})
bare = record {
  next_protos = [];
  get_certificate = none;
  cipher_suites = [];
  min_version = 0;
  for_client = false;
}

abbrev metrics_server : TlsConfig (Unit {0})
metrics_server =
    apply_options (Unit {0}) (metrics_options (Unit {0}) flags (some tt)).tls_options bare

abbrev of_type : String → Option TlsProfileSpec → TlsSecurityProfile
of_type t custom = record {
  type = t;
  old = none;
  intermediate = none;
  modern = none;
  custom = custom;
}

-- A cache with one operator object, which asks for the old profile.
abbrev listing : CacheApi
listing = record {
  World = Unit;
  Cache = Unit;
  wait_for_cache_sync = λ c w. (true, w);
  list_profiles = λ c w. (ok (some (of_type profile_old none) ∷ []), w);
  wait_for_cancel = λ w. (tt, w);
}

abbrev started_watcher : Watcher listing []
started_watcher =
    (set_ready listing [] (record {
      watcher = set_cache listing [] (some tt) (new_managed_tls_watcher listing []);
      world = tt;
    })).1.watcher

abbrev data_of : ClusterServiceVersionData
data_of = record {
  csv_version = "0.1.0";
  replaces_csv_version = "";
  namespace = "file-restore";
  image_pull_policy = "Always";
  icon_base64 = "";
  verbosity = "1";
  operator_version = "v0.1.0";
  operator_image = "quay.io/kubevirt/vm-file-restore-operator:v0.1.0";
}

-- What was printed, the last text first.
abbrev printer : GeneratorApi
printer = record {
  World = List String;
  marshal = λ csv. ok "kind: ClusterServiceVersion\n";
  print = λ text printed. (tt, text ∷ printed);
  write = λ text printed. (ok tt, text ∷ printed);
  report = λ text printed. (tt, printed);
  usage = λ printed. (tt, printed);
  restores_crd = "kind: CustomResourceDefinition\n";
  operators_crd = "kind: CustomResourceDefinition\n";
}

abbrev generator_flags : GeneratorFlags
generator_flags = record { data_of = data_of; dump_crds = false }

prints :
    generator_main printer generator_flags [] ≡ (0, "kind: ClusterServiceVersion\n" ∷ "---\n" ∷ [])
unfolding generator_main require generate print_csv new_cluster_service_version on_result pure ◌>>◌
    ◌>>=◌
prints = refl
