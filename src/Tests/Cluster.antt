-- ===== src/Tests/Cluster.antt =====
-- A cluster in memory, on which a restore runs from its start to its end.
use vm_file_restore_operator.Base.{
  ◌+◌, String, Bool, if◌then◌else◌, true, false, none, some, [], ◌∷◌, map, refl, inl, subst,
}
use vm_file_restore_operator.Errors.{Error, ok, err, not_found}
use vm_file_restore_operator.Types.{
  Time, FileRestore, Status, unset, Instance, Machine, Volume, VolumeStatus, volume_phase_ready,
}
use vm_file_restore_operator.Api.{Api, completed}
use vm_file_restore_operator.Server.{IsServer, Merged}

-- The one restore and its target, the clock, and whether the guest answers.
pub record Cluster : Type 0 where
  pub restore : FileRestore
  pub machine : Machine
  pub clock : Time
  pub is_reachable : Bool

abbrev pub absent : Error
absent = record { kind = not_found; message = "not found" }

-- A volume of the machine is attached at once.
abbrev attached : Volume → VolumeStatus
attached v = record {
  name = v.name;
  phase = volume_phase_ready;
  target = "sdb";
  hotplug_volume = true;
}

abbrev pub instance_of : Machine → Instance
instance_of m = record {
  name = m.name;
  namespace = m.namespace;
  uid = "4711";
  annotations = λ _. none;
  guest_os_name = "Fedora Linux";
  interfaces = record { name = "default"; ip = "10.0.2.2" } ∷ [];
  volume_status = map attached m.volumes;
}

abbrev pub helper_output : String
helper_output = "copying\n[filerestore] 3 files restored\n"

-- With what a read of the restore returns, from a cache.
abbrev pub reading : (Cluster → FileRestore) → Api
reading read = record {
  World = Cluster;
  Signer = Unit {0};
  Connection = Unit {0};
  get_restore = λ k w. (ok (read w), w);
  update_restore = λ v w.
      let r : FileRestore = record v { status = w.restore.status } in
      (ok r, record w { restore = r });
  patch_status = λ b m w.
      let r : FileRestore = record w.restore { status = m.status } in
      (ok r, record w { restore = r });
  get_machine = λ k w. (ok w.machine, w);
  patch_machine = λ b m w. (ok m, record w { machine = m });
  get_instance = λ k w. (ok (instance_of w.machine), w);
  get_claim = λ k w. (ok tt, w);
  get_snapshot = λ k w. (err absent, w);
  list_pods = λ n d w. (ok [], w);
  create_data_volume = λ v w. (ok tt, w);
  delete_data_volume = λ k w. (err absent, w);
  read_snapshot = λ k w. (err absent, w);
  read_content = λ n w. (err absent, w);
  read_data_volume = λ k w. (err absent, w);
  read_secret = λ k w. (ok (record { values = λ _. some (1 ∷ []) }), w);
  event = λ v t r m w. (tt, w);
  now = λ w. (w.clock, record w { clock = w.clock + 1 });
  parse_private_key = λ b. ok tt;
  dial = λ ip s w. (if w.is_reachable then ok tt else err absent, w);
  run = λ c command limit w. (
    record { end = completed none; stdout = helper_output; stderr = ""; deadline_exceeded = false },
    w,
  );
  close = λ c w. (tt, w);
}

-- The cache has the last write.
abbrev pub cluster : Api
cluster = reading (λ w. w.restore)

abbrev pub status_in : Cluster → Status
status_in w = w.restore.status

-- A new status as the server stores it, sent in full.
Merged-in_full : (b m s : Status) → Merged b m s m
Merged-in_full b m s = record {
  phase = inl refl;
  attachment_retries = inl refl;
  ssh_retries = inl refl;
  mount_path = inl refl;
  restored_files_count = inl refl;
}

pub reading-IsServer : (read : Cluster → FileRestore) → IsServer (reading read) status_in
reading-IsServer read = record {
  get_restore = λ k w. refl;
  update_restore = λ v w. refl;
  patch_failed = λ b m w x e. cc;
  patch_stored = λ b m w v e. cc;
  patch_merged =
      λ b m w v e. subst (Merged b.status m.status (status_in w)) (cc (e)) (Merged-in_full _ _ _);
  get_machine = λ k w. refl;
  patch_machine = λ b m w. refl;
  get_instance = λ k w. refl;
  get_claim = λ k w. refl;
  get_snapshot = λ k w. refl;
  list_pods = λ n d w. refl;
  create_data_volume = λ v w. refl;
  delete_data_volume = λ k w. refl;
  read_snapshot = λ k w. refl;
  read_content = λ n w. refl;
  read_data_volume = λ k w. refl;
  read_secret = λ k w. refl;
  event = λ v t r m w. refl;
  now = λ w. refl;
  dial = λ ip s w. refl;
  run = λ c command limit w. refl;
  close = λ c w. refl;
}

pub cluster-IsServer : IsServer cluster status_in
cluster-IsServer = reading-IsServer _

-- A restore as a user makes it, with the finalizer that the first reconciliation adds.
abbrev pub new_restore : String → FileRestore
new_restore path = record {
  name = "r1";
  namespace = "vms";
  generation = 1;
  deletion_timestamp = none;
  finalizers = "filerestore.kubevirt.io/cleanup" ∷ [];
  spec = record {
    target = record { kind = "VirtualMachine"; name = "vm1" };
    source = record {
      pvc = some (record { name = "backup"; namespace = "" });
      snapshot = none;
      remote = none;
    };
    source_path = path;
  };
  status = record {
    phase = unset;
    conditions = [];
    start_time = none;
    completion_time = none;
    restored_files_count = none;
    error_message = "";
    mount_path = "";
    attachment_retries = 0;
    ssh_retries = 0;
    last_attachment_check_time = none;
    last_ssh_check_time = none;
  };
}

abbrev pub start : String → Cluster
start path = record {
  restore = new_restore path;
  machine = record { name = "vm1"; namespace = "vms"; volumes = []; disks = [] };
  clock = 1000;
  is_reachable = true;
}
