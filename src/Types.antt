-- ===== src/Types.antt =====
-- api/v1alpha1/virtualmachinefilerestore_types.go, and of the KubeVirt, CDI, snapshot and core
-- types the fields that the operator reads or writes.
use vm_file_restore_operator.Base.{ℕ, String, Bool, Option, List}
use vm_file_restore_operator.Base.Decimal.{ℤ}

-- An absolute time and a duration, both in nanoseconds.
abbrev pub Time : Type 0
Time = ℕ

abbrev pub Bytes : Type 0
Bytes = List ℕ

pub record Key : Type 0 where
  pub name : String
  pub namespace : String

-- `RestorePhase` is a string: `unset` is the empty one, `other` any that no constant names.
pub data RestorePhase : Type 0 where
  unset new init hotplugging waiting_for_attachment ssh_connecting restoring : RestorePhase
  volume_ready cleanup succeeded failed : RestorePhase
  other : String → RestorePhase

abbrev pub phase_text : RestorePhase → String
phase_text unset = ""
phase_text new = "New"
phase_text init = "Init"
phase_text hotplugging = "Hotplugging"
phase_text waiting_for_attachment = "WaitingForAttachment"
phase_text ssh_connecting = "SSHConnecting"
phase_text restoring = "Restoring"
phase_text volume_ready = "VolumeReady"
phase_text cleanup = "Cleanup"
phase_text succeeded = "Succeeded"
phase_text failed = "Failed"
phase_text (other s) = s

-- `corev1.TypedLocalObjectReference`
pub record LocalReference : Type 0 where
  pub kind : String
  pub name : String

pub record PvcSource : Type 0 where
  pub name : String
  pub namespace : String

pub record VolumeSnapshotSource : Type 0 where
  pub name : String
  pub namespace : String

pub record RemoteSource : Type 0 where
  pub name : String
  pub bucket : String

pub record RestoreSource : Type 0 where
  pub pvc : Option PvcSource
  pub snapshot : Option VolumeSnapshotSource
  pub remote : Option RemoteSource

pub record Spec : Type 0 where
  pub target : LocalReference
  pub source : RestoreSource
  pub source_path : String

pub data ConditionStatus : Type 0 where
  condition_true condition_false condition_unknown : ConditionStatus

-- `metav1.Condition`
pub record Condition : Type 0 where
  pub type : String
  pub status : ConditionStatus
  pub observed_generation : ℕ
  pub last_transition_time : Time
  pub reason : String
  pub message : String

pub record Status : Type 0 where
  pub phase : RestorePhase
  pub conditions : List Condition
  pub start_time : Option Time
  pub completion_time : Option Time
  pub restored_files_count : Option ℤ  -- *int32
  pub error_message : String
  pub mount_path : String
  pub attachment_retries : ℕ  -- int32
  pub ssh_retries : ℕ  -- int32
  pub last_attachment_check_time : Option Time
  pub last_ssh_check_time : Option Time

-- `VirtualMachineFileRestore`
pub record FileRestore : Type 0 where
  pub name : String
  pub namespace : String
  pub generation : ℕ
  pub deletion_timestamp : Option Time
  pub finalizers : List String
  pub spec : Spec
  pub status : Status

-- `v1.VirtualMachineInstanceNetworkInterface`
pub record Interface : Type 0 where
  pub name : String
  pub ip : String

pub data VolumePhase : Type 0 where
  volume_phase_ready : VolumePhase
  volume_phase_other : String → VolumePhase

pub record VolumeStatus : Type 0 where
  pub name : String
  pub phase : VolumePhase
  pub target : String
  pub hotplug_volume : Bool  -- is the pointer set?

-- `v1.VirtualMachineInstance`. A nil annotation map answers every key with `none`.
pub record Instance : Type 0 where
  pub name : String
  pub namespace : String
  pub uid : String
  pub annotations : String → Option String
  pub guest_os_name : String
  pub interfaces : List Interface
  pub volume_status : List VolumeStatus

-- `v1.VolumeSource`: a claim, or anything that the operator leaves alone.
pub data VolumeSource : Type 0 where
  claim : String → Bool → VolumeSource
  other_source : String → VolumeSource

pub record Volume : Type 0 where
  pub name : String
  pub source : VolumeSource

pub record Disk : Type 0 where
  pub name : String
  pub bus : String
  pub read_only : Bool
  pub serial : String

-- `v1.VirtualMachine`; its template is there: it is a required field of the API.
pub record Machine : Type 0 where
  pub name : String
  pub namespace : String
  pub volumes : List Volume
  pub disks : List Disk

pub record Pod : Type 0 where
  pub owner_uids : List String
  pub pod_ip : String

-- `snapshotv1.VolumeSnapshot`: `status.boundVolumeSnapshotContentName`, if both pointers are set.
pub record Snapshot : Type 0 where
  pub bound_content_name : Option String

pub record SnapshotContent : Type 0 where
  pub source_volume_mode : Option String

pub data DataVolumePhase : Type 0 where
  data_volume_succeeded : DataVolumePhase
  data_volume_other : String → DataVolumePhase

abbrev pub data_volume_phase_text : DataVolumePhase → String
data_volume_phase_text data_volume_succeeded = "Succeeded"
data_volume_phase_text (data_volume_other s) = s

-- `cdiv1beta1.DataVolume` with a snapshot as its source.
pub record DataVolume : Type 0 where
  pub name : String
  pub namespace : String
  pub labels : List (String × String)
  pub snapshot_namespace : String
  pub snapshot_name : String
  pub access_modes : List String
  pub volume_mode : Option String
  pub phase : DataVolumePhase

pub record Secret : Type 0 where
  pub values : String → Option Bytes
