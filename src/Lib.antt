-- ===== src/Lib.antt =====
-- Verification library of the VM file restore operator: the controller of
-- VirtualMachineFileRestore objects, which plugs a backup volume into a running virtual machine,
-- runs a helper in the guest over SSH, and unplugs the volume again; the start-up of the operator,
-- which provides its SSH key; its TLS policy; and its manifest.
--
-- Parts and files (paths from the root of the repository):
--
--  Types        api/v1alpha1/virtualmachinefilerestore_types.go, and of the KubeVirt, CDI, snapshot
--               and core types the fields that the operator reads or writes.
--  Errors       internal/controller/errors.go, and the reasons of API errors that the code asks for.
--               Wrapping: what stays visible of a wrapped error.
--  Os           internal/controller/os.go: DetectGuestOS, getMountPath, GetHelperScriptPath.
--  Network      internal/controller/network.go: GetVMIPAddress, getPodForVMI.
--  Ssh          internal/controller/ssh.go: ConnectSSH, RunCommand, BuildSSHCommand,
--               BuildCleanupCommand, TruncateOutput.
--  FileCount    ParseRestoredFileCount and matchFileCount of internal/controller/phases.go.
--  Conditions   setCondition of internal/controller/virtualmachinefilerestore_controller.go.
--  Hotplug      internal/controller/hotplug.go. Names: the volume's name, the machine with and
--               without the volume. Source: the claim that is plugged, with the data volume of a
--               snapshot. Steps: HotplugVolume and UnplugVolume.
--  Controller   internal/controller/phases.go and virtualmachinefilerestore_controller.go. State:
--               the state of a reconciliation, that is the world and the object in memory that the
--               handlers change through their pointer. Access: cleanup and the private key; Cleaning:
--               that cleanup does not panic. Steps:
--               transitionPhase, incrementRetryAndRequeue, failRestore. Init, Attachment,
--               Restoring, Finish: the phase handlers. Reconcile: Reconcile. Graph: the diagram of
--               the phases. Runs: sequences of reconciliations. Progress: the attempts in the two phases
--               that wait. Mount: the phases that need a mount path.
--               The other files are proofs.
--  Operator     internal/controller/filerestoreoperator_controller.go and
--               api/v1alpha1/filerestoreoperator_types.go: the operator's own status, with its client
--               and apimachinery's condition functions as a record of their own. Status: what the
--               status should tell, and what is assumed of these. Settled: what a reconciliation writes.
--  Resources    internal/controller/keypair.go. Tar: buildTar. Ensure: EnsureOperatorResources with
--               ensureHelperTars, createConfigMap, createConfigMapFromSecret and
--               createKeypairAndConfigMap. Server: IsResourceServer and IsKeyCodec, what is assumed of
--               the API server and of the key functions for the two objects. Shared: the same server
--               while other operators use it, and what one of them may do.
--  Tls          api/v1alpha1/types_tlssecurityprofile.go. Config: cryptoConfigFromSpec,
--               selectCipherSuitesAndMinTLSVersion, cipherSuitesIDs and tlsVersionToUint16 of
--               pkg/resources/utils/tls_watcher.go. Watcher: ManagedTLSWatcher.
--  Manager      cmd/main.go. Startup: the attempts to ensure the resources. Serving: the TLS
--               configuration of the servers. Main: main, as steps that may end the process.
--  Csv          pkg/resources/operator/csv.go and tools/csv-generator/csv-generator.go. Rules and
--               Manifest: NewClusterServiceVersion. Access: the requests behind the operator's calls,
--               and what the rules grant. Generator: main of the generator.
--  Api          what the operator calls: the client, the recorder, the clock, SSH. A record of
--               operations on a world that is not further described. Every definition takes it.
--  Server       IsServer, what the proofs assume of Api: a successful patch stores the merge of what was
--               sent and answers with it, a failed one may have done so or not, and no other call
--               changes the status. A field that was sent is stored as sent; one in which the patch
--               agrees with its base stays as it is stored. Sees: the condition of a reconciliation
--               that it reads the status as it is stored.
--  Monad        actions on a state, and rules for what they keep.
--  Base         shared helpers: tests, lists, texts, association lists, decimal notation.
--  Tests        a cluster in memory that satisfies IsServer, a restore that runs on it from its start
--               to its end, and the theorems at concrete inputs.
--
-- How the parts interact: Reconcile reads the object, and either runs cleanup and takes the finalizer
-- off, or adds it, or runs the handler of the stored phase. A handler changes the object in memory and
-- patches the status; the patch's answer replaces the object. HotplugVolume and UnplugVolume patch the
-- machine; the SSH handlers get the instance, its address and the key, and run a command. Before the
-- controllers start, main makes at most five attempts at EnsureOperatorResources, which leaves the key
-- in the secret that the SSH handlers read; the metrics server asks the TLS watcher for every client.
--
-- Choices: every call may answer anything, errors included, and the theorems hold for all answers. A
-- panic is an answer of its own. The client reads from a cache, so a read of the restore may return an
-- older one; a sequence of Runs is made of reconciliations that read the status as it is stored, and
-- the theorems that need this of one reconciliation say so. `defer client.Close()` is a call after the body. The goroutine of
-- RunCommand is the alternative ends of a run. Every loop of the code is a recursion on the list that
-- it goes through or on the number of its attempts, so nothing runs on fuel, and every definition is
-- total. Times and durations are nanoseconds, without the truncation to seconds of the stored form.
-- The retry counters, int32 in the code, are natural numbers, which the handlers compare with 60 and
-- 24 before they increment them; file counts are tested against the range of int32. A text is a list
-- of characters. ToLower is exact where its result is compared with ASCII words. Sscanf is modelled for
-- the one format that is used.
-- GetVolumeName panics on an empty name; the handlers use it on objects of the API server, which have
-- names. The template of a machine, a required field of the API, is taken to be there.
-- A Go map is an association list, in which the first entry of a key counts. The five attempts are a
-- recursion on those that are left. The lock of the TLS watcher is one step for each section that it
-- guards, and the states in between are those of Tls.Watcher.Reached. Parameters of the start-up: the
-- client, ed25519, pem and ssh, the embedded scripts, archive/tar (IsTarWriter: a reader finds the
-- entries that were written), tls.CipherSuites() (IsGoSuites: the suites of TLS 1.3 are in it, and all
-- its names begin with TLS_), controller-runtime and the environment. IsResponsive is a server on which
-- no call fails without a reason. In IsSharedServer a call works at one moment, and other operators
-- work before and after it.
--
-- Not modelled: the generated deep copies, the registration of the types and the embedding of files,
-- which have no logic of their own; SetupWithManager and the declaration of flags; the scripts in
-- guest-helpers, which run in the guest; the tests; and logging.
pub mod Base
pub mod Errors
pub mod Types
pub mod Monad
pub mod Api
pub mod Os
pub mod Network
pub mod Ssh
pub mod FileCount
pub mod Conditions
pub mod Hotplug
pub mod Controller
pub mod Server
pub mod Operator
pub mod Resources
pub mod Tls
pub mod Manager
pub mod Csv
mod Tests
