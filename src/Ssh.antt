-- ===== src/Ssh.antt =====
-- internal/controller/ssh.go: connecting, running commands, the two command lines, and output.
pub mod Commands
pub mod Truncation
use vm_file_restore_operator.Base.{
  ℕ, ◌-◌, String, ◌<>◌, Bool, ◌||◌, Option, none, some, [], ◌∷◌, ◌=?◌, ◌==◌, leb, length, drop,
  if◌then◌else◌,
}
use vm_file_restore_operator.Base.Texts.{is_empty, trim_right, lines, join_lines}
use vm_file_restore_operator.Errors.{Error, Result, ok, err, errorf, wrap}
use vm_file_restore_operator.Types.{Bytes, Time}
use vm_file_restore_operator.Monad.{Action, pure, ◌>>=◌, on_result}
use vm_file_restore_operator.Api.{Api, Run, RunEnd, no_session, completed, cancelled}
use vm_file_restore_operator.Os.{os_type_windows, get_helper_script_path}

abbrev is_empty_key : Bytes → Bool
is_empty_key [] = Bool.true
is_empty_key (_ ∷ _) = Bool.false

module _ (api : Api) where
  open api use {World, Signer, Connection}

  dial_with : String → Result Signer → Action World (Result Connection)
  dial_with ip parsed =
      on_result parsed (λ e. pure (err (wrap "failed to parse private key" e)))
        (λ signer. do
          client ← api.dial ip signer
          on_result client (λ e. pure (err (wrap "failed to dial SSH" e))) (λ c. pure (ok c)))

  -- `ConnectSSH`
  unfoldable pub connect_ssh : String → Bytes → Action World (Result Connection)
  unfolding dial_with
  connect_ssh ip private_key =
      if is_empty ip
      then pure (err (errorf "IP address cannot be empty"))
      else if is_empty_key private_key
      then pure (err (errorf "private key cannot be empty"))
      else dial_with ip (api.parse_private_key private_key)

-- What `RunCommand` returns: both outputs and the error, if any.
pub record Output : Type 0 where
  pub stdout : String
  pub stderr : String
  pub error : Option Error

-- `RunCommand`, on how the session went.
unfoldable pub run_command_output : Run → Output
run_command_output r = elim r.end [
  | no_session e ↦ record {
    stdout = "";
    stderr = "";
    error = some (wrap "failed to create session" e);
  }
  | completed e ↦ record { stdout = r.stdout; stderr = r.stderr; error = e }
  | cancelled e ↦ record {
    stdout = r.stdout;
    stderr = r.stderr;
    error = some (wrap "command cancelled" e);
  }
]

abbrev pub is_slash : ℕ → Bool
is_slash c = c == b'/' || c == b'\\'

-- The Windows form quotes the paths, the Linux form does not.
abbrev path_argument : String → String → String
path_argument os_type path = if os_type =? os_type_windows then "\"" <> (path <> "\"") else path

abbrev source_option : String → String → String
source_option os_type source_path =
    if is_empty source_path then "" else " --source-path " <> path_argument os_type source_path

-- `BuildSSHCommand`; `none` is a panic.
unfoldable pub build_ssh_command : String → String → String → String → Option String
build_ssh_command os_type volume_name mount_path source_path =
    if is_empty volume_name
    then none
    else if is_empty mount_path
    then none
    else some (
        get_helper_script_path os_type
        <> (" restore --serial "
            <> (volume_name
                <> (" --mount-path "
                    <> (path_argument os_type (trim_right is_slash mount_path)
                        <> source_option os_type (trim_right is_slash source_path))))))

-- `BuildCleanupCommand`; `none` is a panic.
unfoldable pub build_cleanup_command : String → String → Option String
build_cleanup_command os_type mount_path =
    if is_empty mount_path
    then none
    else some (
        get_helper_script_path os_type
        <> (" cleanup --mount-path " <> path_argument os_type mount_path))

-- `TruncateOutput`
unfoldable pub truncate_output : String → ℕ → String
truncate_output output max_lines =
    if is_empty output
    then ""
    else let pieces = lines output in
      if leb (length pieces) max_lines
      then output
      else join_lines (drop (length pieces - max_lines) pieces)
