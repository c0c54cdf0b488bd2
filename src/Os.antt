-- ===== src/Os.antt =====
-- internal/controller/os.go: guest OS detection, mount paths and helper scripts.
pub mod Paths
use vm_file_restore_operator.Base.{
  String, ◌<>◌, Bool, true, false, Option, none, some, ◌=?◌, if◌then◌else◌,
}
use vm_file_restore_operator.Base.Texts.{is_empty, has_prefix, contains, to_lower}
use vm_file_restore_operator.Types.{Instance}

abbrev pub os_type_linux : String
os_type_linux = "linux"

abbrev pub os_type_windows : String
os_type_windows = "windows"

abbrev pub os_annotation_key : String
os_annotation_key = "vm.kubevirt.io/os"

abbrev pub linux_mount_path : String
linux_mount_path = "/backup"

abbrev pub windows_mount_path : String
windows_mount_path = "C:\\backup"

abbrev pub linux_helper_script : String
linux_helper_script = "/usr/local/bin/filerestore.sh"

abbrev pub windows_helper_script : String
windows_helper_script = "\"C:\\Program Files\\filerestore\\filerestore.bat\""

-- Strategies 2 and 3: the guest agent's name, then the default.
os_of_guest_agent : String → String
os_of_guest_agent name =
    if is_empty name
    then os_type_linux
    else if contains (to_lower name) os_type_windows
    then os_type_windows
    else os_type_linux

-- Strategy 1: an annotation that is not empty.
os_of_annotation : Option String → String → String
unfolding os_of_guest_agent
os_of_annotation none name = os_of_guest_agent name
os_of_annotation (some annotation) name =
    if is_empty annotation
    then os_of_guest_agent name
    else if has_prefix (to_lower annotation) os_type_windows
    then os_type_windows
    else os_type_linux

-- `DetectGuestOS`
unfoldable pub detect_guest_os : Instance → String
unfolding os_of_annotation
detect_guest_os vmi = os_of_annotation (vmi.annotations os_annotation_key) vmi.guest_os_name

-- `getMountPath`
unfoldable pub get_mount_path : Instance → String → String
get_mount_path vmi source_name =
    if detect_guest_os vmi =? os_type_windows
    then windows_mount_path <> ("-" <> source_name)
    else linux_mount_path <> ("-" <> source_name)

-- `GetHelperScriptPath`
unfoldable pub get_helper_script_path : String → String
get_helper_script_path os_type =
    if os_type =? os_type_windows then windows_helper_script else linux_helper_script
