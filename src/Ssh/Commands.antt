-- ===== src/Ssh/Commands.antt =====
-- The command lines for the guest helper.
use vm_file_restore_operator.Base.{
  ◌≡◌, refl, inl, inr, String, true, false, Bool-cases, is_some, ◌=?◌,
}
use vm_file_restore_operator.Base.Texts.{is_empty, trim_right}
use vm_file_restore_operator.Base.Texts.Laws.{trim_right_idem, is_empty-append_left, is_empty-cons}
use vm_file_restore_operator.Types.{Instance}
use vm_file_restore_operator.Os.{get_mount_path, detect_guest_os, os_type_windows}
use vm_file_restore_operator.Hotplug.Names.{volume_name_of}
use vm_file_restore_operator.Hotplug.Naming.{volume_name_of-filled}
use vm_file_restore_operator.Ssh.{build_ssh_command, build_cleanup_command, is_slash}

pub mount_path-filled :
    (vmi : Instance) (name : String) → is_empty (get_mount_path vmi name) ≡ false
unfolding get_mount_path
mount_path-filled vmi name = elim (Bool-cases (detect_guest_os vmi =? os_type_windows)) [
  | inl windows ↦ rw windows (is_empty-append_left _ _ refl)
  | inr linux ↦ rw linux (is_empty-append_left _ _ refl)
]

-- On the mount path that `getMountPath` gives, for any source and guest, and on the volume name of
-- any restore neither command builder panics.
pub commands-total :
    (vmi : Instance) (source cr os path : String)
    → (is_some (build_ssh_command os (volume_name_of cr) (get_mount_path vmi source) path) ≡ true)
      × (is_some (build_cleanup_command os (get_mount_path vmi source)) ≡ true)
unfolding build_ssh_command build_cleanup_command
commands-total vmi source cr os path =
    rw (volume_name_of-filled cr, mount_path-filled vmi source) (refl, refl)

untrimmed-filled : (m : String) → is_empty (trim_right is_slash m) ≡ false → is_empty m ≡ false
unfolding trim_right
untrimmed-filled String.[] k = k
untrimmed-filled (String.◌∷◌ c m) k = is_empty-cons c m

-- Slashes at the end of the paths make no difference to the restore command, as long as the mount
-- path does not consist of slashes.
pub build_ssh_command-trimmed :
    (os volume mount source : String)
    → is_empty (trim_right is_slash mount) ≡ false
    → build_ssh_command os volume (trim_right is_slash mount) (trim_right is_slash source)
      ≡ build_ssh_command os volume mount source
unfolding build_ssh_command
build_ssh_command-trimmed os volume mount source h =
    rw
      (h, untrimmed-filled mount h, trim_right_idem is_slash mount, trim_right_idem is_slash source)
      refl
