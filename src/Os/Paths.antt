-- ===== src/Os/Paths.antt =====
-- `getMountPath` of internal/controller/os.go.
use vm_file_restore_operator.Base.{
  ◌≡◌, inl, inr, String, ◌<>◌, Bool-cases, append_cancel_left, ◌=?◌,
}
use vm_file_restore_operator.Types.{Instance}
use vm_file_restore_operator.Os.{
  get_mount_path, detect_guest_os, os_type_windows, linux_mount_path, windows_mount_path,
}

-- On one guest, sources with different names are mounted at different paths.
pub get_mount_path-injective :
    (vmi : Instance) (a b : String) → get_mount_path vmi a ≡ get_mount_path vmi b → a ≡ b
unfolding get_mount_path
get_mount_path-injective vmi a b e = elim (Bool-cases (detect_guest_os vmi =? os_type_windows)) [
  | inl windows ↦
      append_cancel_left "-" a b
        (append_cancel_left windows_mount_path ("-" <> a) ("-" <> b) (rw windows at e))
  | inr linux ↦
      append_cancel_left "-" a b
        (append_cancel_left linux_mount_path ("-" <> a) ("-" <> b) (rw linux at e))
]
