-- ===== src/Resources/Tar.antt =====
-- `buildTar` of internal/controller/keypair.go.
pub mod Entries
use vm_file_restore_operator.Base.{ℕ, String, ◌<>◌, List, [], ◌∷◌, length, if◌then◌else◌}
use vm_file_restore_operator.Base.Texts.{has_suffix}
use vm_file_restore_operator.Errors.{Result, ok, err, wrap}
use vm_file_restore_operator.Types.{Bytes}
use vm_file_restore_operator.Resources.{TarWriter, Header}

-- `a, err := r; if err != nil { return nil, fmt.Errorf("context: %w", err) }`
abbrev pub or_wrap : {A B : Type 0} → String → Result A → (A → Result B) → Result B
or_wrap context (ok a) k = k a
or_wrap context (err e) k = err (wrap context e)

-- 0755 for a shell script and 0644 for any other file, in octal.
unfoldable pub mode_of : String → ℕ
mode_of name = if has_suffix name ".sh" then 493 else 420

abbrev pub header_of : String → Bytes → Header
header_of name content = record { name = name; mode = mode_of name; size = length content }

module _ (tar : TarWriter) (read_file : String → Result Bytes) where
  open tar use {Writer, write_header, write, close}

  -- The loop over the names.
  unfoldable pub write_entries : List String → Writer → Result Writer
  write_entries [] w = ok w
  write_entries (name ∷ names) w = or_wrap ("read " <> name) (read_file name) λ content.
      or_wrap ("write tar header for " <> name) (write_header w (header_of name content)) λ w1.
        or_wrap ("write tar content for " <> name) (write w1 content) λ w2. write_entries names w2

  close_archive : Result Writer → Result Bytes
  close_archive (err e) = err e
  close_archive (ok w) = or_wrap "close tar" (close w) ok

  -- `buildTar`
  unfoldable pub build_tar : List String → Result Bytes
  unfolding write_entries close_archive
  build_tar names = close_archive (write_entries names tar.new_writer)
