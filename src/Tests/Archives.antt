-- ===== src/Tests/Archives.antt =====
-- An archive of one script.
use vm_file_restore_operator.Base.{
  ◌≡◌, refl, sym, inl, inr, String, ◌=?◌, ◌==◌, ◌&&◌, Bool, true, List, [], ◌∷◌, ◌++◌, length,
  Option, none, some, if◌then◌else◌, Bool-cases, arith, eq_iff,
}
use vm_file_restore_operator.Base.Texts.{has_suffix}
use vm_file_restore_operator.Errors.{Error, Result, ok, err, plain}
use vm_file_restore_operator.Types.{Bytes}
use vm_file_restore_operator.Resources.{TarWriter, Header}
use vm_file_restore_operator.Resources.Tar.{mode_of, build_tar}
use vm_file_restore_operator.Resources.Tar.Entries.{IsTarWriter, Holds, build_tar-Holds}

abbrev failure : Error
failure = record { kind = plain; message = "failed" }

-- A writer for one script: its archive is the content, and it has no other entry.
abbrev Partial : Type 0
Partial = record { entries : List (Header × Bytes); pending : Option Header }

is_setup : Header → Bytes → Bool
is_setup h content = h.name =? "setup.sh" && h.mode == 493 && h.size == length content

abbrev setup_header : Bytes → Header
setup_header content = record { name = "setup.sh"; mode = 493; size = length content }

is_setup_sound :
    (h : Header) (content : Bytes) → is_setup h content ≡ true → h ≡ setup_header content
unfolding is_setup
is_setup_sound h content e = ground (arith, eq_iff h.name "setup.sh")

abbrev closed : List (Header × Bytes) → Result Bytes
closed ((h, content) ∷ []) = if is_setup h content then ok content else err failure
closed _ = err failure

abbrev written_to : Option Header → List (Header × Bytes) → Bytes → Result Partial
written_to none entries content = err failure
written_to (some h) entries content =
    ok (record { entries = entries ++ ((h, content) ∷ []); pending = none })

abbrev one_script : TarWriter
one_script = record {
  Writer = Partial;
  new_writer = record { entries = []; pending = none };
  write_header = λ w h. ok (record w { pending = some h });
  write = λ w content. written_to w.pending w.entries content;
  close = λ w. closed w.entries;
}

abbrev read_script : Bytes → List (Header × Bytes)
read_script content = (setup_header content, content) ∷ []

closed-read :
    (entries : List (Header × Bytes)) (archive : Bytes)
    → closed entries ≡ ok archive
    → read_script archive ≡ entries
closed-read [] archive e = cc
closed-read ((h, content) ∷ []) archive e = elim (Bool-cases (is_setup h content)) [
  | inl good ↦
      let k : ok content ≡ ok archive = rw good at e in
      let same : content ≡ archive = cc in
      let s : h ≡ setup_header content = is_setup_sound h content good in rw (s, sym same) refl
  | inr bad ↦ cc (rw bad at e)
]
closed-read (a ∷ b ∷ es) archive e = cc

one_script-IsTarWriter : IsTarWriter one_script read_script (λ w. w.entries)
one_script-IsTarWriter = record {
  start = refl;
  entry = λ w w1 w2 h content opened sized filled.
      let o : ok (record w { pending = some h }) ≡ ok w1 = opened in
      let e : record w { pending = some h } ≡ w1 = cc in
      let f : ok (record w { entries = w.entries ++ ((h, content) ∷ []); pending = none }) ≡ ok w2 =
        rw (sym e) at filled in
      let g : record w { entries = w.entries ++ ((h, content) ∷ []); pending = none } ≡ w2 = cc in
      rw (sym g) refl;
  finish = λ w archive e. closed-read w.entries archive e;
}

abbrev scripts : String → Result Bytes
scripts name = if has_suffix name "t" then err failure else ok (7 ∷ 8 ∷ [])

built : build_tar one_script scripts ("setup.sh" ∷ []) ≡ ok (7 ∷ 8 ∷ [])
unfolding build_tar mode_of has_suffix is_setup
built = refl

build_tar-Holds_example : Holds scripts ("setup.sh" ∷ []) (read_script (7 ∷ 8 ∷ []))
build_tar-Holds_example =
    build_tar-Holds one_script read_script (λ w. w.entries) one_script-IsTarWriter scripts
      ("setup.sh" ∷ []) (7 ∷ 8 ∷ []) built
