-- ===== src/Resources/Tar/Entries.antt =====
-- What an archive of `buildTar` holds.
use vm_file_restore_operator.Base.{
  ◌≡◌, ◌≢◌, ◌∙◌, ap, refl, inl, inr, Bool-cases, String, ◌<>◌, List, [], ◌∷◌, ◌++◌, length,
}
use mathlib.Core.List.{append_assoc, append-nil}
use vm_file_restore_operator.Errors.{Result, ok, err}
use vm_file_restore_operator.Types.{Bytes}
use vm_file_restore_operator.Base.Texts.{has_suffix}
use vm_file_restore_operator.Base.Texts.Laws.{has_suffix-append, has_suffix-stem}
use vm_file_restore_operator.Resources.{TarWriter, Header}
use vm_file_restore_operator.Resources.Tar.{
  or_wrap, mode_of, header_of, write_entries, close_archive, build_tar,
}

-- The documented behaviour of the writer: `read` gives the entries of an archive, `written` those
-- that went into the writer.
pub record IsTarWriter (tar : TarWriter) (read : Bytes → List (Header × Bytes))
    (written : tar.Writer → List (Header × Bytes)) : Type 0 where
  pub start : written tar.new_writer ≡ []
  pub entry :
      (w w1 w2 : tar.Writer) (h : Header) (content : Bytes)
      → tar.write_header w h ≡ ok w1
      → h.size ≡ length content
      → tar.write w1 content ≡ ok w2
      → written w2 ≡ written w ++ ((h, content) ∷ [])
  pub finish :
      (w : tar.Writer) (archive : Bytes) → tar.close w ≡ ok archive → read archive ≡ written w

-- The header of a file: a name that ends in `.sh` has the mode 0755, and another name 0644.
pub record Describes (name : String) (content : Bytes) (h : Header) : Type 0 where
  pub same_name : h.name ≡ name
  pub same_size : h.size ≡ length content
  pub is_script : (stem : String) → name ≡ stem <> ".sh" → h.mode ≡ 493
  pub is_plain : ((stem : String) → name ≢ stem <> ".sh") → h.mode ≡ 420

-- The entries are the named files with their contents, in the order of the names.
abbrev pub Holds : (String → Result Bytes) → List String → List (Header × Bytes) → Type 0
Holds files [] [] = Unit
Holds files (name ∷ names) ((h, content) ∷ entries) =
    (files name ≡ ok content) × Describes name content h × Holds files names entries
Holds files _ _ = ⊥

header_of-Describes :
    (name : String) (content : Bytes) → Describes name content (header_of name content)
unfolding mode_of
header_of-Describes name content = record {
  same_name = refl;
  same_size = refl;
  is_script = λ stem e. rw (e, has_suffix-append stem ".sh") refl;
  is_plain = λ none. elim (Bool-cases (has_suffix name ".sh")) [
    | inl script ↦ let (stem, e) = has_suffix-stem name ".sh" script in absurd (none stem e)
    | inr plain ↦ rw plain refl
  ];
}

or_wrap-eq_ok :
    {A B : Type 0} (context : String) (r : Result A) (k : A → Result B) (b : B)
    → or_wrap context r k ≡ ok b
    → (a : A) × (r ≡ ok a) × (k a ≡ ok b)
or_wrap-eq_ok context (ok a) k b e = (a, refl, e)
or_wrap-eq_ok context (err x) k b e = cc

module _ (tar : TarWriter) (read : Bytes → List (Header × Bytes))
    (written : tar.Writer → List (Header × Bytes)) (lawful : IsTarWriter tar read written)
    (files : String → Result Bytes) where
  open tar use {Writer, write_header, write, close}

  write_entries-Holds :
      (names : List String) (w w' : Writer)
      → write_entries tar files names w ≡ ok w'
      → (entries : List (Header × Bytes)) × Holds files names entries
        × (written w' ≡ written w ++ entries)
  unfolding write_entries
  write_entries-Holds [] w w' e = ([], tt, let same : w ≡ w' = cc in rw (append-nil, same) refl)
  write_entries-Holds (name ∷ names) w w' e =
      let (content, found, e1) = or_wrap-eq_ok _ (files name) _ w' e in
      let (w1, opened, e2) = or_wrap-eq_ok _ (write_header w (header_of name content)) _ w' e1 in
      let (w2, filled, e3) = or_wrap-eq_ok _ (write w1 content) _ w' e2 in
      let (entries, held, sum) = write_entries-Holds names w2 w' e3 in
      (
        (header_of name content, content) ∷ entries,
        (found, header_of-Describes name content, held),
        sum
            ∙ ap (λ es. es ++ entries)
                (lawful.entry w w1 w2 (header_of name content) content opened refl filled)
            ∙ append_assoc (written w) _ entries,
      )

  closed :
      (names : List String) (r : Result Writer) (archive : Bytes)
      → write_entries tar files names tar.new_writer ≡ r
      → close_archive tar files r ≡ ok archive
      → Holds files names (read archive)
  unfolding close_archive
  closed names (err x) archive e h = cc
  closed names (ok w) archive e h =
      let (bytes, shut, same) = or_wrap-eq_ok _ (close w) ok archive h in
      let (entries, held, sum) = write_entries-Holds names tar.new_writer w e in
      let k : bytes ≡ archive = cc in
      let start : written w ≡ entries = sum ∙ ap (λ es. es ++ entries) lawful.start in
      rw (← k, lawful.finish w bytes shut, start) held

  -- With a writer that keeps IsTarWriter, an archive that buildTar returns holds the named files
  -- with their contents, in the order of the names; a file whose name ends in .sh with the mode
  -- 0755, and every other file with 0644.
  pub build_tar-Holds :
      (names : List String) (archive : Bytes)
      → build_tar tar files names ≡ ok archive
      → Holds files names (read archive)
  unfolding build_tar
  build_tar-Holds names archive e = closed names _ archive refl e
