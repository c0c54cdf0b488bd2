-- ===== src/FileCount.antt =====
-- `ParseRestoredFileCount` of internal/controller/phases.go: the count line of a guest helper.
pub mod RoundTrip
use vm_file_restore_operator.Base.{
  ℕ, ◌+◌, ◌^◌, code, String, Bool, true, false, Option, none, some, List, [], ◌∷◌, ltb, leb, ◌==◌,
  if◌then◌else◌,
}
use vm_file_restore_operator.Base.Texts.{
  is_empty, has_prefix, skip, trim_prefix, trim_left, trim_space, is_space, lines,
}
use vm_file_restore_operator.Base.Decimal.{ℤ, pos, negsuc, neg, is_digit, read}

abbrev pub count_prefix : String
count_prefix = "[filerestore] "

abbrev starts_with_digit : String → Bool
starts_with_digit String.[] = false
starts_with_digit (String.◌∷◌ c s) = is_digit (code c)

abbrev starts_with_space : String → Bool
starts_with_space String.[] = true
starts_with_space (String.◌∷◌ c s) = is_space (code c)

-- A space of the format, then a word of it: at least one space (or the end of the input), any
-- more, then the word. The rest of the input is returned.
spaced_word : String → String → Option String
unfolding trim_left has_prefix skip is_space
spaced_word word s =
    let rest = trim_left is_space s in
    if starts_with_space s
    then (if has_prefix rest word then some (skip rest word) else none)
    else none

-- The part " files restored" of the format; what follows it is ignored.
matches_files_restored : String → Bool
unfolding spaced_word
matches_files_restored s = elim (spaced_word "files" s) [
  | none ↦ false
  | some rest ↦ elim (spaced_word "restored" rest) [ none ↦ false | some _ ↦ true ]
]

-- The sign that `%d` accepts: is it a minus, and what follows.
take_sign : String → Bool × String
take_sign String.[] = (false, "")
take_sign (String.◌∷◌ c s) =
    if code c == b'-'
    then (true, s)
    else if code c == b'+'
    then (false, s)
    else (false, String.◌∷◌ c s)

-- Does the number fit an int32?
abbrev pub fits_int32 : Bool → ℕ → Bool
fits_int32 negative n = if negative then leb n (2 ^ 31) else ltb n (2 ^ 31)

-- `matchFileCount`: `fmt.Sscanf(line, "%d files restored", &count)`. The line has no newline in it.
unfoldable pub match_file_count : String → Option ℤ
unfolding take_sign matches_files_restored trim_left is_space read
match_file_count line =
    let (negative, digits) = take_sign (trim_left is_space line) in
    let (n, rest) = read 0 digits in
    if starts_with_digit digits
    then (if fits_int32 negative n
        then (if matches_files_restored rest
            then some (if negative then neg n else pos n)
            else none)
        else none)
    else none

-- The body of the loop over the lines.
unfoldable pub count_of_line : String → Option ℤ
unfolding match_file_count trim_space has_prefix trim_prefix
count_of_line line =
    let trimmed = trim_space line in
    if has_prefix trimmed count_prefix
    then match_file_count (trim_prefix trimmed count_prefix)
    else none

unfoldable pub first_count : List String → ℤ
unfolding count_of_line
first_count [] = negsuc 0
first_count (line ∷ rest) =
    let later = first_count rest in elim (count_of_line line) [ some n ↦ n | none ↦ later ]

-- `ParseRestoredFileCount`; -1 when there is no count line.
unfoldable pub parse_restored_file_count : String → ℤ
unfolding first_count lines
parse_restored_file_count stdout = first_count (lines stdout)
