-- ===== src/FileCount/RoundTrip.antt =====
-- Printing and reading the count line of a guest helper.
use vm_file_restore_operator.Base.{
  ◌≡◌, ◌<◌, ◌^◌, refl, ◌∙◌, ap, inl, inr, ℕ, Char, code, String, ◌<>◌, Bool, true, false, Option,
  none, some, List, [], ◌∷◌, ◌++◌, All, lt→ltb, ltb→lt, leb→le, zero, suc, subst, if◌then◌else◌,
  Bool-cases, Option-cases, arith, cons-append, nil-append, ◌==◌,
}
use vm_file_restore_operator.Base.Texts.{
  has_prefix, skip, trim_prefix, trim_left, trim_right, trim_space, is_space, lines,
}
use vm_file_restore_operator.Base.Texts.Laws.{trim_right-append, is_empty-append_right}
use vm_file_restore_operator.Base.Decimal.{
  ℤ, pos, negsuc, print, read, read-print, print-starts, is_digit, neg,
}
use vm_file_restore_operator.FileCount.{
  count_prefix, count_of_line, first_count, match_file_count, parse_restored_file_count, take_sign,
  starts_with_digit, matches_files_restored, fits_int32,
}

-- The line that the helper scripts print.
abbrev pub count_line : ℕ → String
count_line n = count_prefix <> (print n <> " files restored")

digit-space : (c : ℕ) → is_digit c ≡ true → is_space c ≡ false
unfolding is_space
digit-space c h = ground arith

digit-minus : (c : ℕ) → is_digit c ≡ true → c == b'-' ≡ false
digit-minus c h = ground arith

digit-plus : (c : ℕ) → is_digit c ≡ true → c == b'+' ≡ false
digit-plus c h = ground arith

-- A text that begins with a digit is scanned from there.
unsigned :
    (c : Char) (s : String)
    → is_digit (code c) ≡ true
    → take_sign (trim_left is_space (String.◌∷◌ c s)) ≡ (false, String.◌∷◌ c s)
unfolding take_sign trim_left
unsigned c s h =
    rw (digit-space (code c) h) (rw (digit-minus (code c) h, digit-plus (code c) h) refl)

print-unsigned :
    (n : ℕ) (t : String)
    → (take_sign (trim_left is_space (print n <> t)) ≡ (false, print n <> t))
      × (starts_with_digit (print n <> t) ≡ true)
print-unsigned n t =
    let (c, s, d, e) = print-starts n in rw e (rw (cons-append c s t) (unsigned c (s <> t) d, d))

match_file_count-print :
    (n : ℕ) → n < 2 ^ 31 → match_file_count (print n <> " files restored") ≡ some (pos n)
unfolding match_file_count matches_files_restored read
match_file_count-print n h =
    let (u, d) = print-unsigned n " files restored" in
    let r : read 0 (print n <> " files restored") ≡ (n, " files restored") =
      read-print n " files restored" in
    rw u (rw (d, r) (rw (lt→ltb n (2 ^ 31) h) refl))

has_prefix-append : (s t : String) → (has_prefix (s <> t) s ≡ true) × (skip (s <> t) s ≡ t)
unfolding has_prefix skip
has_prefix-append String.[] t = (refl, nil-append t)
has_prefix-append (String.◌∷◌ c s) t =
    let same : code c == code c ≡ true = ground arith in
    let (starts, ends) = has_prefix-append s t in rw (cons-append c s t) (rw same starts, ends)

trim_space-line : (n : ℕ) → trim_space (count_line n) ≡ count_line n
unfolding trim_space trim_left is_space trim_right
trim_space-line n =
    let tail : String = print n <> " files restored" in
    let left : trim_left is_space (count_line n) ≡ count_line n =
      rw (cons-append "[" "filerestore] " tail) refl in
    let right : trim_right is_space (count_line n) ≡ count_line n =
      trim_right-append is_space count_prefix tail
        (is_empty-append_right (print n) " files restored" refl)
        (trim_right-append is_space (print n) " files restored" refl refl) in
    ap (trim_right is_space) left ∙ right

-- A count line is read as the number it was printed from, below 2^31.
count_of_line-print : (n : ℕ) → n < 2 ^ 31 → count_of_line (count_line n) ≡ some (pos n)
unfolding count_of_line trim_prefix
count_of_line-print n h =
    let (p, k) = has_prefix-append count_prefix (print n <> " files restored") in
    rw (trim_space-line n) (rw (p, k) (match_file_count-print n h))

first_count-found :
    (before : List String) (line : String) (after : List String) (k : ℤ)
    → All (λ l. count_of_line l ≡ none) before
    → count_of_line line ≡ some k
    → first_count (before ++ (line ∷ after)) ≡ k
unfolding first_count
first_count-found [] line after k h e = rw (e, first_count) refl
first_count-found (l ∷ ls) line after k h e =
    rw (h.0, first_count) (first_count-found ls line after k h.1 e)

-- The parser finds the count that a helper printed, in the first count line of the output, whatever
-- stands on the lines after it. The count is below 2^31, as an int32 is.
pub parse_restored_file_count-print :
    (stdout : String) (before after : List String) (n : ℕ)
    → lines stdout ≡ before ++ (count_line n ∷ after)
    → All (λ l. count_of_line l ≡ none) before
    → n < 2 ^ 31
    → parse_restored_file_count stdout ≡ pos n
unfolding parse_restored_file_count
parse_restored_file_count-print stdout before after n e h k =
    rw e (first_count-found before (count_line n) after (pos n) h (count_of_line-print n k))

-- What the parser returns fits an int32.
abbrev pub IsInt32 : ℤ → Type 0
IsInt32 (pos n) = n < 2 ^ 31
IsInt32 (negsuc n) = n < 2 ^ 31

abbrev InRange : Option ℤ → Type 0
InRange none = Unit
InRange (some k) = IsInt32 k

signed-IsInt32 :
    (negative : Bool) (n : ℕ)
    → fits_int32 negative n ≡ true
    → IsInt32 (if negative then neg n else pos n)
signed-IsInt32 false n h = ltb→lt n (2 ^ 31) h
signed-IsInt32 true zero h = omega arith
signed-IsInt32 true (suc n) h = omega (arith, leb→le (suc n) (2 ^ 31) h)

guarded :
    (digits fits format : Bool) (k : ℤ)
    → (fits ≡ true → IsInt32 k)
    → InRange (if digits then (if fits then (if format then some k else none) else none) else none)
guarded true true true k h = h refl
guarded true true false k h = tt
guarded true false format k h = tt
guarded false fits format k h = tt

match_file_count-InRange : (line : String) → InRange (match_file_count line)
unfolding match_file_count
match_file_count-InRange line =
    let (negative, digits) = take_sign (trim_left is_space line) in
    let (n, rest) = read 0 digits in
    guarded (starts_with_digit digits) (fits_int32 negative n) (matches_files_restored rest)
      (if negative then neg n else pos n) (signed-IsInt32 negative n)

count_of_line-InRange : (line : String) → InRange (count_of_line line)
unfolding count_of_line
count_of_line-InRange line = elim (Bool-cases (has_prefix (trim_space line) count_prefix)) [
  | inl counted ↦ rw counted (match_file_count-InRange (skip (trim_space line) count_prefix))
  | inr passed ↦ rw passed tt
]

first_count-IsInt32 : (ls : List String) → IsInt32 (first_count ls)
unfolding first_count
first_count-IsInt32 [] = omega arith
first_count-IsInt32 (l ∷ ls) = elim (Option-cases (count_of_line l)) [
  | inl e ↦ rw (e, first_count) (first_count-IsInt32 ls)
  | inr (k, e) ↦ rw (e, first_count) (subst InRange e (count_of_line-InRange l))
]

-- The count that is parsed from any output fits an int32.
pub parse_restored_file_count-IsInt32 :
    (stdout : String) → IsInt32 (parse_restored_file_count stdout)
unfolding parse_restored_file_count
parse_restored_file_count-IsInt32 stdout = first_count-IsInt32 (lines stdout)
