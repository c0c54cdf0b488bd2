-- ===== src/Base/Texts.antt =====
-- The functions of Go's package `strings` that the operator calls. A text is a list of characters;
-- on valid UTF-8 these functions agree with the byte-wise ones.
pub mod Laws
use Prim.Native.Nat.{ℕ, zero, suc, ◌+◌, ◌-◌}
use Prim.Native.Char.{Char, code}
use Prim.Native.String.{String, ◌++◌}
use Prim.Native.String
use mathlib.Core.Bool.{Bool, true, false, ◌&&◌, ◌||◌}
use mathlib.Core.List.{List, [], ◌∷◌}
use vm_file_restore_operator.Base.Tests.{leb, ◌==◌, ◌=?◌, if◌then◌else◌}

abbrev pub is_empty : String → Bool
is_empty s = s =? ""

abbrev pub within : ℕ → ℕ → ℕ → Bool
within lo hi c = leb lo c && leb c hi

-- `strings.HasPrefix`
unfoldable pub has_prefix : String → String → Bool
has_prefix s String.[] = true
has_prefix String.[] (String.◌∷◌ d t) = false
has_prefix (String.◌∷◌ c s) (String.◌∷◌ d t) = code c == code d && has_prefix s t

-- What is left of `s` after a prefix as long as `t`.
unfoldable pub skip : String → String → String
skip s String.[] = s
skip String.[] (String.◌∷◌ d t) = ""
skip (String.◌∷◌ c s) (String.◌∷◌ d t) = skip s t

-- `strings.TrimPrefix`
unfoldable pub trim_prefix : String → String → String
unfolding has_prefix skip
trim_prefix s t = if has_prefix s t then skip s t else s

-- `strings.HasSuffix`
unfoldable pub has_suffix : String → String → Bool
has_suffix String.[] t = "" =? t
has_suffix (String.◌∷◌ c s) t = (String.◌∷◌ c s) =? t || has_suffix s t

-- `strings.Contains`
unfoldable pub contains : String → String → Bool
unfolding has_prefix
contains String.[] t = has_prefix "" t
contains (String.◌∷◌ c s) t = has_prefix (String.◌∷◌ c s) t || contains s t

-- Drop the characters that pass a test from the end: `strings.TrimRight` with a set of characters.
unfoldable pub trim_right : (ℕ → Bool) → String → String
trim_right p String.[] = ""
trim_right p (String.◌∷◌ c s) =
    let rest = trim_right p s in if p (code c) && is_empty rest then "" else String.◌∷◌ c rest

unfoldable pub trim_left : (ℕ → Bool) → String → String
trim_left p String.[] = ""
trim_left p (String.◌∷◌ c s) = if p (code c) then trim_left p s else String.◌∷◌ c s

-- `unicode.IsSpace`
unfoldable pub is_space : ℕ → Bool
is_space c =
    within 0x09 0x0d c
    || c == 0x20
    || c == 0x85
    || c == 0xa0
    || c == 0x1680
    || within 0x2000 0x200a c
    || within 0x2028 0x2029 c
    || c == 0x202f
    || c == 0x205f
    || c == 0x3000

-- `strings.TrimSpace`
unfoldable pub trim_space : String → String
unfolding trim_left trim_right is_space
trim_space s = trim_right is_space (trim_left is_space s)

-- One more character on the first piece of a split.
unfoldable pub cons_head : Char → List String → List String
cons_head c [] = (String.◌∷◌ c "") ∷ []
cons_head c (piece ∷ pieces) = (String.◌∷◌ c piece) ∷ pieces

-- `strings.Split(s, "\n")`: the pieces between the newlines, at least one.
unfoldable pub lines : String → List String
unfolding cons_head
lines String.[] = "" ∷ []
lines (String.◌∷◌ c s) =
    let rest = lines s in if code c == b'\n' then "" ∷ rest else cons_head c rest

-- `strings.Join(pieces, "\n")`
unfoldable pub join_lines : List String → String
join_lines [] = ""
join_lines (piece ∷ []) = piece
join_lines (piece ∷ next ∷ pieces) = piece ++ ("\n" ++ join_lines (next ∷ pieces))

abbrev pub char_or : ℕ → String → Char → Char
char_or n String.[] d = d
char_or zero (String.◌∷◌ c s) d = c
char_or (suc n) (String.◌∷◌ c s) d = char_or n s d

-- `unicode.ToLower` on the characters whose lower case is an ASCII letter: `A` to `Z`, the Turkish
-- capital dotted I and the Kelvin sign. Any other letter stays, so that a text that holds one is
-- lowered only in part; a test against an ASCII word does not see the difference.
unfoldable pub lower : Char → Char
lower c =
    if within b'A' b'Z' (code c)
    then char_or (code c - b'A') "abcdefghijklmnopqrstuvwxyz" c
    else if code c == 0x130
    then "i"
    else if code c == 0x212a
    then "k"
    else c

-- `strings.ToLower`
unfoldable pub to_lower : String → String
unfolding lower
to_lower String.[] = ""
to_lower (String.◌∷◌ c s) = String.◌∷◌ (lower c) (to_lower s)
