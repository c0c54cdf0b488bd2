-- ===== src/Base/Texts/Laws.antt =====
-- Laws of the text functions: emptiness, suffixes, trimming, splitting and joining.
use Prim.Native.Nat.{ℕ}
use Prim.Native.Char.{Char, code}
use Prim.Native.String.{String, ◌++◌}
use mathlib.Core.Path.{◌≡◌, refl, sym, ap, ◌∙◌}
use mathlib.Core.Logic.{inl, inr}
use mathlib.Core.Bool.{Bool, true, false, ◌&&◌, ◌||◌}
use mathlib.Core.List.{List, [], ◌∷◌}
use native.Mathlib.Omega.{arith}
use text.Mathlib.TextEquality.{eq_iff, Char-path}
use text.Mathlib.TextPositions.{eq_refl}
use text.Mathlib.TextLemmas.{nil-append, cons-append, cons-ne-nil}
use vm_file_restore_operator.Base.Tests.{◌==◌, ◌=?◌, Bool-cases}
use vm_file_restore_operator.Base.Lists.{All}
use vm_file_restore_operator.Base.Texts.{
  is_empty, has_suffix, trim_right, cons_head, lines, join_lines,
}

pub is_empty-cons : (c : Char) (s : String) → is_empty (String.◌∷◌ c s) ≡ false
is_empty-cons c s = elim (Bool-cases (is_empty (String.◌∷◌ c s))) [
  | inl empty ↦ absurd (cons-ne-nil c s ((eq_iff (String.◌∷◌ c s) "").0 empty))
  | inr filled ↦ filled
]

pub is_empty-append_left : (s t : String) → is_empty s ≡ false → is_empty (s ++ t) ≡ false
is_empty-append_left String.[] t h = cc
is_empty-append_left (String.◌∷◌ c s) t h = rw (cons-append c s t) (is_empty-cons c (s ++ t))

pub is_empty-append_right : (s t : String) → is_empty t ≡ false → is_empty (s ++ t) ≡ false
is_empty-append_right String.[] t h = rw (nil-append t) h
is_empty-append_right (String.◌∷◌ c s) t h = rw (cons-append c s t) (is_empty-cons c (s ++ t))

or_true : (b : Bool) → b || true ≡ true
or_true true = refl
or_true false = refl

and_false : (b : Bool) → b && false ≡ false
and_false true = refl
and_false false = refl

-- `strings.HasSuffix(s + t, t)`
pub has_suffix-append : (s t : String) → has_suffix (s ++ t) t ≡ true
unfolding has_suffix
has_suffix-append String.[] String.[] = refl
has_suffix-append String.[] (String.◌∷◌ c t) =
    rw (nil-append (String.◌∷◌ c t), eq_refl (String.◌∷◌ c t)) refl
has_suffix-append (String.◌∷◌ c s) t = rw (cons-append c s t, has_suffix-append s t, or_true) refl

-- A text with the suffix is a stem and the suffix.
pub has_suffix-stem : (s t : String) → has_suffix s t ≡ true → (stem : String) × (s ≡ stem ++ t)
unfolding has_suffix
has_suffix-stem String.[] t h = ("", (eq_iff "" t).0 h ∙ sym (nil-append t))
has_suffix-stem (String.◌∷◌ c s) t h = elim (Bool-cases (String.◌∷◌ c s =? t)) [
  | inl same ↦ ("", (eq_iff (String.◌∷◌ c s) t).0 same ∙ sym (nil-append t))
  | inr other ↦
      let (stem, e) = has_suffix-stem s t (rw other at h) in
      (String.◌∷◌ c stem, rw (cons-append c stem t, e) refl)
]

-- Trimming twice is trimming once.
pub trim_right_idem : (p : ℕ → Bool) (s : String) → trim_right p (trim_right p s) ≡ trim_right p s
unfolding trim_right
trim_right_idem p String.[] = refl
trim_right_idem p (String.◌∷◌ c s) = elim (Bool-cases (p (code c) && is_empty (trim_right p s))) [
  | inl gone ↦ rw gone refl
  | inr kept ↦ rw kept (rw (trim_right_idem p s) (rw kept refl))
]

-- A text whose end is not trimmed protects what stands before it.
pub trim_right-append :
    (p : ℕ → Bool) (s t : String)
    → is_empty t ≡ false
    → trim_right p t ≡ t
    → trim_right p (s ++ t) ≡ s ++ t
unfolding trim_right
trim_right-append p String.[] t h k = rw (nil-append t) k
trim_right-append p (String.◌∷◌ c s) t h k =
    rw (cons-append c s t)
      (rw (trim_right-append p s t h k, is_empty-append_right s t h, and_false) refl)

-- `strings.Split` gives pieces without a newline.
abbrev pub is_newline : Char → Bool
is_newline c = code c == b'\n'

abbrev pub has_newline : String → Bool
has_newline String.[] = false
has_newline (String.◌∷◌ c s) = is_newline c || has_newline s

-- A split has at least one piece.
lines-filled : (s : String) → (p : String) × (ps : List String) × (lines s ≡ p ∷ ps)
unfolding lines cons_head
lines-filled String.[] = ("", [], refl)
lines-filled (String.◌∷◌ c s) = elim (Bool-cases (is_newline c)) [
  | inl newline ↦ ("", lines s, rw newline refl)
  | inr letter ↦ let (p, ps, e) = lines-filled s in (String.◌∷◌ c p, ps, rw (letter, e) refl)
]

join_lines-cons_head :
    (c : Char) (ps : List String) → join_lines (cons_head c ps) ≡ String.◌∷◌ c (join_lines ps)
unfolding join_lines cons_head
join_lines-cons_head c [] = refl
join_lines-cons_head c (p ∷ []) = refl
join_lines-cons_head c (p ∷ q ∷ ps) = cons-append c p _

join_lines-empty :
    (ps : List String) (p : String) → join_lines ("" ∷ p ∷ ps) ≡ "\n" ++ join_lines (p ∷ ps)
unfolding join_lines
join_lines-empty ps p = nil-append _

newline-append : (c : Char) (s : String) → is_newline c ≡ true → "\n" ++ s ≡ String.◌∷◌ c s
newline-append c s h =
    cons-append "\n" "" s
    ∙ ap (String.◌∷◌ "\n") (nil-append s)
    ∙ ap (λ d. String.◌∷◌ d s) (Char-path "\n" c (ground arith))

-- Joining what was split gives the text again.
pub join_lines-lines : (s : String) → join_lines (lines s) ≡ s
unfolding lines join_lines
join_lines-lines String.[] = refl
join_lines-lines (String.◌∷◌ c s) = elim (Bool-cases (is_newline c)) [
  | inl newline ↦
      let (p, ps, e) = lines-filled s in
      rw newline (
        rw e (
          join_lines-empty ps p
          ∙ newline-append c _ newline
          ∙ ap (String.◌∷◌ c) (ap join_lines (sym e) ∙ join_lines-lines s)))
  | inr letter ↦
      rw letter (join_lines-cons_head c (lines s) ∙ ap (String.◌∷◌ c) (join_lines-lines s))
]

-- A piece without a newline, in front of a newline.
lines-append : (p t : String) → has_newline p ≡ false → lines (p ++ ("\n" ++ t)) ≡ p ∷ lines t
unfolding lines cons_head
lines-append String.[] t h = rw (nil-append ("\n" ++ t), cons-append "\n" "" t, nil-append t) refl
lines-append (String.◌∷◌ c p) t h = elim (Bool-cases (is_newline c)) [
  | inl newline ↦ cc
  | inr letter ↦
      rw (cons-append c p ("\n" ++ t)) (rw letter (rw (lines-append p t (rw letter at h)) refl))
]

lines-single : (p : String) → has_newline p ≡ false → lines p ≡ p ∷ []
unfolding lines cons_head
lines-single String.[] h = refl
lines-single (String.◌∷◌ c p) h = elim (Bool-cases (is_newline c)) [
  | inl newline ↦ cc
  | inr letter ↦ rw letter (rw (lines-single p (rw letter at h)) refl)
]

abbrev pub Unbroken : String → Type 0
Unbroken p = has_newline p ≡ false

-- Splitting what was joined gives the pieces again, if there are any and they hold no newline.
pub lines-join_lines :
    (p : String) (ps : List String) → All Unbroken (p ∷ ps) → lines (join_lines (p ∷ ps)) ≡ p ∷ ps
unfolding join_lines
lines-join_lines p [] h = lines-single p h.0
lines-join_lines p (q ∷ ps) h = lines-append p _ h.0 ∙ ap (λ xs. p ∷ xs) (lines-join_lines q ps h.1)

Unbroken-cons_head :
    (c : Char) (ps : List String)
    → is_newline c ≡ false
    → All Unbroken ps
    → All Unbroken (cons_head c ps)
unfolding cons_head
Unbroken-cons_head c [] k h = (rw k refl, tt)
Unbroken-cons_head c (p ∷ ps) k h = (rw k h.0, h.1)

pub lines-Unbroken : (s : String) → All Unbroken (lines s)
unfolding lines
lines-Unbroken String.[] = (refl, tt)
lines-Unbroken (String.◌∷◌ c s) = elim (Bool-cases (is_newline c)) [
  | inl newline ↦ rw newline (refl, lines-Unbroken s)
  | inr letter ↦ rw letter (Unbroken-cons_head c (lines s) letter (lines-Unbroken s))
]
