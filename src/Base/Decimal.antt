-- ===== src/Base/Decimal.antt =====
-- Decimal notation: what `%d` prints and scans, and integers as its result.
use Prim.Native.Nat.{ℕ, zero, suc, ◌+◌, ◌-◌, ◌*◌, ◌/◌, ◌%◌, ◌<◌}
use Prim.Native.Char.{Char, code}
use Prim.Native.String.{String, ◌++◌}
use mathlib.Core.Path.{◌≡◌, refl, ap, ◌∙◌}
use mathlib.Core.Bool.{Bool, true}
use mathlib.Core.Logic.{inl, inr}
use native.Mathlib.Omega.{arith}
use text.Mathlib.TextLemmas.{nil-append, cons-append}
use vm_file_restore_operator.Base.Tests.{ltb, ltb→lt, Bool-cases, if◌then◌else◌}
use vm_file_restore_operator.Base.Texts.{within, char_or}

-- `negsuc n` is -(n + 1).
pub data ℤ : Type 0 where
  pos : ℕ → ℤ
  negsuc : ℕ → ℤ

abbrev pub neg : ℕ → ℤ
neg zero = pos 0
neg (suc n) = negsuc n

abbrev pub digit : ℕ → Char
digit d = char_or d "0123456789" "0"

abbrev pub is_digit : ℕ → Bool
is_digit c = within b'0' b'9' c

-- The digits of `n` in front of `tail`, from the last to the first.
print_before : ℕ → ℕ → String → String
print_before zero n tail = tail
print_before (suc fuel) n tail =
    let rest = print_before fuel (n / 10) (String.◌∷◌ (digit (n % 10)) tail) in
    if ltb n 10 then String.◌∷◌ (digit n) tail else rest

-- `%d` of a number that is not negative.
unfoldable pub print : ℕ → String
unfolding print_before
print n = print_before (suc n) n ""

-- `%d` of any integer.
abbrev pub print_int : ℤ → String
print_int (pos n) = print n
print_int (negsuc n) = "-" ++ print (suc n)

-- The value of the digits that `s` begins with, after `acc`, and the rest.
unfoldable pub read : ℕ → String → ℕ × String
read acc String.[] = (acc, "")
read acc (String.◌∷◌ c s) =
    let more = read (acc * 10 + (code c - b'0')) s in
    if is_digit (code c) then more else (acc, String.◌∷◌ c s)

digit_range : (d : ℕ) → d < 10 → (is_digit (code (digit d)) ≡ true) × (code (digit d) ≡ b'0' + d)
digit_range zero h = (refl, refl)
digit_range (suc zero) h = (refl, refl)
digit_range (suc (suc zero)) h = (refl, refl)
digit_range (suc (suc (suc zero))) h = (refl, refl)
digit_range (suc (suc (suc (suc zero)))) h = (refl, refl)
digit_range (suc (suc (suc (suc (suc zero))))) h = (refl, refl)
digit_range (suc (suc (suc (suc (suc (suc zero)))))) h = (refl, refl)
digit_range (suc (suc (suc (suc (suc (suc (suc zero))))))) h = (refl, refl)
digit_range (suc (suc (suc (suc (suc (suc (suc (suc zero)))))))) h = (refl, refl)
digit_range (suc (suc (suc (suc (suc (suc (suc (suc (suc zero))))))))) h = (refl, refl)
digit_range (suc (suc (suc (suc (suc (suc (suc (suc (suc (suc d)))))))))) h = absurd (omega arith)

read-digit :
    (acc d : ℕ) (s : String) → d < 10 → read acc (String.◌∷◌ (digit d) s) ≡ read (acc * 10 + d) s
unfolding read
read-digit acc d s h =
    let (yes_digit, value) = digit_range d h in
    let e : code (digit d) - b'0' ≡ d = omega arith in rw (yes_digit, e)

-- With fuel above `n`, reading what was printed gives `n` and goes on with the tail.
read-print_before :
    (fuel n : ℕ) (tail : String) → n < fuel → read 0 (print_before fuel n tail) ≡ read n tail
unfolding print_before
read-print_before zero n tail h = elim h [ ]
read-print_before (suc fuel) n tail h = elim (Bool-cases (ltb n 10)) [
  | inl small ↦
      rw small (read-digit 0 n tail (ltb→lt _ _ small) ∙ ap (λ k. read k tail) (omega arith))
  | inr big ↦ rw big (
      read-print_before fuel (n / 10) (String.◌∷◌ (digit (n % 10)) tail) (ground arith)
      ∙ read-digit (n / 10) (n % 10) tail (omega arith)
      ∙ ap (λ k. read k tail) (omega arith))
]

-- A text may be put behind the digits, or be printed with them.
print_before-append :
    (fuel n : ℕ) (tail t : String) → print_before fuel n tail ++ t ≡ print_before fuel n (tail ++ t)
unfolding print_before
print_before-append zero n tail t = refl
print_before-append (suc fuel) n tail t = elim (Bool-cases (ltb n 10)) [
  | inl small ↦ rw small (cons-append _ tail t)
  | inr big ↦ rw big (
      print_before-append fuel (n / 10) (String.◌∷◌ (digit (n % 10)) tail) t
      ∙ ap (print_before fuel (n / 10)) (cons-append _ tail t))
]

-- What is printed reads back, also in front of a text that does not begin with a digit.
pub read-print : (n : ℕ) (t : String) → read 0 (print n ++ t) ≡ read n t
unfolding print
read-print n t = rw (print_before-append, nil-append) (read-print_before (suc n) n t (omega arith))

-- The digits begin with a digit.
print_before-starts :
    (fuel n : ℕ) (tail : String)
    → n < fuel
    → (d : ℕ) × (s : String) × (d < 10) × (print_before fuel n tail ≡ String.◌∷◌ (digit d) s)
unfolding print_before
print_before-starts zero n tail h = elim h [ ]
print_before-starts (suc fuel) n tail h = elim (Bool-cases (ltb n 10)) [
  | inl small ↦ (n, tail, ltb→lt _ _ small, rw small refl)
  | inr big ↦
      let (d, s, range, e) =
        print_before-starts fuel (n / 10) (String.◌∷◌ (digit (n % 10)) tail) (ground arith) in
      (d, s, range, rw (big, e) refl)
]

pub print-starts :
    (n : ℕ) → (c : Char) × (s : String) × (is_digit (code c) ≡ true) × (print n ≡ String.◌∷◌ c s)
unfolding print
print-starts n =
    let (d, s, range, e) = print_before-starts (suc n) n "" (omega arith) in
    (digit d, s, (digit_range d range).0, e)
