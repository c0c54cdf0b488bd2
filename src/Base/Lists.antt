-- ===== src/Base/Lists.antt =====
-- Lists measured by native numbers, under the library's names.
use Prim.Native.Nat.{ℕ, zero, suc, ◌+◌, ◌-◌}
use mathlib.Core.Path.{◌≡◌, refl, sym}
use mathlib.Core.Logic.{inl, inr}
use mathlib.Core.Bool.{Bool, true, false, not}
use mathlib.Core.List.{List, [], ◌∷◌, ◌++◌}
use mathlib.Core.Option.{Option, none, some}
use native.Mathlib.Omega.{arith}
use vm_file_restore_operator.Base.Tests.{Bool-cases, if◌then◌else◌}

module _ {ℓ} {A : Type ℓ} where
  abbrev pub length : List A → ℕ
  length [] = 0
  length (x ∷ xs) = suc (length xs)

  abbrev pub drop : ℕ → List A → List A
  drop zero xs = xs
  drop (suc n) [] = []
  drop (suc n) (x ∷ xs) = drop n xs

  abbrev pub take : ℕ → List A → List A
  take zero xs = []
  take (suc n) [] = []
  take (suc n) (x ∷ xs) = x ∷ take n xs

  pub length-append : (xs ys : List A) → length (xs ++ ys) ≡ length xs + length ys
  length-append [] ys = omega arith
  length-append (x ∷ xs) ys = omega (arith, length-append xs ys)

  pub length-drop : (n : ℕ) (xs : List A) → length (drop n xs) ≡ length xs - n
  length-drop zero xs = omega arith
  length-drop (suc n) [] = omega arith
  length-drop (suc n) (x ∷ xs) = omega (arith, length-drop n xs)

  pub take-append-drop : (n : ℕ) (xs : List A) → take n xs ++ drop n xs ≡ xs
  take-append-drop zero xs = refl
  take-append-drop (suc n) [] = refl
  take-append-drop (suc n) (x ∷ xs) = cc (take-append-drop n xs)

  -- The first element that passes the test: a `for` loop with a `return` or `break` in an `if`.
  abbrev pub find? : (A → Bool) → List A → Option A
  find? p [] = none
  find? p (x ∷ xs) = if p x then some x else find? p xs

  -- The elements that pass the test: a `for` loop that appends under an `if`.
  abbrev pub keep : (A → Bool) → List A → List A
  keep p [] = []
  keep p (x ∷ xs) = if p x then x ∷ keep p xs else keep p xs

  abbrev pub exists : (A → Bool) → List A → Bool
  exists p [] = false
  exists p (x ∷ xs) = if p x then true else exists p xs

  -- How many elements pass the test.
  abbrev pub count : (A → Bool) → List A → ℕ
  count p [] = 0
  count p (x ∷ xs) = if p x then suc (count p xs) else count p xs

abbrev pub All {ℓ κ} : {A : Type ℓ} → (A → Type κ) → List A → Type κ
All P [] = Unit
All P (x ∷ xs) = P x × All P xs

-- What is found passes the test, and a test that it passes has an element to pass it.
module _ {A : Type 0} where
  pub find?-passes : (p : A → Bool) (xs : List A) (x : A) → find? p xs ≡ some x → p x ≡ true
  find?-passes p [] x h = cc
  find?-passes p (y ∷ ys) x h = elim (Bool-cases (p y)) [
    | inl hit ↦ let e : some y ≡ some x = rw hit at h in let k : y ≡ x = cc in rw (sym k) hit
    | inr miss ↦ find?-passes p ys x (rw miss at h)
  ]

  pub find?-exists :
      (p q : A → Bool) (xs : List A) (x : A) → find? p xs ≡ some x → q x ≡ true → exists q xs ≡ true
  find?-exists p q [] x h k = cc
  find?-exists p q (y ∷ ys) x h k = elim (Bool-cases (p y)) [
    | inl hit ↦
        let e : some y ≡ some x = rw hit at h in
        let same : x ≡ y = cc in let l : q y ≡ true = rw (sym same) k in rw l refl
    | inr miss ↦ elim (Bool-cases (q y)) [
      | inl early ↦ rw early refl
      | inr later ↦ rw later (find?-exists p q ys x (rw miss at h) k)
    ]
  ]

  pub find?-none : (p : A → Bool) (xs : List A) → find? p xs ≡ none → exists p xs ≡ false
  find?-none p [] h = refl
  find?-none p (y ∷ ys) h = elim (Bool-cases (p y)) [
    | inl hit ↦ let e : some y ≡ none = rw hit at h in cc
    | inr miss ↦ rw miss (find?-none p ys (rw miss at h))
  ]

-- Filtering out what matches.
module _ {A : Type 0} (p : A → Bool) where
  pub keep-snoc :
      (xs : List A) (x : A)
      → exists p xs ≡ false
      → p x ≡ true
      → keep (λ y. not (p y)) (xs ++ (x ∷ [])) ≡ xs
  keep-snoc [] x h k = rw k refl
  keep-snoc (y ∷ ys) x h k = elim (Bool-cases (p y)) [
    | inl hit ↦ cc
    | inr miss ↦ rw miss (cc (keep-snoc ys x (rw miss at h) k))
  ]

  pub exists-keep-not : (xs : List A) → exists p (keep (λ y. not (p y)) xs) ≡ false
  exists-keep-not [] = refl
  exists-keep-not (y ∷ ys) = elim (Bool-cases (p y)) [
    | inl hit ↦ rw hit (exists-keep-not ys)
    | inr miss ↦ rw miss (rw miss (exists-keep-not ys))
  ]

  pub find?-keep_other :
      (q : A → Bool) (xs : List A)
      → ((x : A) → q x ≡ true → p x ≡ false)
      → find? q (keep (λ y. not (p y)) xs) ≡ find? q xs
  find?-keep_other q [] h = refl
  find?-keep_other q (y ∷ ys) h = elim (Bool-cases (q y)) [
    | inl wanted ↦ rw (h y wanted) (rw wanted refl)
    | inr passed ↦ elim (Bool-cases (p y)) [
      | inl hit ↦ rw hit (rw passed (find?-keep_other q ys h))
      | inr miss ↦ rw miss (rw passed (find?-keep_other q ys h))
    ]
  ]

  pub find?-append :
      (xs : List A) (x : A) → find? p xs ≡ none → p x ≡ false → find? p (xs ++ (x ∷ [])) ≡ none
  find?-append [] x h k = rw k refl
  find?-append (y ∷ ys) x h k = elim (Bool-cases (p y)) [
    | inl hit ↦ let e : some y ≡ none = rw hit at h in cc
    | inr miss ↦ rw miss (find?-append ys x (rw miss at h) k)
  ]

  pub exists-append : (xs : List A) (x : A) → p x ≡ true → exists p (xs ++ (x ∷ [])) ≡ true
  exists-append [] x k = rw k refl
  exists-append (y ∷ ys) x k = elim (Bool-cases (p y)) [
    | inl hit ↦ rw hit refl
    | inr miss ↦ rw miss (exists-append ys x k)
  ]
