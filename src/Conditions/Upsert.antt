-- ===== src/Conditions/Upsert.antt =====
-- What a lookup sees after `set_condition`.
use vm_file_restore_operator.Base.{
  ◌≡◌, ◌≤◌, refl, sym, inl, inr, ℕ, String, true, false, Option, some, List, [], ◌∷◌, ◌=?◌, find?,
  count, Bool-cases, arith, eq_iff, eq_refl,
}
use vm_file_restore_operator.Types.{Condition}
use vm_file_restore_operator.Conditions.{set_condition}

-- `meta.FindStatusCondition`
abbrev pub condition_of : String → List Condition → Option Condition
condition_of t cs = find? (λ c. c.type =? t) cs

abbrev pub count_of : String → List Condition → ℕ
count_of t cs = count (λ c. c.type =? t) cs

other_type : (a b t : String) → a =? b ≡ true → b =? t ≡ false → a =? t ≡ false
other_type a b t e h = rw ((eq_iff a b).0 e) h

-- The new condition is found under its type, and under every other type `t` is found what was
-- found before.
pub condition_of-set_condition :
    (cs : List Condition) (n : Condition) (t : String)
    → n.type =? t ≡ false
    → (condition_of n.type (set_condition cs n) ≡ some n)
      × (condition_of t (set_condition cs n) ≡ condition_of t cs)
unfolding set_condition
condition_of-set_condition [] n t h = (rw (eq_refl n.type) refl, rw h refl)
condition_of-set_condition (c ∷ cs) n t h =
    let (found, kept) = condition_of-set_condition cs n t h in
    elim (Bool-cases (c.type =? n.type)) [
      | inl same ↦
          rw same (rw (eq_refl n.type) refl, rw (h, other_type c.type n.type t same h) refl)
      | inr differs ↦ rw differs (rw differs found, rw kept refl)
    ]

count_of-other :
    (cs : List Condition) (n : Condition) (t : String)
    → n.type =? t ≡ false
    → count_of t (set_condition cs n) ≡ count_of t cs
unfolding set_condition
count_of-other [] n t h = rw h refl
count_of-other (c ∷ cs) n t h = elim (Bool-cases (c.type =? n.type)) [
  | inl same ↦ rw same (rw (h, other_type c.type n.type t same h) refl)
  | inr differs ↦ rw differs (rw (count_of-other cs n t h) refl)
]

count_of-same :
    (cs : List Condition) (n : Condition)
    → count_of n.type cs ≤ 1
    → count_of n.type (set_condition cs n) ≡ 1
unfolding set_condition
count_of-same [] n h = rw (eq_refl n.type) refl
count_of-same (c ∷ cs) n h = elim (Bool-cases (c.type =? n.type)) [
  | inl same ↦ rw same (rw (eq_refl n.type) (ground arith))
  | inr differs ↦ rw differs (rw differs (count_of-same cs n (rw differs at h)))
]

-- A list with at most one condition of each type stays so.
pub set_condition-keyed :
    (cs : List Condition) (n : Condition)
    → ((t : String) → count_of t cs ≤ 1)
    → (t : String) → count_of t (set_condition cs n) ≤ 1
set_condition-keyed cs n h t = elim (Bool-cases (n.type =? t)) [
  | inl same ↦ rw (sym ((eq_iff n.type t).0 same)) (omega (arith, count_of-same cs n (h n.type)))
  | inr differs ↦ rw (count_of-other cs n t differs) (h t)
]
