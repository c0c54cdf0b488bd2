-- ===== src/Base/Dict.antt =====
-- Go's maps with texts as keys, as association lists without an order.
use Prim.Native.String.{String}
use mathlib.Core.Path.{◌≡◌, refl}
use mathlib.Core.Logic.{inl, inr}
use mathlib.Core.Bool.{false}
use mathlib.Core.List.{List, [], ◌∷◌}
use mathlib.Core.Option.{Option, none, some}
use native.Mathlib.Omega.{arith}
use text.Mathlib.TextEquality.{eq_iff}
use vm_file_restore_operator.Base.Tests.{◌=?◌, if◌then◌else◌, Bool-cases}

module _ {ℓ} {Value : Type ℓ} where
  -- `v, ok := m[k]`
  unfoldable pub lookup : String → List (String × Value) → Option Value
  lookup wanted [] = none
  lookup wanted (entry ∷ rest) = if entry.0 =? wanted then some entry.1 else lookup wanted rest

  -- `delete(m, k)`
  unfoldable pub without : String → List (String × Value) → List (String × Value)
  without gone [] = []
  without gone (entry ∷ rest) =
      let left = without gone rest in if entry.0 =? gone then left else entry ∷ left

  -- `m[k] = v`
  unfoldable pub insert : String → Value → List (String × Value) → List (String × Value)
  unfolding without
  insert key value m = (key, value) ∷ without key m

  lookup-without :
      (gone wanted : String) (m : List (String × Value))
      → (gone =? wanted) ≡ false
      → lookup wanted (without gone m) ≡ lookup wanted m
  unfolding lookup without
  lookup-without gone wanted [] other = refl
  lookup-without gone wanted (entry ∷ rest) other = ground (
    arith,
    other,
    eq_iff gone wanted,
    eq_iff entry.0 gone,
    eq_iff entry.0 wanted,
    lookup-without gone wanted rest other,
  )

  -- A write is read back under its key, and no other key is touched.
  pub lookup-insert :
      (key wanted : String) (value : Value) (m : List (String × Value))
      → lookup wanted (insert key value m) ≡ (if key =? wanted then some value else lookup wanted m)
  unfolding lookup insert
  lookup-insert key wanted value m = elim (Bool-cases (key =? wanted)) [
    | inl hit ↦ rw hit refl
    | inr miss ↦ rw (miss, lookup-without key wanted m miss) refl
  ]
