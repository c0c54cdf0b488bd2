-- ===== src/Monad.antt =====
-- Actions that read and change a state, and rules for what they keep and where they end.
pub mod Rules
use vm_file_restore_operator.Base.{Option, none, some}
use vm_file_restore_operator.Errors.{Error, Result, ok, err}

abbrev pub Action : Type 0 → Type 0 → Type 0
Action S A = S → A × S

module _ {S A : Type 0} where
  unfoldable pub pure : A → Action S A
  pure a s = (a, s)

module _ {S A B : Type 0} where
  -- `a, err := m; if err != nil { return failed(err) }`
  unfoldable pub on_result : Result A → (Error → Action S B) → (A → Action S B) → Action S B
  on_result (ok a) failed done = done a
  on_result (err e) failed done = failed e

  -- `if p == nil { … } else { … }`
  unfoldable pub on_option : Option A → Action S B → (A → Action S B) → Action S B
  on_option none absent present = absent
  on_option (some a) absent present = present a

  infixl 5 ◌>>=◌ ◌>>◌
  unfoldable pub ◌>>=◌ : Action S A → (A → Action S B) → Action S B
  unfolding on_result on_option pure
  ◌>>=◌ m f s = let (a, s') = m s in f a s'

  unfoldable pub ◌>>◌ : Action S A → Action S B → Action S B
  unfolding ◌>>=◌
  m >> n = m >>= λ _. n
