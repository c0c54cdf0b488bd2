-- ===== src/Manager/Startup.antt =====
-- The attempts of `main` to ensure the operator's resources.
pub mod Attempts
use vm_file_restore_operator.Base.{ℕ, zero, suc, ◌+◌, String, Option, none, some}
use vm_file_restore_operator.Errors.{Error}
use vm_file_restore_operator.Monad.{Action, pure, ◌>>=◌, ◌>>◌, on_result}
use vm_file_restore_operator.Resources.{ResourceApi}
use vm_file_restore_operator.Resources.Ensure.{ensure_operator_resources}

module _ (api : ResourceApi) (namespace : String) where
  open api use {World}

  -- The attempts that are left, from the one with index `i` on, and `ensureErr`. A failed one is
  -- followed by a sleep of `i + 1` seconds, the last one too.
  unfoldable pub ensure_from : ℕ → ℕ → Option Error → Action World (Option Error)
  ensure_from zero i ensure_err = pure ensure_err
  ensure_from (suc left) i ensure_err = do
    done ← ensure_operator_resources api namespace
    on_result done (λ e. do api.sleep (i + 1); ensure_from left (i + 1) (some e)) (λ _. pure none)

  -- The loop; no error lets the start-up go on.
  unfoldable pub ensure_with_retries : Action World (Option Error)
  unfolding ensure_from
  ensure_with_retries = ensure_from 5 0 none
