-- ===== src/Manager/Startup/Attempts.antt =====
-- What the attempts come to.
use vm_file_restore_operator.Base.{
  ℕ, zero, suc, ◌+◌, ◌≡◌, ◌<◌, refl, String, Option, none, some, arith,
}
use vm_file_restore_operator.Errors.{Error, Result, ok, err}
use vm_file_restore_operator.Types.{Secret}
use vm_file_restore_operator.Monad.{Action, pure, ◌>>=◌, ◌>>◌, on_result}
use vm_file_restore_operator.Monad.Rules.{Ends, Keeps, Ends-given, Ends-then}
use vm_file_restore_operator.Resources.{ResourceApi, ConfigMap}
use vm_file_restore_operator.Resources.Server.{IsResourceServer, IsKeyCodec}
use vm_file_restore_operator.Resources.Ensure.{resource_key, ensure_operator_resources}
use vm_file_restore_operator.Resources.Ensure.Pairing.Writes.{Consistent, Provisioned, Outcome}
use vm_file_restore_operator.Resources.Ensure.Pairing.Provisioned.{
  ensure_operator_resources-Outcome,
}
use vm_file_restore_operator.Manager.Startup.{ensure_from, ensure_with_retries}

module _ (api : ResourceApi) (namespace : String) where
  open api use {World}

  -- The world before the attempt `n` later than the one with index `i`, where all between fail.
  abbrev pub before_attempt : ℕ → ℕ → World → World
  before_attempt zero i w = w
  before_attempt (suc n) i w =
      before_attempt n (i + 1) (api.sleep (i + 1) (ensure_operator_resources api namespace w).1).1

  after_answer :
      (left i : ℕ) (w : World) (answer : Result (Unit {0}))
      → ((e : Error)
          → (ensure_from api namespace left (i + 1) (some e) (api.sleep (i + 1) w).1).0 ≡ none)
      → (on_result answer
          (λ e. api.sleep (i + 1) >> ensure_from api namespace left (i + 1) (some e))
          (λ _. pure none)
          w).0
        ≡ none
  unfolding on_result pure ◌>>◌ ◌>>=◌
  after_answer left i w (ok _) rest = refl
  after_answer left i w (err e) rest = rest e

  ensure_from-ok :
      (n left i : ℕ) (ensure_err : Option Error) (w : World)
      → n < left
      → (ensure_operator_resources api namespace (before_attempt n i w)).0 ≡ ok tt
      → (ensure_from api namespace left i ensure_err w).0 ≡ none
  unfolding ensure_from ◌>>=◌ pure
  ensure_from-ok n zero i e w h success = absurd (omega arith)
  ensure_from-ok zero (suc left) i e w h success = rw (success, on_result) refl
  ensure_from-ok (suc n) (suc left) i e w h success =
      after_answer left i _ (ensure_operator_resources api namespace w).0
        (λ x. ensure_from-ok n left (i + 1) (some x) _ (omega arith) success)

  -- The start-up goes on if one of the five attempts succeeds, each made after the sleeps of those
  -- before it.
  pub ensure_with_retries-ok :
      (n : ℕ) (w : World)
      → n < 5
      → (ensure_operator_resources api namespace (before_attempt n 0 w)).0 ≡ ok tt
      → (ensure_with_retries api namespace w).0 ≡ none
  unfolding ensure_with_retries
  ensure_with_retries-ok n w h success = ensure_from-ok n 5 0 none w h success

module _ (api : ResourceApi) (namespace : String) (secret_in : api.World → Option Secret)
    (config_map_in : api.World → Option ConfigMap)
    (server : IsResourceServer api (resource_key namespace) secret_in config_map_in)
    (codec : IsKeyCodec api) where
  open api use {World}

  abbrev Agree : World → Type 0
  Agree = Consistent api namespace secret_in config_map_in server

  -- No error only where all is provided.
  abbrev pub StartOutcome : Option Error → World → Type 0
  StartOutcome none w = Provisioned api namespace secret_in config_map_in server w
  StartOutcome (some _) w = Consistent api namespace secret_in config_map_in server w

  sleep-Keeps : (n : ℕ) → Keeps Agree (api.sleep n)
  sleep-Keeps n = record { at = λ w h. rw (server.sleep-secret n w, server.sleep-config_map n w) h }

  attempt :
      Ends Agree
        (Outcome api namespace secret_in config_map_in server)
        (ensure_operator_resources api namespace)
  attempt = record {
    at = ensure_operator_resources-Outcome api namespace secret_in config_map_in server codec;
  }

  after_attempt :
      (n : ℕ) (more : Error → Action World (Option Error))
      → ((e : Error) → Ends Agree StartOutcome (more e))
      → (answer : Result (Unit {0}))
      → Ends
          (Outcome api namespace secret_in config_map_in server answer)
          StartOutcome
          (on_result answer (λ e. api.sleep n >> more e) (λ _. pure none))
  unfolding on_result pure
  after_attempt n more k (ok _) = record { at = λ w h. h }
  after_attempt n more k (err e) = Ends-then _ _ (sleep-Keeps n) (k e)

  ensure_from-Outcome :
      (left i : ℕ) (e : Error) → Ends Agree StartOutcome (ensure_from api namespace left i (some e))
  unfolding ensure_from pure
  ensure_from-Outcome zero i e = record { at = λ w h. h }
  ensure_from-Outcome (suc left) i e =
      Ends-given _ _ attempt (after_attempt (i + 1) _ (λ x. ensure_from-Outcome left (i + 1) x))

  -- With a server that keeps IsResourceServer and keys that keep IsKeyCodec, from a state in which
  -- the secret and the config map, where both are there, agree on the key: if the start-up goes on,
  -- both are there, agree, and the config map has the archives of this version; if it does not, they
  -- still agree where both are there. This holds whatever the calls of the five attempts answer.
  pub ensure_with_retries-StartOutcome :
      (w : World)
      → Agree w
      → StartOutcome (ensure_with_retries api namespace w).0 (ensure_with_retries api namespace w).1
  unfolding ensure_with_retries ensure_from
  ensure_with_retries-StartOutcome =
      (Ends-given _ _ attempt (after_attempt 1 _ (λ e. ensure_from-Outcome 4 1 e))).at
