-- ===== src/Resources/Ensure/Pairing/Archives.antt =====
-- The update of the archives.
use vm_file_restore_operator.Base.{◌≡◌, ◌∙◌, refl, String, Option, some, if◌then◌else◌}
use vm_file_restore_operator.Errors.{Result, ok, err, is_conflict}
use vm_file_restore_operator.Types.{Bytes, Secret}
use vm_file_restore_operator.Monad.{pure, ◌>>=◌, on_result}
use vm_file_restore_operator.Monad.Rules.{Ends, Ends-given, Ends-if}
use vm_file_restore_operator.Resources.{ResourceApi, ConfigMap}
use vm_file_restore_operator.Resources.Server.{IsResourceServer}
use vm_file_restore_operator.Resources.Ensure.{
  resource_key, update_again, update_archives, with_archives, refuse,
}
use vm_file_restore_operator.Resources.Ensure.Pairing.{Paired, Current, with_archives-Paired}
use vm_file_restore_operator.Resources.Ensure.Pairing.Writes.{
  Consistent, Held, Outcome, Written, refuse-Outcome, done-Outcome, Paired-of, Written-Outcome,
  update-Written,
}

module _ (api : ResourceApi) (namespace : String) (secret_in : api.World → Option Secret)
    (config_map_in : api.World → Option ConfigMap)
    (server : IsResourceServer api (resource_key namespace) secret_in config_map_in) where
  open api use {World}

  abbrev pub Out : Result (Unit {0}) → World → Type 0
  Out = Outcome api namespace secret_in config_map_in server

  abbrev pub In : Secret → World → Type 0
  In = Held api namespace secret_in config_map_in server

  abbrev pub Agree : World → Type 0
  Agree = Consistent api namespace secret_in config_map_in server

  -- The secret and the config map `cm` are there.
  pub record Beside (s : Secret) (cm : ConfigMap) (w : World) : Type 0 where
    pub within : In s w
    pub stored : config_map_in w ≡ some cm
    pub at_key : cm.key ≡ resource_key namespace

  pub Beside-Paired : (s : Secret) (cm : ConfigMap) (w : World) → Beside s cm w → Paired api s cm
  Beside-Paired s cm w h =
      Paired-of api namespace secret_in config_map_in server s cm w h.within h.stored

  -- An update with the archives.
  module _ (l r : Bytes) (current : (cm : ConfigMap) → Current api (with_archives l r cm)) where
    updated-Written :
        (s : Secret) (cm : ConfigMap)
        → Ends
            (Beside s cm)
            (Written api namespace secret_in config_map_in server s)
            (api.update_config_map (with_archives l r cm))
    unfolding with_archives
    updated-Written s cm = record {
      at = λ w h.
          (update-Written api namespace secret_in config_map_in server s (with_archives l r cm)
              (with_archives-Paired api l r s cm (Beside-Paired s cm w h)) (current cm) h.at_key).at
            w h.within;
    }

    -- What a read of the config map shows.
    Read : Secret → Result ConfigMap → World → Type 0
    Read s (ok cm) w = Beside s cm w
    Read s (err _) w = In s w

    read :
        (s : Secret) (w : World) (answer : Result ConfigMap)
        → (api.get_config_map (resource_key namespace) w).0 ≡ answer
        → In s w
        → Read s answer (api.get_config_map (resource_key namespace) w).1
    unfolding Read
    read s w answer e h =
        let k = resource_key namespace in
        let still : In s (api.get_config_map k w).1 = record {
          held = server.get_config_map-secret k w ∙ h.held;
          consistent =
              rw (server.get_config_map-secret k w, server.get_config_map-config_map w)
                h.consistent;
        } in
        elim answer as (λ a. (api.get_config_map k w).0 ≡ a → Read s a (api.get_config_map k w).1) [
          | err x ↦ λ _. still
          | ok cm ↦ λ seen. record {
            within = still;
            stored = server.get_config_map-config_map w ∙ (server.get_config_map_ok w cm seen).0;
            at_key = (server.get_config_map_ok w cm seen).1;
          }
        ]
          e

    refetched-Outcome :
        (s : Secret) (answer : Result ConfigMap)
        → Ends (Read s answer) Out (
            on_result answer (refuse api "failed to re-fetch ConfigMap after conflict") (λ cm. do
              updated ← api.update_config_map (with_archives l r cm)
              on_result updated
                  (refuse api "failed to update ConfigMap with helper tars (after conflict retry)")
                  (λ _. pure (ok tt))))
    unfolding on_result Read
    refetched-Outcome s (err e) =
        refuse-Outcome api namespace secret_in config_map_in server _ e (λ w h. h.consistent)
    refetched-Outcome s (ok cm) =
        Ends-given _ _ (updated-Written s cm)
          (Written-Outcome api namespace secret_in config_map_in server s _)

    update_again-Outcome :
        (s : Secret) → Ends (In s) Out (update_again api l r (resource_key namespace))
    unfolding update_again
    update_again-Outcome s =
        let call : Ends (In s) (Read s) (api.get_config_map (resource_key namespace)) = record {
          at = λ w h. read s w _ refl h;
        } in
        Ends-given _ _ call (refetched-Outcome s)

    after_update-Outcome :
        (s : Secret) (cm : ConfigMap)
        → cm.key ≡ resource_key namespace
        → (answer : Result (Unit {0}))
        → Ends (Written api namespace secret_in config_map_in server s answer) Out (
            on_result answer
              (λ e.
                if is_conflict e
                then update_again api l r cm.key
                else refuse api "failed to update ConfigMap with helper tars" e)
              (λ _. pure (ok tt)))
    unfolding on_result
    after_update-Outcome s cm e (ok _) = done-Outcome api namespace secret_in config_map_in server
    after_update-Outcome s cm e (err x) = rw e (
        Ends-if (is_conflict x) _ (refuse api "failed to update ConfigMap with helper tars" x)
          (λ _. update_again-Outcome s)
          (λ _.
            refuse-Outcome api namespace secret_in config_map_in server _ x (λ w h. h.consistent)))

    pub update_archives-Outcome :
        (s : Secret) (cm : ConfigMap)
        → cm.key ≡ resource_key namespace
        → Ends (Beside s cm) Out (update_archives api l r cm)
    unfolding update_archives
    update_archives-Outcome s cm e =
        Ends-given _ _ (updated-Written s cm) (after_update-Outcome s cm e)
