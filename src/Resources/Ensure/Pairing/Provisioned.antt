-- ===== src/Resources/Ensure/Pairing/Provisioned.antt =====
-- What `EnsureOperatorResources` leaves behind.
use vm_file_restore_operator.Base.{◌≡◌, ◌∙◌, refl, String, Option, none, true, if◌then◌else◌}
use vm_file_restore_operator.Errors.{Error, Result, ok, err, is_not_found}
use vm_file_restore_operator.Types.{Secret}
use vm_file_restore_operator.Monad.{pure, on_result}
use vm_file_restore_operator.Monad.Rules.{Ends, Ends-given, Ends-if}
use vm_file_restore_operator.Resources.{ResourceApi, ConfigMap}
use vm_file_restore_operator.Resources.Server.{IsResourceServer, IsKeyCodec}
use vm_file_restore_operator.Resources.Ensure.{
  resource_key, create_config_map_from_secret, create_keypair_and_config_map, ensure_helper_tars,
  replace_orphan, ensure_both, ensure_operator_resources, has_archives, refuse,
}
use vm_file_restore_operator.Resources.Ensure.Pairing.Writes.{
  Consistent, Held, Outcome, refuse-Outcome, without_secret, with_tars-Outcome,
}
use vm_file_restore_operator.Resources.Ensure.Pairing.Keys.{
  Empty, publish_key_of-Outcome, create_keypair-Outcome,
}
use vm_file_restore_operator.Resources.Ensure.Pairing.Archives.{
  Beside, Beside-Paired, update_archives-Outcome,
}
use vm_file_restore_operator.Resources.Ensure.Pairing.Reads.{
  SeenSecret, SeenConfigMap, Seen, ReadSecret, read_secret, read_both,
}

module _ (api : ResourceApi) (namespace : String) (secret_in : api.World → Option Secret)
    (config_map_in : api.World → Option ConfigMap)
    (server : IsResourceServer api (resource_key namespace) secret_in config_map_in)
    (codec : IsKeyCodec api) where
  open api use {World}

  abbrev Out : Result (Unit {0}) → World → Type 0
  Out = Outcome api namespace secret_in config_map_in server

  abbrev In : Secret → World → Type 0
  In = Held api namespace secret_in config_map_in server

  abbrev Agree : World → Type 0
  Agree = Consistent api namespace secret_in config_map_in server

  abbrev Emptied : World → Type 0
  Emptied = Empty api namespace secret_in config_map_in server codec

  abbrev BothThere : Secret → ConfigMap → World → Type 0
  BothThere = Beside api namespace secret_in config_map_in server

  ensure_helper_tars-Outcome :
      (s : Secret) (cm : ConfigMap)
      → cm.key ≡ resource_key namespace
      → Ends (BothThere s cm) Out (ensure_helper_tars api cm)
  unfolding ensure_helper_tars pure
  ensure_helper_tars-Outcome s cm e =
      with_tars-Outcome api namespace secret_in config_map_in server _ (λ w h. h.within.consistent)
        λ l r found written new.
          Ends-if (has_archives l r cm) _ _
            (λ has. record {
              at = λ w h. record {
                secret = s;
                config_map = cm;
                has_secret = h.within.held;
                has_config_map = h.stored;
                paired = Beside-Paired api namespace secret_in config_map_in server s cm w h;
                current = found cm has;
              };
            })
            (λ _.
              update_archives-Outcome api namespace secret_in config_map_in server l r written s cm
                e)

  abbrev Saw : Result Secret → Result ConfigMap → World → Type 0
  Saw = Seen api namespace secret_in config_map_in server codec

  -- After the removal of an orphan.
  Deleted : Result (Unit {0}) → World → Type 0
  Deleted (ok _) w = Emptied w
  Deleted (err e) w = (is_not_found e ≡ true → Emptied w) × Agree w

  deleted :
      (cm : ConfigMap) (w : World) (answer : Result (Unit {0}))
      → cm.key ≡ resource_key namespace
      → secret_in w ≡ none
      → (api.delete_config_map cm.key w).0 ≡ answer
      → Deleted answer (api.delete_config_map cm.key w).1
  unfolding Deleted
  deleted cm w (ok _) at absent e = rw at (record {
    no_secret = server.delete_config_map-secret _ w ∙ absent;
    no_config_map = server.delete_config_map w (rw at at e);
  })
  deleted cm w (err x) at absent e =
      let gone : secret_in (api.delete_config_map cm.key w).1 ≡ none =
        server.delete_config_map-secret cm.key w ∙ absent in
      (
        λ missing. rw at (record {
          no_secret = server.delete_config_map-secret _ w ∙ absent;
          no_config_map = server.delete_config_map_missing w x (rw at at e) missing;
        }),
        without_secret api namespace secret_in config_map_in server _ gone,
      )

  after_delete-Outcome :
      (answer : Result (Unit {0}))
      → Ends (Deleted answer) Out (
          on_result answer
            (λ e.
              if is_not_found e
              then create_keypair_and_config_map api namespace
              else refuse api "failed to cleanup orphaned ConfigMap" e)
            (λ _. create_keypair_and_config_map api namespace))
  unfolding on_result Deleted
  after_delete-Outcome (ok _) =
      create_keypair-Outcome api namespace secret_in config_map_in server codec
  after_delete-Outcome (err e) =
      Ends-if (is_not_found e) _ _
        (λ missing. record {
          at = λ w h.
              (create_keypair-Outcome api namespace secret_in config_map_in server codec).at w
                (h.0 missing);
        })
        (λ _. refuse-Outcome api namespace secret_in config_map_in server _ e (λ w h. h.1))

  replace_orphan-Outcome :
      (e : Error)
      → is_not_found e ≡ true
      → (cm : Result ConfigMap) → Ends (Saw (err e) cm) Out (replace_orphan api namespace cm)
  unfolding replace_orphan SeenSecret SeenConfigMap
  replace_orphan-Outcome e missing (err x) =
      Ends-if (is_not_found x) _ _
        (λ absent. record {
          at = λ w h.
              (create_keypair-Outcome api namespace secret_in config_map_in server codec).at w
                (record {
                  no_secret = h.of_secret missing;
                  no_config_map = h.of_config_map absent;
                });
        })
        (λ _. refuse-Outcome api namespace secret_in config_map_in server _ x (λ w h. h.agree))
  replace_orphan-Outcome e missing (ok cm) =
      let call : Ends (Saw (err e) (ok cm)) Deleted (api.delete_config_map cm.key) = record {
        at = λ w h. deleted cm w _ (h.of_config_map.1) (h.of_secret missing) refl;
      } in
      Ends-given _ _ call after_delete-Outcome

  ensure_both-Outcome :
      (secret : Result Secret) (cm : Result ConfigMap)
      → Ends (Saw secret cm) Out (ensure_both api namespace secret cm)
  unfolding ensure_both create_config_map_from_secret SeenSecret SeenConfigMap
  ensure_both-Outcome (ok s) (ok cm) = record {
    at = λ w h. (ensure_helper_tars-Outcome s cm h.of_config_map.1).at w (record {
      within = record { held = h.of_secret; consistent = h.agree };
      stored = h.of_config_map.0;
      at_key = h.of_config_map.1;
    });
  }
  ensure_both-Outcome (ok s) (err e) =
      Ends-if (is_not_found e) _ _
        (λ _. record {
          at = λ w h.
              (publish_key_of-Outcome api namespace secret_in config_map_in server codec s _
                  refl).at
                w (record { held = h.of_secret; consistent = h.agree });
        })
        (λ _. refuse-Outcome api namespace secret_in config_map_in server _ e (λ w h. h.agree))
  ensure_both-Outcome (err e) cm =
      Ends-if (is_not_found e) _ _ (λ missing. replace_orphan-Outcome e missing cm)
        (λ _. refuse-Outcome api namespace secret_in config_map_in server _ e (λ w h. h.agree))

  -- With a server that keeps IsResourceServer and keys that keep IsKeyCodec, from a state in which
  -- the secret and the config map, where both are there, agree on the key: after a call without an
  -- error both are there, agree on the key, and the config map has the archives of this version;
  -- after one with an error they still agree where both are there. This holds whatever the calls
  -- answer.
  pub ensure_operator_resources-Outcome :
      (w : World)
      → Agree w
      → Outcome api namespace secret_in config_map_in server
          (ensure_operator_resources api namespace w).0
          (ensure_operator_resources api namespace w).1
  unfolding ensure_operator_resources
  ensure_operator_resources-Outcome =
      let first : Ends Agree (ReadSecret api namespace secret_in config_map_in server codec)
          (api.get_secret (resource_key namespace)) =
        record {
          at = λ w h. read_secret api namespace secret_in config_map_in server codec w _ refl h;
        } in
      (Ends-given _ _ first (λ secret.
        Ends-given _ _ (read_both api namespace secret_in config_map_in server codec secret)
          (ensure_both-Outcome secret))).at
