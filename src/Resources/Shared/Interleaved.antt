-- ===== src/Resources/Shared/Interleaved.antt =====
-- `EnsureOperatorResources` while other operators run it.
use vm_file_restore_operator.Base.{◌≡◌, refl, String, List, true, if◌then◌else◌}
use vm_file_restore_operator.Errors.{Error, Result, ok, err, is_not_found}
use vm_file_restore_operator.Types.{Secret}
use vm_file_restore_operator.Monad.{◌>>=◌, on_result}
use vm_file_restore_operator.Monad.Rules.{Ends, Ends-given, Ends-if, Ends-from}
use vm_file_restore_operator.Resources.{ResourceApi, ConfigMap}
use vm_file_restore_operator.Resources.Server.{IsKeyCodec}
use vm_file_restore_operator.Resources.Ensure.{
  resource_key, create_config_map_from_secret, create_keypair_and_config_map, replace_orphan,
  ensure_both, ensure_operator_resources, refuse,
}
use vm_file_restore_operator.Resources.Ensure.Pairing.{Both}
use vm_file_restore_operator.Resources.Shared.{
  Objects, Allowed, ReadsSecret, ReadsConfigMap, IsSharedServer,
}
use vm_file_restore_operator.Resources.Shared.Steps.{
  Agree, Held, IsStable, Agree-IsStable, Held-IsStable, nothing_done,
}
use vm_file_restore_operator.Resources.Shared.Calls.{
  AllAllowed, Seen, called, publish_key_of-Good, read,
}
use vm_file_restore_operator.Resources.Shared.Writing.{ends-Here, ensure_helper_tars-Good}
use vm_file_restore_operator.Resources.Shared.Keying.{
  At, Fair, Says, Cleared, create_keypair-Good, done-Agree, Cleared-IsStable, gone, delete,
  unless_refused,
}

module _ (api : ResourceApi) (namespace : String) (objects : api.World → Objects)
    (own : api.World → List (Objects × Objects))
    (server : IsSharedServer api (resource_key namespace) objects own)
    (codec : IsKeyCodec api) where
  open api use {World}

  abbrev From : (Objects → Type 0) → World → Type 0
  From = At api namespace objects own server codec

  abbrev End : {A : Type 0} → A → World → Type 0
  End = Fair api namespace objects own server codec

  abbrev ClearedIf : Type 0 → Objects → Type 0
  ClearedIf = Cleared api namespace objects own server codec

  -- What a read of the config map shows where no secret was seen.
  abbrev Found : Result ConfigMap → Objects → Type 0
  Found (ok cm) o = Agree api o × (cm.key ≡ resource_key namespace)
  Found (err e) o = ClearedIf (is_not_found e ≡ true) o

  Found-IsStable : (a : Result ConfigMap) → IsStable api (Found a)
  Found-IsStable (ok cm) o o' a h = (a.agree h.0, h.1)
  Found-IsStable (err e) o o' a h =
      Cleared-IsStable api namespace objects own server codec (is_not_found e ≡ true) o o' a h

  found :
      (a : Result ConfigMap) (o o' : Objects)
      → ReadsConfigMap api (resource_key namespace) objects own a o o'
      → Agree api o
      → Found a o' × Allowed api o o'
  found (ok cm) o o' step h =
      ((rw (step.unchanged) h, step.named cm refl), nothing_done api o o' step.unchanged)
  found (err e) o o' step h = (
    record {
      agree = rw (step.unchanged) h;
      cleared = λ missing.
          rw (step.unchanged) (gone api namespace objects own server codec o h (step.seen missing));
    },
    nothing_done api o o' step.unchanged,
  )

  after_delete :
      (answer : Result (Unit {0}))
      → Ends (From (ClearedIf (Says api namespace objects own server codec answer))) End (
          on_result answer
            (λ e.
              if is_not_found e
              then create_keypair_and_config_map api namespace
              else refuse api "failed to cleanup orphaned ConfigMap" e)
            (λ _. create_keypair_and_config_map api namespace))
  unfolding on_result
  after_delete (ok x) =
      Ends-from _ (λ w h. (h.0.cleared tt, h.1))
        (create_keypair-Good api namespace objects own server codec)
  after_delete (err e) =
      unless_refused api namespace objects own server codec _ _ e (λ missing. missing)

  replace_orphan-Good :
      (c : Result ConfigMap) → Ends (From (Found c)) End (replace_orphan api namespace c)
  unfolding replace_orphan
  replace_orphan-Good (err e) =
      unless_refused api namespace objects own server codec _ _ e (λ missing. missing)
  replace_orphan-Good (ok cm) = record {
    at = λ w h.
        let whole : Ends (From (Agree api)) End (do
          deleted ← api.delete_config_map cm.key
          on_result deleted
              (λ e.
                if is_not_found e
                then create_keypair_and_config_map api namespace
                else refuse api "failed to cleanup orphaned ConfigMap" e)
              (λ _. create_keypair_and_config_map api namespace)) =
          rw h.0.1 (Ends-given _ _ (delete api namespace objects own server codec) after_delete) in
        whole.at w (h.0.0, h.1);
  }

  -- What a read of the secret shows.
  abbrev SeenSecret : Result Secret → Objects → Type 0
  SeenSecret (ok s) o = Held api s o
  SeenSecret (err e) o = Agree api o

  SeenSecret-IsStable : (a : Result Secret) → IsStable api (SeenSecret a)
  SeenSecret-IsStable (ok s) o o' a h = Held-IsStable api s o o' a h
  SeenSecret-IsStable (err e) o o' a h = a.agree h

  seen_secret :
      (a : Result Secret) (o o' : Objects)
      → ReadsSecret api (resource_key namespace) objects own a o o'
      → Agree api o
      → SeenSecret a o' × Allowed api o o'
  seen_secret (ok s) o o' step h = (
    rw (step.unchanged) (record { held = step.seen; agree = h }),
    nothing_done api o o' step.unchanged,
  )
  seen_secret (err e) o o' step h = (rw (step.unchanged) h, nothing_done api o o' step.unchanged)

  with_secret :
      (s : Secret) (c : Result ConfigMap)
      → Ends
          (From (Seen api namespace objects own server codec s c))
          End
          (ensure_both api namespace (ok s) c)
  unfolding ensure_both create_config_map_from_secret Seen
  with_secret s (ok cm) = record {
    at = λ w h.
        (ensure_helper_tars-Good api namespace objects own server codec s cm h.0.1 h.0.2).at w
          (h.0.0, h.1);
  }
  with_secret s (err e) =
      Ends-if (is_not_found e) _ _
        (λ _. publish_key_of-Good api namespace objects own server codec s _ refl)
        (λ _. ends-Here api namespace objects own server codec s _)

  without_secret :
      (e : Error) (c : Result ConfigMap)
      → Ends (From (Found c)) End (ensure_both api namespace (err e) c)
  unfolding ensure_both
  without_secret e c =
      Ends-if (is_not_found e) _ _ (λ _. replace_orphan-Good c)
        (λ _. Ends-from _ (found_agree c) (done-Agree api namespace objects own server codec _))
    where
      found_agree : (c : Result ConfigMap) (w : World) → From (Found c) w → From (Agree api) w
      found_agree (ok cm) w h = (h.0.0, h.1)
      found_agree (err x) w h = (h.0.agree, h.1)

  after_secret :
      (a : Result Secret)
      → Ends
          (From (SeenSecret a))
          End
          (api.get_config_map (resource_key namespace) >>= λ c. ensure_both api namespace a c)
  after_secret (ok s) =
      Ends-given _ _ (read api namespace objects own server codec s) (with_secret s)
  after_secret (err e) =
      Ends-given _ _
        (called api namespace objects own server codec _ (Agree api)
          (ReadsConfigMap api (resource_key namespace) objects own) Found (Agree-IsStable api)
          Found-IsStable server.get_config_map found)
        (without_secret e)

  -- With a server that keeps IsSharedServer, that is, while other operators work at the same time
  -- whose steps are all allowed, and keys that keep IsKeyCodec: if the secret and the config map,
  -- where both are there, agree on the key at the start, they agree at the end, and every step that
  -- this operator has taken is an allowed one, if those before were: no secret is replaced, no config
  -- map is made without a secret, and none with another key is left beside one.
  pub ensure_operator_resources-AllAllowed :
      (w : World)
      → Both api (objects w).secret (objects w).config_map
      → AllAllowed api namespace objects own server codec w
      → Both api
          (objects (ensure_operator_resources api namespace w).1).secret
          (objects (ensure_operator_resources api namespace w).1).config_map
        × AllAllowed api namespace objects own server codec
            (ensure_operator_resources api namespace w).1
  unfolding ensure_operator_resources
  ensure_operator_resources-AllAllowed w agree allowed =
      (Ends-given _ _
          (called api namespace objects own server codec _ (Agree api)
            (ReadsSecret api (resource_key namespace) objects own) SeenSecret (Agree-IsStable api)
            SeenSecret-IsStable server.get_secret seen_secret)
          after_secret).at
        w (agree, allowed)
