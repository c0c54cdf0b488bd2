-- ===== src/Resources/Shared/Writing.antt =====
-- The writes of one operator while others work.
use vm_file_restore_operator.Base.{◌≡◌, refl, sym, subst, String, List}
use vm_file_restore_operator.Errors.{Result, ok, err}
use vm_file_restore_operator.Types.{Bytes, Secret}
use vm_file_restore_operator.Monad.{pure, ◌>>=◌, on_result}
use vm_file_restore_operator.Monad.Rules.{ends_rules, Ends, Ends-given, Ends-bind, Ends-on_result}
use vm_file_restore_operator.Resources.{ResourceApi, ConfigMap}
use vm_file_restore_operator.Resources.Server.{IsKeyCodec}
use vm_file_restore_operator.Resources.Ensure.{
  resource_key, with_tars, create_config_map, store_keypair, update_again, update_archives,
  ensure_helper_tars, secret_of, with_archives, refuse,
}
use vm_file_restore_operator.Resources.Ensure.Pairing.{Opens, Paired}
use vm_file_restore_operator.Resources.Shared.{Objects, Allowed, CreatesSecret, IsSharedServer}
use vm_file_restore_operator.Resources.Shared.Steps.{
  Agree, NoOrphan, Held, IsStable, Held-IsStable, NoOrphan-IsStable, stored_secret,
}
use vm_file_restore_operator.Resources.Shared.Calls.{
  Holds, In, Seen, called, ends, ends-Held, create_config_map-Good, updated, read,
}

module _ (api : ResourceApi) (namespace : String) (objects : api.World → Objects)
    (own : api.World → List (Objects × Objects))
    (server : IsSharedServer api (resource_key namespace) objects own)
    (codec : IsKeyCodec api) where
  open api use {World}

  abbrev pub Kept : (Objects → Type 0) → World → Type 0
  Kept = Holds api namespace objects own server codec

  abbrev pub Fine : {A : Type 0} → A → World → Type 0
  Fine a = Kept (Agree api)

  module _ (s : Secret) where
    abbrev pub Here : World → Type 0
    Here = In api namespace objects own server codec s

    pub ends-Here : {A : Type 0} (a : A) → Ends Here Fine (pure a)
    ends-Here a = ends-Held api namespace objects own server codec s a

    refetched-Good :
        (l r : Bytes) (answer : Result ConfigMap)
        → Ends (Kept (Seen api namespace objects own server codec s answer)) Fine (
            on_result answer (refuse api "failed to re-fetch ConfigMap after conflict") (λ cm. do
              updated ← api.update_config_map (with_archives l r cm)
              on_result updated
                  (refuse api "failed to update ConfigMap with helper tars (after conflict retry)")
                  (λ _. pure (ok tt))))
    unfolding on_result Seen
    refetched-Good l r (err e) = ends-Here _
    refetched-Good l r (ok cm) = record {
      at = λ w h.
          let keeps = updated api namespace objects own server codec s l r cm h.0.1 h.0.2 in
          let after : Ends Here Fine (do
            answer ← api.update_config_map (with_archives l r cm)
            on_result answer
                (refuse api "failed to update ConfigMap with helper tars (after conflict retry)")
                (λ _. pure (ok tt))) =
            Ends-bind _ _ keeps (λ a. Ends-on_result a _ _ (λ e. ends-Here _) (λ _. ends-Here _)) in
          after.at w (h.0.0, h.1);
    }

    update_again-Good :
        (l r : Bytes) → Ends Here Fine (update_again api l r (resource_key namespace))
    unfolding update_again
    update_again-Good l r =
        Ends-given _ _ (read api namespace objects own server codec s) (refetched-Good l r)

    pub ensure_helper_tars-Good :
        (cm : ConfigMap)
        → Paired api s cm
        → cm.key ≡ resource_key namespace
        → Ends Here Fine (ensure_helper_tars api cm)
    unfolding ensure_helper_tars with_tars update_archives
    ensure_helper_tars-Good cm p named =
        let again : (l r : Bytes) → Ends Here Fine (update_again api l r cm.key) = λ l r.
          subst (λ k. Ends Here Fine (update_again api l r k)) (sym named)
            (update_again-Good l r) in
        search
          (ends_rules, ends-Here, again, updated api namespace objects own server codec s, p, named)
          depth 14

  pub ends-Agree : {A : Type 0} (a : A) → Ends (Kept (Agree api)) Fine (pure a)
  ends-Agree a = ends api namespace objects own server codec (Agree api) a (λ o h. h)

  -- After the attempt to store the secret.
  abbrev Stored : Secret → Result (Unit {0}) → Objects → Type 0
  Stored s (ok _) o = Held api s o
  Stored s (err _) o = Agree api o

  Stored-IsStable : (s : Secret) (a : Result (Unit {0})) → IsStable api (Stored s a)
  Stored-IsStable s (ok _) o o' a h = Held-IsStable api s o o' a h
  Stored-IsStable s (err _) o o' a h = a.agree h

  stored :
      (s : Secret) (a : Result (Unit {0})) (o o' : Objects)
      → CreatesSecret api (resource_key namespace) objects own s a o o'
      → NoOrphan api o
      → Stored s a o' × Allowed api o o'
  stored s a o o' step h =
      let (agree, allowed) = stored_secret api s o o' h step.written in
      elim a as (λ x. (x ≡ a) → Stored s x o' × Allowed api o o') [
        | err e ↦ λ _. (agree, allowed)
        | ok x ↦ λ e. (record { held = step.done (sym e); agree = agree }, allowed)
      ]
        refl

  after_secret-Good :
      (s : Secret) (public : String)
      → Opens api s public
      → (answer : Result (Unit {0}))
      → Ends (Kept (Stored s answer)) Fine (
          on_result answer
            (refuse api "failed to create Secret")
            (λ _. create_config_map api namespace public))
  unfolding on_result
  after_secret-Good s public opens (ok _) =
      create_config_map-Good api namespace objects own server codec s public opens
  after_secret-Good s public opens (err e) = ends-Agree _

  pub store_keypair-Good :
      (pem : Bytes) (public : String)
      → Opens api (secret_of pem) public
      → Ends (Kept (NoOrphan api)) Fine (store_keypair api namespace pem public)
  unfolding store_keypair
  store_keypair-Good pem public opens =
      Ends-given _ _
        (called api namespace objects own server codec _ (NoOrphan api)
          (CreatesSecret api (resource_key namespace) objects own (secret_of pem))
          (Stored (secret_of pem)) (NoOrphan-IsStable api) (Stored-IsStable (secret_of pem))
          (server.create_secret (secret_of pem)) (stored (secret_of pem)))
        (after_secret-Good (secret_of pem) public opens)
