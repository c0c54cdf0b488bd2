-- ===== src/Resources/Ensure/Pairing/Keys.antt =====
-- A new key pair, and the public key of one that is there.
use vm_file_restore_operator.Base.{◌≡◌, ◌∙◌, ap, refl, String, Option, none, some, [], ◌∷◌}
use vm_file_restore_operator.Errors.{Result, ok, err}
use vm_file_restore_operator.Types.{Bytes, Secret}
use vm_file_restore_operator.Monad.{pure, on_result}
use vm_file_restore_operator.Monad.Rules.{Ends, Ends-given, Ends-on_answer}
use vm_file_restore_operator.Controller.Access.{ssh_auth_private_key}
use vm_file_restore_operator.Resources.{ResourceApi, ConfigMap}
use vm_file_restore_operator.Resources.Server.{IsResourceServer, IsKeyCodec}
use vm_file_restore_operator.Resources.Ensure.{
  resource_key, publish_key_of, store_keypair, create_keypair_and_config_map, secret_of, refuse,
  create_config_map,
}
use vm_file_restore_operator.Resources.Ensure.Pairing.{Opens}
use vm_file_restore_operator.Resources.Ensure.Pairing.Writes.{
  Consistent, Held, Outcome, refuse-Outcome, without_secret, without_config_map,
  create_config_map-Outcome,
}

module _ (api : ResourceApi) (namespace : String) (secret_in : api.World → Option Secret)
    (config_map_in : api.World → Option ConfigMap)
    (server : IsResourceServer api (resource_key namespace) secret_in config_map_in)
    (codec : IsKeyCodec api) where
  open api use {World}

  abbrev pub Out : Result (Unit {0}) → World → Type 0
  Out = Outcome api namespace secret_in config_map_in server

  abbrev pub In : Secret → World → Type 0
  In = Held api namespace secret_in config_map_in server

  abbrev pub Agree : World → Type 0
  Agree = Consistent api namespace secret_in config_map_in server

  pub publish_key_of-Outcome :
      (s : Secret) (pem : Option Bytes)
      → s.values ssh_auth_private_key ≡ pem
      → Ends (In s) Out (publish_key_of api namespace pem)
  unfolding publish_key_of pure
  publish_key_of-Outcome s none e = record { at = λ w h. h.consistent }
  publish_key_of-Outcome s (some []) e = record { at = λ w h. h.consistent }
  publish_key_of-Outcome s (some (b ∷ bs)) e =
      Ends-on_answer _ _ _
        (λ x _.
          refuse-Outcome api namespace secret_in config_map_in server _ x (λ w h. h.consistent))
        λ signer parsed.
          create_config_map-Outcome api namespace secret_in config_map_in server s _ (record {
            pem = b ∷ bs;
            signer = signer;
            stored = e;
            parsed = parsed;
            published = refl;
          })

  -- Neither is there.
  pub record Empty (w : World) : Type 0 where
    pub no_secret : secret_in w ≡ none
    pub no_config_map : config_map_in w ≡ none

  pub Empty-Agree : (w : World) → Empty w → Agree w
  Empty-Agree w h = without_secret api namespace secret_in config_map_in server w h.no_secret

  -- After the attempt to create the secret.
  Stored : Secret → Result (Unit {0}) → World → Type 0
  Stored s (ok _) w = In s w
  Stored s (err _) w = Agree w

  stored :
      (s : Secret) (w : World) (answer : Result (Unit {0}))
      → (api.create_secret (resource_key namespace) s w).0 ≡ answer
      → Empty w
      → Stored s answer (api.create_secret (resource_key namespace) s w).1
  unfolding Stored
  stored s w (ok _) e h = record {
    held = server.create_secret_ok s w e;
    consistent =
        without_config_map api namespace secret_in config_map_in server _
          (server.create_secret-config_map s w ∙ h.no_config_map);
  }
  stored s w (err x) e h =
      without_config_map api namespace secret_in config_map_in server _
        (server.create_secret-config_map s w ∙ h.no_config_map)

  after_secret-Outcome :
      (s : Secret) (public : String)
      → Opens api s public
      → (answer : Result (Unit {0}))
      → Ends (Stored s answer) Out (
          on_result answer
            (refuse api "failed to create Secret")
            (λ _. create_config_map api namespace public))
  unfolding on_result Stored
  after_secret-Outcome s public opens (ok _) =
      create_config_map-Outcome api namespace secret_in config_map_in server s public opens
  after_secret-Outcome s public opens (err e) =
      refuse-Outcome api namespace secret_in config_map_in server _ e (λ w h. h)

  store_keypair-Outcome :
      (pem : Bytes) (public : String)
      → Opens api (secret_of pem) public
      → Ends Empty Out (store_keypair api namespace pem public)
  unfolding store_keypair
  store_keypair-Outcome pem public opens =
      let call : Ends Empty (Stored (secret_of pem))
          (api.create_secret (resource_key namespace) (secret_of pem)) =
        record { at = λ w h. stored (secret_of pem) w _ refl h } in
      Ends-given _ _ call (after_secret-Outcome (secret_of pem) public opens)

  -- What is known of the generated keys.
  Generated : Result (api.PublicKey × api.PrivateKey) → World → Type 0
  Generated (err _) w = Empty w
  Generated (ok keys) w =
      Empty w
      × ((block : api.Block) (public : api.SshPublicKey)
          → api.marshal_private_key keys.1 ≡ ok block
          → api.new_public_key keys.0 ≡ ok public
          → Opens api (secret_of (api.encode_to_memory block)) (api.marshal_authorized_key public))

  generated :
      (w : World) (answer : Result (api.PublicKey × api.PrivateKey))
      → (api.generate_key w).0 ≡ answer
      → Empty w
      → Generated answer (api.generate_key w).1
  unfolding Generated
  generated w answer e h =
      let still : Empty (api.generate_key w).1 = record {
        no_secret = server.generate_key-secret w ∙ h.no_secret;
        no_config_map = server.generate_key-config_map w ∙ h.no_config_map;
      } in
      elim answer as (λ a. (api.generate_key w).0 ≡ a → Generated a (api.generate_key w).1) [
        | err x ↦ λ _. still
        | ok keys ↦ λ made. (
          still,
          λ block public m n.
              let (signer, parsed, same) = codec.generated w keys.0 keys.1 block public made m n in
              record {
                pem = api.encode_to_memory block;
                signer = signer;
                stored = refl;
                parsed = parsed;
                published = ap api.marshal_authorized_key same;
              },
        )
      ]
        e

  after_keys-Outcome :
      (answer : Result (api.PublicKey × api.PrivateKey))
      → Ends (Generated answer) Out (
          on_result answer (refuse api "failed to generate keypair") (λ keys.
            on_result
              (api.marshal_private_key keys.1)
              (refuse api "failed to marshal private key")
              (λ block.
                on_result
                  (api.new_public_key keys.0)
                  (refuse api "failed to create SSH public key")
                  (λ public.
                    store_keypair api namespace
                      (api.encode_to_memory block)
                      (api.marshal_authorized_key public)))))
  unfolding on_result Generated
  after_keys-Outcome (err e) =
      refuse-Outcome api namespace secret_in config_map_in server _ e Empty-Agree
  after_keys-Outcome (ok keys) =
      Ends-on_answer _ _ _
        (λ e _.
          refuse-Outcome api namespace secret_in config_map_in server _ e
            (λ w h. Empty-Agree w h.0))
        λ block marshalled.
          Ends-on_answer _ _ _
            (λ e _.
              refuse-Outcome api namespace secret_in config_map_in server _ e
                (λ w h. Empty-Agree w h.0))
            λ public converted. record {
              at = λ w h.
                  (store_keypair-Outcome _ _ (h.1 block public marshalled converted)).at w h.0;
            }

  pub create_keypair-Outcome : Ends Empty Out (create_keypair_and_config_map api namespace)
  unfolding create_keypair_and_config_map
  create_keypair-Outcome =
      let call : Ends Empty Generated api.generate_key = record {
        at = λ w h. generated w _ refl h;
      } in
      Ends-given _ _ call after_keys-Outcome
