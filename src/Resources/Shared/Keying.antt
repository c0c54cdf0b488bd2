-- ===== src/Resources/Shared/Keying.antt =====
-- A new key pair while others work.
use vm_file_restore_operator.Base.{◌≡◌, refl, ap, String, List, none, true, if◌then◌else◌}
use vm_file_restore_operator.Errors.{Error, Result, ok, err, is_not_found}
use vm_file_restore_operator.Monad.{pure, on_result}
use vm_file_restore_operator.Monad.Rules.{Ends, Ends-given, Ends-on_answer, Ends-if, Ends-from}
use vm_file_restore_operator.Resources.{ResourceApi}
use vm_file_restore_operator.Resources.Server.{IsKeyCodec}
use vm_file_restore_operator.Resources.Ensure.{
  resource_key, store_keypair, create_keypair_and_config_map, secret_of, refuse,
}
use vm_file_restore_operator.Resources.Ensure.Pairing.{Opens}
use vm_file_restore_operator.Resources.Shared.{Objects, Deletes, IsSharedServer}
use vm_file_restore_operator.Resources.Shared.Steps.{
  Agree, NoOrphan, IsStable, Agree-IsStable, NoOrphan-IsStable, nothing_done, removed,
}
use vm_file_restore_operator.Resources.Shared.Calls.{called, ends}
use vm_file_restore_operator.Resources.Shared.Writing.{Kept, ends-Agree, store_keypair-Good}

module _ (api : ResourceApi) (namespace : String) (objects : api.World → Objects)
    (own : api.World → List (Objects × Objects))
    (server : IsSharedServer api (resource_key namespace) objects own)
    (codec : IsKeyCodec api) where
  open api use {World}

  abbrev pub At : (Objects → Type 0) → World → Type 0
  At = Kept api namespace objects own server codec

  abbrev pub Fair : {A : Type 0} → A → World → Type 0
  Fair a = At (Agree api)

  pub done-Agree : {A : Type 0} (a : A) → Ends (At (Agree api)) Fair (pure a)
  done-Agree a = ends-Agree api namespace objects own server codec a

  done-NoOrphan : {A : Type 0} (a : A) → Ends (At (NoOrphan api)) Fair (pure a)
  done-NoOrphan a = ends api namespace objects own server codec (NoOrphan api) a (λ o h. h.agree)

  -- What is known of the generated keys.
  abbrev Generated : Result (api.PublicKey × api.PrivateKey) → Type 0
  Generated (err _) = Unit
  Generated (ok keys) =
      (block : api.Block) (public : api.SshPublicKey)
      → api.marshal_private_key keys.1 ≡ ok block
      → api.new_public_key keys.0 ≡ ok public
      → Opens api (secret_of (api.encode_to_memory block)) (api.marshal_authorized_key public)

  generated :
      (w : World) (answer : Result (api.PublicKey × api.PrivateKey))
      → (api.generate_key w).0 ≡ answer
      → Generated answer
  generated w (err x) made = tt
  generated w (ok keys) made = λ block public m n.
      let (signer, parsed, same) = codec.generated w keys.0 keys.1 block public made m n in
      record {
        pem = api.encode_to_memory block;
        signer = signer;
        stored = refl;
        parsed = parsed;
        published = ap api.marshal_authorized_key same;
      }

  generate : Ends (At (NoOrphan api)) (λ a w. At (NoOrphan api) w × Generated a) api.generate_key
  generate = record {
    at = λ w h.
        let call =
          called api namespace objects own server codec api.generate_key (NoOrphan api)
            (λ _ o o'. o' ≡ o) (λ _. NoOrphan api) (NoOrphan-IsStable api)
            (λ _. NoOrphan-IsStable api) server.generate_key
            (λ _ o o' e g. (rw e g, nothing_done api o o' e)) in
        (call.at w h, generated w _ refl);
  }

  after_keys-Good :
      (answer : Result (api.PublicKey × api.PrivateKey))
      → Ends
          (λ w. At (NoOrphan api) w × Generated answer)
          Fair
          (on_result answer (refuse api "failed to generate keypair") (λ keys.
            on_result
              (api.marshal_private_key keys.1)
              (refuse api "failed to marshal private key")
              (λ block.
                on_result
                  (api.new_public_key keys.0)
                  (refuse api "failed to create SSH public key")
                  (λ public.
                    store_keypair api namespace
                      (api.encode_to_memory block)
                      (api.marshal_authorized_key public)))))
  unfolding on_result
  after_keys-Good (err e) = Ends-from _ (λ w h. h.0) (done-NoOrphan _)
  after_keys-Good (ok keys) =
      Ends-on_answer _ _ _ (λ e _. Ends-from _ (λ w h. h.0) (done-NoOrphan _))
        λ block marshalled.
          Ends-on_answer _ _ _ (λ e _. Ends-from _ (λ w h. h.0) (done-NoOrphan _))
            λ public converted. record {
              at = λ w h.
                  (store_keypair-Good api namespace objects own server codec _ _
                      (h.1 block public marshalled converted)).at
                    w h.0;
            }

  pub create_keypair-Good :
      Ends (At (NoOrphan api)) Fair (create_keypair_and_config_map api namespace)
  unfolding create_keypair_and_config_map
  create_keypair-Good = Ends-given _ _ generate after_keys-Good

  -- After an answer that may say that there is no config map.
  pub record Cleared (absent : Type 0) (o : Objects) : Type 0 where
    pub agree : Agree api o
    pub cleared : absent → NoOrphan api o

  pub Cleared-IsStable : (absent : Type 0) → IsStable api (Cleared absent)
  Cleared-IsStable absent o o' a h = record {
    agree = a.agree h.agree;
    cleared = λ x. NoOrphan-IsStable api o o' a (h.cleared x);
  }

  abbrev pub Says : {A : Type 0} → Result A → Type 0
  Says (ok _) = Unit
  Says (err e) = is_not_found e ≡ true

  pub gone : (o : Objects) → Agree api o → o.config_map ≡ none → NoOrphan api o
  gone o h e = record { agree = h; none_there = λ _. e }

  Says-gone :
      (a : Result (Unit {0})) (o o' : Objects)
      → Deletes api (resource_key namespace) objects own a o o'
      → Says a
      → o'.config_map ≡ none
  Says-gone (ok x) o o' step h = step.done refl
  Says-gone (err e) o o' step h = step.missing e refl h

  pub delete :
      Ends
        (At (Agree api))
        (λ a. At (Cleared (Says a)))
        (api.delete_config_map (resource_key namespace))
  delete =
      called api namespace objects own server codec _ (Agree api)
        (Deletes api (resource_key namespace) objects own) (λ a. Cleared (Says a))
        (Agree-IsStable api) (λ a. Cleared-IsStable (Says a)) server.delete_config_map
        (λ a o o' step h.
          let (agree, allowed) = removed api o o' h step.written in
          (
            record { agree = agree; cleared = λ x. gone o' agree (Says-gone a o o' step x) },
            allowed,
          ))

  -- On with a new key pair only where there is no config map.
  pub unless_refused :
      (absent : Type 0) (context : String) (e : Error)
      → (is_not_found e ≡ true → absent)
      → Ends (At (Cleared absent)) Fair (
          if is_not_found e
          then create_keypair_and_config_map api namespace
          else refuse api context e)
  unless_refused absent context e k =
      Ends-if (is_not_found e) _ _
        (λ missing. Ends-from _ (λ w h. (h.0.cleared (k missing), h.1)) create_keypair-Good)
        (λ _. Ends-from _ (λ w h. (h.0.agree, h.1)) (done-Agree _))
